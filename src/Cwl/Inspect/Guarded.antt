-- ===== src/Cwl/Inspect/Guarded.antt =====
-- Which URLs the endpoint opens.
use openeo_argoworkflows.Base.{
  true, false, Option, none, some, [], ◌∷◌, ◌++◌, ◌≡◌, refl, sym, ap, ◌∙◌, inl, inr, ◌∈◌,
  Bool-cases, Option-cases, arith,
}
use openeo_argoworkflows.Base.Lists.{In}
use openeo_argoworkflows.Base.Text.{Text, codes, lower, starts_with, starts_with_sound, text_eq}
use openeo_argoworkflows.Cwl.Inspect.{
  CwlInspectRequest, Web, before_mark, scheme_of, allowed_schemes, fetch_cwl_text, has_url, has_cwl,
  or_no_url, cwl_inputs_inspect,
}

some_injective : {a b : Text} → some a ≡ some b → a ≡ b
some_injective e = cc

before_mark_lem :
    (url t : Text) → before_mark url ≡ some t → (rest : Text) × (url ≡ t ++ (codes "://" ++ rest))
unfolding before_mark
before_mark_lem [] t h = cc
before_mark_lem (c ∷ s) t h = elim (Bool-cases (starts_with (c ∷ s) (codes "://"))) [
  | inl here ↦
      let (rest, e) = starts_with_sound (c ∷ s) (codes "://") here in
      (
        rest,
        e
            ∙ ap (λ x. x ++ (codes "://" ++ rest))
                (some_injective {a = []} (ground (arith, here, h))),
      )
  | inr later ↦ elim (Option-cases (before_mark s)) [
    | inl absent ↦ ground (arith, later, absent, h)
    | inr (u, found) ↦
        let (rest, e) = before_mark_lem s u found in
        (
          rest,
          ap (λ x. c ∷ x) e
              ∙ ap (λ x. x ++ (codes "://" ++ rest))
                  (some_injective {a = c ∷ u} (ground (arith, later, found, h))),
        )
  ]
]

no_scheme : ([] ∈ allowed_schemes) ≡ false
unfolding text_eq
no_scheme = refl

scheme_of_lem :
    (url : Text)
    → (scheme_of url ∈ allowed_schemes) ≡ true
    → (scheme rest : Text) × (url ≡ scheme ++ (codes "://" ++ rest))
      × ((lower scheme ∈ allowed_schemes) ≡ true)
unfolding scheme_of
scheme_of_lem url h = elim (Option-cases (before_mark url)) [
  | inl absent ↦ ground (arith, absent, no_scheme, h)
  | inr (t, found) ↦
      let (rest, e) = before_mark_lem url t found in (t, rest, e, ground (arith, found, h))
]

has_url-some : (o : Option Text) → has_url o ≡ true → o ≡ some (or_no_url o)
unfolding has_url or_no_url
has_url-some none h = cc
has_url-some (some url) h = refl

-- The endpoint opens no URL but the one of a request that has no document with it, and that one only
-- if it starts with http:// or https://, in any letter case.
pub cwl_inputs_inspect-IsAllowed :
    (web : Web) (body : CwlInspectRequest) (url : Text)
    → In url (cwl_inputs_inspect web body).1
    → (body.url ≡ some url)
      × (has_cwl body.cwl ≡ false)
      × (scheme rest : Text) × (url ≡ scheme ++ (codes "://" ++ rest))
      × ((lower scheme ∈ allowed_schemes) ≡ true)
unfolding cwl_inputs_inspect fetch_cwl_text
cwl_inputs_inspect-IsAllowed web body url m = elim (Bool-cases (has_url body.url)) [
  | inr no_url ↦ ground (arith, no_url, m)
  | inl given ↦ elim (Bool-cases (has_cwl body.cwl)) [
    | inl both ↦ ground (arith, given, both, m)
    | inr alone ↦ elim (Bool-cases (scheme_of (or_no_url body.url) ∈ allowed_schemes)) [
      | inr refused ↦ ground (arith, given, alone, refused, m)
      | inl allowed ↦
          let same : url ≡ or_no_url body.url = ground (arith, given, alone, allowed, m) in
          let (scheme, rest, e, known) =
            scheme_of_lem url (ap (λ u. scheme_of u ∈ allowed_schemes) same ∙ allowed) in
          (has_url-some body.url given ∙ ap some (sym same), alone, scheme, rest, e, known)
    ]
  ]
]

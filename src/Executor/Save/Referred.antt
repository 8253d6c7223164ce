-- ===== src/Executor/Save/Referred.antt =====
-- The assets that a STAC document refers to, and where their hrefs lead.
use mathlib.Core.Path.{subst}
use openeo_argoworkflows.Base.{
  ℕ, true, false, ◌||◌, Option, none, some, [], ◌∷◌, ◌++◌, ◌==◌, ◌≡◌, ◌≢◌, ◌⊎◌, refl, sym, ap, ◌∙◌,
  inl, inr, nat_eq, Bool-cases, arith,
}
use openeo_argoworkflows.Base.Text.{Text, codes, text_eq, contains, starts_with, child}
use openeo_argoworkflows.Executor.Save.{lstrip_dots, resolve_local_href}

-- Dots and slashes only.
abbrev pub IsDots : Text → Type 0
IsDots [] = Unit
IsDots (c ∷ s) = ((c ≡ b'.') ⊎ (c ≡ b'/')) × IsDots s

abbrev pub StartsPlain : Text → Type 0
StartsPlain [] = Unit
StartsPlain (c ∷ s) = (c ≢ b'.') × (c ≢ b'/')

-- A path stands alone; another href, without the dots and slashes at its start, counts from a
-- directory. A URL and an empty href lead nowhere.
pub data LeadsTo (base : Text) : Text → Text → Type 0 where
  absolute :
      {href : Text}
      → href ≢ []
      → contains href (codes "://") ≡ false
      → starts_with href (codes "/") ≡ true
      → LeadsTo base href href
  relative :
      (href dots rest : Text)
      → href ≢ []
      → contains href (codes "://") ≡ false
      → starts_with href (codes "/") ≡ false
      → href ≡ dots ++ rest
      → IsDots dots
      → StartsPlain rest
      → LeadsTo base href (child base rest)

lstrip_dot : (c : ℕ) (s : Text) → (c ≡ b'.') ⊎ (c ≡ b'/') → lstrip_dots (c ∷ s) ≡ lstrip_dots s
unfolding lstrip_dots
lstrip_dot c s (inl e) = ground (arith, e)
lstrip_dot c s (inr e) = ground (arith, e)

lstrip_plain : (c : ℕ) (s : Text) → c ≢ b'.' → c ≢ b'/' → lstrip_dots (c ∷ s) ≡ c ∷ s
unfolding lstrip_dots
lstrip_plain c s m n = ground (arith, m, n)

lstrip_dots-IsDots :
    (s : Text)
    → (dots : Text) × (s ≡ dots ++ lstrip_dots s) × IsDots dots × StartsPlain (lstrip_dots s)
unfolding lstrip_dots
lstrip_dots-IsDots [] = ([], refl, tt, tt)
lstrip_dots-IsDots (c ∷ s) =
    let (dots, e, d, plain) = lstrip_dots-IsDots s in
    elim (nat_eq.decide c b'.') [
      | yes dot ↦ stripped c s (inl dot) dots e d plain
      | no m ↦ elim (nat_eq.decide c b'/') [
        | yes slash ↦ stripped c s (inr slash) dots e d plain
        | no n ↦ (
          [],
          sym (lstrip_plain c s m n),
          tt,
          subst StartsPlain (sym (lstrip_plain c s m n)) (m, n),
        )
      ]
    ]
  where
    stripped :
        (c : ℕ) (s : Text)
        → (c ≡ b'.') ⊎ (c ≡ b'/')
        → (dots : Text) → s ≡ dots ++ lstrip_dots s
        → IsDots dots
        → StartsPlain (lstrip_dots s)
        → (all : Text) × (c ∷ s ≡ all ++ lstrip_dots (c ∷ s))
          × IsDots all
          × StartsPlain (lstrip_dots (c ∷ s))
    stripped c s h dots e d plain = (
      c ∷ dots,
      ap (λ t. c ∷ t) (e ∙ ap (λ t. dots ++ t) (sym (lstrip_dot c s h))),
      (h, d),
      subst StartsPlain (sym (lstrip_dot c s h)) plain,
    )

lstrip_dots-plain : (s : Text) → StartsPlain s → lstrip_dots s ≡ s
unfolding lstrip_dots
lstrip_dots-plain [] h = refl
lstrip_dots-plain (c ∷ s) (m, n) = lstrip_plain c s m n

lstrip_dots-append :
    (dots rest : Text) → IsDots dots → StartsPlain rest → lstrip_dots (dots ++ rest) ≡ rest
lstrip_dots-append [] rest d plain = lstrip_dots-plain rest plain
lstrip_dots-append (c ∷ dots) rest (h, d) plain =
    lstrip_dot c (dots ++ rest) h ∙ lstrip_dots-append dots rest d plain

pub some_injective : {a b : Text} → some a ≡ some b → a ≡ b
some_injective e = cc

pub none_not_some : {A : Type 0} {a : A} → ◌≢◌ none (some a)
none_not_some e = cc

resolve-LeadsTo :
    (href base path : Text)
    → resolve_local_href (some href) base ≡ some path
    → LeadsTo base href path
unfolding resolve_local_href
resolve-LeadsTo href base path h = elim (Bool-cases (href == [] || contains href (codes "://"))) [
  | inl nowhere ↦ ground (arith, nowhere, h)
  | inr local ↦ elim (Bool-cases (starts_with href (codes "/"))) [
    | inl abs ↦
        subst (LeadsTo base href) (some_injective (ground (arith, local, abs, h)))
          (absolute {href = href} (ground (arith, local)) (ground (arith, local)) abs)
    | inr rel ↦
        let (dots, e, d, plain) = lstrip_dots-IsDots href in
        subst (LeadsTo base href) (some_injective (ground (arith, local, rel, h))) (
          relative href dots (lstrip_dots href) (ground (arith, local)) (ground (arith, local)) rel
            e d plain)
  ]
]

resolve_absolute :
    (href base : Text)
    → href ≢ []
    → contains href (codes "://") ≡ false
    → starts_with href (codes "/") ≡ true
    → resolve_local_href (some href) base ≡ some href
unfolding resolve_local_href
resolve_absolute href base n local abs = ground (arith, n, local, abs)

resolve_relative :
    (href base : Text)
    → href ≢ []
    → contains href (codes "://") ≡ false
    → starts_with href (codes "/") ≡ false
    → resolve_local_href (some href) base ≡ some (child base (lstrip_dots href))
unfolding resolve_local_href
resolve_relative href base n local rel = ground (arith, n, local, rel)

pub LeadsTo-resolve :
    (base href path : Text)
    → LeadsTo base href path
    → resolve_local_href (some href) base ≡ some path
LeadsTo-resolve base href path (absolute n local abs) = resolve_absolute href base n local abs
LeadsTo-resolve base href path (relative h dots rest n local rel e d plain) =
    resolve_relative href base n local rel
    ∙ ap (λ t. some (child base t)) (ap lstrip_dots e ∙ lstrip_dots-append dots rest d plain)

pub resolve_local_href-LeadsTo :
    (o : Option Text) (base path : Text)
    → resolve_local_href o base ≡ some path
    → (href : Text) × (o ≡ some href) × LeadsTo base href path
unfolding resolve_local_href
resolve_local_href-LeadsTo none base path h = absurd (none_not_some h)
resolve_local_href-LeadsTo (some href) base path h = (href, refl, resolve-LeadsTo href base path h)

-- ===== src/Executor/Load/Bands.antt =====
-- The assets that are loaded when no bands are asked for.
use mathlib.Core.Path.{subst}
use openeo_argoworkflows.Base.{
  Bool, true, false, not, ◌&&◌, some, List, [], ◌∷◌, ◌≡◌, refl, sym, ap, ◌∙◌, inl, inr, ◌∈◌, nat_eq,
  Option-cases, arith,
}
use openeo_argoworkflows.Base.Lists.{In, In-filter_by, filter_by}
use openeo_argoworkflows.Base.Text.{Text, text_eq}
use openeo_argoworkflows.Executor.Load.{
  non_data_assets, known_data_assets, some_bands, detect_bands,
}

-- Names of one list are none of those of another.
apart : List Text → List Text → Bool
apart [] ys = true
apart (x ∷ xs) ys = not (x ∈ ys) && apart xs ys

apart_lem : (xs ys : List Text) (a : Text) → apart xs ys ≡ true → (a ∈ xs) ≡ true → (a ∈ ys) ≡ false
unfolding apart
apart_lem [] ys a h m = cc
apart_lem (x ∷ xs) ys a h m = elim (text_eq.decide a x) [
  | yes e ↦ ap (λ b. b ∈ ys) e ∙ ground (arith, h)
  | no n ↦ apart_lem xs ys a (ground (arith, h)) (ground (arith, n, m))
]

known_not_excluded : apart known_data_assets non_data_assets ≡ true
unfolding apart text_eq
known_not_excluded = refl

some_bands-some : (xs bs : List Text) → some_bands xs ≡ some bs → xs ≡ bs
unfolding some_bands
some_bands-some [] bs h = cc
some_bands-some (x ∷ xs) bs h = cc

pub detected_lem :
    (available bs : List Text) (a : Text)
    → detect_bands available ≡ some bs
    → In a bs
    → In a available × ((a ∈ non_data_assets) ≡ false)
unfolding detect_bands
detected_lem available bs a h m =
    elim (Option-cases (some_bands (filter_by (λ b. b ∈ known_data_assets) available))) [
      | inr (ks, known) ↦
          let same : ks ≡ bs = ground (arith, known, h) in
          let (there, is) =
            (In-filter_by (λ b. b ∈ known_data_assets) a available).0
              (subst (In a) (sym (some_bands-some _ ks known ∙ same)) m) in
          (there, apart_lem known_data_assets non_data_assets a known_not_excluded is)
      | inl unknown ↦
          let rest : some_bands (filter_by (λ b. not (b ∈ non_data_assets)) available) ≡ some bs =
            ground (arith, unknown, h) in
          let (there, is) =
            (In-filter_by (λ b. not (b ∈ non_data_assets)) a available).0
              (subst (In a) (sym (some_bands-some _ bs rest)) m) in
          (there, ground (arith, is))
    ]

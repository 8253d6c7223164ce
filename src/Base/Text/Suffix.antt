-- ===== src/Base/Text/Suffix.antt =====
-- The end of a text, and the name at the end of a path.
use mathlib.Core.Path.{◌≡◌, refl, sym, ap, ◌∙◌}
use mathlib.Core.Bool.{true}
use mathlib.Core.List.{[], ◌∷◌, ◌++◌, append_assoc}
use mathlib.Core.Logic.{inl, inr}
use native.Mathlib.Omega.{arith}
use openeo_argoworkflows.Base.Equality.{nat_eq, ◌==◌}
use openeo_argoworkflows.Base.Tests.{Bool-cases}
use openeo_argoworkflows.Base.Text.{Text, text_eq, ends_with, basename, basename_from}

ends_with_self : (t : Text) → ends_with t t ≡ true
unfolding ends_with
ends_with_self [] = ground arith
ends_with_self (c ∷ t) = ground arith

ends_with-append : (pre t : Text) → ends_with (pre ++ t) t ≡ true
unfolding ends_with
ends_with-append [] t = ends_with_self t
ends_with-append (c ∷ pre) t = ground (arith, ends_with-append pre t)

basename_from_suffix :
    (whole s p best q : Text)
    → whole ≡ p ++ best
    → whole ≡ q ++ s
    → (pre : Text) × (whole ≡ pre ++ basename_from best s)
unfolding basename_from
basename_from_suffix whole [] p best q e f = (p, e)
basename_from_suffix whole (c ∷ s) p best q e f =
    let g : whole ≡ (q ++ (c ∷ [])) ++ s = f ∙ sym (append_assoc q (c ∷ []) s) in
    elim (Bool-cases (c == b'/')) [
      | inl slash ↦
          let (pre, r) = basename_from_suffix whole s _ s _ g g in (pre, ground (arith, r, slash))
      | inr other ↦
          let (pre, r) = basename_from_suffix whole s p best _ e g in
          (pre, ground (arith, r, other))
    ]

-- A path ends with its name.
pub ends_with-basename : (s : Text) → ends_with s (basename s) ≡ true
unfolding basename
ends_with-basename s =
    let (pre, e) = basename_from_suffix s s [] s [] refl refl in
    ap (λ x. ends_with x (basename s)) e ∙ ends_with-append pre (basename s)

-- ===== src/Base/Split.antt =====
-- Texts cut at a code point: `s.split(c)`, and the place of its first occurrence.
use Prim.Native.Nat.{ℕ}
use mathlib.Core.Path.{◌≡◌, refl}
use mathlib.Core.Bool.{Bool, true, ◌&&◌, not}
use mathlib.Core.Option.{Option, none, some}
use mathlib.Core.List.{List, [], ◌∷◌, ◌++◌}
use native.Mathlib.Omega.{arith}
use openeo_argoworkflows.Base.Equality.{nat_eq, ◌==◌, if◌then◌else◌}
use openeo_argoworkflows.Base.Text.{Text}

-- `c not in s`
unfoldable pub lacks : ℕ → Text → Bool
lacks c [] = true
lacks c (d ∷ s) = not (d == c) && lacks c s

-- What stands before and after the first `c`; `none` if there is no `c`.
unfoldable pub cut : ℕ → Text → Option (Text × Text)
cut c [] = none
cut c (d ∷ s) =
    let rest = cut c s in
    if d == c then some ([], s) else elim rest [ none ↦ none | some (a, b) ↦ some (d ∷ a, b) ]

-- The text before the first `c`, or all of it.
abbrev pub before : ℕ → Text → Text
before c s = elim (cut c s) [ none ↦ s | some (a, b) ↦ a ]

-- The text after the first `c`, or none of it.
abbrev pub after : ℕ → Text → Text
after c s = elim (cut c s) [ none ↦ [] | some (a, b) ↦ b ]

abbrev join_head : ℕ → List Text → List Text
join_head d [] = (d ∷ []) ∷ []
join_head d (a ∷ rest) = (d ∷ a) ∷ rest

-- `s.split(c)`, which is never empty
unfoldable pub split : ℕ → Text → List Text
split c [] = [] ∷ []
split c (d ∷ s) = let rest = split c s in if d == c then [] ∷ rest else join_head d rest

pub lacks-append : (c : ℕ) (a b : Text) → lacks c (a ++ b) ≡ lacks c a && lacks c b
unfolding lacks
lacks-append c [] b = refl
lacks-append c (d ∷ a) b = ground (arith, lacks-append c a b)

pub cut-none : (c : ℕ) (s : Text) → lacks c s ≡ true → cut c s ≡ none
unfolding cut lacks
cut-none c [] h = refl
cut-none c (d ∷ s) h = ground (arith, cut-none c s)

pub cut-append : (c : ℕ) (a b : Text) → lacks c a ≡ true → cut c (a ++ (c ∷ b)) ≡ some (a, b)
unfolding cut lacks
cut-append c [] b h = ground arith
cut-append c (d ∷ a) b h = ground (arith, cut-append c a b)

pub split_one : (c : ℕ) (s : Text) → lacks c s ≡ true → split c s ≡ s ∷ []
unfolding split lacks
split_one c [] h = refl
split_one c (d ∷ s) h = ground (arith, split_one c s)

pub split-append : (c : ℕ) (a b : Text) → lacks c a ≡ true → split c (a ++ (c ∷ b)) ≡ a ∷ split c b
unfolding split lacks
split-append c [] b h = ground arith
split-append c (d ∷ a) b h = ground (arith, split-append c a b)

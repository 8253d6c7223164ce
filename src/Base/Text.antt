-- ===== src/Base/Text.antt =====
-- Text that the program walks: the code points of a `String`. Letter case is that of ASCII.
pub mod Suffix
use Prim.Native.Nat.{ℕ, ◌+◌, ◌-◌}
use Prim.Native.Char.{code}
use Prim.Native.String.{String}
use mathlib.Core.Path.{◌≡◌, refl, ap}
use mathlib.Core.Bool.{Bool, true, false, ◌&&◌, ◌||◌}
use mathlib.Core.Option.{Option, none, some}
use mathlib.Core.List.{List, [], ◌∷◌, ◌++◌, map}
use mathlib.Core.Logic.{inl, inr}
use native.Mathlib.Omega.{arith}
use native.Mathlib.Decide.{ℕ_discrete}
use openeo_argoworkflows.Base.Equality.{Eq, nat_eq, ◌==◌, if◌then◌else◌}
use openeo_argoworkflows.Base.Lists.{length, take}
use openeo_argoworkflows.Base.Tests.{leb, Bool-cases}

abbrev pub Text : Type 0
Text = List ℕ

Text-discrete : Discrete Text
unfolding ℕ_discrete
Text-discrete = hlevel ℕ_discrete

instance unfoldable pub text_eq : Eq Text
unfolding Text-discrete
text_eq = record { decide = Text-discrete }

abbrev pub codes : String → Text
codes String.[] = []
codes (String.◌∷◌ c s) = code c ∷ codes s

-- `str.lower`
unfoldable pub lower_code : ℕ → ℕ
lower_code c = if leb b'A' c && leb c b'Z' then c + 32 else c

unfoldable pub lower : Text → Text
unfolding lower_code
lower = map lower_code

-- `s.startswith(t)`
unfoldable pub starts_with : Text → Text → Bool
unfolding nat_eq
starts_with s [] = true
starts_with [] (d ∷ t) = false
starts_with (c ∷ s) (d ∷ t) = c == d && starts_with s t

-- `t in s`
unfoldable pub contains : Text → Text → Bool
unfolding starts_with
contains [] t = starts_with [] t
contains (c ∷ s) t = starts_with (c ∷ s) t || contains s t

pub starts_with_sound : (s t : Text) → starts_with s t ≡ true → (post : Text) × (s ≡ t ++ post)
unfolding starts_with
starts_with_sound s [] h = (s, refl)
starts_with_sound [] (d ∷ t) h = ground arith
starts_with_sound (c ∷ s) (d ∷ t) h = ground (arith, starts_with_sound s t)

pub starts_with-append : (t post : Text) → starts_with (t ++ post) t ≡ true
unfolding starts_with
starts_with-append [] post = refl
starts_with-append (c ∷ t) post = ground (arith, starts_with-append t post)

contains_here : (s t : Text) → starts_with s t ≡ true → contains s t ≡ true
unfolding contains
contains_here [] t h = h
contains_here (c ∷ s) t h = ground arith

contains_later : (c : ℕ) (s t : Text) → contains s t ≡ true → contains (c ∷ s) t ≡ true
unfolding contains
contains_later c s t h = ground arith

-- A text found within another splits it in three.
pub contains_sound :
    (s t : Text) → contains s t ≡ true → (pre post : Text) × (s ≡ pre ++ (t ++ post))
unfolding contains
contains_sound [] t h = let (post, e) = starts_with_sound [] t h in ([], post, e)
contains_sound (c ∷ s) t h = elim (Bool-cases (starts_with (c ∷ s) t)) [
  | inl first ↦ let (post, e) = starts_with_sound (c ∷ s) t first in ([], post, e)
  | inr later ↦
      let (pre, post, e) = contains_sound s t (ground arith) in (c ∷ pre, post, ap (λ r. c ∷ r) e)
]

pub contains-append : (pre t post : Text) → contains (pre ++ (t ++ post)) t ≡ true
contains-append [] t post = contains_here _ t (starts_with-append t post)
contains-append (c ∷ pre) t post = contains_later c _ t (contains-append pre t post)

-- `s.endswith(t)`
unfoldable pub ends_with : Text → Text → Bool
ends_with [] t = [] == t
ends_with (c ∷ s) t = let rest = ends_with s t in (c ∷ s) == t || rest

basename_from : Text → Text → Text
basename_from best [] = best
basename_from best (c ∷ s) = if c == b'/' then basename_from s s else basename_from best s

-- `Path(s).name`, for a path that does not end in a slash
unfoldable pub basename : Text → Text
unfolding basename_from
basename s = basename_from s s

-- The last dot of a name, as what stands before it and what stands after it.
unfoldable pub last_dot : Text → Option (Text × Text)
last_dot [] = none
last_dot (c ∷ s) = elim (last_dot s) [
  | some (a, b) ↦ some (c ∷ a, b)
  | none ↦ if c == b'.' then some ([], s) else none
]

all_dots : Text → Bool
all_dots [] = true
all_dots (c ∷ s) = c == b'.' && all_dots s

-- `os.path.splitext(name)[1]`: dots at the start of a name are no separators.
unfoldable pub extension : Text → Text
unfolding last_dot all_dots
extension name = elim (last_dot name) [
  | none ↦ []
  | some (a, b) ↦ if all_dots a then [] else b'.' ∷ b
]

-- `a / b` of paths; a second part that starts with a slash stands alone.
unfoldable pub child : Text → Text → Text
child a [] = a
child a (c ∷ b) = if c == b'/' then c ∷ b else a ++ (b'/' ∷ c ∷ b)

-- The text before the last slash.
unfoldable pub parent : Text → Text
unfolding basename
parent path = take (length path - (length (basename path) + 1)) path

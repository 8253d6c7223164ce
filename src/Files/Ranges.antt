-- ===== src/Files/Ranges.antt =====
-- `ByteRange` and `compile_byte_ranges` of files.py. A header is a list of code points in ASCII.
use openeo_argoworkflows.Base.{
  ℕ, zero, suc, ◌+◌, ◌-◌, Bool, false, ◌&&◌, ◌||◌, Option, none, some, List, [], ◌∷◌, ◌==◌,
  if◌then◌else◌, ltb, leb, nat_eq, ◌>>=◌,
}
use openeo_argoworkflows.Base.Lists.{length}
use openeo_argoworkflows.Base.Decimal.{is_digit, int_from}
use openeo_argoworkflows.Base.Text.{Text, codes, contains}

pub record ByteRange : Type 0 where
  pub start : ℕ
  pub stop : Option ℕ
  pub range : Option ℕ

-- The class with both its validators: a start of `None` is 0. `none` is a `ValueError`.
unfoldable pub set_start : Option ℕ → ℕ
set_start none = 0
set_start (some n) = n

unfoldable pub set_range : ℕ → Option ℕ → Option ByteRange
set_range start none = some record { start = start; stop = none; range = none }
set_range start (some e) =
    if ltb start e
    then some record { start = start; stop = some e; range = some (e - start + 1) }
    else none

unfoldable pub byte_range : Option ℕ → Option ℕ → Option ByteRange
unfolding set_range set_start
byte_range start stop = set_range (set_start start) stop

-- The class `\w`
unfoldable pub is_word : ℕ → Bool
unfolding is_digit
is_word c = is_digit c || ((leb b'a' c && leb c b'z') || ((leb b'A' c && leb c b'Z') || c == b'_'))

-- The longest word at the start, and what comes after it.
unfoldable pub word : Text → Text × Text
unfolding is_word
word [] = ([], [])
word (c ∷ s) = let (w, rest) = word s in if is_word c then (c ∷ w, rest) else ([], c ∷ s)

unfoldable pub dashed : Text → Text → Option (Text × Text)
unfolding word
dashed a [] = none
dashed a (d ∷ r) =
    let (b, rest) = word r in
    if d == b'-' && (leb 1 (length a) || leb 1 (length b)) then some (a, b) else none

-- A match of `\w+-\w+|\w+-|-\w+` at the start, split at its dash. A word ends where a dash stands,
-- so the longest word is the only one to try.
unfoldable pub match_at : Text → Option (Text × Text)
unfolding dashed
match_at s = let (a, rest) = word s in dashed a rest

-- `re.findall`: `skip` code points belong to the last match.
unfoldable pub find_all : ℕ → Text → List (Text × Text)
unfolding match_at
find_all skip [] = []
find_all (suc skip) (c ∷ s) = find_all skip s
find_all zero (c ∷ s) = elim (match_at (c ∷ s)) [
  | none ↦ find_all 0 s
  | some (a, b) ↦ (a, b) ∷ find_all (length a + length b) s
]

-- `bytes_eval`; the outer `none` is a `ValueError`
unfoldable pub bytes_eval : Text → Option (Option ℕ)
unfolding int_from
bytes_eval [] = some none
bytes_eval (c ∷ s) = elim (int_from 0 false (c ∷ s)) [ none ↦ none | some n ↦ some (some n) ]

unfoldable pub range_of : Text × Text → Option ByteRange
unfolding bytes_eval byte_range
range_of (a, b) = do start ← bytes_eval a; stop ← bytes_eval b; byte_range start stop

unfoldable pub ranges_of : List (Text × Text) → Option (List ByteRange)
unfolding range_of
ranges_of [] = some []
ranges_of (m ∷ ms) = do r ← range_of m; rs ← ranges_of ms; some (r ∷ rs)

unfoldable pub compile_byte_ranges : Text → Option (List ByteRange)
unfolding contains find_all ranges_of
compile_byte_ranges header =
    if contains header (codes "bytes=") then ranges_of (find_all 0 header) else none

-- ===== src/Auth/Urls.antt =====
-- What auth.py takes of a URL with `urllib.parse`: its path, its query, and whether `parse_qs` finds
-- a parameter in the query.
pub mod Parts
use openeo_argoworkflows.Base.{
  ℕ, Bool, true, false, not, ◌&&◌, ◌||◌, Option, none, some, List, [], ◌∷◌, ◌++◌, ◌==◌,
  if◌then◌else◌, leb, nat_eq,
}
use openeo_argoworkflows.Base.Lists.{drop}
use openeo_argoworkflows.Base.Decimal.{is_digit}
use openeo_argoworkflows.Base.Split.{cut, before, after, split}
use openeo_argoworkflows.Base.Text.{Text, codes, starts_with}

-- White space, for a URL in ASCII.
unfoldable pub is_space : ℕ → Bool
is_space c = c == b' ' || ((leb 9 c && leb c 13) || (leb 28 c && leb c 31))

unfoldable pub lstrip : Text → Text
unfolding is_space
lstrip [] = []
lstrip (c ∷ s) = let rest = lstrip s in if is_space c then rest else c ∷ s

-- A code point in front of a text that has been stripped at its end.
trim_cons : ℕ → Text → Text
unfolding is_space
trim_cons c [] = if is_space c then [] else c ∷ []
trim_cons c (d ∷ s) = c ∷ d ∷ s

unfoldable pub rstrip : Text → Text
unfolding trim_cons
rstrip [] = []
rstrip (c ∷ s) = trim_cons c (rstrip s)

unfoldable pub strip : Text → Text
unfolding lstrip rstrip
strip s = rstrip (lstrip s)

unfoldable pub is_letter : ℕ → Bool
is_letter c = (leb b'a' c && leb c b'z') || (leb b'A' c && leb c b'Z')

all_scheme : Text → Bool
unfolding is_letter is_digit
all_scheme [] = true
all_scheme (c ∷ s) =
    (is_letter c || (is_digit c || (c == b'+' || (c == b'-' || c == b'.')))) && all_scheme s

unfoldable pub is_scheme : Text → Bool
unfolding is_letter all_scheme
is_scheme [] = false
is_scheme (c ∷ s) = is_letter c && all_scheme s

unfoldable pub without_scheme : Text → Text
unfolding is_scheme cut
without_scheme s = elim (cut b':' s) [
  | none ↦ s
  | some (scheme, rest) ↦ if is_scheme scheme then rest else s
]

-- The rest of a text from its first slash on.
unfoldable pub from_slash : Text → Text
from_slash [] = []
from_slash (c ∷ s) = let rest = from_slash s in if c == b'/' then c ∷ s else rest

unfoldable pub without_netloc : Text → Text
unfolding from_slash starts_with
without_netloc s = if starts_with s (codes "//") then from_slash (drop 2 s) else s

-- `urlsplit(url).path` and `urlsplit(url).query`, for a URL with no line breaks or tabs in it
unfoldable pub url_path : Text → Text
unfolding without_scheme without_netloc cut
url_path url = without_netloc (without_scheme (before b'?' (before b'#' url)))

unfoldable pub url_query : Text → Text
unfolding cut
url_query url = after b'?' (before b'#' url)

any_piece : List Text → Bool
any_piece [] = false
any_piece ([] ∷ ps) = any_piece ps
any_piece ((c ∷ p) ∷ ps) = true

-- `parse_qs(query, keep_blank_values=True)` is not empty
unfoldable pub has_params : Text → Bool
unfolding split any_piece
has_params query = any_piece (split b'&' query)

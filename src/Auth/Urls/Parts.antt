-- ===== src/Auth/Urls/Parts.antt =====
-- The parts of a URL that is put together from a scheme, a host, a path and a query.
use mathlib.Core.List.{append_assoc}
use openeo_argoworkflows.Base.{
  ℕ, true, false, ◌||◌, some, [], ◌∷◌, ◌++◌, ◌==◌, ◌≡◌, ap, ◌∙◌, nat_eq, arith,
}
use openeo_argoworkflows.Base.Split.{lacks, cut, before, lacks-append, cut-none, cut-append}
use openeo_argoworkflows.Base.Text.{Text, codes, starts_with}
use openeo_argoworkflows.Auth.Urls.{
  is_scheme, without_scheme, from_slash, without_netloc, url_path, url_query,
}

-- `scheme://host`
abbrev pub origin : Text → Text → Text
origin scheme host = scheme ++ (b':' ∷ b'/' ∷ b'/' ∷ host)

from_slash-append :
    (host rest : Text) → lacks b'/' host ≡ true → from_slash (host ++ (b'/' ∷ rest)) ≡ b'/' ∷ rest
unfolding from_slash lacks
from_slash-append [] rest h = ground arith
from_slash-append (c ∷ host) rest h = ground (arith, from_slash-append host rest)

-- What a client can be sent to: a scheme, and a host with none of the marks that end it.
pub record IsOrigin (scheme host : Text) : Type 0 where
  pub scheme_name : is_scheme scheme ≡ true
  pub no_colon : lacks b':' scheme ≡ true
  pub scheme_query : lacks b'?' scheme ≡ true
  pub scheme_hash : lacks b'#' scheme ≡ true
  pub no_slash : lacks b'/' host ≡ true
  pub host_query : lacks b'?' host ≡ true
  pub host_hash : lacks b'#' host ≡ true

-- A path from a slash on.
pub record IsPath (rest : Text) : Type 0 where
  pub path_query : lacks b'?' rest ≡ true
  pub path_hash : lacks b'#' rest ≡ true
  pub one_slash : starts_with rest (codes "/") ≡ false

before_hash : (s : Text) → lacks b'#' s ≡ true → before b'#' s ≡ s
before_hash s h = ground (arith, cut-none b'#' s h)

module _ (s q : Text) (sq : lacks b'?' s ≡ true) (sh : lacks b'#' s ≡ true)
    (qh : lacks b'#' q ≡ true) where
  hash_free : lacks b'#' (s ++ (b'?' ∷ q)) ≡ true
  unfolding lacks
  hash_free = ground (arith, lacks-append b'#' s (b'?' ∷ q), sh, qh)

  cut_query : cut b'?' (before b'#' (s ++ (b'?' ∷ q))) ≡ some (s, q)
  cut_query = ap (cut b'?') (before_hash _ hash_free) ∙ cut-append b'?' s q sq

  pub url_query-append : url_query (s ++ (b'?' ∷ q)) ≡ q
  unfolding url_query
  url_query-append = ground (arith, cut_query)

  url_path-append : url_path (s ++ (b'?' ∷ q)) ≡ without_netloc (without_scheme s)
  unfolding url_path
  url_path-append = ground (arith, cut_query)

-- A path by itself has no query.
pub url_query_path : (s : Text) → lacks b'?' s ≡ true → lacks b'#' s ≡ true → url_query s ≡ []
unfolding url_query
url_query_path s sq sh = ground (arith, before_hash s sh, cut-none b'?' s sq)

module _ (scheme host rest q : Text) (o : IsOrigin scheme host) (p : IsPath rest)
    (qh : lacks b'#' q ≡ true) where
  pub origin-lacks :
      (c : ℕ)
      → lacks c scheme ≡ true
      → lacks c host ≡ true
      → lacks c rest ≡ true
      → (b':' == c || b'/' == c) ≡ false
      → lacks c (origin scheme host ++ (b'/' ∷ rest)) ≡ true
  unfolding lacks
  origin-lacks c a b r e = ground (
    arith,
    lacks-append c (origin scheme host) (b'/' ∷ rest),
    lacks-append c scheme (b':' ∷ b'/' ∷ b'/' ∷ host),
  )

  cut_scheme :
      cut b':' (origin scheme host ++ (b'/' ∷ rest))
      ≡ some (scheme, b'/' ∷ b'/' ∷ (host ++ (b'/' ∷ rest)))
  cut_scheme =
      ap (cut b':') (append_assoc scheme (b':' ∷ b'/' ∷ b'/' ∷ host) (b'/' ∷ rest))
      ∙ cut-append b':' scheme _ o.no_colon

  without_scheme-origin :
      without_scheme (origin scheme host ++ (b'/' ∷ rest)) ≡ b'/' ∷ b'/' ∷ (host ++ (b'/' ∷ rest))
  unfolding without_scheme
  without_scheme-origin = ground (arith, cut_scheme, o.scheme_name)

  without_netloc-host : without_netloc (b'/' ∷ b'/' ∷ (host ++ (b'/' ∷ rest))) ≡ b'/' ∷ rest
  unfolding without_netloc starts_with nat_eq
  without_netloc-host = from_slash-append host rest o.no_slash

  -- The path of a whole URL, and its query.
  pub url_path-origin : url_path ((origin scheme host ++ (b'/' ∷ rest)) ++ (b'?' ∷ q)) ≡ b'/' ∷ rest
  url_path-origin =
      url_path-append _ q
        (origin-lacks b'?' o.scheme_query o.host_query p.path_query (ground arith))
        (origin-lacks b'#' o.scheme_hash o.host_hash p.path_hash (ground arith)) qh
      ∙ ap without_netloc without_scheme-origin
      ∙ without_netloc-host

  pub url_query-origin : url_query ((origin scheme host ++ (b'/' ∷ rest)) ++ (b'?' ∷ q)) ≡ q
  url_query-origin =
      url_query-append _ q
        (origin-lacks b'?' o.scheme_query o.host_query p.path_query (ground arith))
        (origin-lacks b'#' o.scheme_hash o.host_hash p.path_hash (ground arith)) qh

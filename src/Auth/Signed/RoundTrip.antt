-- ===== src/Auth/Signed/RoundTrip.antt =====
-- A URL that was signed, and the request that is made with it.
use mathlib.Core.List.{append_assoc}
use openeo_argoworkflows.Base.{
  ℕ, true, false, some, List, ◌∷◌, ◌++◌, ◌==◌, ◌≡◌, ◌≢◌, refl, ap, ◌∙◌, if◌then◌else◌, nat_eq,
  arith,
}
use openeo_argoworkflows.Base.Decimal.{decimal, is_digit}
use openeo_argoworkflows.Base.Split.{lacks, split, split_one, split-append}
use openeo_argoworkflows.Base.Text.{Text, codes, text_eq}
use openeo_argoworkflows.Auth.Urls.{strip, url_path, url_query, has_params}
use openeo_argoworkflows.Auth.Urls.Parts.{
  origin, IsOrigin, IsPath, origin-lacks, url_query_path, url_query-append, url_path-origin,
  url_query-origin,
}
use openeo_argoworkflows.Auth.Signed.{
  Keys, SignedQuery, first, second, signed_url, url_to_sign, sign_url, second_part,
  verify_signed_url, Access, granted, unauthorized, compared, validate_signed_url,
}
use openeo_argoworkflows.Auth.Signed.Query.{
  IsPlain, signed_part, query_to_dict-signed_part, lacks-signed_part, signed_query-values,
  expires_of, expires_of-signed_part,
}

-- What is signed: a path with a slash at its start and no white space at its ends, for a user and
-- under a name of the settings whose value is a key. A digest is written in the alphabet of base 64.
pub record IsSignable {User : Type 0} (keys : Keys User) (rest key_name user_id : Text)
    (secret : List ℕ) : Type 0 where
  pub path : IsPath rest
  pub stripped : strip (b'/' ∷ rest) ≡ b'/' ∷ rest
  pub name : IsPlain key_name
  pub user : IsPlain user_id
  pub canonical : keys.uuid user_id ≡ some user_id
  pub value : Text
  pub named : keys.attribute key_name ≡ some value
  pub decoded : keys.urlsafe_b64decode value ≡ some secret
  pub no_and : (s : Text) → lacks b'&' (keys.digest secret s) ≡ true
  pub no_query : (s : Text) → lacks b'?' (keys.digest secret s) ≡ true
  pub no_hash : (s : Text) → lacks b'#' (keys.digest secret s) ≡ true

regroup :
    (c : ℕ) (p e d kk k uu u s : Text)
    → (p ++ (c ∷ (e ++ (d ++ (kk ++ (k ++ (uu ++ u))))))) ++ s
      ≡ p ++ (c ∷ (e ++ (d ++ (kk ++ (k ++ (uu ++ (u ++ s)))))))
regroup c p e d kk k uu u s = simp append_assoc

if_same : {A : Type 0} (a b : Text) (x y : A) → a ≡ b → (if a == b then x else y) ≡ x
if_same a b x y e = ground (arith, e)

if_other : {A : Type 0} (a b : Text) (x y : A) → ◌≢◌ a b → (if a == b then x else y) ≡ y
if_other a b x y n = ground (arith, n)

module _ {User : Type 0} (keys : Keys User) where
  validate_signed_url_lem :
      (url derived : Text) (q : SignedQuery)
      → signed_url keys (url_query url) ≡ some q
      → sign_url keys (url_path url) q.key_name q.user_id q.expires ≡ some derived
      → validate_signed_url keys url ≡ compared keys (url_query url) q.user_id derived
  unfolding validate_signed_url
  validate_signed_url_lem url derived q e d = ground (arith, e, d)

module _ {User : Type 0} (keys : Keys User) (rest k u : Text) (secret : List ℕ)
    (h : IsSignable keys rest k u secret) where
  abbrev pub signature_at : ℕ → Text
  signature_at t = keys.digest secret (url_to_sign keys (b'/' ∷ rest) k u t)

  abbrev pub query_at : ℕ → Text
  query_at t = signed_part t k u (signature_at t)

  path_query : lacks b'?' (b'/' ∷ rest) ≡ true
  unfolding lacks nat_eq
  path_query = h.path.path_query

  path_hash : lacks b'#' (b'/' ∷ rest) ≡ true
  unfolding lacks nat_eq
  path_hash = h.path.path_hash

  pub query_hash : (t : ℕ) → lacks b'#' (query_at t) ≡ true
  unfolding lacks nat_eq is_digit
  query_hash t =
      lacks-signed_part t k u (signature_at t) h.name h.user (h.no_and _) b'#' refl refl
        h.name.no_hash h.user.no_hash (h.no_hash _)

  query_mark : (t : ℕ) → lacks b'?' (query_at t) ≡ true
  unfolding lacks nat_eq is_digit
  query_mark t =
      lacks-signed_part t k u (signature_at t) h.name h.user (h.no_and _) b'?' refl refl
        h.name.no_query h.user.no_query (h.no_query _)

  no_params : has_params (url_query (strip (b'/' ∷ rest))) ≡ false
  unfolding has_params split
  no_params =
      ap (λ s. has_params (url_query s)) h.stripped
      ∙ ap has_params (url_query_path (b'/' ∷ rest) path_query path_hash)

  url_to_sign_lem :
      (t : ℕ)
      → url_to_sign keys (b'/' ∷ rest) k u t
        ≡ (b'/' ∷ rest)
          ++ (b'?'
              ∷ (codes "Expires="
                  ++ (decimal t ++ (codes "&KeyName=" ++ (k ++ (codes "&UserId=" ++ u))))))
  unfolding url_to_sign
  url_to_sign_lem t = ground (arith, no_params, h.stripped)

  sign_url_lem :
      (t : ℕ) → sign_url keys (b'/' ∷ rest) k u t ≡ some ((b'/' ∷ rest) ++ (b'?' ∷ query_at t))
  unfolding sign_url
  sign_url_lem t =
      let signed : sign_url keys (b'/' ∷ rest) k u t
          ≡ some (url_to_sign keys (b'/' ∷ rest) k u t ++ (codes "&Signature=" ++ signature_at t)) =
        ground (arith, h.named, h.decoded) in
      signed
      ∙ ap (λ x. some (x ++ (codes "&Signature=" ++ signature_at t))) (url_to_sign_lem t)
      ∙ ap some (
          regroup b'?' (b'/' ∷ rest) (codes "Expires=") (decimal t) (codes "&KeyName=") k
            (codes "&UserId=") u (codes "&Signature=" ++ signature_at t))

  signed_url-query_at :
      (t date : ℕ)
      → keys.fromtimestamp t ≡ some date
      → signed_url keys (query_at t)
        ≡ some (record {
          expires = date;
          key_name = k;
          user_id = u;
          signature = first (split b'=' (signature_at t));
        })
  unfolding signed_url
  signed_url-query_at t date e = ground (
    arith,
    query_to_dict-signed_part t k u (signature_at t) h.name h.user (h.no_and _),
    signed_query-values keys t date k u u (first (split b'=' (signature_at t))) e h.canonical,
  )

  query_at-injective : (t date : ℕ) → query_at date ≡ query_at t → date ≡ t
  query_at-injective t date e = ground (
    arith,
    ap expires_of e,
    expires_of-signed_part t k u (signature_at t),
    expires_of-signed_part date k u (signature_at date),
  )

  module _ (scheme host : Text) (o : IsOrigin scheme host) where
    -- The URL of the request.
    abbrev pub request_url : ℕ → Text
    request_url t = (origin scheme host ++ (b'/' ∷ rest)) ++ (b'?' ∷ query_at t)

    second_part-request_url : (t : ℕ) → second_part keys (request_url t) ≡ some (query_at t)
    unfolding second_part second nat_eq
    second_part-request_url t = ap second (
        split-append b'?' (origin scheme host ++ (b'/' ∷ rest)) (query_at t) (
          origin-lacks scheme host rest (query_at t) o h.path (query_hash t) b'?' o.scheme_query
            o.host_query h.path.path_query refl)
        ∙ ap (λ r. (origin scheme host ++ (b'/' ∷ rest)) ∷ r)
            (split_one b'?' (query_at t) (query_mark t)))

    -- The first look at the URL lets it pass.
    pub verify_signed_url-request_url :
        (t date : ℕ)
        → keys.fromtimestamp t ≡ some date
        → verify_signed_url keys (request_url t) ≡ true
    unfolding verify_signed_url
    verify_signed_url-request_url t date e =
        ground (arith, second_part-request_url t, signed_url-query_at t date e)

    accepted : Access keys
    accepted = granted (keys.get_user u)

    refused : Access keys
    refused = unauthorized "Signed URL not valid."

    compared_lem :
        (t date : ℕ)
        → compared keys (query_at t) u ((b'/' ∷ rest) ++ (b'?' ∷ query_at date))
          ≡ (if date == t then accepted else refused)
    unfolding compared accepted refused
    compared_lem t date =
        ap (λ x. if x == query_at t then accepted else refused)
          (url_query-append (b'/' ∷ rest) (query_at date) path_query path_hash (query_hash date))
        ∙ elim (nat_eq.decide date t) [
          | yes e ↦ if_same _ _ accepted refused (ap query_at e) ∙ ground (arith, e)
          | no n ↦
              if_other _ _ accepted refused (λ e. n (query_at-injective t date e))
              ∙ ground (arith, n)
        ]

    validated :
        (t date : ℕ)
        → keys.fromtimestamp t ≡ some date
        → validate_signed_url keys (request_url t) ≡ (if date == t then accepted else refused)
    validated t date e =
        let is_query = url_query-origin scheme host rest (query_at t) o h.path (query_hash t) in
        let is_path = url_path-origin scheme host rest (query_at t) o h.path (query_hash t) in
        validate_signed_url_lem keys (request_url t) _ _
          (ap (signed_url keys) is_query ∙ signed_url-query_at t date e)
          (ap (λ p. sign_url keys p k u date) is_path ∙ sign_url_lem date)
        ∙ ap (λ q. compared keys q u ((b'/' ∷ rest) ++ (b'?' ∷ query_at date))) is_query
        ∙ compared_lem t date

    -- A request with a signed URL is granted, to the user for whom it was signed, exactly if the
    -- local time at the expiry shows the same figures as UTC; elsewhere it is refused. Whether
    -- the expiry is past makes no difference, nor which attribute of the settings is the key.
    pub validate_signed_url-sign_url :
        (t date : ℕ)
        → keys.fromtimestamp t ≡ some date
        → (sign_url keys (b'/' ∷ rest) k u t ≡ some ((b'/' ∷ rest) ++ (b'?' ∷ query_at t)))
          × (validate_signed_url keys (request_url t) ≡ (
              if date == t
              then granted (keys.get_user u)
              else unauthorized "Signed URL not valid."))
    unfolding accepted refused
    validate_signed_url-sign_url t date e = (sign_url_lem t, validated t date e)

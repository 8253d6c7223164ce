-- ===== src/Results/Collection/Opens.antt =====
-- A link that `get_results` gives for a file on the disk, followed by the user.
use mathlib.Core.List.{append_assoc}
use openeo_argoworkflows.Base.{
  ℕ, String, false, Option, none, some, List, [], ◌∷◌, ◌++◌, ◌==◌, ◌≡◌, refl, sym, ap, ◌∙◌, ◌>>=◌,
  if◌then◌else◌, nat_eq, arith,
}
use openeo_argoworkflows.Base.Dict.{Dict}
use openeo_argoworkflows.Base.Lists.{length, drop}
use openeo_argoworkflows.Base.Text.{Text, codes, starts_with-append}
use openeo_argoworkflows.Auth.Urls.{url_path}
use openeo_argoworkflows.Auth.Urls.Parts.{origin, IsOrigin, url_path-origin}
use openeo_argoworkflows.Auth.Signed.{Keys, granted, unauthorized}
use openeo_argoworkflows.Auth.Signed.RoundTrip.{IsSignable, query_at, query_hash, request_url}
use openeo_argoworkflows.Auth.Login.{User, signed_url_or_validate}
use openeo_argoworkflows.Auth.Login.Links.{signed_url_or_validate-sign_url}
use openeo_argoworkflows.Results.S3.{is_s3_uri}
use openeo_argoworkflows.Results.Collection.{
  ApiSettings, api_self_url, sign_key, signed_at, relative_path, file_path, item_href,
}

drop-append : (a b : Text) → drop (length a) (a ++ b) ≡ b
drop-append [] b = refl
drop-append (c ∷ a) b = drop-append a b

relative_path-append : (dir rel : Text) → relative_path dir ((dir ++ codes "/") ++ rel) ≡ rel
unfolding relative_path
relative_path-append dir rel =
    ground (arith, starts_with-append (dir ++ codes "/") rel, drop-append (dir ++ codes "/") rel)

module _ (keys : Keys User) (validate_token : String → Option String) (s : ApiSettings)
    (environ : Dict Text Text) (rest user_id : Text) (secret : List ℕ)
    (h : IsSignable keys rest sign_key user_id secret) (scheme host : Text)
    (o : IsOrigin scheme host) (self : api_self_url s ≡ origin scheme host) where
  signed_at-request_url :
      (expiry date : ℕ)
      → keys.fromtimestamp expiry ≡ some date
      → signed_at keys s environ user_id expiry (b'/' ∷ rest)
        ≡ some (request_url keys rest sign_key user_id secret h scheme host o expiry)
  unfolding signed_at
  signed_at-request_url expiry date e =
      ap (λ x. x >>= λ signed. some (api_self_url s ++ signed))
        ((signed_url_or_validate-sign_url keys validate_token rest sign_key user_id secret h scheme
          host o expiry date [] [] e).0)
      ∙ ap
          (λ x.
            some (
              x ++ ((b'/' ∷ rest) ++ (b'?' ∷ query_at keys rest sign_key user_id secret h expiry))))
          self
      ∙ ap some (
          sym (
            append_assoc (origin scheme host) (b'/' ∷ rest)
              (b'?' ∷ query_at keys rest sign_key user_id secret h expiry)))

  -- The link of a file below the user's directory leads to the path of the file store with the
  -- place of the file below that directory, and a request with it and nothing else is granted to that
  -- user exactly if local time at the expiry shows the same figures as UTC.
  pub item_href-signed_url_or_validate :
      (job_id dir rel : Text) (expiry date : ℕ) (fresh : Text) (users : List User)
      → is_s3_uri ((dir ++ codes "/") ++ rel) ≡ false
      → s.openeo_prefix ++ (codes "/files/" ++ rel) ≡ b'/' ∷ rest
      → keys.fromtimestamp expiry ≡ some date
      → (url : Text) × (item_href keys s environ user_id expiry job_id dir
            ((dir ++ codes "/") ++ rel)
          ≡ some url)
        × (url_path url ≡ s.openeo_prefix ++ (codes "/files/" ++ rel))
        × (signed_url_or_validate keys validate_token
              (record { authorization = none; url = url })
              fresh
              users
            ≡ (
              if date == expiry
                  then granted (keys.get_user user_id)
                  else unauthorized "Signed URL not valid.",
              users,
            ))
  unfolding item_href file_path
  item_href-signed_url_or_validate job_id dir rel expiry date fresh users local place e =
      let url = request_url keys rest sign_key user_id secret h scheme host o expiry in
      let path_is : file_path s dir ((dir ++ codes "/") ++ rel) ≡ b'/' ∷ rest =
        ap (λ r. s.openeo_prefix ++ (codes "/files/" ++ r)) (relative_path-append dir rel)
        ∙ place in
      (
        url,
        ground (arith, local)
            ∙ ap (signed_at keys s environ user_id expiry) path_is
            ∙ signed_at-request_url expiry date e,
        url_path-origin scheme host rest (query_at keys rest sign_key user_id secret h expiry) o
              h.path (query_hash keys rest sign_key user_id secret h expiry)
            ∙ sym place,
        (signed_url_or_validate-sign_url keys validate_token rest sign_key user_id secret h scheme
            host o expiry date fresh users e).1,
      )

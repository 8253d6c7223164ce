-- ===== src/Auth/Login/Links.antt =====
-- A request with a signed URL and no other credentials.
use openeo_argoworkflows.Base.{
  ℕ, String, Option, none, some, List, ◌∷◌, ◌++◌, ◌==◌, ◌≡◌, if◌then◌else◌, nat_eq, arith,
}
use openeo_argoworkflows.Base.Text.{Text}
use openeo_argoworkflows.Auth.Urls.Parts.{IsOrigin}
use openeo_argoworkflows.Auth.Signed.{Keys, sign_url, granted, unauthorized}
use openeo_argoworkflows.Auth.Signed.RoundTrip.{
  IsSignable, query_at, request_url, verify_signed_url-request_url, validate_signed_url-sign_url,
}
use openeo_argoworkflows.Auth.Login.{User, by_signed_url, signed_url_or_validate}

module _ (keys : Keys User) (validate_token : String → Option String) where
  -- A URL that the API signed for a user, in a request without a token, is granted to that user
  -- exactly if local time at the expiry shows the same figures as UTC; elsewhere it is refused.
  -- The table of users stays. Whether the expiry is past makes no difference, nor which attribute
  -- of the settings the name of the key names.
  pub signed_url_or_validate-sign_url :
      (rest k u : Text) (secret : List ℕ) (h : IsSignable keys rest k u secret) (scheme host : Text)
      (o : IsOrigin scheme host) (t date : ℕ) (fresh : Text) (users : List User)
      → keys.fromtimestamp t ≡ some date
      → (sign_url keys (b'/' ∷ rest) k u t
          ≡ some ((b'/' ∷ rest) ++ (b'?' ∷ query_at keys rest k u secret h t)))
        × (signed_url_or_validate keys validate_token
              (record {
                authorization = none;
                url = request_url keys rest k u secret h scheme host o t;
              })
              fresh
              users
            ≡ (
              if date == t then granted (keys.get_user u) else unauthorized "Signed URL not valid.",
              users,
            ))
  unfolding signed_url_or_validate by_signed_url
  signed_url_or_validate-sign_url rest k u secret h scheme host o t date fresh users e = (
    (validate_signed_url-sign_url keys rest k u secret h scheme host o t date e).0,
    ground (
      arith,
      verify_signed_url-request_url keys rest k u secret h scheme host o t date e,
      (validate_signed_url-sign_url keys rest k u secret h scheme host o t date e).1,
    ),
  )

-- ===== src/Auth/Signed.antt =====
-- Signed URLs: `SignedQuery`, `SignedUrl`, `sign_url`, `verify_signed_url` and
-- `validate_signed_url` of auth.py.
pub mod Query
pub mod RoundTrip
use openeo_argoworkflows.Base.{
  ℕ, String, Bool, true, false, Option, none, some, List, [], ◌∷◌, ◌++◌, ◌==◌, if◌then◌else◌, ◌>>=◌,
}
use openeo_argoworkflows.Base.Dict
use openeo_argoworkflows.Base.Dict.{Dict}
use openeo_argoworkflows.Base.Decimal.{int_from, decimal}
use openeo_argoworkflows.Base.Split.{cut, split}
use openeo_argoworkflows.Base.Text.{Text, codes, text_eq}
use openeo_argoworkflows.Auth.Urls.{strip, url_path, url_query, has_params}

-- The attributes of the settings as texts, the parts of `hmac` and `base64`, the clock's zone, UUIDs
-- and the table of users, which this repository does not implement. A date is the number of
-- seconds that its own figures show since 1970; `none` is an exception.
pub record Keys (User : Type 0) : Type 0 where
  pub attribute : Text → Option Text
  pub urlsafe_b64decode : Text → Option (List ℕ)
  pub digest : List ℕ → Text → Text
  pub fromtimestamp : ℕ → Option ℕ
  pub uuid : Text → Option Text
  pub get_user : Text → Option User

-- `SignedQuery`. The user is the text of the UUID.
pub record SignedQuery : Type 0 where
  pub expires : ℕ
  pub key_name : Text
  pub user_id : Text
  pub signature : Text

unfoldable pub second : List Text → Option Text
second (a ∷ b ∷ rest) = some b
second _ = none

unfoldable pub first : List Text → Text
first [] = []
first (a ∷ rest) = a

query_items : List Text → Dict Text Text → Option (Dict Text Text)
unfolding second first split Dict.set
query_items [] d = some d
query_items (x ∷ xs) d = do
  value ← second (split b'=' x)
  query_items xs (Dict.set (first (split b'=' x)) value d)

-- A parameter with no `=` is an `IndexError`.
unfoldable pub query_to_dict : Text → Option (Dict Text Text)
unfolding query_items
query_to_dict v = query_items (split b'&' v) []

-- A number with a sign or with spaces round it is not modelled.
read_int : Text → Option ℕ
read_int s = int_from 0 false s

module _ {User : Type 0} (keys : Keys User) where
  -- The validation of the four fields.
  unfoldable pub signed_query : Dict Text Text → Option SignedQuery
  unfolding read_int Dict.get
  signed_query d = do
    expires ← Dict.get (codes "Expires") d
    seconds ← read_int expires
    date ← keys.fromtimestamp seconds
    key_name ← Dict.get (codes "KeyName") d
    user_id ← Dict.get (codes "UserId") d
    user ← keys.uuid user_id
    signature ← Dict.get (codes "Signature") d
    some record { expires = date; key_name = key_name; user_id = user; signature = signature }

  unfoldable pub signed_url : Text → Option SignedQuery
  unfolding query_to_dict signed_query
  signed_url query = do d ← query_to_dict query; signed_query d

  unfoldable pub url_to_sign : Text → Text → Text → ℕ → Text
  unfolding strip url_query has_params
  url_to_sign url key_name user_id expiration_time =
      strip url
      ++ ((if has_params (url_query (strip url)) then codes "&" else codes "?")
          ++ (codes "Expires="
              ++ (decimal expiration_time
                  ++ (codes "&KeyName=" ++ (key_name ++ (codes "&UserId=" ++ user_id))))))

  -- A name that the settings lack, and a key that is not in base 64, raise.
  unfoldable pub sign_url : Text → Text → Text → ℕ → Option Text
  unfolding url_to_sign
  sign_url url key_name user_id expiration_time = do
    base64_key ← keys.attribute key_name
    decoded_key ← keys.urlsafe_b64decode base64_key
    let to_sign = url_to_sign url key_name user_id expiration_time
    some (to_sign ++ (codes "&Signature=" ++ keys.digest decoded_key to_sign))

  -- `url.split("?")[1]`
  second_part : Text → Option Text
  unfolding second split
  second_part url = second (split b'?' url)

  unfoldable pub verify_signed_url : Text → Bool
  unfolding second_part signed_url
  verify_signed_url url = elim (second_part url) [
    | none ↦ false
    | some query ↦ elim (signed_url query) [ none ↦ false | some q ↦ true ]
  ]

  -- A user who is not in the table is `none`.
  pub data Access : Type 0 where
    granted : Option User → Access
    unauthorized : String → Access
    raised : Access

  unfoldable pub compared : Text → Text → Text → Access
  unfolding url_query
  compared query user_id derived =
      if url_query derived == query
      then granted (keys.get_user user_id)
      else unauthorized "Signed URL not valid."

  unfoldable pub validate_signed_url : Text → Access
  unfolding url_path url_query signed_url sign_url
  validate_signed_url url = elim (signed_url (url_query url)) [
    | none ↦ raised
    | some q ↦ elim (sign_url (url_path url) q.key_name q.user_id q.expires) [
      | none ↦ raised
      | some derived ↦ compared (url_query url) q.user_id derived
    ]
  ]

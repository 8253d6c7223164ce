-- ===== src/Tests/Auth.antt =====
-- A signed URL and a login, with small keys and users.
use openeo_argoworkflows.Base.{
  String, Option, none, some, [], ◌∷◌, ◌++◌, ◌==◌, ◌≡◌, refl, if◌then◌else◌, string_eq, nat_eq,
}
use openeo_argoworkflows.Base.Decimal.{decimal, digits_onto}
use openeo_argoworkflows.Base.Split.{lacks, cut, split}
use openeo_argoworkflows.Base.Text.{Text, codes, starts_with, text_eq}
use openeo_argoworkflows.Auth.Urls.{
  is_space, lstrip, rstrip, strip, is_letter, is_scheme, url_query, has_params,
}
use openeo_argoworkflows.Auth.Urls.Parts.{IsOrigin, IsPath}
use openeo_argoworkflows.Auth.Signed.{Keys, sign_url, url_to_sign, granted}
use openeo_argoworkflows.Auth.Signed.Query.{IsPlain}
use openeo_argoworkflows.Auth.Signed.RoundTrip.{IsSignable, query_at, request_url}
use openeo_argoworkflows.Auth.Login.{
  User, find_subject, validate_authorization, signed_url_or_validate,
}
use openeo_argoworkflows.Auth.Login.Links.{signed_url_or_validate-sign_url}
use openeo_argoworkflows.Auth.Login.Subjects.{IsKnown, validate_authorization-IsKnown}

abbrev pub ada : User
ada = record { user_id = codes "u1"; oidc_sub = "ada" }

-- The keys of a host on UTC.
abbrev pub keys : Keys User
keys = record {
  attribute = λ k. if k == codes "OPENEO_SIGN_KEY" then some (codes "a2V5") else none;
  urlsafe_b64decode = λ k. some (1 ∷ 2 ∷ []);
  digest = λ k s. codes "c2ln=";
  fromtimestamp = λ t. some t;
  uuid = some;
  get_user = λ u. some ada;
}

abbrev pub path : Text
path = codes "openeo/files/a.tif"

IsPlain-key : IsPlain (codes "OPENEO_SIGN_KEY")
unfolding lacks nat_eq
IsPlain-key = record { no_and = refl; no_equals = refl; no_query = refl; no_hash = refl }

IsPlain-user : IsPlain (codes "u1")
unfolding lacks nat_eq
IsPlain-user = record { no_and = refl; no_equals = refl; no_query = refl; no_hash = refl }

is_path : IsPath path
unfolding lacks nat_eq starts_with
is_path = record { path_query = refl; path_hash = refl; one_slash = refl }

pub is_signable : IsSignable keys path (codes "OPENEO_SIGN_KEY") (codes "u1") (1 ∷ 2 ∷ [])
unfolding lacks nat_eq text_eq strip lstrip rstrip is_space
is_signable = record {
  path = is_path;
  stripped = refl;
  name = IsPlain-key;
  user = IsPlain-user;
  canonical = refl;
  value = codes "a2V5";
  named = refl;
  decoded = refl;
  no_and = λ s. refl;
  no_query = λ s. refl;
  no_hash = λ s. refl;
}

pub is_origin : IsOrigin (codes "https") (codes "openeo.eurac.edu")
unfolding lacks nat_eq is_scheme is_letter
is_origin = record {
  scheme_name = refl;
  no_colon = refl;
  scheme_query = refl;
  scheme_hash = refl;
  no_slash = refl;
  host_query = refl;
  host_hash = refl;
}

signed :
    sign_url keys (codes "/openeo/files/a.tif") (codes "OPENEO_SIGN_KEY") (codes "u1") 17
    ≡ some
        (codes "/openeo/files/a.tif?Expires=17&KeyName=OPENEO_SIGN_KEY&UserId=u1&Signature=c2ln=")
unfolding sign_url url_to_sign strip lstrip rstrip is_space url_query has_params cut split decimal
    digits_onto nat_eq text_eq
signed = refl

signed_url_or_validate-sign_url_example :
    (sign_url keys (b'/' ∷ path) (codes "OPENEO_SIGN_KEY") (codes "u1") 17
      ≡ some (
          (b'/' ∷ path)
          ++ (b'?'
              ∷ query_at keys path
                  (codes "OPENEO_SIGN_KEY")
                  (codes "u1")
                  (1 ∷ 2 ∷ [])
                  is_signable
                  17)))
    × (signed_url_or_validate keys
          (λ a. none)
          (record {
            authorization = none;
            url =
                request_url keys path
                  (codes "OPENEO_SIGN_KEY")
                  (codes "u1")
                  (1 ∷ 2 ∷ [])
                  is_signable
                  (codes "https")
                  (codes "openeo.eurac.edu")
                  is_origin
                  17;
          })
          (codes "u2")
          []
        ≡ (granted (some ada), []))
unfolding nat_eq
signed_url_or_validate-sign_url_example =
    signed_url_or_validate-sign_url keys (λ a. none) path (codes "OPENEO_SIGN_KEY") (codes "u1")
      (1 ∷ 2 ∷ []) is_signable (codes "https") (codes "openeo.eurac.edu") is_origin 17 17
      (codes "u2") [] refl

abbrev valid : String → Option String
valid a = if a == "Bearer ada" then some "ada" else none

first_login : validate_authorization valid "Bearer ada" (codes "u1") [] ≡ some (ada, ada ∷ [])
unfolding validate_authorization find_subject string_eq
first_login = refl

validate_authorization-IsKnown_example : IsKnown valid "Bearer ada" [] ada (ada ∷ [])
validate_authorization-IsKnown_example =
    validate_authorization-IsKnown valid "Bearer ada" (codes "u1") [] ada (ada ∷ []) first_login

-- ===== src/Auth/Login.antt =====
-- Who makes a request: `validate_authorization` and `signed_url_or_validate` of auth.py.
pub mod Subjects
pub mod Links
use openeo_argoworkflows.Base.{
  String, Bool, true, false, Option, none, some, List, [], ◌∷◌, ◌++◌, ◌==◌, if◌then◌else◌,
  string_eq,
}
use openeo_argoworkflows.Base.Text.{Text}
use openeo_argoworkflows.Auth.Signed.{
  Keys, verify_signed_url, validate_signed_url, Access, granted, unauthorized, raised,
}

-- A row of the table of users.
pub record User : Type 0 where
  pub user_id : Text
  pub oidc_sub : String

-- `engine.get_first_or_default` by the subject
unfoldable pub find_subject : String → List User → Option User
find_subject sub [] = none
find_subject sub (u ∷ users) =
    let rest = find_subject sub users in if sub == u.oidc_sub then some u else rest

create_user : User → List User → User × List User
create_user u users = (u, users ++ (u ∷ []))

-- `validate_token` is that of the issuer, and gives the subject of a token that is valid; `fresh` is
-- the UUID for a new user.
unfoldable pub validate_authorization :
    (String → Option String) → String → Text → List User → Option (User × List User)
unfolding create_user
validate_authorization validate_token authorization fresh users =
    elim (validate_token authorization) [
      | none ↦ none
      | some sub ↦ elim (find_subject sub users) [
        | some u ↦ some (u, users)
        | none ↦ some (create_user (record { user_id = fresh; oidc_sub = sub }) users)
      ]
    ]

-- A request: its header, if it has one, and its URL.
pub record Request : Type 0 where
  pub authorization : Option String
  pub url : Text

module _ (keys : Keys User) (validate_token : String → Option String) where
  unfoldable pub by_signed_url : Text → Access keys
  by_signed_url url =
      if verify_signed_url keys url
      then validate_signed_url keys url
      else unauthorized "Signed URL could not be parsed."

  -- The answer of `validate`, with the table; an invalid token raises.
  by_header : String → Text → List User → Access keys × List User
  unfolding validate_authorization
  by_header authorization fresh users =
      elim (validate_authorization validate_token authorization fresh users) [
        | none ↦ (raised, users)
        | some (u, users') ↦ (granted (some u), users')
      ]

  unfoldable pub signed_url_or_validate : Request → Text → List User → Access keys × List User
  unfolding by_signed_url by_header
  signed_url_or_validate request fresh users = elim request.authorization [
    | none ↦ (by_signed_url request.url, users)
    | some a ↦ by_header a fresh users
  ]

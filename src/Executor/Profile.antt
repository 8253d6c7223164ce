-- ===== src/Executor/Profile.antt =====
-- The profiles that the API passes to the executor: `UserProfile` and `ClusterProfile` of models.py,
-- and the environment that the command `execute` of cli.py and `is_s3_configured` of s3.py make of them.
pub mod Forwarding
use openeo_argoworkflows.Base.{
  String, ◌<>◌, Bool, true, ◌&&◌, ◌||◌, not, Option, none, some, List, [], ◌∷◌, string_eq,
}
use openeo_argoworkflows.Base.Dict
use openeo_argoworkflows.Base.Dict.{Dict}
use openeo_argoworkflows.Jobs.Model.{truthy}
use openeo_argoworkflows.Jobs.Submit.{Profile, s3_vars, forward_s3}

-- The assertion of `when_local_omit_all`.
unfoldable pub when_local_omit_all : Profile → Bool
unfolding Dict.get
when_local_omit_all profile = not (
    Dict.has "LOCAL" profile
    && (Dict.has "GATEWAY_URL" profile || Dict.has "OPENEO_EXECUTOR_IMAGE" profile))

-- `UserProfile`. The workspace is a path without a slash at its end.
pub record UserProfile : Type 0 where
  pub user_id : String
  pub job_id : String
  pub workspace : String
  pub s3 : Dict String String

-- A profile is accepted when the three required keys are there.
unfoldable pub read_user_profile : Dict String String → Option UserProfile
unfolding Dict.get
read_user_profile profile = elim (Dict.get "OPENEO_USER_ID" profile) [
  | none ↦ none
  | some user_id ↦ elim (Dict.get "OPENEO_JOB_ID" profile) [
    | none ↦ none
    | some job_id ↦ elim (Dict.get "OPENEO_USER_WORKSPACE" profile) [
      | none ↦ none
      | some workspace ↦
          some record { user_id = user_id; job_id = job_id; workspace = workspace; s3 = profile }
    ]
  ]
]

unfoldable pub results_path : UserProfile → String
results_path p = p.workspace <> "/RESULTS"

unfoldable pub stac_path : UserProfile → String
stac_path p = p.workspace <> "/STAC"

-- `os.environ` when the command has set the variables that are always there.
own_environ : UserProfile → Dict String String → Dict String String
unfolding results_path stac_path Dict.set
own_environ p environ =
    let e1 = Dict.set "OPENEO_USER_WORKSPACE" p.workspace environ in
    let e2 = Dict.set "OPENEO_STAC_PATH" (stac_path p) e1 in
    let e3 = Dict.set "OPENEO_RESULTS_PATH" (results_path p) e2 in
    let e4 = Dict.set "OPENEO_USER_ID" p.user_id e3 in Dict.set "OPENEO_JOB_ID" p.job_id e4

-- `os.environ` when it has set the credentials as well.
unfoldable pub set_environ : UserProfile → Dict String String → Dict String String
unfolding own_environ
set_environ p environ = forward_s3 (λ v. Dict.get v p.s3) s3_vars (own_environ p environ)

all_set : Dict String String → List String → Bool
all_set environ [] = true
all_set environ (v ∷ vs) = truthy (Dict.get v environ) && all_set environ vs

unfoldable pub is_s3_configured : Dict String String → Bool
unfolding all_set
is_s3_configured environ = all_set environ s3_vars

-- ===== src/Jobs/Submit.antt =====
-- `submit_job` of tasks.py, and the workflow that `executor_workflow` of workflows.py describes.
use openeo_argoworkflows.Base.{
  ℕ, String, Bool, true, ◌&&◌, Option, none, some, List, [], ◌∷◌, ◌++◌, ◌==◌, if◌then◌else◌,
  string_eq,
}
use openeo_argoworkflows.Base.Dict
use openeo_argoworkflows.Base.Dict.{Dict}
use openeo_argoworkflows.Jobs.Model.{
  Job, running, error, truthy, Metadata, poll_job_status_task, enqueue, Settings,
}
use openeo_argoworkflows.Jobs.Services.{Services, World, emit, modify, job_workspace}

-- The JSON values in a profile.
pub data ProfileValue : Type 0 where
  text : String → ProfileValue
  flag : Bool → ProfileValue

abbrev pub Profile : Type 0
Profile = Dict String ProfileValue

abbrev or_empty : Option String → String
or_empty none = ""
or_empty (some s) = s

unfoldable pub dask_profile : Settings → Profile
dask_profile s =
    if truthy s.dask_gateway_server && truthy s.executor_image
    then ("GATEWAY_URL", text (or_empty s.dask_gateway_server))
      ∷ ("OPENEO_EXECUTOR_IMAGE", text (or_empty s.executor_image))
      ∷ ("WORKER_CORES", text s.dask_worker_cores)
      ∷ ("WORKER_MEMORY", text s.dask_worker_memory)
      ∷ ("WORKER_LIMIT", text s.dask_worker_limit)
      ∷ ("CLUSTER_IDLE_TIMEOUT", text s.dask_cluster_idle_timeout)
      ∷ []
    else ("LOCAL", flag true) ∷ []

abbrev pub s3_vars : List String
s3_vars = "S3_ENDPOINT_URL" ∷ "S3_BUCKET" ∷ "S3_ACCESS_KEY" ∷ "S3_SECRET_KEY" ∷ []

-- One round of the loop that passes the S3 credentials on.
abbrev pub forward : Option String → String → Dict String String → Dict String String
forward none v profile = profile
forward (some s) v profile = if s == "" then profile else Dict.set v s profile

unfoldable pub forward_s3 :
    (String → Option String) → List String → Dict String String → Dict String String
forward_s3 environ [] profile = profile
forward_s3 environ (v ∷ vs) profile = forward_s3 environ vs (forward (environ v) v profile)

unfoldable pub user_profile :
    Settings → (String → Option String) → {G : Type 0} → Job G → Dict String String
unfolding forward_s3
user_profile s environ job = forward_s3 environ s3_vars (
    ("OPENEO_JOB_ID", job.job_id)
    ∷ ("OPENEO_USER_ID", job.user_id)
    ∷ ("OPENEO_USER_WORKSPACE", job_workspace s job.user_id job.job_id)
    ∷ [])

-- An environment variable of the executor's container: a value, or a key of a secret.
pub data EnvVar : Type 0 where
  env : String → String → EnvVar
  secret_env : String → String → String → EnvVar

-- The parts of the Argo workflow that the API chooses.
pub record ExecutorWorkflow : Type 0 where
  pub generate_name : String
  pub entrypoint : String
  pub namespace : String
  pub labels : Dict String String
  pub claim_name : String
  pub mount_path : String
  pub deletion_grace_period_seconds : ℕ
  pub active_deadline_seconds : ℕ
  pub env : List EnvVar
  pub image : Option String
  pub command : List String
  pub args : List String

-- What `submit_job` calls and this repository does not implement: `json.dumps`, `str` of a number,
-- the resolution of user-defined processes, and the creation of a workflow. `none` is an exception.
pub record Submission (G : Type 0) : Type 0 where
  pub environ : String → Option String
  pub dumps_graph : G → String
  pub dumps_user_profile : Dict String String → String
  pub dumps_dask_profile : Profile → String
  pub show : ℕ → String
  pub standard_specs : List String
  pub custom_specs : List String
  pub resolve_process_graph : G → List String → String → Option G
  pub create_workflow : ExecutorWorkflow → Option Metadata

unfoldable pub executor_env : Settings → (ℕ → String) → List EnvVar
executor_env s show =
    env "STAC_API_URL" s.stac_api_url
    ∷ env "OPENEO_COMPUTE_TIMEOUT" (show s.compute_timeout)
    ∷ env "GDAL_HTTP_CONNECTTIMEOUT" "10"
    ∷ env "GDAL_HTTP_TIMEOUT" "120"
    ∷ env "GDAL_HTTP_LOW_SPEED_TIME" "30"
    ∷ env "GDAL_HTTP_LOW_SPEED_LIMIT" "1024"
    ∷ env "GDAL_HTTP_MAX_RETRY" "5"
    ∷ env "GDAL_HTTP_RETRY_DELAY" "2"
    ∷ env "GDAL_DISABLE_READDIR_ON_OPEN" "EMPTY_DIR"
    ∷ env "VSI_CACHE" "TRUE"
    ∷ secret_env "AWS_ACCESS_KEY_ID" "cdse-s3-credentials" "AWS_ACCESS_KEY_ID"
    ∷ secret_env "AWS_SECRET_ACCESS_KEY" "cdse-s3-credentials" "AWS_SECRET_ACCESS_KEY"
    ∷ secret_env "AWS_ENDPOINT_URL_S3" "cdse-s3-credentials" "AWS_ENDPOINT_URL_S3"
    ∷ []

describe_workflow :
    {G : Type 0}
    → Submission G
    → Settings
    → G
    → Profile
    → Dict String String
    → String
    → String
    → ExecutorWorkflow
unfolding executor_env
describe_workflow sub s graph dask user job_id user_id = record {
  generate_name = "openeo-executor-";
  entrypoint = "process";
  namespace = s.argo_workflows_namespace;
  labels = ("OPENEO_JOB_ID", job_id) ∷ ("OPENEO_USER_ID", user_id) ∷ [];
  claim_name = "openeo-workspace";
  mount_path = s.workspace_root;
  deletion_grace_period_seconds = 1800;
  active_deadline_seconds = s.executor_deadline;
  env = executor_env s sub.show;
  image = s.executor_image;
  command = "openeo_executor" ∷ [];
  args =
      "execute"
      ∷ "--process_graph"
      ∷ sub.dumps_graph graph
      ∷ "--user_profile"
      ∷ sub.dumps_user_profile user
      ∷ "--dask_profile"
      ∷ sub.dumps_dask_profile dask
      ∷ [];
}

-- A profile with no job or user id raises a `KeyError`.
unfoldable pub executor_workflow :
    {G : Type 0}
    → Submission G
    → Settings
    → G
    → Profile
    → Dict String String
    → Option ExecutorWorkflow
unfolding describe_workflow
executor_workflow sub s graph dask user = elim (Dict.get "OPENEO_JOB_ID" user) [
  | none ↦ none
  | some job_id ↦ elim (Dict.get "OPENEO_USER_ID" user) [
    | none ↦ none
    | some user_id ↦ some (describe_workflow sub s graph dask user job_id user_id)
  ]
]

-- `_resolve_udps`: the registry holds the standard processes and then the custom ones.
unfoldable pub resolve_udps : {G : Type 0} → Submission G → G → String → Option G
resolve_udps sub graph user_id =
    sub.resolve_process_graph graph (sub.standard_specs ++ sub.custom_specs) user_id

-- The body of the `try`: the metadata of the created workflow, or `none` for any exception.
unfoldable pub launch : {G : Type 0} → Submission G → Settings → Job G → Option Metadata
unfolding resolve_udps
launch sub s job = elim (resolve_udps sub job.process job.user_id) [
  | none ↦ none
  | some graph ↦
      elim (executor_workflow sub s graph (dask_profile s) (user_profile s sub.environ job)) [
        | none ↦ none
        | some w ↦ sub.create_workflow w
      ]
]

module _ {S : Services} where
  unfoldable pub submit_job : Submission S.Graph → Settings → Job S.Graph → World S → World S
  submit_job sub s job w = elim (launch sub s job) [
    | none ↦ modify (record job { status = error }) w
    | some m ↦
        let job' = record job { status = running; workflowname = some m.name } in
        emit (enqueue (poll_job_status_task job' m)) (modify job' w)
  ]

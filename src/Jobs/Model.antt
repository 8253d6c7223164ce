-- ===== src/Jobs/Model.antt =====
-- Jobs as the database holds them (psql/models.py), and what is read of an Argo workflow.
use openeo_argoworkflows.Base.{
  ℕ, String, Bool, true, false, Option, none, some, List, Eq, ◌==◌, if◌then◌else◌, string_eq,
}
use openeo_argoworkflows.Base.Dict.{Dict}

pub data Status : Type 0 where
  created queued running canceled finished error : Status

pub Status-discrete : Discrete Status
Status-discrete = hlevel

instance unfoldable pub status_eq : Eq Status
unfolding Status-discrete
status_eq = record { decide = Status-discrete }

-- The truth of an `Optional[str]`: neither `None` nor empty.
abbrev pub truthy : Option String → Bool
truthy none = false
truthy (some s) = if s == "" then false else true

-- `ArgoJob`. The ids are the texts of the UUIDs, and a date is a number of seconds.
pub record Job (Graph : Type 0) : Type 0 where
  pub job_id : String
  pub user_id : String
  pub process : Graph
  pub process_name : String
  pub status : Status
  pub title : Option String
  pub description : Option String
  pub created_at : ℕ
  pub synchronous : Bool
  pub workflowname : Option String
  pub message : Option String

-- The status of a workflow: its phase, and the message of each of its nodes.
pub record WorkflowStatus : Type 0 where
  pub phase : Option String
  pub nodes : List (Option String)

pub record Workflow : Type 0 where
  pub status : Option WorkflowStatus

-- `getattr(workflow.status, "phase", None)`
abbrev pub phase_of : Workflow → Option String
phase_of w = elim w.status [ none ↦ none | some s ↦ s.phase ]

-- What a call of Argo for one workflow gives, with `hera.exceptions.NotFound` apart.
pub data Answer : Type 0 where
  found : Workflow → Answer
  not_found : Answer
  failed : Answer

-- Argo's answers while one operation runs; `list_workflows` is `none` where the call raises, and
-- `some none` where the list has no items.
pub record Argo : Type 0 where
  pub list_workflows : Option (Option (List Workflow))
  pub get_workflow : String → String → Answer
  pub stop_workflow : Option String → String → Answer

-- What Argo returns of a workflow that it has created (`response.metadata`).
pub record Metadata : Type 0 where
  pub name : String
  pub namespace : String

-- A function that is put on the queue of the workers, with its arguments.
pub data Task (Graph : Type 0) : Type 0 where
  submit_job_task : Job Graph → Task Graph
  queue_to_submit_task : Job Graph → Task Graph
  poll_job_status_task : Job Graph → Metadata → Task Graph

-- The calls that leave the process, in their order.
pub data Call (Graph : Type 0) : Type 0 where
  enqueue : Task Graph → Call Graph
  enqueue_in : ℕ → Task Graph → Call Graph
  stop : Option String → String → Call Graph

-- How a request ends: a response with its headers, an `HTTPException`, or any other exception.
pub data Outcome : Type 0 where
  response : ℕ → Dict String String → Outcome
  http_error : ℕ → String → Outcome
  crash : String → Outcome

-- `ExtendedAppSettings`, as far as jobs read it (settings.py).
pub record Settings : Type 0 where
  pub api_dns : String
  pub openeo_prefix : String
  pub workspace_root : String
  pub executor_image : Option String
  pub argo_workflows_server : Option String
  pub argo_workflows_namespace : String
  pub argo_workflows_limit : ℕ
  pub dask_gateway_server : Option String
  pub dask_worker_cores : String
  pub dask_worker_memory : String
  pub dask_worker_limit : String
  pub dask_cluster_idle_timeout : String
  pub executor_deadline : ℕ
  pub compute_timeout : ℕ
  pub stac_api_url : String

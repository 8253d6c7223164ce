-- ===== src/Tests/Backend.antt =====
-- A small backend: one job table in memory, one user, and what Argo answers.
use openeo_argoworkflows.Base.{
  ℕ, String, false, Option, none, some, List, [], ◌∷◌, ◌==◌, if◌then◌else◌, string_eq,
}
use openeo_argoworkflows.Jobs.Model.{Job, Status, Workflow, Answer, Argo, Metadata, Settings}
use openeo_argoworkflows.Jobs.Services.{World}
use openeo_argoworkflows.Jobs.Services.Memory.{memory}
use openeo_argoworkflows.Jobs.Submit.{Submission}

abbrev pub settings : Settings
settings = record {
  api_dns = "openeo.eurac.edu";
  openeo_prefix = "/openeo/1.1.0";
  workspace_root = "/user_workspaces";
  executor_image = some "executor:1";
  argo_workflows_server = some "http://argo";
  argo_workflows_namespace = "openeo";
  argo_workflows_limit = 2;
  dask_gateway_server = some "http://dask";
  dask_worker_cores = "4";
  dask_worker_memory = "8";
  dask_worker_limit = "6";
  dask_cluster_idle_timeout = "3600";
  executor_deadline = 7200;
  compute_timeout = 600;
  stac_api_url = "https://stac";
}

abbrev pub job : String → Status → Option String → Job ℕ
job i status workflowname = record {
  job_id = i;
  user_id = "u1";
  process = 7;
  process_name = "NDVI";
  status = status;
  title = none;
  description = none;
  created_at = 1000;
  synchronous = false;
  workflowname = workflowname;
  message = none;
}

abbrev pub world : List (Job ℕ) → List String → World memory
world rows dirs = record { db = rows; disk = dirs; calls = [] }

abbrev pub workflow : String → List (Option String) → Workflow
workflow phase nodes = record { status = some (record { phase = some phase; nodes = nodes }) }

-- Argo lists `ws`, and answers `a` for each workflow.
abbrev pub argo : Option (Option (List Workflow)) → Answer → Argo
argo ws a = record { list_workflows = ws; get_workflow = λ n ns. a; stop_workflow = λ n ns. a }

abbrev pub metadata : Metadata
metadata = record { name = "wf-1"; namespace = "openeo" }

abbrev pub submission : Submission ℕ
submission = record {
  environ = λ v. if v == "S3_BUCKET" then some "eo-public" else none;
  dumps_graph = λ g. "{}";
  dumps_user_profile = λ p. "{}";
  dumps_dask_profile = λ p. "{}";
  show = λ n. "600";
  standard_specs = "load_collection" ∷ [];
  custom_specs = "run_cwl" ∷ [];
  resolve_process_graph = λ g specs user. some g;
  create_workflow = λ w. some metadata;
}

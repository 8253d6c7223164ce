-- ===== src/Jobs/Lifecycle.antt =====
-- The backend as a whole: requests of any users, the workers' tasks and the reconciler, in any
-- order, and what holds of the job table at all times.
pub mod Changes
pub mod Bound
use mathlib.Core.Path.{subst}
use openeo_argoworkflows.Base.{
  ℕ, String, Bool, true, false, Option, none, some, List, [], ◌∷◌, ◌≡◌, ◌≢◌, ◌⊎◌, inl, inr, refl,
  ap, sym, ◌∙◌, if◌then◌else◌, string_eq, arith, Option-cases, Bool-cases, ◌==◌, ◌||◌, ◌&&◌, not,
}
use openeo_argoworkflows.Jobs.Model.{
  Job, Status, queued, running, canceled, finished, error, status_eq, phase_of, truthy, Argo,
  Metadata, Task, submit_job_task, queue_to_submit_task, poll_job_status_task, Settings,
}
use openeo_argoworkflows.Jobs.Services.{Services, IsLawful, World, get, modify, job_workspace}
use openeo_argoworkflows.Jobs.Queue.{queue_to_submit}
use openeo_argoworkflows.Jobs.Submit.{
  Submission, ExecutorWorkflow, resolve_udps, dask_profile, user_profile, executor_workflow, launch,
  submit_job,
}
use openeo_argoworkflows.Jobs.Poll.{
  Verdict, succeeded, broken, again, poll_verdict, detect_oom, memory_message, failed_message,
  lost_message, poll_job_status,
}
use openeo_argoworkflows.Jobs.Reconcile.{reconcile}
use openeo_argoworkflows.Jobs.Reconcile.Agreement.{Answer-cases, reconcile-IsLive}
use openeo_argoworkflows.Jobs.Sync.{SyncRequest, File, process_sync_job}
use openeo_argoworkflows.Jobs.Handlers.{
  JobsRequest, Fresh, requested_graph, new_job, create_job, start_job, delete_job, cancel_job,
}

-- A worker runs a task that was put on the queue.
unfoldable pub perform :
    {S : Services} → Submission S.Graph → Settings → Argo → Task S.Graph → World S → World S
perform sub s argo (submit_job_task job) w = submit_job sub s job w
perform sub s argo (queue_to_submit_task job) w = (queue_to_submit s argo job w).1
perform sub s argo (poll_job_status_task job m) w = poll_job_status argo job m w

-- One operation of the backend. A worker may hold any copy of a job, however old. A synchronous
-- request writes to the table before it waits, and only reads from then on: `looks` is what the other
-- operations have left when it reads.
pub data Step (S : Services) (sub : Submission S.Graph) (s : Settings) (w : World S)
    : World S → Type 0 where
  create :
      (body : JobsRequest S.Graph) (user_id : String) (f : Fresh)
      → Step S sub s w (create_job s body user_id f w).1
  start :
      (argo : Argo) (job_id user_id : String) → Step S sub s w (start_job s argo job_id user_id w).1
  cancel : (argo : Argo) (job_id : String) → Step S sub s w (cancel_job s argo job_id w).1
  delete : (job_id user_id : String) → Step S sub s w (delete_job s job_id user_id w).1
  work : (argo : Argo) (t : Task S.Graph) → Step S sub s w (perform sub s argo t w)
  sync :
      (body : SyncRequest S.Graph) (user_id : String) (f : Fresh) (looks : ℕ → Option Status)
      (fuel : ℕ) (files : List File)
      → Step S sub s w (process_sync_job body user_id f looks fuel files w).1
  tidy : (argo : Argo) → Step S sub s w (reconcile s.argo_workflows_namespace argo w)

pub data Reach (S : Services) (sub : Submission S.Graph) (s : Settings) (w : World S)
    : World S → Type 0 where
  here : Reach S sub s w w
  next : {u v : World S} → Reach S sub s w u → Step S sub s u v → Reach S sub s w v

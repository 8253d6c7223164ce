-- ===== src/Jobs/Poll.antt =====
-- `_detect_oom` and `poll_job_status` of tasks.py.
pub mod Oom
use openeo_argoworkflows.Base.{
  String, Bool, true, false, ◌||◌, Option, none, some, List, [], ◌∷◌, ◌==◌, ◌∈◌, if◌then◌else◌,
  string_eq,
}
use openeo_argoworkflows.Base.Text.{Text, codes, lower, contains}
use openeo_argoworkflows.Jobs.Model.{
  Job, finished, error, Workflow, WorkflowStatus, phase_of, Answer, found, not_found, failed, Argo,
  Metadata, poll_job_status_task, enqueue,
}
use openeo_argoworkflows.Jobs.Services.{Services, World, emit, modify, get}

-- `(message or "").lower()`
abbrev pub message_text : Option String → Text
message_text none = []
message_text (some m) = lower (codes m)

abbrev pub mentions_oom : Text → Bool
mentions_oom msg = contains msg (codes "oomkilled") || contains msg (codes "out of memory")

unfoldable pub any_oom : List (Option String) → Bool
unfolding contains lower
any_oom [] = false
any_oom (m ∷ ms) = let rest = any_oom ms in if mentions_oom (message_text m) then true else rest

abbrev pub nodes_of : Workflow → List (Option String)
nodes_of w = elim w.status [ none ↦ [] | some s ↦ s.nodes ]

unfoldable pub detect_oom : Workflow → Bool
unfolding any_oom
detect_oom w = any_oom (nodes_of w)

abbrev pub lost_message : String
lost_message = "Workflow could not be found. It may have been deleted or expired."

abbrev pub memory_message : String
memory_message =
    "Job exceeded available memory. Try reducing the temporal extent or spatial area and retry."

abbrev pub failed_message : String
failed_message = "Job failed. Please check the logs for details."

-- Where a phase leaves the job: ended well, ended badly, or to be asked again.
pub data Verdict : Type 0 where
  succeeded broken again : Verdict

unfoldable pub poll_verdict : Option String → Verdict
poll_verdict none = again
poll_verdict (some p) =
    if p == "Succeeded"
    then succeeded
    else if p ∈ ("Failed" ∷ "Error" ∷ [])
    then broken
    else if p ∈ ("Running" ∷ "Pending" ∷ [])
    then again
    else again

module _ {S : Services} where
  -- The branches on the phase, for the job `existing` that the database holds.
  unfoldable pub poll_workflow : Job S.Graph → Job S.Graph → Metadata → Workflow → World S → World S
  unfolding poll_verdict
  poll_workflow job existing m wf w = elim (poll_verdict (phase_of wf)) [
    | succeeded ↦ modify (record existing { status = finished; message = none }) w
    | broken ↦
        modify
          (record existing {
            status = error;
            message = some (if detect_oom wf then memory_message else failed_message);
          })
          w
    | again ↦ emit (enqueue (poll_job_status_task job m)) w
  ]

  pub poll_existing : Argo → Job S.Graph → Metadata → Job S.Graph → World S → World S
  unfolding poll_workflow
  poll_existing argo job m existing w = elim (argo.get_workflow m.name m.namespace) [
    | found wf ↦ poll_workflow job existing m wf w
    | not_found ↦ modify (record existing { status = error; message = some lost_message }) w
    | failed ↦ modify (record existing { status = error; message = some lost_message }) w
  ]

  -- Nothing happens for a job that is gone.
  unfoldable pub poll_job_status : Argo → Job S.Graph → Metadata → World S → World S
  unfolding poll_existing
  poll_job_status argo job m w = elim (get w job.job_id) [
    | none ↦ w
    | some existing ↦ poll_existing argo job m existing w
  ]

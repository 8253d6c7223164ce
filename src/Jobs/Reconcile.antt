-- ===== src/Jobs/Reconcile.antt =====
-- reconcile.py: every five minutes, the jobs that the database calls running are compared with Argo.
pub mod Rows
pub mod Agreement
use openeo_argoworkflows.Base.{
  String, Bool, true, false, Option, none, some, List, [], ◌∷◌, ◌==◌, ◌∈◌, if◌then◌else◌, string_eq,
}
use openeo_argoworkflows.Base.Text.{codes, contains, lower}
use openeo_argoworkflows.Jobs.Model.{
  Job, finished, error, truthy, Workflow, phase_of, Answer, found, not_found, failed, Argo,
}
use openeo_argoworkflows.Jobs.Services.{Services, World, modify}
use openeo_argoworkflows.Jobs.Poll.{
  message_text, mentions_oom, nodes_of, lost_message, memory_message, failed_message,
}

any_oom : List (Option String) → Bool
unfolding contains lower
any_oom [] = false
any_oom (m ∷ ms) = let rest = any_oom ms in if mentions_oom (message_text m) then true else rest

-- `_detect_oom` of reconcile.py, a second copy of the one in tasks.py
unfoldable pub reconcile_detect_oom : Workflow → Bool
unfolding any_oom
reconcile_detect_oom w = any_oom (nodes_of w)

abbrev pub orphan_message : String
orphan_message = "Job has no associated workflow and will not complete. Please resubmit."

-- The row that the loop writes for a job whose workflow has a given answer, or `none`.
reconcile_phase : {G : Type 0} → Job G → Workflow → Option String → Option (Job G)
unfolding reconcile_detect_oom
reconcile_phase job wf none = none
reconcile_phase job wf (some p) =
    if p == "Succeeded"
    then some (record job { status = finished; message = none })
    else if p ∈ ("Failed" ∷ "Error" ∷ [])
    then some (record job {
      status = error;
      message = some (if reconcile_detect_oom wf then memory_message else failed_message);
    })
    else none

reconcile_answer : {G : Type 0} → Job G → Answer → Option (Job G)
unfolding reconcile_phase
reconcile_answer job (found wf) = reconcile_phase job wf (phase_of wf)
reconcile_answer job _ = some (record job { status = error; message = some lost_message })

-- One round of the loop, on the row as it was read.
unfoldable pub reconcile_job : String → Argo → {G : Type 0} → Job G → Option (Job G)
unfolding reconcile_answer
reconcile_job namespace argo job = elim job.workflowname [
  | none ↦ some (record job { status = error; message = some orphan_message })
  | some name ↦
      if name == ""
      then some (record job { status = error; message = some orphan_message })
      else reconcile_answer job (argo.get_workflow name namespace)
]

module _ {S : Services} where
  abbrev pub write : Option (Job S.Graph) → World S → World S
  write none w = w
  write (some j) w = modify j w

  unfoldable pub reconcile_loop : String → Argo → List (Job S.Graph) → World S → World S
  reconcile_loop namespace argo [] w = w
  reconcile_loop namespace argo (j ∷ js) w =
      reconcile_loop namespace argo js (write (reconcile_job namespace argo j) w)

  -- The rows are read once, before the loop.
  unfoldable pub reconcile : String → Argo → World S → World S
  unfolding reconcile_loop
  reconcile namespace argo w = reconcile_loop namespace argo (S.running_jobs w.db) w

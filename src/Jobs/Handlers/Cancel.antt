-- ===== src/Jobs/Handlers/Cancel.antt =====
-- `cancel_job` and `delete_job`: what they do to the row, and what a stale copy of it undoes.
use openeo_argoworkflows.Base.{
  ℕ, String, false, none, some, [], ◌∷◌, ◌++◌, ◌==◌, ◌≡◌, ◌⊎◌, inl, inr, refl, ap, ◌∙◌,
  if◌then◌else◌, string_eq, arith, Option-cases,
}
use openeo_argoworkflows.Base.Dict.{Dict}
use openeo_argoworkflows.Jobs.Model.{
  Job, queued, running, canceled, error, status_eq, truthy, Workflow, phase_of, found, Argo,
  Metadata, stop, response, Settings,
}
use openeo_argoworkflows.Jobs.Services.{Services, IsLawful, World, get, modify, job_workspace}
use openeo_argoworkflows.Jobs.Handlers.{cancel_job, delete_job}
use openeo_argoworkflows.Jobs.Submit.{Submission, launch, submit_job}
use openeo_argoworkflows.Jobs.Poll.{
  broken, poll_verdict, poll_workflow, poll_existing, detect_oom, memory_message, failed_message,
  poll_job_status,
}

-- What a successful cancellation has done.
pub record Canceled (S : Services) (s : Settings) (job_id : String) (w w' : World S) : Type 0 where
  pub job : Job S.Graph
  pub was : get w job_id ≡ some job
  pub active : (job.status ≡ queued) ⊎ (job.status ≡ running)
  pub row :
      (i : String)
      → get w' i ≡ (if i == job_id then some (record job { status = canceled }) else get w i)
  pub calls : w'.calls ≡ (
      if job.status == running
      then (if truthy job.workflowname
          then w.calls ++ (stop job.workflowname s.argo_workflows_namespace ∷ [])
          else w.calls)
      else w.calls)

abbrev broken_row : {G : Type 0} → Job G → Workflow → Job G
broken_row j wf = record j {
  status = error;
  message = some (if detect_oom wf then memory_message else failed_message);
}

poll_verdict-failed : poll_verdict (some "Failed") ≡ broken
unfolding poll_verdict string_eq
poll_verdict-failed = refl

-- One poll of a workflow that has failed.
poll_failed :
    {S : Services} (argo : Argo) (job existing : Job S.Graph) (m : Metadata) (wf : Workflow)
    (w : World S)
    → get w job.job_id ≡ some existing
    → argo.get_workflow m.name m.namespace ≡ found wf
    → phase_of wf ≡ some "Failed"
    → poll_job_status argo job m w ≡ modify (broken_row existing wf) w
unfolding poll_job_status
poll_failed argo job existing m wf w there e ended =
    rw (there, e, ended, poll_verdict-failed, poll_job_status, poll_workflow, poll_existing)

module _ {S : Services} (L : IsLawful S) (s : Settings) (job_id : String) where
  -- An accepted cancellation found a job that was queued or running, and its row alone is now
  -- canceled. Argo is asked to stop the workflow of a running job that has one, and of no other.
  pub cancel_job_accepted :
      (argo : Argo) (w w' : World S) (c : ℕ) (hs : Dict String String)
      → cancel_job s argo job_id w ≡ (response c hs, w')
      → Canceled S s job_id w w'
  unfolding cancel_job
  cancel_job_accepted argo w w' c hs h = elim (Option-cases (get w job_id)) [
    | inl gone ↦ ground arith
    | inr (job, was) ↦ record {
      job = job;
      was = was;
      active = ground arith;
      row = λ i. ground (
        arith,
        L.get_key w.db job_id job was,
        L.get-modify w.db (record job { status = canceled }) job i,
      );
      calls = ground arith;
    }
  ]

  -- An accepted deletion leaves no row for the id and no workspace of the caller for it; every
  -- other row stays.
  pub delete_job_accepted :
      (user_id : String) (w w' : World S) (c : ℕ) (hs : Dict String String)
      → delete_job s job_id user_id w ≡ (response c hs, w')
      → ((i : String) → get w' i ≡ (if i == job_id then none else get w i))
        × (S.exists w'.disk (job_workspace s user_id job_id) ≡ false)
  unfolding delete_job
  delete_job_accepted user_id w w' c hs h = elim (Option-cases (get w job_id)) [
    | inl gone ↦ ground arith
    | inr (job, was) ↦ (
      λ i. ground (arith, L.get-delete w.db job_id i),
      ground (
        arith,
        L.get_key w.db job_id job was,
        L.exists-rmtree_self w.disk (job_workspace s user_id job.job_id),
      ),
    )
  ]

  -- A job that is canceled while it waits in the queue runs all the same: the worker writes its
  -- own copy of the job, and the row says running.
  pub submit_job_after_cancel :
      (argo : Argo) (sub : Submission S.Graph) (w w' : World S) (c : ℕ) (hs : Dict String String)
      (job : Job S.Graph) (m : Metadata)
      → get w job_id ≡ some job
      → cancel_job s argo job_id w ≡ (response c hs, w')
      → launch sub s job ≡ some m
      → get (submit_job sub s job w') job_id
        ≡ some (record job { status = running; workflowname = some m.name })
  unfolding submit_job
  submit_job_after_cancel argo sub w w' c hs job m was h launched =
      let seen = cancel_job_accepted argo w w' c hs h in
      ground (
        arith,
        L.get_key w.db job_id job was,
        seen.row job_id,
        L.get-modify w'.db (record job { status = running; workflowname = some m.name })
            (record seen.job { status = canceled }) job_id,
      )

  -- A running job that is canceled ends as an error: the workflow that was stopped has failed, and
  -- the next poll writes that over the cancellation.
  pub poll_job_status_after_cancel :
      (argo argo' : Argo) (w w' : World S) (c : ℕ) (hs : Dict String String) (job : Job S.Graph)
      (m : Metadata) (wf : Workflow)
      → get w job_id ≡ some job
      → cancel_job s argo job_id w ≡ (response c hs, w')
      → argo'.get_workflow m.name m.namespace ≡ found wf
      → phase_of wf ≡ some "Failed"
      → (j : Job S.Graph) × (get (poll_job_status argo' job m w') job_id ≡ some j)
        × (j.status ≡ error)
  poll_job_status_after_cancel argo argo' w w' c hs job m wf was h e ended =
      let seen = cancel_job_accepted argo w w' c hs h in
      let kept : Job S.Graph = record (seen.job) { status = canceled } in
      let there : get w' job_id ≡ some kept = ground (arith, seen.row job_id) in
      let key : job.job_id ≡ job_id = L.get_key w.db job_id job was in
      let key' : kept.job_id ≡ job_id = L.get_key w.db job_id seen.job seen.was in
      (
        broken_row kept wf,
        rw (poll_failed argo' job kept m wf w' (ap (get w') key ∙ there) e ended)
            (ground (arith, L.get-modify w'.db (broken_row kept wf) kept job_id, ap (get w') key')),
        refl,
      )

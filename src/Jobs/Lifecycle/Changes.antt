-- ===== src/Jobs/Lifecycle/Changes.antt =====
-- Each operation writes to the job table at most once, and keeps running jobs bound.
use mathlib.Core.Path.{subst}
use openeo_argoworkflows.Base.{
  ℕ, List, String, true, Option, none, some, ◌≡◌, ◌≢◌, ◌⊎◌, inl, inr, refl, ap, sym, ◌∙◌,
  if◌then◌else◌, string_eq, arith, Option-cases, Bool-cases, ◌==◌, ◌||◌, ◌&&◌, not,
}
use openeo_argoworkflows.Jobs.Model.{
  Job, Status, queued, running, canceled, finished, error, status_eq, phase_of, truthy, Argo,
  Metadata, Task, submit_job_task, queue_to_submit_task, poll_job_status_task, Settings,
}
use openeo_argoworkflows.Jobs.Services.{Services, IsLawful, World, get, job_workspace}
use openeo_argoworkflows.Jobs.Queue.{queue_to_submit}
use openeo_argoworkflows.Jobs.Submit.{
  Submission, ExecutorWorkflow, resolve_udps, dask_profile, user_profile, executor_workflow, launch,
  submit_job,
}
use openeo_argoworkflows.Jobs.Poll.{
  Verdict, succeeded, broken, again, poll_verdict, detect_oom, memory_message, failed_message,
  lost_message, poll_job_status,
}
use openeo_argoworkflows.Jobs.Reconcile.Agreement.{Answer-cases}
use openeo_argoworkflows.Jobs.Handlers.{
  JobsRequest, Fresh, requested_graph, new_job, create_job, start_job, delete_job, cancel_job,
}
use openeo_argoworkflows.Jobs.Sync.{SyncRequest, File, sync_job, process_sync_job}
use openeo_argoworkflows.Jobs.Lifecycle.{perform}

-- A job that is called running has the name of its workflow.
abbrev pub IsBound : {G : Type 0} → Job G → Type 0
IsBound j = j.status ≡ running → truthy j.workflowname ≡ true

abbrev pub AllBound : {S : Services} → World S → Type 0
AllBound {S} w = (i : String) (j : Job S.Graph) → get w i ≡ some j → IsBound j

-- What one operation does to the job table: at most one call that writes, and what it writes.
pub data Change (S : Services) (w w' : World S) : Type 0 where
  kept : w'.db ≡ w.db → Change S w w'
  wrote : (j : Job S.Graph) → IsBound j → w'.db ≡ (S.modify w.db j).1 → Change S w w'
  added : (j : Job S.Graph) → IsBound j → S.create w.db j ≡ some w'.db → Change S w w'
  removed : (i : String) → w'.db ≡ S.delete w.db i → Change S w w'

module _ {S : Services} (L : IsLawful S) where
  modify-AllBound :
      (j : Job S.Graph) (w w' : World S)
      → IsBound j
      → AllBound w
      → w'.db ≡ (S.modify w.db j).1
      → AllBound w'
  modify-AllBound j w w' bound h e i k row = elim (Option-cases (get w j.job_id)) [
    | inl gone ↦ elim (L.modify_missing w.db j i gone) [
      | inl same ↦ h i k (sym same ∙ (ap (λ d. S.get d i) (sym e) ∙ row))
      | inr (_, put) ↦
          let eq : j ≡ k = ground (arith, ap (λ d. S.get d i) e) in
          subst (λ (x : Job S.Graph). IsBound x) eq bound
    ]
    | inr (x, there) ↦ elim (string_eq.decide i j.job_id) [
      | yes p ↦
          let eq : j ≡ k = ground (arith, L.get-modify w.db j x i, ap (λ d. S.get d i) e) in
          subst (λ (x : Job S.Graph). IsBound x) eq bound
      | no n ↦ h i k (ground (arith, L.get-modify w.db j x i, ap (λ d. S.get d i) e))
    ]
  ]

  pub Change-AllBound : (w w' : World S) → Change S w w' → AllBound w → AllBound w'
  Change-AllBound w w' (kept e) h i k row = h i k (ground (arith, ap (λ d. S.get d i) e))
  Change-AllBound w w' (wrote j bound e) h i k row = modify-AllBound j w w' bound h e i k row
  Change-AllBound w w' (added j bound e) h i k row = elim (string_eq.decide i j.job_id) [
    | yes p ↦
        let eq : j ≡ k = ground (arith, L.get-create w.db j w'.db i e) in
        subst (λ (x : Job S.Graph). IsBound x) eq bound
    | no n ↦ h i k (ground (arith, L.get-create w.db j w'.db i e))
  ]
  Change-AllBound w w' (removed n e) h i k row =
      h i k (ground (arith, L.get-delete w.db n i, ap (λ d. S.get d i) e))

Verdict-cases : (v : Verdict) → (v ≡ succeeded) ⊎ ((v ≡ broken) ⊎ (v ≡ again))
Verdict-cases succeeded = inl refl
Verdict-cases broken = inr (inl refl)
Verdict-cases again = inr (inr refl)

module _ {S : Services} (s : Settings) where
  pub create_job-Change :
      (body : JobsRequest S.Graph) (user_id : String) (f : Fresh) (w : World S)
      → Change S w (create_job s body user_id f w).1
  unfolding create_job
  create_job-Change body user_id f w = elim (Option-cases (requested_graph S.is_empty body)) [
    | inl missing ↦ kept (ground arith)
    | inr (graph, asked) ↦
        let job : Job S.Graph = new_job body graph user_id f in
        elim (Option-cases (S.create w.db job)) [
          | inl taken ↦ kept (ground arith)
          | inr (db, stored) ↦ added job (λ r. cc) (ground arith)
        ]
  ]

  pub start_job-Change :
      (argo : Argo) (job_id user_id : String) (w : World S)
      → Change S w (start_job s argo job_id user_id w).1
  unfolding start_job queue_to_submit
  start_job-Change argo job_id user_id w = elim (Option-cases (get w job_id)) [
    | inl gone ↦ kept (ground arith)
    | inr (job, was) ↦ elim (Bool-cases (job.status == queued || job.status == running)) [
      | inl active ↦ kept (ground arith)
      | inr idle ↦ elim (Option-cases (S.mkdir w.disk (job_workspace s user_id job.job_id))) [
        | inl taken ↦ kept (ground arith)
        | inr (disk, made) ↦ wrote (record job { status = queued }) (λ r. cc) (ground arith)
      ]
    ]
  ]

  pub cancel_job-Change :
      (argo : Argo) (job_id : String) (w : World S) → Change S w (cancel_job s argo job_id w).1
  unfolding cancel_job
  cancel_job-Change argo job_id w = elim (Option-cases (get w job_id)) [
    | inl gone ↦ kept (ground arith)
    | inr (job, was) ↦
        elim (Bool-cases (not (job.status == queued) && not (job.status == running))) [
          | inl idle ↦ kept (ground arith)
          | inr active ↦ elim (Bool-cases (job.status == running && truthy job.workflowname)) [
            | inr unbound ↦ wrote (record job { status = canceled }) (λ r. cc) (ground arith)
            | inl bound ↦
                elim (Answer-cases
                  (argo.stop_workflow job.workflowname s.argo_workflows_namespace)) [
                    | inl (wf, e) ↦
                        wrote (record job { status = canceled }) (λ r. cc) (ground arith)
                    | inr (inl e) ↦
                        wrote (record job { status = canceled }) (λ r. cc) (ground arith)
                    | inr (inr e) ↦ kept (ground arith)
                  ]
          ]
        ]
  ]

  pub delete_job-Change :
      (job_id user_id : String) (w : World S) → Change S w (delete_job s job_id user_id w).1
  unfolding delete_job
  delete_job-Change job_id user_id w = elim (Option-cases (get w job_id)) [
    | inl gone ↦ kept (ground arith)
    | inr (job, was) ↦ removed job_id (ground arith)
  ]

  poll_job_status-Change :
      (argo : Argo) (job : Job S.Graph) (m : Metadata) (w : World S)
      → Change S w (poll_job_status argo job m w)
  unfolding poll_job_status
  poll_job_status-Change argo job m w = elim (Option-cases (get w job.job_id)) [
    | inl gone ↦ kept (ground arith)
    | inr (j, was) ↦ elim (Answer-cases (argo.get_workflow m.name m.namespace)) [
      | inr (inl e) ↦
          wrote (record j { status = error; message = some lost_message }) (λ r. cc) (ground arith)
      | inr (inr e) ↦
          wrote (record j { status = error; message = some lost_message }) (λ r. cc) (ground arith)
      | inl (wf, e) ↦ elim (Verdict-cases (poll_verdict (phase_of wf))) [
        | inl v ↦ wrote (record j { status = finished; message = none }) (λ r. cc) (ground arith)
        | inr (inl v) ↦
            wrote
              (record j {
                status = error;
                message = some (if detect_oom wf then memory_message else failed_message);
              })
              (λ r. cc) (ground arith)
        | inr (inr v) ↦ kept (ground arith)
      ]
    ]
  ]

  queue_to_submit-Change :
      (argo : Argo) (job : Job S.Graph) (w : World S) → Change S w (queue_to_submit s argo job w).1
  unfolding queue_to_submit
  queue_to_submit-Change argo job w = kept (ground arith)

pub process_sync_job-Change :
    {S : Services} (body : SyncRequest S.Graph) (user_id : String) (f : Fresh)
    (looks : ℕ → Option Status) (fuel : ℕ) (files : List File) (w : World S)
    → Change S w (process_sync_job body user_id f looks fuel files w).1
unfolding process_sync_job sync_job
process_sync_job-Change {S} body user_id f looks fuel files w = elim (Option-cases body.process) [
  | inl missing ↦ kept (ground (arith, missing))
  | inr (p, asked) ↦
      let job : Job S.Graph = sync_job body.title p user_id f in
      elim (Option-cases (S.create w.db job)) [
        | inl taken ↦ kept (ground (arith, asked, taken))
        | inr (db, stored) ↦ added job (λ r. cc) (ground (arith, asked, stored))
      ]
]

-- Argo names each workflow that it creates.
abbrev pub NamesWorkflows : {G : Type 0} → Submission G → Type 0
NamesWorkflows sub =
    (w : ExecutorWorkflow) (m : Metadata) → sub.create_workflow w ≡ some m → m.name ≢ ""

launch-name :
    {G : Type 0} (sub : Submission G) (s : Settings) (job : Job G) (m : Metadata)
    → NamesWorkflows sub
    → launch sub s job ≡ some m
    → m.name ≢ ""
unfolding launch
launch-name sub s job m named h = elim (Option-cases (resolve_udps sub job.process job.user_id)) [
  | inl failed ↦ ground arith
  | inr (graph, e) ↦
      let dask = dask_profile s in
      let user = user_profile s sub.environ job in
      elim (Option-cases (executor_workflow sub s graph dask user)) [
        | inl failed ↦ ground arith
        | inr (w, e') ↦ named w m (ground arith)
      ]
]

module _ {S : Services} (sub : Submission S.Graph) (s : Settings) (named : NamesWorkflows sub) where
  submit_job-Change : (job : Job S.Graph) (w : World S) → Change S w (submit_job sub s job w)
  unfolding submit_job
  submit_job-Change job w = elim (Option-cases (launch sub s job)) [
    | inl failed ↦ wrote (record job { status = error }) (λ r. cc) (ground arith)
    | inr (m, e) ↦
        wrote (record job { status = running; workflowname = some m.name })
          (λ r. ground (arith, launch-name sub s job m named e)) (ground arith)
  ]

  pub perform-Change :
      (argo : Argo) (t : Task S.Graph) (w : World S) → Change S w (perform sub s argo t w)
  unfolding perform
  perform-Change argo (submit_job_task job) w = submit_job-Change job w
  perform-Change argo (queue_to_submit_task job) w = queue_to_submit-Change s argo job w
  perform-Change argo (poll_job_status_task job m) w = poll_job_status-Change s argo job m w

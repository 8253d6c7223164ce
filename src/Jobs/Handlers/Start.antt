-- ===== src/Jobs/Handlers/Start.antt =====
-- What `start_job` does to a job, its workspace and the queue.
use openeo_argoworkflows.Base.{
  String, true, ◌||◌, none, some, List, [], ◌∷◌, ◌++◌, ◌==◌, ◌≡◌, ◌≢◌, inl, inr, refl, ℕ,
  if◌then◌else◌, string_eq, arith, Option-cases, Bool-cases,
}
use openeo_argoworkflows.Jobs.Model.{
  Job, queued, running, status_eq, Argo, Call, response, http_error, crash, Settings,
}
use openeo_argoworkflows.Jobs.Services.{Services, IsLawful, World, get, job_workspace}
use openeo_argoworkflows.Jobs.Queue.{choose_call, queue_to_submit}
use openeo_argoworkflows.Jobs.Handlers.{start_job}

-- What a successful start has done.
pub record Started (S : Services) (s : Settings) (argo : Argo) (job_id user_id : String)
    (w w' : World S) : Type 0 where
  pub job : Job S.Graph
  pub was : get w job_id ≡ some job
  pub not_queued : job.status ≢ queued
  pub not_running : job.status ≢ running
  pub row :
      (i : String)
      → get w' i ≡ (if i == job_id then some (record job { status = queued }) else get w i)
  pub workspace : S.exists w'.disk (job_workspace s user_id job.job_id) ≡ true
  pub call : Call S.Graph
  pub chosen : choose_call s argo S.Graph (record job { status = queued }) ≡ some call
  pub called : w'.calls ≡ w.calls ++ (call ∷ [])

module _ {S : Services} (L : IsLawful S) (s : Settings) (argo : Argo)
    (job_id user_id : String) where
  accepted_with :
      (w w' : World S) (c : ℕ) (hs : List (String × String)) (job : Job S.Graph) (disk : S.Disk)
      → get w job_id ≡ some job
      → S.mkdir w.disk (job_workspace s user_id job.job_id) ≡ some disk
      → start_job s argo job_id user_id w ≡ (response c hs, w')
      → Started S s argo job_id user_id w w'
  unfolding start_job queue_to_submit
  accepted_with w w' c hs job disk was made h =
      let queued_job : Job S.Graph = record job { status = queued } in
      elim (Option-cases (choose_call s argo S.Graph queued_job)) [
        | inl raised ↦ ground arith
        | inr (call, chosen) ↦ record {
          job = job;
          was = was;
          not_queued = ground arith;
          not_running = ground arith;
          row = λ i.
              ground (arith, L.get_key w.db job_id job was, L.get-modify w.db queued_job job i);
          workspace = ground (
            arith,
            L.exists-mkdir w.disk (job_workspace s user_id job.job_id) disk
                (job_workspace s user_id job.job_id) made (inr refl),
          );
          call = call;
          chosen = chosen;
          called = ground arith;
        }
      ]

  -- A start that is accepted found a job that was neither queued nor running. It has made the
  -- workspace, queued the job, left every other row alone, and made one call for the job.
  pub start_job_accepted :
      (w w' : World S) (c : ℕ) (hs : List (String × String))
      → start_job s argo job_id user_id w ≡ (response c hs, w')
      → Started S s argo job_id user_id w w'
  unfolding start_job
  start_job_accepted w w' c hs h = elim (Option-cases (get w job_id)) [
    | inl gone ↦ ground arith
    | inr (job, was) ↦ elim (Option-cases (S.mkdir w.disk (job_workspace s user_id job.job_id))) [
      | inl taken ↦ ground arith
      | inr (disk, made) ↦ accepted_with w w' c hs job disk was made h
    ]
  ]

  -- A job whose workspace is there is never started again, whatever its status.
  pub start_job_again :
      (w : World S) (job : Job S.Graph)
      → get w job_id ≡ some job
      → S.exists w.disk (job_workspace s user_id job.job_id) ≡ true
      → (c : ℕ) × (detail : String) × (start_job s argo job_id user_id w ≡ (http_error c detail, w))
  unfolding start_job
  start_job_again w job e there =
      elim (Bool-cases (job.status == queued || job.status == running)) [
        | inl active ↦
            (400, "Job is already in queue or running, and cannot be started again.", ground arith)
        | inr idle ↦ (
          500,
          "Could not create workspace for the current job.",
          ground (arith, L.mkdir_taken w.disk (job_workspace s user_id job.job_id)),
        )
      ]

  -- If Argo cannot list its workflows, a start raises, but the row says queued and the start has put
  -- nothing on the queue.
  pub start_job_stranded :
      (w : World S) (job : Job S.Graph) (disk : S.Disk) (server : String)
      → get w job_id ≡ some job
      → job.status ≢ queued
      → job.status ≢ running
      → S.mkdir w.disk (job_workspace s user_id job.job_id) ≡ some disk
      → s.argo_workflows_server ≡ some server
      → argo.list_workflows ≡ none
      → let (o, w') = start_job s argo job_id user_id w in
        (o ≡ crash "queue_to_submit")
        × (get w' job_id ≡ some (record job { status = queued }))
        × (w'.calls ≡ w.calls)
  unfolding start_job queue_to_submit choose_call
  start_job_stranded w job disk server was a b made e l = (
    ground arith,
    ground (
      arith,
      L.get_key w.db job_id job was,
      L.get-modify w.db (record job { status = queued }) job job_id,
    ),
    ground arith,
  )

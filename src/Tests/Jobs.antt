-- ===== src/Tests/Jobs.antt =====
-- The requests on jobs.
use openeo_argoworkflows.Base.{
  ℕ, String, false, none, some, [], ◌∷◌, ◌≡◌, refl, arith, ◌==◌, string_eq, if◌then◌else◌,
}
use openeo_argoworkflows.Jobs.Model.{
  Argo, Job, created, queued, running, error, status_eq, found, failed, Outcome, crash, http_error,
  enqueue_in, queue_to_submit_task,
}
use openeo_argoworkflows.Jobs.Services.{World, get, job_workspace}
use openeo_argoworkflows.Jobs.Services.Memory.{
  memory, memory-IsLawful, row, update, remove, create_row, make_dir, written, without,
}
use openeo_argoworkflows.Base.Dict.{get as get', set as set'}
use openeo_argoworkflows.Base.Lists.{filter_by}
use openeo_argoworkflows.Jobs.Queue.{retry_delay, choose_call, queue_to_submit}
use openeo_argoworkflows.Jobs.Queue.Limit.{choose_call_limit}
use openeo_argoworkflows.Jobs.Handlers.{
  JobsRequest, Fresh, create_job, start_job, delete_job, cancel_job,
}
use openeo_argoworkflows.Jobs.Handlers.Start.{
  Started, start_job_accepted, start_job_again, start_job_stranded,
}
use openeo_argoworkflows.Jobs.Handlers.Create.{Created, create_job_accepted}
use openeo_argoworkflows.Jobs.Handlers.Cancel.{
  Canceled, cancel_job_accepted, delete_job_accepted, submit_job_after_cancel,
  poll_job_status_after_cancel,
}
use openeo_argoworkflows.Jobs.Submit.{launch, executor_workflow, user_profile, submit_job}
use openeo_argoworkflows.Jobs.Poll.{poll_job_status}
use openeo_argoworkflows.Tests.Backend.{settings, job, world, workflow, argo, metadata, submission}

abbrev w₀ : World memory
w₀ = world (job "j1" created none ∷ job "j2" running (some "wf-1") ∷ job "j3" queued none ∷ []) []

-- Argo runs nothing, and knows a workflow that has failed.
abbrev idle : Argo
idle = argo (some none) (found (workflow "Failed" []))

-- Argo does not answer.
abbrev silent : Argo
silent = argo none failed

abbrev start : Argo → String → World memory → Outcome × World memory
start a i = start_job settings a i "u1"

abbrev cancel : String → World memory → Outcome × World memory
cancel i = cancel_job settings idle i

started : World memory
unfolding start_job queue_to_submit choose_call row update make_dir written string_eq status_eq
started = (start idle "j1" w₀).1

start_job_accepted_example : Started memory settings idle "j1" "u1" w₀ started
unfolding started
start_job_accepted_example =
    start_job_accepted memory-IsLawful settings idle "j1" "u1" w₀ started 202 [] refl

start_job_again_example :
    (c : ℕ) × (detail : String) × (start idle "j1" started ≡ (http_error c detail, started))
unfolding started
start_job_again_example =
    start_job_again memory-IsLawful settings idle "j1" "u1" started (job "j1" queued none) refl refl

start_job_stranded_example :
    let (o, w') = start silent "j1" w₀ in
    (o ≡ crash "queue_to_submit") × (get w' "j1" ≡ some (job "j1" queued none)) × (w'.calls ≡ [])
unfolding started
start_job_stranded_example =
    start_job_stranded memory-IsLawful settings silent "j1" "u1" w₀ (job "j1" created none)
      ("/user_workspaces/u1/j1" ∷ []) "http://argo" refl (λ e. cc) (λ e. cc) refl refl refl

abbrev body : JobsRequest ℕ
body = record {
  title = none;
  description = none;
  process = some (record { id = none; process_graph = some 7 });
}

abbrev fresh : Fresh
fresh = record { job_id = "j9"; name = "A1"; now = 5 }

made : Outcome × World memory
unfolding create_job create_row row string_eq
made = create_job settings body "u1" fresh w₀

create_job_accepted_example : Created memory body "u1" fresh w₀ made.1
unfolding made
create_job_accepted_example =
    create_job_accepted memory-IsLawful settings body "u1" fresh w₀ made.1 201
      (("Location", "openeo.eurac.edu/openeo/1.1.0/jobs/j9") ∷ ("OpenEO-Identifier", "j9") ∷ [])
      refl

canceled_world : String → World memory
unfolding cancel_job row update written string_eq status_eq
canceled_world i = (cancel i w₀).1

cancel_job_accepted_example : Canceled memory settings "j2" w₀ (canceled_world "j2")
unfolding canceled_world
cancel_job_accepted_example =
    cancel_job_accepted memory-IsLawful settings "j2" idle w₀ (canceled_world "j2") 204 [] refl

deleted : World memory
unfolding delete_job row remove without string_eq status_eq
deleted = (delete_job settings "j2" "u1" w₀).1

delete_job_accepted_example :
    ((i : String) → get deleted i ≡ (if i == "j2" then none else get w₀ i))
    × (memory.exists deleted.disk (job_workspace settings "u1" "j2") ≡ false)
unfolding deleted
delete_job_accepted_example =
    delete_job_accepted memory-IsLawful settings "j2" "u1" w₀ deleted 204 [] refl

submit_job_after_cancel_example :
    get (submit_job submission settings (job "j3" queued none) (canceled_world "j3")) "j3"
    ≡ some (job "j3" running (some "wf-1"))
unfolding canceled_world launch executor_workflow user_profile get' set'
submit_job_after_cancel_example =
    submit_job_after_cancel memory-IsLawful settings "j3" idle submission w₀ (canceled_world "j3")
      204 [] (job "j3" queued none) metadata refl refl refl

poll_job_status_after_cancel_example :
    (j : Job ℕ) × (get
        (poll_job_status idle (job "j2" running (some "wf-1")) metadata (canceled_world "j2"))
        "j2"
      ≡ some j)
    × (j.status ≡ error)
unfolding canceled_world
poll_job_status_after_cancel_example =
    poll_job_status_after_cancel memory-IsLawful settings "j2" idle idle w₀ (canceled_world "j2")
      204 [] (job "j2" running (some "wf-1")) metadata (workflow "Failed" []) refl refl refl refl

-- Two places, both taken.
choose_call_limit_example :
    choose_call settings
      (argo (some (some (workflow "Running" [] ∷ workflow "Pending" [] ∷ []))) failed)
      ℕ
      (job "j1" queued none)
    ≡ some (enqueue_in retry_delay (queue_to_submit_task (job "j1" queued none)))
unfolding filter_by string_eq
choose_call_limit_example =
    choose_call_limit settings
      (argo (some (some (workflow "Running" [] ∷ workflow "Pending" [] ∷ []))) failed) ℕ
      (job "j1" queued none) "http://argo" (workflow "Running" [] ∷ workflow "Pending" [] ∷ []) refl
      refl (omega arith)

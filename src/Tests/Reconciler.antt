-- ===== src/Tests/Reconciler.antt =====
-- The reconciler, the polling worker and the backend as a whole.
use openeo_argoworkflows.Base.{String, true, none, some, [], ◌∷◌, ◌≡◌, ◌≢◌, refl, arith, string_eq}
use openeo_argoworkflows.Jobs.Model.{
  created, queued, running, status_eq, found, Argo, Workflow, truthy,
}
use openeo_argoworkflows.Jobs.Services.{World, get}
use openeo_argoworkflows.Jobs.Services.Memory.{memory, memory-IsLawful, row, update, running_of}
use openeo_argoworkflows.Jobs.Poll.{poll_job_status, detect_oom}
use openeo_argoworkflows.Jobs.Reconcile.{reconcile, reconcile_job}
use openeo_argoworkflows.Jobs.Reconcile.Rows.{reconciled, get-reconcile}
use openeo_argoworkflows.Jobs.Reconcile.Agreement.{get-poll_job_status, IsLive, reconcile-IsLive}
use openeo_argoworkflows.Jobs.Lifecycle.{here, next, tidy}
use openeo_argoworkflows.Jobs.Lifecycle.Changes.{NamesWorkflows, AllBound}
use openeo_argoworkflows.Jobs.Lifecycle.Bound.{running_job_is_bound}
use openeo_argoworkflows.Tests.Backend.{settings, job, world, workflow, argo, metadata, submission}

abbrev w₀ : World memory
w₀ = world (job "j1" created none ∷ job "j2" running (some "wf-1") ∷ job "j3" running none ∷ []) []

wf-1_named : ◌≢◌ {A = String} "wf-1" ""
wf-1_named e = cc

abbrev out_of_memory : Workflow
out_of_memory = workflow "Failed" (none ∷ some "main: OOMKilled (exit code 137)" ∷ [])

abbrev broken : Argo
broken = argo (some none) (found out_of_memory)

abbrev busy : Argo
busy = argo (some none) (found (workflow "Running" []))

get-reconcile_example :
    get (reconcile {S = memory} "openeo" broken w₀) "j2" ≡ reconciled "openeo" broken (get w₀ "j2")
get-reconcile_example = get-reconcile memory-IsLawful "openeo" broken w₀ "j2"

get-poll_job_status_example :
    get (poll_job_status {S = memory} broken (job "j2" queued none) metadata w₀) "j2"
    ≡ get (reconcile {S = memory} "openeo" broken w₀) "j2"
unfolding row string_eq
get-poll_job_status_example =
    get-poll_job_status broken (job "j2" queued none) (job "j2" running (some "wf-1")) metadata w₀
      memory-IsLawful refl refl refl wf-1_named "j2"

reconcile-IsLive_example : IsLive "openeo" busy (job "j2" running (some "wf-1"))
unfolding reconcile reconcile_job row running_of update string_eq status_eq
reconcile-IsLive_example =
    reconcile-IsLive memory-IsLawful "openeo" busy w₀ "j2" (job "j2" running (some "wf-1")) refl
      refl

out_of_memory_found : detect_oom out_of_memory ≡ true
unfolding detect_oom
out_of_memory_found = refl

abbrev one : World memory
one = world (job "j2" running (some "wf-1") ∷ []) []

submission-NamesWorkflows : NamesWorkflows submission
submission-NamesWorkflows w m e = ground (arith, wf-1_named)

one-AllBound : AllBound {S = memory} one
unfolding row
one-AllBound i j e runs = ground (arith, wf-1_named)

running_job_is_bound_example : truthy (some "wf-1") ≡ true
unfolding reconcile reconcile_job row running_of update string_eq status_eq
running_job_is_bound_example =
    running_job_is_bound memory-IsLawful submission settings submission-NamesWorkflows {w = one}
      {w' = reconcile "openeo" busy one} "j2" (job "j2" running (some "wf-1")) one-AllBound
      (next here (tidy busy)) refl refl

-- ===== src/Jobs/Queue/Limit.antt =====
-- The limit on workflows that run at once.
use openeo_argoworkflows.Base.{
  String, Bool, true, false, none, some, List, [], ◌∷◌, ◌≡◌, refl, ◌<◌, ltb, ◌∈◌, is_some, ◌&&◌,
  if◌then◌else◌, string_eq, arith,
}
use openeo_argoworkflows.Base.Lists.{length, filter_by}
use openeo_argoworkflows.Jobs.Model.{
  Job, Workflow, phase_of, Argo, submit_job_task, queue_to_submit_task, enqueue, enqueue_in,
  Settings,
}
use openeo_argoworkflows.Jobs.Queue.{count_active, retry_delay, choose_call}

-- A workflow whose phase takes a place in the pool.
abbrev pub occupies : Workflow → Bool
occupies w = elim (phase_of w) [ none ↦ false | some p ↦ p ∈ ("Running" ∷ "Pending" ∷ []) ]

-- Argo has given each workflow a status.
abbrev pub all_reported : List Workflow → Bool
all_reported [] = true
all_reported (w ∷ ws) = is_some w.status && all_reported ws

count_active-length :
    (ws : List Workflow)
    → count_active ws ≡ (if all_reported ws then some (length (filter_by occupies ws)) else none)
unfolding count_active filter_by
count_active-length [] = refl
count_active-length (w ∷ ws) = ground (arith, count_active-length ws)

-- With a workflow server, a limit that is not 0 and a list of workflows from Argo: while the pool has
-- a place, the job is submitted at once, and otherwise it is put off by five minutes. If a workflow of
-- the list has no status yet, neither call is made.
pub choose_call_limit :
    (s : Settings) (argo : Argo) (G : Type 0) (job : Job G) (server : String) (ws : List Workflow)
    → s.argo_workflows_server ≡ some server
    → argo.list_workflows ≡ some (some ws)
    → 0 < s.argo_workflows_limit
    → choose_call s argo G job ≡ (
        if all_reported ws
        then some (
            if ltb (length (filter_by occupies ws)) s.argo_workflows_limit
            then enqueue (submit_job_task job)
            else enqueue_in retry_delay (queue_to_submit_task job))
        else none)
unfolding choose_call filter_by
choose_call_limit s argo G job server [] e l pos = ground arith
choose_call_limit s argo G job server (w ∷ ws) e l pos =
    ground (arith, count_active-length (w ∷ ws))

-- ===== src/Jobs/Queue.antt =====
-- `queue_to_submit` of tasks.py: is there room in the pool for another workflow?
pub mod Limit
use openeo_argoworkflows.Base.{
  ℕ, suc, String, Bool, true, false, Option, none, some, List, [], ◌∷◌, is_some, leb, ◌∈◌, ◌≡◌,
  refl, if◌then◌else◌, string_eq, arith, ◌≤◌,
}
use openeo_argoworkflows.Jobs.Model.{
  Job, Workflow, Argo, Task, submit_job_task, queue_to_submit_task, Call, enqueue, enqueue_in,
  Outcome, response, crash, Settings,
}
use openeo_argoworkflows.Jobs.Services.{Services, World, emit}

-- `workflow.status.phase in check_statuses`; a workflow with no status raises.
unfoldable pub is_active : Workflow → Option Bool
is_active w = elim w.status [
  | none ↦ none
  | some s ↦ elim s.phase [ none ↦ some false | some p ↦ some (p ∈ ("Running" ∷ "Pending" ∷ [])) ]
]

count_step : Bool → Option ℕ → Option ℕ
count_step b none = none
count_step true (some n) = some (suc n)
count_step false (some n) = some n

-- `len(filtered_workflows)`
unfoldable pub count_active : List Workflow → Option ℕ
unfolding is_active count_step
count_active [] = some 0
count_active (w ∷ ws) =
    let rest = count_active ws in elim (is_active w) [ none ↦ none | some b ↦ count_step b rest ]

-- Five minutes, in seconds.
abbrev pub retry_delay : ℕ
retry_delay = 300

-- The call that `queue_to_submit` makes, or `none` where it raises before it.
unfoldable pub choose_call : Settings → Argo → (G : Type 0) → Job G → Option (Call G)
choose_call s argo G job = elim s.argo_workflows_server [
  | none ↦ some (enqueue (submit_job_task job))
  | some _ ↦ elim argo.list_workflows [
    | none ↦ none
    | some none ↦ some (enqueue (submit_job_task job))
    | some (some []) ↦ some (enqueue (submit_job_task job))
    | some (some (w ∷ ws)) ↦ elim (count_active (w ∷ ws)) [
      | none ↦ none
      | some n ↦
          if leb s.argo_workflows_limit n
          then some (enqueue_in retry_delay (queue_to_submit_task job))
          else some (enqueue (submit_job_task job))
    ]
  ]
]

module _ {S : Services} where
  unfoldable pub queue_to_submit : Settings → Argo → Job S.Graph → World S → Bool × World S
  queue_to_submit s argo job w = elim (choose_call s argo S.Graph job) [
    | none ↦ (false, w)
    | some c ↦ (true, emit c w)
  ]

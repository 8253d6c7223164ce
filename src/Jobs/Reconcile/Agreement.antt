-- ===== src/Jobs/Reconcile/Agreement.antt =====
-- `reconcile` and the polling worker draw the same conclusions, and what is left running is live.
use mathlib.Core.Path.{subst}
use openeo_argoworkflows.Base.{
  String, ◌==◌, if◌then◌else◌, ap, Option, none, some, List, [], ◌∷◌, ◌≡◌, ◌≢◌, ◌∙◌, ◌⊎◌, inl, inr,
  refl, sym, string_eq, arith, Option-cases,
}
use openeo_argoworkflows.Jobs.Model.{
  Job, running, finished, error, status_eq, Workflow, phase_of, Answer, found, not_found, failed,
  Argo, Metadata,
}
use openeo_argoworkflows.Jobs.Services.{Services, IsLawful, World, get}
use openeo_argoworkflows.Jobs.Poll.{any_oom, detect_oom, nodes_of, poll_job_status}
use openeo_argoworkflows.Jobs.Reconcile.{
  any_oom as any_oom', reconcile_detect_oom, reconcile_job, write, reconcile,
}
use openeo_argoworkflows.Jobs.Reconcile.Rows.{reconciled, reconcile_job-id, get-reconcile}

any_oom-eq : (ms : List (Option String)) → any_oom' ms ≡ any_oom ms
unfolding any_oom any_oom'
any_oom-eq [] = refl
any_oom-eq (m ∷ ms) = ground (arith, any_oom-eq ms)

detect_oom-eq : (w : Workflow) → reconcile_detect_oom w ≡ detect_oom w
unfolding reconcile_detect_oom detect_oom
detect_oom-eq w = any_oom-eq (nodes_of w)

module _ {S : Services} (argo : Argo) (job existing : Job S.Graph) (m : Metadata)
    (w : World S) where
  same_row :
      (a : Answer)
      → argo.get_workflow m.name m.namespace ≡ a
      → get w job.job_id ≡ some existing
      → existing.workflowname ≡ some m.name
      → m.name ≢ ""
      → (poll_job_status argo job m w).db
        ≡ (write {S = S} (reconcile_job m.namespace argo existing) w).db
  unfolding poll_job_status reconcile_job
  same_row (found wf) e there tied named = ground (arith, detect_oom-eq wf)
  same_row not_found e there tied named = ground arith
  same_row failed e there tied named = ground arith

  written_row :
      (L : IsLawful S) (ns : String)
      → get w job.job_id ≡ some existing
      → existing.status ≡ running
      → (i : String)
      → get (write {S = S} (reconcile_job ns argo existing) w) i
        ≡ (if i == job.job_id then get (reconcile ns argo w) i else get w i)
  written_row L ns there runs i =
      let same : existing.job_id ≡ job.job_id = L.get_key w.db job.job_id existing there in
      elim (Option-cases (reconcile_job ns argo existing)) [
        | inl kept ↦ elim (string_eq.decide i job.job_id) [
          | yes p ↦ ground (arith, kept, p, there, runs, get-reconcile L ns argo w i)
          | no n ↦ ground (arith, kept, n)
        ]
        | inr (j, e) ↦ elim (string_eq.decide i job.job_id) [
          | yes p ↦ ground (
            arith,
            e,
            p,
            there,
            runs,
            same,
            get-reconcile L ns argo w i,
            reconcile_job-id ns argo existing j e,
            L.get-modify w.db j existing i,
          )
          | no n ↦ ground (
            arith,
            e,
            n,
            there,
            same,
            reconcile_job-id ns argo existing j e,
            L.get-modify w.db j existing i,
          )
        ]
      ]

  -- Whenever the polling worker looks at the workflow that a running job is tied to, it leaves in the row
  -- of that job what a run of `reconcile` with the same answers of Argo would leave there, and changes
  -- no other row.
  pub get-poll_job_status :
      IsLawful S
      → get w job.job_id ≡ some existing
      → existing.status ≡ running
      → existing.workflowname ≡ some m.name
      → m.name ≢ ""
      → (i : String)
      → get (poll_job_status argo job m w) i
        ≡ (if i == job.job_id then get (reconcile m.namespace argo w) i else get w i)
  get-poll_job_status L there runs tied named i =
      ap (λ d. S.get d i) (same_row _ refl there tied named)
      ∙ written_row L m.namespace there runs i

-- Why `reconcile` leaves a job running: Argo has its workflow, in none of the final phases.
pub record IsLive (ns : String) (argo : Argo) {G : Type 0} (j : Job G) : Type 0 where
  pub name : String
  pub workflow : Workflow
  pub tied : j.workflowname ≡ some name
  pub named : name ≢ ""
  pub known : argo.get_workflow name ns ≡ found workflow
  pub not_succeeded : phase_of workflow ≢ some "Succeeded"
  pub not_failed : phase_of workflow ≢ some "Failed"
  pub not_error : phase_of workflow ≢ some "Error"

pub Answer-cases :
    (a : Answer) → ((wf : Workflow) × (a ≡ found wf)) ⊎ ((a ≡ not_found) ⊎ (a ≡ failed))
Answer-cases (found wf) = inl (wf, refl)
Answer-cases not_found = inr (inl refl)
Answer-cases failed = inr (inr refl)

reconcile_job-IsLive :
    (ns : String) (argo : Argo) {G : Type 0} (j : Job G)
    → reconcile_job ns argo j ≡ none
    → IsLive ns argo j
unfolding reconcile_job
reconcile_job-IsLive ns argo j h = elim (Option-cases j.workflowname) [
  | inl none_there ↦ ground arith
  | inr (n, tied) ↦ elim (Answer-cases (argo.get_workflow n ns)) [
    | inl (wf, known) ↦ record {
      name = n;
      workflow = wf;
      tied = tied;
      named = ground arith;
      known = known;
      not_succeeded = ground arith;
      not_failed = ground arith;
      not_error = ground arith;
    }
    | inr unknown ↦ ground arith
  ]
]

reconcile_job_ends :
    (ns : String) (argo : Argo) {G : Type 0} (j j' : Job G)
    → reconcile_job ns argo j ≡ some j'
    → (j'.status ≡ finished) ⊎ (j'.status ≡ error)
unfolding reconcile_job
reconcile_job_ends ns argo j j' h = ground arith

-- What a run makes of a row, and what a further run makes of that.
reconciled-IsLive :
    (ns : String) (argo : Argo) {G : Type 0} (o : Option (Job G)) (j : Job G)
    → reconciled ns argo o ≡ some j
    → j.status ≡ running
    → IsLive ns argo j
reconciled-IsLive ns argo none j e runs = ground arith
reconciled-IsLive ns argo {G} (some k) j e runs = elim (Option-cases (reconcile_job ns argo k)) [
  | inl kept ↦
      let same : k ≡ j = ground arith in
      subst (λ (x : Job G). IsLive ns argo x) same (reconcile_job-IsLive ns argo k kept)
  | inr (k', written) ↦ ground (arith, reconcile_job_ends ns argo k k' written)
]

reconciled_idem :
    (ns : String) (argo : Argo) {G : Type 0} (o : Option (Job G))
    → reconciled ns argo (reconciled ns argo o) ≡ reconciled ns argo o
reconciled_idem ns argo none = refl
reconciled_idem ns argo (some k) = elim (Option-cases (reconcile_job ns argo k)) [
  | inl kept ↦ ground arith
  | inr (k', written) ↦ ground (arith, reconcile_job_ends ns argo k k' written)
]

module _ {S : Services} (L : IsLawful S) (ns : String) (argo : Argo) (w : World S) where
  -- After a run of `reconcile`, a job that the database still calls running has a workflow that
  -- Argo knows and that has not ended.
  pub reconcile-IsLive :
      (i : String) (j : Job S.Graph)
      → get (reconcile ns argo w) i ≡ some j
      → j.status ≡ running
      → IsLive ns argo j
  reconcile-IsLive i j e runs =
      reconciled-IsLive ns argo (get w i) j (sym (get-reconcile L ns argo w i) ∙ e) runs

  -- A second run, with the same answers from Argo, changes no row.
  reconcile_twice :
      (i : String) → get (reconcile ns argo (reconcile ns argo w)) i ≡ get (reconcile ns argo w) i
  reconcile_twice i =
      rw (get-reconcile L ns argo (reconcile ns argo w) i, get-reconcile L ns argo w i)
        (reconciled_idem ns argo (get w i))

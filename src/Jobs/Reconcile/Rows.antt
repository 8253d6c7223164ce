-- ===== src/Jobs/Reconcile/Rows.antt =====
-- What a run of `reconcile` leaves in each row of the job table.
use mathlib.Core.Path.{subst}
use mathlib.Core.Logic.{◌↔◌}
use openeo_argoworkflows.Base.{
  String, Bool, true, false, ◌||◌, Option, none, some, List, [], ◌∷◌, ◌==◌, ap, ◌≡◌, ◌∙◌, ◌⊎◌, inl,
  inr, refl, if◌then◌else◌, string_eq, arith, Option-cases,
}
use openeo_argoworkflows.Base.Lists.{In}
use openeo_argoworkflows.Jobs.Model.{Job, running, status_eq, Argo}
use openeo_argoworkflows.Jobs.Services.{Services, IsLawful, World, get}
use openeo_argoworkflows.Jobs.Reconcile.{reconcile_job, write, reconcile_loop, reconcile}

-- The row after the round of the loop for it.
abbrev pub outcome : String → Argo → {G : Type 0} → Job G → Job G
outcome ns argo j = elim (reconcile_job ns argo j) [ none ↦ j | some j' ↦ j' ]

-- A row after a whole run: only running jobs change.
abbrev pub reconciled : String → Argo → {G : Type 0} → Option (Job G) → Option (Job G)
reconciled ns argo none = none
reconciled ns argo (some j) = if j.status == running then some (outcome ns argo j) else some j

pub reconcile_job-id :
    (ns : String) (argo : Argo) {G : Type 0} (j j' : Job G)
    → reconcile_job ns argo j ≡ some j'
    → j'.job_id ≡ j.job_id
unfolding reconcile_job
reconcile_job-id ns argo j j' h = ground arith

abbrev mentions : {G : Type 0} → String → List (Job G) → Bool
mentions i [] = false
mentions i (j ∷ js) = i == j.job_id || mentions i js

module _ {S : Services} (L : IsLawful S) (ns : String) (argo : Argo) (w₀ : World S) where
  abbrev Known : List (Job S.Graph) → Type 0
  Known [] = Unit
  Known (j ∷ js) = (S.get w₀.db j.job_id ≡ some j) × Known js

  -- Each row is as it was, or has had its round.
  abbrev Seen : World S → Type 0
  Seen w =
      (i : String)
      → (get w i ≡ get w₀ i)
        ⊎ ((j : Job S.Graph) × (get w₀ i ≡ some j) × (get w i ≡ some (outcome ns argo j)))

  abbrev settled : Option (Job S.Graph) → Option (Job S.Graph)
  settled none = none
  settled (some j) = some (outcome ns argo j)

  present :
      (j : Job S.Graph) (w : World S)
      → get w₀ j.job_id ≡ some j
      → Seen w
      → (k : Job S.Graph) × (get w j.job_id ≡ some k)
  present j w known seen = elim (seen j.job_id) [
    | inl same ↦ (j, same ∙ known)
    | inr (k, _, e) ↦ (outcome ns argo k, e)
  ]

  get-write :
      (j : Job S.Graph) (w : World S) (i : String)
      → get w₀ j.job_id ≡ some j
      → Seen w
      → get (write (reconcile_job ns argo j) w) i
        ≡ (if i == j.job_id then some (outcome ns argo j) else get w i)
  get-write j w i known seen = elim (Option-cases (reconcile_job ns argo j)) [
    | inl kept ↦ ground (arith, kept, seen i)
    | inr (j', e) ↦
        let (k, there) = present j w known seen in
        ground (arith, L.get-modify w.db j' k i, reconcile_job-id ns argo j j' e)
  ]

  Seen-write :
      (j : Job S.Graph) (w : World S)
      → get w₀ j.job_id ≡ some j
      → Seen w
      → Seen (write (reconcile_job ns argo j) w)
  Seen-write j w known seen i = elim (string_eq.decide i j.job_id) [
    | yes p ↦ inr (j, ap (S.get w₀.db) p ∙ known, ground (arith, get-write j w i known seen))
    | no n ↦ elim (seen i) [
      | inl e ↦ inl (ground (arith, get-write j w i known seen))
      | inr (k, e, e') ↦ inr (k, e, ground (arith, get-write j w i known seen))
    ]
  ]

  get-loop :
      (js : List (Job S.Graph)) (w : World S) (i : String)
      → Known js
      → Seen w
      → get (reconcile_loop ns argo js w) i
        ≡ (if mentions i js then settled (get w₀ i) else get w i)
  unfolding reconcile_loop
  get-loop [] w i known seen = refl
  get-loop (j ∷ js) w i (known, rest) seen =
      let w' : World S = write (reconcile_job ns argo j) w in
      ground (arith, get-loop js w' i rest (Seen-write j w known seen), get-write j w i known seen)

  Known-running :
      (js : List (Job S.Graph))
      → ((j : Job S.Graph) → In j js → S.get w₀.db j.job_id ≡ some j)
      → Known js
  Known-running [] h = tt
  Known-running (j ∷ js) h = (h j (inl refl), Known-running js (λ k m. h k (inr m)))

  mentions-In :
      (i : String) (js : List (Job S.Graph))
      → mentions i js ≡ true
      → (j : Job S.Graph) × In j js × (i ≡ j.job_id)
  mentions-In i [] h = ground arith
  mentions-In i (j ∷ js) h = elim (string_eq.decide i j.job_id) [
    | yes p ↦ (j, inl refl, p)
    | no n ↦ let (k, m, e) = mentions-In i js (ground arith) in (k, inr m, e)
  ]

  In-mentions : (j : Job S.Graph) (js : List (Job S.Graph)) → In j js → mentions j.job_id js ≡ true
  In-mentions j [] h = absurd h
  In-mentions j (k ∷ js) (inl e) = ground (arith, e)
  In-mentions j (k ∷ js) (inr m) = ground (arith, In-mentions j js m)

  In-running : (k : Job S.Graph) → In k (S.running_jobs w₀.db) → S.get w₀.db k.job_id ≡ some k
  In-running k m = ((L.In-running_jobs w₀.db k).0 m).0

  mentioned_iff :
      (i : String) (j : Job S.Graph)
      → get w₀ i ≡ some j
      → (mentions i (S.running_jobs w₀.db) ≡ true) ↔ (j.status ≡ running)
  mentioned_iff i j e = (
    λ h.
        let (k, m, same) = mentions-In i (S.running_jobs w₀.db) h in
        let (row, runs) = (L.In-running_jobs w₀.db k).0 m in ground (arith, ap (S.get w₀.db) same),
    λ runs.
        let key = L.get_key w₀.db i j e in
        subst (λ n. mentions n (S.running_jobs w₀.db) ≡ true) key
          (In-mentions j _ ((L.In-running_jobs w₀.db j).1 (ap (S.get w₀.db) key ∙ e, runs))),
  )

  -- A run of `reconcile` changes exactly the running jobs, and gives each the outcome that Argo's
  -- answer for its own workflow calls for, whatever the order of the rounds.
  pub get-reconcile : (i : String) → get (reconcile ns argo w₀) i ≡ reconciled ns argo (get w₀ i)
  unfolding reconcile
  get-reconcile i =
      get-loop (S.running_jobs w₀.db) w₀ i (Known-running _ In-running) (λ k. inl refl)
      ∙ elim (Option-cases (get w₀ i)) [
        | inl gone ↦ ground arith
        | inr (j, e) ↦ ground (arith, e, mentioned_iff i j e)
      ]

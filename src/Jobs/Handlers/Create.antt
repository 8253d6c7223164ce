-- ===== src/Jobs/Handlers/Create.antt =====
-- `create_job` against a job table.
use openeo_argoworkflows.Base.{
  ℕ, String, Bool, false, none, some, sym, ap, ◌∙◌, ◌==◌, ◌≡◌, inl, inr, refl, if◌then◌else◌,
  string_eq, arith, Option-cases, Bool-cases,
}
use openeo_argoworkflows.Base.Dict.{Dict}
use openeo_argoworkflows.Jobs.Model.{Job, created, response, Settings}
use openeo_argoworkflows.Jobs.Services.{Services, IsLawful, World, get}
use openeo_argoworkflows.Jobs.Handlers.{
  ProcessRequest, JobsRequest, Fresh, requested_graph, new_job, create_job,
}

requested_graph-some :
    {G : Type 0} (is_empty : G → Bool) (body : JobsRequest G) (graph : G)
    → requested_graph is_empty body ≡ some graph
    → (p : ProcessRequest G) × (body.process ≡ some p)
      × (p.process_graph ≡ some graph)
      × (is_empty graph ≡ false)
unfolding requested_graph
requested_graph-some is_empty body graph h = elim (Option-cases body.process) [
  | inl missing ↦ ground (arith, missing, h)
  | inr (p, given) ↦ elim (Option-cases p.process_graph) [
    | inl missing ↦ ground (arith, given, missing, h)
    | inr (g, held) ↦ elim (Bool-cases (is_empty g)) [
      | inl vacant ↦ ground (arith, given, held, vacant, h)
      | inr filled ↦
          let same : g ≡ graph = ground (arith, given, held, filled, h) in
          (p, given, held ∙ ap some same, ap is_empty (sym same) ∙ filled)
    ]
  ]
]

-- What a successful request has done.
pub record Created (S : Services) (body : JobsRequest S.Graph) (user_id : String) (f : Fresh)
    (w w' : World S) : Type 0 where
  pub job : Job S.Graph
  pub asked : ProcessRequest S.Graph
  pub process : body.process ≡ some asked
  pub graph : asked.process_graph ≡ some job.process
  pub not_empty : S.is_empty job.process ≡ false
  pub id : job.job_id ≡ f.job_id
  pub owner : job.user_id ≡ user_id
  pub status : job.status ≡ created
  pub unbound : job.workflowname ≡ none
  pub free : get w f.job_id ≡ none
  pub row : (i : String) → get w' i ≡ (if i == f.job_id then some job else get w i)
  pub quiet : w'.calls ≡ w.calls

module _ {S : Services} (L : IsLawful S) (s : Settings) (body : JobsRequest S.Graph)
    (user_id : String) (f : Fresh) where
  -- An accepted request had a graph that is not empty and an id that was free. The new row belongs
  -- to the user, has the status created and no workflow; no other row changes.
  pub create_job_accepted :
      (w w' : World S) (c : ℕ) (hs : Dict String String)
      → create_job s body user_id f w ≡ (response c hs, w')
      → Created S body user_id f w w'
  unfolding create_job
  create_job_accepted w w' c hs h = elim (Option-cases (requested_graph S.is_empty body)) [
    | inl missing ↦ ground arith
    | inr (graph, requested) ↦
        let (asked, given, held, filled) = requested_graph-some S.is_empty body graph requested in
        let job : Job S.Graph = new_job body graph user_id f in
        elim (Option-cases (S.create w.db job)) [
          | inl taken ↦ ground arith
          | inr (db, stored) ↦ record {
            job = job;
            asked = asked;
            process = given;
            graph = held;
            not_empty = filled;
            id = refl;
            owner = refl;
            status = refl;
            unbound = refl;
            free = elim (Option-cases (get w f.job_id)) [
              | inl free ↦ free
              | inr (k, e) ↦ ground (arith, L.create_taken w.db job k)
            ];
            row = λ i. ground (arith, L.get-create w.db job db i);
            quiet = ground arith;
          }
        ]
  ]

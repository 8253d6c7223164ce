-- ===== src/Jobs/Services.antt =====
-- What the API calls and does not implement: the job table behind openeo_fastapi's engine, and the
-- file system. Their documented behaviour is `IsLawful`; `Memory` is a concrete instance.
pub mod Memory
use openeo_argoworkflows.Base.{
  ℕ, String, ◌<>◌, Bool, true, false, Option, none, some, List, [], ◌∷◌, ◌++◌, ◌≡◌, ◌≢◌, ◌↔◌, ◌⊎◌,
  ◌==◌, if◌then◌else◌, string_eq,
}
use openeo_argoworkflows.Base.Lists.{In}
use openeo_argoworkflows.Jobs.Model.{Job, Status, running, status_eq, Call, Settings}

pub record Services : Type 1 where
  pub Graph : Type 0
  pub is_empty : Graph → Bool
  pub Db : Type 0
  pub get : Db → String → Option (Job Graph)
  pub create : Db → Job Graph → Option Db
  pub modify : Db → Job Graph → Bool × Db
  pub delete : Db → String → Db
  pub running_jobs : Db → List (Job Graph)
  pub Disk : Type 0
  pub exists : Disk → String → Bool
  pub mkdir : Disk → String → Option Disk
  pub rmtree : Disk → String → Disk

-- `create` refuses an id that is taken. `modify` writes the row of its job, which is there, and
-- touches no other row. A directory that is there cannot be made again.
pub record IsLawful (S : Services) : Type 0 where
  pub get_key : (db : S.Db) (i : String) (j : Job S.Graph) → S.get db i ≡ some j → j.job_id ≡ i
  pub get-create :
      (db : S.Db) (j : Job S.Graph) (db' : S.Db) (i : String)
      → S.create db j ≡ some db'
      → S.get db' i ≡ (if i == j.job_id then some j else S.get db i)
  pub create_taken :
      (db : S.Db) (j k : Job S.Graph) → S.get db j.job_id ≡ some k → S.create db j ≡ none
  pub get-modify :
      (db : S.Db) (j k : Job S.Graph) (i : String)
      → S.get db j.job_id ≡ some k
      → S.get (S.modify db j).1 i ≡ (if i == j.job_id then some j else S.get db i)
  pub modify_missing :
      (db : S.Db) (j : Job S.Graph) (i : String)
      → S.get db j.job_id ≡ none
      → (S.get (S.modify db j).1 i ≡ S.get db i)
        ⊎ ((i ≡ j.job_id) × (S.get (S.modify db j).1 i ≡ some j))
  pub get-delete :
      (db : S.Db) (k i : String) → S.get (S.delete db k) i ≡ (if i == k then none else S.get db i)
  pub In-running_jobs :
      (db : S.Db) (j : Job S.Graph)
      → In j (S.running_jobs db) ↔ ((S.get db j.job_id ≡ some j) × (j.status ≡ running))
  pub mkdir_taken : (d : S.Disk) (p : String) → S.exists d p ≡ true → S.mkdir d p ≡ none
  pub exists-mkdir :
      (d : S.Disk) (p : String) (d' : S.Disk) (q : String)
      → S.mkdir d p ≡ some d'
      → S.exists d q ≡ true ⊎ (q ≡ p)
      → S.exists d' q ≡ true
  pub exists-rmtree_self : (d : S.Disk) (p : String) → S.exists (S.rmtree d p) p ≡ false

-- Everything that outlives a request or a task, and the calls made so far.
pub record World (S : Services) : Type 0 where
  pub db : S.Db
  pub disk : S.Disk
  pub calls : List (Call S.Graph)

module _ {S : Services} where
  abbrev pub emit : Call S.Graph → World S → World S
  emit c w = record w { calls = w.calls ++ (c ∷ []) }

  abbrev pub modify : Job S.Graph → World S → World S
  modify j w = record w { db = (S.modify w.db j).1 }

  abbrev pub get : World S → String → Option (Job S.Graph)
  get w i = S.get w.db i

-- `OPENEO_WORKSPACE_ROOT / user_id / job_id`
abbrev pub job_workspace : Settings → String → String → String
job_workspace s user_id job_id = s.workspace_root <> "/" <> user_id <> "/" <> job_id

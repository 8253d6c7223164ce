-- ===== src/Jobs/Services/Memory.antt =====
-- The services over lists: a job table and a set of directories that meet `IsLawful`.
use openeo_argoworkflows.Base.{
  ℕ, String, Bool, true, false, Option, none, some, List, [], ◌∷◌, ◌≡◌, ◌⊎◌, inl, inr, refl, ◌==◌,
  ◌∈◌, eqb, if◌then◌else◌, string_eq, arith, Option-cases,
}
use openeo_argoworkflows.Base.Lists.{In}
use openeo_argoworkflows.Jobs.Model.{Job, running, status_eq}
use openeo_argoworkflows.Jobs.Services.{Services, IsLawful}

abbrev pub Rows : Type 0
Rows = List (Job ℕ)

unfoldable pub row : Rows → String → Option (Job ℕ)
row [] i = none
row (j ∷ js) i = if i == j.job_id then some j else row js i

unfoldable pub update : Job ℕ → Rows → Rows
update j [] = []
update j (k ∷ ks) = (if k.job_id == j.job_id then j else k) ∷ update j ks

unfoldable pub remove : String → Rows → Rows
remove i [] = []
remove i (j ∷ js) = let rest = remove i js in if i == j.job_id then rest else j ∷ rest

-- The running rows, as seen through `row`.
keep_running : Option (Job ℕ) → Rows → Rows
keep_running none rest = rest
keep_running (some j) rest = if j.status == running then j ∷ rest else rest

unfoldable pub running_of : Rows → Rows → Rows
unfolding keep_running
running_of all [] = []
running_of all (j ∷ js) = keep_running (row all j.job_id) (running_of all js)

unfoldable pub without : String → List String → List String
without p [] = []
without p (q ∷ qs) = let rest = without p qs in if p == q then rest else q ∷ rest

unfoldable pub create_row : Rows → Job ℕ → Option Rows
create_row db j = elim (row db j.job_id) [ none ↦ some (j ∷ db) | some _ ↦ none ]

unfoldable pub written : Rows → Job ℕ → Bool
written db j = elim (row db j.job_id) [ none ↦ false | some _ ↦ true ]

unfoldable pub make_dir : List String → String → Option (List String)
make_dir d p = if p ∈ d then none else some (p ∷ d)

abbrev pub memory : Services
memory = record {
  Graph = ℕ;
  is_empty = λ g. eqb g 0;
  Db = Rows;
  get = row;
  create = create_row;
  modify = λ db j. (written db j, update j db);
  delete = λ db i. remove i db;
  running_jobs = λ db. running_of db db;
  Disk = List String;
  exists = λ d p. p ∈ d;
  mkdir = make_dir;
  rmtree = λ d p. without p d;
}

row_key : (db : Rows) (i : String) (j : Job ℕ) → row db i ≡ some j → j.job_id ≡ i
unfolding row
row_key [] i j h = ground arith
row_key (k ∷ ks) i j h = ground (arith, row_key ks i j)

row-update :
    (db : Rows) (j : Job ℕ) (i : String)
    → row (update j db) i
      ≡ (if i == j.job_id then (elim (row db i) [ none ↦ none | some _ ↦ some j ]) else row db i)
unfolding row update
row-update [] j i = ground arith
row-update (k ∷ ks) j i = ground (arith, row-update ks j i)

row-remove : (db : Rows) (k i : String) → row (remove k db) i ≡ (if i == k then none else row db i)
unfolding row remove
row-remove [] k i = ground arith
row-remove (j ∷ js) k i = ground (arith, row-remove js k i)

-- A row that is found stands in the list.
listed : (db : Rows) (i : String) (j : Job ℕ) → row db i ≡ some j → In j db
unfolding row
listed [] i j h = ground arith
listed (k ∷ ks) i j h = ground (arith, listed ks i j)

running_of_sound :
    (all js : Rows) (j : Job ℕ)
    → In j (running_of all js)
    → (row all j.job_id ≡ some j) × (j.status ≡ running)
unfolding running_of
running_of_sound all [] j h = absurd h
running_of_sound all (k ∷ ks) j h = elim (Option-cases (row all k.job_id)) [
  | inl gone ↦ running_of_sound all ks j (rw (gone, keep_running) at h)
  | inr (x, e) ↦ ground (arith, running_of_sound all ks j, row_key all k.job_id x e)
]

running_of_complete :
    (all js : Rows) (j : Job ℕ)
    → row all j.job_id ≡ some j
    → j.status ≡ running
    → In j js
    → In j (running_of all js)
unfolding running_of
running_of_complete all [] j h r m = m
running_of_complete all (k ∷ ks) j h r m = ground (arith, running_of_complete all ks j h r)

exists-without : (d : List String) (p : String) → (p ∈ without p d) ≡ false
unfolding without
exists-without [] p = refl
exists-without (q ∷ d) p = ground (arith, exists-without d p)

row-create_row :
    (db : Rows) (j : Job ℕ) (db' : Rows) (i : String)
    → create_row db j ≡ some db'
    → row db' i ≡ (if i == j.job_id then some j else row db i)
unfolding row create_row
row-create_row db j db' i h = elim (Option-cases (row db j.job_id)) [
  | inl free ↦ ground arith
  | inr (k, e) ↦ ground arith
]

made : (d : List String) (p : String) (d' : List String) → make_dir d p ≡ some d' → d' ≡ p ∷ d
unfolding make_dir
made d p d' h = ground arith

exists-make_dir :
    (d : List String) (p : String) (d' : List String) (q : String)
    → make_dir d p ≡ some d'
    → ((q ∈ d) ≡ true) ⊎ (q ≡ p)
    → (q ∈ d') ≡ true
exists-make_dir d p d' q h e = rw (made d p d' h) (ground arith)

pub memory-IsLawful : IsLawful memory
unfolding create_row make_dir written
memory-IsLawful = record {
  get_key = row_key;
  get-create = row-create_row;
  create_taken = λ db j k h. ground arith;
  get-modify = λ db j k i h. ground (arith, row-update db j i);
  modify_missing = λ db j i h. inl (ground (arith, row-update db j i));
  get-delete = row-remove;
  In-running_jobs = λ db j. (
    running_of_sound db db j,
    λ h. running_of_complete db db j h.0 h.1 (listed db j.job_id j h.0),
  );
  mkdir_taken = λ d p h. ground arith;
  exists-mkdir = exists-make_dir;
  exists-rmtree_self = exists-without;
}

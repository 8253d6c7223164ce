-- ===== src/Executor/Profile/Forwarding.antt =====
-- What arrives in the executor of the credentials that the API has.
use openeo_argoworkflows.Base.{
  String, Bool, true, false, ◌&&◌, Option, none, some, List, [], ◌∷◌, ◌==◌, ◌∈◌, ◌≡◌, ◌≢◌, refl, ap,
  ◌∙◌, string_eq, arith, if◌then◌else◌,
}
use openeo_argoworkflows.Base.Dict
use openeo_argoworkflows.Base.Dict.{Dict, get-set}
use openeo_argoworkflows.Jobs.Model.{Job, Settings, truthy}
use openeo_argoworkflows.Jobs.Services.{job_workspace}
use openeo_argoworkflows.Jobs.Submit.{
  Profile, s3_vars, forward, forward_s3, ProfileValue, dask_profile, user_profile,
}
use openeo_argoworkflows.Executor.Profile.{
  when_local_omit_all, UserProfile, read_user_profile, own_environ, set_environ,
}

accepts_remote :
    (a b c d e f : ProfileValue)
    → when_local_omit_all (
        ("GATEWAY_URL", a)
        ∷ ("OPENEO_EXECUTOR_IMAGE", b)
        ∷ ("WORKER_CORES", c)
        ∷ ("WORKER_MEMORY", d)
        ∷ ("WORKER_LIMIT", e)
        ∷ ("CLUSTER_IDLE_TIMEOUT", f)
        ∷ [])
      ≡ true
unfolding when_local_omit_all Dict.get string_eq
accepts_remote a b c d e f = refl

accepts_local : (a : ProfileValue) → when_local_omit_all (("LOCAL", a) ∷ []) ≡ true
unfolding when_local_omit_all Dict.get string_eq
accepts_local a = refl

accepts-if :
    (b : Bool) (p q : Profile)
    → when_local_omit_all p ≡ true
    → when_local_omit_all q ≡ true
    → when_local_omit_all (if b then p else q) ≡ true
accepts-if true p q hp hq = hp
accepts-if false p q hp hq = hq

-- The profile of the cluster that the API writes never names a local cluster and a remote one, so
-- the executor accepts it whatever the settings are.
when_local_omit_all-dask_profile : (s : Settings) → when_local_omit_all (dask_profile s) ≡ true
unfolding dask_profile
when_local_omit_all-dask_profile s = accepts-if _ _ _ (accepts_remote _ _ _ _ _ _) (accepts_local _)

get-forward :
    (o : Option String) (v : String) (d : Dict String String) (k : String)
    → Dict.get k (forward o v d) ≡ (if k == v && truthy o then o else Dict.get k d)
get-forward none v d k = ground arith
get-forward (some s) v d k = ground (arith, get-set k v s d)

-- A credential that is set and not empty is written over what was there.
get-forward_s3 :
    (environ : String → Option String) (vs : List String) (d : Dict String String) (k : String)
    → Dict.get k (forward_s3 environ vs d)
      ≡ (if k ∈ vs && truthy (environ k) then environ k else Dict.get k d)
unfolding forward_s3
get-forward_s3 environ [] d k = refl
get-forward_s3 environ (v ∷ vs) d k = ground (
  arith,
  get-forward_s3 environ vs (forward (environ v) v d) k,
  get-forward (environ v) v d k,
  ap environ,
)

-- A variable of the credentials is none of the others.
not_other : (k v : String) → k ∈ s3_vars ≡ false → v ∈ s3_vars ≡ true → ◌≢◌ v k
not_other k v h e p = absurd (ground (arith, e, h, ap (λ x. x ∈ s3_vars) p))

job_apart : "OPENEO_JOB_ID" ∈ s3_vars ≡ false
unfolding string_eq
job_apart = refl

user_apart : "OPENEO_USER_ID" ∈ s3_vars ≡ false
unfolding string_eq
user_apart = refl

workspace_apart : "OPENEO_USER_WORKSPACE" ∈ s3_vars ≡ false
unfolding string_eq
workspace_apart = refl

stac_apart : "OPENEO_STAC_PATH" ∈ s3_vars ≡ false
unfolding string_eq
stac_apart = refl

results_apart : "OPENEO_RESULTS_PATH" ∈ s3_vars ≡ false
unfolding string_eq
results_apart = refl

get-set_apart :
    (v k s : String) (d : Dict String String) → ◌≢◌ v k → Dict.get v (Dict.set k s d) ≡ Dict.get v d
get-set_apart v k s d n = ground (arith, get-set v k s d, n)

get-own_environ :
    (p : UserProfile) (base : Dict String String) (v : String)
    → v ∈ s3_vars ≡ true
    → Dict.get v (own_environ p base) ≡ Dict.get v base
unfolding own_environ
get-own_environ p base v e =
    get-set_apart v _ _ _ (not_other "OPENEO_JOB_ID" v job_apart e)
    ∙ get-set_apart v _ _ _ (not_other "OPENEO_USER_ID" v user_apart e)
    ∙ get-set_apart v _ _ _ (not_other "OPENEO_RESULTS_PATH" v results_apart e)
    ∙ get-set_apart v _ _ _ (not_other "OPENEO_STAC_PATH" v stac_apart e)
    ∙ get-set_apart v _ _ _ (not_other "OPENEO_USER_WORKSPACE" v workspace_apart e)

-- The command keeps every variable but its own.
get-set_environ :
    (p : UserProfile) (base : Dict String String) (v : String)
    → v ∈ s3_vars ≡ true
    → Dict.get v (set_environ p base)
      ≡ (if truthy (Dict.get v p.s3) then Dict.get v p.s3 else Dict.get v base)
unfolding set_environ
get-set_environ p base v e = ground (
  arith,
  e,
  get-forward_s3 (λ x. Dict.get x p.s3) s3_vars (own_environ p base) v,
  get-own_environ p base v e,
)

-- The profile that the API sends is read with the ids and the workspace of the job.
pub record IsArrived (s : Settings) (environ : String → Option String) {G : Type 0} (job : Job G)
    (base : Dict String String) (p : UserProfile) : Type 0 where
  pub accepted : read_user_profile (user_profile s environ job) ≡ some p
  pub job_id : p.job_id ≡ job.job_id
  pub user_id : p.user_id ≡ job.user_id
  pub workspace : p.workspace ≡ job_workspace s job.user_id job.job_id
  pub credentials :
      (v : String)
      → v ∈ s3_vars ≡ true
      → Dict.get v (set_environ p base)
        ≡ (if truthy (environ v) then environ v else Dict.get v base)

abbrev sent : String → String → String → Dict String String
sent job_id user_id workspace =
    ("OPENEO_JOB_ID", job_id)
    ∷ ("OPENEO_USER_ID", user_id)
    ∷ ("OPENEO_USER_WORKSPACE", workspace)
    ∷ []

module _ (i u w : String) where
  get-sent_job : Dict.get "OPENEO_JOB_ID" (sent i u w) ≡ some i
  unfolding Dict.get string_eq
  get-sent_job = refl

  get-sent_user : Dict.get "OPENEO_USER_ID" (sent i u w) ≡ some u
  unfolding Dict.get string_eq
  get-sent_user = refl

  get-sent_workspace : Dict.get "OPENEO_USER_WORKSPACE" (sent i u w) ≡ some w
  unfolding Dict.get string_eq
  get-sent_workspace = refl

  get-sent_other : (v : String) → v ∈ s3_vars ≡ true → Dict.get v (sent i u w) ≡ none
  unfolding Dict.get
  get-sent_other v e = ground (
    arith,
    not_other "OPENEO_JOB_ID" v job_apart e,
    not_other "OPENEO_USER_ID" v user_apart e,
    not_other "OPENEO_USER_WORKSPACE" v workspace_apart e,
  )

module _ (s : Settings) (environ : String → Option String) {G : Type 0} (job : Job G) where
  get-user_profile :
      (k : String)
      → Dict.get k (user_profile s environ job) ≡ (
          if k ∈ s3_vars && truthy (environ k)
          then environ k
          else Dict.get k (sent job.job_id job.user_id (job_workspace s job.user_id job.job_id)))
  unfolding user_profile
  get-user_profile k = get-forward_s3 environ s3_vars _ k

  get-user_profile_own :
      (k : String) (o : Option String)
      → k ∈ s3_vars ≡ false
      → Dict.get k (sent job.job_id job.user_id (job_workspace s job.user_id job.job_id)) ≡ o
      → Dict.get k (user_profile s environ job) ≡ o
  get-user_profile_own k o e h = ground (arith, get-user_profile k, e, h)

  abbrev read_back : UserProfile
  read_back = record {
    user_id = job.user_id;
    job_id = job.job_id;
    workspace = job_workspace s job.user_id job.job_id;
    s3 = user_profile s environ job;
  }

  read_user_profile-user_profile : read_user_profile (user_profile s environ job) ≡ some read_back
  unfolding read_user_profile
  read_user_profile-user_profile = ground (
    arith,
    get-user_profile_own "OPENEO_JOB_ID" _ job_apart (get-sent_job _ _ _),
    get-user_profile_own "OPENEO_USER_ID" _ user_apart (get-sent_user _ _ _),
    get-user_profile_own "OPENEO_USER_WORKSPACE" _ workspace_apart (get-sent_workspace _ _ _),
  )

  -- The executor reads the profile that the API sends, with the ids and the workspace of the job.
  -- Each of the four credentials has in its environment the value that it has in the API's, where
  -- that is neither missing nor empty, and else the value that the container started with.
  pub read_user_profile-IsArrived :
      (base : Dict String String) → (p : UserProfile) × IsArrived s environ job base p
  read_user_profile-IsArrived base = (
    read_back,
    record {
      accepted = read_user_profile-user_profile;
      job_id = refl;
      user_id = refl;
      workspace = refl;
      credentials = λ v e. ground (
        arith,
        e,
        get-set_environ read_back base v e,
        get-user_profile v,
        get-sent_other job.job_id job.user_id (job_workspace s job.user_id job.job_id) v e,
      );
    },
  )

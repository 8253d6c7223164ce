-- ===== src/Cwl/Run/Restored.antt =====
-- How a run of CWL ends, and what it leaves of the process.
use openeo_argoworkflows.Base.{ℕ, zero, suc, String, Option, none, some, ◌≡◌, ◌≢◌, refl}
use openeo_argoworkflows.Base.Dict.{Dict}
use openeo_argoworkflows.Base.Json.{Json}
use openeo_argoworkflows.Cwl.Prepare.{
  Invocation, Validation, Process, Tools, Options, Prepared, refused, checked, ready, prepare_run,
}
use openeo_argoworkflows.Cwl.Run.{
  return_code, raised, validated, completed, cwl_outputs, finish, set_pod_name, invoke, launch,
  run_cwl,
}

validated_not_completed : {v : Validation} {out : Json} → ◌≢◌ (validated v) (completed out)
validated_not_completed e = cc

raised_not_completed : {out : Json} → ◌≢◌ raised (completed out)
raised_not_completed e = cc

completed_injective : {a b : Json} → completed a ≡ completed b → b ≡ a
completed_injective e = cc

-- What Calrissian finds when it starts.
abbrev pub started : Tools → Invocation → Process → Process
started t i p = record { argv = i.args; environ = set_pod_name t p.environ }

-- A run that is completed: Calrissian was called, and its code was 0.
pub record IsCompleted (t : Tools) (prepared : Prepared) (p : Process) (out : Json) : Type 0 where
  pub call : Invocation
  pub called : prepared ≡ ready call
  pub code : return_code (t.calrissian call (started t call p)).0 ≡ some 0
  pub outputs : out ≡ cwl_outputs t.manifest

finish_completed :
    (t : Tools) (code : Option ℕ) (out : Json)
    → finish t code ≡ completed out
    → (code ≡ some 0) × (out ≡ cwl_outputs t.manifest)
unfolding finish
finish_completed t none out e = absurd (raised_not_completed e)
finish_completed t (some zero) out e = (refl, completed_injective e)
finish_completed t (some (suc n)) out e = absurd (raised_not_completed e)

argv-launch :
    (t : Tools) (prepared : Prepared) (p : Process) → ((launch t prepared p).1).argv ≡ p.argv
unfolding launch invoke
argv-launch t refused p = refl
argv-launch t (checked v) p = refl
argv-launch t (ready i) p = refl

launch_completed :
    (t : Tools) (prepared : Prepared) (p : Process) (out : Json)
    → (launch t prepared p).0 ≡ completed out
    → IsCompleted t prepared p out
unfolding launch invoke
launch_completed t refused p out e = absurd (raised_not_completed e)
launch_completed t (checked v) p out e = absurd (validated_not_completed e)
launch_completed t (ready i) p out e =
    let (code, outputs) =
      finish_completed t (return_code (t.calrissian i (started t i p)).0) out e in
    record { call = i; called = refl; code = code; outputs = outputs }

-- Whatever Calrissian does, also to `sys.argv`, and however the run ends, the arguments of the
-- process are afterwards what they were; and a run that is completed has called Calrissian, which
-- ended with the code 0.
pub run_cwl-IsCompleted :
    (t : Tools) (o : Options) (work_dir cwl : String) (inputs : Dict String Json) (p : Process)
    → (((run_cwl t o work_dir cwl inputs p).1).argv ≡ p.argv)
      × ((out : Json)
          → (run_cwl t o work_dir cwl inputs p).0 ≡ completed out
          → IsCompleted t (prepare_run t o work_dir p.environ cwl inputs) p out)
unfolding run_cwl
run_cwl-IsCompleted t o work_dir cwl inputs p =
    let prepared = prepare_run t o work_dir p.environ cwl inputs in
    (argv-launch t prepared p, λ out e. launch_completed t prepared p out e)

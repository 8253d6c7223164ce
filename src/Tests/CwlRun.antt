-- ===== src/Tests/CwlRun.antt =====
-- A run of a small CWL tool on staged data.
use openeo_argoworkflows.Base.{
  String, true, false, none, some, [], ◌∷◌, ◌≡◌, refl, string_eq, nat_eq,
}
use openeo_argoworkflows.Base.Dict
use openeo_argoworkflows.Base.Dict.{Dict}
use openeo_argoworkflows.Base.Json.{Json, text, object, Fields, end, field}
use openeo_argoworkflows.Base.Split.{cut}
use openeo_argoworkflows.Base.Text.{lower, lower_code, text_eq}
use openeo_argoworkflows.Cwl.Inputs.{is_auto_filled}
use openeo_argoworkflows.Cwl.Prepare.{
  Tools, Options, Process, Invocation, returned, ready, is_url, resolve_cwl, validate_cwl,
  declared_inputs, invocation, after_validation, prepare_run,
}
use openeo_argoworkflows.Cwl.Run.{completed, udf_inputs, run_cwl}
use openeo_argoworkflows.Cwl.Run.Inputs.{filled, get-prepare_run}
use openeo_argoworkflows.Cwl.Run.Restored.{IsCompleted, run_cwl-IsCompleted}

abbrev tool : Fields
tool =
    field "class" (text "CommandLineTool")
      (field "inputs" (object (field "job_id" (text "string") end)) end)

-- Calrissian leaves its own arguments behind.
abbrev tools : Tools
tools = record {
  urlretrieve = λ u. none;
  cwltool = λ s. some (0, []);
  safe_load = λ s. some (object tool);
  hostname = "pod";
  calrissian = λ i p. (returned none, record p { argv = "left" ∷ [] });
  manifest = none;
}

abbrev options : Options
options = record { validate_only = false; max_ram = "8G"; max_cores = "4" }

abbrev environ : Dict String String
environ = ("OPENEO_JOB_ID", "j1") ∷ []

abbrev process : Process
process = record { argv = "openeo" ∷ []; environ = environ }

abbrev context : Dict String Json
context = ("threshold", text "0.3") ∷ []

abbrev call : Invocation
call = invocation tools options "/work" environ "x: y" (udf_inputs (some (text "data")) context)

is_ready :
    prepare_run tools options "/work" environ "x: y" (udf_inputs (some (text "data")) context)
    ≡ ready call
unfolding prepare_run resolve_cwl is_url validate_cwl after_validation lower lower_code cut nat_eq
    text_eq
is_ready = refl

get-prepare_run_example :
    (source : String) × (resolve_cwl tools "x: y" ≡ some source)
    × ((k : String)
        → Dict.get k call.inputs
          ≡ filled (declared_inputs tools source) environ (some (text "data")) context k)
    × ((k : String) (v : Json)
        → Dict.get k call.inputs ≡ some v
        → Dict.has k context ≡ false
        → is_auto_filled (text k) ≡ true)
get-prepare_run_example =
    get-prepare_run tools options "/work" environ "x: y" (some (text "data")) context call is_ready

run_cwl-IsCompleted_example :
    (((run_cwl tools options "/work" "x: y" context process).1).argv ≡ "openeo" ∷ [])
    × ((out : Json)
        → (run_cwl tools options "/work" "x: y" context process).0 ≡ completed out
        → IsCompleted tools (prepare_run tools options "/work" environ "x: y" context) process out)
run_cwl-IsCompleted_example = run_cwl-IsCompleted tools options "/work" "x: y" context process

-- ===== src/Cwl/Run.antt =====
-- `run_udf` and `run_cwl` of cwl.py, up to the collection of the files that Calrissian leaves.
pub mod Inputs
pub mod Restored
use openeo_argoworkflows.Base.{
  ℕ, zero, suc, String, ◌<>◌, Bool, true, false, not, ◌&&◌, ◌||◌, Option, none, some, List, [], ◌∷◌,
  ◌++◌, ◌==◌, if◌then◌else◌, nat_eq, string_eq, ◌>>=◌,
}
use openeo_argoworkflows.Base.Dict
use openeo_argoworkflows.Base.Dict.{Dict}
use openeo_argoworkflows.Base.Json.{Json, text, object, Fields, end, field, has_key}
use openeo_argoworkflows.Base.Split.{cut, split}
use openeo_argoworkflows.Base.Text.{Text, codes, text_eq, lower, contains, starts_with}
use openeo_argoworkflows.Auth.Urls.{strip}
use openeo_argoworkflows.Cwl.Document.{load_cwl_doc}
use openeo_argoworkflows.Cwl.Executor.{ExecutorSpec, executor_parse_cwl_inputs, auto_wire_inputs}
use openeo_argoworkflows.Cwl.Prepare.{
  Exit, Invocation, Options, Prepared, Process, Tools, Validation, checked, crashed, exited,
  message, no_code, number, prepare_run, ready, refused, returned,
}

or_zero : Option ℕ → ℕ
or_zero none = 0
or_zero (some n) = n

-- `return_code`, with none for the `RuntimeError` that takes the place of another exception.
unfoldable pub return_code : Exit → Option ℕ
unfolding or_zero
return_code (returned n) = some (or_zero n)
return_code (exited no_code) = some 0
return_code (exited (number n)) = some n
return_code (exited (message m)) = some (if m == "" then 0 else 1)
return_code crashed = none

pub data Result : Type 0 where
  raised : Result
  validated : Validation → Result
  completed : Json → Result

unfoldable pub cwl_outputs : Option Json → Json
cwl_outputs none = object end
cwl_outputs (some v) = v

unfoldable pub finish : Tools → Option ℕ → Result
unfolding cwl_outputs
finish t none = raised
finish t (some zero) = completed (cwl_outputs t.manifest)
finish t (some (suc n)) = raised

unfoldable pub set_pod_name : Tools → Dict String String → Dict String String
unfolding Dict.get Dict.set
set_pod_name t environ =
    if Dict.has "CALRISSIAN_POD_NAME" environ
    then environ
    else Dict.set "CALRISSIAN_POD_NAME" t.hostname environ

-- The call, with `sys.argv` put in place and back.
unfoldable pub invoke : Tools → Invocation → Process → Result × Process
unfolding set_pod_name finish return_code
invoke t i p =
    let before : Process = record { argv = i.args; environ = set_pod_name t p.environ } in
    let (exit, left) = t.calrissian i before in
    (finish t (return_code exit), record left { argv = p.argv })

unfoldable pub launch : Tools → Prepared → Process → Result × Process
unfolding invoke
launch t refused p = (raised, p)
launch t (checked v) p = (validated v, p)
launch t (ready i) p = invoke t i p

unfoldable pub run_cwl :
    Tools → Options → String → String → Dict String Json → Process → Result × Process
unfolding launch prepare_run
run_cwl t o work_dir cwl inputs p = launch t (prepare_run t o work_dir p.environ cwl inputs) p

-- The `data` argument: nothing, a text, or any other object.
pub data Data : Type 0 where
  nothing : Data
  words : String → Data
  other : Data

-- The staged data of a path, a directory or a file.
unfoldable pub staged : (String → Bool) → Data → Option Json
unfolding starts_with
staged isdir (words path) =
    if starts_with (codes path) (codes "/")
    then some (
        object (
          field "class" (text (if isdir path then "Directory" else "File"))
            (field "location" (text ("file://" <> path)) end)))
    else none
staged isdir _ = none

-- `inputs.setdefault`
unfoldable pub udf_inputs : Option Json → Dict String Json → Dict String Json
unfolding Dict.get Dict.set
udf_inputs none context = context
udf_inputs (some v) context =
    if Dict.has "openeo_data" context then context else Dict.set "openeo_data" v context

or_empty : Option (Dict String Json) → Dict String Json
or_empty none = []
or_empty (some d) = d

-- `upstream` is the `run_udf` of openeo_processes_dask, for the other runtimes.
unfoldable pub run_udf :
    Tools
    → Options
    → String
    → (String → Bool)
    → (Process → Result × Process)
    → Data
    → String
    → String
    → Option (Dict String Json)
    → Process
    → Result × Process
unfolding lower run_cwl udf_inputs staged or_empty
run_udf t o work_dir isdir upstream data' udf runtime context p =
    if lower (codes runtime) == codes "eoap-cwl"
    then run_cwl t o work_dir udf (udf_inputs (staged isdir data') (or_empty context)) p
    else upstream p

-- ===== src/Tests/Cwl.antt =====
-- CWL documents, small ones.
use openeo_argoworkflows.Base.{
  String, Option, none, some, [], ◌∷◌, ◌≡◌, ◌==◌, refl, if◌then◌else◌, string_eq,
}
use openeo_argoworkflows.Base.Dict.{Dict}
use openeo_argoworkflows.Base.Json.{
  Json, text, array, object, nil, cons, Fields, end, field, lookup, json_eq,
}
use openeo_argoworkflows.Cwl.Document.{
  load_cwl_doc, run_entry, first_where, is_main, is_tool, graph_entries,
}
use openeo_argoworkflows.Cwl.Types.{extract_enum_symbols, own_symbols, type_name, rstrip_mark}
use openeo_argoworkflows.Cwl.Inputs.{parse_cwl_inputs}
use openeo_argoworkflows.Cwl.Executor.{ExecutorSpec, executor_spec, executor_parse_cwl_inputs}
use openeo_argoworkflows.Cwl.Agreement.{parsed_demands, shown_demand, run_demand, parsers_agree}

-- {polarisation: {type: enum, symbols: [VV, VH]}, threshold: float?, job_id: string}
abbrev inputs : Fields
inputs =
    field "polarisation"
      (object (
        field "type" (text "enum")
          (field "symbols" (array (cons (text "VV") (cons (text "VH") nil))) end)))
      (field "threshold" (text "float?") (field "job_id" (text "string") end))

abbrev tool : Fields
tool = field "class" (text "CommandLineTool") (field "inputs" (object inputs) end)

abbrev main : Fields
main = field "id" (text "#main") (field "class" (text "Workflow") end)

parsers_agree_example :
    parsed_demands shown_demand (parse_cwl_inputs tool)
    ≡ parsed_demands run_demand (executor_parse_cwl_inputs tool)
parsers_agree_example = parsers_agree tool

main_runs : run_entry (tool ∷ main ∷ []) ≡ main
unfolding run_entry is_main is_tool first_where lookup string_eq
main_runs = refl

packed :
    load_cwl_doc
      (λ s.
        some (object (field "$graph" (array (cons (object tool) (cons (object main) nil))) end)))
      "…"
    ≡ some main
unfolding load_cwl_doc run_entry is_main is_tool first_where graph_entries lookup string_eq
packed = refl

abbrev colours : Fields
colours = field "type" (text "enum") (field "symbols" (array (cons (text "red") nil)) end)

enum_shown :
    extract_enum_symbols (array (cons (text "null") (cons (object colours) nil)))
    ≡ some (cons (text "red") nil)
unfolding extract_enum_symbols own_symbols lookup string_eq
enum_shown = refl

union_name : type_name (array (cons (text "null") (cons (text "int?") nil))) ≡ text "int"
unfolding type_name rstrip_mark string_eq
union_name = refl

abbrev environ : String → Option String
environ v = if v == "OPENEO_JOB_ID" then some "j1" else none

abbrev declared : Dict Json ExecutorSpec
declared = (text "job_id", executor_spec (text "string")) ∷ []

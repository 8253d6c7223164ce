-- ===== src/Cwl/Executor.antt =====
-- The inputs of a CWL run in the executor: `_load_cwl_doc`, `_parse_cwl_inputs`,
-- `_auto_wire_inputs` and `_missing_required_inputs` of cwl.py.
use openeo_argoworkflows.Base.{
  String, Bool, false, not, ◌&&◌, ◌||◌, Option, none, some, List, [], ◌∷◌, if◌then◌else◌, string_eq,
}
use openeo_argoworkflows.Base.Dict
use openeo_argoworkflows.Base.Dict.{Dict}
use openeo_argoworkflows.Base.Json.{Json, null, text, object, Fields, get_or_null, has_key, json_eq}
use openeo_argoworkflows.Cwl.Types.{input_is_optional}
use openeo_argoworkflows.Cwl.Inputs.{inputs_items, collect_specs}

pub record ExecutorSpec : Type 0 where
  pub type_raw : Json
  pub default : Json
  pub has_default : Bool
  pub optional : Bool
  pub required : Bool

raw_type : Json → Json
raw_type (object spec) = get_or_null "type" spec
raw_type v = v

raw_default : Json → Json
raw_default (object spec) = get_or_null "default" spec
raw_default _ = null

raw_has_default : Json → Bool
raw_has_default (object spec) = has_key "default" spec
raw_has_default _ = false

unfoldable pub executor_spec : Json → ExecutorSpec
unfolding raw_type raw_default raw_has_default
executor_spec spec =
    let optional = input_is_optional (raw_type spec) || raw_has_default spec in
    record {
      type_raw = raw_type spec;
      default = raw_default spec;
      has_default = raw_has_default spec;
      optional = optional;
      required = not optional;
    }

unfoldable pub executor_parse_cwl_inputs : Fields → Option (Dict Json ExecutorSpec)
unfolding inputs_items collect_specs executor_spec
executor_parse_cwl_inputs doc = collect_specs executor_spec (inputs_items doc) []

-- The inputs that the environment can fill, with the variable of each.
abbrev pub env_auto_inputs : List (String × String)
env_auto_inputs = ("job_id", "OPENEO_JOB_ID") ∷ ("user_id", "OPENEO_USER_ID") ∷ []

-- One round: an input that is not declared, or is there already, or has no variable, is left.
abbrev wire_value : String → Option String → Dict String Json → Dict String Json
wire_value name none wired = wired
wire_value name (some v) wired = Dict.set name (text v) wired

module _ {A : Type 0} (environ : String → Option String) (declared : Dict Json A) where
  unfoldable pub wire_one : String → String → Dict String Json → Dict String Json
  wire_one name env_key wired =
      if not (Dict.has (text name) declared) || Dict.has name wired
      then wired
      else wire_value name (environ env_key) wired

  unfoldable pub wire_all : List (String × String) → Dict String Json → Dict String Json
  wire_all [] wired = wired
  wire_all ((name, env_key) ∷ rest) wired = wire_all rest (wire_one name env_key wired)

  unfoldable pub auto_wire_inputs : Dict String Json → Dict String Json
  unfolding wire_all
  auto_wire_inputs inputs = wire_all env_auto_inputs inputs

-- `name in inputs`, where `inputs` has texts for keys
abbrev pub is_given : Json → Dict String Json → Bool
is_given (text name) inputs = Dict.has name inputs
is_given _ inputs = false

unfoldable pub missing_required_inputs : Dict Json ExecutorSpec → Dict String Json → List Json
missing_required_inputs [] inputs = []
missing_required_inputs ((name, spec) ∷ specs) inputs =
    let rest = missing_required_inputs specs inputs in
    if spec.required && not (is_given name inputs) then name ∷ rest else rest

-- ===== src/Cwl/Agreement.antt =====
-- The two copies of the input parser, in the API and in the executor, ask for the same inputs.
use mathlib.Core.Path.{fun_ext}
use openeo_argoworkflows.Base.{
  Bool, true, false, Option, none, some, List, [], ◌∷◌, ◌≡◌, ◌∙◌, sym, refl, ap, string_eq, arith,
}
use openeo_argoworkflows.Base.Dict
use openeo_argoworkflows.Base.Dict.{Dict}
use openeo_argoworkflows.Base.Json.{
  Json, null, bool, number, text, array, object, Fields, get_or_null, json_eq, is_text,
}
use openeo_argoworkflows.Cwl.Types.{input_is_optional, ends_with_mark}
use openeo_argoworkflows.Cwl.Inputs.{
  InputSpec, input_spec, inputs_items, collect_specs, parse_cwl_inputs, type_value,
}
use openeo_argoworkflows.Cwl.Executor.{ExecutorSpec, executor_spec, executor_parse_cwl_inputs}

-- What a run needs to know of an input.
pub record Demand : Type 0 where
  pub default : Json
  pub has_default : Bool
  pub optional : Bool
  pub required : Bool

abbrev pub shown_demand : InputSpec → Demand
shown_demand s = record {
  default = s.default;
  has_default = s.has_default;
  optional = s.optional;
  required = s.required;
}

abbrev pub run_demand : ExecutorSpec → Demand
run_demand s = record {
  default = s.default;
  has_default = s.has_default;
  optional = s.optional;
  required = s.required;
}

abbrev pub demands : {A : Type 0} → (A → Demand) → Dict Json A → Dict Json Demand
demands f [] = []
demands f ((k, v) ∷ d) = (k, f v) ∷ demands f d

abbrev pub parsed_demands :
    {A : Type 0} → (A → Demand) → Option (Dict Json A) → Option (Dict Json Demand)
parsed_demands f none = none
parsed_demands f (some d) = some (demands f d)

demands-set :
    {A : Type 0} (f : A → Demand) (k : Json) (v : A) (d : Dict Json A)
    → demands f (Dict.set k v d) ≡ Dict.set k (f v) (demands f d)
unfolding Dict.set
demands-set f k v [] = refl
demands-set f k v ((j, w) ∷ d) = ground (arith, demands-set f k v d)

demands-collect_specs :
    {A : Type 0} (f : A → Demand) (make : Json → A) (items : List (Json × Json)) (d : Dict Json A)
    → parsed_demands f (collect_specs make items d)
      ≡ collect_specs (λ v. f (make v)) items (demands f d)
unfolding collect_specs
demands-collect_specs f make [] d = refl
demands-collect_specs f make ((name, spec) ∷ items) d = ground (
  arith,
  demands-collect_specs f make items d,
  demands-collect_specs f make items (Dict.set name (make spec) d),
  demands-set f name (make spec) d,
)

enum_unmarked : ends_with_mark "enum" ≡ false
unfolding ends_with_mark string_eq
enum_unmarked = refl

enum_required : (v : Json) → is_text v "enum" ≡ true → input_is_optional v ≡ false
unfolding input_is_optional
enum_required (text s) h = let e : s ≡ "enum" = ground arith in rw e enum_unmarked
enum_required (array vs) h = cc
enum_required _ h = refl

optional_alike :
    (spec : Fields)
    → input_is_optional (type_value (object spec)) ≡ input_is_optional (get_or_null "type" spec)
unfolding type_value input_is_optional
optional_alike spec = ground (arith, enum_required (get_or_null "type" spec))

same_demand : (spec : Json) → shown_demand (input_spec spec) ≡ run_demand (executor_spec spec)
unfolding input_spec executor_spec
same_demand (object spec) = ground (arith, optional_alike spec)
same_demand null = ground arith
same_demand (bool b) = ground arith
same_demand (number n) = ground arith
same_demand (text s) = ground arith
same_demand (array vs) = ground arith

-- For every document, the schema that the editor shows and the executor's own parse agree on the
-- names of the inputs, their order and defaults, and on which are optional and which required; or
-- both fail on a name that cannot be a key.
pub parsers_agree :
    (doc : Fields)
    → parsed_demands shown_demand (parse_cwl_inputs doc)
      ≡ parsed_demands run_demand (executor_parse_cwl_inputs doc)
unfolding parse_cwl_inputs executor_parse_cwl_inputs
parsers_agree doc =
    demands-collect_specs shown_demand input_spec (inputs_items doc) []
    ∙ (ap (λ (f : Json → Demand). collect_specs f (inputs_items doc) []) (fun_ext same_demand)
        ∙ sym (demands-collect_specs run_demand executor_spec (inputs_items doc) []))

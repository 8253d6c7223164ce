-- ===== src/Cwl/Inputs.antt =====
-- `parse_cwl_inputs` and `build_input_schema` of cwl_inputs.py: what the editor shows of a document.
use openeo_argoworkflows.Base.{
  String, Bool, true, false, not, ◌&&◌, ◌||◌, Option, none, some, List, [], ◌∷◌, ◌∈◌, if◌then◌else◌,
  string_eq,
}
use openeo_argoworkflows.Base.Dict
use openeo_argoworkflows.Base.Dict.{Dict}
use openeo_argoworkflows.Base.Json.{
  Json, null, text, array, object, Items, nil, cons, Fields, end, field, is_text, get_or_null,
  has_key, is_truthy, json_eq,
}
use openeo_argoworkflows.Cwl.Types.{input_is_optional, extract_enum_symbols, type_name}

-- The items of an `inputs:` block, in mapping form and in list form.
unfoldable pub mapping_items : Fields → List (Json × Json)
mapping_items end = []
mapping_items (field k v d) = (text k, v) ∷ mapping_items d

unfoldable pub list_items : Items → List (Json × Json)
list_items nil = []
list_items (cons (object e) vs) = (get_or_null "id" e, object e) ∷ list_items vs
list_items (cons _ vs) = list_items vs

-- No block of either form is no items.
unfoldable pub inputs_items : Fields → List (Json × Json)
unfolding mapping_items list_items
inputs_items doc = elim (get_or_null "inputs" doc) [
  | object d ↦ mapping_items d
  | array vs ↦ list_items vs
  | _ ↦ []
]

-- A list or dict is no key of a dict.
abbrev pub is_hashable : Json → Bool
is_hashable (array vs) = false
is_hashable (object d) = false
is_hashable _ = true

pub record InputSpec : Type 0 where
  pub type_shown : Json
  pub enum : Option Items
  pub doc : Json
  pub default : Json
  pub has_default : Bool
  pub optional : Bool
  pub required : Bool

-- The value that stands for the type of an input.
unfoldable pub type_value : Json → Json
type_value (object spec) =
    if is_text (get_or_null "type" spec) "enum" && has_key "symbols" spec
    then object spec
    else if has_key "type" spec
    then get_or_null "type" spec
    else object spec
type_value v = v

-- `"default" in spec` and `spec.get("default")`, for a spec that is a dict
unfoldable pub has_default : Json → Bool
has_default (object spec) = has_key "default" spec
has_default _ = false

unfoldable pub key_of : String → Json → Json
key_of k (object spec) = get_or_null k spec
key_of k _ = null

unfoldable pub input_spec : Json → InputSpec
unfolding type_value has_default key_of
input_spec spec =
    let optional = input_is_optional (type_value spec) || has_default spec in
    record {
      type_shown = type_name (type_value spec);
      enum = extract_enum_symbols (type_value spec);
      doc = key_of "doc" spec;
      default = key_of "default" spec;
      has_default = has_default spec;
      optional = optional;
      required = not optional;
    }

-- The loop over the items, which skips those without a name; `none` is a `TypeError`.
unfoldable pub collect_specs :
    {A : Type 0} → (Json → A) → List (Json × Json) → Dict Json A → Option (Dict Json A)
collect_specs make [] result = some result
collect_specs make ((name, spec) ∷ items) result =
    let skipped = collect_specs make items result in
    let stored = collect_specs make items (Dict.set name (make spec) result) in
    if not (is_truthy name) then skipped else if is_hashable name then stored else none

unfoldable pub parse_cwl_inputs : Fields → Option (Dict Json InputSpec)
unfolding inputs_items collect_specs input_spec
parse_cwl_inputs doc = collect_specs input_spec (inputs_items doc) []

abbrev pub auto_filled_inputs : List String
auto_filled_inputs = "job_id" ∷ "user_id" ∷ "openeo_data" ∷ []

-- `name in AUTO_FILLED_INPUTS`
unfoldable pub is_auto_filled : Json → Bool
is_auto_filled (text s) = s ∈ auto_filled_inputs
is_auto_filled _ = false

pub record ShownInput : Type 0 where
  pub spec : InputSpec
  pub autofilled : Bool

flag_inputs : Dict Json InputSpec → Dict Json ShownInput
unfolding is_auto_filled
flag_inputs [] = []
flag_inputs ((name, spec) ∷ rest) =
    (name, record { spec = spec; autofilled = is_auto_filled name }) ∷ flag_inputs rest

unfoldable pub build_input_schema : Fields → Option (Dict Json ShownInput)
unfolding flag_inputs
build_input_schema doc = elim (parse_cwl_inputs doc) [
  | none ↦ none
  | some parsed ↦ some (flag_inputs parsed)
]

-- ===== src/Cwl/Run/Inputs.antt =====
-- The inputs that a CWL run gets, from the arguments of `run_udf` to the call of Calrissian.
use openeo_argoworkflows.Base.{
  String, true, false, ◌&&◌, Option, none, some, [], ◌∷◌, ◌==◌, ◌≡◌, ◌≢◌, sym, ap, ◌∙◌, inl, inr,
  is_some, Option-cases, Bool-cases, if◌then◌else◌, string_eq, arith,
}
use openeo_argoworkflows.Base.Dict
use openeo_argoworkflows.Base.Dict.{Dict, get-set}
use openeo_argoworkflows.Base.Json.{Json, text, json_eq}
use openeo_argoworkflows.Cwl.Executor.{ExecutorSpec}
use openeo_argoworkflows.Cwl.Inputs.{is_auto_filled}
use openeo_argoworkflows.Cwl.Wiring.{variable_of, as_text, get-auto_wire_inputs}
use openeo_argoworkflows.Cwl.Prepare.{
  Tools, Options, Validation, Invocation, refused, checked, ready, resolve_cwl, validate_cwl,
  declared_inputs, wire_inputs, invocation, after_validation, prepare_run,
}
use openeo_argoworkflows.Cwl.Run.{udf_inputs}

get-udf_inputs :
    (v : Option Json) (context : Dict String Json) (k : String)
    → Dict.get k (udf_inputs v context)
      ≡ (if Dict.has k context then Dict.get k context else if k == "openeo_data" then v else none)
unfolding udf_inputs
get-udf_inputs none context k = elim (Option-cases (Dict.get k context)) [
  | inl e ↦ ground (arith, e)
  | inr (a, e) ↦ ground (arith, e)
]
get-udf_inputs (some v) context k = elim (Option-cases (Dict.get k context)) [
  | inl e ↦ ground (arith, e, get-set k "openeo_data" v context)
  | inr (a, e) ↦ ground (arith, e, get-set k "openeo_data" v context)
]

get-wire_inputs :
    (declared : Dict Json ExecutorSpec) (environ : Dict String String) (inputs : Dict String Json)
    (k : String)
    → Dict.get k (wire_inputs declared environ inputs) ≡ (
        if Dict.has k inputs
        then Dict.get k inputs
        else if Dict.has (text k) declared
        then as_text (variable_of (λ v. Dict.get v environ) k)
        else none)
unfolding wire_inputs
get-wire_inputs [] environ inputs k = elim (Option-cases (Dict.get k inputs)) [
  | inl e ↦ ground (arith, e)
  | inr (a, e) ↦ ground (arith, e)
]
get-wire_inputs (d ∷ ds) environ inputs k =
    get-auto_wire_inputs (λ v. Dict.get v environ) (d ∷ ds) inputs k

-- The input of a name: the user's, the staged data, or the value of a variable.
abbrev pub filled :
    Dict Json ExecutorSpec
    → Dict String String
    → Option Json
    → Dict String Json
    → String
    → Option Json
filled declared environ data' context k =
    if Dict.has k context
    then Dict.get k context
    else if k == "openeo_data" && is_some data'
    then data'
    else if Dict.has (text k) declared
    then as_text (variable_of (λ v. Dict.get v environ) k)
    else none

get-filled :
    (declared : Dict Json ExecutorSpec) (environ : Dict String String) (data' : Option Json)
    (context : Dict String Json) (k : String)
    → Dict.get k (wire_inputs declared environ (udf_inputs data' context))
      ≡ filled declared environ data' context k
get-filled declared environ none context k = elim (Option-cases (Dict.get k context)) [
  | inl e ↦ ground (
    arith,
    e,
    get-wire_inputs declared environ (udf_inputs none context) k,
    get-udf_inputs none context k,
  )
  | inr (a, e) ↦ ground (
    arith,
    e,
    get-wire_inputs declared environ (udf_inputs none context) k,
    get-udf_inputs none context k,
  )
]
get-filled declared environ (some v) context k = elim (Option-cases (Dict.get k context)) [
  | inl e ↦ ground (
    arith,
    e,
    get-wire_inputs declared environ (udf_inputs (some v) context) k,
    get-udf_inputs (some v) context k,
  )
  | inr (a, e) ↦ ground (
    arith,
    e,
    get-wire_inputs declared environ (udf_inputs (some v) context) k,
    get-udf_inputs (some v) context k,
  )
]

none_not_some : {A : Type 0} {a : A} → ◌≢◌ none (some a)
none_not_some e = cc

filled_otherwise :
    (declared : Dict Json ExecutorSpec) (environ : Dict String String) (data' : Option Json)
    (context : Dict String Json) (k : String)
    → Dict.has k context ≡ false
    → ◌≢◌ k "openeo_data"
    → ◌≢◌ k "job_id"
    → ◌≢◌ k "user_id"
    → filled declared environ data' context k ≡ none
filled_otherwise declared environ data' context k h a b c = ground (arith, h, a, b, c)

filled-is_auto_filled :
    (declared : Dict Json ExecutorSpec) (environ : Dict String String) (data' : Option Json)
    (context : Dict String Json) (k : String) (v : Json)
    → filled declared environ data' context k ≡ some v
    → Dict.has k context ≡ false
    → is_auto_filled (text k) ≡ true
unfolding is_auto_filled
filled-is_auto_filled declared environ data' context k v e h =
    elim (string_eq.decide k "openeo_data") [
      | yes a ↦ ground (arith, a)
      | no a ↦ elim (string_eq.decide k "job_id") [
        | yes b ↦ ground (arith, b)
        | no b ↦ elim (string_eq.decide k "user_id") [
          | yes c ↦ ground (arith, c)
          | no c ↦
              absurd (
                none_not_some (sym (filled_otherwise declared environ data' context k h a b c) ∙ e))
        ]
      ]
    ]

ready_injective : {a b : Invocation} → ready a ≡ ready b → b ≡ a
ready_injective e = cc

refused_not_ready : {i : Invocation} → ◌≢◌ refused (ready i)
refused_not_ready e = cc

checked_not_ready : {v : Validation} {i : Invocation} → ◌≢◌ (checked v) (ready i)
checked_not_ready e = cc

module _ (t : Tools) (o : Options) (work_dir : String) (environ : Dict String String) where
  after_validation_ready :
      (source : String) (inputs : Dict String Json) (v : Validation) (i : Invocation)
      → after_validation t o work_dir environ source inputs v ≡ ready i
      → i ≡ invocation t o work_dir environ source inputs
  unfolding after_validation
  after_validation_ready source inputs v i e = elim (Bool-cases v.valid) [
    | inr invalid ↦ absurd (refused_not_ready {i = i} (ground (arith, invalid, e)))
    | inl valid ↦ elim (Bool-cases o.validate_only) [
      | inl only ↦ absurd (checked_not_ready {v = v} {i = i} (ground (arith, valid, only, e)))
      | inr run ↦ ready_injective (ground (arith, valid, run, e))
    ]
  ]

  prepare_run-ready :
      (cwl : String) (inputs : Dict String Json) (i : Invocation)
      → prepare_run t o work_dir environ cwl inputs ≡ ready i
      → (source : String) × (resolve_cwl t cwl ≡ some source)
        × (i ≡ invocation t o work_dir environ source inputs)
  unfolding prepare_run
  prepare_run-ready cwl inputs i e = elim (Option-cases (resolve_cwl t cwl)) [
    | inl lost ↦ absurd (refused_not_ready {i = i} (ground (arith, lost, e)))
    | inr (source, f) ↦ elim (Option-cases (validate_cwl t source)) [
      | inl lost ↦ absurd (refused_not_ready {i = i} (ground (arith, f, lost, e)))
      | inr (v, g) ↦ (source, f, after_validation_ready source inputs v i (ground (arith, f, g, e)))
    ]
  ]

  -- The input of a name in the call of Calrissian is the one that the user gave; or else for
  -- `openeo_data` the staged data, if there is any; or else for a name that the document declares the
  -- variable of the job or of the user; and there is none otherwise. The names that are filled in are among those that the
  -- API marks in the schema of the inputs.
  pub get-prepare_run :
      (cwl : String) (data' : Option Json) (context : Dict String Json) (i : Invocation)
      → prepare_run t o work_dir environ cwl (udf_inputs data' context) ≡ ready i
      → (source : String) × (resolve_cwl t cwl ≡ some source)
        × ((k : String)
            → Dict.get k i.inputs ≡ filled (declared_inputs t source) environ data' context k)
        × ((k : String) (v : Json)
            → Dict.get k i.inputs ≡ some v
            → Dict.has k context ≡ false
            → is_auto_filled (text k) ≡ true)
  unfolding invocation
  get-prepare_run cwl data' context i e =
      let (source, f, is) = prepare_run-ready cwl (udf_inputs data' context) i e in
      let inputs_are : (k : String)
          → Dict.get k i.inputs ≡ filled (declared_inputs t source) environ data' context k =
        λ k.
          ap (λ (x : Invocation). Dict.get k x.inputs) is
          ∙ get-filled (declared_inputs t source) environ data' context k in
      (
        source,
        f,
        inputs_are,
        λ k v g h.
            filled-is_auto_filled (declared_inputs t source) environ data' context k v
              (sym (inputs_are k) ∙ g) h,
      )

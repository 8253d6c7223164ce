-- ===== src/Cwl/Wiring.antt =====
-- What `_auto_wire_inputs` fills in and what `_missing_required_inputs` reports.
use openeo_argoworkflows.Base.{
  String, Bool, true, false, not, ◌&&◌, Option, none, some, List, [], ◌∷◌, ◌==◌, ◌≡◌, ◌≢◌, inl, inr,
  ◌⊎◌, Option-cases, Bool-cases, ◌↔◌, ap, if◌then◌else◌, string_eq, arith,
}
use openeo_argoworkflows.Base.Lists.{In}
use openeo_argoworkflows.Base.Dict
use openeo_argoworkflows.Base.Dict.{Dict, get-set}
use openeo_argoworkflows.Base.Json.{Json, text, json_eq}
use openeo_argoworkflows.Cwl.Executor.{
  ExecutorSpec, auto_wire_inputs, wire_one, missing_required_inputs, is_given,
}

-- The variable that may fill an input.
abbrev pub variable_of : (String → Option String) → String → Option String
variable_of environ name =
    if name == "job_id"
    then environ "OPENEO_JOB_ID"
    else if name == "user_id"
    then environ "OPENEO_USER_ID"
    else none

abbrev pub as_text : Option String → Option Json
as_text none = none
as_text (some v) = some (text v)

job_id_not_user_id : ◌≢◌ {A = String} "job_id" "user_id"
job_id_not_user_id e = cc

module _ {A : Type 0} (environ : String → Option String) (declared : Dict Json A) where
  get-wire_one :
      (name env_key : String) (wired : Dict String Json) (k : String)
      → Dict.get k (wire_one environ declared name env_key wired) ≡ (
          if k == name && (not (Dict.has k wired) && Dict.has (text k) declared)
          then as_text (environ env_key)
          else Dict.get k wired)
  unfolding wire_one
  get-wire_one name env_key wired k = elim (Option-cases (environ env_key)) [
    | inl missing ↦ ground arith
    | inr (v, e) ↦ ground (arith, get-set k name (text v) wired)
  ]

  -- An input that the user gave keeps its value. Any other is filled from its variable if the
  -- document declares it, and only the job and the user have a variable.
  pub get-auto_wire_inputs :
      (inputs : Dict String Json) (k : String)
      → Dict.get k (auto_wire_inputs environ declared inputs) ≡ (
          if Dict.has k inputs
          then Dict.get k inputs
          else if Dict.has (text k) declared
          then as_text (variable_of environ k)
          else none)
  unfolding auto_wire_inputs
  get-auto_wire_inputs inputs k = ground (
    arith,
    job_id_not_user_id,
    get-wire_one "job_id" "OPENEO_JOB_ID" inputs k,
    get-wire_one "user_id" "OPENEO_USER_ID"
        (wire_one environ declared "job_id" "OPENEO_JOB_ID" inputs) k,
  )

abbrev IsMissing : Dict Json ExecutorSpec → Dict String Json → Json → Type 0
IsMissing specs inputs name =
    (spec : ExecutorSpec) × In (name, spec) specs
    × (spec.required ≡ true)
    × (is_given name inputs ≡ false)

In-if :
    {A : Type 0} (b : Bool) (x : A) (xs : List A) (a : A)
    → b ≡ true
    → In a (if b then x ∷ xs else xs)
    → (a ≡ x) ⊎ In a xs
In-if true x xs a e h = h
In-if false x xs a e h = cc

module _ (n : Json) (s : ExecutorSpec) (specs : Dict Json ExecutorSpec) (inputs : Dict String Json)
    (name : Json) where
  IsMissing-sound :
      (In name (missing_required_inputs specs inputs) → IsMissing specs inputs name)
      → In name (missing_required_inputs ((n, s) ∷ specs) inputs)
      → IsMissing ((n, s) ∷ specs) inputs name
  unfolding missing_required_inputs
  IsMissing-sound ih h = elim (Bool-cases (s.required && not (is_given n inputs))) [
    | inr skipped ↦ let (spec, m, r, g) = ih (ground arith) in (spec, inr m, r, g)
    | inl listed ↦ elim (In-if _ n (missing_required_inputs specs inputs) name listed h) [
      | inl e ↦ (
        s,
        inl (ap (λ (x : Json). let q : Json × ExecutorSpec = (x, s) in q) e),
        ground arith,
        ground (arith, e),
      )
      | inr m ↦ let (spec, m', r, g) = ih m in (spec, inr m', r, g)
    ]
  ]

  IsMissing-complete :
      (spec : ExecutorSpec)
      → (In (name, spec) specs → In name (missing_required_inputs specs inputs))
      → In (name, spec) ((n, s) ∷ specs)
      → spec.required ≡ true
      → is_given name inputs ≡ false
      → In name (missing_required_inputs ((n, s) ∷ specs) inputs)
  unfolding missing_required_inputs
  IsMissing-complete spec ih (inl e) r g =
      ground
        (arith, ap (λ (x : Json × ExecutorSpec). x.0) e, ap (λ (x : Json × ExecutorSpec). x.1) e)
  IsMissing-complete spec ih (inr m) r g = ground (arith, ih m)

-- The inputs that are reported missing are exactly the required ones that are not given.
missing_required_inputs_iff :
    (specs : Dict Json ExecutorSpec) (inputs : Dict String Json) (name : Json)
    → In name (missing_required_inputs specs inputs) ↔ (
        (spec : ExecutorSpec) × In (name, spec) specs
        × (spec.required ≡ true)
        × (is_given name inputs ≡ false))
unfolding missing_required_inputs
missing_required_inputs_iff [] inputs name = (λ h. absurd h, λ h. h.1)
missing_required_inputs_iff ((n, s) ∷ specs) inputs name = (
  λ h. IsMissing-sound n s specs inputs name ((missing_required_inputs_iff specs inputs name).0) h,
  λ (spec, m, r, g).
      IsMissing-complete n s specs inputs name spec
        (λ m'. (missing_required_inputs_iff specs inputs name).1 (spec, m', r, g)) m r g,
)

-- ===== src/Executor/Registry/Newest.antt =====
-- Which implementation a process of a graph has.
use openeo_argoworkflows.Base.{
  String, Option, none, some, List, [], ◌∷◌, ◌==◌, ◌≡◌, refl, sym, ap, ◌∙◌, inl, inr, if◌then◌else◌,
  Option-cases, string_eq, arith,
}
use openeo_argoworkflows.Base.Dict
use openeo_argoworkflows.Base.Dict.{Dict, get-set}
use openeo_argoworkflows.Executor.Registry.{
  Function, Process, Source, Registry, register_function, register_functions,
  register_processes_from_module, process_registry,
}

abbrev pub orelse : {A : Type 0} → Option A → Option A → Option A
orelse none b = b
orelse (some a) b = some a

orelse_assoc : {A : Type 0} (a b c : Option A) → orelse (orelse a b) c ≡ orelse a (orelse b c)
orelse_assoc none b c = refl
orelse_assoc (some a) b c = refl

orelse-none : {A : Type 0} (a : Option A) → orelse a none ≡ a
orelse-none none = refl
orelse-none (some a) = refl

module _ {Spec Code : Type 0} (spelled : String → String) where
  -- A function as a process of a name, if it has the name and a specification.
  abbrev pub as_process :
      (String → Option Spec) → String → Function Code → Option (Process Spec Code)
  as_process specs k f = elim (specs f.name) [
    | none ↦ none
    | some spec ↦
        if k == spelled f.name then some (record { spec = spec; implementation = f.code }) else none
  ]

  -- The last of the functions that is a process of a name.
  abbrev pub newest :
      (String → Option Spec) → String → List (Function Code) → Option (Process Spec Code)
  newest specs k [] = none
  newest specs k (f ∷ fs) = orelse (newest specs k fs) (as_process specs k f)

  get-register_function :
      (specs : String → Option Spec) (k : String) (f : Function Code) (r : Registry Spec Code)
      → Dict.get k (register_function spelled specs f r)
        ≡ orelse (as_process specs k f) (Dict.get k r)
  unfolding register_function
  get-register_function specs k f r = elim (Option-cases (specs f.name)) [
    | inl missing ↦ ground (arith, missing)
    | inr (spec, found) ↦ ground (
      arith,
      found,
      get-set k (spelled f.name) (record { spec = spec; implementation = f.code }) r,
    )
  ]

  get-register_functions :
      (specs : String → Option Spec) (k : String) (fs : List (Function Code))
      (r : Registry Spec Code)
      → Dict.get k (register_functions spelled specs fs r)
        ≡ orelse (newest specs k fs) (Dict.get k r)
  unfolding register_functions
  get-register_functions specs k [] r = refl
  get-register_functions specs k (f ∷ fs) r =
      get-register_functions specs k fs (register_function spelled specs f r)
      ∙ ap (orelse (newest specs k fs)) (get-register_function specs k f r)
      ∙ sym (orelse_assoc (newest specs k fs) (as_process specs k f) (Dict.get k r))

  -- A process of a graph is run by the last function of the executor of that name with a
  -- specification; if there is none, by the last one of the library; and by none if the library has
  -- none.
  pub get-process_registry :
      (dask extra : Source Spec Code) (k : String)
      → Dict.get k (process_registry spelled dask extra)
        ≡ orelse (newest extra.specs k extra.functions) (newest dask.specs k dask.functions)
  unfolding process_registry register_processes_from_module Dict.get
  get-process_registry dask extra k =
      get-register_functions extra.specs k extra.functions _
      ∙ ap (orelse (newest extra.specs k extra.functions)) (
          get-register_functions dask.specs k dask.functions []
          ∙ orelse-none (newest dask.specs k dask.functions))

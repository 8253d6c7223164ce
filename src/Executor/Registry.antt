-- ===== src/Executor/Registry.antt =====
-- `_register_processes_from_module` of executor.py: the implementations that a process graph runs with.
-- The registry is a dictionary on names as it spells them.
pub mod Newest
use openeo_argoworkflows.Base.{String, Option, none, some, List, [], ◌∷◌, ◌==◌, string_eq}
use openeo_argoworkflows.Base.Dict
use openeo_argoworkflows.Base.Dict.{Dict}

-- A function of a module, by its `__name__`; members come in the order of the names that they are
-- bound to.
pub record Function (Code : Type 0) : Type 0 where
  pub name : String
  pub code : Code

pub record Process (Spec Code : Type 0) : Type 0 where
  pub spec : Spec
  pub implementation : Code

-- A package of processes: its functions, and the specifications by name.
pub record Source (Spec Code : Type 0) : Type 0 where
  pub functions : List (Function Code)
  pub specs : String → Option Spec

abbrev pub Registry : Type 0 → Type 0 → Type 0
Registry Spec Code = Dict String (Process Spec Code)

module _ {Spec Code : Type 0} (spelled : String → String) where
  -- A function with no specification is passed over.
  unfoldable pub register_function :
      (String → Option Spec) → Function Code → Registry Spec Code → Registry Spec Code
  unfolding Dict.set
  register_function specs f registry = elim (specs f.name) [
    | none ↦ registry
    | some spec ↦
        Dict.set (spelled f.name) (record { spec = spec; implementation = f.code }) registry
  ]

  unfoldable pub register_functions :
      (String → Option Spec) → List (Function Code) → Registry Spec Code → Registry Spec Code
  unfolding register_function
  register_functions specs [] registry = registry
  register_functions specs (f ∷ fs) registry =
      register_functions specs fs (register_function specs f registry)

  unfoldable pub register_processes_from_module :
      Source Spec Code → Registry Spec Code → Registry Spec Code
  unfolding register_functions
  register_processes_from_module source registry =
      register_functions source.specs source.functions registry

  -- The registry of `execute`: the processes of the library, and then those of the executor.
  unfoldable pub process_registry : Source Spec Code → Source Spec Code → Registry Spec Code
  unfolding register_processes_from_module
  process_registry dask extra =
      register_processes_from_module extra (register_processes_from_module dask [])

-- ===== src/Tests/Registry.antt =====
-- A library and an executor that share a process.
use openeo_argoworkflows.Base.{
  ℕ, String, Option, none, some, [], ◌∷◌, ◌==◌, ◌≡◌, refl, if◌then◌else◌, string_eq,
}
use openeo_argoworkflows.Base.Dict
use openeo_argoworkflows.Executor.Registry.{
  Source, register_function, register_functions, register_processes_from_module, process_registry,
}
use openeo_argoworkflows.Executor.Registry.Newest.{orelse, newest, get-process_registry}

abbrev spec_of : String → Option ℕ
spec_of name = if name == "helper" then none else some 1

abbrev dask : Source ℕ String
dask = record {
  functions =
      record { name = "add"; code = "dask" }
      ∷ record { name = "load_collection"; code = "dask" }
      ∷ [];
  specs = spec_of;
}

abbrev extra : Source ℕ String
extra = record {
  functions =
      record { name = "helper"; code = "extra" }
      ∷ record { name = "load_collection"; code = "extra" }
      ∷ [];
  specs = spec_of;
}

overridden :
    Dict.get "load_collection" (process_registry (λ n. n) dask extra)
    ≡ some (record { spec = 1; implementation = "extra" })
unfolding process_registry register_processes_from_module register_functions register_function
    Dict.get Dict.set string_eq
overridden = refl

get-process_registry_example :
    Dict.get "load_collection" (process_registry (λ n. n) dask extra)
    ≡ orelse
        (newest (λ n. n) extra.specs "load_collection" extra.functions)
        (newest (λ n. n) dask.specs "load_collection" dask.functions)
get-process_registry_example = get-process_registry (λ n. n) dask extra "load_collection"

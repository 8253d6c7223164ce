-- ===== src/Cwl/Document.antt =====
-- `load_cwl_doc` of cwl_inputs.py and `_load_cwl_doc` of cwl.py: the entry of a document that runs.
use Prim.Native.Char.{code}
use openeo_argoworkflows.Base.{
  String, Bool, false, Option, none, some, List, [], ◌∷◌, ◌==◌, ◌∈◌, eqb, if◌then◌else◌, string_eq,
}
use openeo_argoworkflows.Base.Json.{
  Json, null, bool, number, text, array, object, Items, nil, cons, Fields, end, lookup, is_truthy,
}

-- `s.lstrip("#")`
unfoldable pub lstrip_hash : String → String
lstrip_hash String.[] = ""
lstrip_hash (String.◌∷◌ c s) =
    let rest = lstrip_hash s in if eqb (code c) b'#' then rest else (String.◌∷◌ c s)

-- `str(entry.get("id", "")).lstrip("#") == "main"`; only a text has that `str`.
unfoldable pub is_main : Fields → Bool
unfolding lstrip_hash
is_main entry = elim (lookup "id" entry) [
  | some v ↦ elim v [ text s ↦ lstrip_hash s == "main" | _ ↦ false ]
  | none ↦ false
]

unfoldable pub is_tool : Fields → Bool
is_tool entry = elim (lookup "class" entry) [
  | some v ↦ elim v [
    | text s ↦ s ∈ ("CommandLineTool" ∷ "Workflow" ∷ "ExpressionTool" ∷ [])
    | _ ↦ false
  ]
  | none ↦ false
]

-- `[e for e in graph if isinstance(e, dict)]`
unfoldable pub dict_items : Items → List Fields
dict_items nil = []
dict_items (cons (object e) vs) = e ∷ dict_items vs
dict_items (cons _ vs) = dict_items vs

-- The entries of `doc["$graph"] or []`. A number or a truth value cannot be iterated over; the
-- members of a text and the keys of a dict are no dicts.
unfoldable pub graph_entries : Json → Option (List Fields)
unfolding dict_items
graph_entries null = some []
graph_entries (bool b) = if b then none else some []
graph_entries (number n) = if is_truthy (number n) then none else some []
graph_entries (text s) = some []
graph_entries (array vs) = some (dict_items vs)
graph_entries (object d) = some []

unfoldable pub first_where : (Fields → Bool) → List Fields → Option Fields
first_where p [] = none
first_where p (e ∷ es) = let rest = first_where p es in if p e then some e else rest

head_or_empty : List Fields → Fields
head_or_empty [] = end
head_or_empty (e ∷ es) = e

-- The entry named main, else the first tool or workflow, else the first entry.
unfoldable pub run_entry : List Fields → Fields
unfolding first_where head_or_empty
run_entry es = elim (first_where is_main es) [
  | some e ↦ e
  | none ↦ elim (first_where is_tool es) [ some e ↦ e | none ↦ head_or_empty es ]
]

resolve_graph : Fields → Option Json → Option Fields
unfolding run_entry graph_entries
resolve_graph doc none = some doc
resolve_graph doc (some g) = elim (graph_entries g) [ none ↦ none | some es ↦ some (run_entry es) ]

resolve_doc : Json → Option Fields
unfolding resolve_graph
resolve_doc (object doc) = resolve_graph doc (lookup "$graph" doc)
resolve_doc _ = some end

-- `safe_load` is that of PyYAML; `none` is an exception.
unfoldable pub load_cwl_doc : (String → Option Json) → String → Option Fields
unfolding resolve_doc
load_cwl_doc safe_load source = elim (safe_load source) [ none ↦ none | some doc ↦ resolve_doc doc ]

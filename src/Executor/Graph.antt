-- ===== src/Executor/Graph.antt =====
-- Walks over a process graph: `_is_cwl_job` of executor.py, `_bbox_from_dict`,
-- `get_pg_bounding_box` and `derive_sub_graph` of utils.py, and `prepare_graphs` of executor.py.
pub mod Tiles
pub mod Passes
pub mod SubGraphs
pub mod Placing
use openeo_argoworkflows.Base.{
  String, Bool, true, false, ◌&&◌, ◌||◌, Option, none, some, List, [], ◌∷◌, ◌==◌, if◌then◌else◌,
  string_eq,
}
use openeo_argoworkflows.Base.Text.{codes, lower, contains, text_eq}
use openeo_argoworkflows.Base.Json.{
  Json, null, text, array, object, Items, nil, cons, Fields, end, field, lookup, get_or_null,
  has_key, is_text,
}

-- `node.get("arguments", {})`
unfoldable pub arguments : Fields → Json
arguments node = elim (lookup "arguments" node) [ none ↦ object end | some v ↦ v ]

-- `isinstance(runtime, str) and runtime.lower() == "eoap-cwl"`
unfoldable pub is_eoap_runtime : Option Json → Bool
unfolding lower
is_eoap_runtime (some (text t)) = lower (codes t) == codes "eoap-cwl"
is_eoap_runtime _ = false

unfoldable pub udf_is_cwl : Json → Option Bool
unfolding is_eoap_runtime
udf_is_cwl (object args) = some (is_eoap_runtime (lookup "runtime" args))
udf_is_cwl _ = none

-- One round of `_is_cwl_job`; `none` is an exception.
unfoldable pub is_cwl_node : Json → Option Bool
unfolding udf_is_cwl arguments
is_cwl_node (object node) =
    if is_text (get_or_null "process_id" node) "run_cwl"
    then some true
    else if is_text (get_or_null "process_id" node) "run_udf"
    then udf_is_cwl (arguments node)
    else some false
is_cwl_node _ = some false

unfoldable pub is_cwl_job : Fields → Option Bool
is_cwl_job end = some false
is_cwl_job (field id node d) =
    let rest = is_cwl_job d in
    elim (is_cwl_node node) [ none ↦ none | some true ↦ some true | some false ↦ rest ]

abbrev any_text : String → Items → Bool
any_text s nil = false
any_text s (cons v vs) = is_text v s || any_text s vs

-- `"load_" in process_id`; `none` for a value that `in` does not take
unfoldable pub is_load : Option Json → Option Bool
unfolding contains
is_load none = some false
is_load (some (text t)) = some (contains (codes t) (codes "load_"))
is_load (some (array vs)) = some (any_text "load_" vs)
is_load (some (object d)) = some (has_key "load_" d)
is_load (some _) = none

-- `d[k] = v`
unfoldable pub set_field : String → Json → Fields → Fields
set_field k v end = field k v end
set_field k v (field j w d) = if k == j then field j v d else field j w (set_field k v d)

-- `node["arguments"][k] = tile`
unfoldable pub set_in_arguments : String → Json → Option Json → Fields → Option Json
set_in_arguments k tile (some (object args)) node =
    some (object (set_field "arguments" (object (set_field k tile args)) node))
set_in_arguments k tile _ node = none

unfoldable pub set_argument : String → Json → Json → Option Json
unfolding set_in_arguments
set_argument k tile (object node) = set_in_arguments k tile (lookup "arguments" node) node
set_argument k tile _ = none

-- The argument that takes the tile in the first pass: that of a `load_` node.
unfoldable pub load_choice : Option Bool → Option (Option String)
load_choice none = none
load_choice (some true) = some (some "spatial_extent")
load_choice (some false) = some none

unfoldable pub load_key : Json → Option (Option String)
unfolding is_load load_choice
load_key (object node) = load_choice (is_load (lookup "process_id" node))
load_key _ = some none

unfoldable pub is_dict : Json → Bool
is_dict (object d) = true
is_dict _ = false

-- The first key of `_BBOX_KEYS` that holds a dict.
unfoldable pub bbox_key : Fields → Option String
unfolding is_dict
bbox_key args =
    if is_dict (get_or_null "bbox" args)
    then some "bbox"
    else if is_dict (get_or_null "spatial_extent" args)
    then some "spatial_extent"
    else none

-- `none` where the arguments are no dict
unfoldable pub bbox_key_of : Json → Option (Option String)
unfolding bbox_key
bbox_key_of (object args) = some (bbox_key args)
bbox_key_of _ = none

-- In the second pass, that of a node with a box of its own.
unfoldable pub call_key : Json → Option (Option String)
unfolding arguments bbox_key_of
call_key (object node) = bbox_key_of (arguments node)
call_key _ = some none

-- What a pass over the nodes ends with.
pub data Pass : Type 0 where
  raised : Pass
  unchanged : Pass
  changed : Fields → Pass

unfoldable pub after : String → Json → Pass → Pass
after k v raised = raised
after k v unchanged = unchanged
after k v (changed d) = changed (field k v d)

unfoldable pub written : String → Fields → Option Json → Pass
written k d none = raised
written k d (some node) = changed (field k node d)

-- One loop of `derive_sub_graph`: the first node with an argument for it takes the tile.
unfoldable pub pass : (Json → Option (Option String)) → Json → Fields → Pass
unfolding after written set_argument
pass key_of tile end = unchanged
pass key_of tile (field k node d) =
    let rest = pass key_of tile d in
    elim (key_of node) [
      | none ↦ raised
      | some none ↦ after k node rest
      | some (some key) ↦ written k d (set_argument key tile node)
    ]

unfoldable pub or_same : Fields → Pass → Option Fields
or_same d raised = none
or_same d unchanged = some d
or_same d (changed e) = some e

-- `derive_sub_graph`, with the graph as it is afterwards; `none` is an exception
unfoldable pub derive_sub_graph : Json → Fields → Option Fields
unfolding pass load_key call_key or_same
derive_sub_graph tile graph = elim (pass load_key tile graph) [
  | raised ↦ none
  | unchanged ↦ or_same graph (pass call_key tile graph)
  | changed d ↦ some d
]

-- The tile of a grid cell: the box of the cell, as a dict.
pub record Cell : Type 0 where
  pub west : Json
  pub south : Json
  pub east : Json
  pub north : Json

unfoldable pub tile_bbox : Cell → Json
tile_bbox c =
    object (
      field "west" c.west (field "east" c.east (field "south" c.south (field "north" c.north end))))

-- The loop of `prepare_graphs`: each round works on the graph that the one before it left.
-- `parse` is the constructor `OpenEOProcessGraph`, which reads the graph when it is called.
unfoldable pub sub_graphs :
    {P : Type 0} → (Fields → Option P) → List Cell → Fields → Option (List P)
unfolding derive_sub_graph tile_bbox
sub_graphs parse [] graph = some []
sub_graphs parse (cell ∷ cells) graph = elim (derive_sub_graph (tile_bbox cell) graph) [
  | none ↦ none
  | some derived ↦ elim (parse derived) [
    | none ↦ none
    | some p ↦ elim (sub_graphs parse cells derived) [ none ↦ none | some ps ↦ some (p ∷ ps) ]
  ]
]

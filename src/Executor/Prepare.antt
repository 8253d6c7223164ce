-- ===== src/Executor/Prepare.antt =====
-- `_bbox_from_dict` and `get_pg_bounding_box` of utils.py, and `prepare_graphs` and `execute` of
-- executor.py. The grid of tiles and the parser of process graphs are parameters.
use openeo_argoworkflows.Base.{
  String, Bool, true, false, Option, none, some, List, [], ◌∷◌, if◌then◌else◌, string_eq, ◌>>=◌,
}
use openeo_argoworkflows.Base.Text.{codes, contains}
use openeo_argoworkflows.Base.Json.{Json, object, Fields, end, field, lookup}
use openeo_argoworkflows.Executor.Graph.{arguments, Cell, sub_graphs, is_cwl_job}

-- The four corners, of whatever type they have in the graph.
pub record Box : Type 0 where
  pub west : Json
  pub south : Json
  pub east : Json
  pub north : Json

unfoldable pub bbox_from_dict : Option Json → Option Box
unfolding lookup
bbox_from_dict (some (object d)) = do
  west ← lookup "west" d
  south ← lookup "south" d
  east ← lookup "east" d
  north ← lookup "north" d
  some record { west = west; south = south; east = east; north = north }
bbox_from_dict _ = none

-- The box that a node has as an argument; the outer `none` is an exception.
argument_box : Json → Option (Option Box)
unfolding bbox_from_dict
argument_box (object args) = elim (bbox_from_dict (lookup "bbox" args)) [
  | some b ↦ some (some b)
  | none ↦ some (bbox_from_dict (lookup "spatial_extent" args))
]
argument_box _ = none

unfoldable pub node_box : Json → Option (Option Box)
unfolding argument_box arguments
node_box (object node) = argument_box (arguments node)
node_box _ = some none

first_box : Fields → Option (Option Box)
unfolding node_box
first_box end = some none
first_box (field k node d) =
    let rest = first_box d in
    elim (node_box node) [ none ↦ none | some none ↦ rest | some (some b) ↦ some (some b) ]

-- A node as the parser gives it: its process, and its arguments with the references followed.
pub record ParsedNode : Type 0 where
  pub process_id : String
  pub resolved_kwargs : Fields

-- `call["resolved_kwargs"]["spatial_extent"]` of the first `load_` node that has one
first_extent : List ParsedNode → Option Json
unfolding contains
first_extent [] = none
first_extent (n ∷ ns) =
    let rest = first_extent ns in
    if contains (codes n.process_id) (codes "load_")
    then elim (lookup "spatial_extent" n.resolved_kwargs) [
      | none ↦ rest
      | some extent ↦ some extent
    ]
    else rest

-- The parser, the corners of an extent that it resolved (`none` for an extent of `None`, or where an
-- attribute is missing), the grid, and the evaluation of a parsed graph.
pub record Engine (P : Type 0) : Type 0 where
  pub parse : Fields → Option P
  pub nodes : P → List ParsedNode
  pub corners : Json → Option Box
  pub grid_cells : Box → Option (List Cell)
  pub call : P → Bool

module _ {P : Type 0} (engine : Engine P) where
  box_of : Fields → Option Json → Option Box
  unfolding first_box
  box_of graph (some extent) = engine.corners extent
  box_of graph none = elim (first_box graph) [ none ↦ none | some b ↦ b ]

  -- The box, for `prepare_graphs`, which raises if there is none.
  unfoldable pub get_pg_bounding_box : Fields → Option Box
  unfolding first_extent box_of
  get_pg_bounding_box graph = do
    parsed ← engine.parse graph
    box_of graph (first_extent (engine.nodes parsed))

  unfoldable pub prepare_graphs : Fields → Option (List P)
  unfolding get_pg_bounding_box sub_graphs
  prepare_graphs graph = do
    box ← get_pg_bounding_box graph
    cells ← engine.grid_cells box
    sub_graphs engine.parse cells graph

  -- The graphs that are called, in order, up to the first that raises, and whether none does.
  unfoldable pub call_all : List P → Bool × List P
  call_all [] = (true, [])
  call_all (p ∷ ps) =
      let (ok, called) = call_all ps in if engine.call p then (ok, p ∷ called) else (false, p ∷ [])

  run_tiles : Option (List P) → Bool × List P
  unfolding call_all
  run_tiles none = (false, [])
  run_tiles (some ps) = call_all ps

  unfoldable pub execute_graph : P → Fields → Bool × List P
  unfolding is_cwl_job run_tiles prepare_graphs
  execute_graph parsed graph = elim (is_cwl_job graph) [
    | none ↦ (false, [])
    | some true ↦ (engine.call parsed, parsed ∷ [])
    | some false ↦ run_tiles (prepare_graphs graph)
  ]

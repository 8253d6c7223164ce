-- ===== src/Tests/Tiling.antt =====
-- A graph with a box, cut into two tiles.
use openeo_argoworkflows.Base.{String, true, none, some, [], ◌∷◌, ◌≡◌, refl, string_eq, nat_eq}
use openeo_argoworkflows.Base.Text.{contains, starts_with}
use openeo_argoworkflows.Base.Json.{Json, number, text, object, Fields, end, field, lookup}
use openeo_argoworkflows.Executor.Graph.{
  is_cwl_job, is_cwl_node, arguments, derive_sub_graph, Cell, tile_bbox, pass, load_key, call_key,
  is_load, load_choice, bbox_key, bbox_key_of, is_dict, set_argument, set_in_arguments, set_field,
  after, written, or_same, sub_graphs,
}
use openeo_argoworkflows.Executor.Graph.Placing.{IsPlaced, derive_sub_graph-Placed}
use openeo_argoworkflows.Executor.Prepare.{
  Box, Engine, bbox_from_dict, node_box, get_pg_bounding_box, execute_graph, prepare_graphs,
  call_all,
}

abbrev cell : String → Cell
cell w = record { west = number w; south = number "2"; east = number "3"; north = number "4" }

abbrev box : Fields
box =
    field "west" (number "10")
      (field "south" (number "46") (field "east" (number "11") (field "north" (number "47") end)))

-- A user-defined process with a box as an argument.
abbrev call : Json → Fields
call extent =
    field "n"
      (object (
        field "process_id" (text "ndvi")
          (field "arguments" (object (field "bbox" extent end)) end)))
      end

abbrev corners : Box
corners = record {
  west = number "10";
  south = number "46";
  east = number "11";
  north = number "47";
}

abbrev engine : Engine Fields
engine = record {
  parse = some;
  nodes = λ g. [];
  corners = λ v. none;
  grid_cells = λ b. some (cell "1" ∷ cell "2" ∷ []);
  call = λ g. true;
}

two_tiles :
    execute_graph engine (call (object box)) (call (object box))
    ≡ (true, call (tile_bbox (cell "1")) ∷ call (tile_bbox (cell "2")) ∷ [])
unfolding execute_graph prepare_graphs call_all sub_graphs is_cwl_job is_cwl_node
    get_pg_bounding_box node_box bbox_from_dict derive_sub_graph pass load_key call_key is_load
    load_choice bbox_key bbox_key_of is_dict set_argument set_in_arguments set_field after written
    or_same tile_bbox arguments lookup contains starts_with string_eq nat_eq
two_tiles = refl

box_replaced :
    derive_sub_graph (tile_bbox (cell "1")) (call (object box)) ≡ some (call (tile_bbox (cell "1")))
unfolding derive_sub_graph pass load_key call_key is_load load_choice bbox_key bbox_key_of is_dict
    set_argument set_in_arguments set_field after written or_same tile_bbox arguments lookup
    contains starts_with string_eq nat_eq
box_replaced = refl

derive_sub_graph-Placed_example :
    IsPlaced (tile_bbox (cell "1")) (call (object box)) (call (tile_bbox (cell "1")))
derive_sub_graph-Placed_example =
    derive_sub_graph-Placed (tile_bbox (cell "1")) (call (object box)) (call (tile_bbox (cell "1")))
      box_replaced

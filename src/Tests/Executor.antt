-- ===== src/Tests/Executor.antt =====
-- The executor on small inputs.
use openeo_argoworkflows.Base.{
  nat_eq, String, Bool, true, false, Option, none, some, List, [], ◌∷◌, ◌≡◌, ◌==◌, refl, map,
  string_eq, if◌then◌else◌,
}
use openeo_argoworkflows.Base.Text.{codes, starts_with, lower, contains, text_eq}
use openeo_argoworkflows.Base.Json.{number, text, array, object, nil, Fields, end, field, lookup}
use openeo_argoworkflows.Jobs.Model.{running}
use openeo_argoworkflows.Executor.Graph.{
  is_cwl_job, is_cwl_node, udf_is_cwl, is_eoap_runtime, arguments, derive_sub_graph, Cell,
  sub_graphs, pass, load_key, is_load, load_choice, set_argument, set_in_arguments, set_field,
  after, written,
}
use openeo_argoworkflows.Executor.Graph.SubGraphs.{sub_graphs-map, sub_graph, all_some}
use openeo_argoworkflows.Executor.Profile.{UserProfile}
use openeo_argoworkflows.Executor.Profile.Forwarding.{IsArrived, read_user_profile-IsArrived}
use openeo_argoworkflows.Executor.Command.{
  Tools, Candidate, Handles, Event, set_up, set_up_local, set_up_cluster, execute,
}
use openeo_argoworkflows.Executor.Command.Teardown.{IsClosed, execute-IsClosed}
use openeo_argoworkflows.Tests.Backend.{settings, job}

abbrev load : Fields → Fields
load args =
    field "load1"
      (object (field "process_id" (text "load_collection") (field "arguments" (object args) end)))
      end

abbrev box : Fields
box =
    field "west" (number "10")
      (field "east" (number "11") (field "south" (number "46") (field "north" (number "47") end)))

abbrev cell : Cell
cell = record { west = number "1"; south = number "2"; east = number "3"; north = number "4" }

abbrev graph : Fields
graph = load (field "id" (text "S2") end)

load_takes_tile :
    derive_sub_graph (object box) graph
    ≡ some (load (field "id" (text "S2") (field "spatial_extent" (object box) end)))
unfolding derive_sub_graph pass load_key is_load load_choice set_argument set_in_arguments set_field
    after written lookup contains starts_with string_eq nat_eq
load_takes_tile = refl

sub_graphs-map_example :
    sub_graphs some (cell ∷ cell ∷ []) graph
    ≡ all_some (map (sub_graph some graph) (cell ∷ cell ∷ []))
sub_graphs-map_example = sub_graphs-map some (cell ∷ cell ∷ []) graph

udf_runs_cwl :
    is_cwl_job (
      field "n"
        (object (
          field "process_id"
            (text "run_udf")
            (field "arguments" (object (field "runtime" (text "EOAP-CWL") end)) end)))
        end)
    ≡ some true
unfolding is_cwl_job is_cwl_node udf_is_cwl is_eoap_runtime arguments lookup lower string_eq text_eq
udf_runs_cwl = refl

abbrev environ : String → Option String
environ v = if v == "S3_BUCKET" then some "eo-public" else none

read_user_profile-IsArrived_example :
    (p : UserProfile) × IsArrived settings environ (job "j1" running (some "wf-1")) [] p
read_user_profile-IsArrived_example =
    read_user_profile-IsArrived settings environ (job "j1" running (some "wf-1")) []

abbrev points : Candidate
points = record {
  path = codes "/w/RESULTS/points.json";
  parts = codes "points.json" ∷ [];
  payload = some (array nil);
}

-- A cluster that starts, and a graph that runs or raises.
abbrev tools : Bool → List Candidate → Tools
tools runs candidates = record {
  start_local = true;
  connect_local = true;
  open_gateway = true;
  new_cluster = some (record { name = "c1"; closed = false });
  adapt = true;
  get_client = true;
  parse_graph = true;
  run_graph = runs;
  list_clusters = some [];
  connect = λ n. none;
  find = codes "/w/RESULTS/a.tif" ∷ [];
  is_file = λ f. true;
  json_files = candidates;
  publish = λ f. true;
}

abbrev handles : Handles
handles = record {
  dask_cluster = some (record { name = "c1"; closed = false });
  gateway = true;
  client = true;
  local_cluster = false;
}

execute-IsClosed_example :
    IsClosed (tools false []) handles ((execute (tools false []) false false).1)
unfolding set_up set_up_local set_up_cluster
execute-IsClosed_example =
    execute-IsClosed (tools false []) false false handles
      (Event.opened_gateway ∷ Event.started_cluster "c1" ∷ []) refl refl

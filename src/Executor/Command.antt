-- ===== src/Executor/Command.antt =====
-- The command `execute` of cli.py, from the set-up of the Dask cluster on: the cluster is started, the
-- graph is run, the cluster is shut down and the results are published. The parameters have been read
-- and the directories made before, and whether the job is one of CWL is known. What the calls answer is given by `Tools`; the events are
-- the calls that leave a trace, in their order.
pub mod Teardown
use openeo_argoworkflows.Base.{
  String, Bool, true, false, not, ◌&&◌, Option, none, some, List, [], ◌∷◌, ◌++◌, ◌==◌, map,
  if◌then◌else◌, string_eq,
}
use openeo_argoworkflows.Base.Lists.{filter_by}
use openeo_argoworkflows.Base.Text.{Text, codes, starts_with, ends_with, basename}
use openeo_argoworkflows.Base.Json.{Json, object, get_or_null, is_text}

pub record Cluster : Type 0 where
  pub name : String
  pub closed : Bool

-- A JSON file below the results: its parts from there on, and what `json.load` gives for it.
pub record Candidate : Type 0 where
  pub path : Text
  pub parts : List Text
  pub payload : Option Json

-- A `Bool` says whether a call returns; a call that gives a value has `none` for an exception.
pub record Tools : Type 0 where
  pub start_local : Bool
  pub connect_local : Bool
  pub open_gateway : Bool
  pub new_cluster : Option Cluster
  pub adapt : Bool
  pub get_client : Bool
  pub parse_graph : Bool
  pub run_graph : Bool
  pub list_clusters : Option (List String)
  pub connect : String → Option Cluster
  pub find : List Text
  pub is_file : Text → Bool
  pub json_files : List Candidate
  pub publish : Text → Bool

pub data Event : Type 0 where
  started_local : Event
  opened_gateway : Event
  started_cluster : String → Event
  ran_graph : Event
  shut_down : String → Event
  closed_client : Event
  closed_local : Event
  closed_gateway : Event
  published_collection : Text → Event
  created_cwl_stac : List Text → Event
  exited : Event

-- The four variables that are `None` at first.
pub record Handles : Type 0 where
  pub dask_cluster : Option Cluster
  pub gateway : Bool
  pub client : Bool
  pub local_cluster : Bool

-- A raised exception, or a value; with the events up to there.
abbrev pub Traced : Type 0 → Type 0
Traced A = Option A × List Event

unfoldable pub set_up_local : Tools → Traced Handles
set_up_local t =
    if t.start_local
    then (
      if t.connect_local
          then some
              record { dask_cluster = none; gateway = false; client = true; local_cluster = true }
          else none,
      started_local ∷ [],
    )
    else (none, [])

unfoldable pub set_up_cluster : Tools → Traced Handles
set_up_cluster t = elim t.new_cluster [
  | none ↦ (none, opened_gateway ∷ [])
  | some c ↦ (
    if t.adapt && t.get_client
        then some
            record { dask_cluster = some c; gateway = true; client = true; local_cluster = false }
        else none,
    opened_gateway ∷ started_cluster c.name ∷ [],
  )
]

unfoldable pub set_up : Tools → Bool → Bool → Traced Handles
unfolding set_up_local set_up_cluster
set_up t is_cwl local =
    if is_cwl
    then (
      some record { dask_cluster = none; gateway = false; client = false; local_cluster = false },
      [],
    )
    else if local
    then set_up_local t
    else if t.open_gateway
    then set_up_cluster t
    else (none, [])

-- `gateway.connect(cluster_list[0].name)`, where there is a list
connected : Tools → Cluster → Option (List String) → Option Cluster
connected t c none = none
connected t c (some []) = some c
connected t c (some (n ∷ ns)) = t.connect n

-- The cluster that `_teardown_cluster` shuts down; `none` where looking for it raised.
unfoldable pub current_cluster : Tools → Bool → Cluster → Option Cluster
unfolding connected
current_cluster t gateway c = if c.closed && gateway then connected t c t.list_clusters else some c

unfoldable pub shut_down_current : Option Cluster → List Event
shut_down_current none = []
shut_down_current (some c) = shut_down c.name ∷ []

unfoldable pub teardown_cluster : Tools → Option Cluster → Bool → List Event
unfolding current_cluster shut_down_current
teardown_cluster t none gateway = []
teardown_cluster t (some c) gateway = shut_down_current (current_cluster t gateway c)

abbrev pub when : Bool → Event → List Event
when b e = if b then e ∷ [] else []

-- A failing `close` is passed over.
unfoldable pub close_dask : Handles → List Event
close_dask h =
    when h.client closed_client
    ++ (when h.local_cluster closed_local ++ when h.gateway closed_gateway)

unfoldable pub collect_result_files : Tools → List Text
unfolding starts_with
collect_result_files t =
    filter_by (λ f. not (starts_with (basename f) (codes ".")) && t.is_file f) t.find

unfoldable pub any_hidden : List Text → Bool
unfolding starts_with
any_hidden [] = false
any_hidden (p ∷ ps) = let rest = any_hidden ps in if starts_with p (codes ".") then true else rest

keep : Bool → Text → Option (List Text) → Option (List Text)
keep b p none = none
keep true p (some ps) = some (p ∷ ps)
keep false p (some ps) = some ps

-- What the loop does with what was loaded: a value that is no dict has no `get`.
unfoldable pub take_collection : Option Json → Text → Option (List Text) → Option (List Text)
unfolding keep
take_collection none p rest = rest
take_collection (some (object d)) p rest = keep (is_text (get_or_null "type" d) "Collection") p rest
take_collection (some _) p rest = none

unfoldable pub find_stac_collections : List Candidate → Option (List Text)
unfolding any_hidden take_collection
find_stac_collections [] = some []
find_stac_collections (c ∷ cs) =
    let rest = find_stac_collections cs in
    if any_hidden c.parts then rest else take_collection c.payload c.path rest

-- The loop stops at the first collection that fails, and the exception is passed over.
unfoldable pub publish_all : Tools → List Text → List Event
publish_all t [] = []
publish_all t (p ∷ ps) =
    let rest = publish_all t ps in published_collection p ∷ (if t.publish p then rest else [])

is_netcdf : Text → Bool
unfolding ends_with
is_netcdf f = ends_with f (codes ".nc")

unfoldable pub is_empty : List Text → Bool
is_empty [] = true
is_empty (f ∷ fs) = false

unfoldable pub publish_results : Tools → Bool → List Text → List Event
unfolding is_netcdf is_empty publish_all collect_result_files
publish_results t is_cwl collections =
    let files = collect_result_files t in
    let result_files = filter_by is_netcdf files in
    let other_files = filter_by (λ f. not (is_netcdf f)) files in
    (if not (is_empty collections) && not is_cwl then publish_all t collections else [])
    ++ (if not (is_empty other_files) && (is_empty result_files && is_empty collections)
        then created_cwl_stac other_files ∷ []
        else [])

-- The rest of the command, when the graph has run; `none` is an exception, `some _` the exit.
unfoldable pub finish : Tools → Bool → Traced Unit
unfolding find_stac_collections publish_results
finish t is_cwl = elim (find_stac_collections t.json_files) [
  | none ↦ (none, [])
  | some collections ↦ (some tt, publish_results t is_cwl collections ++ (exited ∷ []))
]

-- The calls of the `finally`.
unfoldable pub closing : Tools → Handles → List Event
unfolding teardown_cluster close_dask
closing t h = teardown_cluster t h.dask_cluster h.gateway ++ close_dask h

unfoldable pub after_run : Bool → Traced Unit → Traced Unit
after_run true r = r
after_run false r = (none, [])

-- The `try` and its `finally`, and what follows.
unfoldable pub run : Tools → Bool → Handles → Traced Unit
unfolding closing finish after_run
run t is_cwl h =
    let (o, events) = after_run t.run_graph (finish t is_cwl) in
    (o, ran_graph ∷ (closing t h ++ events))

unfoldable pub after_parse : Bool → Traced Unit → List Event → Traced Unit
after_parse true (o, events) before = (o, before ++ events)
after_parse false r before = (none, before)

-- From the parser on, where the set-up has not raised.
unfoldable pub proceed : Tools → Bool → Traced Handles → Traced Unit
unfolding run after_parse
proceed t is_cwl (none, before) = (none, before)
proceed t is_cwl (some h, before) = after_parse t.parse_graph (run t is_cwl h) before

unfoldable pub execute : Tools → Bool → Bool → Traced Unit
unfolding set_up proceed
execute t is_cwl local = proceed t is_cwl (set_up t is_cwl local)

-- ===== src/Executor/Graph/Tiles.antt =====
-- Tiling: each sub-graph depends on its own cell only.
use openeo_argoworkflows.Base.{
  String, Option, some, ◌==◌, ◌≡◌, ◌≢◌, refl, ap, ◌∙◌, if◌then◌else◌, string_eq, arith,
}
use openeo_argoworkflows.Base.Json.{Json, object, Fields, end, field, lookup}
use openeo_argoworkflows.Executor.Graph.{
  arguments, set_field, set_in_arguments, set_argument, load_key, call_key, is_dict, bbox_key,
  bbox_key_of,
}

pub lookup-set_field :
    (j k : String) (v : Json) (d : Fields)
    → lookup j (set_field k v d) ≡ (if j == k then some v else lookup j d)
unfolding lookup set_field
lookup-set_field j k v end = refl
lookup-set_field j k v (field i w d) = ground (arith, lookup-set_field j k v d)

set_field-set_field :
    (k : String) (v w : Json) (d : Fields) → set_field k v (set_field k w d) ≡ set_field k v d
unfolding set_field
set_field-set_field k v w end = ground arith
set_field-set_field k v w (field i u d) = ground (arith, set_field-set_field k v w d)

abbrev with_argument : String → Json → Fields → Fields → Fields
with_argument k t args node = set_field "arguments" (object (set_field k t args)) node

with_argument-with_argument :
    (k : String) (t u : Json) (args node : Fields)
    → with_argument k u (set_field k t args) (with_argument k t args node)
      ≡ with_argument k u args node
with_argument-with_argument k t u args node =
    set_field-set_field "arguments" _ _ node
    ∙ ap (λ a. set_field "arguments" (object a) node) (set_field-set_field k u t args)

set_in_arguments_inv :
    (k : String) (t : Json) (v : Option Json) (node : Fields) (node' : Json)
    → set_in_arguments k t v node ≡ some node'
    → (args : Fields) × (v ≡ some (object args)) × (node' ≡ object (with_argument k t args node))
unfolding set_in_arguments
set_in_arguments_inv k t (some (object args)) node node' h = (args, refl, cc)
set_in_arguments_inv k t _ node node' h = cc

-- Where an argument is written, the node is an object whose arguments are one.
pub set_argument_inv :
    (k : String) (t node node' : Json)
    → set_argument k t node ≡ some node'
    → (n args : Fields) × (node ≡ object n)
      × (lookup "arguments" n ≡ some (object args))
      × (node' ≡ object (with_argument k t args n))
unfolding set_argument
set_argument_inv k t (object n) node' h =
    let (args, e, ne) = set_in_arguments_inv k t _ n node' h in (n, args, refl, e, ne)
set_argument_inv k t _ node' h = cc

set_argument_object :
    (k : String) (t : Json) (n args : Fields)
    → lookup "arguments" n ≡ some (object args)
    → set_argument k t (object n) ≡ some (object (with_argument k t args n))
unfolding set_argument set_in_arguments
set_argument_object k t n args e = ground (arith, e)

-- Writing one argument twice is writing it once.
pub set_argument-set_argument :
    (k : String) (t u node node' : Json)
    → set_argument k t node ≡ some node'
    → set_argument k u node' ≡ set_argument k u node
set_argument-set_argument k t u node node' h =
    let (n, args, e, ae, ne) = set_argument_inv k t node node' h in
    ground (
      arith,
      e,
      ne,
      set_argument_object k u (with_argument k t args n) (set_field k t args),
      set_argument_object k u n args,
      lookup-set_field "arguments" "arguments" (object (set_field k t args)) n,
      with_argument-with_argument k t u args n,
    )

process_id_not_arguments : ◌≢◌ {A = String} "process_id" "arguments"
process_id_not_arguments e = cc

-- The process of a node stays when one of its arguments is written.
pub load_key-set_argument :
    (k : String) (t node node' : Json)
    → set_argument k t node ≡ some node'
    → load_key node' ≡ load_key node
unfolding load_key
load_key-set_argument k t node node' h =
    let (n, args, e, ae, ne) = set_argument_inv k t node node' h in
    ground (
      arith,
      e,
      ne,
      process_id_not_arguments,
      lookup-set_field "process_id" "arguments" (object (set_field k t args)) n,
    )

spatial_extent_not_bbox : ◌≢◌ {A = String} "spatial_extent" "bbox"
spatial_extent_not_bbox e = cc

bbox_key-set_field :
    (k : String) (tile args : Fields)
    → bbox_key args ≡ some k
    → bbox_key (set_field k (object tile) args) ≡ some k
unfolding bbox_key is_dict
bbox_key-set_field k tile args h = ground (
  arith,
  spatial_extent_not_bbox,
  lookup-set_field "bbox" k (object tile) args,
  lookup-set_field "spatial_extent" k (object tile) args,
)

-- A node that took a tile in the second pass takes the next one in the same argument.
pub call_key-set_argument :
    (k : String) (tile : Fields) (node node' : Json)
    → call_key node ≡ some (some k)
    → set_argument k (object tile) node ≡ some node'
    → call_key node' ≡ some (some k)
unfolding call_key bbox_key_of arguments
call_key-set_argument k tile node node' c h =
    let (n, args, e, ae, ne) = set_argument_inv k (object tile) node node' h in
    ground (
      arith,
      e,
      ne,
      c,
      bbox_key-set_field k tile args,
      lookup-set_field "arguments" "arguments" (object (set_field k (object tile) args)) n,
    )

-- ===== src/Executor/Graph/Placing.antt =====
-- Where `derive_sub_graph` of utils.py writes the tile.
use openeo_argoworkflows.Base.{
  String, Bool, true, false, Option, none, some, ◌≡◌, ◌≢◌, ◌⊎◌, refl, sym, ap, ◌∙◌, inl, inr,
  string_eq, arith, Option-cases, Bool-cases,
}
use openeo_argoworkflows.Base.Text.{codes, contains}
use openeo_argoworkflows.Base.Json.{
  Json, text, array, object, Items, Fields, end, field, lookup, get_or_null, has_key,
}
use openeo_argoworkflows.Executor.Graph.{
  arguments, any_text, is_load, set_field, set_argument, load_choice, load_key, is_dict, bbox_key,
  bbox_key_of, call_key, unchanged, changed, pass, or_same, derive_sub_graph,
}
use openeo_argoworkflows.Executor.Graph.Tiles.{lookup-set_field, set_argument_inv}
use openeo_argoworkflows.Executor.Graph.Passes.{
  after_unchanged, after_changed, not_written, written_changed, pass_raised, pass_skips,
  pass_writes, raises, skips, writes, NodeCase-cases,
}
use openeo_argoworkflows.Executor.Graph.SubGraphs.{fails, keeps, changes, PassCase-cases}

-- A process id with `load_` in it, as Python's `in` takes a text, a list and a dict.
pub data IsLoadId : Option Json → Type 0 where
  named : (s : String) → contains (codes s) (codes "load_") ≡ true → IsLoadId (some (text s))
  listed : (vs : Items) → any_text "load_" vs ≡ true → IsLoadId (some (array vs))
  keyed : (d : Fields) → has_key "load_" d ≡ true → IsLoadId (some (object d))

-- A node that loads data takes the tile as its spatial extent.
abbrev pub LoadTakes : String → Fields → Type 0
LoadTakes key node = (key ≡ "spatial_extent") × IsLoadId (lookup "process_id" node)

-- A node whose argument `bbox` is a dict takes it there, one where only `spatial_extent` is, there.
pub data BoxIn (args : Fields) : String → Type 0 where
  bbox : (b : Fields) → lookup "bbox" args ≡ some (object b) → BoxIn args "bbox"
  extent :
      (b : Fields)
      → ((c : Fields) → ¬ (lookup "bbox" args ≡ some (object c)))
      → lookup "spatial_extent" args ≡ some (object b)
      → BoxIn args "spatial_extent"

abbrev pub BoxTakes : String → Fields → Type 0
BoxTakes key node =
    (args : Fields) × (lookup "arguments" node ≡ some (object args)) × BoxIn args key

-- The node with the tile as this argument, and all else as it was.
pub record IsTiled (key : String) (tile : Json) (node node' : Fields) : Type 0 where
  pub args : Fields
  pub args' : Fields
  pub before : lookup "arguments" node ≡ some (object args)
  pub now : lookup "arguments" node' ≡ some (object args')
  pub tile_there : lookup key args' ≡ some tile
  pub other_arguments : (j : String) → j ≢ key → lookup j args' ≡ lookup j args
  pub other_fields : (j : String) → j ≢ "arguments" → lookup j node' ≡ lookup j node

-- No node of the graph takes a tile.
pub data Untaken (Takes : String → Fields → Type 0) : Fields → Type 0 where
  no_nodes : Untaken Takes end
  passed :
      {k : String} {v : Json} {d : Fields}
      → ((key : String) (node : Fields) → v ≡ object node → ¬ Takes key node)
      → Untaken Takes d
      → Untaken Takes (field k v d)

-- The first node that takes the tile has it, the nodes before and after it are as they were.
pub data Placed (Takes : String → Fields → Type 0) (tile : Json) : Fields → Fields → Type 0 where
  at :
      (k key : String) (node node' d : Fields)
      → Takes key node
      → IsTiled key tile node node'
      → Placed Takes tile (field k (object node) d) (field k (object node') d)
  past :
      {k : String} {v : Json} {d d' : Fields}
      → ((key : String) (node : Fields) → v ≡ object node → ¬ Takes key node)
      → Placed Takes tile d d'
      → Placed Takes tile (field k v d) (field k v d')

-- A node that loads data takes the tile; else one with a box; else none.
abbrev pub IsPlaced : Json → Fields → Fields → Type 0
IsPlaced tile g d =
    Placed LoadTakes tile g d
    ⊎ (Untaken LoadTakes g × (Placed BoxTakes tile g d ⊎ (Untaken BoxTakes g × (d ≡ g))))

set_argument-IsTiled :
    (key : String) (tile node node' : Json)
    → set_argument key tile node ≡ some node'
    → (n n' : Fields) × (node ≡ object n) × (node' ≡ object n') × IsTiled key tile n n'
set_argument-IsTiled key tile node node' h =
    let (n, args, e, ae, ne) = set_argument_inv key tile node node' h in
    (
      n,
      set_field "arguments" (object (set_field key tile args)) n,
      e,
      ne,
      record {
        args = args;
        args' = set_field key tile args;
        before = ae;
        now =
            ground (
              arith,
              lookup-set_field "arguments" "arguments" (object (set_field key tile args)) n,
            );
        tile_there = ground (arith, lookup-set_field key key tile args);
        other_arguments = λ j d. ground (arith, d, lookup-set_field j key tile args);
        other_fields = λ j d.
            ground (arith, d, lookup-set_field j "arguments" (object (set_field key tile args)) n);
      },
    )

-- What a choice of an argument has to do for a pass to follow `Takes`.
record IsChoice (key_of : Json → Option (Option String)) (Takes : String → Fields → Type 0)
    : Type 0 where
  takes : (key : String) (node : Fields) → key_of (object node) ≡ some (some key) → Takes key node
  passes : (key : String) (node : Fields) → key_of (object node) ≡ some none → ¬ Takes key node

module _ {key_of : Json → Option (Option String)} {Takes : String → Fields → Type 0}
    (choice : IsChoice key_of Takes) (tile : Json) where
  pass-Untaken : (g : Fields) → pass key_of tile g ≡ unchanged → Untaken Takes g
  pass-Untaken end h = no_nodes
  pass-Untaken (field k v d) h = elim (NodeCase-cases (key_of v)) [
    | raises e ↦ absurd (ground (arith, h, pass_raised key_of tile k v d e))
    | skips e ↦
        passed (λ key node o. choice.passes key node (ap key_of (sym o) ∙ e))
          (pass-Untaken d (after_unchanged k v _ (sym (pass_skips key_of tile k v d e) ∙ h)))
    | writes key e ↦ absurd (not_written k d _ (sym (pass_writes key_of tile k v d key e) ∙ h))
  ]

  pass-Placed : (g g' : Fields) → pass key_of tile g ≡ changed g' → Placed Takes tile g g'
  unfolding pass
  pass-Placed end g' h = cc
  pass-Placed (field k v d) g' h = elim (NodeCase-cases (key_of v)) [
    | raises e ↦ absurd (ground (arith, h, pass_raised key_of tile k v d e))
    | skips e ↦
        let (d', p, q) = after_changed k v _ g' (sym (pass_skips key_of tile k v d e) ∙ h) in
        rw q
          (past (λ key node o. choice.passes key node (ap key_of (sym o) ∙ e)) (pass-Placed d d' p))
    | writes key e ↦
        let (v', p, q) = written_changed k d _ g' (sym (pass_writes key_of tile k v d key e) ∙ h) in
        let (n, n', o, o', t) = set_argument-IsTiled key tile v v' p in
        rw (q, o, o') (at k key n n' d (choice.takes key n (ap key_of (sym o) ∙ e)) t)
  ]

is_load-IsLoadId : (o : Option Json) → is_load o ≡ some true → IsLoadId o
unfolding is_load
is_load-IsLoadId (some (text s)) h = named s cc
is_load-IsLoadId (some (array vs)) h = listed vs cc
is_load-IsLoadId (some (object d)) h = keyed d cc
is_load-IsLoadId _ h = cc

IsLoadId-is_load : (o : Option Json) → IsLoadId o → is_load o ≡ some true
unfolding is_load
IsLoadId-is_load _ (named s h) = ap some h
IsLoadId-is_load _ (listed vs h) = ap some h
IsLoadId-is_load _ (keyed d h) = ap some h

load_choice_inv :
    (o : Option Bool) (key : String)
    → load_choice o ≡ some (some key)
    → (o ≡ some true) × (key ≡ "spatial_extent")
unfolding load_choice
load_choice_inv (some true) key h = (refl, cc)
load_choice_inv _ key h = cc

load_key-IsChoice : IsChoice load_key LoadTakes
unfolding load_key load_choice
load_key-IsChoice = record {
  takes = λ key node h. let (l, e) = load_choice_inv _ key h in (e, is_load-IsLoadId _ l);
  passes = λ key node h (e, l). cc (h, IsLoadId-is_load _ l);
}

data BoxCase (args : Fields) : Option String → Type 0 where
  found : {key : String} → BoxIn args key → BoxCase args (some key)
  no_box : ((key : String) → ¬ BoxIn args key) → BoxCase args none

not_dict :
    (k : String) (args b : Fields)
    → is_dict (get_or_null k args) ≡ false
    → ¬ (lookup k args ≡ some (object b))
unfolding is_dict
not_dict k args b h e = ground (arith, h, e)

dict_there :
    (k : String) (args : Fields)
    → is_dict (get_or_null k args) ≡ true
    → (b : Fields) × (lookup k args ≡ some (object b))
unfolding is_dict
dict_there k args h = elim (Option-cases (lookup k args)) [
  | inl missing ↦ absurd (ground (arith, h, missing))
  | inr (object b, e) ↦ (b, e)
  | inr (_, e) ↦ absurd (ground (arith, h, e))
]

without :
    (args : Fields)
    → is_dict (get_or_null "bbox" args) ≡ false
    → is_dict (get_or_null "spatial_extent" args) ≡ false
    → (key : String) → ¬ BoxIn args key
without args h _ _ (bbox b e) = not_dict "bbox" args b h e
without args _ h _ (extent b f e) = not_dict "spatial_extent" args b h e

same_key : {j k : String} → some j ≡ some k → j ≡ k
same_key e = cc

found_inv :
    (args : Fields) (key : String) (o : Option String)
    → BoxCase args o
    → o ≡ some key
    → BoxIn args key
found_inv args key _ (found b) h = rw (sym (same_key h)) b
found_inv args key _ (no_box f) h = cc

no_box_inv :
    (args : Fields) (o : Option String)
    → BoxCase args o
    → o ≡ none
    → (key : String) → ¬ BoxIn args key
no_box_inv args _ (found b) h = cc
no_box_inv args _ (no_box f) h = f

bbox_key-BoxCase : (args : Fields) → BoxCase args (bbox_key args)
unfolding bbox_key
bbox_key-BoxCase args = elim (Bool-cases (is_dict (get_or_null "bbox" args))) [
  | inl there ↦ let (b, e) = dict_there "bbox" args there in rw there (found (bbox b e))
  | inr gone ↦ elim (Bool-cases (is_dict (get_or_null "spatial_extent" args))) [
    | inl there ↦
        let (b, e) = dict_there "spatial_extent" args there in
        rw (gone, there) (found (extent b (λ c. not_dict "bbox" args c gone) e))
    | inr not_there ↦ rw (gone, not_there) (no_box (λ key b. without args gone not_there key b))
  ]
]

no_argument : (key : String) → ¬ (bbox_key end ≡ some key)
unfolding bbox_key is_dict lookup
no_argument key h = cc

call_key-takes :
    (v : Option Json) (key : String)
    → bbox_key_of (elim v [ none ↦ object end | some a ↦ a ]) ≡ some (some key)
    → (args : Fields) × (v ≡ some (object args)) × BoxIn args key
unfolding bbox_key_of
call_key-takes (some (object args)) key h =
    (args, refl, found_inv args key _ (bbox_key-BoxCase args) cc)
call_key-takes none key h = absurd (ground (arith, h, no_argument key))
call_key-takes _ key h = cc

call_key-passes :
    (v : Option Json) (key : String)
    → bbox_key_of (elim v [ none ↦ object end | some a ↦ a ]) ≡ some none
    → ¬ ((args : Fields) × (v ≡ some (object args)) × BoxIn args key)
unfolding bbox_key_of
call_key-passes v key h (args, e, b) =
    no_box_inv args _ (bbox_key-BoxCase args) (ground (arith, h, e)) key b

call_key-IsChoice : IsChoice call_key BoxTakes
unfolding call_key arguments
call_key-IsChoice = record {
  takes = λ key node h. call_key-takes _ key h;
  passes = λ key node h t. call_key-passes _ key h t;
}

-- Where `derive_sub_graph` returns: if a node loads data, the first of them takes the tile as its
-- spatial extent; otherwise the first node that has a box among its arguments takes the tile in
-- place of that box, with `bbox` before `spatial_extent`; and where there is no such node either,
-- the graph is as it was. All other nodes, arguments and fields stay.
pub derive_sub_graph-Placed :
    (tile : Json) (g d : Fields) → derive_sub_graph tile g ≡ some d → IsPlaced tile g d
unfolding derive_sub_graph or_same
derive_sub_graph-Placed tile g d h = elim (PassCase-cases (pass load_key tile g)) [
  | fails e ↦ absurd (ground (arith, h, e))
  | changes g' e ↦ inl (pass-Placed load_key-IsChoice tile g d (ground (arith, h, e)))
  | keeps e ↦ inr (
    pass-Untaken load_key-IsChoice tile g e,
    elim (PassCase-cases (pass call_key tile g)) [
      | fails c ↦ absurd (ground (arith, h, e, c))
      | changes g' c ↦ inl (pass-Placed call_key-IsChoice tile g d (ground (arith, h, e, c)))
      | keeps c ↦ inr (pass-Untaken call_key-IsChoice tile g c, ground (arith, h, e, c))
    ],
  )
]

-- ===== src/Executor/Graph/SubGraphs.antt =====
-- `prepare_graphs` writes each tile into the graph that the last one was written into.
use openeo_argoworkflows.Base.{
  Option, none, some, List, [], ◌∷◌, ◌≡◌, refl, ◌∙◌, inl, inr, map, Option-cases, arith,
}
use openeo_argoworkflows.Base.Json.{Json, object, Fields}
use openeo_argoworkflows.Executor.Graph.{
  Pass, raised, unchanged, changed, pass, load_key, call_key, derive_sub_graph, or_same, Cell,
  tile_bbox, sub_graphs,
}
use openeo_argoworkflows.Executor.Graph.Tiles.{load_key-set_argument, call_key-set_argument}
use openeo_argoworkflows.Executor.Graph.Passes.{pass-unchanged, pass-changed, load-call}

pub data PassCase (p : Pass) : Type 0 where
  fails : p ≡ raised → PassCase p
  keeps : p ≡ unchanged → PassCase p
  changes : (g : Fields) → p ≡ changed g → PassCase p

pub PassCase-cases : (p : Pass) → PassCase p
PassCase-cases raised = fails refl
PassCase-cases unchanged = keeps refl
PassCase-cases (changed g) = changes g refl

-- Once a tile has been written, the next one gives what it would have given in the graph before.
derive_sub_graph-derive_sub_graph :
    (t : Fields) (u : Json) (g g' : Fields)
    → derive_sub_graph (object t) g ≡ some g'
    → derive_sub_graph u g' ≡ derive_sub_graph u g
unfolding derive_sub_graph or_same
derive_sub_graph-derive_sub_graph t u g g' h = elim (PassCase-cases (pass load_key (object t) g)) [
  | fails e ↦ ground (arith, e)
  | changes d e ↦ ground (
    arith,
    e,
    pass-unchanged load_key u (object t) g,
    pass-changed load_key (object t) u
        (λ key node node' c w. load_key-set_argument key (object t) node node' w ∙ c) g d,
  )
  | keeps e ↦ elim (PassCase-cases (pass call_key (object t) g)) [
    | fails c ↦ ground (arith, e, c)
    | keeps c ↦ ground (arith, e, c)
    | changes d c ↦ ground (
      arith,
      e,
      c,
      pass-unchanged load_key (object t) u g,
      load-call (object t) u g d,
      pass-unchanged call_key u (object t) g,
      pass-changed call_key (object t) u
          (λ key node node' k w. call_key-set_argument key t node node' k w) g d,
    )
  ]
]

-- What one cell makes of the graph that the request came with.
abbrev pub sub_graph : {P : Type 0} → (Fields → Option P) → Fields → Cell → Option P
sub_graph parse graph cell = elim (derive_sub_graph (tile_bbox cell) graph) [
  | none ↦ none
  | some d ↦ parse d
]

abbrev pub prepend : {P : Type 0} → Option P → Option (List P) → Option (List P)
prepend (some p) (some ps) = some (p ∷ ps)
prepend _ _ = none

abbrev pub all_some : {P : Type 0} → List (Option P) → Option (List P)
all_some [] = some []
all_some (o ∷ os) = prepend o (all_some os)

module _ {P : Type 0} (parse : Fields → Option P) where
  sub_graphs-derived :
      (c : Cell) (cells : List Cell) (g d : Fields)
      → derive_sub_graph (tile_bbox c) g ≡ some d
      → map (sub_graph parse d) cells ≡ map (sub_graph parse g) cells
  unfolding tile_bbox
  sub_graphs-derived c [] g d h = refl
  sub_graphs-derived c (x ∷ cells) g d h = ground (
    arith,
    sub_graphs-derived c cells g d h,
    derive_sub_graph-derive_sub_graph _ (tile_bbox x) g d h,
  )

  -- The sub-graphs are those that the cells make of the first graph, each on its own, although the
  -- loop writes every tile into the same one. One failure fails all.
  pub sub_graphs-map :
      (cells : List Cell) (graph : Fields)
      → sub_graphs parse cells graph ≡ all_some (map (sub_graph parse graph) cells)
  unfolding sub_graphs
  sub_graphs-map [] graph = refl
  sub_graphs-map (c ∷ cells) graph = elim (Option-cases (derive_sub_graph (tile_bbox c) graph)) [
    | inl missing ↦ ground (arith, missing)
    | inr (d, e) ↦ elim (Option-cases (parse d)) [
      | inl missing ↦ ground (arith, e, missing)
      | inr (p, q) ↦
          ground (arith, e, q, sub_graphs-map cells d, sub_graphs-derived c cells graph d e)
    ]
  ]

-- ===== src/Executor/Graph/Passes.antt =====
-- The two passes of `derive_sub_graph`, run on a graph that a pass has changed.
use openeo_argoworkflows.Base.{
  String, Option, none, some, ◌≡◌, refl, sym, ap, ◌∙◌, string_eq, arith,
}
use openeo_argoworkflows.Base.Json.{Json, Fields, end, field}
use openeo_argoworkflows.Executor.Graph.{
  set_argument, Pass, raised, unchanged, changed, pass, after, written, load_key, call_key,
}
use openeo_argoworkflows.Executor.Graph.Tiles.{set_argument-set_argument, load_key-set_argument}

pub after_unchanged : (k : String) (v : Json) (p : Pass) → after k v p ≡ unchanged → p ≡ unchanged
unfolding after
after_unchanged k v raised h = cc
after_unchanged k v unchanged h = refl
after_unchanged k v (changed d) h = cc

pub after_changed :
    (k : String) (v : Json) (p : Pass) (g : Fields)
    → after k v p ≡ changed g
    → (d : Fields) × (p ≡ changed d) × (g ≡ field k v d)
unfolding after
after_changed k v raised g h = cc
after_changed k v unchanged g h = cc
after_changed k v (changed d) g h = (d, refl, cc)

pub not_written : (k : String) (d : Fields) (o : Option Json) → ¬ (written k d o ≡ unchanged)
unfolding written
not_written k d none h = cc
not_written k d (some v) h = cc

pub written_changed :
    (k : String) (d : Fields) (o : Option Json) (g : Fields)
    → written k d o ≡ changed g
    → (v : Json) × (o ≡ some v) × (g ≡ field k v d)
unfolding written
written_changed k d none g h = cc
written_changed k d (some v) g h = (v, refl, cc)

-- What `pass` does at a node, by the argument that is chosen there.
module _ (key_of : Json → Option (Option String)) (t : Json) (k : String) (node : Json)
    (d : Fields) where
  pub pass_raised : key_of node ≡ none → pass key_of t (field k node d) ≡ raised
  unfolding pass
  pass_raised e = ground (arith, e)

  pub pass_skips :
      key_of node ≡ some none → pass key_of t (field k node d) ≡ after k node (pass key_of t d)
  unfolding pass
  pass_skips e = ground (arith, e)

  pub pass_writes :
      (key : String)
      → key_of node ≡ some (some key)
      → pass key_of t (field k node d) ≡ written k d (set_argument key t node)
  unfolding pass
  pass_writes key e = ground (arith, e)

pub data NodeCase (o : Option (Option String)) : Type 0 where
  raises : o ≡ none → NodeCase o
  skips : o ≡ some none → NodeCase o
  writes : (key : String) → o ≡ some (some key) → NodeCase o

pub NodeCase-cases : (o : Option (Option String)) → NodeCase o
NodeCase-cases none = raises refl
NodeCase-cases (some none) = skips refl
NodeCase-cases (some (some key)) = writes key refl

after-unchanged : (k : String) (v : Json) → after k v unchanged ≡ unchanged
unfolding after
after-unchanged k v = refl

module _ (key_of : Json → Option (Option String)) (t u : Json) where
  pub pass-unchanged : (g : Fields) → pass key_of t g ≡ unchanged → pass key_of u g ≡ unchanged
  unfolding pass
  pass-unchanged end h = refl
  pass-unchanged (field k node d) h = elim (NodeCase-cases (key_of node)) [
    | raises e ↦ ground (arith, pass_raised key_of t k node d e)
    | skips e ↦
        pass_skips key_of u k node d e
        ∙ ap (after k node)
            (pass-unchanged d (after_unchanged k node _ (sym (pass_skips key_of t k node d e) ∙ h)))
        ∙ after-unchanged k node
    | writes key e ↦ absurd (not_written k d _ (sym (pass_writes key_of t k node d key e) ∙ h))
  ]

  -- A pass does with the graph it left what it does with the first one.
  pub pass-changed :
      ((key : String) (node node' : Json)
        → key_of node ≡ some (some key)
        → set_argument key t node ≡ some node'
        → key_of node' ≡ some (some key))
      → (g g' : Fields) → pass key_of t g ≡ changed g'
      → pass key_of u g' ≡ pass key_of u g
  unfolding pass
  pass-changed stable end g' h = cc
  pass-changed stable (field k node d) g' h = elim (NodeCase-cases (key_of node)) [
    | raises e ↦ ground (arith, pass_raised key_of t k node d e)
    | skips e ↦
        let (d', p, q) = after_changed k node _ g' (sym (pass_skips key_of t k node d e) ∙ h) in
        ap (pass key_of u) q
        ∙ pass_skips key_of u k node d' e
        ∙ ap (after k node) (pass-changed stable d d' p)
        ∙ sym (pass_skips key_of u k node d e)
    | writes key e ↦
        let (v, p, q) = written_changed k d _ g' (sym (pass_writes key_of t k node d key e) ∙ h) in
        ap (pass key_of u) q
        ∙ pass_writes key_of u k v d key (stable key node v e p)
        ∙ ap (written k d) (set_argument-set_argument key t u node v p)
        ∙ sym (pass_writes key_of u k node d key e)
  ]

-- The first pass finds no more in a graph that the second has changed.
pub load-call :
    (t u : Json) (g g' : Fields)
    → pass load_key u g ≡ unchanged
    → pass call_key t g ≡ changed g'
    → pass load_key u g' ≡ unchanged
unfolding pass
load-call t u end g' l h = cc
load-call t u (field k node d) g' l h = elim (NodeCase-cases (load_key node)) [
  | raises e ↦ ground (arith, pass_raised load_key u k node d e)
  | writes key e ↦ absurd (not_written k d _ (sym (pass_writes load_key u k node d key e) ∙ l))
  | skips e ↦
      let le = after_unchanged k node _ (sym (pass_skips load_key u k node d e) ∙ l) in
      elim (NodeCase-cases (call_key node)) [
        | raises c ↦ ground (arith, pass_raised call_key t k node d c)
        | skips c ↦
            let (d', p, q) =
              after_changed k node _ g' (sym (pass_skips call_key t k node d c) ∙ h) in
            ap (pass load_key u) q
            ∙ pass_skips load_key u k node d' e
            ∙ ap (after k node) (load-call t u d d' le p)
            ∙ after-unchanged k node
        | writes key c ↦
            let (v, p, q) =
              written_changed k d _ g' (sym (pass_writes call_key t k node d key c) ∙ h) in
            ap (pass load_key u) q
            ∙ pass_skips load_key u k v d (load_key-set_argument key t node v p ∙ e)
            ∙ ap (after k v) le
            ∙ after-unchanged k v
      ]
]

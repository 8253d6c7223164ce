-- ===== src/Executor/Grid/Strips.antt =====
-- The positions of the cells on one axis.
use mathlib.Core.Path.{subst}
use native.Mathlib.Decide.{ℕ_discrete, dec_lt}
use native.Mathlib.Nat.{lt_of_mul-lt-mul_right, le-div_iff_mul-le, lt-div-mul-add, div-mul-le_self}
use openeo_argoworkflows.Base.{
  ℕ, zero, suc, ◌+◌, ◌-◌, ◌*◌, ◌/◌, ◌≤◌, ◌<◌, List, [], ◌∷◌, map, ◌≡◌, refl, sym, ap, ◌⊎◌, inl, inr,
  arith,
}
use openeo_argoworkflows.Base.Lists.{In}
use openeo_argoworkflows.Executor.Grid.{Range, range_from, n_tiles, cell_pos, positions}

In-range_from : (k n i : ℕ) → In i (range_from k n) → (k ≤ i) × (i < k + n)
unfolding range_from
In-range_from k zero i h = absurd h
In-range_from k (suc n) i (inl e) = (omega (arith, e), omega (arith, e))
In-range_from k (suc n) i (inr h) =
    let (a, b) = In-range_from (suc k) n i h in (omega (arith, a), omega (arith, b))

range_from-In : (k n i : ℕ) → k ≤ i → i < k + n → In i (range_from k n)
unfolding range_from
range_from-In k zero i a b = absurd (omega (arith, a, b))
range_from-In k (suc n) i a b = elim (ℕ_discrete i k) [
  | yes e ↦ inl e
  | no e ↦ inr (range_from-In (suc k) n i (omega (arith, a, e)) (omega (arith, b)))
]

map-In : {A B : Type 0} (f : A → B) (a : A) (xs : List A) → In a xs → In (f a) (map f xs)
map-In f a [] i = absurd i
map-In f a (x ∷ xs) (inl e) = inl (ap f e)
map-In f a (x ∷ xs) (inr i) = inr (map-In f a xs i)

In-map :
    {A B : Type 0} (f : A → B) (b : B) (xs : List A)
    → In b (map f xs)
    → (a : A) × In a xs × (b ≡ f a)
In-map f b [] i = absurd i
In-map f b (x ∷ xs) (inl e) = (x, inl refl, e)
In-map f b (x ∷ xs) (inr i) = let (a, j, e) = In-map f b xs i in (a, inr j, e)

succ_mul : (k t : ℕ) → (k + 1) * t ≡ k * t + t
succ_mul k t = omega arith

-- The last metre of a tile that another one may follow.
abbrev pub Gap : ℕ → ℕ → ℕ → ℕ → Type 0
Gap metre tile distance x =
    (k : ℕ) × ((k + 1) * tile ≤ distance) × ((k + 1) * tile < x + metre) × (x < (k + 1) * tile)

module _ (metre tile : ℕ) (thick : metre ≤ tile) (some_metre : 0 < metre) (distance : ℕ) where
  cell_below : (k : ℕ) → k < n_tiles tile distance → k * tile < distance
  unfolding n_tiles
  cell_below k h =
      let p =
        (le-div_iff_mul-le {k = tile} {x = suc k} {y = distance + (tile - 1)}
            (omega (arith, thick, some_metre))).0
          (omega (arith, h)) in
      omega (arith, p, succ_mul k tile)

  below_cell : (k : ℕ) → k * tile < distance → k < n_tiles tile distance
  unfolding n_tiles
  below_cell k h =
      let p : suc k * tile ≤ distance + (tile - 1) = omega (arith, h, succ_mul k tile) in
      omega (
        arith,
        (le-div_iff_mul-le {k = tile} {x = suc k} {y = distance + (tile - 1)}
              (omega (arith, thick, some_metre))).1
            p,
      )

  cell_pos_short :
      (k : ℕ) → distance < (k + 1) * tile → cell_pos metre tile distance k ≡ (k * tile, distance)
  unfolding cell_pos
  cell_pos_short k h = ground (arith, h)

  cell_pos_full :
      (k : ℕ)
      → (k + 1) * tile ≤ distance
      → cell_pos metre tile distance k ≡ (k * tile, (k + 1) * tile - metre)
  unfolding cell_pos
  cell_pos_full k h = ground (arith, h)

  pos_bounds :
      (k : ℕ)
      → k < n_tiles tile distance
      → ((cell_pos metre tile distance k).0 ≤ (cell_pos metre tile distance k).1)
        × ((cell_pos metre tile distance k).1 ≤ distance)
  pos_bounds k h = elim (dec_lt distance ((k + 1) * tile)) [
    | yes short ↦
        subst (λ (r : Range). (r.0 ≤ r.1) × (r.1 ≤ distance)) (sym (cell_pos_short k short))
          (omega (arith, cell_below k h), omega arith)
    | no full ↦
        subst (λ (r : Range). (r.0 ≤ r.1) × (r.1 ≤ distance))
          (sym (cell_pos_full k (omega (arith, full))))
          (omega (arith, succ_mul k tile, thick), omega (arith, full))
  ]

  pos_holds : (x : ℕ) → x < distance → ((x / tile) * tile ≤ x) × (x < (x / tile) * tile + tile)
  pos_holds x h =
      (div-mul-le_self x tile, lt-div-mul-add {a = x} {b = tile} (omega (arith, thick, some_metre)))

  -- A point lies in a cell or in a gap.
  pub pos_covers :
      (x : ℕ)
      → x < distance
      → ((r : Range) × In r (positions metre tile distance) × (r.0 ≤ x) × (x ≤ r.1))
        ⊎ Gap metre tile distance x
  unfolding positions
  pos_covers x h =
      let k = x / tile in
      let (low, high) = pos_holds x h in
      let member : In (cell_pos metre tile distance k)
          (map (cell_pos metre tile distance) (range_from 0 (n_tiles tile distance))) =
        map-In (cell_pos metre tile distance) k (range_from 0 (n_tiles tile distance)) (
          range_from-In 0 (n_tiles tile distance) k (omega arith)
            (omega (arith, below_cell k (omega (arith, low, h))))) in
      elim (dec_lt distance ((k + 1) * tile)) [
        | yes short ↦ inl (
          (k * tile, distance),
          subst
              (λ (r : Range).
                In r (map (cell_pos metre tile distance) (range_from 0 (n_tiles tile distance))))
              (cell_pos_short k short) member,
          low,
          omega (arith, h),
        )
        | no full ↦ elim (dec_lt ((k + 1) * tile) (x + metre)) [
          | yes gap ↦ inr (k, omega (arith, full), gap, omega (arith, high, succ_mul k tile))
          | no inside ↦ inl (
            (k * tile, (k + 1) * tile - metre),
            subst
                (λ (r : Range).
                  In r (map (cell_pos metre tile distance) (range_from 0 (n_tiles tile distance))))
                (cell_pos_full k (omega (arith, full))) member,
            low,
            omega (arith, inside),
          )
        ]
      ]

  same_cell :
      (x j k : ℕ) → j * tile ≤ x → x < (j + 1) * tile → k * tile ≤ x → x < (k + 1) * tile → j ≡ k
  same_cell x j k a b c d =
      let p : j < k + 1 = lt_of_mul-lt-mul_right tile (omega (arith, a, d)) in
      let q : k < j + 1 = lt_of_mul-lt-mul_right tile (omega (arith, b, c)) in omega (arith, p, q)

  -- A gap lies in no cell.
  pos-Gap :
      (x : ℕ)
      → Gap metre tile distance x
      → (j : ℕ) → j < n_tiles tile distance
      → ¬ (((cell_pos metre tile distance j).0 ≤ x) × (x ≤ (cell_pos metre tile distance j).1))
  pos-Gap x (k, here, above, under) j h inside = elim (dec_lt distance ((j + 1) * tile)) [
    | yes short ↦
        let (low, high) =
          subst (λ (r : Range). (r.0 ≤ x) × (x ≤ r.1)) (cell_pos_short j short) inside in
        let j_is_k : j ≡ k =
          same_cell x j k low (omega (arith, high, short))
            (omega (arith, above, succ_mul k tile, thick)) under in
        omega (arith, short, here, ap (λ n. (n + 1) * tile) j_is_k)
    | no full ↦
        let (low, high) =
          subst (λ (r : Range). (r.0 ≤ x) × (x ≤ r.1)) (cell_pos_full j (omega (arith, full)))
            inside in
        let j_is_k : j ≡ k =
          same_cell x j k low (omega (arith, high, some_metre, succ_mul j tile, thick))
            (omega (arith, above, succ_mul k tile, thick)) under in
        omega (arith, high, above, ap (λ n. (n + 1) * tile) j_is_k, succ_mul k tile, thick)
  ]

  pos_of :
      (r : Range)
      → In r (positions metre tile distance)
      → (j : ℕ) × (j < n_tiles tile distance) × (r ≡ cell_pos metre tile distance j)
  unfolding positions
  pos_of r i =
      let (j, m, e) =
        In-map (cell_pos metre tile distance) r (range_from 0 (n_tiles tile distance)) i in
      (j, omega (arith, (In-range_from 0 (n_tiles tile distance) j m).1), e)

  pub positions_bounds :
      (r : Range) → In r (positions metre tile distance) → (r.0 ≤ r.1) × (r.1 ≤ distance)
  positions_bounds r i =
      let (j, h, e) = pos_of r i in
      subst (λ (r : Range). (r.0 ≤ r.1) × (r.1 ≤ distance)) (sym e) (pos_bounds j h)

  pub positions-Gap :
      (x : ℕ)
      → Gap metre tile distance x
      → (r : Range) → In r (positions metre tile distance)
      → ¬ ((r.0 ≤ x) × (x ≤ r.1))
  positions-Gap x g r i inside =
      let (j, h, e) = pos_of r i in
      pos-Gap x g j h (subst (λ (r : Range). (r.0 ≤ x) × (x ≤ r.1)) e inside)

-- ===== src/Executor/Grid/Cover.antt =====
-- Which points of the box lie in a cell.
use mathlib.Core.Path.{subst}
use openeo_argoworkflows.Base.{ℕ, ◌≤◌, ◌<◌, List, [], ◌∷◌, ◌≡◌, ap, ◌⊎◌, inl, inr}
use openeo_argoworkflows.Base.Lists.{In, In-append, In-append-left, In-append-right}
use openeo_argoworkflows.Executor.Grid.{
  Bounds, Geod, Range, GridCell, derive_distance, positions, lat_cells, long_cells,
  find_cell_bounds, derive_points, set_grid_cells,
}
use openeo_argoworkflows.Executor.Grid.Strips.{Gap, pos_covers, positions_bounds, positions-Gap}

module _ {Degree : Type 0} (geod : Geod Degree) (start : Degree × Degree) where
  cell_at : Range → Range → GridCell Degree
  cell_at long lat = record {
    long_cell_pos = long;
    lat_cell_pos = lat;
    bounds = find_cell_bounds geod long lat start;
  }

  In-lat_cells :
      (c : GridCell Degree) (long : Range) (lats : List Range)
      → In c (lat_cells geod start long lats)
      → (c.long_cell_pos ≡ long) × In c.lat_cell_pos lats
  unfolding lat_cells
  In-lat_cells c long [] i = absurd i
  In-lat_cells c long (lat ∷ lats) (inl e) = (
    ap (λ (x : GridCell Degree). x.long_cell_pos) e,
    inl (ap (λ (x : GridCell Degree). x.lat_cell_pos) e),
  )
  In-lat_cells c long (lat ∷ lats) (inr i) = let (a, b) = In-lat_cells c long lats i in (a, inr b)

  In-long_cells :
      (c : GridCell Degree) (longs lats : List Range)
      → In c (long_cells geod start longs lats)
      → In c.long_cell_pos longs × In c.lat_cell_pos lats
  unfolding long_cells
  In-long_cells c [] lats i = absurd i
  In-long_cells c (long ∷ longs) lats i =
      elim (In-append c (lat_cells geod start long lats) (long_cells geod start longs lats) i) [
        | inl j ↦ let (a, b) = In-lat_cells c long lats j in (inl a, b)
        | inr j ↦ let (a, b) = In-long_cells c longs lats j in (inr a, b)
      ]

  lat_cells-In :
      (long lat : Range) (lats : List Range)
      → In lat lats
      → In (cell_at long lat) (lat_cells geod start long lats)
  unfolding lat_cells cell_at
  lat_cells-In long lat [] i = absurd i
  lat_cells-In long lat (l ∷ lats) (inl e) = inl (ap (cell_at long) e)
  lat_cells-In long lat (l ∷ lats) (inr i) = inr (lat_cells-In long lat lats i)

  long_cells-In :
      (long lat : Range) (longs lats : List Range)
      → In long longs
      → In lat lats
      → In (cell_at long lat) (long_cells geod start longs lats)
  unfolding long_cells
  long_cells-In long lat [] lats i j = absurd i
  long_cells-In long lat (l ∷ longs) lats (inl e) j =
      In-append-left (cell_at long lat) (lat_cells geod start l lats)
        (long_cells geod start longs lats)
        (subst (λ d. In (cell_at long lat) (lat_cells geod start d lats)) e
          (lat_cells-In long lat lats j))
  long_cells-In long lat (l ∷ longs) lats (inr i) j =
      In-append-right (cell_at long lat) (lat_cells geod start l lats)
        (long_cells geod start longs lats) (long_cells-In long lat longs lats i j)

-- A point, by its distances from the west and from the north side, in a cell with its border.
abbrev pub Inside : {Degree : Type 0} → ℕ → ℕ → GridCell Degree → Type 0
Inside x y c =
    ((c.long_cell_pos.0 ≤ x) × (x ≤ c.long_cell_pos.1))
    × ((c.lat_cell_pos.0 ≤ y) × (y ≤ c.lat_cell_pos.1))

-- The cells lie in the box; each point of the box is in one of them or in a gap; no gap is in any.
pub record IsCover {Degree : Type 0} (metre tile width height : ℕ) (cells : List (GridCell Degree))
    : Type 0 where
  pub within :
      (c : GridCell Degree)
      → In c cells
      → ((c.long_cell_pos.0 ≤ c.long_cell_pos.1) × (c.long_cell_pos.1 ≤ width))
        × ((c.lat_cell_pos.0 ≤ c.lat_cell_pos.1) × (c.lat_cell_pos.1 ≤ height))
  pub covers :
      (x y : ℕ)
      → x < width
      → y < height
      → ((c : GridCell Degree) × In c cells × Inside x y c)
        ⊎ (Gap metre tile width x ⊎ Gap metre tile height y)
  pub gaps :
      (x y : ℕ)
      → Gap metre tile width x ⊎ Gap metre tile height y
      → (c : GridCell Degree) → In c cells
      → ¬ (Inside x y c)

module _ {Degree : Type 0} (geod : Geod Degree) (metre tile : ℕ) (thick : metre ≤ tile)
    (some_metre : 0 < metre) where
  covered :
      (start : Degree × Degree) (width height : ℕ)
      → IsCover metre tile width height
          (long_cells geod start (positions metre tile width) (positions metre tile height))
  unfolding cell_at
  covered start width height = record {
    within = λ c i.
        let (a, b) =
          In-long_cells geod start c (positions metre tile width) (positions metre tile height) i in
        (
          positions_bounds metre tile thick some_metre width c.long_cell_pos a,
          positions_bounds metre tile thick some_metre height c.lat_cell_pos b,
        );
    covers = λ x y h k. elim (pos_covers metre tile thick some_metre width x h) [
      | inr g ↦ inr (inl g)
      | inl (long, i, p, q) ↦ elim (pos_covers metre tile thick some_metre height y k) [
        | inr g ↦ inr (inr g)
        | inl (lat, j, r, s) ↦ inl (
          cell_at geod start long lat,
          long_cells-In geod start long lat (positions metre tile width)
              (positions metre tile height) i j,
          ((p, q), (r, s)),
        )
      ]
    ];
    gaps = λ x y g c i inside.
        let (a, b) =
          In-long_cells geod start c (positions metre tile width) (positions metre tile height) i in
        elim g [
          | inl g ↦ positions-Gap metre tile thick some_metre width x g c.long_cell_pos a (inside.0)
          | inr g ↦ positions-Gap metre tile thick some_metre height y g c.lat_cell_pos b (inside.1)
        ];
  }

  -- The cells of a grid lie within the width and the height of the box, and every point of the box is
  -- in a cell or in the last metre of a tile before the next; these strips of a metre are in no
  -- cell, also where a tile ends with the box.
  pub set_grid_cells-IsCover :
      (bbox : Bounds Degree)
      → IsCover metre tile
          (derive_distance geod (derive_points bbox).upper_left (derive_points bbox).upper_right)
          (derive_distance geod (derive_points bbox).upper_left (derive_points bbox).lower_left)
          (set_grid_cells geod metre tile bbox)
  unfolding set_grid_cells
  set_grid_cells-IsCover bbox = covered (derive_points bbox).upper_left _ _

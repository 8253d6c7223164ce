-- ===== src/Executor/Grid.antt =====
-- `StacGrid` of stac.py: the tiles of a box. Lengths are whole numbers of a unit of which `metre` make
-- a metre; the geodesy is that of pyproj.
pub mod Strips
pub mod Cover
use openeo_argoworkflows.Base.{
  ℕ, zero, suc, ◌+◌, ◌-◌, ◌*◌, ◌/◌, Bool, List, [], ◌∷◌, ◌++◌, map, if◌then◌else◌, ltb,
}

-- The bounds of a box, over the numbers that stand for degrees.
pub record Bounds (Degree : Type 0) : Type 0 where
  pub minx : Degree
  pub miny : Degree
  pub maxx : Degree
  pub maxy : Degree

pub record GridCorners (Degree : Type 0) : Type 0 where
  pub lower_left : Degree × Degree
  pub lower_right : Degree × Degree
  pub upper_left : Degree × Degree
  pub upper_right : Degree × Degree

unfoldable pub derive_points : {Degree : Type 0} → Bounds Degree → GridCorners Degree
derive_points b = record {
  lower_left = (b.minx, b.miny);
  lower_right = (b.maxx, b.miny);
  upper_left = (b.minx, b.maxy);
  upper_right = (b.maxx, b.maxy);
}

-- `Geod.inv`, as the distance of two points, and `Geod.fwd`, as the point in a direction and at a
-- distance from another.
pub record Geod (Degree : Type 0) : Type 0 where
  pub inv : Degree × Degree → Degree × Degree → ℕ
  pub fwd : Degree × Degree → ℕ → ℕ → Degree × Degree

-- From where to where a cell reaches on one axis.
abbrev pub Range : Type 0
Range = ℕ × ℕ

pub record GridCell (Degree : Type 0) : Type 0 where
  pub long_cell_pos : Range
  pub lat_cell_pos : Range
  pub bounds : Bounds Degree

module _ {Degree : Type 0} (geod : Geod Degree) where
  unfoldable pub derive_distance : Degree × Degree → Degree × Degree → ℕ
  derive_distance = geod.inv

  -- The arguments of `box`, of which the second is the northern edge.
  unfoldable pub find_cell_bounds : Range → Range → Degree × Degree → Bounds Degree
  find_cell_bounds y_range x_range start =
      let west = geod.fwd start 90 y_range.0 in
      record {
        minx = west.0;
        miny = (geod.fwd west 180 x_range.0).1;
        maxx = (geod.fwd start 90 y_range.1).0;
        maxy = (geod.fwd west 180 x_range.1).1;
      }

-- The numbers from `k` on.
unfoldable pub range_from : ℕ → ℕ → List ℕ
range_from k zero = []
range_from k (suc n) = k ∷ range_from (suc k) n

-- `ceil(distance / tilesize)`, for a size that is not 0
unfoldable pub n_tiles : ℕ → ℕ → ℕ
n_tiles tilesize distance = (distance + (tilesize - 1)) / tilesize

-- A tile is at least a metre long.
unfoldable pub cell_pos : ℕ → ℕ → ℕ → ℕ → Range
cell_pos metre tilesize distance cell =
    if ltb distance ((cell + 1) * tilesize)
    then (cell * tilesize, distance)
    else (cell * tilesize, (cell + 1) * tilesize - metre)

unfoldable pub positions : ℕ → ℕ → ℕ → List Range
unfolding range_from n_tiles cell_pos
positions metre tilesize distance =
    map (cell_pos metre tilesize distance) (range_from 0 (n_tiles tilesize distance))

module _ {Degree : Type 0} (geod : Geod Degree) (start : Degree × Degree) where
  unfoldable pub lat_cells : Range → List Range → List (GridCell Degree)
  unfolding find_cell_bounds
  lat_cells long [] = []
  lat_cells long (lat ∷ lats) =
      record {
        long_cell_pos = long;
        lat_cell_pos = lat;
        bounds = find_cell_bounds geod long lat start;
      }
      ∷ lat_cells long lats

  unfoldable pub long_cells : List Range → List Range → List (GridCell Degree)
  unfolding lat_cells
  long_cells [] lats = []
  long_cells (long ∷ longs) lats = lat_cells long lats ++ long_cells longs lats

unfoldable pub set_grid_cells :
    {Degree : Type 0} → Geod Degree → ℕ → ℕ → Bounds Degree → List (GridCell Degree)
unfolding derive_points derive_distance positions long_cells
set_grid_cells geod metre tilesize bbox =
    let edges = derive_points bbox in
    long_cells geod edges.upper_left
      (positions metre tilesize (derive_distance geod edges.upper_left edges.upper_right))
      (positions metre tilesize (derive_distance geod edges.upper_left edges.lower_left))

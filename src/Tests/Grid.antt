-- ===== src/Tests/Grid.antt =====
-- A grid on a plane, with tiles of ten metres.
use openeo_argoworkflows.Base.{ℕ, ◌+◌, ◌-◌, ◌≡◌, refl, [], ◌∷◌, arith, if◌then◌else◌, ltb}
use openeo_argoworkflows.Executor.Grid.{
  Bounds, Geod, derive_points, derive_distance, n_tiles, range_from, cell_pos, positions,
  set_grid_cells,
}
use openeo_argoworkflows.Executor.Grid.Cover.{IsCover, set_grid_cells-IsCover}

-- Directions 90 and 180 lead to the east and to the south.
abbrev plane : Geod ℕ
plane = record {
  inv = λ p q. (q.0 - p.0) + (p.1 - q.1);
  fwd = λ p azimuth d. if ltb azimuth 180 then (p.0 + d, p.1) else (p.0, p.1 - d);
}

abbrev bbox : Bounds ℕ
bbox = record { minx = 100; miny = 100; maxx = 125; maxy = 120 }

widths : positions 1 10 25 ≡ (0, 9) ∷ (10, 19) ∷ (20, 25) ∷ []
unfolding positions n_tiles range_from cell_pos
widths = refl

-- A tile that ends with the box loses its last metre too.
heights : positions 1 10 20 ≡ (0, 9) ∷ (10, 19) ∷ []
unfolding positions n_tiles range_from cell_pos
heights = refl

set_grid_cells-IsCover_example : IsCover 1 10 25 20 (set_grid_cells plane 1 10 bbox)
unfolding derive_points derive_distance
set_grid_cells-IsCover_example = set_grid_cells-IsCover plane 1 10 (omega arith) (omega arith) bbox

-- ===== src/World/Status/Agreement.antt =====
-- The three queries of one cell, compared.
use volumetric_mapping.Common.{◌≡◌, Bool, Option, none, some, if◌then◌else◌, arith}
use volumetric_mapping.Outcome.{ok, ◌>>=◌}
use volumetric_mapping.Platform.{Platform, Vec3}
use volumetric_mapping.World.{OctomapWorld}
use volumetric_mapping.World.Status.{
  CellStatus, free, occupied, unknown, unknown_as, get_cell_status_point,
  get_cell_true_status_point, get_cell_probability_point,
}

-- What the parameter `treat_unknown_as_occupied` makes of a status.
abbrev pub treated : Bool → CellStatus → CellStatus
treated treat free = free
treated treat occupied = occupied
treated treat unknown = unknown_as treat

module _ ⦃p : Platform⦄ where
  open p use {Double, literal, neg, search_coord, occupancy}

  -- `getCellStatusPoint` gives what `getCellTrueStatusPoint` gives, with unknown replaced by the
  -- status that `treat_unknown_as_occupied` prescribes; without an octree both fail alike.
  get_cell_status_point-treated :
      (w : OctomapWorld) (point : Vec3 Double)
      → get_cell_status_point w point ≡ (
          get_cell_true_status_point w point >>= λ s.
          ok (treated w.params.treat_unknown_as_occupied s))
  unfolding get_cell_status_point get_cell_true_status_point
  get_cell_status_point-treated w point = ground arith

  -- The probability that belongs to a cell: -1 for one that is not in the map.
  abbrev pub cell_probability : Option p.Node → Double
  cell_probability none = neg (literal 1 0)
  cell_probability (some node) = occupancy node

  -- If the octree is there, `getCellProbabilityPoint` returns the status that
  -- `getCellTrueStatusPoint` returns and, if a probability is asked for, the occupancy of the node,
  -- or -1 for a cell that is not in the map.
  get_cell_probability_point-true_status :
      (wanted : Bool) (w : OctomapWorld) (t : p.Tree) (point : Vec3 Double)
      → w.octree ≡ some t
      → get_cell_probability_point wanted w point ≡ (
          get_cell_true_status_point w point >>= λ s.
          ok (s, (if wanted then some (cell_probability (search_coord t point)) else none)))
  unfolding get_cell_probability_point get_cell_true_status_point
  get_cell_probability_point-true_status wanted w t point here = ground arith

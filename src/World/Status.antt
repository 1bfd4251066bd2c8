-- ===== src/World/Status.antt =====
-- The state of single cells, and of the cells in a box (octomap_world/src/octomap_world.cc).
pub mod Agreement
use volumetric_mapping.Common.{Bool, Option, none, some, if◌then◌else◌}
use volumetric_mapping.Outcome.{Outcome, ok, ◌>>=◌}
use volumetric_mapping.Platform.{Platform, Vec3}
use volumetric_mapping.World.{OctomapWorld, tree_of}

-- `WorldBase::CellStatus`.
pub data CellStatus : Type 0 where
  free occupied unknown : CellStatus

abbrev pub is_free : CellStatus → Bool
is_free free = Bool.true
is_free _ = Bool.false

abbrev pub is_occupied : CellStatus → Bool
is_occupied occupied = Bool.true
is_occupied _ = Bool.false

-- What is returned for a cell that is not in the map.
abbrev pub unknown_as : Bool → CellStatus
unknown_as treat_unknown_as_occupied = if treat_unknown_as_occupied then occupied else unknown

module _ ⦃p : Platform⦄ where
  open p use {Double, Tree, Node, literal, neg, search_coord, is_node_occupied, occupancy}

  unfoldable pub get_cell_status_point : OctomapWorld → Vec3 Double → Outcome CellStatus
  get_cell_status_point w point = do
    t ← tree_of w
    elim (search_coord t point) [
      | none ↦ ok (unknown_as w.params.treat_unknown_as_occupied)
      | some node ↦ ok (if is_node_occupied t node then occupied else free)
    ]

  pub get_cell_true_status_point : OctomapWorld → Vec3 Double → Outcome CellStatus
  get_cell_true_status_point w point = do
    t ← tree_of w
    elim (search_coord t point) [
      | none ↦ ok unknown
      | some node ↦ ok (if is_node_occupied t node then occupied else free)
    ]

  -- With the value written to `*probability`, if the pointer is not null (`wanted`).
  pub get_cell_probability_point :
      Bool → OctomapWorld → Vec3 Double → Outcome (CellStatus × Option Double)
  get_cell_probability_point wanted w point = do
    t ← tree_of w
    elim (search_coord t point) [
      | none ↦ ok (unknown, (if wanted then some (neg (literal 1 0)) else none))
      | some node ↦
          let probability = if wanted then some (occupancy node) else none in
          ok ((if is_node_occupied t node then occupied else free), probability)
    ]

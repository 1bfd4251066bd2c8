-- ===== src/Tests/Queries.antt =====
-- The queries of `OctomapWorld` on the small map.
use volumetric_mapping.Common.{
  ◌≡◌, ◌≢◌, refl, ◌↔◌, true, false, none, some, [], ◌∷◌, map, All, arith,
}
use volumetric_mapping.Common.Int.{pos, ◌+ℤ◌, ◌-ℤ◌, ◌*ℤ◌, floor_div}
use volumetric_mapping.Loop.{for_return}
use volumetric_mapping.Outcome.{ok}
use volumetric_mapping.Platform.Flat.{flat, leaf_of}
use volumetric_mapping.KeySet.{key_eq}
use volumetric_mapping.World.Status.{free, occupied, get_cell_status_point}
use volumetric_mapping.World.Line.{keys_status, get_line_status, get_visibility}
use volumetric_mapping.World.Line.First.{
  FirstAt, get_line_status_first, get_visibility_free, blocks,
}
use volumetric_mapping.World.Speckle.{
  is_speckle_node, around, check_neighbor, occupied_at, is_outside, hits_obstacle, box_status,
  get_cell_status_bounding_box,
}
use volumetric_mapping.World.Speckle.Neighbors.{is_speckle_node_lem}
use volumetric_mapping.World.Speckle.Obstacles.{
  IsFound, obstructs, unfiltered, box_min, box_max, get_cell_status_bounding_box-unfiltered,
  get_cell_status_bounding_box_free,
}
use volumetric_mapping.World.Collision.{
  check_single_pose_collision, check_path_for_collisions_with_robot,
}
use volumetric_mapping.World.Collision.Earliest.{EarliestAt, check_path_earliest}
use volumetric_mapping.World.Boxes.{
  reserve, get_all_occupied_boxes, get_all_free_boxes, get_occupied_boxes_bounding_box,
  get_free_boxes_bounding_box,
}
use volumetric_mapping.World.Boxes.Partition.{IsSplit, leafs_inside, get_boxes-IsSplit}
use volumetric_mapping.Loop.{visited}
use volumetric_mapping.World.Line.{get_line_status_bounding_box, discretization}
use volumetric_mapping.World.Line.Swept.{Counts, IsFreeAt, get_line_status_bounding_box_free}
use volumetric_mapping.Common.{List, inl, inr}
use volumetric_mapping.Common.Int.{ℤ, negsuc}
use volumetric_mapping.Tests.Sample.{
  origin_key, next_key, tree, world, in_obstacle, in_free, small_box,
}

leafs-IsFound : All (IsFound tree) (map (leaf_of tree) tree.cells)
unfolding key_eq
leafs-IsFound = (
  record { found = refl; within = omega arith },
  (record { found = refl; within = omega arith }, tt),
)

get_cell_status_bounding_box_free_example :
    (get_cell_status_bounding_box 1 world in_free small_box ≡ ok free) ↔ (
      (get_cell_status_point world in_free ≡ ok free)
      × (flat.coord_to_key_checked tree in_free ≢ none)
      × All
          (λ leaf.
            obstructs tree (box_min in_free small_box) (box_max in_free small_box) leaf ≡ false)
          (map (leaf_of tree) tree.cells)
      × (flat.unknown_leaf_centers tree (box_min in_free small_box) (box_max in_free small_box)
          ≡ []))
get_cell_status_bounding_box_free_example =
    get_cell_status_bounding_box_free world tree refl in_free small_box 0 leafs-IsFound

get_cell_status_bounding_box-unfiltered_example :
    get_cell_status_bounding_box 1 world in_free small_box
    ≡ get_cell_status_bounding_box 0 (unfiltered world) in_free small_box
get_cell_status_bounding_box-unfiltered_example =
    get_cell_status_bounding_box-unfiltered world tree refl in_free small_box 0 0 leafs-IsFound

is_speckle_node_lem_example : is_speckle_node 4 tree next_key ≡ ok true
unfolding occupied_at key_eq
is_speckle_node_lem_example = is_speckle_node_lem 0 tree next_key (omega arith)

get_line_status_first_example : FirstAt true tree (origin_key ∷ []) occupied
unfolding get_line_status keys_status key_eq ◌+ℤ◌ floor_div
get_line_status_first_example =
    get_line_status_first world tree in_obstacle in_free occupied refl refl (λ e. cc)

get_visibility_free_example :
    (get_visibility world in_free in_obstacle false ≡ ok free)
    ↔ ((blocks false tree origin_key next_key ≡ free) × Unit {0})
unfolding ◌+ℤ◌ floor_div
get_visibility_free_example = get_visibility_free world tree in_free in_obstacle false refl

-- The obstacle is the second position of the path.
obstacle_second : EarliestAt 2 world 1 (in_free ∷ in_obstacle ∷ [])
unfolding check_single_pose_collision get_cell_status_bounding_box box_status hits_obstacle
    is_outside is_speckle_node around for_return check_neighbor get_cell_status_point occupied_at
    key_eq ◌+ℤ◌ ◌-ℤ◌ ◌*ℤ◌ floor_div
obstacle_second = record {
  position = in_obstacle;
  there = refl;
  hit = refl;
  clear_before = (refl, tt);
}

check_path_earliest_example :
    (check_path_for_collisions_with_robot 2 world true (in_free ∷ in_obstacle ∷ [])
      ≡ ok (true, some 1))
    ↔ EarliestAt 2 world 1 (in_free ∷ in_obstacle ∷ [])
check_path_earliest_example = check_path_earliest 2 world (in_free ∷ in_obstacle ∷ []) 1

get_boxes-IsSplit_example :
    IsSplit tree
      (leafs_inside tree in_obstacle small_box)
      (get_occupied_boxes_bounding_box world in_obstacle small_box)
      (get_free_boxes_bounding_box world in_obstacle small_box)
    × IsSplit tree (flat.leafs tree) (get_all_occupied_boxes world) (get_all_free_boxes world)
unfolding reserve ◌+ℤ◌ ◌-ℤ◌ ◌*ℤ◌ floor_div
get_boxes-IsSplit_example = get_boxes-IsSplit world tree in_obstacle small_box refl refl refl refl

abbrev offsets : List ℤ
offsets = negsuc 19 ∷ pos 20 ∷ []

two_steps : Counts 3 (pos 20) (pos 40) offsets
unfolding visited ◌+ℤ◌ ◌-ℤ◌
two_steps = ((inr (refl, inr (refl, inl refl))), refl)

get_line_status_bounding_box_free_example :
    (get_line_status_bounding_box 3 world in_free in_obstacle small_box ≡ ok free)
    ↔ All
        (λ x.
          All
            (λ y.
              All
                (λ z.
                  IsFreeAt world in_free in_obstacle 3 tree small_box offsets offsets offsets x y z)
                offsets)
            offsets)
        offsets
unfolding discretization ◌+ℤ◌ ◌-ℤ◌ ◌*ℤ◌ floor_div
get_line_status_bounding_box_free_example =
    get_line_status_bounding_box_free world in_free in_obstacle 3 tree small_box offsets offsets
      offsets refl two_steps two_steps two_steps

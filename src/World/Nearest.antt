-- ===== src/World/Nearest.antt =====
-- The search for a free point near a position (octomap_world/src/octomap_world.cc).
pub mod Inside
pub mod Minimal
pub mod Search
use volumetric_mapping.Common.{
  ℕ, zero, suc, Bool, true, false, ◌&&◌, Option, none, some, List, [], ◌∷◌, if◌then◌else◌,
}
use volumetric_mapping.Outcome.{Outcome, ok, fault, out_of_fuel, ◌>>=◌}
use volumetric_mapping.Platform.{Platform, Vec3}
use volumetric_mapping.Vector.{constant, two, epsilon}
use volumetric_mapping.World.{OctomapWorld, tree_of}
use volumetric_mapping.World.Status.{is_free, get_cell_status_point}
use volumetric_mapping.World.Region.{get_map_size}
use volumetric_mapping.World.Boxes.{Box, get_free_boxes_bounding_box}

abbrev pub is_empty {ℓ} : {A : Type ℓ} → List A → Bool
is_empty [] = true
is_empty (_ ∷ _) = false

-- `min_distance`, and `*free_position` if it has been written.
pub record Best (D : Type 0) : Type 0 where
  pub min_distance : D
  pub free_position : Option (Vec3 D)

module _ ⦃p : Platform⦄ where
  open p use {
    Double, lt, add, sub, div, neg, vadd, vsub, norm, max_coeff, cwise_min, cwise_max, resolution,
  }

  -- The loop that enlarges the box until it holds something free or exceeds the map. The result is
  -- `free_box_vector` and `bbx_size`.
  pub enlarge :
      ℕ
      → OctomapWorld
      → Vec3 Double
      → Double
      → Double
      → Double
      → List (Box Double)
      → Outcome (List (Box Double) × Double)
  enlarge zero w position step map_side bbx_size boxes = fault out_of_fuel
  enlarge (suc fuel) w position step map_side bbx_size boxes =
      let rest = get_free_boxes_bounding_box w position (constant bbx_size) >>= λ found.
      enlarge fuel w position step map_side (add bbx_size step) found in
      if is_empty boxes && lt bbx_size map_side then rest else ok (boxes, bbx_size)

  -- The point of a box nearest to a position, a little inside the box.
  pub nearest_in_box : Vec3 Double → Box Double → Vec3 Double
  nearest_in_box position (center, side) =
      let distance = vsub position center in
      let limited = cwise_min distance (constant (sub (div side two) epsilon)) in
      vadd center (cwise_max limited (constant (add (div (neg side) two) epsilon)))

  pub best_position : Vec3 Double → List (Box Double) → Best Double → Best Double
  best_position position [] best = best
  best_position position (box ∷ boxes) best =
      let nearest = nearest_in_box position box in
      let distance = norm (vsub position nearest) in
      best_position position boxes (
        if lt distance best.min_distance
        then record { min_distance = distance; free_position = some nearest }
        else best)

  -- What follows the search for free boxes.
  pub choose_nearest :
      Vec3 Double → List (Box Double) × Double → Outcome (Bool × Option (Vec3 Double))
  choose_nearest position (boxes, bbx_size) =
      let best =
        best_position position boxes (record { min_distance = bbx_size; free_position = none }) in
      if is_empty boxes then ok (false, none) else ok (true, best.free_position)

  -- The result, and `*free_position` if it has been written.
  pub get_nearest_free_point :
      ℕ → OctomapWorld → Vec3 Double → Outcome (Bool × Option (Vec3 Double))
  get_nearest_free_point fuel w position = do
    status ← get_cell_status_point w position
    t ← tree_of w
    size ← get_map_size w
    let side = max_coeff size
    let step = resolution t
    let searched = enlarge fuel w position step side step [] >>= choose_nearest position
    (if is_free status then ok (true, some position) else searched)

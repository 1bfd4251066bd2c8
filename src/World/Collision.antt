-- ===== src/World/Collision.antt =====
-- Collision checking with the robot as a box (octomap_world/src/octomap_world.cc).
pub mod Earliest
use volumetric_mapping.Common.{
  ℕ, ◌+◌, Bool, true, false, not, Option, none, some, List, [], ◌∷◌, if◌then◌else◌,
}
use volumetric_mapping.Outcome.{Outcome, ok, ◌>>=◌}
use volumetric_mapping.Platform.{Platform, Vec3}
use volumetric_mapping.World.{OctomapWorld}
use volumetric_mapping.World.Status.{is_free, is_occupied}
use volumetric_mapping.World.Speckle.{get_cell_status_bounding_box}

module _ ⦃p : Platform⦄ where
  open p use {Double}

  unfoldable pub check_single_pose_collision : ℕ → OctomapWorld → Vec3 Double → Outcome Bool
  check_single_pose_collision fuel w robot_position = do
    status ← get_cell_status_bounding_box fuel w robot_position w.robot_size
    ok (if w.params.treat_unknown_as_occupied then not (is_free status) else is_occupied status)

  unfoldable pub check_collision_with_robot : ℕ → OctomapWorld → Vec3 Double → Outcome Bool
  check_collision_with_robot fuel w robot_position =
      check_single_pose_collision fuel w robot_position

  -- The loop from the index `i`. `wanted` says whether `collision_index` is not null; the second
  -- part of the result is what is written there.
  pub check_path_from : ℕ → OctomapWorld → Bool → ℕ → List (Vec3 Double) → Outcome (Bool × Option ℕ)
  check_path_from fuel w wanted i [] = ok (false, none)
  check_path_from fuel w wanted i (robot_position ∷ more) = do
    let rest = check_path_from fuel w wanted (i + 1) more
    hit ← check_single_pose_collision fuel w robot_position
    (if hit then ok (true, (if wanted then some i else none)) else rest)

  pub check_path_for_collisions_with_robot :
      ℕ → OctomapWorld → Bool → List (Vec3 Double) → Outcome (Bool × Option ℕ)
  check_path_for_collisions_with_robot fuel w wanted robot_positions =
      check_path_from fuel w wanted 0 robot_positions

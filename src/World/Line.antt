-- ===== src/World/Line.antt =====
-- The state of the cells on a line, and on all lines of a swept box
-- (octomap_world/src/octomap_world.cc).
pub mod Swept
pub mod First
use volumetric_mapping.Common.{ℕ, Bool, not, Option, none, some, List, [], ◌∷◌, if◌then◌else◌}
use volumetric_mapping.Outcome.{Outcome, ok, ◌>>=◌}
use volumetric_mapping.Platform.{Platform, Vec3, Key}
use volumetric_mapping.Vector.{vec, epsilon, point_eigen_to_octomap}
use volumetric_mapping.KeySet.{key_eq}
use volumetric_mapping.Loop.{for_return}
use volumetric_mapping.World.{OctomapWorld, tree_of}
use volumetric_mapping.World.Status.{CellStatus, free, occupied, unknown, is_free, unknown_as}

module _ ⦃p : Platform⦄ where
  open p use {
    Double, Tree, literal, add, div, mul, neg, le, ceil, vadd, vscale, resolution, search,
    is_node_occupied, coord_to_key, compute_ray_keys,
  }

  -- The loop of `getLineStatus` over the keys of the ray.
  unfoldable pub keys_status : Bool → Tree → List Key → CellStatus
  keys_status treat t [] = free
  keys_status treat t (key ∷ keys) =
      let rest = keys_status treat t keys in
      elim (search t key) [
        | none ↦ unknown_as treat
        | some node ↦ if is_node_occupied t node then occupied else rest
      ]

  unfoldable pub get_line_status : OctomapWorld → Vec3 Double → Vec3 Double → Outcome CellStatus
  get_line_status w start end = do
    t ← tree_of w
    let ray = compute_ray_keys t (point_eigen_to_octomap start) (point_eigen_to_octomap end)
    ok (keys_status w.params.treat_unknown_as_occupied t ray.1)

  -- The loop of `getVisibility`, which passes over the key of the voxel to test.
  pub keys_visibility : Bool → Tree → Key → List Key → CellStatus
  keys_visibility stop t target [] = free
  keys_visibility stop t target (key ∷ keys) =
      let rest = keys_visibility stop t target keys in
      if not (key_eq key target)
      then (elim (search t key) [
        | none ↦ if stop then unknown else rest
        | some node ↦ if is_node_occupied t node then occupied else rest
      ])
      else rest

  pub get_visibility : OctomapWorld → Vec3 Double → Vec3 Double → Bool → Outcome CellStatus
  get_visibility w view_point voxel_to_test stop_at_unknown_cell = do
    t ← tree_of w
    let target = point_eigen_to_octomap voxel_to_test
    let ray = compute_ray_keys t (point_eigen_to_octomap view_point) target
    ok (keys_visibility stop_at_unknown_cell t (coord_to_key t target) ray.1)

  -- The distance of neighbouring lines in one direction, for a side of the box.
  unfoldable pub discretization : Double → Double → Double
  discretization resolution side =
      let disc = div side (ceil (div (add side epsilon) resolution)) in
      if le disc (literal 0 0) then literal 1 0 else disc

  -- The body of the innermost loop: a status that is not free is returned.
  pub check_offset :
      OctomapWorld → Vec3 Double → Vec3 Double → Vec3 Double → Outcome (Option CellStatus)
  check_offset w start end offset = do
    status ← get_line_status w (vadd start offset) (vadd end offset)
    ok (if not (is_free status) then some status else none)

  pub get_line_status_bounding_box :
      ℕ → OctomapWorld → Vec3 Double → Vec3 Double → Vec3 Double → Outcome CellStatus
  get_line_status_bounding_box fuel w start end bounding_box_size = do
    t ← tree_of w
    let x_disc = discretization (resolution t) bounding_box_size.x
    let y_disc = discretization (resolution t) bounding_box_size.y
    let z_disc = discretization (resolution t) bounding_box_size.z
    let half = vscale bounding_box_size (literal 5 1)
    found ←
        for_return fuel (λ x. le x half.x) (λ x. add x x_disc)
          (λ x.
            for_return fuel (λ y. le y half.y) (λ y. add y y_disc)
              (λ y.
                for_return fuel (λ z. le z half.z) (λ z. add z z_disc)
                  (λ z. check_offset w start end (vec x y z)) (neg half.z))
              (neg half.y))
          (neg half.x)
    ok (elim found [ some status ↦ status | none ↦ free ])

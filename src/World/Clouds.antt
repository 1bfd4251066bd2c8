-- ===== src/World/Clouds.antt =====
-- The occupied cells as point clouds (octomap_world/src/octomap_world.cc). A point of a cloud holds
-- floats.
pub mod Filled
use volumetric_mapping.Common.{ℕ, ◌-◌, ◌^◌, Bool, false, List, [], ◌∷◌, ◌++◌, ◌==◌, if◌then◌else◌}
use volumetric_mapping.Outcome.{Outcome, ok, ◌>>=◌}
use volumetric_mapping.Platform.{Platform, Vec3, Leaf}
use volumetric_mapping.Vector.{vec, constant, two, epsilon, point_eigen_to_octomap}
use volumetric_mapping.Loop.{grid}
use volumetric_mapping.World.{BoundHandling, default, OctomapWorld, tree_of}
use volumetric_mapping.World.Region.{adjust_bounding_box}
use volumetric_mapping.World.Speckle.{occupied_at}

module _ ⦃p : Platform⦄ where
  open p use {
    Double, Tree, Node, of_ℕ, add, sub, mul, div, floor, vadd, vsub, resolution, leafs, tree_depth,
    is_node_occupied, coord_to_key,
  }

  -- `pcl::PointXYZ(x, y, z)`.
  pub cloud_points : List (Vec3 Double) → List (Vec3 Double)
  cloud_points [] = []
  cloud_points (v ∷ vs) = point_eigen_to_octomap v ∷ cloud_points vs

  -- The points of one occupied leaf: its center, or a grid that fills a larger cube.
  unfoldable pub leaf_points : ℕ → Tree → Leaf Double Node → Outcome (List (Vec3 Double))
  leaf_points fuel t leaf =
      let box_edge_length = of_ℕ (2 ^ (tree_depth t - leaf.depth - 1)) in
      let offset = sub (mul box_edge_length (resolution t)) (div (resolution t) two) in
      let bbx_min = vsub leaf.center (constant offset) in
      let bbx_max = vadd (vadd leaf.center (constant offset)) (constant epsilon) in
      let filled = grid fuel bbx_min bbx_max (resolution t) >>= λ vs. ok (cloud_points vs) in
      if tree_depth t == leaf.depth then ok (point_eigen_to_octomap leaf.center ∷ []) else filled

  unfoldable pub occupied_points : ℕ → Tree → List (Leaf Double Node) → Outcome (List (Vec3 Double))
  occupied_points fuel t [] = ok []
  occupied_points fuel t (leaf ∷ more) = do
    points ← (if is_node_occupied t leaf.node then leaf_points fuel t leaf else ok [])
    rest ← occupied_points fuel t more
    ok (points ++ rest)

  unfoldable pub get_occupied_point_cloud : ℕ → OctomapWorld → Outcome (List (Vec3 Double))
  get_occupied_point_cloud fuel w = do t ← tree_of w; occupied_points fuel t (leafs t)

  -- The positions of the three loops whose cell is occupied.
  unfoldable pub occupied_positions : Tree → List (Vec3 Double) → List (Vec3 Double)
  occupied_positions t [] = []
  occupied_positions t (v ∷ vs) =
      let point = point_eigen_to_octomap v in
      let rest = occupied_positions t vs in
      if occupied_at t (coord_to_key t point) then point ∷ rest else rest

  -- The center of the cell that a coordinate lies in.
  unfoldable pub correct : Double → Double → Double
  correct resolution a = add (mul resolution (floor (div a resolution))) (div resolution two)

  unfoldable pub is_default : BoundHandling → Bool
  is_default default = Bool.true
  is_default _ = false

  unfoldable pub get_occupied_pointcloud_in_bounding_box :
      ℕ → OctomapWorld → Vec3 Double → Vec3 Double → BoundHandling → Outcome (List (Vec3 Double))
  get_occupied_pointcloud_in_bounding_box fuel w center size method = do
    t ← tree_of w
    let r = resolution t
    let corrected = vec (correct r center.x) (correct r center.y) (correct r center.z)
    let box = adjust_bounding_box t (if is_default method then corrected else center) size method
    positions ← grid fuel box.0 box.1 r
    ok (occupied_positions t positions)

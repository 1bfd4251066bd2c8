-- ===== src/World/Insert.antt =====
-- Building up the map from sensor data (octomap_world/src/octomap_world.cc).
pub mod Measurement
pub mod Update
pub mod Rays
pub mod Unordered
use volumetric_mapping.Common.{
  Bool, true, false, not, ◌&&◌, ◌||◌, Option, none, some, List, [], ◌∷◌, if◌then◌else◌,
}
use volumetric_mapping.Outcome.{Outcome, ok, ◌>>=◌}
use volumetric_mapping.Platform.{Platform, Vec3, Key}
use volumetric_mapping.Vector.{constant, point_eigen_to_octomap}
use volumetric_mapping.KeySet.{KeySet, contains, insert, insert_all, erase}
use volumetric_mapping.World.{OctomapParameters, OctomapWorld, tree_of, with_tree}

-- The sets of keys that the insertion of one measurement collects.
pub record Cells : Type 0 where
  pub free_cells : KeySet
  pub occupied_cells : KeySet

abbrev pub no_cells : Cells
no_cells = record { free_cells = []; occupied_cells = [] }

module _ ⦃p : Platform⦄ where
  open p use {
    Double, Tree, Transformation, literal, lt, le, eq, sub, is_inf, coord_to_key,
    coord_to_key_checked, key_to_coord, compute_ray_keys, update_node, update_inner_occupancy,
    point_add, point_sub, point_scale, point_norm, point_normalized, position, transform,
    remove_nan, transform_cloud,
  }

  -- `voxel.z() > origin.z() - min_height_free_space`, or the voxel is near the sensor.
  unfoldable pub is_free_space : OctomapParameters Double → Tree → Vec3 Double → Key → Bool
  is_free_space params t origin key =
      let voxel = key_to_coord t key in
      lt (point_norm (point_sub voxel origin)) params.max_free_space
      || lt (sub origin.z params.min_height_free_space) voxel.z

  pub insert_free_space : OctomapParameters Double → Tree → Vec3 Double → List Key → KeySet → KeySet
  insert_free_space params t origin [] s = s
  insert_free_space params t origin (k ∷ ks) s =
      insert_free_space params t origin ks
        (if is_free_space params t origin k then insert k s else s)

  -- The free cells on the ray from the sensor to a point.
  pub free_ray : OctomapParameters Double → Tree → Vec3 Double → Vec3 Double → KeySet → KeySet
  free_ray params t origin end s =
      let ray = compute_ray_keys t origin end in
      if ray.0
      then (if eq params.max_free_space (literal 0 0)
          then insert_all ray.1 s
          else insert_free_space params t origin ray.1 s)
      else s

  unfoldable pub is_in_range : OctomapParameters Double → Vec3 Double → Vec3 Double → Bool
  is_in_range params origin point =
      lt params.sensor_max_range (literal 0 0)
      || le (point_norm (point_sub point origin)) params.sensor_max_range

  -- `insert` of the key of the end point, if the point has one.
  unfoldable pub insert_checked : Option Key → KeySet → KeySet
  insert_checked none s = s
  insert_checked (some key) s = insert key s

  -- The end of a ray that is cut to the range of the sensor.
  unfoldable pub short_end : OctomapParameters Double → Vec3 Double → Vec3 Double → Vec3 Double
  short_end params origin point =
      let direction = point_normalized (point_sub point origin) in
      point_add origin (point_scale direction params.sensor_max_range)

  pub cast_ray : OctomapParameters Double → Tree → Vec3 Double → Vec3 Double → Cells → Cells
  cast_ray params t origin point cells =
      if is_in_range params origin point
      then record {
        free_cells = free_ray params t origin point cells.free_cells;
        occupied_cells = insert_checked (coord_to_key_checked t point) cells.occupied_cells;
      }
      else record cells {
        free_cells = free_ray params t origin (short_end params origin point) cells.free_cells;
      }

  -- `*z == 10000.0f` marks a missing disparity.
  unfoldable pub is_valid_point : Vec3 Double → Bool
  is_valid_point point = not (eq point.z (literal 10000 0)) && not (is_inf point.z)

  -- The first loop: occupied cells are marked, and taken out of the free cells.
  pub mark_occupied : KeySet → KeySet × Tree → KeySet × Tree
  mark_occupied [] (free, t) = (free, t)
  mark_occupied (k ∷ ks) (free, t) =
      mark_occupied ks ((if contains free k then erase k free else free), update_node k true t)

  -- The second loop.
  pub mark_free : KeySet → Tree → Tree
  mark_free [] t = t
  mark_free (k ∷ ks) t = mark_free ks (update_node k false t)

  -- The result is `*free_cells`, which the code changes, and the tree.
  pub update_occupancy : Cells → Tree → KeySet × Tree
  update_occupancy cells t =
      let (left, marked) = mark_occupied cells.occupied_cells (cells.free_cells, t) in
      (left, update_inner_occupancy (mark_free left marked))

  -- The loop over the points. A point whose key is occupied already casts no ray.
  pub cast_rays : OctomapParameters Double → Tree → Vec3 Double → List (Vec3 Double) → Cells → Cells
  cast_rays params t origin [] cells = cells
  cast_rays params t origin (point ∷ points) cells = cast_rays params t origin points (
      if not (contains cells.occupied_cells (coord_to_key t point))
      then cast_ray params t origin point cells
      else cells)

  unfoldable pub insert_pointcloud_into_map_impl :
      Transformation → List (Vec3 Double) → OctomapWorld → Outcome OctomapWorld
  insert_pointcloud_into_map_impl T_G_sensor cloud w = do
    t ← tree_of w
    let points = transform_cloud T_G_sensor (remove_nan cloud)
    let origin = point_eigen_to_octomap (position T_G_sensor)
    let cells = cast_rays w.params t origin points no_cells
    ok (with_tree w (update_occupancy cells t).1)

  -- The points of an image, row by row, that are valid and not behind the camera, in the world.
  unfoldable pub disparity_points : Transformation → List (Vec3 Double) → List (Vec3 Double)
  disparity_points sensor_to_world [] = []
  disparity_points sensor_to_world (v ∷ vs) =
      let rest = disparity_points sensor_to_world vs in
      if not (is_valid_point v) || lt v.z (literal 0 0)
      then rest
      else point_eigen_to_octomap (transform sensor_to_world v) ∷ rest

  unfoldable pub insert_projected_disparity_into_map_impl :
      Transformation → List (Vec3 Double) → OctomapWorld → Outcome OctomapWorld
  insert_projected_disparity_into_map_impl sensor_to_world projected_points w = do
    t ← tree_of w
    let zero = constant (literal 0 0)
    let origin = point_eigen_to_octomap (transform sensor_to_world zero)
    let points = disparity_points sensor_to_world projected_points
    let cells = cast_rays w.params t origin points no_cells
    ok (with_tree w (update_occupancy cells t).1)

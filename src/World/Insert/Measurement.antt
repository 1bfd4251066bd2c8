-- ===== src/World/Insert/Measurement.antt =====
-- A point cloud or a disparity image as a change of the map of cells.
use volumetric_mapping.Common.{◌≡◌, Bool, some, List, if◌then◌else◌, arith}
use volumetric_mapping.Outcome.{Outcome, ok}
use volumetric_mapping.Platform.{Platform, Vec3, Key}
use volumetric_mapping.Platform.CellMap.{CellMap}
use volumetric_mapping.Vector.{constant, point_eigen_to_octomap}
use volumetric_mapping.KeySet.{contains, contains-nil}
use volumetric_mapping.World.{OctomapWorld, with_tree}
use volumetric_mapping.World.Insert.{
  Cells, no_cells, cast_rays, update_occupancy, insert_pointcloud_into_map_impl, disparity_points,
  insert_projected_disparity_into_map_impl,
}
use volumetric_mapping.World.Insert.Update.{update_occupancy-value}
use volumetric_mapping.World.Insert.Rays.{ends_at, cast_rays-IsValid, cast_rays-occupied}

module _ ⦃p : Platform⦄ (m : CellMap) (w : OctomapWorld) (t : p.Tree) where
  open p use {Double, Tree, Transformation, coord_to_key, coord_to_key_checked, literal}
  open m use {value, integrate}

  abbrev pub rays : Vec3 Double → List (Vec3 Double) → Cells
  rays origin points = cast_rays w.params t origin points no_cells

  -- The cells of the points in range had one hit, the other cells on the rays one miss.
  abbrev pub Measured : Vec3 Double → List (Vec3 Double) → Outcome OctomapWorld → Type 0
  Measured origin points outcome =
      (t' : Tree) × (outcome ≡ ok (with_tree w t'))
      × ((j : Key)
          → value t' j ≡ (
              if ends_at w.params t origin points j
              then some (integrate t Bool.true (value t j))
              else (if contains (rays origin points).free_cells j
                  then some (integrate t Bool.false (value t j))
                  else value t j)))

  module _ (here : w.octree ≡ some t)
      (agree : (v : Vec3 Double) (k : Key)
        → coord_to_key_checked t v ≡ some k
        → coord_to_key t v ≡ k) where
    rays-value :
        (origin : Vec3 Double) (points : List (Vec3 Double)) (j : Key)
        → value (update_occupancy (rays origin points) t).1 j ≡ (
            if ends_at w.params t origin points j
            then some (integrate t Bool.true (value t j))
            else (if contains (rays origin points).free_cells j
                then some (integrate t Bool.false (value t j))
                else value t j))
    rays-value origin points j =
        let cells = rays origin points in
        let valid =
          cast_rays-IsValid w.params t origin points no_cells
            (record { free_valid = tt; occupied_valid = tt }) in
        ground (
          arith,
          update_occupancy-value m cells t j valid.free_valid valid.occupied_valid,
          contains-nil j,
          cast_rays-occupied w.params t origin agree points no_cells j,
        )

    -- If the octree is there, is a map of cells as documented, and has checked keys that agree with
    -- the unchecked ones, then `insertPointcloudIntoMapImpl` succeeds and changes only the octree:
    -- the cell of each transformed point within the range of the sensor has exactly one hit, each
    -- other cell that the rays found free exactly one miss, and every other cell is as before.
    pub insert_pointcloud_into_map_impl-Measured :
        (T_G_sensor : Transformation) (cloud : List (Vec3 Double))
        → Measured
            (point_eigen_to_octomap (p.position T_G_sensor))
            (p.transform_cloud T_G_sensor (p.remove_nan cloud))
            (insert_pointcloud_into_map_impl T_G_sensor cloud w)
    unfolding insert_pointcloud_into_map_impl
    insert_pointcloud_into_map_impl-Measured T_G_sensor cloud =
        let origin = point_eigen_to_octomap (p.position T_G_sensor) in
        let points = p.transform_cloud T_G_sensor (p.remove_nan cloud) in
        (
          (update_occupancy (rays origin points) t).1,
          ground (arith, here),
          rays-value origin points,
        )

    -- If the octree is there, is a map of cells as documented, and has checked keys that agree with
    -- the unchecked ones, then `insertProjectedDisparityIntoMapImpl` succeeds and changes only the
    -- octree: the cell of each valid point within the range of the sensor has exactly one hit, each
    -- other cell that the rays found free exactly one miss, and every other cell is as before.
    pub insert_projected_disparity_into_map_impl-Measured :
        (T : Transformation) (points : List (Vec3 Double))
        → Measured
            (point_eigen_to_octomap (p.transform T (constant (literal 0 0))))
            (disparity_points T points)
            (insert_projected_disparity_into_map_impl T points w)
    unfolding insert_projected_disparity_into_map_impl
    insert_projected_disparity_into_map_impl-Measured T points =
        let origin = point_eigen_to_octomap (p.transform T (constant (literal 0 0))) in
        let seen = disparity_points T points in
        ((update_occupancy (rays origin seen) t).1, ground (arith, here), rays-value origin seen)

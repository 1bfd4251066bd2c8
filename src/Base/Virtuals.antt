-- ===== src/Base/Virtuals.antt =====
-- The virtual functions of `class WorldBase`, which a caller reaches by a pointer to the base class:
-- the bodies of the base class, an empty world
-- (volumetric_map_base/include/volumetric_map_base/world_base.h), and those of `OctomapWorld`
-- (octomap_world/include/octomap_world/octomap_world.h).
pub mod Paths
use volumetric_mapping.Common.{ℕ, Bool, false, Option, none, List, []}
use volumetric_mapping.Outcome.{Outcome, ok}
use volumetric_mapping.Platform.{Platform, Vec3}
use volumetric_mapping.Vector.{vec, constant}
use volumetric_mapping.World.{OctomapWorld}
use volumetric_mapping.World.Setup.{set_robot_size, get_robot_size}
use volumetric_mapping.World.Status.{CellStatus, free, get_cell_status_point}
use volumetric_mapping.World.Speckle.{get_cell_status_bounding_box}
use volumetric_mapping.World.Line.{get_line_status, get_line_status_bounding_box}
use volumetric_mapping.World.Collision.{
  check_collision_with_robot, check_path_for_collisions_with_robot,
}
use volumetric_mapping.World.Clouds.{get_occupied_point_cloud}
use volumetric_mapping.World.Region.{get_map_center, get_map_size, get_map_bounds}
use volumetric_mapping.World.Insert.{
  insert_pointcloud_into_map_impl, insert_projected_disparity_into_map_impl,
}
use volumetric_mapping.Base.{
  insert_pointcloud_into_map_with_weights_impl,
  insert_projected_disparity_into_map_with_weights_impl,
}

module _ ⦃p : Platform⦄ where
  open p use {Double, Transformation, literal, max_double, min_double}

  -- The points that a function puts into a cloud are its result.
  pub record Virtuals (W : Type 0) : Type 0 where
    pub set_free : Vec3 Double → Vec3 Double → W → Outcome W
    pub set_occupied : Vec3 Double → Vec3 Double → W → Outcome W
    pub cell_status_bounding_box : W → Vec3 Double → Vec3 Double → Outcome CellStatus
    pub cell_status_point : W → Vec3 Double → Outcome CellStatus
    pub line_status : W → Vec3 Double → Vec3 Double → Outcome CellStatus
    pub line_status_bounding_box : W → Vec3 Double → Vec3 Double → Vec3 Double → Outcome CellStatus
    pub occupied_point_cloud : W → Outcome (List (Vec3 Double))
    pub occupied_pointcloud_in_bounding_box :
        W → Vec3 Double → Vec3 Double → Outcome (List (Vec3 Double))
    pub set_robot_size : Vec3 Double → W → W
    pub robot_size : W → Vec3 Double
    pub check_collision_with_robot : W → Vec3 Double → Outcome Bool
    pub check_path_for_collisions_with_robot :
        W → Bool → List (Vec3 Double) → Outcome (Bool × Option ℕ)
    pub map_center : W → Outcome (Vec3 Double)
    pub map_size : W → Outcome (Vec3 Double)
    pub map_bounds : W → Outcome (Vec3 Double × Vec3 Double)
    pub insert_projected_disparity : Transformation → List (Vec3 Double) → W → Outcome W
    pub insert_projected_disparity_with_weights :
        Transformation → List (Vec3 Double) → List (List Double) → W → Outcome W
    pub insert_pointcloud : Transformation → List (Vec3 Double) → W → Outcome W
    pub insert_pointcloud_with_weights :
        Transformation → List (Vec3 Double) → List Double → W → Outcome W

  -- A class that overrides nothing.
  pub world_base : {W : Type 0} → Virtuals W
  world_base = record {
    set_free = λ position bounding_box_size w. ok w;
    set_occupied = λ position bounding_box_size w. ok w;
    cell_status_bounding_box = λ w point bounding_box_size. ok free;
    cell_status_point = λ w point. ok free;
    line_status = λ w start end. ok free;
    line_status_bounding_box = λ w start end bounding_box_size. ok free;
    occupied_point_cloud = λ w. ok [];
    occupied_pointcloud_in_bounding_box = λ w center bounding_box_size. ok [];
    set_robot_size = λ robot_size w. w;
    robot_size = λ w. constant (literal 0 0);
    check_collision_with_robot = λ w robot_position. ok false;
    check_path_for_collisions_with_robot = λ w wanted robot_positions. ok (false, none);
    map_center = λ w. ok (constant (literal 0 0));
    map_size = λ w. ok (constant max_double);
    map_bounds = λ w. ok (constant min_double, constant max_double);
    insert_projected_disparity = λ sensor_to_world projected_points w. ok w;
    insert_projected_disparity_with_weights = λ sensor_to_world projected_points weights w. ok w;
    insert_pointcloud = λ T_G_sensor pointcloud_sensor w. ok w;
    insert_pointcloud_with_weights = λ sensor_to_world pointcloud weights w. ok w;
  }

  -- `OctomapWorld` declares setFree, setOccupied and getOccupiedPointcloudInBoundingBox with one
  -- more parameter, so these do not override the functions of the base class.
  pub octomap_world : ℕ → Virtuals OctomapWorld
  octomap_world fuel =
      let base = world_base {W = OctomapWorld} in
      record base {
        cell_status_bounding_box = get_cell_status_bounding_box fuel;
        cell_status_point = get_cell_status_point;
        line_status = get_line_status;
        line_status_bounding_box = get_line_status_bounding_box fuel;
        occupied_point_cloud = get_occupied_point_cloud fuel;
        set_robot_size = set_robot_size;
        robot_size = get_robot_size;
        check_collision_with_robot = check_collision_with_robot fuel;
        check_path_for_collisions_with_robot = check_path_for_collisions_with_robot fuel;
        map_center = get_map_center;
        map_size = get_map_size;
        map_bounds = get_map_bounds;
        insert_projected_disparity = insert_projected_disparity_into_map_impl;
        insert_projected_disparity_with_weights =
            insert_projected_disparity_into_map_with_weights_impl;
        insert_pointcloud = insert_pointcloud_into_map_impl;
        insert_pointcloud_with_weights = insert_pointcloud_into_map_with_weights_impl;
      }

  -- `setRobotSize(x, y, z)`, which calls the other virtual function.
  unfoldable set_robot_size_xyz : {W : Type 0} → Virtuals W → Double → Double → Double → W → W
  set_robot_size_xyz v x y z w = v.set_robot_size (vec x y z) w

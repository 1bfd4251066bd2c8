-- ===== src/World.antt =====
-- `class OctomapWorld` of octomap_world/include/octomap_world/octomap_world.h: its parameters and
-- its state. The member `key_ray_` is cleared before each use, so it is a local value here.
pub mod Present
pub mod Setup
pub mod Status
pub mod Line
pub mod Speckle
pub mod Region
pub mod Insert
pub mod Boxes
pub mod Clouds
pub mod Collision
pub mod Changes
pub mod Nearest
pub mod Markers
pub mod Inflate
use volumetric_mapping.Common.{Bool, true, false, Option, some}
use volumetric_mapping.Outcome.{Outcome, or_fault, null_octree}
use volumetric_mapping.Platform.{Platform, Vec3}

-- `enum BoundHandling`.
pub data BoundHandling : Type 0 where
  default include_partial_boxes ignore_partial_boxes : BoundHandling

pub record OctomapParameters (D : Type 0) : Type 0 where
  pub resolution : D
  pub probability_hit : D
  pub probability_miss : D
  pub threshold_min : D
  pub threshold_max : D
  pub threshold_occupancy : D
  pub filter_speckles : Bool
  pub max_free_space : D
  pub min_height_free_space : D
  pub sensor_max_range : D
  pub visualize_min_z : D
  pub visualize_max_z : D
  pub treat_unknown_as_occupied : Bool
  pub change_detection_enabled : Bool

module _ ⦃p : Platform⦄ where
  open p use {Double, Tree, literal, neg, max_double}

  abbrev pub default_parameters : OctomapParameters Double
  default_parameters = record {
    resolution = literal 15 2;
    probability_hit = literal 65 2;
    probability_miss = literal 4 1;
    threshold_min = literal 12 2;
    threshold_max = literal 97 2;
    threshold_occupancy = literal 7 1;
    filter_speckles = true;
    max_free_space = literal 0 0;
    min_height_free_space = literal 0 0;
    sensor_max_range = literal 5 0;
    visualize_min_z = neg max_double;
    visualize_max_z = max_double;
    treat_unknown_as_occupied = true;
    change_detection_enabled = false;
  }

  -- `octree_` is a `shared_ptr`, and empty in an object that is being built.
  pub record OctomapWorld : Type 0 where
    pub octree : Option Tree
    pub params : OctomapParameters Double
    pub robot_size : Vec3 Double

  -- `octree_->`.
  abbrev pub tree_of : OctomapWorld → Outcome Tree
  tree_of w = or_fault null_octree w.octree

  abbrev pub with_tree : OctomapWorld → Tree → OctomapWorld
  with_tree w t = record w { octree = some t }

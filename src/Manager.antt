-- ===== src/Manager.antt =====
-- `class OctomapManager` of octomap_world/include/octomap_world/octomap_manager.h: its state. A frame
-- is named by a text, and a point in time is a number of nanoseconds.
pub mod Node
pub mod Transforms
pub mod Camera
pub mod Settings
pub mod Publish
pub mod Services
use Prim.Native.String.{String}
use volumetric_mapping.Common.{ℕ, Bool, Option, List}
use volumetric_mapping.Platform.{Platform}
use volumetric_mapping.Base.{Map, Matrix4}

-- The fields of `sensor_msgs::CameraInfo` that the code reads itself; `model` stands for the others,
-- which `image_geometry` reads.
pub record CameraInfo (M : Type 0) : Type 0 where
  pub width : ℕ
  pub height : ℕ
  pub model : M

module _ ⦃p : Platform⦄ where
  open p use {Double, Transformation}

  -- `geometry_msgs::TransformStamped`: the time stamp of its header and the transform.
  pub record Stamped : Type 0 where
    pub stamp : ℕ
    pub transform : Transformation

  -- Q, and the members that say whether and how it is known.
  pub record CameraState (M : Type 0) : Type 0 where
    pub left_info : Option (CameraInfo M)
    pub right_info : Option (CameraInfo M)
    pub q_initialized : Bool
    pub q : Matrix4 Double
    pub full_image_width : Double
    pub full_image_height : Double

  -- The members for transforms that come as messages.
  pub record TransformQueue : Type 0 where
    pub timestamp_tolerance_ns : ℕ
    pub transform_queue : List Stamped
    pub t_b_c : Transformation
    pub t_b_d : Transformation

  pub record OctomapManager (M : Type 0) : Type 0 where
    pub map : Map
    pub camera : CameraState M
    pub transforms : TransformQueue
    pub world_frame : String
    pub robot_frame : String
    pub use_tf_transforms : Bool
    pub latch_topics : Bool
    pub map_publish_frequency : Double

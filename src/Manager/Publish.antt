-- ===== src/Manager/Publish.antt =====
-- `publishAll` (octomap_world/src/octomap_manager.cc): what is sent, on which topics, in order.
pub mod Messages
use Prim.Native.String.{String}
use volumetric_mapping.Common.{
  ℕ, Bool, ◌&&◌, ◌||◌, none, some, List, [], ◌∷◌, ◌++◌, ltb, if◌then◌else◌,
}
use volumetric_mapping.Outcome.{Outcome, ok, ◌>>=◌}
use volumetric_mapping.Platform.{Platform, Vec3}
use volumetric_mapping.World.{default}
use volumetric_mapping.World.Setup.{get_octomap_binary_msg}
use volumetric_mapping.World.Clouds.{
  get_occupied_point_cloud, get_occupied_pointcloud_in_bounding_box,
}
use volumetric_mapping.World.Markers.{Marker, generate_marker_array}
use volumetric_mapping.Manager.{OctomapManager}
use volumetric_mapping.Manager.Transforms.{Tf, lookup_transform_tf}

-- The publishers.
pub data Topic : Type 0 where
  occupied_nodes free_nodes binary_map full_map pcl nearest_obstacle : Topic

module _ ⦃p : Platform⦄ where
  open p use {Double, Message, position}

  pub data Payload : Type 0 where
    markers : List (Marker Double) → Payload
    octomap : Message → Payload
    cloud : List (Vec3 Double) → Payload

  -- A message with the frame of its header.
  pub record Publication : Type 0 where
    pub topic : Topic
    pub frame_id : String
    pub payload : Payload

  abbrev pub publication : Topic → String → Payload → Publication
  publication t f c = record { topic = t; frame_id = f; payload = c }

  -- The numbers of subscribers.
  abbrev pub has_subscribers : (Topic → ℕ) → Topic → Bool
  has_subscribers subscribers t = ltb 0 (subscribers t)

  module _ {M : Type 0} (fuel : ℕ) (tf : Tf) (subscribers : Topic → ℕ) where
    -- The markers. Making them prunes the tree.
    unfoldable pub publish_markers :
        OctomapManager M → Outcome (OctomapManager M × List Publication)
    publish_markers m = do
      let wanted =
          m.latch_topics
          || has_subscribers subscribers occupied_nodes
          || has_subscribers subscribers free_nodes
      let map = m.map
      let sent = generate_marker_array m.world_frame ([], []) map.world >>= λ r. ok (
        record m { map = record map { world = r.0 } },
        publication occupied_nodes m.world_frame (markers r.1.0)
            ∷ publication free_nodes m.world_frame (markers r.1.1)
            ∷ [],
      )
      (if wanted then sent else ok (m, []))

    -- Either map message. The source calls `getOctomapBinaryMsg` for both.
    unfoldable pub publish_map : Topic → OctomapManager M → Outcome (List Publication)
    publish_map topic m = do
      let sent = get_octomap_binary_msg m.map.world >>= λ r.
          ok (publication topic m.world_frame (octomap r.1) ∷ [])
      (if m.latch_topics || has_subscribers subscribers topic then sent else ok [])

    unfoldable pub publish_cloud : OctomapManager M → Outcome (List Publication)
    publish_cloud m = do
      let sent = get_occupied_point_cloud fuel m.map.world >>= λ points.
          ok (publication pcl m.world_frame (cloud points) ∷ [])
      (if m.latch_topics || has_subscribers subscribers pcl then sent else ok [])

    -- The obstacles near the robot, if its pose is known.
    unfoldable pub publish_nearest_obstacle : OctomapManager M → Outcome (List Publication)
    publish_nearest_obstacle m = do
      let w = m.map.world
      let sent : Outcome (List Publication) =
          elim (lookup_transform_tf tf m.robot_frame m.world_frame tf.now) [
            | none ↦ ok []
            | some robot_to_world ↦
                get_occupied_pointcloud_in_bounding_box fuel w (position robot_to_world)
                  w.robot_size default
                >>= λ points. ok (publication nearest_obstacle m.world_frame (cloud points) ∷ [])
          ]
      let wanted = m.use_tf_transforms && has_subscribers subscribers nearest_obstacle
      (if wanted then sent else ok [])

    unfoldable pub publish_all : OctomapManager M → Outcome (OctomapManager M × List Publication)
    publish_all m = do
      r ← publish_markers m
      binary ← publish_map binary_map r.0
      full ← publish_map full_map r.0
      points ← publish_cloud r.0
      nearest ← publish_nearest_obstacle r.0
      ok (r.0, r.1 ++ (binary ++ (full ++ (points ++ nearest))))

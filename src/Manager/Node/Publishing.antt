-- ===== src/Manager/Node/Publishing.antt =====
-- The octree during `publishAll` (octomap_world/src/octomap_manager.cc).
use volumetric_mapping.Common.{ℕ, ◌&&◌, ◌||◌, [], Option-cases, inl, inr}
use volumetric_mapping.Outcome.{Outcome}
use volumetric_mapping.Outcome.Holds.{Holds, Fine, >>=-Holds, >>=-Fine, if-Holds}
use volumetric_mapping.Platform.{Platform}
use volumetric_mapping.World.{OctomapWorld, default}
use volumetric_mapping.World.Present.{HasOctree}
use volumetric_mapping.World.Present.Operations.{
  LeafDepths, generate_marker_array-HasOctree, get_occupied_point_cloud-Fine,
  get_occupied_pointcloud_in_bounding_box-Fine, get_octomap_binary_msg-Fine,
}
use volumetric_mapping.World.Setup.{get_octomap_binary_msg}
use volumetric_mapping.World.Markers.{MarkerArrays, generate_marker_array}
use volumetric_mapping.World.Clouds.{get_occupied_pointcloud_in_bounding_box}
use volumetric_mapping.Base.{}
use volumetric_mapping.Manager.{OctomapManager}
use volumetric_mapping.Manager.Camera.Once.{IsWaiting}
use volumetric_mapping.Manager.Transforms.{Tf, lookup_transform_tf}
use volumetric_mapping.Manager.Publish.{
  Topic, occupied_nodes, free_nodes, binary_map, full_map, pcl, nearest_obstacle, has_subscribers,
  publish_markers, publish_map, publish_cloud, publish_nearest_obstacle, publish_all,
}
use volumetric_mapping.Manager.Services.{world_of, Published}

module _ ⦃p : Platform⦄ where
  open p use {Double, Message, Transformation}

  -- The octree is there; as long as Q is not known, a camera has not reported.
  abbrev pub IsReady : {M : Type 0} → OctomapManager M → Type 0
  IsReady m = HasOctree (world_of m) × IsWaiting m.camera

  abbrev pub AfterPublishing : {M : Type 0} → Outcome (Published M) → Type 0
  AfterPublishing {M} o = Holds (λ (r : Published M). IsReady r.0) o

  module _ {M : Type 0} (depths : LeafDepths) (fuel : ℕ) (tf : Tf) (subscribers : Topic → ℕ) where
    publish_markers-IsReady :
        (m : OctomapManager M) → IsReady m → AfterPublishing (publish_markers fuel tf subscribers m)
    unfolding publish_markers
    publish_markers-IsReady m h =
        if-Holds _
          (m.latch_topics
            || has_subscribers subscribers occupied_nodes
            || has_subscribers subscribers free_nodes)
          _ _
          (>>=-Holds (λ (r : OctomapWorld × MarkerArrays). HasOctree r.0)
            (λ (r : Published M). IsReady r.0)
            (generate_marker_array m.world_frame ([], []) (world_of m)) _
            (generate_marker_array-HasOctree depths m.world_frame (world_of m) h.0)
            (λ r h'. (h', h.1)))
          h

    publish_map-Fine :
        (topic : Topic) (m : OctomapManager M)
        → IsReady m
        → Fine (publish_map fuel tf subscribers topic m)
    unfolding publish_map
    publish_map-Fine topic m h =
        if-Holds _ (m.latch_topics || has_subscribers subscribers topic) _ _
          (>>=-Fine _ (get_octomap_binary_msg (world_of m)) _
            (get_octomap_binary_msg-Fine (world_of m) h.0) (λ _. tt))
          tt

    publish_cloud-Fine :
        (m : OctomapManager M) → IsReady m → Fine (publish_cloud fuel tf subscribers m)
    unfolding publish_cloud
    publish_cloud-Fine m h =
        if-Holds _ (m.latch_topics || has_subscribers subscribers pcl) _ _
          (>>=-Fine _ _ _ (get_occupied_point_cloud-Fine fuel (world_of m) h.0) (λ _. tt)) tt

    publish_nearest_obstacle-Fine :
        (m : OctomapManager M) → IsReady m → Fine (publish_nearest_obstacle fuel tf subscribers m)
    unfolding publish_nearest_obstacle
    publish_nearest_obstacle-Fine m h =
        let w = world_of m in
        if-Holds _ (m.use_tf_transforms && has_subscribers subscribers nearest_obstacle) _ _
          (elim (Option-cases (lookup_transform_tf tf m.robot_frame m.world_frame tf.now)) [
            | inl e ↦ rw e tt
            | inr (T, e) ↦ rw e (
                >>=-Fine _
                  (get_occupied_pointcloud_in_bounding_box fuel w (p.position T) w.robot_size
                    default)
                  _
                  (get_occupied_pointcloud_in_bounding_box-Fine fuel w (p.position T) w.robot_size
                    default h.0)
                  (λ _. tt))
          ])
          tt

    pub publish_all-IsReady :
        (m : OctomapManager M) → IsReady m → AfterPublishing (publish_all fuel tf subscribers m)
    unfolding publish_all
    publish_all-IsReady m h =
        >>=-Holds (λ (r : Published M). IsReady r.0) (λ (r : Published M). IsReady r.0)
          (publish_markers fuel tf subscribers m) _ (publish_markers-IsReady m h)
          (λ r h'. >>=-Fine _ _ _ (publish_map-Fine binary_map r.0 h') (λ _.
            >>=-Fine _ _ _ (publish_map-Fine full_map r.0 h') (λ _.
              >>=-Fine _ _ _ (publish_cloud-Fine r.0 h')
                (λ _. >>=-Fine _ _ _ (publish_nearest_obstacle-Fine r.0 h') (λ _. h')))))

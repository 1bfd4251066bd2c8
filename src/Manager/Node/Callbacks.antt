-- ===== src/Manager/Node/Callbacks.antt =====
-- The octree during the callbacks that change the map (octomap_world/src/octomap_manager.cc).
use volumetric_mapping.Common.{
  ℕ, refl, Bool, true, not, Option, List, [], ◌∷◌, Option-cases, Bool-cases, inl, inr,
  if◌then◌else◌,
}
use Prim.Native.String.{String}
use volumetric_mapping.Outcome.Holds.{Holds, >>=-Holds, if-Holds}
use volumetric_mapping.Platform.{Platform, Vec3}
use volumetric_mapping.World.{OctomapWorld, default}
use volumetric_mapping.World.Present.{HasOctree, set_free_at-HasOctree, set_occupied_at-HasOctree}
use volumetric_mapping.World.Present.Operations.{
  LeafDepths, load_octomap_from_file-HasOctree, IsDecodable, set_octomap_from_msg-HasOctree,
  get_changed_points-HasOctree, insert_pointcloud_into_map_impl-HasOctree,
  insert_projected_disparity_into_map_impl-HasOctree,
}
use volumetric_mapping.Manager.Node.Publishing.{IsReady, AfterPublishing, publish_all-IsReady}
use volumetric_mapping.World.Region.{set_free_at, set_occupied_at}
use volumetric_mapping.World.Setup.{set_octomap_from_msg}
use volumetric_mapping.Base.{
  Map, Matrix4, Image, is_point_weighing_set, insert_pointcloud, insert_disparity_image,
  insert_pointcloud_into_map_with_weights_impl,
  insert_projected_disparity_into_map_with_weights_impl,
}
use volumetric_mapping.World.Changes.{Changes, get_changed_points}
use volumetric_mapping.Manager.{OctomapManager}
use volumetric_mapping.Manager.Transforms.{Tf, lookup_transform}
use volumetric_mapping.Manager.Publish.{Topic}
use volumetric_mapping.Manager.Services.{
  Files, world_of, with_world, Published, extension, same_bytes, load_cloud, load_octomap_callback,
  get_changed_points_callback, octomap_callback, set_box_occupancy_callback,
  insert_pointcloud_with_tf, insert_disparity_image_with_tf,
}

module _ ⦃p : Platform⦄ where
  open p use {Double, Message, Transformation}

  insert_pointcloud-HasOctree :
      (T : Transformation) (cloud : List (Vec3 Double)) (map : Map)
      → HasOctree map.world
      → Holds (λ (map' : Map). HasOctree map'.world) (insert_pointcloud T cloud map)
  unfolding insert_pointcloud insert_pointcloud_into_map_with_weights_impl
  insert_pointcloud-HasOctree T cloud map h =
      >>=-Holds HasOctree _ _ _
        (if-Holds HasOctree (not (is_point_weighing_set map)) _ _
          (insert_pointcloud_into_map_impl-HasOctree T cloud map.world h) h)
        (λ w h'. h')

  insert_disparity_image-HasOctree :
      (reproject : Image Double → Matrix4 Double → List (Vec3 Double)) (T : Transformation)
      (disparity : Image Double) (q : Matrix4 Double) (width : Double) (map : Map)
      → HasOctree map.world
      → Holds
          (λ (map' : Map). HasOctree map'.world)
          (insert_disparity_image reproject T disparity q width map)
  unfolding insert_disparity_image insert_projected_disparity_into_map_with_weights_impl
  insert_disparity_image-HasOctree reproject T disparity q width map h =
      >>=-Holds HasOctree _ _ _
        (if-Holds HasOctree (not (is_point_weighing_set map)) _ _
          (insert_projected_disparity_into_map_impl-HasOctree T _ map.world h) h)
        (λ w h'. h')

  load_cloud-HasOctree :
      (cloud : List (Vec3 Double)) (w : OctomapWorld)
      → HasOctree w
      → Holds (λ (r : OctomapWorld × Bool). HasOctree r.0) (load_cloud cloud w)
  unfolding load_cloud
  load_cloud-HasOctree cloud w (t, here) = rw here (_, refl)

  pub load_octomap_callback-HasOctree :
      (files : Files) (path : List ℕ) (w : OctomapWorld)
      → HasOctree w
      → Holds (λ (r : OctomapWorld × Bool). HasOctree r.0) (load_octomap_callback files path w)
  unfolding load_octomap_callback
  load_octomap_callback-HasOctree files path w h =
      if-Holds _ (same_bytes (extension path) (b'b' ∷ b't' ∷ [])) _ _
        (load_octomap_from_file-HasOctree (files.read_tree path) w h)
        (if-Holds _ (same_bytes (extension path) (b'p' ∷ b'c' ∷ b'd' ∷ [])) _ _
          (load_cloud-HasOctree (files.read_pcd path) w h)
          (if-Holds _ (same_bytes (extension path) (b'p' ∷ b'l' ∷ b'y' ∷ [])) _ _
            (load_cloud-HasOctree (files.read_ply path) w h) h))

  pub get_changed_points_callback-HasOctree :
      (w : OctomapWorld)
      → HasOctree w
      → Holds
          (λ (r : OctomapWorld × Option (Changes Double)). HasOctree r.0)
          (get_changed_points_callback w)
  unfolding get_changed_points_callback
  get_changed_points_callback-HasOctree w h =
      >>=-Holds (λ (r : OctomapWorld × Changes Double). HasOctree r.0)
        (λ (r : OctomapWorld × Option (Changes Double)). HasOctree r.0) (get_changed_points true w)
        _ (get_changed_points-HasOctree true w h) (λ r k. k)

  module _ {M : Type 0} (depths : LeafDepths) (fuel : ℕ) (tf : Tf) (subscribers : Topic → ℕ) where
    lookup_transform-IsReady :
        (from_frame to_frame : String) (stamp : ℕ) (m : OctomapManager M)
        → IsReady m
        → IsReady (lookup_transform tf from_frame to_frame stamp m).0
    unfolding lookup_transform
    lookup_transform-IsReady from_frame to_frame stamp m h = elim (Bool-cases m.use_tf_transforms) [
      | inl e ↦ rw (e, lookup_transform) h
      | inr e ↦ rw (e, lookup_transform) h
    ]

    pub insert_pointcloud_with_tf-IsReady :
        (frame_id : String) (stamp : ℕ) (points : List (Vec3 Double)) (m : OctomapManager M)
        → IsReady m
        → Holds IsReady (insert_pointcloud_with_tf fuel tf subscribers frame_id stamp points m)
    unfolding insert_pointcloud_with_tf
    insert_pointcloud_with_tf-IsReady frame_id stamp points m h =
        let found = lookup_transform tf frame_id m.world_frame stamp m in
        let h' = lookup_transform-IsReady frame_id m.world_frame stamp m h in
        elim (Option-cases found.1) [
          | inl e ↦ rw (e, insert_pointcloud_with_tf) h'
          | inr (T, e) ↦
              rw (e, insert_pointcloud_with_tf)
                (>>=-Holds (λ (map : Map). HasOctree map.world) IsReady
                  (insert_pointcloud T points found.0.map) _
                  (insert_pointcloud-HasOctree T points found.0.map h'.0) (λ map k. (k, h'.1)))
        ]

    pub insert_disparity_image_with_tf-IsReady :
        (reproject : Image Double → Matrix4 Double → List (Vec3 Double)) (frame_id : String)
        (stamp : ℕ) (image : Image Double) (m : OctomapManager M)
        → IsReady m
        → Holds IsReady
            (insert_disparity_image_with_tf fuel tf subscribers reproject frame_id stamp image m)
    unfolding insert_disparity_image_with_tf
    insert_disparity_image_with_tf-IsReady reproject frame_id stamp image m h =
        let found = lookup_transform tf frame_id m.world_frame stamp m in
        let h' = lookup_transform-IsReady frame_id m.world_frame stamp m h in
        let q = m.camera.q in
        let width = m.camera.full_image_width in
        if-Holds (λ (k : OctomapManager M). IsReady k) (not m.camera.q_initialized) _ _ h
          (elim (Option-cases found.1) [
            | inl e ↦ rw e h'
            | inr (T, e) ↦ rw e (
                >>=-Holds (λ (map : Map). HasOctree map.world) IsReady
                  (insert_disparity_image reproject T image q width found.0.map) _
                  (insert_disparity_image-HasOctree reproject T image q width found.0.map h'.0)
                  (λ map k. (k, h'.1)))
          ])

    pub octomap_callback-IsReady :
        (msg : Message) (m : OctomapManager M)
        → IsDecodable msg
        → IsReady m
        → AfterPublishing (octomap_callback fuel tf subscribers msg m)
    unfolding octomap_callback
    octomap_callback-IsReady msg m d h =
        publish_all-IsReady depths fuel tf subscribers
          (with_world m (set_octomap_from_msg msg (world_of m)))
          (set_octomap_from_msg-HasOctree msg (world_of m) d, h.1)

    pub set_box_occupancy_callback-IsReady :
        (center size : Vec3 Double) (set_occupied : Bool) (m : OctomapManager M)
        → IsReady m
        → AfterPublishing
            (set_box_occupancy_callback fuel tf subscribers center size set_occupied m)
    unfolding set_box_occupancy_callback
    set_box_occupancy_callback-IsReady center size set_occupied m h =
        let w = world_of m in
        >>=-Holds HasOctree (λ (r : Published M). IsReady r.0)
          (if set_occupied
            then set_occupied_at fuel center size default w
            else set_free_at fuel center size default w)
          _
          (if-Holds HasOctree set_occupied _ _
            (set_occupied_at-HasOctree fuel center size default w h.0)
            (set_free_at-HasOctree fuel center size default w h.0))
          (λ w' h'. publish_all-IsReady depths fuel tf subscribers (with_world m w') (h', h.1))

-- ===== src/Manager/Node/Safety.antt =====
-- The state of the node in a whole run, from the constructor on
-- (octomap_world/src/octomap_manager.cc).
use volumetric_mapping.Common.{
  ℕ, ◌≡◌, Bool, Option, none, some, List, [], ◌∷◌, Option-cases, Bool-cases, inl, inr, arith,
}
use volumetric_mapping.Outcome.{Outcome}
use volumetric_mapping.Outcome.Holds.{Holds, >>=-Holds, >>=-Fine, if-Holds}
use volumetric_mapping.Platform.{Platform}
use volumetric_mapping.World.{OctomapWorld}
use volumetric_mapping.World.Present.{HasOctree}
use volumetric_mapping.World.Present.Operations.{
  LeafDepths, set_octomap_parameters-HasOctree, reset_map-HasOctree, get_occupied_point_cloud-Fine,
  get_octomap_full_msg-Fine, write_octomap_to_file-HasOctree, load_octomap_from_file-HasOctree,
  IsDecodable,
}
use volumetric_mapping.World.Setup.{
  get_octomap_full_msg, load_octomap_from_file, write_octomap_to_file,
}
use volumetric_mapping.World.Clouds.{get_occupied_point_cloud}
use volumetric_mapping.World.Changes.{Changes}
use volumetric_mapping.Manager.{CameraState, OctomapManager}
use volumetric_mapping.Manager.Camera.Once.{left, right, receive, receive-IsWaiting}
use volumetric_mapping.Manager.Settings.{
  ParameterServer, initial, set_parameters_from_ros, camera_settings,
}
use volumetric_mapping.Manager.Services.{
  world_of, with_world, Published, load_octomap_callback, get_changed_points_callback,
  get_octomap_callback, save_octomap_callback, save_point_cloud_callback, reset_map_callback,
  publish_all_callback, set_display_bounds_callback,
}
use volumetric_mapping.Manager.Node.{
  Environment, Event, on_left_camera_info, on_right_camera_info, on_disparity, on_pointcloud,
  on_input_octomap, on_transform, on_timer, on_reset_map, on_publish_all, on_get_map, on_save_map,
  on_save_point_cloud, on_load_map, on_set_box_occupancy, on_set_display_bounds,
  on_get_changed_points, Handled, Reply, published, changed, handle, construct, spin, main,
  map_publish_timer,
}
use volumetric_mapping.Manager.Node.Publishing.{IsReady, AfterPublishing, publish_all-IsReady}
use volumetric_mapping.Manager.Node.Callbacks.{
  load_octomap_callback-HasOctree, get_changed_points_callback-HasOctree,
  insert_pointcloud_with_tf-IsReady, insert_disparity_image_with_tf-IsReady,
  octomap_callback-IsReady, set_box_occupancy_callback-IsReady,
}

module _ ⦃p : Platform⦄ {M : Type 0} where
  open p use {Double, Message, Binary}

  -- A map that is received as a message can be converted.
  abbrev pub IsAcceptable : Event M → Type 0
  IsAcceptable (on_input_octomap msg) = IsDecodable msg
  IsAcceptable _ = Unit

  abbrev pub AreAcceptable : List (Environment M × Event M) → Type 0
  AreAcceptable [] = Unit
  AreAcceptable ((env, e) ∷ es) = IsAcceptable e × AreAcceptable es

  abbrev IsHandled : Outcome (Handled M) → Type 0
  IsHandled o = Holds (λ (h : Handled M). IsReady h.node) o

  published-IsHandled :
      (r : Reply) (o : Outcome (Published M)) → AfterPublishing o → IsHandled (published r o)
  published-IsHandled r o h =
      >>=-Holds (λ (x : Published M). IsReady x.0) (λ (h : Handled M). IsReady h.node) o _ h
        (λ x k. k)

  changed-IsHandled : (o : Outcome (OctomapManager M)) → Holds IsReady o → IsHandled (changed o)
  changed-IsHandled o h = >>=-Holds IsReady (λ (h : Handled M). IsReady h.node) o _ h (λ x k. k)

module _ ⦃p : Platform⦄ {M : Type 0} (depths : LeafDepths) where
  open p use {Double}

  handle-IsReady :
      (env : Environment M) (e : Event M) (m : OctomapManager M)
      → IsAcceptable e
      → IsReady m
      → IsHandled (handle env e m)
  unfolding handle receive reset_map_callback publish_all_callback get_octomap_callback
      save_octomap_callback save_point_cloud_callback get_changed_points_callback
      set_display_bounds_callback
  handle-IsReady env (on_left_camera_info info) m a h =
      (h.0, receive-IsWaiting env.from_camera_info m.camera (left info) h.1)
  handle-IsReady env (on_right_camera_info info) m a h =
      (h.0, receive-IsWaiting env.from_camera_info m.camera (right info) h.1)
  handle-IsReady env (on_disparity frame_id stamp image) m a h = changed-IsHandled _ (
      insert_disparity_image_with_tf-IsReady depths env.fuel env.tf env.subscribers env.reproject
        frame_id stamp image m h)
  handle-IsReady env (on_pointcloud frame_id stamp points) m a h = changed-IsHandled _ (
      insert_pointcloud_with_tf-IsReady depths env.fuel env.tf env.subscribers frame_id stamp points
        m h)
  handle-IsReady env (on_input_octomap msg) m a h =
      published-IsHandled _ _
        (octomap_callback-IsReady depths env.fuel env.tf env.subscribers msg m a h)
  handle-IsReady env (on_transform message) m a h = elim (Bool-cases m.use_tf_transforms) [
    | inl e ↦ rw (e, handle) h
    | inr e ↦ rw (e, handle) h
  ]
  handle-IsReady env on_timer m a h =
      elim (Option-cases (map_publish_timer m.map_publish_frequency)) [
        | inl e ↦ rw (e, handle) h
        | inr (period, e) ↦
            rw (e, handle)
              (published-IsHandled _ _
                (publish_all-IsReady depths env.fuel env.tf env.subscribers m h))
      ]
  handle-IsReady env on_reset_map m a h = (reset_map-HasOctree (world_of m), h.1)
  handle-IsReady env on_publish_all m a h =
      published-IsHandled _ _ (publish_all-IsReady depths env.fuel env.tf env.subscribers m h)
  handle-IsReady env on_get_map m a h =
      >>=-Fine _ (get_octomap_full_msg (world_of m)) _ (get_octomap_full_msg-Fine (world_of m) h.0)
        (λ r. h)
  handle-IsReady env on_save_map m a h =
      >>=-Holds _ _ (write_octomap_to_file (world_of m)) _
        (write_octomap_to_file-HasOctree (world_of m) h.0) (λ r k. (k, h.1))
  handle-IsReady env on_save_point_cloud m a h =
      >>=-Fine _ (get_occupied_point_cloud env.fuel (world_of m)) _
        (get_occupied_point_cloud-Fine env.fuel (world_of m) h.0) (λ r. h)
  handle-IsReady env (on_load_map path) m a h =
      >>=-Holds _ _ (load_octomap_callback env.files path (world_of m)) _
        (load_octomap_callback-HasOctree env.files path (world_of m) h.0) (λ r k. (k, h.1))
  handle-IsReady env (on_set_box_occupancy center size set_occupied) m a h =
      published-IsHandled _ _ (
        set_box_occupancy_callback-IsReady depths env.fuel env.tf env.subscribers center size
          set_occupied m h)
  handle-IsReady env (on_set_display_bounds min_z max_z) m a h =
      published-IsHandled _ _ (publish_all-IsReady depths env.fuel env.tf env.subscribers _ h)
  handle-IsReady env on_get_changed_points m a h =
      >>=-Holds (λ (r : OctomapWorld × Option (Changes Double)). HasOctree r.0)
        (λ (h : Handled M). IsReady h.node) (get_changed_points_callback (world_of m)) _
        (get_changed_points_callback-HasOctree (world_of m) h.0) (λ r k. (k, h.1))

  spin-IsReady :
      (es : List (Environment M × Event M)) (m : OctomapManager M)
      → AreAcceptable es
      → IsReady m
      → AfterPublishing (spin es m)
  unfolding spin
  spin-IsReady [] m a h = h
  spin-IsReady ((env, e) ∷ es) m a h =
      >>=-Holds (λ (r : Handled M). IsReady r.node) (λ (r : Published M). IsReady r.0)
        (handle env e m) _ (handle-IsReady env e m a.0 h)
        (λ r k.
          >>=-Holds (λ (r : Published M). IsReady r.0) (λ (r : Published M). IsReady r.0)
            (spin es r.node) _ (spin-IsReady es r.node a.1 k) (λ _ k'. k'))

  camera_settings-left_info :
      (server : ParameterServer) (c : CameraState M)
      → (camera_settings server c).left_info ≡ c.left_info
  unfolding camera_settings
  camera_settings-left_info server c = ground arith

  set_parameters_from_ros-IsReady :
      (server : ParameterServer) → IsReady (set_parameters_from_ros server (initial {M = M}))
  unfolding set_parameters_from_ros initial camera_settings
  set_parameters_from_ros-IsReady server =
      (set_octomap_parameters-HasOctree _ _, inr (inl (camera_settings-left_info server _)))

  construct-IsReady :
      (env : Environment M) (server : ParameterServer) (octomap_file : Option (List ℕ))
      → AfterPublishing (construct env server octomap_file)
  unfolding construct
  construct-IsReady env server none = set_parameters_from_ros-IsReady server
  construct-IsReady env server (some path) =
      let m = set_parameters_from_ros server initial in
      let h = set_parameters_from_ros-IsReady server in
      >>=-Holds (λ (r : OctomapWorld × Bool). HasOctree r.0) (λ (r : Published M). IsReady r.0)
        (load_octomap_from_file (env.files.read_tree path) (world_of m)) _
        (load_octomap_from_file-HasOctree (env.files.read_tree path) (world_of m) h.0)
        (λ r k.
          if-Holds (λ (r : Published M). IsReady r.0) r.1 _ _
            (publish_all-IsReady depths env.fuel env.tf env.subscribers (with_world m r.0) (k, h.1))
            (k, h.1))

  -- From the start of the node on, whatever its parameters, whether it loads a map, and whatever
  -- events and surroundings it meets: if no leaf lies deeper than its octree and the octomap messages
  -- that the node receives can be converted, then it never dereferences a null octree or runs past
  -- the end of a vector, and wherever no other fault stops it, the octree is there and Q is known or
  -- a camera has not reported.
  pub main-IsReady :
      (env : Environment M) (server : ParameterServer) (octomap_file : Option (List ℕ))
      (es : List (Environment M × Event M))
      → AreAcceptable es
      → AfterPublishing (main env server octomap_file es)
  unfolding main
  main-IsReady env server octomap_file es a =
      >>=-Holds (λ (r : Published M). IsReady r.0) (λ (r : Published M). IsReady r.0)
        (construct env server octomap_file) _ (construct-IsReady env server octomap_file)
        (λ r k.
          >>=-Holds (λ (r : Published M). IsReady r.0) (λ (r : Published M). IsReady r.0)
            (spin es r.0) _ (spin-IsReady es r.0 a k) (λ _ k'. k'))

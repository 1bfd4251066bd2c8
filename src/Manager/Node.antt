-- ===== src/Manager/Node.antt =====
-- The node as a whole: what it subscribes to and offers, its constructor, and how a message, a
-- service call or the timer reaches its callback (octomap_world/src/octomap_manager.cc and
-- octomap_world/src/octomap_manager_node.cc).
pub mod Publishing
pub mod Callbacks
pub mod Safety
use Prim.Native.String.{String}
use volumetric_mapping.Common.{
  ℕ, Bool, true, false, not, Option, none, some, List, [], ◌∷◌, ◌++◌, if◌then◌else◌,
}
use volumetric_mapping.Outcome.{Outcome, ok, ◌>>=◌}
use volumetric_mapping.Platform.{Platform, Vec3}
use volumetric_mapping.World.Setup.{load_octomap_from_file}
use volumetric_mapping.World.Changes.{Changes}
use volumetric_mapping.Base.{Matrix4, Image, StereoModel}
use volumetric_mapping.Manager.{CameraInfo, CameraState, Stamped, OctomapManager}
use volumetric_mapping.Manager.Transforms.{Tf, transform_callback}
use volumetric_mapping.Manager.Camera.{left_camera_info_callback, right_camera_info_callback}
use volumetric_mapping.Manager.Settings.{ParameterServer, initial, set_parameters_from_ros}
use volumetric_mapping.Manager.Publish.{Topic, Publication, publish_all}
use volumetric_mapping.Manager.Services.{
  Files, world_of, with_world, load_octomap_callback, get_changed_points_callback,
  get_octomap_callback, save_octomap_callback, save_point_cloud_callback, reset_map_callback,
  publish_all_callback, octomap_callback, set_box_occupancy_callback, set_display_bounds_callback,
  insert_pointcloud_with_tf, insert_disparity_image_with_tf,
}

-- The callbacks that take messages, and those that answer service calls.
pub data Callback : Type 0 where
  left_camera_info right_camera_info disparity pointcloud input_octomap transform : Callback

pub data Service : Type 0 where
  reset_map publish_all_topics get_map save_map load_map save_point_cloud set_box_occupancy :
      Service
  set_display_bounds get_changed_points : Service

pub record Subscription : Type 0 where
  pub topic : String
  pub queue_size : ℕ
  pub callback : Callback

pub record Advertisement : Type 0 where
  pub topic : String
  pub queue_size : ℕ
  pub latch : Bool

abbrev subscription : String → ℕ → Callback → Subscription
subscription t n c = record { topic = t; queue_size = n; callback = c }

abbrev advertisement : String → Bool → Advertisement
advertisement t l = record { topic = t; queue_size = 1; latch = l }

-- `subscribe`.
unfoldable subscribe : List Subscription
subscribe =
    subscription "cam0/camera_info" 1 left_camera_info
    ∷ subscription "cam1/camera_info" 1 right_camera_info
    ∷ subscription "disparity" 40 disparity
    ∷ subscription "pointcloud" 40 pointcloud
    ∷ subscription "input_octomap" 1 input_octomap
    ∷ []

-- The subscription that `setParametersFromROS` makes.
unfoldable subscribe_transform : Bool → List Subscription
subscribe_transform use_tf_transforms =
    if not use_tf_transforms then subscription "transform" 40 transform ∷ [] else []

unfoldable advertise_services : List (String × Service)
advertise_services =
    ("reset_map", reset_map)
    ∷ ("publish_all", publish_all_topics)
    ∷ ("get_map", get_map)
    ∷ ("save_map", save_map)
    ∷ ("load_map", load_map)
    ∷ ("save_point_cloud", save_point_cloud)
    ∷ ("set_box_occupancy", set_box_occupancy)
    ∷ ("set_display_bounds", set_display_bounds)
    ∷ ("get_changed_points", get_changed_points)
    ∷ []

module _ ⦃p : Platform⦄ where
  open p use {Double, Message, Binary, Transformation, literal, lt, div}

  unfoldable advertise_publishers : Bool → List Advertisement
  advertise_publishers latch_topics =
      advertisement "octomap_occupied" latch_topics
      ∷ advertisement "octomap_free" latch_topics
      ∷ advertisement "octomap_binary" latch_topics
      ∷ advertisement "octomap_full" latch_topics
      ∷ advertisement "octomap_pcl" latch_topics
      ∷ advertisement "nearest_obstacle" false
      ∷ []

  -- The period of the timer, if there is one.
  unfoldable pub map_publish_timer : Double → Option Double
  map_publish_timer frequency =
      if lt (literal 0 0) frequency then some (div (literal 1 0) frequency) else none

  -- What surrounds the node while it handles an event, and the fuel of its loops.
  pub record Environment (M : Type 0) : Type 0 where
    pub fuel : ℕ
    pub tf : Tf
    pub subscribers : Topic → ℕ
    pub files : Files
    pub reproject : Image Double → Matrix4 Double → List (Vec3 Double)
    pub from_camera_info : CameraInfo M → CameraInfo M → StereoModel Double

  -- The message of a topic, the request of a service, or the timer.
  pub data Event (M : Type 0) : Type 0 where
    on_left_camera_info on_right_camera_info : CameraInfo M → Event M
    on_disparity : String → ℕ → Image Double → Event M
    on_pointcloud : String → ℕ → List (Vec3 Double) → Event M
    on_input_octomap : Message → Event M
    on_transform : Stamped → Event M
    on_timer on_reset_map on_publish_all on_get_map on_save_map on_save_point_cloud : Event M
    on_load_map : List ℕ → Event M
    on_set_box_occupancy : Vec3 Double → Vec3 Double → Bool → Event M
    on_set_display_bounds : Double → Double → Event M
    on_get_changed_points : Event M

  -- What a service returns.
  pub data Reply : Type 0 where
    no_reply : Reply
    returns : Bool → Reply
    returns_map : Bool → Message → Reply
    writes_map : Bool → Binary → Reply
    writes_cloud : Bool → List (Vec3 Double) → Reply
    returns_changes : Option (Changes Double) → Reply

  -- The node after an event, the reply, and what was published.
  pub record Handled (M : Type 0) : Type 0 where
    pub node : OctomapManager M
    pub reply : Reply
    pub sent : List Publication

  abbrev pub handled : {M : Type 0} → OctomapManager M → Reply → List Publication → Handled M
  handled m r s = record { node = m; reply = r; sent = s }

  -- An outcome of a callback with what it has published, or only the new node, or only a reply.
  abbrev pub published :
      {M : Type 0} → Reply → Outcome (OctomapManager M × List Publication) → Outcome (Handled M)
  published r o = o >>= λ x. ok (handled x.0 r x.1)

  abbrev pub changed : {M : Type 0} → Outcome (OctomapManager M) → Outcome (Handled M)
  changed o = o >>= λ m. ok (handled m no_reply [])

  module _ {M : Type 0} (env : Environment M) where
    open env use {fuel, tf, subscribers, files, reproject, from_camera_info}

    abbrev with_camera : OctomapManager M → CameraState M → OctomapManager M
    with_camera m c = record m { camera = c }

    pub handle : Event M → OctomapManager M → Outcome (Handled M)
    handle (on_left_camera_info info) m = ok (
        handled (with_camera m (left_camera_info_callback from_camera_info info m.camera)) no_reply
          [])
    handle (on_right_camera_info info) m = ok (
        handled (with_camera m (right_camera_info_callback from_camera_info info m.camera)) no_reply
          [])
    handle (on_disparity frame_id stamp image) m =
        changed
          (insert_disparity_image_with_tf fuel tf subscribers reproject frame_id stamp image m)
    handle (on_pointcloud frame_id stamp points) m =
        changed (insert_pointcloud_with_tf fuel tf subscribers frame_id stamp points m)
    handle (on_input_octomap msg) m =
        published no_reply (octomap_callback fuel tf subscribers msg m)
    handle (on_transform message) m =
        let queued = record m { transforms = transform_callback message m.transforms } in
        ok (handled (if m.use_tf_transforms then m else queued) no_reply [])
    handle on_timer m =
        let all = published no_reply (publish_all fuel tf subscribers m) in
        elim (map_publish_timer m.map_publish_frequency) [
          | none ↦ ok (handled m no_reply [])
          | some _ ↦ all
        ]
    handle on_reset_map m =
        ok (handled (reset_map_callback fuel tf subscribers m) (returns true) [])
    handle on_publish_all m = published (returns true) (publish_all_callback fuel tf subscribers m)
    handle on_get_map m =
        get_octomap_callback (world_of m) >>= λ r. ok (handled m (returns_map r.0 r.1) [])
    handle on_save_map m = save_octomap_callback (world_of m) >>= λ r.
        ok (handled (with_world m r.0) (writes_map r.1 r.2) [])
    handle on_save_point_cloud m = save_point_cloud_callback fuel (world_of m) >>= λ points.
        ok (handled m (writes_cloud true points) [])
    handle (on_load_map path) m = load_octomap_callback files path (world_of m) >>= λ r.
        ok (handled (with_world m r.0) (returns r.1) [])
    handle (on_set_box_occupancy center size set_occupied) m =
        published (returns true)
          (set_box_occupancy_callback fuel tf subscribers center size set_occupied m)
    handle (on_set_display_bounds min_z max_z) m =
        published (returns true) (set_display_bounds_callback fuel tf subscribers min_z max_z m)
    handle on_get_changed_points m = get_changed_points_callback (world_of m) >>= λ r.
        ok (handled (with_world m r.0) (returns_changes r.1) [])

    -- The constructor: a map whose file the parameter `octomap_file` names is loaded and published.
    pub construct :
        ParameterServer → Option (List ℕ) → Outcome (OctomapManager M × List Publication)
    construct server octomap_file =
        let m = set_parameters_from_ros server initial in
        elim octomap_file [
          | none ↦ ok (m, [])
          | some path ↦ load_octomap_from_file (files.read_tree path) (world_of m) >>= λ r.
              let loaded = with_world m r.0 in
              let all = publish_all fuel tf subscribers loaded in
              if r.1 then all else ok (loaded, [])
        ]

  -- `ros::spin`: the events in the order in which their callbacks are called.
  pub spin :
      {M : Type 0}
      → List (Environment M × Event M)
      → OctomapManager M
      → Outcome (OctomapManager M × List Publication)
  spin [] m = ok (m, [])
  spin ((env, e) ∷ es) m = do h ← handle env e m; r ← spin es h.node; ok (r.0, h.sent ++ r.1)

  -- `main`, until the node is shut down.
  pub main :
      {M : Type 0}
      → Environment M
      → ParameterServer
      → Option (List ℕ)
      → List (Environment M × Event M)
      → Outcome (OctomapManager M × List Publication)
  main env server octomap_file es = do
    m ← construct env server octomap_file
    r ← spin es m.0
    ok (r.0, m.1 ++ r.1)

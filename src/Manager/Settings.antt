-- ===== src/Manager/Settings.antt =====
-- `setParametersFromROS`, and the state that the constructor starts from
-- (octomap_world/src/octomap_manager.cc). The subscription to the topic of transforms, which stands
-- in the same function, is not a part of the state.
use Prim.Native.String.{String}
use volumetric_mapping.Common.{Bool, true, false, not, Option, none, some, List, [], if◌then◌else◌}
use volumetric_mapping.Platform.{Platform}
use volumetric_mapping.World.{OctomapParameters, default_parameters}
use volumetric_mapping.World.Setup.{set_octomap_parameters, create_default_world}
use volumetric_mapping.Base.{row}
use volumetric_mapping.Manager.{CameraState, TransformQueue, OctomapManager}
use volumetric_mapping.Manager.Camera.{set_q_from_params}

-- `nh.param(name, value, default)`.
abbrev pub or_default : {A : Type 0} → Option A → A → A
or_default none d = d
or_default (some a) d = a

module _ ⦃p : Platform⦄ where
  open p use {Double, Transformation, literal, inverse, identity}

  -- The parameter server, as the node's private handle shows it.
  pub record ParameterServer : Type 0 where
    pub get_string : String → Option String
    pub get_bool : String → Option Bool
    pub get_double : String → Option Double
    pub get_doubles : String → Option (List Double)
    pub get_transform : String → Option Transformation

  -- The members before `setParametersFromROS`.
  unfoldable pub initial : {M : Type 0} → OctomapManager M
  initial =
      let zero = literal 0 0 in
      let one = literal 1 0 in
      record {
        map = record { world = create_default_world; point_weighing = none };
        camera = record {
          left_info = none;
          right_info = none;
          q_initialized = false;
          q = record {
            r0 = row one zero zero zero;
            r1 = row zero one zero zero;
            r2 = row zero zero one zero;
            r3 = row zero zero zero one;
          };
          full_image_width = literal 752 0;
          full_image_height = literal 480 0;
        };
        transforms = record {
          timestamp_tolerance_ns = 10_000_000;
          transform_queue = [];
          t_b_c = identity;
          t_b_d = identity;
        };
        world_frame = "world";
        robot_frame = "state";
        use_tf_transforms = true;
        latch_topics = true;
        map_publish_frequency = zero;
      }

  module _ (server : ParameterServer) where
    open server use {get_string, get_bool, get_double, get_doubles, get_transform}

    unfoldable pub octomap_parameters : OctomapParameters Double
    octomap_parameters =
        let d = default_parameters in
        record {
          resolution = or_default (get_double "resolution") d.resolution;
          probability_hit = or_default (get_double "probability_hit") d.probability_hit;
          probability_miss = or_default (get_double "probability_miss") d.probability_miss;
          threshold_min = or_default (get_double "threshold_min") d.threshold_min;
          threshold_max = or_default (get_double "threshold_max") d.threshold_max;
          threshold_occupancy = or_default (get_double "threshold_occupancy") d.threshold_occupancy;
          filter_speckles = or_default (get_bool "filter_speckles") d.filter_speckles;
          max_free_space = or_default (get_double "max_free_space") d.max_free_space;
          min_height_free_space =
              or_default (get_double "min_height_free_space") d.min_height_free_space;
          sensor_max_range = or_default (get_double "sensor_max_range") d.sensor_max_range;
          visualize_min_z = or_default (get_double "visualize_min_z") d.visualize_min_z;
          visualize_max_z = or_default (get_double "visualize_max_z") d.visualize_max_z;
          treat_unknown_as_occupied =
              or_default (get_bool "treat_unknown_as_occupied") d.treat_unknown_as_occupied;
          change_detection_enabled =
              or_default (get_bool "change_detection_enabled") d.change_detection_enabled;
        }

    -- `Q_initialized_ = setQFromParams(&Q_vec)`, if there is such a parameter.
    unfoldable pub camera_settings : {M : Type 0} → CameraState M → CameraState M
    camera_settings c =
        let width = or_default (get_double "full_image_width") c.full_image_width in
        let height = or_default (get_double "full_image_height") c.full_image_height in
        let sized = record c { full_image_width = width; full_image_height = height } in
        elim (get_doubles "Q") [
          | none ↦ sized
          | some q_vec ↦ elim (set_q_from_params q_vec) [
            | none ↦ record sized { q_initialized = false }
            | some matrix ↦ record sized { q = matrix; q_initialized = true }
          ]
        ]

    -- A static transform, inverted if the flag says so.
    unfoldable pub static_transform : String → String → Transformation → Transformation
    static_transform name flag old = elim (get_transform name) [
      | none ↦ old
      | some T ↦ if or_default (get_bool flag) false then inverse T else T
    ]

    unfoldable pub transform_settings : Bool → TransformQueue → TransformQueue
    transform_settings use_tf q =
        if not use_tf
        then record q {
          t_b_d = static_transform "T_B_D" "invert_T_B_D" q.t_b_d;
          t_b_c = static_transform "T_B_C" "invert_T_B_C" q.t_b_c;
        }
        else q

    unfoldable pub set_parameters_from_ros : {M : Type 0} → OctomapManager M → OctomapManager M
    set_parameters_from_ros m =
        let use_tf = or_default (get_bool "use_tf_transforms") m.use_tf_transforms in
        let map = m.map in
        record {
          map = record map { world = set_octomap_parameters octomap_parameters map.world };
          camera = camera_settings m.camera;
          transforms = transform_settings use_tf m.transforms;
          world_frame = or_default (get_string "tf_frame") m.world_frame;
          robot_frame = or_default (get_string "robot_frame") m.robot_frame;
          use_tf_transforms = use_tf;
          latch_topics = or_default (get_bool "latch_topics") m.latch_topics;
          map_publish_frequency =
              or_default (get_double "map_publish_frequency") m.map_publish_frequency;
        }

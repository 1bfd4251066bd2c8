-- ===== src/Tests/Node.antt =====
-- The base class and the node, on small inputs.
use volumetric_mapping.Common.{
  ◌≡◌, refl, Bool, false, true, none, some, [], ◌∷◌, if◌then◌else◌, ◌⊎◌, inl, inr, arith,
}
use volumetric_mapping.Common.Int.{pos, ℤ}
use volumetric_mapping.Outcome.{ok, fault, null_octree}
use volumetric_mapping.Platform.Flat.{flat, point}
use volumetric_mapping.Base.{
  Map, Matrix4, StereoModel, row, default_weighing, insert_pointcloud, insert_disparity_image,
}
use volumetric_mapping.Base.Weights.{insert_weighted_dropped}
use volumetric_mapping.Manager.{CameraInfo, CameraState, Stamped, TransformQueue}
use volumetric_mapping.Manager.Camera.Once.{
  left, right, receive_all, SameQ, receive_all-SameQ, receive, IsComputed, receive-IsComputed,
}
use volumetric_mapping.Manager.Camera.{right_camera_info_callback, try_calculate_q, calculate_q}
use volumetric_mapping.Manager.Transforms.{lookup_transform_queue}
use volumetric_mapping.Manager.Transforms.Matching.{QueueMatch, matched, lookup_transform_queue_lem}
use volumetric_mapping.Manager.{OctomapManager}
use volumetric_mapping.Manager.Transforms.{Tf}
use volumetric_mapping.Manager.Publish.Messages.{octomap_callback_null}
use volumetric_mapping.Manager.Services.{load_cloud, octomap_callback}
use volumetric_mapping.Manager.Services.Loading.{holds, load_cloud-value}
use volumetric_mapping.World.{with_tree}
use volumetric_mapping.Platform.{Key}
use volumetric_mapping.Platform.Flat.{FlatTree}
use volumetric_mapping.Tests.Cells.{flat_cells}
use volumetric_mapping.Manager.Services.{insert_pointcloud_with_tf}
use volumetric_mapping.Manager.Services.Insertion.{Inserted, insert_pointcloud_with_tf-Inserted}
use volumetric_mapping.Tests.Sample.{tree, world, in_obstacle, in_free}

abbrev pub zero_q : Matrix4 ℤ
zero_q =
    let zeros = row (pos 0) (pos 0) (pos 0) (pos 0) in
    record { r0 = zeros; r1 = zeros; r2 = zeros; r3 = zeros }

abbrev weighted_map : Map
weighted_map = record { world = world; point_weighing = some default_weighing }

abbrev pub model : StereoModel ℤ
model = record {
  baseline = pos 100;
  left_cx = pos 320_000;
  left_cy = pos 240_000;
  left_fx = pos 450_000;
  left_fy = pos 450_000;
  right_cx = pos 320_000;
  right_cy = pos 240_000;
  right_fx = pos 450_000;
  right_fy = pos 450_000;
}

abbrev pub info : CameraInfo Bool
info = record { width = 640; height = 480; model = true }

abbrev known : CameraState Bool
known = record {
  left_info = none;
  right_info = none;
  q_initialized = true;
  q = zero_q;
  full_image_width = pos 640_000;
  full_image_height = pos 480_000;
}

abbrev pub waiting : CameraState Bool
waiting = record known { q_initialized = false }

abbrev pub early : Stamped
early = record { stamp = 10; transform = point (pos 1) (pos 2) (pos 3) }

abbrev pub late : Stamped
late = record { stamp = 50; transform = point (pos 4) (pos 5) (pos 6) }

abbrev pub two_poses : TransformQueue
two_poses = record {
  timestamp_tolerance_ns = 5;
  transform_queue = early ∷ late ∷ [];
  t_b_c = point (pos 0) (pos 0) (pos 0);
  t_b_d = point (pos 0) (pos 0) (pos 0);
}

insert_weighted_dropped_example :
    (insert_pointcloud in_free (in_obstacle ∷ []) weighted_map ≡ ok weighted_map)
    × (insert_disparity_image
          (λ image q. [])
          in_free
          (record { cols = 1; pixels = (pos 7 ∷ []) ∷ [] })
          zero_q
          (pos 1000)
          weighted_map
        ≡ ok weighted_map)
insert_weighted_dropped_example =
    insert_weighted_dropped weighted_map in_free (in_obstacle ∷ []) (λ image q. [])
      (record { cols = 1; pixels = (pos 7 ∷ []) ∷ [] }) zero_q (pos 1000) (λ e. cc)

receive_all-SameQ_example :
    SameQ (λ l r. model) known (receive_all (λ l r. model) known (left info ∷ right info ∷ []))
receive_all-SameQ_example =
    receive_all-SameQ (λ l r. model) known (left info ∷ right info ∷ []) refl

abbrev half : CameraState Bool
half = record waiting { left_info = some info }

receive-IsComputed_example :
    IsComputed (λ l r. model) half (right info) (receive (λ l r. model) half (right info))
unfolding receive right_camera_info_callback try_calculate_q calculate_q
receive-IsComputed_example = receive-IsComputed (λ l r. model) half (right info) refl refl

lookup_transform_queue_lem_example :
    (lookup_transform_queue 48 two_poses ≡ (two_poses, none))
    ⊎ ((r : QueueMatch 48 two_poses) × (lookup_transform_queue 48 two_poses
          ≡ matched 48 two_poses r))
lookup_transform_queue_lem_example = lookup_transform_queue_lem 48 two_poses

abbrev pub node : OctomapManager Bool
node = record {
  map = record { world = world; point_weighing = none };
  camera = waiting;
  transforms = two_poses;
  world_frame = "world";
  robot_frame = "robot";
  use_tf_transforms = false;
  latch_topics = true;
  map_publish_frequency = pos 0;
}

abbrev pub no_tf : Tf
no_tf = record { now = 0; cache_length = 0; can_transform = λ a b c. false; lookup = λ a b c. none }

octomap_callback_null_example :
    octomap_callback 3 no_tf (λ t. 0) (true, none) node ≡ fault null_octree
octomap_callback_null_example = octomap_callback_null 3 no_tf (λ t. 0) (true, none) node refl refl

load_cloud-value_example :
    (t' : FlatTree) × (load_cloud (in_free ∷ []) world ≡ ok (with_tree world t', true))
    × ((j : Key)
        → flat_cells.value t' j ≡ (
            if holds tree (in_free ∷ []) j
            then some (flat_cells.integrate tree true (flat_cells.value tree j))
            else flat_cells.value tree j))
load_cloud-value_example = load_cloud-value flat_cells (in_free ∷ []) world tree refl

insert_pointcloud_with_tf-Inserted_example :
    Inserted 3 no_tf
      (λ t. 0)
      flat_cells
      node
      tree
      48
      (in_free ∷ [])
      (insert_pointcloud_with_tf 3 no_tf (λ t. 0) "camera" 48 (in_free ∷ []) node)
insert_pointcloud_with_tf-Inserted_example =
    insert_pointcloud_with_tf-Inserted 3 no_tf (λ t. 0) flat_cells node tree "camera" 48
      (in_free ∷ []) refl refl refl (λ v k e. cc) ((omega arith, tt), (tt, tt))
      (inr (inl (omega arith, omega arith)))

-- ===== src/Platform.antt =====
-- What the code calls and does not implement: `double`, Eigen vectors and the octree of OctoMap.
pub mod CellMap
pub mod Codec
pub mod Flat
use volumetric_mapping.Common.{ℕ, Bool, List, Option}
use volumetric_mapping.Common.Int.{ℤ}

-- A 3-vector: `Eigen::Vector3d`, `octomap::point3d` (whose fields are `float`), `pcl::PointXYZ`.
pub record Vec3 (A : Type 0) : Type 0 where
  pub x : A
  pub y : A
  pub z : A

-- `octomap::OcTreeKey`: three `uint16_t`, with `key[0]`, `key[1]` and `key[2]`.
pub record Key : Type 0 where
  pub k0 : ℕ
  pub k1 : ℕ
  pub k2 : ℕ

-- What a leaf iterator of the octree shows of the leaf that it stands at.
pub record Leaf (D N : Type 0) : Type 0 where
  pub node : N
  pub key : Key
  pub center : Vec3 D
  pub depth : ℕ
  pub size : D

-- The operations of `double` that the code uses. A `float` is a `double` that `to_float` returned.
pub record Floats : Type 1 where
  pub Double : Type 0
  -- `literal m k` is the constant m · 10⁻ᵏ.
  pub literal : ℕ → ℕ → Double
  pub of_ℕ : ℕ → Double
  pub of_ℤ : ℤ → Double
  pub add : Double → Double → Double
  pub sub : Double → Double → Double
  pub mul : Double → Double → Double
  pub div : Double → Double → Double
  pub neg : Double → Double
  pub lt : Double → Double → Bool
  pub le : Double → Double → Bool
  pub eq : Double → Double → Bool
  pub floor : Double → Double
  pub ceil : Double → Double
  pub is_inf : Double → Bool
  pub to_float : Double → Double
  pub to_int : Double → ℤ
  pub max_double : Double
  -- `std::numeric_limits<double>::min()`, the least positive normalized number.
  pub min_double : Double

-- The operations of Eigen's vectors.
pub record Eigen (D : Type 0) : Type 0 where
  pub vadd : Vec3 D → Vec3 D → Vec3 D
  pub vsub : Vec3 D → Vec3 D → Vec3 D
  pub vscale : Vec3 D → D → Vec3 D
  pub vdiv : Vec3 D → D → Vec3 D
  pub norm : Vec3 D → D
  pub min_coeff : Vec3 D → D
  pub max_coeff : Vec3 D → D
  pub cwise_min : Vec3 D → Vec3 D → Vec3 D
  pub cwise_max : Vec3 D → Vec3 D → Vec3 D

-- `octomap::OcTree` with `point3d`. A method that changes the tree returns the new tree.
pub record Octomap (D : Type 0) : Type 1 where
  pub Tree : Type 0
  pub Node : Type 0
  -- `octomap_msgs::Octomap`, and the serialized form that files and streams hold.
  pub Message : Type 0
  pub Binary : Type 0
  pub create : D → Tree
  pub resolution : Tree → D
  pub clear : Tree → Tree
  pub prune : Tree → Tree
  pub update_inner_occupancy : Tree → Tree
  pub set_prob_hit : D → Tree → Tree
  pub set_prob_miss : D → Tree → Tree
  pub set_clamping_thres_min : D → Tree → Tree
  pub set_clamping_thres_max : D → Tree → Tree
  pub set_occupancy_thres : D → Tree → Tree
  pub enable_change_detection : Bool → Tree → Tree
  pub clamping_thres_min_log : Tree → D
  pub clamping_thres_max_log : Tree → D
  pub search : Tree → Key → Option Node
  pub search_coord : Tree → Vec3 D → Option Node
  pub is_node_occupied : Tree → Node → Bool
  pub occupancy : Node → D
  pub update_node : Key → Bool → Tree → Tree
  -- `setNodeValue(point, log_odds_value, lazy_eval)`.
  pub set_node_value : Vec3 D → D → Bool → Tree → Tree
  pub coord_to_key : Tree → Vec3 D → Key
  pub coord_to_key_checked : Tree → Vec3 D → Option Key
  pub key_to_coord : Tree → Key → Vec3 D
  -- The result of `computeRayKeys`, and the keys that it leaves in its last argument.
  pub compute_ray_keys : Tree → Vec3 D → Vec3 D → Bool × List Key
  pub leafs : Tree → List (Leaf D Node)
  pub leafs_bbx : Tree → Vec3 D → Vec3 D → List (Leaf D Node)
  pub leafs_bbx_key : Tree → Key → Key → List (Leaf D Node)
  pub unknown_leaf_centers : Tree → Vec3 D → Vec3 D → List (Vec3 D)
  pub metric_min : Tree → Vec3 D
  pub metric_max : Tree → Vec3 D
  pub node_size : Tree → ℕ → D
  pub tree_depth : Tree → ℕ
  pub tree_size : Tree → ℕ
  pub changed_keys : Tree → List Key
  pub reset_change_detection : Tree → Tree
  -- `writeBinary` makes the tree a maximum likelihood map first; `writeBinaryConst` does not.
  pub write_binary : Tree → Tree × Bool × Binary
  pub write_binary_const : Tree → Bool × Binary
  pub read_binary : Binary → Tree → Bool × Tree
  -- `point3d` operations.
  pub point_add : Vec3 D → Vec3 D → Vec3 D
  pub point_sub : Vec3 D → Vec3 D → Vec3 D
  pub point_scale : Vec3 D → D → Vec3 D
  pub point_norm : Vec3 D → D
  pub point_normalized : Vec3 D → Vec3 D
  -- `octomap_msgs`: conversions return `none` for the null pointer, and for a tree of another type.
  pub is_binary : Message → Bool
  pub binary_map_to_msg : Tree → Bool × Message
  pub full_map_to_msg : Tree → Bool × Message
  pub binary_msg_to_map : Message → Option Tree
  pub full_msg_to_map : Message → Option Tree

-- Rigid transformations (`kindr::minimal::QuatTransformation`) and the functions of PCL on clouds.
pub record Sensing (D : Type 0) : Type 1 where
  pub Transformation : Type 0
  pub position : Transformation → Vec3 D
  pub transform : Transformation → Vec3 D → Vec3 D
  pub identity : Transformation
  pub inverse : Transformation → Transformation
  pub compose : Transformation → Transformation → Transformation
  pub remove_nan : List (Vec3 D) → List (Vec3 D)
  pub transform_cloud : Transformation → List (Vec3 D) → List (Vec3 D)

-- All of it in one record, which the modules of the development take as an instance.
pub record Platform : Type 1 where
  pub floats : Floats
  pub open floats use *
  pub eigen : Eigen Double
  pub open eigen use *
  pub octomap : Octomap Double
  pub open octomap use *
  pub sensing : Sensing Double
  pub open sensing use *

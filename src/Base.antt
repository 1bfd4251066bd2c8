-- ===== src/Base.antt =====
-- `class WorldBase` and `class PointWeighing`: the matrix Q of a stereo camera, the weights of
-- points, and the choice of the insertion function (volumetric_map_base/src/world_base.cc and the
-- headers volumetric_map_base/include/volumetric_map_base/world_base.h and point_weighing.h).
pub mod Weights
pub mod Virtuals
pub mod Inputs
use volumetric_mapping.Common.{
  ℕ, ◌+◌, Bool, true, false, not, Option, none, some, List, [], ◌∷◌, map, replicate, set, length,
  if◌then◌else◌,
}
use volumetric_mapping.Outcome.{Outcome, ok, ◌>>=◌}
use volumetric_mapping.Platform.{Platform, Vec3}
use volumetric_mapping.World.{OctomapWorld}
use volumetric_mapping.World.Insert.{
  insert_pointcloud_into_map_impl, insert_projected_disparity_into_map_impl,
}

-- The rows and the columns of `Eigen::Matrix4d`.
pub record Row (D : Type 0) : Type 0 where
  pub c0 : D
  pub c1 : D
  pub c2 : D
  pub c3 : D

pub record Matrix4 (D : Type 0) : Type 0 where
  pub r0 : Row D
  pub r1 : Row D
  pub r2 : Row D
  pub r3 : Row D

abbrev pub row : {D : Type 0} → D → D → D → D → Row D
row a b c d = record { c0 = a; c1 = b; c2 = c; c3 = d }

-- `PointWeighing`: the virtual functions of the object that a caller installs.
pub record PointWeighing (D : Type 0) : Type 0 where
  pub compute_weight_for_point : D → D → D → D
  pub compute_weight_for_disparity : ℕ → ℕ → D → D

-- A disparity image, by rows.
pub record Image (D : Type 0) : Type 0 where
  pub cols : ℕ
  pub pixels : List (List D)

-- What the code reads of `image_geometry::StereoCameraModel`.
pub record StereoModel (D : Type 0) : Type 0 where
  pub baseline : D
  pub left_cx : D
  pub left_cy : D
  pub left_fx : D
  pub left_fy : D
  pub right_cx : D
  pub right_cy : D
  pub right_fx : D
  pub right_fy : D

module _ ⦃p : Platform⦄ where
  open p use {Double, Transformation, literal, of_ℕ, lt, sub, mul, div, neg, to_float}

  -- The weights of the class `PointWeighing` itself.
  abbrev pub default_weighing : PointWeighing Double
  default_weighing = record {
    compute_weight_for_point = λ x y z. literal 1 0;
    compute_weight_for_disparity = λ u v d. literal 1 0;
  }

  -- An `OctomapWorld` with the member `point_weighing_` that it inherits.
  pub record Map : Type 0 where
    pub world : OctomapWorld
    pub point_weighing : Option (PointWeighing Double)

  unfoldable set_point_weighing : PointWeighing Double → Map → Map
  set_point_weighing weighing m = record m { point_weighing = some weighing }

  unfoldable clear_point_weighing : Map → Map
  clear_point_weighing m = record m { point_weighing = none }

  unfoldable pub is_point_weighing_set : Map → Bool
  is_point_weighing_set m = elim m.point_weighing [ none ↦ false | some _ ↦ true ]

  unfoldable pub generate_q :
      Double
      → Double
      → Double
      → Double
      → Double
      → Double
      → Double
      → Double
      → Double
      → Matrix4 Double
  generate_q Tx left_cx left_cy left_fx left_fy right_cx right_cy right_fx right_fy =
      let zero = literal 0 0 in
      record {
        r0 = row (mul left_fy Tx) zero zero (mul (mul (neg left_fy) left_cx) Tx);
        r1 = row zero (mul left_fx Tx) zero (mul (mul (neg left_fx) left_cy) Tx);
        r2 = row zero zero zero (mul (mul left_fx left_fy) Tx);
        r3 = row zero zero (neg left_fy) (mul left_fy (sub left_cx right_cx));
      }

  unfoldable pub get_q_for_ros_cameras : StereoModel Double → Matrix4 Double
  get_q_for_ros_cameras stereo_model =
      generate_q (neg stereo_model.baseline) stereo_model.left_cx stereo_model.left_cy
        stereo_model.left_fx stereo_model.left_fy stereo_model.right_cx stereo_model.right_cy
        stereo_model.right_fx stereo_model.right_fy

  -- `fabs(a)`.
  abbrev pub fabs : Double → Double
  fabs a = if lt a (literal 0 0) then neg a else a

  -- Q for an image that is smaller than the full one.
  unfoldable pub downsample_q : Double → Matrix4 Double → Matrix4 Double
  downsample_q factor q =
      if lt (literal 1 6) (fabs (sub factor (literal 1 0)))
      then (let squared = mul factor factor in
          let r₀ = q.r0 in
          let r₁ = q.r1 in
          let r₂ = q.r2 in
          let r₃ = q.r3 in
          record {
            r0 = record r₀ { c0 = div r₀.c0 factor; c3 = div r₀.c3 squared };
            r1 = record r₁ { c1 = div r₁.c1 factor; c3 = div r₁.c3 squared };
            r2 = record r₂ { c3 = div r₂.c3 squared };
            r3 = record r₃ { c2 = div r₃.c2 factor; c3 = div r₃.c3 factor };
          })
      else q

  -- The loop that writes `weights[index]` for each point.
  pub write_weights : PointWeighing Double → List (Vec3 Double) → ℕ → List Double → List Double
  write_weights weighing [] index weights = weights
  write_weights weighing (v ∷ vs) index weights =
      write_weights weighing vs (index + 1)
        (set weights index (weighing.compute_weight_for_point v.x v.y v.z))

  -- `computeWeights` for a cloud. The vector that it resizes is empty.
  pub compute_weights : Option (PointWeighing Double) → List (Vec3 Double) → List Double
  compute_weights none cloud = replicate (length cloud) (literal 1 0)
  compute_weights (some weighing) cloud =
      write_weights weighing cloud 0 (replicate (length cloud) (literal 1 0))

  -- One row of `computeWeights` for an image, from the column `u`. The weights are floats.
  unfoldable pub row_weights : PointWeighing Double → ℕ → ℕ → List Double → List Double
  row_weights weighing v u [] = []
  row_weights weighing v u (d ∷ ds) =
      to_float (weighing.compute_weight_for_disparity u v d) ∷ row_weights weighing v (u + 1) ds

  unfoldable pub rows_weights : PointWeighing Double → ℕ → List (List Double) → List (List Double)
  rows_weights weighing v [] = []
  rows_weights weighing v (ds ∷ more) =
      row_weights weighing v 0 ds ∷ rows_weights weighing (v + 1) more

  unfoldable pub compute_image_weights :
      Option (PointWeighing Double) → Image Double → List (List Double)
  compute_image_weights none disparity =
      map (λ ds. replicate (length ds) (literal 1 0)) disparity.pixels
  compute_image_weights (some weighing) disparity = rows_weights weighing 0 disparity.pixels

  -- The weighted insertions, which `OctomapWorld` does not override: they report an error.
  unfoldable pub insert_pointcloud_into_map_with_weights_impl :
      Transformation → List (Vec3 Double) → List Double → OctomapWorld → Outcome OctomapWorld
  insert_pointcloud_into_map_with_weights_impl sensor_to_world cloud weights w = ok w

  unfoldable pub insert_projected_disparity_into_map_with_weights_impl :
      Transformation → List (Vec3 Double) → List (List Double) → OctomapWorld → Outcome OctomapWorld
  insert_projected_disparity_into_map_with_weights_impl sensor_to_world points weights w = ok w

  unfoldable pub insert_pointcloud : Transformation → List (Vec3 Double) → Map → Outcome Map
  insert_pointcloud T_G_sensor cloud m = do
    let plain = insert_pointcloud_into_map_impl T_G_sensor cloud m.world
    let weights = compute_weights m.point_weighing cloud
    let weighted = insert_pointcloud_into_map_with_weights_impl T_G_sensor cloud weights m.world
    w ← (if not (is_point_weighing_set m) then plain else weighted)
    ok (record m { world = w })

  -- `reproject` is `cv::reprojectImageTo3D`, whose points come by rows.
  unfoldable pub insert_disparity_image :
      (Image Double → Matrix4 Double → List (Vec3 Double))
      → Transformation
      → Image Double
      → Matrix4 Double
      → Double
      → Map
      → Outcome Map
  insert_disparity_image reproject sensor_to_world disparity q_full full_image_width m = do
    let factor = div full_image_width (of_ℕ disparity.cols)
    let points = reproject disparity (downsample_q factor q_full)
    let plain = insert_projected_disparity_into_map_impl sensor_to_world points m.world
    let weights = compute_image_weights m.point_weighing disparity
    let weighted =
        insert_projected_disparity_into_map_with_weights_impl sensor_to_world points weights m.world
    w ← (if not (is_point_weighing_set m) then plain else weighted)
    ok (record m { world = w })

-- ===== src/Base/Inputs.antt =====
-- The forms in which sensor data reach `class WorldBase`, and the matrix Q of unrectified cameras
-- (volumetric_map_base/src/world_base.cc). The conversions of cv_bridge and PCL and the function
-- `cv::stereoRectify` are parameters.
use volumetric_mapping.Common.{List, map}
use volumetric_mapping.Common.Int.{ℤ}
use volumetric_mapping.Outcome.{Outcome}
use volumetric_mapping.Platform.{Platform, Vec3}
use volumetric_mapping.Vector.{vec}
use volumetric_mapping.Base.{Matrix4, Image, Map, insert_pointcloud, insert_disparity_image}

-- `Eigen::Matrix3d`, by rows.
pub record Matrix3 (D : Type 0) : Type 0 where
  pub r0 : Vec3 D
  pub r1 : Vec3 D
  pub r2 : Vec3 D

-- The distortion of a camera: five coefficients.
pub record Distortion (D : Type 0) : Type 0 where
  pub k1 : D
  pub k2 : D
  pub p1 : D
  pub p2 : D
  pub k3 : D

-- What `stereoRectify` is called with. The flag is `CALIB_ZERO_DISPARITY`, and the size of the new
-- image is that of the old one.
pub record Rectification (D : Type 0) : Type 0 where
  pub camera_0 : Matrix3 D
  pub distortion_0 : Distortion D
  pub camera_1 : Matrix3 D
  pub distortion_1 : Distortion D
  pub img_width : ℤ
  pub img_height : ℤ
  pub rotation : Matrix3 D
  pub translation : Vec3 D
  pub alpha : D

module _ ⦃p : Platform⦄ where
  open p use {to_float, Double, Transformation, literal, position, to_int}

  abbrev no_distortion : Distortion Double
  no_distortion =
      let zero = literal 0 0 in record { k1 = zero; k2 = zero; p1 = zero; p2 = zero; k3 = zero }

  -- `cast<float>()`.
  abbrev cast_float : Vec3 Double → Vec3 Double
  cast_float v = vec (to_float v.x) (to_float v.y) (to_float v.z)

  -- `rotation_matrix` is `getRotationMatrix`, and `stereo_rectify` gives its matrix Q.
  unfoldable get_q_for_cameras :
      (Transformation → Matrix3 Double)
      → (Rectification Double → Matrix4 Double)
      → Transformation
      → Matrix3 Double
      → Matrix3 Double
      → Double
      → Double
      → Matrix4 Double
  get_q_for_cameras rotation_matrix stereo_rectify T_C1_C0 left_cam_matrix right_cam_matrix
        full_image_width full_image_height =
      stereo_rectify (record {
        camera_0 = left_cam_matrix;
        distortion_0 = no_distortion;
        camera_1 = right_cam_matrix;
        distortion_1 = no_distortion;
        img_width = to_int full_image_width;
        img_height = to_int full_image_height;
        rotation = rotation_matrix T_C1_C0;
        translation = position T_C1_C0;
        alpha = literal 0 0;
      })

  -- A disparity image that comes as a message.
  unfoldable insert_disparity_message :
      {M : Type 0}
      → (M → Image Double)
      → (Image Double → Matrix4 Double → List (Vec3 Double))
      → Transformation
      → M
      → Matrix4 Double
      → Double
      → Map
      → Outcome Map
  insert_disparity_message to_cv_share reproject sensor_to_world disparity q_full full_image_width
        m =
      insert_disparity_image reproject sensor_to_world (to_cv_share disparity) q_full
        full_image_width m

  -- A cloud that comes as a message.
  unfoldable insert_pointcloud_message :
      {M : Type 0} → (M → List (Vec3 Double)) → Transformation → M → Map → Outcome Map
  insert_pointcloud_message from_ros_msg T_G_sensor pointcloud_sensor m =
      insert_pointcloud T_G_sensor (from_ros_msg pointcloud_sensor) m

  -- A cloud that comes as a matrix, by columns; `from_matrix` stands for `getMatrixXfMap`.
  unfoldable insert_pointcloud_matrix :
      (List (Vec3 Double) → List (Vec3 Double))
      → Transformation
      → List (Vec3 Double)
      → Map
      → Outcome Map
  insert_pointcloud_matrix from_matrix T_G_sensor pointcloud_sensor m =
      insert_pointcloud T_G_sensor (from_matrix (map cast_float pointcloud_sensor)) m

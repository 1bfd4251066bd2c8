-- ===== src/Manager/Camera.antt =====
-- The callbacks for camera infos, which compute Q (octomap_world/src/octomap_manager.cc).
pub mod Once
pub mod Known
pub mod Coefficients
use volumetric_mapping.Common.{
  Bool, true, false, not, Option, none, some, List, [], ◌∷◌, if◌then◌else◌,
}
use volumetric_mapping.Platform.{Platform}
use volumetric_mapping.Base.{Matrix4, row, StereoModel, get_q_for_ros_cameras}
use volumetric_mapping.Manager.{CameraInfo, CameraState}

abbrev pub is_set {ℓ} : {A : Type ℓ} → Option A → Bool
is_set none = false
is_set (some _) = true

module _ ⦃p : Platform⦄ where
  open p use {Double, of_ℕ}

  -- `setQFromParams`: the matrix that a list of 16 coefficients gives by rows.
  pub set_q_from_params : List Double → Option (Matrix4 Double)
  set_q_from_params (a ∷ b ∷ c ∷ d ∷ e ∷ f ∷ g ∷ h ∷ i ∷ j ∷ k ∷ l ∷ m ∷ n ∷ o ∷ q ∷ []) =
      some (record { r0 = row a b c d; r1 = row e f g h; r2 = row i j k l; r3 = row m n o q })
  set_q_from_params _ = none

  -- `from_camera_info` is `StereoCameraModel::fromCameraInfo`.
  module _ {M : Type 0} (from_camera_info : CameraInfo M → CameraInfo M → StereoModel Double) where
    unfoldable pub calculate_q : CameraInfo M → CameraInfo M → CameraState M → CameraState M
    calculate_q left right c = record c {
      q = get_q_for_ros_cameras (from_camera_info left right);
      full_image_width = of_ℕ left.width;
      full_image_height = of_ℕ left.height;
      q_initialized = true;
    }

    -- `if (left_info_ && right_info_ && !Q_initialized_) calculateQ();`
    unfoldable pub try_calculate_q :
        Option (CameraInfo M) → Option (CameraInfo M) → CameraState M → CameraState M
    try_calculate_q (some left) (some right) c =
        if not c.q_initialized then calculate_q left right c else c
    try_calculate_q _ _ c = c

    pub left_camera_info_callback : CameraInfo M → CameraState M → CameraState M
    left_camera_info_callback left_info c =
        try_calculate_q (some left_info) c.right_info (record c { left_info = some left_info })

    unfoldable pub right_camera_info_callback : CameraInfo M → CameraState M → CameraState M
    right_camera_info_callback right_info c =
        try_calculate_q c.left_info (some right_info) (record c { right_info = some right_info })

-- ===== src/Manager/Camera/Known.antt =====
-- When Q becomes known.
use volumetric_mapping.Common.{◌≡◌, Bool, true, false, ◌&&◌, ◌||◌, List, [], ◌∷◌, arith}
use volumetric_mapping.Platform.{Platform}
use volumetric_mapping.Base.{StereoModel}
use volumetric_mapping.Manager.{CameraInfo, CameraState}
use volumetric_mapping.Manager.Camera.{
  is_set, left_camera_info_callback, right_camera_info_callback, try_calculate_q, calculate_q,
}
use volumetric_mapping.Manager.Camera.Once.{Event, left, right, receive, receive_all}

abbrev pub has_left : {M : Type 0} → List (Event M) → Bool
has_left [] = false
has_left (left info ∷ es) = true
has_left (right info ∷ es) = has_left es

abbrev pub has_right : {M : Type 0} → List (Event M) → Bool
has_right [] = false
has_right (left info ∷ es) = has_right es
has_right (right info ∷ es) = true

module _ ⦃p : Platform⦄ {M : Type 0}
    (from_camera_info : CameraInfo M → CameraInfo M → StereoModel p.Double) where
  -- Q is known exactly if both cameras have reported.
  abbrev IsSettled : CameraState M → Type 0
  IsSettled c = c.q_initialized ≡ (is_set c.left_info && is_set c.right_info)

  receive-left :
      (c : CameraState M) (info : CameraInfo M)
      → IsSettled c
      → let c' = receive from_camera_info c (left info) in
        IsSettled c' × (is_set c'.left_info ≡ true) × (c'.right_info ≡ c.right_info)
  unfolding receive left_camera_info_callback try_calculate_q calculate_q
  receive-left c info h = ground arith

  receive-right :
      (c : CameraState M) (info : CameraInfo M)
      → IsSettled c
      → let c' = receive from_camera_info c (right info) in
        IsSettled c' × (is_set c'.right_info ≡ true) × (c'.left_info ≡ c.left_info)
  unfolding receive right_camera_info_callback try_calculate_q calculate_q
  receive-right c info h = ground arith

  -- If at first Q is known exactly if the infos of both cameras are held, then after any sequence
  -- of messages, in any order, Q is known exactly if each camera's info was held at first or is
  -- among the messages. Once both cameras have reported, Q is thus known.
  pub receive_all-known :
      (c : CameraState M) (es : List (Event M))
      → c.q_initialized ≡ (is_set c.left_info && is_set c.right_info)
      → (receive_all from_camera_info c es).q_initialized
        ≡ ((is_set c.left_info || has_left es) && (is_set c.right_info || has_right es))
  unfolding receive_all
  receive_all-known c [] h = ground (arith, h)
  receive_all-known c (left info ∷ es) h =
      let (settled, here, same) = receive-left c info h in
      let rest = receive_all-known (receive from_camera_info c (left info)) es settled in
      ground (arith, rest, here, same)
  receive_all-known c (right info ∷ es) h =
      let (settled, here, same) = receive-right c info h in
      let rest = receive_all-known (receive from_camera_info c (right info)) es settled in
      ground (arith, rest, here, same)

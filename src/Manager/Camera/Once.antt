-- ===== src/Manager/Camera/Once.antt =====
-- The state of the cameras after sequences of messages.
use volumetric_mapping.Common.{
  ◌≡◌, ◌≢◌, refl, ◌↔◌, ◌⊎◌, inl, inr, true, false, none, some, List, [], ◌∷◌, Option-cases, arith,
}
use volumetric_mapping.Platform.{Platform}
use volumetric_mapping.Base.{StereoModel, get_q_for_ros_cameras}
use volumetric_mapping.Manager.{CameraInfo, CameraState}
use volumetric_mapping.Manager.Camera.{
  calculate_q, try_calculate_q, left_camera_info_callback, right_camera_info_callback,
}

-- The messages that reach the two callbacks.
pub data Event (M : Type 0) : Type 0 where
  left : CameraInfo M → Event M
  right : CameraInfo M → Event M

module _ ⦃p : Platform⦄ {M : Type 0} where
  -- As long as Q is not known, a camera has not reported.
  abbrev pub IsWaiting : CameraState M → Type 0
  IsWaiting c = (c.q_initialized ≡ true) ⊎ (c.left_info ≡ none) ⊎ (c.right_info ≡ none)

module _ ⦃p : Platform⦄ {M : Type 0}
    (from_camera_info : CameraInfo M → CameraInfo M → StereoModel p.Double) where
  open p use {Double, of_ℕ}

  unfoldable pub receive : CameraState M → Event M → CameraState M
  receive c (left info) = left_camera_info_callback from_camera_info info c
  receive c (right info) = right_camera_info_callback from_camera_info info c

  unfoldable pub receive_all : CameraState M → List (Event M) → CameraState M
  receive_all c [] = c
  receive_all c (e ∷ es) = receive_all (receive c e) es

  pub receive-IsWaiting : (c : CameraState M) (e : Event M) → IsWaiting c → IsWaiting (receive c e)
  unfolding receive left_camera_info_callback right_camera_info_callback try_calculate_q calculate_q
  receive-IsWaiting c (left info) h = ground arith
  receive-IsWaiting c (right info) h = ground arith

  -- Nothing that the insertion of images reads changes.
  abbrev pub SameQ : CameraState M → CameraState M → Type 0
  SameQ c c' =
      (c'.q_initialized ≡ true)
      × (c'.q ≡ c.q)
      × (c'.full_image_width ≡ c.full_image_width)
      × (c'.full_image_height ≡ c.full_image_height)

  receive-SameQ : (c : CameraState M) (e : Event M) → c.q_initialized ≡ true → SameQ c (receive c e)
  unfolding receive left_camera_info_callback right_camera_info_callback try_calculate_q calculate_q
  receive-SameQ c (left info) h = ground arith
  receive-SameQ c (right info) h = ground arith

  -- Once Q is known, no sequence of messages changes Q or the size of the image again, and Q stays
  -- known.
  pub receive_all-SameQ :
      (c : CameraState M) (es : List (Event M))
      → c.q_initialized ≡ true
      → SameQ c (receive_all c es)
  unfolding receive_all
  receive_all-SameQ c [] h = (h, refl, refl, refl)
  receive_all-SameQ c (e ∷ es) h =
      let step = receive-SameQ c e h in
      let more = receive_all-SameQ (receive c e) es step.0 in ground arith

  -- If Q is known, or one camera has not reported, then this still holds after any sequence of
  -- messages: the node never has the infos of both cameras without Q.
  receive_all-IsWaiting :
      (c : CameraState M) (es : List (Event M)) → IsWaiting c → IsWaiting (receive_all c es)
  unfolding receive_all
  receive_all-IsWaiting c [] h = h
  receive_all-IsWaiting c (e ∷ es) h =
      receive_all-IsWaiting (receive c e) es (receive-IsWaiting c e h)

  -- The infos of the two cameras, where one is that of a message and the other the one that a state
  -- held before.
  abbrev pub AreInfos : CameraState M → Event M → CameraInfo M → CameraInfo M → Type 0
  AreInfos before (left info) l r = (l ≡ info) × (before.right_info ≡ some r)
  AreInfos before (right info) l r = (before.left_info ≡ some l) × (r ≡ info)

  -- Q and the size of the image are those of the info of a message and of the one that the state
  -- before it held for the other camera, and the state `c` holds these two.
  pub record IsComputed (before : CameraState M) (e : Event M) (c : CameraState M) : Type 0 where
    pub left_camera : CameraInfo M
    pub right_camera : CameraInfo M
    pub are_infos : AreInfos before e left_camera right_camera
    pub left_held : c.left_info ≡ some left_camera
    pub right_held : c.right_info ≡ some right_camera
    pub q_computed : c.q ≡ get_q_for_ros_cameras (from_camera_info left_camera right_camera)
    pub width_computed : c.full_image_width ≡ of_ℕ left_camera.width
    pub height_computed : c.full_image_height ≡ of_ℕ left_camera.height

  -- If Q is not known, then the info of one camera makes it known exactly if the other camera has
  -- reported before.
  receive_known :
      (c : CameraState M) (info : CameraInfo M)
      → c.q_initialized ≡ false
      → (((receive c (left info)).q_initialized ≡ true) ↔ (c.right_info ≢ none))
        × (((receive c (right info)).q_initialized ≡ true) ↔ (c.left_info ≢ none))
  unfolding receive left_camera_info_callback right_camera_info_callback try_calculate_q calculate_q
  receive_known c info h = ground arith

  -- The message that makes Q known computes Q from its own info and the one that the node held for
  -- the other camera before, and the size of the image from the one of these two that is the left
  -- camera's; the node then holds these two infos.
  pub receive-IsComputed :
      (c : CameraState M) (e : Event M)
      → c.q_initialized ≡ false
      → (receive c e).q_initialized ≡ true
      → IsComputed c e (receive c e)
  unfolding receive left_camera_info_callback right_camera_info_callback try_calculate_q calculate_q
  receive-IsComputed c (left info) h k = elim (Option-cases c.right_info) [
    | inl e ↦ absurd (ground (arith, e))
    | inr (other, e) ↦ record {
      left_camera = info;
      right_camera = other;
      are_infos = (refl, e);
      left_held = ground (arith, e);
      right_held = ground (arith, e);
      q_computed = ground (arith, e);
      width_computed = ground (arith, e);
      height_computed = ground (arith, e);
    }
  ]
  receive-IsComputed c (right info) h k = elim (Option-cases c.left_info) [
    | inl e ↦ absurd (ground (arith, e))
    | inr (other, e) ↦ record {
      left_camera = other;
      right_camera = info;
      are_infos = (e, refl);
      left_held = ground (arith, e);
      right_held = ground (arith, e);
      q_computed = ground (arith, e);
      width_computed = ground (arith, e);
      height_computed = ground (arith, e);
    }
  ]

-- ===== src/Manager/Transforms.antt =====
-- The lookup of sensor poses, from tf or from a queue of transform messages
-- (octomap_world/src/octomap_manager.cc).
pub mod History
pub mod Answered
pub mod Matching
use Prim.Native.String.{String}
use volumetric_mapping.Common.{
  ℕ, ◌+◌, ◌-◌, Bool, true, false, Option, none, some, List, [], ◌∷◌, ◌++◌, ltb, if◌then◌else◌,
}
use volumetric_mapping.Platform.{Platform}
use volumetric_mapping.Manager.{Stamped, TransformQueue, OctomapManager}

module _ ⦃p : Platform⦄ where
  open p use {Transformation, inverse, compose}

  -- What the code asks of `tf::TransformListener` and of the clock. `lookup` gives `none` where the
  -- listener throws.
  pub record Tf : Type 0 where
    pub now : ℕ
    pub cache_length : ℕ
    pub can_transform : String → String → ℕ → Bool
    pub lookup : String → String → ℕ → Option Transformation

  pub transform_callback : Stamped → TransformQueue → TransformQueue
  transform_callback message q = record q { transform_queue = q.transform_queue ++ message ∷ [] }

  -- The loop over the queue: `match_found`, and the queue from the iterator on.
  pub scan : ℕ → ℕ → List Stamped → Bool × List Stamped
  scan tolerance timestamp [] = (false, [])
  scan tolerance timestamp (m ∷ rest) =
      let later = scan tolerance timestamp rest in
      if ltb timestamp m.stamp
      then (ltb (m.stamp - timestamp) tolerance, m ∷ rest)
      else (if ltb (timestamp - m.stamp) tolerance then (true, m ∷ rest) else later)

  -- `T_G_D * T_B_D_.inverse() * T_B_C_`.
  pub chain : TransformQueue → Transformation → Transformation
  chain q t_g_d = compose (compose t_g_d (inverse q.t_b_d)) q.t_b_c

  -- What follows the loop, for its two results.
  pub finish_lookup : TransformQueue → Bool × List Stamped → TransformQueue × Option Transformation
  finish_lookup q (true, m ∷ rest) =
      (record q { transform_queue = m ∷ rest }, some (chain q m.transform))
  finish_lookup q (_, _) = (q, none)

  pub lookup_transform_queue : ℕ → TransformQueue → TransformQueue × Option Transformation
  lookup_transform_queue timestamp q =
      finish_lookup q (scan q.timestamp_tolerance_ns timestamp q.transform_queue)

  -- The age of the request is a signed duration: a request from the future is always young.
  unfoldable pub time_to_lookup : Tf → String → String → ℕ → Option ℕ
  time_to_lookup tf from_frame to_frame timestamp =
      if tf.can_transform to_frame from_frame timestamp
      then some timestamp
      else (if ltb tf.now (timestamp + tf.cache_length) then some 0 else none)

  unfoldable pub lookup_transform_tf : Tf → String → String → ℕ → Option Transformation
  lookup_transform_tf tf from_frame to_frame timestamp =
      elim (time_to_lookup tf from_frame to_frame timestamp) [
        | none ↦ none
        | some time ↦ tf.lookup to_frame from_frame time
      ]

  unfoldable pub lookup_transform :
      {M : Type 0}
      → Tf
      → String
      → String
      → ℕ
      → OctomapManager M
      → OctomapManager M × Option Transformation
  lookup_transform tf from_frame to_frame timestamp m =
      if m.use_tf_transforms
      then (m, lookup_transform_tf tf from_frame to_frame timestamp)
      else (let r = lookup_transform_queue timestamp m.transforms in
          (record m { transforms = r.0 }, r.1))

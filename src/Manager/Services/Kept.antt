-- ===== src/Manager/Services/Kept.antt =====
-- What publishing leaves of a node (octomap_world/src/octomap_manager.cc).
use mathlib.Core.Path.{subst}
use Prim.Native.String.{String}
use volumetric_mapping.Common.{
  ℕ, ◌≡◌, refl, ap, ◌⊎◌, inl, inr, Bool, true, false, ◌||◌, some, [], arith, if◌then◌else◌,
}
use volumetric_mapping.Outcome.{Outcome, ok, fault, ◌>>=◌}
use volumetric_mapping.Platform.{Platform}
use volumetric_mapping.World.{OctomapWorld, with_tree}
use volumetric_mapping.World.Markers.{MarkerArrays, generate_marker_array}
use volumetric_mapping.Manager.{OctomapManager}
use volumetric_mapping.Manager.Transforms.{Tf}
use volumetric_mapping.Manager.Publish.{
  Topic, occupied_nodes, free_nodes, binary_map, full_map, has_subscribers, publish_markers,
  publish_map, publish_cloud, publish_nearest_obstacle, publish_all,
}
use volumetric_mapping.Manager.Services.{world_of, with_world, Published}

-- The property holds of the value, if there is one.
abbrev pub IfOk {ℓ κ} : {A : Type ℓ} → (A → Type κ) → Outcome A → Type κ
IfOk P (ok a) = P a
IfOk P (fault f) = Unit

module _ {ℓ κ} {A : Type ℓ} (P : A → Type κ) where
  >>=-IfOk {μ} :
      {B : Type μ} (first : Outcome B) (next : B → Outcome A)
      → ((b : B) → first ≡ ok b → IfOk P (next b))
      → IfOk P (first >>= next)
  >>=-IfOk (ok b) next h = h b refl
  >>=-IfOk (fault f) next h = tt

  if-IfOk : (b : Bool) (x y : Outcome A) → IfOk P x → IfOk P y → IfOk P (if b then x else y)
  if-IfOk true x y hx hy = hx
  if-IfOk false x y hx hy = hy

  pub IfOk-map {μ} : (Q : A → Type μ) (o : Outcome A) → ((a : A) → P a → Q a) → IfOk P o → IfOk Q o
  IfOk-map Q (ok a) f h = f a h
  IfOk-map Q (fault e) f h = tt

  IfOk-ok : {o : Outcome A} {a : A} → o ≡ ok a → IfOk P o → P a
  IfOk-ok e h = subst (IfOk P) e h

module _ ⦃p : Platform⦄ where
  open p use {Tree, prune}

  generate_marker_array-pruned :
      (tf_frame : String) (arrays : MarkerArrays) (w : OctomapWorld) (t : Tree)
      (r : OctomapWorld × MarkerArrays)
      → w.octree ≡ some t
      → generate_marker_array tf_frame arrays w ≡ ok r
      → r.0 ≡ with_tree w (prune t)
  unfolding generate_marker_array
  generate_marker_array-pruned tf_frame arrays w t r here e = ground (arith, here, e)

  module _ {M : Type 0} (fuel : ℕ) (tf : Tf) (subscribers : Topic → ℕ) where
    -- A node is as it was, but that its octree may have been pruned.
    abbrev pub IsKept : OctomapManager M → Tree → OctomapManager M → Type 0
    IsKept m t m' = (m' ≡ m) ⊎ (m' ≡ with_world m (with_tree (world_of m) (prune t)))

    publish_markers-IsKept :
        (m : OctomapManager M) (t : Tree)
        → (world_of m).octree ≡ some t
        → IfOk (λ (r : Published M). IsKept m t r.0) (publish_markers fuel tf subscribers m)
    unfolding publish_markers
    publish_markers-IsKept m t here =
        let is_kept = λ (r : Published M). IsKept m t r.0 in
        if-IfOk is_kept
          (m.latch_topics
            || has_subscribers subscribers occupied_nodes
            || has_subscribers subscribers free_nodes)
          _ _
          (>>=-IfOk is_kept (generate_marker_array m.world_frame ([], []) (world_of m)) _ (λ r e.
            inr (
              ap (with_world m)
                (generate_marker_array-pruned m.world_frame ([], []) (world_of m) t r here e))))
          (inl refl)

    pub publish_all-IsKept :
        (m : OctomapManager M) (t : Tree)
        → (world_of m).octree ≡ some t
        → IfOk (λ (r : Published M). IsKept m t r.0) (publish_all fuel tf subscribers m)
    unfolding publish_all
    publish_all-IsKept m t here =
        let is_kept = λ (r : Published M). IsKept m t r.0 in
        >>=-IfOk is_kept (publish_markers fuel tf subscribers m) _ (λ r e.
          let kept : IsKept m t r.0 = IfOk-ok is_kept e (publish_markers-IsKept m t here) in
          >>=-IfOk is_kept (publish_map fuel tf subscribers binary_map r.0) _ (λ _ _.
            >>=-IfOk is_kept (publish_map fuel tf subscribers full_map r.0) _ (λ _ _.
              >>=-IfOk is_kept (publish_cloud fuel tf subscribers r.0) _ (λ _ _.
                >>=-IfOk is_kept (publish_nearest_obstacle fuel tf subscribers r.0) _
                  (λ _ _. kept)))))

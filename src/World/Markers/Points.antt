-- ===== src/World/Markers/Points.antt =====
-- Which points the markers of `generateMarkerArray` show, for the whole function.
use Prim.Native.String.{String}
use volumetric_mapping.Common.{
  ℕ, zero, suc, ◌+◌, ◌<◌, ◌≡◌, refl, ap, ◌∙◌, Bool, true, false, some, List, [], ◌∷◌, ◌++◌, All,
  length, if◌then◌else◌,
}
use volumetric_mapping.Outcome.{Outcome, ok}
use volumetric_mapping.Platform.{Platform}
use volumetric_mapping.World.{OctomapWorld, with_tree}
use volumetric_mapping.World.Markers.{
  Marker, MarkerArrays, resize, prepare, set_actions, generate_marker_array,
}
use volumetric_mapping.World.Markers.Leafs.{points_at, shown, pick, add_leafs-Added}

module _ ⦃p : Platform⦄ where
  open p use {
    Double, Tree, Node, lt, leafs, prune, tree_depth, is_node_occupied, metric_min, metric_max,
  }

  length-prepare :
      (tf_frame : String) (t : Tree) (i : ℕ) (ms : List (Marker Double))
      → length (prepare tf_frame t i ms) ≡ length ms
  unfolding prepare
  length-prepare tf_frame t i [] = refl
  length-prepare tf_frame t i (m ∷ ms) = ap suc (length-prepare tf_frame t (i + 1) ms)

  length-resize : (n : ℕ) → length (resize n []) ≡ n
  unfolding resize
  length-resize zero = refl
  length-resize (suc n) = ap suc (length-resize n)

  points_at-prepare :
      (tf_frame : String) (t : Tree) (n i j : ℕ)
      → points_at (prepare tf_frame t i (resize n [])) j ≡ []
  unfolding prepare resize
  points_at-prepare tf_frame t zero i j = refl
  points_at-prepare tf_frame t (suc n) i zero = refl
  points_at-prepare tf_frame t (suc n) i (suc j) = points_at-prepare tf_frame t n (i + 1) j

  points_at-set_actions :
      (ms : List (Marker Double)) (j : ℕ) → points_at (set_actions ms) j ≡ points_at ms j
  unfolding set_actions
  points_at-set_actions [] j = refl
  points_at-set_actions (m ∷ ms) zero = refl
  points_at-set_actions (m ∷ ms) (suc j) = points_at-set_actions ms j

  -- The bounds of the heights that are shown: those of the map, cut to those of the parameters.
  abbrev pub lowest : OctomapWorld → Tree → Double
  lowest w t =
      let low = (metric_min t).z in
      if lt low w.params.visualize_min_z then w.params.visualize_min_z else low

  abbrev pub highest : OctomapWorld → Tree → Double
  highest w t =
      let high = (metric_max t).z in
      if lt w.params.visualize_max_z high then w.params.visualize_max_z else high

  -- The markers show each leaf within the bounds once, at the depth of the leaf.
  abbrev pub Shows : OctomapWorld → Tree → Outcome (OctomapWorld × MarkerArrays) → Type 0
  Shows w t outcome =
      (arrays : MarkerArrays) × (outcome ≡ ok (with_tree w t, arrays))
      × ((b : Bool) (j : ℕ)
          → points_at (pick t (lowest w t) (highest w t) b arrays) j
            ≡ shown t (lowest w t) (highest w t) b j (leafs t))

  pick-actions :
      (t : Tree) (lo hi : Double) (arrays : MarkerArrays) (b : Bool) (j : ℕ)
      → points_at (pick t lo hi b (set_actions arrays.0, set_actions arrays.1)) j
        ≡ points_at (pick t lo hi b arrays) j
  pick-actions t lo hi arrays true j = points_at-set_actions arrays.0 j
  pick-actions t lo hi arrays false j = points_at-set_actions arrays.1 j

  pick-same :
      (t : Tree) (lo hi : Double) (ms : List (Marker Double)) (b : Bool)
      → pick t lo hi b (ms, ms) ≡ ms
  pick-same t lo hi ms true = refl
  pick-same t lo hi ms false = refl

  -- If the octree is there and no leaf of the pruned octree lies deeper than the octree's depth, then
  -- `generateMarkerArray`, given empty arrays, stays within the arrays that it makes and only prunes
  -- the octree; the marker of each depth holds the centers of exactly the leafs of this depth between
  -- the bounds on the height, in order, occupied leafs in one array and the others in the other.
  pub generate_marker_array-Shows :
      (tf_frame : String) (w : OctomapWorld) (t : Tree)
      → w.octree ≡ some t
      → All (λ leaf. leaf.depth < tree_depth (prune t) + 1) (leafs (prune t))
      → Shows w (prune t) (generate_marker_array tf_frame ([], []) w)
  unfolding generate_marker_array
  generate_marker_array-Shows tf_frame w t₀ here depths =
      let t = prune t₀ in
      let n = tree_depth t + 1 in
      let lo = lowest w t in
      let hi = highest w t in
      let ready = prepare tf_frame t 0 (resize n []) in
      let ready_length = length-prepare tf_frame t 0 (resize n []) ∙ length-resize n in
      let r = add_leafs-Added t lo hi n (leafs t) (ready, ready) depths ready_length ready_length in
      (
        (set_actions r.result.0, set_actions r.result.1),
        rw (here, r.done),
        λ b j.
            pick-actions t lo hi r.result b j
            ∙ (r.points b j
                ∙ ap (λ vs. vs ++ shown t lo hi b j (leafs t))
                    (ap (λ ms. points_at ms j) (pick-same t lo hi ready b)
                      ∙ points_at-prepare tf_frame t n 0 j)),
      )

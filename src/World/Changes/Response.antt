-- ===== src/World/Changes/Response.antt =====
-- What `getChangedPoints` returns.
use volumetric_mapping.Common.{
  ◌≡◌, ◌≢◌, refl, Bool, true, false, none, some, inl, inr, List, [], ◌∷◌, map, All, Option-cases,
  Bool-cases, if◌then◌else◌, arith,
}
use volumetric_mapping.Outcome.{◌>>=◌, ok, fault, null_node}
use volumetric_mapping.Platform.{Platform, Vec3, Key}
use volumetric_mapping.Vector.{point_octomap_to_eigen}
use volumetric_mapping.World.{OctomapWorld, with_tree}
use volumetric_mapping.World.Changes.{Changes, changes_of, get_changed_points}
use volumetric_mapping.World.Speckle.{occupied_at}

module _ ⦃p : Platform⦄ where
  open p use {
    Double, Tree, search, is_node_occupied, key_to_coord, changed_keys, reset_change_detection,
  }

  abbrev pub cell_center : Tree → Key → Vec3 Double
  cell_center t key = point_octomap_to_eigen (key_to_coord t key)

  -- All changed keys, with their states.
  abbrev pub all_changes : Bool → Tree → List Key → Changes Double
  all_changes wanted t keys = record {
    changed_points = map (cell_center t) keys;
    changed_states = if wanted then map (occupied_at t) keys else [];
  }

  abbrev pub IsPresent : Tree → Key → Type 0
  IsPresent t key = search t key ≢ none

  changes_of_present :
      (wanted : Bool) (t : Tree) (keys : List Key)
      → All (IsPresent t) keys
      → changes_of wanted t keys ≡ ok (all_changes wanted t keys)
  unfolding changes_of occupied_at
  changes_of_present true t [] h = refl
  changes_of_present false t [] h = refl
  changes_of_present true t (key ∷ keys) (h, hs) = ground (arith, changes_of_present true t keys hs)
  changes_of_present false t (key ∷ keys) (h, hs) =
      ground (arith, changes_of_present false t keys hs)

  changes_of_absent :
      (wanted : Bool) (t : Tree) (keys : List Key)
      → ¬ All (IsPresent t) keys
      → changes_of wanted t keys ≡ fault null_node
  unfolding changes_of
  changes_of_absent wanted t [] h = absurd (h tt)
  changes_of_absent wanted t (key ∷ keys) h = elim (Option-cases (search t key)) [
    | inl e ↦ rw (e, changes_of)
    | inr (node, e) ↦
        let rest = changes_of_absent wanted t keys (λ hs. h (ground arith, hs)) in ground arith
  ]

  -- If the octree is there and finds a node for each changed key, then `getChangedPoints` returns
  -- the centers of all changed cells in order, with their states if they are asked for, and resets
  -- the change detection.
  pub get_changed_points-All :
      (wanted : Bool) (w : OctomapWorld) (t : Tree)
      → w.octree ≡ some t
      → All (IsPresent t) (changed_keys t)
      → get_changed_points wanted w
        ≡ ok (with_tree w (reset_change_detection t), all_changes wanted t (changed_keys t))
  unfolding get_changed_points
  get_changed_points-All wanted w t here h =
      ground (arith, here, changes_of_present wanted t (changed_keys t) h)

  -- If the octree is there and has no node for some changed key, then `getChangedPoints` reads a
  -- null node.
  pub get_changed_points_absent :
      (wanted : Bool) (w : OctomapWorld) (t : Tree)
      → w.octree ≡ some t
      → ¬ All (IsPresent t) (changed_keys t)
      → get_changed_points wanted w ≡ fault null_node
  unfolding get_changed_points
  get_changed_points_absent wanted w t here h =
      ground (arith, here, changes_of_absent wanted t (changed_keys t) h)

  -- If the octree is there and finds a node for each changed key, and a reset leaves no changed
  -- key, then two consecutive calls of `getChangedPoints` succeed, and the second returns nothing.
  pub get_changed_points_twice :
      (wanted wanted' : Bool) (w : OctomapWorld) (t : Tree)
      → w.octree ≡ some t
      → All (IsPresent t) (changed_keys t)
      → ((t₀ : Tree) → changed_keys (reset_change_detection t₀) ≡ [])
      → (get_changed_points wanted w >>= λ r. get_changed_points wanted' r.0)
        ≡ ok (
          with_tree w (reset_change_detection (reset_change_detection t)),
          record { changed_points = []; changed_states = [] },
        )
  get_changed_points_twice wanted wanted' w t here h law =
      let first = get_changed_points-All wanted w t here h in
      let w' = with_tree w (reset_change_detection t) in
      let second =
        get_changed_points-All wanted' w' (reset_change_detection t) refl (rw (law t) tt) in
      rw (first, second, law t)
        (elim (Bool-cases wanted') [ inl e ↦ rw e refl | inr e ↦ rw e refl ])

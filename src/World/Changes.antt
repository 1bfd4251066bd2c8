-- ===== src/World/Changes.antt =====
-- Change detection (octomap_world/src/octomap_world.cc).
pub mod Response
use volumetric_mapping.Common.{Bool, none, some, List, [], ◌∷◌, if◌then◌else◌}
use volumetric_mapping.Outcome.{Outcome, ok, fault, null_node, ◌>>=◌}
use volumetric_mapping.Platform.{Platform, Vec3, Key}
use volumetric_mapping.Vector.{point_octomap_to_eigen}
use volumetric_mapping.World.{OctomapWorld, tree_of, with_tree}

-- `*changed_points` and `*changed_states`.
pub record Changes (D : Type 0) : Type 0 where
  pub changed_points : List (Vec3 D)
  pub changed_states : List Bool

module _ ⦃p : Platform⦄ where
  open p use {
    Double, Tree, search, is_node_occupied, key_to_coord, changed_keys, reset_change_detection,
  }

  -- The loop over the changed keys. `isNodeOccupied` reads the node, which may be null.
  unfoldable pub changes_of : Bool → Tree → List Key → Outcome (Changes Double)
  changes_of wanted t [] = ok (record { changed_points = []; changed_states = [] })
  changes_of wanted t (key ∷ keys) =
      let rest = changes_of wanted t keys in
      elim (search t key) [
        | none ↦ fault null_node
        | some node ↦ rest >>= λ more. ok (record {
          changed_points = point_octomap_to_eigen (key_to_coord t key) ∷ more.changed_points;
          changed_states =
              if wanted then is_node_occupied t node ∷ more.changed_states else more.changed_states;
        })
      ]

  -- `wanted` says whether the pointer `changed_states` is not null.
  unfoldable pub get_changed_points : Bool → OctomapWorld → Outcome (OctomapWorld × Changes Double)
  get_changed_points wanted w = do
    t ← tree_of w
    changes ← changes_of wanted t (changed_keys t)
    ok (with_tree w (reset_change_detection t), changes)

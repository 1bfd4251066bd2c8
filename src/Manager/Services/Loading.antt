-- ===== src/Manager/Services/Loading.antt =====
-- Which file format a path names, and what loading a cloud does.
use volumetric_mapping.Common.{
  ℕ, ◌≡◌, refl, true, false, Bool, none, some, List, [], ◌∷◌, ◌++◌, ◌==◌, ◌||◌, All, Option-cases,
  ◌⊎◌, inl, inr, if◌then◌else◌, length, arith,
}
use volumetric_mapping.Outcome.{ok, fault, null_node, ◌>>=◌}
use volumetric_mapping.Platform.{Platform, Vec3, Key}
use volumetric_mapping.Platform.CellMap.{CellMap, is_key}
use volumetric_mapping.Vector.{point_octomap_to_eigen}
use volumetric_mapping.KeySet.{
  KeySet, IsKeySet, contains, insert, contains-insert, insert-IsKeySet, contains-nil,
}
use volumetric_mapping.World.{OctomapWorld, with_tree}
use volumetric_mapping.World.Insert.{Cells, insert_checked, update_occupancy}
use volumetric_mapping.World.Insert.Update.{update_occupancy-value}
use volumetric_mapping.World.Changes.{Changes, changes_of, get_changed_points}
use volumetric_mapping.Manager.Services.{
  extension_from, extension, checked_keys, load_cloud, get_changed_points_callback,
}

extension_from_plain :
    (rest ext : List ℕ) → All (λ c. (c == b'.') ≡ false) ext → extension_from rest ext ≡ rest
unfolding extension_from
extension_from_plain rest [] h = refl
extension_from_plain rest (c ∷ cs) (h, hs) = rw h (extension_from_plain rest cs hs)

extension_from_lem :
    (rest name ext : List ℕ)
    → All (λ c. (c == b'.') ≡ false) ext
    → extension_from rest (name ++ b'.' ∷ ext) ≡ ext
unfolding extension_from
extension_from_lem rest [] ext h = extension_from_plain ext ext h
extension_from_lem rest (c ∷ cs) ext h =
    extension_from_lem (if c == b'.' then cs ++ b'.' ∷ ext else rest) cs ext h

-- If the part behind a dot holds no dot, the extension of the path is this part, whatever stands
-- before the dot.
pub extension-append :
    (name ext : List ℕ) → All (λ c. (c == b'.') ≡ false) ext → extension (name ++ b'.' ∷ ext) ≡ ext
unfolding extension
extension-append name ext h = extension_from_lem (name ++ b'.' ∷ ext) name ext h

module _ ⦃p : Platform⦄ where
  open p use {Double, Tree, coord_to_key_checked}

  -- Some point of a cloud has the key.
  abbrev pub holds : Tree → List (Vec3 Double) → Key → Bool
  holds t [] j = false
  holds t (v ∷ vs) j = is_key (coord_to_key_checked t v) j || holds t vs j

  insert_checked-none : (s : KeySet) → insert_checked none s ≡ s
  unfolding insert_checked
  insert_checked-none s = refl

  insert_checked-some : (s : KeySet) (k : Key) → insert_checked (some k) s ≡ insert k s
  unfolding insert_checked
  insert_checked-some s k = refl

  checked_keys-IsKeySet :
      (t : Tree) (vs : List (Vec3 Double)) (s : KeySet)
      → IsKeySet s
      → IsKeySet (checked_keys t vs s)
  unfolding checked_keys insert_checked
  checked_keys-IsKeySet t [] s h = h
  checked_keys-IsKeySet t (v ∷ vs) s h = elim (Option-cases (coord_to_key_checked t v)) [
    | inl e ↦ rw e (checked_keys-IsKeySet t vs s h)
    | inr (k, e) ↦ rw e (checked_keys-IsKeySet t vs _ (insert-IsKeySet s k h))
  ]

  checked_keys-holds :
      (t : Tree) (vs : List (Vec3 Double)) (s : KeySet) (j : Key)
      → contains (checked_keys t vs s) j ≡ (contains s j || holds t vs j)
  unfolding checked_keys
  checked_keys-holds t [] s j = ground arith
  checked_keys-holds t (v ∷ vs) s j = elim (Option-cases (coord_to_key_checked t v)) [
    | inl e ↦
        let more = checked_keys-holds t vs (insert_checked (coord_to_key_checked t v) s) j in
        ground (arith, e, more, insert_checked-none s)
    | inr (k, e) ↦
        let more = checked_keys-holds t vs (insert_checked (coord_to_key_checked t v) s) j in
        ground (arith, e, more, insert_checked-some s k, contains-insert s k j)
  ]

  -- If the octree is there and is a map of cells as documented, then loading a cloud succeeds and
  -- changes only the octree: each cell that has the checked key of some point gets exactly one hit,
  -- and no other cell changes.
  pub load_cloud-value :
      (m : CellMap) (cloud : List (Vec3 Double)) (w : OctomapWorld) (t : Tree)
      → w.octree ≡ some t
      → (t' : Tree) × (load_cloud cloud w ≡ ok (with_tree w t', true))
        × ((j : Key)
            → m.value t' j
              ≡ (if holds t cloud j then some (m.integrate t true (m.value t j)) else m.value t j))
  unfolding load_cloud
  load_cloud-value m cloud w t here =
      let cells : Cells = record { free_cells = []; occupied_cells = checked_keys t cloud [] } in
      (
        (update_occupancy cells t).1,
        ground (arith, here),
        λ j. ground (
          arith,
          update_occupancy-value m cells t j tt (checked_keys-IsKeySet t cloud [] tt),
          checked_keys-holds t cloud [] j,
          contains-nil j,
        ),
      )

  -- Either there are as many states as points, or the loop reads a null node.
  changes_of-length :
      (t : Tree) (keys : List Key)
      → ((c : Changes Double) × (changes_of true t keys ≡ ok c)
          × (length c.changed_points ≡ length c.changed_states))
        ⊎ (changes_of true t keys ≡ fault null_node)
  unfolding changes_of
  changes_of-length t [] = inl (record { changed_points = []; changed_states = [] }, refl, refl)
  changes_of-length t (key ∷ keys) =
      let rest = changes_of-length t keys in
      elim (Option-cases (p.search t key)) [
        | inl e ↦ inr (rw (e, changes_of))
        | inr (node, e) ↦ elim rest [
          | inl (c, e', same) ↦
              let longer : Changes Double = record {
                changed_points = point_octomap_to_eigen (p.key_to_coord t key) ∷ c.changed_points;
                changed_states = p.is_node_occupied t node ∷ c.changed_states;
              } in
              inl (longer, ground (arith, e, e'), ground (arith, same))
          | inr e' ↦ inr (ground (arith, e, e'))
        ]
      ]

  -- `getChangedPointsCallback` returns what `getChangedPoints` returns, with the states, and fails
  -- only where that fails: its check that there are as many states as points never refuses.
  get_changed_points_callback_lem :
      (w : OctomapWorld)
      → get_changed_points_callback w ≡ (get_changed_points true w >>= λ r. ok (r.0, some r.1))
  unfolding get_changed_points_callback get_changed_points
  get_changed_points_callback_lem w = elim (Option-cases w.octree) [
    | inl e ↦ ground (arith, e)
    | inr (t, e) ↦ elim (changes_of-length t (p.changed_keys t)) [
      | inl (c, e', same) ↦ ground (arith, e, e', same)
      | inr e' ↦ ground (arith, e, e')
    ]
  ]

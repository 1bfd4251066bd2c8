-- ===== src/World/Region/Borders.antt =====
-- The cells that `setBordersOccupied` sets.
use volumetric_mapping.Common.{ℕ, ◌≡◌, refl, true, some, List, [], ◌∷◌, if◌then◌else◌, All, arith}
use volumetric_mapping.Outcome.{ok, >>=-eq-ok}
use volumetric_mapping.Platform.{Platform, Vec3, Key}
use volumetric_mapping.Platform.CellMap.{CellMap}
use volumetric_mapping.KeySet.{KeySet}
use volumetric_mapping.World.{include_partial_boxes, OctomapWorld, with_tree}
use volumetric_mapping.World.Region.{
  get_keys_bounding_box, set_keys, get_map_center, get_map_size, border_keys, set_borders_occupied,
}
use volumetric_mapping.World.Region.Slabs.{
  Slab, slabs, low_x, high_x, low_y, high_y, low_z, high_z, centered_keys, centered, slab_positions,
  SlabEnds, slab_keys, slab_keys-centered,
}

module _ ⦃p : Platform⦄ where
  open p use {
    Double, Tree, literal, add, sub, div, coord_to_key_checked, key_to_coord, set_node_value,
    clamping_thres_max_log, prune, update_inner_occupancy,
  }

  slab_keys-cons :
      (fuel : ℕ) (t : Tree) (slab : Slab) (more : List Slab) (keys : KeySet) {ks : KeySet}
      → slab_keys fuel t (slab ∷ more) keys ≡ ok ks
      → (keys' : KeySet) × (get_keys_bounding_box fuel t slab.0 slab.1 include_partial_boxes keys
          ≡ ok keys')
        × (slab_keys fuel t more keys' ≡ ok ks)
  unfolding slab_keys
  slab_keys-cons fuel t (center, size) more keys e = >>=-eq-ok _ _ e

  set_borders_occupied-slabs :
      (fuel : ℕ) (cropping : Vec3 Double) (w : OctomapWorld) (t : Tree) (c s : Vec3 Double)
      (ks : KeySet)
      → w.octree ≡ some t
      → get_map_center w ≡ ok c
      → get_map_size w ≡ ok s
      → slab_keys fuel t (slabs c s cropping) [] ≡ ok ks
      → set_borders_occupied fuel cropping w
        ≡ ok (
            with_tree w (prune (update_inner_occupancy (set_keys (clamping_thres_max_log t) ks t))))
  unfolding set_borders_occupied border_keys slab_keys
  set_borders_occupied-slabs fuel cropping w t c s ks here ce se e =
      let l₆ : List Slab = [] in
      let l₅ = high_z c s cropping ∷ l₆ in
      let l₄ = low_z c s cropping ∷ l₅ in
      let l₃ = high_y c s cropping ∷ l₄ in
      let l₂ = low_y c s cropping ∷ l₃ in
      let l₁ = high_x c s cropping ∷ l₂ in
      let (k₁, e₁, r₁) = slab_keys-cons fuel t (low_x c s cropping) l₁ [] e in
      let (k₂, e₂, r₂) = slab_keys-cons fuel t (high_x c s cropping) l₂ k₁ r₁ in
      let (k₃, e₃, r₃) = slab_keys-cons fuel t (low_y c s cropping) l₃ k₂ r₂ in
      let (k₄, e₄, r₄) = slab_keys-cons fuel t (high_y c s cropping) l₄ k₃ r₃ in
      let (k₅, e₅, r₅) = slab_keys-cons fuel t (low_z c s cropping) l₅ k₄ r₄ in
      let (k₆, e₆, r₆) = slab_keys-cons fuel t (high_z c s cropping) l₆ k₅ r₅ in
      ground (arith, ce, se, here, e₁, e₂, e₃, e₄, e₅, e₆, r₆)

  module _ (m : CellMap) where
    open m use {
      value, clamp, value-set_node_value, clamp-set_node_value, checked-set_node_value,
      value-update_inner, value-prune, key_to_coord-set_node_value,
    }

    centered_keys-set_node_value :
        (v : Vec3 Double) (a : Double) (t : Tree) (ks : KeySet) (j : Key)
        → centered_keys (set_node_value v a true t) ks j ≡ centered_keys t ks j
    centered_keys-set_node_value v a t [] j = refl
    centered_keys-set_node_value v a t (k ∷ ks) j = rw (
      checked-set_node_value t v a true,
      key_to_coord-set_node_value t v a true,
      centered_keys-set_node_value v a t ks j,
    )

    set_keys-value :
        (a : Double) (ks : KeySet) (t : Tree) (j : Key)
        → value (set_keys a ks t) j ≡ (if centered_keys t ks j then some (clamp t a) else value t j)
    unfolding set_keys
    set_keys-value a [] t j = refl
    set_keys-value a (k ∷ ks) t j =
        let u = key_to_coord t k in
        ground (
          arith,
          set_keys-value a ks (set_node_value u a true t) j,
          value-set_node_value t u a true j,
          clamp-set_node_value t u a true,
          centered_keys-set_node_value u a t ks j,
        )

    -- If the octree is there and the loops over the six slabs at the faces of the map end within
    -- the fuel, `setBordersOccupied` succeeds: the cell of each position of these loops gets the
    -- upper clamping threshold, as the octree stores it, and no other cell changes.
    pub set_borders_occupied-Sets :
        (fuel : ℕ) (cropping : Vec3 Double) (w : OctomapWorld) (t : Tree) (c s : Vec3 Double)
        → w.octree ≡ some t
        → get_map_center w ≡ ok c
        → get_map_size w ≡ ok s
        → All (SlabEnds fuel t) (slabs c s cropping)
        → (vs : List (Vec3 Double)) × (t' : Tree) × (slab_positions fuel t (slabs c s cropping)
            ≡ ok vs)
          × (set_borders_occupied fuel cropping w ≡ ok (with_tree w t'))
          × ((j : Key)
              → value t' j ≡ (
                  if centered t vs j then some (clamp t (clamping_thres_max_log t)) else value t j))
    set_borders_occupied-Sets fuel cropping w t c s here ce se ends =
        let a = clamping_thres_max_log t in
        let (vs, ks, positions, keys, same) =
          slab_keys-centered fuel t (slabs c s cropping) [] ends in
        let set = set_keys a ks t in
        (
          vs,
          prune (update_inner_occupancy set),
          positions,
          set_borders_occupied-slabs fuel cropping w t c s ks here ce se keys,
          λ j. ground (
            arith,
            value-prune (update_inner_occupancy set) j,
            value-update_inner set j,
            set_keys-value a ks t j,
            same j,
          ),
        )

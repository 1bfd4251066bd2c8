-- ===== src/World/Region/Slabs.antt =====
-- The slabs at the faces of the map that `setBordersOccupied` runs over, and the keys it finds there.
use volumetric_mapping.Common.{
  ℕ, ◌≡◌, refl, Bool, true, false, ◌||◌, Bool-cases, inl, inr, List, [], ◌∷◌, ◌++◌, All, arith,
}
use volumetric_mapping.Outcome.{Outcome, ok, ◌>>=◌}
use volumetric_mapping.Platform.{Platform, Vec3, Key}
use volumetric_mapping.Platform.CellMap.{is_key}
use volumetric_mapping.Loop.Box.{grid_total}
use volumetric_mapping.Vector.{two}
use volumetric_mapping.KeySet.{KeySet, key_eq, contains, insert, eq_of_key_eq}
use volumetric_mapping.World.{include_partial_boxes}
use volumetric_mapping.World.Region.{
  adjust_bounding_box, box_positions, coord_to_key_eigen, insert_keys, get_keys_bounding_box,
}
use volumetric_mapping.World.Region.Values.{BoxEnds}

module _ ⦃p : Platform⦄ where
  open p use {
    Double, Tree, literal, add, sub, div, coord_to_key_checked, key_to_coord, set_node_value,
    clamping_thres_max_log, prune, update_inner_occupancy,
  }

  -- A box at the border: its center and its size.
  abbrev pub Slab : Type 0
  Slab = Vec3 Double × Vec3 Double

  abbrev lower : Double → Double → Double → Double
  lower center side cropping = add (sub center (div side two)) (div cropping (literal 4 0))

  abbrev upper : Double → Double → Double → Double
  upper center side cropping = sub (add center (div side two)) (div cropping (literal 4 0))

  -- The slabs along the faces of the map with the center `c` and the size `s`, half as thick as the
  -- cropping.
  abbrev pub low_x : Vec3 Double → Vec3 Double → Vec3 Double → Slab
  low_x c s cropping =
      (record c { x = lower c.x s.x cropping.x }, record s { x = div cropping.x two })

  abbrev pub high_x : Vec3 Double → Vec3 Double → Vec3 Double → Slab
  high_x c s cropping =
      (record c { x = upper c.x s.x cropping.x }, record s { x = div cropping.x two })

  abbrev pub low_y : Vec3 Double → Vec3 Double → Vec3 Double → Slab
  low_y c s cropping =
      (record c { y = lower c.y s.y cropping.y }, record s { y = div cropping.y two })

  abbrev pub high_y : Vec3 Double → Vec3 Double → Vec3 Double → Slab
  high_y c s cropping =
      (record c { y = upper c.y s.y cropping.y }, record s { y = div cropping.y two })

  abbrev pub low_z : Vec3 Double → Vec3 Double → Vec3 Double → Slab
  low_z c s cropping =
      (record c { z = lower c.z s.z cropping.z }, record s { z = div cropping.z two })

  abbrev pub high_z : Vec3 Double → Vec3 Double → Vec3 Double → Slab
  high_z c s cropping =
      (record c { z = upper c.z s.z cropping.z }, record s { z = div cropping.z two })

  abbrev pub slabs : Vec3 Double → Vec3 Double → Vec3 Double → List Slab
  slabs c s cropping =
      low_x c s cropping
      ∷ high_x c s cropping
      ∷ low_y c s cropping
      ∷ high_y c s cropping
      ∷ low_z c s cropping
      ∷ high_z c s cropping
      ∷ []

  -- The cell `j` is that of the center of the cell of a key.
  abbrev centered_key : Tree → Key → Key → Bool
  centered_key t k j = is_key (coord_to_key_checked t (key_to_coord t k)) j

  abbrev pub centered_keys : Tree → KeySet → Key → Bool
  centered_keys t [] j = false
  centered_keys t (k ∷ ks) j = centered_key t k j || centered_keys t ks j

  -- The cell `j` is that of the center of the cell of some position.
  abbrev pub centered : Tree → List (Vec3 Double) → Key → Bool
  centered t [] j = false
  centered t (v ∷ vs) j = centered_key t (coord_to_key_eigen t v) j || centered t vs j

  -- The positions of the loops over the slabs, one slab after the other.
  pub slab_positions : ℕ → Tree → List Slab → Outcome (List (Vec3 Double))
  slab_positions fuel t [] = ok []
  slab_positions fuel t ((center, size) ∷ more) = do
    vs ← box_positions fuel t center size include_partial_boxes
    us ← slab_positions fuel t more
    ok (vs ++ us)

  abbrev pub SlabEnds : ℕ → Tree → Slab → Type 0
  SlabEnds fuel t (center, size) = BoxEnds fuel t size include_partial_boxes center

  -- The keys of slab after slab.
  unfoldable pub slab_keys : ℕ → Tree → List Slab → KeySet → Outcome KeySet
  slab_keys fuel t [] keys = ok keys
  slab_keys fuel t ((center, size) ∷ more) keys = do
    keys' ← get_keys_bounding_box fuel t center size include_partial_boxes keys
    slab_keys fuel t more keys'

  centered_keys-contains :
      (t : Tree) (ks : KeySet) (k j : Key)
      → contains ks k ≡ true
      → centered_key t k j ≡ true
      → centered_keys t ks j ≡ true
  unfolding contains
  centered_keys-contains t [] k j old c = absurd cc
  centered_keys-contains t (i ∷ ks) k j old c = elim (Bool-cases (key_eq i k)) [
    | inl same ↦ ground (arith, eq_of_key_eq i k same, c)
    | inr other ↦
        let rest : contains ks k ≡ true = ground (arith, other, old) in
        ground (arith, centered_keys-contains t ks k j rest c)
  ]

  centered_keys-insert :
      (t : Tree) (ks : KeySet) (k j : Key)
      → centered_keys t (insert k ks) j ≡ (centered_key t k j || centered_keys t ks j)
  unfolding insert
  centered_keys-insert t ks k j = elim (Bool-cases (contains ks k)) [
    | inr new ↦ rw new refl
    | inl old ↦ rw old (elim (Bool-cases (centered_key t k j)) [
      | inl c ↦ rw c (centered_keys-contains t ks k j old c)
      | inr n ↦ rw n refl
    ])
  ]

  centered_keys-insert_keys :
      (t : Tree) (vs : List (Vec3 Double)) (ks : KeySet) (j : Key)
      → centered_keys t (insert_keys t vs ks) j ≡ (centered t vs j || centered_keys t ks j)
  unfolding insert_keys
  centered_keys-insert_keys t [] ks j = refl
  centered_keys-insert_keys t (v ∷ vs) ks j =
      let k = coord_to_key_eigen t v in
      ground (arith, centered_keys-insert_keys t vs (insert k ks) j, centered_keys-insert t ks k j)

  centered-append :
      (t : Tree) (vs us : List (Vec3 Double)) (j : Key)
      → centered t (vs ++ us) j ≡ (centered t vs j || centered t us j)
  centered-append t [] us j = refl
  centered-append t (v ∷ vs) us j = ground (arith, centered-append t vs us j)

  -- The loops over the slabs end, with the keys of their positions.
  pub slab_keys-centered :
      (fuel : ℕ) (t : Tree) (ss : List Slab) (keys : KeySet)
      → All (SlabEnds fuel t) ss
      → (vs : List (Vec3 Double)) × (ks : KeySet) × (slab_positions fuel t ss ≡ ok vs)
        × (slab_keys fuel t ss keys ≡ ok ks)
        × ((j : Key) → centered_keys t ks j ≡ (centered t vs j || centered_keys t keys j))
  unfolding slab_positions slab_keys get_keys_bounding_box box_positions
  slab_keys-centered fuel t [] keys h = ([], keys, refl, refl, λ j. refl)
  slab_keys-centered fuel t ((center, size) ∷ more) keys ((ex, ey, ez), hs) =
      let box = adjust_bounding_box t center size include_partial_boxes in
      let (vs, first, _) = grid_total fuel box.0 box.1 (p.resolution t) ex ey ez in
      let keys' = insert_keys t vs keys in
      let (us, ks, rest, done, values) = slab_keys-centered fuel t more keys' hs in
      (
        vs ++ us,
        ks,
        rw (first, rest) refl,
        rw first done,
        λ j.
            ground
              (arith, values j, centered_keys-insert_keys t vs keys j, centered-append t vs us j),
      )

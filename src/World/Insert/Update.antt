-- ===== src/World/Insert/Update.antt =====
-- `updateOccupancy` as a change of a map of cells.
use volumetric_mapping.Common.{
  ◌≡◌, refl, Bool, true, false, not, ◌&&◌, ◌||◌, ◌∙◌, some, [], ◌∷◌, if◌then◌else◌, arith,
}
use volumetric_mapping.Platform.{Platform, Key}
use volumetric_mapping.Platform.CellMap.{CellMap}
use volumetric_mapping.KeySet.{
  KeySet, IsKeySet, key_eq, contains, erase, contains-erase, erase-IsKeySet, contains-of_key_eq,
}
use volumetric_mapping.World.Insert.{Cells, mark_occupied, mark_free, update_occupancy}

erase_if_present : KeySet → Key → KeySet
erase_if_present s k = if contains s k then erase k s else s

contains-erase_if_present :
    (s : KeySet) (k j : Key)
    → IsKeySet s
    → contains (erase_if_present s k) j ≡ (not (key_eq k j) && contains s j)
unfolding erase_if_present
contains-erase_if_present s k j h = ground (arith, contains-erase s k j h, contains-of_key_eq s k j)

erase_if_present-IsKeySet : (s : KeySet) (k : Key) → IsKeySet s → IsKeySet (erase_if_present s k)
unfolding erase_if_present
erase_if_present-IsKeySet s k h = ground (arith, erase-IsKeySet s k h)

contains-cons :
    (k : Key) (ks : KeySet) (j : Key) → contains (k ∷ ks) j ≡ (key_eq k j || contains ks j)
unfolding contains
contains-cons k ks j = refl

module _ ⦃p : Platform⦄ where
  open p use {Double, Tree, update_node}

  mark_occupied-cons :
      (k : Key) (ks free : KeySet) (t : Tree)
      → mark_occupied (k ∷ ks) (free, t)
        ≡ mark_occupied ks (erase_if_present free k, update_node k true t)
  unfolding mark_occupied erase_if_present
  mark_occupied-cons k ks free t = refl

  -- The free cells that are left.
  mark_occupied-free :
      (occ free : KeySet) (t : Tree) (j : Key)
      → IsKeySet free
      → contains (mark_occupied occ (free, t)).0 j ≡ (not (contains occ j) && contains free j)
  mark_occupied-free [] free t j h = unfold mark_occupied contains in refl
  mark_occupied-free (k ∷ ks) free t j h =
      let left = erase_if_present free k in
      rw (mark_occupied-cons k ks free t) (
        ground (
          arith,
          contains-cons k ks j,
          mark_occupied-free ks left (update_node k true t) j (erase_if_present-IsKeySet free k h),
          contains-erase_if_present free k j h,
        ))

  mark_occupied-IsKeySet :
      (occ free : KeySet) (t : Tree) → IsKeySet free → IsKeySet (mark_occupied occ (free, t)).0
  mark_occupied-IsKeySet [] free t h = unfold mark_occupied in h
  mark_occupied-IsKeySet (k ∷ ks) free t h =
      rw (mark_occupied-cons k ks free t)
        (mark_occupied-IsKeySet ks _ _ (erase_if_present-IsKeySet free k h))

  module _ (m : CellMap) where
    open m use {value, integrate, value-update_node, integrate-update_node, value-update_inner}

    -- A tree after a hit (true) or a miss in each cell of a set.
    abbrev pub Integrated : Bool → KeySet → Tree → Tree → Key → Type 0
    Integrated b ks t t' j =
        value t' j ≡ (if contains ks j then some (integrate t b (value t j)) else value t j)

    mark_free-value :
        (ks : KeySet) (t : Tree) (j : Key) → IsKeySet ks → Integrated false ks t (mark_free ks t) j
    unfolding mark_free contains
    mark_free-value [] t j h = refl
    mark_free-value (k ∷ ks) t j (new, h) = ground (
      arith,
      mark_free-value ks (update_node k false t) j h,
      value-update_node t k j false,
      integrate-update_node t k false,
      contains-of_key_eq ks k j,
    )

    mark_occupied-value :
        (occ free : KeySet) (t : Tree) (j : Key)
        → IsKeySet occ
        → Integrated true occ t (mark_occupied occ (free, t)).1 j
    unfolding mark_occupied contains
    mark_occupied-value [] free t j h = refl
    mark_occupied-value (k ∷ ks) free t j (new, h) = ground (
      arith,
      mark_occupied-value ks (if contains free k then erase k free else free) (update_node k true t)
          j h,
      value-update_node t k j true,
      integrate-update_node t k true,
      contains-of_key_eq ks k j,
    )

    mark_occupied-integrate :
        (occ free : KeySet) (t : Tree) → integrate (mark_occupied occ (free, t)).1 ≡ integrate t
    unfolding mark_occupied
    mark_occupied-integrate [] free t = refl
    mark_occupied-integrate (k ∷ ks) free t =
        mark_occupied-integrate ks (if contains free k then erase k free else free)
          (update_node k true t)
        ∙ integrate-update_node t k true

    -- If the octree is a map of cells as documented and neither set holds a key twice, then after
    -- `updateOccupancy` each occupied cell has had exactly one hit, each free cell that is not
    -- occupied exactly one miss, and every other cell is as before.
    pub update_occupancy-value :
        (cells : Cells) (t : Tree) (j : Key)
        → IsKeySet cells.free_cells
        → IsKeySet cells.occupied_cells
        → value (update_occupancy cells t).1 j ≡ (
            if contains cells.occupied_cells j
            then some (integrate t true (value t j))
            else (if contains cells.free_cells j
                then some (integrate t false (value t j))
                else value t j))
    unfolding update_occupancy
    update_occupancy-value cells t j hf ho =
        let free = cells.free_cells in
        let occ = cells.occupied_cells in
        let left = (mark_occupied occ (free, t)).0 in
        let marked = (mark_occupied occ (free, t)).1 in
        ground (
          arith,
          value-update_inner (mark_free left marked) j,
          mark_free-value left marked j (mark_occupied-IsKeySet occ free t hf),
          mark_occupied-value occ free t j ho,
          mark_occupied-integrate occ free t,
          mark_occupied-free occ free t j hf,
        )

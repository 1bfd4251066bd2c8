-- ===== src/World/Insert/Unordered.antt =====
-- `updateOccupancy` over sets of keys without their order, as `std::unordered_set` has none
-- (octomap_world/src/octomap_world.cc).
use mathlib.Core.Quot
use mathlib.Core.Quot.{Quot}
use mathlib.Core.Option
use volumetric_mapping.Common.{◌≡◌, refl, Option, arith}
use volumetric_mapping.Platform.{Platform, Key}
use volumetric_mapping.Platform.CellMap.{CellMap}
use volumetric_mapping.KeySet.{KeySet, IsKeySet, contains}
use volumetric_mapping.World.Insert.{Cells, update_occupancy}
use volumetric_mapping.World.Insert.Update.{update_occupancy-value}

-- A list of keys without repetition, and when two of them are the same set.
abbrev pub UniqueKeys : Type 0
UniqueKeys = (s : KeySet) × IsKeySet s

abbrev pub SameKeys : UniqueKeys → UniqueKeys → Type 0
SameKeys a b = (j : Key) → contains a.0 j ≡ contains b.0 j

-- Sets of keys, without the order of their elements.
abbrev pub UnorderedKeys : Type 0
UnorderedKeys = Quot SameKeys

module _ ⦃p : Platform⦄ (m : CellMap) (t : p.Tree) where
  open p use {Double}

  -- The log-odds of a cell after `updateOccupancy`, which iterates over both sets.
  abbrev pub value_after : UniqueKeys → UniqueKeys → Key → Option Double
  value_after free occupied j =
      m.value (update_occupancy (record { free_cells = free.0; occupied_cells = occupied.0 }) t).1 j

  value_after-SameKeys :
      (free free' occupied occupied' : UniqueKeys) (j : Key)
      → SameKeys free free'
      → SameKeys occupied occupied'
      → value_after free occupied j ≡ value_after free' occupied' j
  value_after-SameKeys free free' occupied occupied' j hf ho =
      let cells : Cells = record { free_cells = free.0; occupied_cells = occupied.0 } in
      let cells' : Cells = record { free_cells = free'.0; occupied_cells = occupied'.0 } in
      ground (
        arith,
        update_occupancy-value m cells t j free.1 occupied.1,
        update_occupancy-value m cells' t j free'.1 occupied'.1,
        hf j,
        ho j,
      )

  module _ (double_set : IsSet Double) where
    -- The same for sets without order.
    value_of_unordered : UnorderedKeys → UnorderedKeys → Key → Option Double
    value_of_unordered free occupied j =
        let of_list : UniqueKeys → UnorderedKeys → Option Double = λ occ.
          Quot.lift (Option.is_set double_set) (λ fr. value_after fr occ j)
            (λ fr fr' h. value_after-SameKeys fr fr' occ occ j h (λ k. refl)) in
        Quot.lift (Option.is_set double_set) (λ occ. of_list occ free)
          (λ occ occ' h.
            Quot.ind {β = λ f. of_list occ f ≡ of_list occ' f} (λ f. Option.is_set double_set _ _)
              (λ fr. value_after-SameKeys fr fr occ occ' j (λ k. refl) h) free)
          occupied

    -- If the octree is a map of cells as documented and the numbers form a set, then what
    -- `updateOccupancy` does to the cells is a function of the two sets of keys without their order:
    -- whatever order an iteration over them takes, it leaves the same log-odds in each cell.
    pub update_occupancy_unordered :
        (updated : UnorderedKeys → UnorderedKeys → Key → Option Double) × ((free
              occupied : UniqueKeys)
            (j : Key)
          → updated (Quot.mk free) (Quot.mk occupied) j ≡ value_after free occupied j)
    unfolding value_of_unordered
    update_occupancy_unordered = (value_of_unordered, λ free occupied j. refl)

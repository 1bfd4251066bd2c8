-- ===== src/Tests/Cells.antt =====
-- The octree of the examples is a map of cells.
use volumetric_mapping.Common.{
  ◌≡◌, ◌↔◌, refl, Bool, none, some, List, [], ◌∷◌, if◌then◌else◌, Bool-cases, inl, inr, arith,
}
use volumetric_mapping.Common.Int.{ℤ}
use volumetric_mapping.Platform.{Key, Vec3}
use volumetric_mapping.Platform.CellMap.{CellMap}
use volumetric_mapping.Platform.Flat.{FlatTree, flat, find, put, hit_or_miss}
use volumetric_mapping.KeySet.{key_eq, eq_of_key_eq}

pub find-put :
    (k j : Key) (v : ℤ) (cells : List (Key × ℤ))
    → find (put k v cells) j ≡ (if key_eq k j then some v else find cells j)
find-put k j v [] = refl
find-put k j v ((i, u) ∷ cells) = elim (Bool-cases (key_eq i k)) [
  | inl same ↦ ground (arith, same, eq_of_key_eq i k same)
  | inr other ↦ elim (Bool-cases (key_eq k j)) [
    | inl hit ↦ ground (arith, other, hit, eq_of_key_eq k j hit, find-put k j v cells)
    | inr miss ↦ ground (arith, other, miss, find-put k j v cells)
  ]
]

pub find-update :
    (k j : Key) (b : Bool) (cells : List (Key × ℤ))
    → find (put k (hit_or_miss b (find cells k)) cells) j
      ≡ (if key_eq k j then some (hit_or_miss b (find cells j)) else find cells j)
find-update k j b cells = elim (Bool-cases (key_eq k j)) [
  | inl hit ↦ rw (find-put k j (hit_or_miss b (find cells k)) cells, hit, eq_of_key_eq k j hit)
  | inr miss ↦ rw (find-put k j (hit_or_miss b (find cells k)) cells, miss)
]

pub searched_lem :
    (t : FlatTree) (v : Vec3 ℤ) (k : Key)
    → flat.coord_to_key_checked t v ≡ some k
    → (flat.search_coord t v ≡ none) ↔ (find t.cells k ≡ none)
searched_lem t v k e = ground (arith, e)

abbrev pub flat_cells : CellMap
flat_cells = record {
  value = λ t k. find t.cells k;
  integrate = λ t b o. hit_or_miss b o;
  clamp = λ t a. a;
  value-update_node = λ t k j b. find-update k j b t.cells;
  integrate-update_node = λ t k b. refl;
  value-set_node_value = λ t v a lazy j. find-put _ j a t.cells;
  searched = λ t v k e. searched_lem t v k e;
  clamp-set_node_value = λ t v a lazy. refl;
  checked-set_node_value = λ t v a lazy. refl;
  resolution-set_node_value = λ t v a lazy. refl;
  coord_to_key-set_node_value = λ t v a lazy. refl;
  key_to_coord-set_node_value = λ t v a lazy. refl;
  value-update_inner = λ t j. refl;
  value-prune = λ t j. refl;
}

-- ===== src/Platform/CellMap.antt =====
-- What the code relies on when it writes to the octree, as the documentation of OctoMap gives it.
-- The tree is seen as a map from keys to log-odds: an update or a write of a node changes the cell
-- of its key alone, and neither pruning nor the update of inner nodes changes a cell.
use volumetric_mapping.Common.{◌≡◌, ◌↔◌, Bool, false, Option, none, some, if◌then◌else◌}
use volumetric_mapping.Platform.{Platform, Vec3, Key}
use volumetric_mapping.KeySet.{key_eq}

abbrev pub is_key : Option Key → Key → Bool
is_key none j = false
is_key (some k) j = key_eq k j

module _ ⦃p : Platform⦄ where
  open p use {
    Double, Tree, update_node, set_node_value, coord_to_key_checked, search_coord,
    update_inner_occupancy, prune, resolution, coord_to_key, key_to_coord,
  }

  pub record CellMap : Type 0 where
    pub value : Tree → Key → Option Double
    -- The log-odds after a hit (true) or a miss, by the sensor model of the tree.
    pub integrate : Tree → Bool → Option Double → Double
    -- A value that is written is clamped to the thresholds of the tree.
    pub clamp : Tree → Double → Double
    pub value-update_node :
        (t : Tree) (k j : Key) (b : Bool)
        → value (update_node k b t) j
          ≡ (if key_eq k j then some (integrate t b (value t j)) else value t j)
    pub integrate-update_node :
        (t : Tree) (k : Key) (b : Bool) → integrate (update_node k b t) ≡ integrate t
    pub value-set_node_value :
        (t : Tree) (v : Vec3 Double) (a : Double) (lazy : Bool) (j : Key)
        → value (set_node_value v a lazy t) j
          ≡ (if is_key (coord_to_key_checked t v) j then some (clamp t a) else value t j)
    -- The search by a coordinate is that by its key.
    pub searched :
        (t : Tree) (v : Vec3 Double) (k : Key)
        → coord_to_key_checked t v ≡ some k
        → (search_coord t v ≡ none) ↔ (value t k ≡ none)
    pub clamp-set_node_value :
        (t : Tree) (v : Vec3 Double) (a : Double) (lazy : Bool)
        → clamp (set_node_value v a lazy t) ≡ clamp t
    pub checked-set_node_value :
        (t : Tree) (v : Vec3 Double) (a : Double) (lazy : Bool)
        → coord_to_key_checked (set_node_value v a lazy t) ≡ coord_to_key_checked t
    pub resolution-set_node_value :
        (t : Tree) (v : Vec3 Double) (a : Double) (lazy : Bool)
        → resolution (set_node_value v a lazy t) ≡ resolution t
    pub coord_to_key-set_node_value :
        (t : Tree) (v : Vec3 Double) (a : Double) (lazy : Bool)
        → coord_to_key (set_node_value v a lazy t) ≡ coord_to_key t
    pub key_to_coord-set_node_value :
        (t : Tree) (v : Vec3 Double) (a : Double) (lazy : Bool)
        → key_to_coord (set_node_value v a lazy t) ≡ key_to_coord t
    pub value-update_inner : (t : Tree) (j : Key) → value (update_inner_occupancy t) j ≡ value t j
    pub value-prune : (t : Tree) (j : Key) → value (prune t) j ≡ value t j

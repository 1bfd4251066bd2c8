-- ===== src/Platform/Codec.antt =====
-- What the code relies on when it sends, writes, reads and receives trees, as the documentation of
-- OctoMap and of octomap_msgs gives it. A full message keeps the log-odds of all cells. The binary
-- form keeps of each cell only whether it is free, occupied or unknown, and a tree that is read
-- from it shows this again if its clamping thresholds lie on both sides of its occupancy threshold.
use volumetric_mapping.Common.{◌≡◌, true, false, Bool, Option, some}
use volumetric_mapping.Platform.{Platform, Key}

module _ ⦃p : Platform⦄ where
  open p use {
    Double, Tree, Binary, is_binary, binary_map_to_msg, full_map_to_msg, binary_msg_to_map,
    full_msg_to_map, write_binary, write_binary_const, read_binary, prune,
  }

  pub record Codec : Type 0 where
    pub value : Tree → Key → Option Double
    -- Whether the cell is occupied, if it is known.
    pub state : Tree → Key → Option Bool
    -- The clamping thresholds lie on both sides of the occupancy threshold.
    pub separates : Tree → Bool
    pub sent_full :
        (t : Tree)
        → (full_map_to_msg t).0 ≡ true
        → (is_binary (full_map_to_msg t).1 ≡ false)
          × (t' : Tree) × (full_msg_to_map (full_map_to_msg t).1 ≡ some t')
          × ((j : Key) → value t' j ≡ value t j)
    pub sent_binary :
        (t : Tree)
        → (binary_map_to_msg t).0 ≡ true
        → (is_binary (binary_map_to_msg t).1 ≡ true)
          × (t' : Tree) × (binary_msg_to_map (binary_map_to_msg t).1 ≡ some t')
          × ((j : Key) → state t' j ≡ state t j)
    pub read_written :
        (t t₀ : Tree)
        → (write_binary t).1 ≡ true
        → separates t ≡ true
        → separates t₀ ≡ true
        → ((read_binary (write_binary t).2 t₀).0 ≡ true)
          × ((j : Key) → state (read_binary (write_binary t).2 t₀).1 j ≡ state t j)
    pub read_written_const :
        (t t₀ : Tree)
        → (write_binary_const t).0 ≡ true
        → separates t ≡ true
        → separates t₀ ≡ true
        → ((read_binary (write_binary_const t).1 t₀).0 ≡ true)
          × ((j : Key) → state (read_binary (write_binary_const t).1 t₀).1 j ≡ state t j)
    -- Writing makes the tree a maximum likelihood map.
    pub state-write_binary :
        (t : Tree) (j : Key) → separates t ≡ true → state (write_binary t).0 j ≡ state t j
    pub state-prune : (t : Tree) (j : Key) → state (prune t) j ≡ state t j

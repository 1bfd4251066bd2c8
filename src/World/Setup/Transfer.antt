-- ===== src/World/Setup/Transfer.antt =====
-- What a copy of a map keeps.
use volumetric_mapping.Common.{◌≡◌, true, some, ◌∙◌, arith}
use volumetric_mapping.Outcome.{ok}
use volumetric_mapping.Platform.{Platform, Key}
use volumetric_mapping.Platform.Codec.{Codec}
use volumetric_mapping.World.{OctomapWorld, with_tree}
use volumetric_mapping.World.Setup.{
  configure, tree_for, set_octomap_parameters, create_world, get_octomap_parameters, set_robot_size,
  get_robot_size, write_octomap_to_binary_const, copy_world,
}

module _ ⦃p : Platform⦄ where
  open p use {Tree, create, write_binary_const, read_binary}

  -- The tree of a new map with the parameters of another.
  abbrev pub fresh_tree : OctomapWorld → Tree
  fresh_tree w = configure w.params (create w.params.resolution)

  -- If the octree is there and can be written, and the thresholds of both trees lie as the binary
  -- form needs it, then the copying constructor gives a map with the same parameters, the same size
  -- of the robot, and an octree in which each cell is free, occupied or unknown as in the original.
  pub copy_world-states :
      (c : Codec) (w : OctomapWorld) (t : Tree)
      → w.octree ≡ some t
      → (write_binary_const t).0 ≡ true
      → c.separates t ≡ true
      → c.separates (fresh_tree w) ≡ true
      → (t' : Tree) × (copy_world w ≡ ok (with_tree w t'))
        × ((j : Key) → c.state t' j ≡ c.state t j)
  unfolding copy_world set_robot_size get_robot_size create_world get_octomap_parameters
      set_octomap_parameters tree_for write_octomap_to_binary_const
  copy_world-states c w t here sent old new =
      let filled = read_binary (write_binary_const t).1 (fresh_tree w) in
      let r = c.read_written_const t (fresh_tree w) sent old new in
      (p.prune filled.1, ground (arith, here), λ j. c.state-prune filled.1 j ∙ r.1 j)

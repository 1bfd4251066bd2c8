-- ===== src/Manager/Publish/Messages.antt =====
-- The map messages of `publishAll`.
use volumetric_mapping.Common.{ℕ, ◌≡◌, true, [], ◌∷◌, Bool, none, if◌then◌else◌, arith}
use volumetric_mapping.Outcome.{ok, fault, null_octree}
use volumetric_mapping.Platform.{Platform}
use volumetric_mapping.World.Setup.{
  get_octomap_binary_msg, set_octomap_from_msg, set_octomap_from_binary_msg,
  set_octomap_from_full_msg,
}
use volumetric_mapping.World.Markers.{generate_marker_array}
use volumetric_mapping.Manager.{OctomapManager}
use volumetric_mapping.Manager.Transforms.{Tf}
use volumetric_mapping.Manager.Publish.{
  Topic, octomap, publication, publish_map, publish_markers, publish_all,
}
use volumetric_mapping.Manager.Services.{octomap_callback}

module _ ⦃p : Platform⦄ {M : Type 0} (fuel : ℕ) (tf : Tf) (subscribers : Topic → ℕ) where
  open p use {Message, is_binary, binary_msg_to_map, full_msg_to_map}

  -- If topics are latched and `getOctomapBinaryMsg` yields a message, then the map topics both get
  -- this message: the full map that is published is the binary one.
  publish_map_binary :
      (t : Topic) (m : OctomapManager M) (converted : Bool) (msg : Message)
      → m.latch_topics ≡ true
      → get_octomap_binary_msg m.map.world ≡ ok (converted, msg)
      → publish_map fuel tf subscribers t m ≡ ok (publication t m.world_frame (octomap msg) ∷ [])
  unfolding publish_map
  publish_map_binary t m converted msg latch e = ground (arith, latch, e)

  -- If topics are latched and a received message cannot be converted to an octree, then
  -- `octomapCallback` dereferences the null pointer that it has stored.
  pub octomap_callback_null :
      (msg : Message) (m : OctomapManager M)
      → m.latch_topics ≡ true
      → (if is_binary msg then binary_msg_to_map msg else full_msg_to_map msg) ≡ none
      → octomap_callback fuel tf subscribers msg m ≡ fault null_octree
  unfolding octomap_callback publish_all publish_markers generate_marker_array set_octomap_from_msg
      set_octomap_from_binary_msg set_octomap_from_full_msg
  octomap_callback_null msg m latch e = ground (arith, latch, e)

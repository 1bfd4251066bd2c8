-- ===== src/Manager/Services/Transfer.antt =====
-- Maps that one node sends or saves and another receives or loads.
use volumetric_mapping.Common.{
  ℕ, ◌≡◌, refl, ◌∙◌, inl, inr, true, false, some, List, [], ◌∷◌, ◌++◌, arith,
}
use volumetric_mapping.Outcome.{ok}
use volumetric_mapping.Platform.{Platform, Key}
use volumetric_mapping.Platform.Codec.{Codec}
use volumetric_mapping.World.{OctomapWorld, with_tree}
use volumetric_mapping.World.Setup.{
  get_octomap_full_msg, get_octomap_binary_msg, set_octomap_from_binary_msg, set_octomap_from_msg,
  set_octomap_from_full_msg, write_octomap_to_file, load_octomap_from_file,
}
use volumetric_mapping.Manager.{OctomapManager}
use volumetric_mapping.Manager.Transforms.{Tf}
use volumetric_mapping.Manager.Publish.{Topic, publication, octomap, publish_map, publish_all}
use volumetric_mapping.Manager.Services.{
  Files, world_of, with_world, load_octomap_callback, save_octomap_callback, get_octomap_callback,
  octomap_callback, Published,
}
use volumetric_mapping.Manager.Services.Kept.{IfOk, IfOk-map, IsKept, publish_all-IsKept}
use volumetric_mapping.Manager.Services.Loading.{extension-append}

module _ ⦃p : Platform⦄ where
  open p use {Tree, Message, prune, is_binary, full_map_to_msg, binary_map_to_msg, write_binary}

  abbrev pub bt : List ℕ
  bt = b'b' ∷ b't' ∷ []

  -- A node is as before but for its octree, which has the log-odds of another tree in each cell.
  abbrev pub HoldsCells : {M : Type 0} → Codec → Tree → OctomapManager M → Published M → Type 0
  HoldsCells c t m (m', _) =
      (t' : Tree) × (m' ≡ with_world m (with_tree (world_of m) t'))
      × ((j : Key) → c.value t' j ≡ c.value t j)

  publish_all-HoldsCells :
      {M : Type 0} (c : Codec) (m : OctomapManager M) (t t' : Tree) (fuel : ℕ) (tf : Tf)
      (subscribers : Topic → ℕ)
      → ((u : Tree) (j : Key) → c.value (prune u) j ≡ c.value u j)
      → ((j : Key) → c.value t' j ≡ c.value t j)
      → IfOk
          (HoldsCells c t m)
          (publish_all fuel tf subscribers (with_world m (with_tree (world_of m) t')))
  publish_all-HoldsCells {M} c m t t' fuel tf subscribers pruned same =
      let m' = with_world m (with_tree (world_of m) t') in
      let is_kept = λ (r : Published M). IsKept fuel tf subscribers m' t' r.0 in
      IfOk-map is_kept (HoldsCells c t m) (publish_all fuel tf subscribers m')
        (λ r kept. elim kept [
          | inl e ↦ (t', e, same)
          | inr e ↦ (prune t', e, λ j. pruned t' j ∙ same j)
        ])
        (publish_all-IsKept fuel tf subscribers m' t' refl)

  -- If the octree of a node is there and can be sent as a full message, and pruning changes no
  -- log-odds, then the response of `getOctomapCallback` is that full message, not a binary one as
  -- README.md has it for `get_map`. It makes `octomapCallback` of any other node go on with an octree
  -- that has the same log-odds in each cell, and with nothing else changed, to publish all; when the
  -- callback returns, the octree of this node has the log-odds of the first in each cell, and
  -- nothing else of the node has changed.
  pub octomap_callback-get_octomap :
      {M N : Type 0} (c : Codec) (sender : OctomapManager M) (receiver : OctomapManager N)
      (t : Tree) (fuel : ℕ) (tf : Tf) (subscribers : Topic → ℕ)
      → ((u : Tree) (j : Key) → c.value (prune u) j ≡ c.value u j)
      → (world_of sender).octree ≡ some t
      → (full_map_to_msg t).0 ≡ true
      → (msg : Message) × (get_octomap_callback (world_of sender) ≡ ok (true, msg))
        × (is_binary msg ≡ false)
        × IfOk (HoldsCells c t receiver) (octomap_callback fuel tf subscribers msg receiver)
        × (t' : Tree) × (octomap_callback fuel tf subscribers msg receiver
            ≡ publish_all fuel tf subscribers
                (with_world receiver (with_tree (world_of receiver) t')))
        × ((j : Key) → c.value t' j ≡ c.value t j)
  unfolding get_octomap_callback get_octomap_full_msg octomap_callback set_octomap_from_msg
      set_octomap_from_full_msg
  octomap_callback-get_octomap c sender receiver t fuel tf subscribers pruned here sent =
      let (full, t', received, same) = c.sent_full t sent in
      let kept = publish_all-HoldsCells c receiver t t' fuel tf subscribers pruned same in
      (
        (full_map_to_msg t).1,
        ground (arith, here, sent),
        full,
        rw (full, received) kept,
        t',
        rw (full, received) refl,
        same,
      )

  -- If topics are latched, the octree of a node is there and it can be sent in the binary form, then
  -- the node publishes one message on a topic of the map, be it that of the binary or of the full
  -- map, and this message makes `octomapCallback` of any other node go on with an octree in which
  -- each cell is free, occupied or unknown as it is for the sender, and with nothing else changed,
  -- to publish all.
  pub octomap_callback-publish_map :
      {M N : Type 0} (c : Codec) (sender : OctomapManager M) (receiver : OctomapManager N)
      (t : Tree) (topic : Topic) (fuel : ℕ) (tf : Tf) (subscribers : Topic → ℕ)
      → sender.latch_topics ≡ true
      → (world_of sender).octree ≡ some t
      → (binary_map_to_msg t).0 ≡ true
      → (msg : Message) × (publish_map fuel tf subscribers topic sender
          ≡ ok (publication topic sender.world_frame (octomap msg) ∷ []))
        × (t' : Tree) × (octomap_callback fuel tf subscribers msg receiver
            ≡ publish_all fuel tf subscribers
                (with_world receiver (with_tree (world_of receiver) t')))
        × ((j : Key) → c.state t' j ≡ c.state t j)
  unfolding publish_map get_octomap_binary_msg octomap_callback set_octomap_from_msg
      set_octomap_from_binary_msg
  octomap_callback-publish_map c sender receiver t topic fuel tf subscribers latched here sent =
      let (binary, t', received, same) = c.sent_binary t sent in
      ((binary_map_to_msg t).1, ground (arith, latched, here), t', rw (binary, received) refl, same)

  -- If the octrees of two maps are there, that of the first can be written, the thresholds of both
  -- lie as the binary form needs it, and a file whose name ends in .bt holds what the first map
  -- writes, then saving the first map and loading the file into the second both succeed. The second
  -- map changes in its octree alone, where each cell is then free, occupied or unknown as it was in
  -- the first; saving leaves this as it is in the first map too.
  pub load_octomap_callback-save_octomap :
      (c : Codec) (files : Files) (name : List ℕ) (w w' : OctomapWorld) (t t₀ : Tree)
      → w.octree ≡ some t
      → w'.octree ≡ some t₀
      → (write_binary t).1 ≡ true
      → c.separates t ≡ true
      → c.separates t₀ ≡ true
      → files.read_tree (name ++ b'.' ∷ bt) ≡ some (write_binary t).2
      → (saved t' : Tree) × (save_octomap_callback w
          ≡ ok (with_tree w saved, true, (write_binary t).2))
        × (load_octomap_callback files (name ++ b'.' ∷ bt) w' ≡ ok (with_tree w' t', true))
        × ((j : Key) → (c.state saved j ≡ c.state t j) × (c.state t' j ≡ c.state t j))
  unfolding save_octomap_callback write_octomap_to_file load_octomap_callback load_octomap_from_file
  load_octomap_callback-save_octomap c files name w w' t t₀ here here' written old new file =
      let r = c.read_written t t₀ written old new in
      let bt_ext = extension-append name bt (refl, (refl, tt)) in
      (
        (write_binary t).0,
        (p.read_binary (write_binary t).2 t₀).1,
        ground (arith, here, written),
        rw (bt_ext, file, here') (ground (arith, r.0)),
        λ j. (c.state-write_binary t j old, r.1 j),
      )

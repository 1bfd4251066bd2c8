-- ===== src/World/Present/Operations.antt =====
-- The octree of `OctomapWorld` in the operations that the node calls
-- (octomap_world/src/octomap_world.cc).
use volumetric_mapping.Common.{
  ◌<◌, ◌+◌, All, ℕ, ◌≡◌, refl, Bool, Option, none, some, List, [], ◌∷◌, ◌==◌, Option-cases, inl,
  inr, if◌then◌else◌, arith,
}
use Prim.Native.String.{String}
use volumetric_mapping.Outcome.Holds.{Holds, Fine, >>=-Fine, if-Holds}
use volumetric_mapping.Platform.{Platform, Vec3, Key, Leaf}
use volumetric_mapping.World.{BoundHandling, OctomapWorld, OctomapParameters}
use volumetric_mapping.World.Setup.{
  set_octomap_parameters, reset_map, get_octomap_binary_msg, get_octomap_full_msg,
  write_octomap_to_file, load_octomap_from_file, set_octomap_from_msg, set_octomap_from_binary_msg,
  set_octomap_from_full_msg,
}
use volumetric_mapping.World.Markers.Points.{generate_marker_array-Shows}
use volumetric_mapping.World.Markers.{MarkerArrays, generate_marker_array}
use volumetric_mapping.World.Clouds.{
  leaf_points, occupied_points, get_occupied_point_cloud, get_occupied_pointcloud_in_bounding_box,
}
use volumetric_mapping.World.Changes.{Changes, changes_of, get_changed_points}
use volumetric_mapping.World.Insert.{
  insert_pointcloud_into_map_impl, insert_projected_disparity_into_map_impl,
}
use volumetric_mapping.World.Present.{HasOctree, tree_of-Holds, grid-Fine}

module _ ⦃p : Platform⦄ where
  open p use {Double, Tree, Node, Message, Binary, Transformation, resolution, is_binary}

  pub set_octomap_parameters-HasOctree :
      (params : OctomapParameters Double) (w : OctomapWorld)
      → HasOctree (set_octomap_parameters params w)
  unfolding set_octomap_parameters
  set_octomap_parameters-HasOctree params w = (_, refl)

  pub reset_map-HasOctree : (w : OctomapWorld) → HasOctree (reset_map w)
  unfolding reset_map
  reset_map-HasOctree w = (_, refl)

  -- No leaf lies deeper than the tree, as OctoMap documents.
  abbrev pub LeafDepths : Type 0
  LeafDepths = (t : Tree) → All (λ leaf. leaf.depth < p.tree_depth t + 1) (p.leafs t)

  pub generate_marker_array-HasOctree :
      (depths : LeafDepths) (tf_frame : String) (w : OctomapWorld)
      → HasOctree w
      → Holds
          (λ (r : OctomapWorld × MarkerArrays). HasOctree r.0)
          (generate_marker_array tf_frame ([], []) w)
  generate_marker_array-HasOctree depths tf_frame w (t, here) =
      let (arrays, e, _) = generate_marker_array-Shows tf_frame w t here (depths (p.prune t)) in
      rw e (_, refl)

  leaf_points-Fine :
      (fuel : ℕ) (t : Tree) (leaf : Leaf Double Node) → Fine (leaf_points fuel t leaf)
  unfolding leaf_points
  leaf_points-Fine fuel t leaf =
      if-Holds _ (p.tree_depth t == leaf.depth) _ _ tt
        (>>=-Fine _ (_) _ (grid-Fine fuel _ _ (resolution t)) (λ _. tt))

  occupied_points-Fine :
      (fuel : ℕ) (t : Tree) (leafs : List (Leaf Double Node)) → Fine (occupied_points fuel t leafs)
  unfolding occupied_points
  occupied_points-Fine fuel t [] = tt
  occupied_points-Fine fuel t (leaf ∷ more) =
      let rest = occupied_points-Fine fuel t more in
      >>=-Fine _ _ _
        (if-Holds _ (p.is_node_occupied t leaf.node) _ _ (leaf_points-Fine fuel t leaf) tt)
        (λ points. >>=-Fine _ (occupied_points fuel t more) _ rest (λ _. tt))

  pub get_occupied_point_cloud-Fine :
      (fuel : ℕ) (w : OctomapWorld) → HasOctree w → Fine (get_occupied_point_cloud fuel w)
  unfolding get_occupied_point_cloud
  get_occupied_point_cloud-Fine fuel w h =
      tree_of-Holds _ w _ h (λ t. occupied_points-Fine fuel t (p.leafs t))

  pub get_occupied_pointcloud_in_bounding_box-Fine :
      (fuel : ℕ) (w : OctomapWorld) (center size : Vec3 Double) (method : BoundHandling)
      → HasOctree w
      → Fine (get_occupied_pointcloud_in_bounding_box fuel w center size method)
  unfolding get_occupied_pointcloud_in_bounding_box
  get_occupied_pointcloud_in_bounding_box-Fine fuel w center size method h =
      tree_of-Holds _ w _ h (λ t. >>=-Fine _ _ _ (grid-Fine fuel _ _ (resolution t)) (λ _. tt))

  pub get_octomap_binary_msg-Fine :
      (w : OctomapWorld) → HasOctree w → Fine (get_octomap_binary_msg w)
  unfolding get_octomap_binary_msg
  get_octomap_binary_msg-Fine w h = tree_of-Holds _ w _ h (λ t. tt)

  pub get_octomap_full_msg-Fine : (w : OctomapWorld) → HasOctree w → Fine (get_octomap_full_msg w)
  unfolding get_octomap_full_msg
  get_octomap_full_msg-Fine w h = tree_of-Holds _ w _ h (λ t. tt)

  pub write_octomap_to_file-HasOctree :
      (w : OctomapWorld)
      → HasOctree w
      → Holds (λ (r : OctomapWorld × Bool × Binary). HasOctree r.0) (write_octomap_to_file w)
  unfolding write_octomap_to_file
  write_octomap_to_file-HasOctree w h = tree_of-Holds _ w _ h (λ t. (_, refl))

  pub load_octomap_from_file-HasOctree :
      (content : Option Binary) (w : OctomapWorld)
      → HasOctree w
      → Holds (λ (r : OctomapWorld × Bool). HasOctree r.0) (load_octomap_from_file content w)
  unfolding load_octomap_from_file
  load_octomap_from_file-HasOctree none w h = tree_of-Holds _ w _ h (λ t. h)
  load_octomap_from_file-HasOctree (some b) w h = tree_of-Holds _ w _ h (λ t. (_, refl))

  -- The message holds a tree that the conversions accept.
  abbrev pub IsDecodable : Message → Type 0
  IsDecodable msg =
      (t : Tree) × ((if is_binary msg then p.binary_msg_to_map msg else p.full_msg_to_map msg)
        ≡ some t)

  pub set_octomap_from_msg-HasOctree :
      (msg : Message) (w : OctomapWorld) → IsDecodable msg → HasOctree (set_octomap_from_msg msg w)
  unfolding set_octomap_from_msg set_octomap_from_binary_msg set_octomap_from_full_msg
  set_octomap_from_msg-HasOctree msg w (t, e) = (t, ground (arith, e))

  changes_of-Fine : (wanted : Bool) (t : Tree) (keys : List Key) → Fine (changes_of wanted t keys)
  unfolding changes_of
  changes_of-Fine wanted t [] = tt
  changes_of-Fine wanted t (key ∷ keys) =
      let rest = changes_of-Fine wanted t keys in
      elim (Option-cases (p.search t key)) [
        | inl e ↦ rw (e, changes_of) tt
        | inr (node, e) ↦
            rw (e, changes_of) (>>=-Fine _ (changes_of wanted t keys) _ rest (λ _. tt))
      ]

  pub get_changed_points-HasOctree :
      (wanted : Bool) (w : OctomapWorld)
      → HasOctree w
      → Holds (λ (r : OctomapWorld × Changes Double). HasOctree r.0) (get_changed_points wanted w)
  unfolding get_changed_points
  get_changed_points-HasOctree wanted w h =
      tree_of-Holds _ w _ h
        (λ t. >>=-Fine _ (changes_of wanted t _) _ (changes_of-Fine wanted t _) (λ _. (_, refl)))

  pub insert_pointcloud_into_map_impl-HasOctree :
      (T : Transformation) (cloud : List (Vec3 Double)) (w : OctomapWorld)
      → HasOctree w
      → Holds HasOctree (insert_pointcloud_into_map_impl T cloud w)
  unfolding insert_pointcloud_into_map_impl
  insert_pointcloud_into_map_impl-HasOctree T cloud w h = tree_of-Holds _ w _ h (λ t. (_, refl))

  pub insert_projected_disparity_into_map_impl-HasOctree :
      (T : Transformation) (points : List (Vec3 Double)) (w : OctomapWorld)
      → HasOctree w
      → Holds HasOctree (insert_projected_disparity_into_map_impl T points w)
  unfolding insert_projected_disparity_into_map_impl
  insert_projected_disparity_into_map_impl-HasOctree T points w h =
      tree_of-Holds _ w _ h (λ t. (_, refl))

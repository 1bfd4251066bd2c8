-- ===== src/Manager/Services.antt =====
-- The callbacks of services and of data topics (octomap_world/src/octomap_manager.cc). A path is a
-- list of bytes.
pub mod Insertion
pub mod Kept
pub mod Loading
pub mod Transfer
use Prim.Native.String.{String}
use volumetric_mapping.Common.{
  ℕ, Bool, true, false, not, Option, none, some, List, [], ◌∷◌, ◌==◌, length, if◌then◌else◌,
}
use volumetric_mapping.Outcome.{Outcome, ok, ◌>>=◌}
use volumetric_mapping.Platform.{Platform, Vec3}
use volumetric_mapping.KeySet.{KeySet}
use volumetric_mapping.World.{OctomapWorld, default, tree_of, with_tree}
use volumetric_mapping.World.Setup.{
  reset_map, set_octomap_from_msg, get_octomap_full_msg, load_octomap_from_file,
  write_octomap_to_file,
}
use volumetric_mapping.World.Region.{set_free_at, set_occupied_at}
use volumetric_mapping.World.Insert.{Cells, insert_checked, update_occupancy}
use volumetric_mapping.World.Clouds.{get_occupied_point_cloud}
use volumetric_mapping.World.Changes.{Changes, get_changed_points}
use volumetric_mapping.Base.{Matrix4, Image, insert_pointcloud, insert_disparity_image}
use volumetric_mapping.Manager.{OctomapManager}
use volumetric_mapping.Manager.Transforms.{Tf, lookup_transform}
use volumetric_mapping.Manager.Publish.{Topic, Publication, publish_all}

-- `path.substr(path.find_last_of(".") + 1)`; `rest` is what stands behind the last dot so far.
pub extension_from : List ℕ → List ℕ → List ℕ
extension_from rest [] = rest
extension_from rest (c ∷ cs) = extension_from (if c == b'.' then cs else rest) cs

pub extension : List ℕ → List ℕ
extension path = extension_from path path

abbrev pub same_bytes : List ℕ → List ℕ → Bool
same_bytes [] [] = true
same_bytes (a ∷ as') (b ∷ bs) = if a == b then same_bytes as' bs else false
same_bytes _ _ = false

module _ ⦃p : Platform⦄ where
  open p use {Double, Tree, Message, Binary, Transformation, coord_to_key_checked}

  abbrev pub world_of : {M : Type 0} → OctomapManager M → OctomapWorld
  world_of m = m.map.world

  abbrev pub with_world : {M : Type 0} → OctomapManager M → OctomapWorld → OctomapManager M
  with_world m w = let map = m.map in record m { map = record map { world = w } }

  abbrev pub Published : Type 0 → Type 0
  Published M = OctomapManager M × List Publication

  -- The files that the callbacks read: the tree in a file, and the points in one.
  pub record Files : Type 0 where
    pub read_tree : List ℕ → Option Binary
    pub read_pcd : List ℕ → List (Vec3 Double)
    pub read_ply : List ℕ → List (Vec3 Double)

  -- The loop over the points of a loaded cloud.
  pub checked_keys : Tree → List (Vec3 Double) → KeySet → KeySet
  checked_keys t [] keys = keys
  checked_keys t (v ∷ vs) keys = checked_keys t vs (insert_checked (coord_to_key_checked t v) keys)

  unfoldable pub load_cloud : List (Vec3 Double) → OctomapWorld → Outcome (OctomapWorld × Bool)
  load_cloud cloud w = do
    t ← tree_of w
    let cells : Cells = record { free_cells = []; occupied_cells = checked_keys t cloud [] }
    ok (with_tree w (update_occupancy cells t).1, true)

  unfoldable pub load_octomap_callback :
      Files → List ℕ → OctomapWorld → Outcome (OctomapWorld × Bool)
  load_octomap_callback files path w =
      let ext = extension path in
      if same_bytes ext (b'b' ∷ b't' ∷ [])
      then load_octomap_from_file (files.read_tree path) w
      else (if same_bytes ext (b'p' ∷ b'c' ∷ b'd' ∷ [])
          then load_cloud (files.read_pcd path) w
          else (if same_bytes ext (b'p' ∷ b'l' ∷ b'y' ∷ [])
              then load_cloud (files.read_ply path) w
              else ok (w, false)))

  -- The response of `get_changed_points`, or false if the vectors differ in size.
  unfoldable pub get_changed_points_callback :
      OctomapWorld → Outcome (OctomapWorld × Option (Changes Double))
  get_changed_points_callback w = do
    r ← get_changed_points true w
    let points = r.1.changed_points
    let states = r.1.changed_states
    ok (r.0, (if not (length points == length states) then none else some r.1))

  unfoldable pub get_octomap_callback : OctomapWorld → Outcome (Bool × Message)
  get_octomap_callback w = get_octomap_full_msg w

  -- What is written to the file.
  unfoldable pub save_octomap_callback : OctomapWorld → Outcome (OctomapWorld × Bool × Binary)
  save_octomap_callback w = write_octomap_to_file w

  unfoldable pub save_point_cloud_callback : ℕ → OctomapWorld → Outcome (List (Vec3 Double))
  save_point_cloud_callback fuel w = get_occupied_point_cloud fuel w

  module _ {M : Type 0} (fuel : ℕ) (tf : Tf) (subscribers : Topic → ℕ) where
    unfoldable pub reset_map_callback : OctomapManager M → OctomapManager M
    reset_map_callback m = with_world m (reset_map (world_of m))

    unfoldable pub publish_all_callback : OctomapManager M → Outcome (Published M)
    publish_all_callback m = publish_all fuel tf subscribers m

    unfoldable pub octomap_callback : Message → OctomapManager M → Outcome (Published M)
    octomap_callback msg m =
        publish_all fuel tf subscribers (with_world m (set_octomap_from_msg msg (world_of m)))

    unfoldable pub set_box_occupancy_callback :
        Vec3 Double → Vec3 Double → Bool → OctomapManager M → Outcome (Published M)
    set_box_occupancy_callback center size set_occupied m = do
      let as_occupied = set_occupied_at fuel center size default (world_of m)
      let as_free = set_free_at fuel center size default (world_of m)
      w ← (if set_occupied then as_occupied else as_free)
      publish_all fuel tf subscribers (with_world m w)

    unfoldable pub set_display_bounds_callback :
        Double → Double → OctomapManager M → Outcome (Published M)
    set_display_bounds_callback min_z max_z m =
        let w = world_of m in
        let params = w.params in
        let shown = record params { visualize_min_z = min_z; visualize_max_z = max_z } in
        publish_all fuel tf subscribers (with_world m (record w { params = shown }))

    unfoldable pub insert_pointcloud_with_tf :
        String → ℕ → List (Vec3 Double) → OctomapManager M → Outcome (OctomapManager M)
    insert_pointcloud_with_tf frame_id stamp points m = do
      let found = lookup_transform tf frame_id m.world_frame stamp m
      let m' = found.0
      elim found.1 [
        | none ↦ ok m'
        | some sensor_to_world ↦
            insert_pointcloud sensor_to_world points m'.map >>= λ map. ok (record m' { map = map })
      ]

    unfoldable pub insert_disparity_image_with_tf :
        (Image Double → Matrix4 Double → List (Vec3 Double))
        → String
        → ℕ
        → Image Double
        → OctomapManager M
        → Outcome (OctomapManager M)
    insert_disparity_image_with_tf reproject frame_id stamp disparity m = do
      let found = lookup_transform tf frame_id m.world_frame stamp m
      let m' = found.0
      let c = m.camera
      let inserted : Outcome (OctomapManager M) = elim found.1 [
        | none ↦ ok m'
        | some sensor_to_world ↦
            insert_disparity_image reproject sensor_to_world disparity c.q c.full_image_width m'.map
            >>= λ map. ok (record m' { map = map })
      ]
      (if not c.q_initialized then ok m else inserted)

-- ===== src/World/Setup.antt =====
-- Construction, copying, parameters and map management of `OctomapWorld`
-- (octomap_world/src/octomap_world.cc).
pub mod Transfer
use volumetric_mapping.Common.{Bool, true, false, not, Option, none, some, if◌then◌else◌}
use volumetric_mapping.Outcome.{Outcome, ok, ◌>>=◌}
use volumetric_mapping.Platform.{Platform, Vec3}
use volumetric_mapping.Vector.{constant}
use volumetric_mapping.World.{
  OctomapParameters, OctomapWorld, default_parameters, tree_of, with_tree,
}

module _ ⦃p : Platform⦄ where
  open p use {
    Double, Tree, Message, Binary, literal, eq, create, clear, set_prob_hit, set_prob_miss,
    set_clamping_thres_min, set_clamping_thres_max, set_occupancy_thres, is_binary,
    binary_map_to_msg, full_map_to_msg, binary_msg_to_map, full_msg_to_map, write_binary,
    write_binary_const, read_binary,
  }

  -- The tree that `setOctomapParameters` goes on with: the old one, unless its resolution differs.
  pub tree_for : OctomapParameters Double → Option Tree → Tree
  tree_for params none = create params.resolution
  tree_for params (some t) =
      if not (eq (p.resolution t) params.resolution) then create params.resolution else t

  unfoldable pub configure : OctomapParameters Double → Tree → Tree
  configure params t = p.enable_change_detection params.change_detection_enabled (
      set_occupancy_thres params.threshold_occupancy (
        set_clamping_thres_max params.threshold_max (
          set_clamping_thres_min params.threshold_min
            (set_prob_miss params.probability_miss (set_prob_hit params.probability_hit t)))))

  unfoldable pub set_octomap_parameters : OctomapParameters Double → OctomapWorld → OctomapWorld
  set_octomap_parameters params w = record w {
    octree = some (configure params (tree_for params w.octree));
    params = params;
  }

  pub get_octomap_parameters : OctomapWorld → OctomapParameters Double
  get_octomap_parameters w = w.params

  pub create_world : OctomapParameters Double → OctomapWorld
  create_world params =
      set_octomap_parameters params
        (record { octree = none; params = default_parameters; robot_size = constant (literal 1 0) })

  unfoldable pub create_default_world : OctomapWorld
  create_default_world = create_world default_parameters

  pub set_robot_size : Vec3 Double → OctomapWorld → OctomapWorld
  set_robot_size size w = record w { robot_size = size }

  pub get_robot_size : OctomapWorld → Vec3 Double
  get_robot_size w = w.robot_size

  pub write_octomap_to_binary_const : OctomapWorld → Outcome (Bool × Binary)
  write_octomap_to_binary_const w = do t ← tree_of w; ok (write_binary_const t)

  -- The copying constructor. The results of writing and of reading only decide on a message. The
  -- size of the robot is not set before it is copied: its first value here is arbitrary.
  pub copy_world : OctomapWorld → Outcome OctomapWorld
  copy_world rhs = do
    let copied = set_robot_size (get_robot_size rhs) (create_world (get_octomap_parameters rhs))
    written ← write_octomap_to_binary_const rhs
    t ← tree_of copied
    let filled = read_binary written.1 t
    ok (with_tree copied (p.prune filled.1))

  unfoldable pub reset_map : OctomapWorld → OctomapWorld
  reset_map w = record w {
    octree = some (clear (elim w.octree [ none ↦ create w.params.resolution | some t ↦ t ]));
  }

  unfoldable pub prune : OctomapWorld → Outcome OctomapWorld
  prune w = do t ← tree_of w; ok (with_tree w (p.prune t))

  unfoldable get_resolution : OctomapWorld → Outcome Double
  get_resolution w = do t ← tree_of w; ok (p.resolution t)

  unfoldable enable_treat_unknown_as_occupied : OctomapWorld → OctomapWorld
  enable_treat_unknown_as_occupied w =
      let params = w.params in
      record w { params = record params { treat_unknown_as_occupied = true } }

  unfoldable disable_treat_unknown_as_occupied : OctomapWorld → OctomapWorld
  disable_treat_unknown_as_occupied w =
      let params = w.params in
      record w { params = record params { treat_unknown_as_occupied = false } }

  unfoldable pub enable_change_detection : OctomapWorld → Outcome OctomapWorld
  enable_change_detection w = do t ← tree_of w; ok (with_tree w (p.enable_change_detection true t))

  unfoldable disable_change_detection : OctomapWorld → Outcome OctomapWorld
  disable_change_detection w = do
    t ← tree_of w
    ok (with_tree w (p.enable_change_detection false t))

  -- Messages and files. A conversion that fails leaves a null pointer.
  unfoldable pub get_octomap_binary_msg : OctomapWorld → Outcome (Bool × Message)
  get_octomap_binary_msg w = do t ← tree_of w; ok (binary_map_to_msg t)

  unfoldable pub get_octomap_full_msg : OctomapWorld → Outcome (Bool × Message)
  get_octomap_full_msg w = do t ← tree_of w; ok (full_map_to_msg t)

  unfoldable pub set_octomap_from_binary_msg : Message → OctomapWorld → OctomapWorld
  set_octomap_from_binary_msg msg w = record w { octree = binary_msg_to_map msg }

  unfoldable pub set_octomap_from_full_msg : Message → OctomapWorld → OctomapWorld
  set_octomap_from_full_msg msg w = record w { octree = full_msg_to_map msg }

  unfoldable pub set_octomap_from_msg : Message → OctomapWorld → OctomapWorld
  set_octomap_from_msg msg w =
      if is_binary msg then set_octomap_from_binary_msg msg w else set_octomap_from_full_msg msg w

  -- With what is written to the file.
  unfoldable pub write_octomap_to_file : OctomapWorld → Outcome (OctomapWorld × Bool × Binary)
  write_octomap_to_file w = do t ← tree_of w; let r = write_binary t; ok (with_tree w r.0, r.1, r.2)

  -- The argument is the content of the file, `none` if it cannot be read.
  unfoldable pub load_octomap_from_file :
      Option Binary → OctomapWorld → Outcome (OctomapWorld × Bool)
  load_octomap_from_file content w = do
    t ← tree_of w
    elim content [
      | none ↦ ok (w, false)
      | some b ↦ let r = read_binary b t in ok (with_tree w r.1, r.0)
    ]

-- ===== src/Tests/Whole.antt =====
-- The node from its start, maps that are copied, sent and saved, and the contracts of the classes,
-- on small inputs.
use volumetric_mapping.Common.{
  Any, All, map, ◌<◌, ◌+◌, ◌≡◌, ◌≢◌, ◌↔◌, refl, Bool, true, false, Option, none, some, List, [],
  ◌∷◌, length, arith,
}
use volumetric_mapping.Common.Int.{ℤ, pos, ltb_ℤ}
use volumetric_mapping.Outcome.{ok, ◌>>=◌}
use volumetric_mapping.Platform.{Key}
use volumetric_mapping.Platform.Codec.{Codec}
use volumetric_mapping.Platform.Flat.{leaf_of, flat, FlatTree, find}
use volumetric_mapping.World.{OctomapWorld, with_tree}
use volumetric_mapping.World.Setup.{copy_world}
use volumetric_mapping.World.Setup.Transfer.{copy_world-states}
use volumetric_mapping.World.Changes.{get_changed_points}
use volumetric_mapping.World.Changes.Response.{get_changed_points_twice}
use volumetric_mapping.KeySet.{key_eq}
use volumetric_mapping.Base.Virtuals.{world_base, octomap_world}
use volumetric_mapping.Base.Virtuals.Paths.{IsPathCheck, virtuals-IsPathCheck}
use volumetric_mapping.Manager.Camera.{set_q_from_params}
use volumetric_mapping.Manager.Camera.Coefficients.{coefficients, set_q_from_params-coefficients}
use volumetric_mapping.Manager.Transforms.History.{
  message, request, answers, log_answers, answers_refine,
}
use volumetric_mapping.Manager.Transforms.{lookup_transform_queue}
use volumetric_mapping.Manager.Transforms.Matching.{IsNear}
use volumetric_mapping.Manager.Transforms.Answered.{queue_after, queue_after-IsNear}
use volumetric_mapping.Manager.Settings.{ParameterServer}
use volumetric_mapping.Manager.Publish.{full_map, publication, octomap, publish_map, publish_all}
use volumetric_mapping.Manager.Services.{
  Files, world_of, with_world, get_octomap_callback, octomap_callback, save_octomap_callback,
  load_octomap_callback,
}
use volumetric_mapping.Manager.Services.Kept.{IfOk}
use volumetric_mapping.Manager.Services.Transfer.{
  HoldsCells, bt, octomap_callback-get_octomap, octomap_callback-publish_map,
  load_octomap_callback-save_octomap,
}
use volumetric_mapping.Manager.Node.{
  Environment, Event, on_input_octomap, on_reset_map, on_pointcloud, on_left_camera_info,
  on_right_camera_info, main,
}
use volumetric_mapping.Manager.Node.Publishing.{AfterPublishing}
use volumetric_mapping.Manager.Node.Safety.{main-IsReady}
use volumetric_mapping.Tests.Sample.{tree, world, in_free}
use volumetric_mapping.Tests.Node.{early, model, info, late, two_poses, node, no_tf, zero_q}

abbrev no_parameters : ParameterServer
no_parameters = record {
  get_string = λ name. none;
  get_bool = λ name. none;
  get_double = λ name. none;
  get_doubles = λ name. none;
  get_transform = λ name. none;
}

-- Each file holds the small tree.
abbrev one_file : Files
one_file = record {
  read_tree = λ path. some tree;
  read_pcd = λ path. in_free ∷ [];
  read_ply = λ path. [];
}

abbrev environment : Environment Bool
environment = record {
  fuel = 3;
  tf = no_tf;
  subscribers = λ topic. 1;
  files = one_file;
  reproject = λ image q. [];
  from_camera_info = λ left right. model;
}

abbrev events : List (Environment Bool × Event Bool)
events =
    (environment, on_left_camera_info info)
    ∷ (environment, on_input_octomap (true, some tree))
    ∷ (environment, on_right_camera_info info)
    ∷ (environment, on_pointcloud "camera" 12 (in_free ∷ []))
    ∷ (environment, on_reset_map)
    ∷ []

leafs-depth :
    (t : FlatTree) (cells : List (Key × ℤ))
    → All (λ leaf. leaf.depth < 16 + 1) (map (leaf_of t) cells)
leafs-depth t [] = tt
leafs-depth t (cell ∷ cells) = (omega arith, leafs-depth t cells)

main-IsReady_example : AfterPublishing (main environment no_parameters (some bt) events)
main-IsReady_example =
    main-IsReady (λ t. leafs-depth t t.cells) environment no_parameters (some bt) events
      (tt, ((tree, refl), (tt, (tt, (tt, tt)))))

answers_refine_example :
    answers (request 12 ∷ message late ∷ request 48 ∷ []) two_poses
    ≡ log_answers (request 12 ∷ message late ∷ request 48 ∷ []) two_poses
answers_refine_example =
    answers_refine (request 12 ∷ message late ∷ request 48 ∷ []) two_poses
      (omega arith, (omega arith, tt))

queue_after-IsNear_example :
    ((lookup_transform_queue 48 (queue_after (request 12 ∷ message late ∷ []) two_poses)).1 ≢ none)
    ↔ Any (IsNear 5 48) (early ∷ late ∷ late ∷ [])
queue_after-IsNear_example =
    queue_after-IsNear (request 12 ∷ message late ∷ []) two_poses 48 (omega arith, omega arith)
      ((omega arith, (omega arith, tt)), ((omega arith, tt), (tt, tt)))

abbrev is_occupied_value : Option ℤ → Option Bool
is_occupied_value none = none
is_occupied_value (some v) = some (ltb_ℤ (pos 0) v)

-- The trees of the examples lose nothing.
abbrev flat_codec : Codec
flat_codec = record {
  value = λ t k. find t.cells k;
  state = λ t k. is_occupied_value (find t.cells k);
  separates = λ t. true;
  sent_full = λ t h. (refl, t, refl, λ j. refl);
  sent_binary = λ t h. (refl, t, refl, λ j. refl);
  read_written = λ t t₀ h s s₀. (refl, λ j. refl);
  read_written_const = λ t t₀ h s s₀. (refl, λ j. refl);
  state-write_binary = λ t j s. refl;
  state-prune = λ t j. refl;
}

copy_world-states_example :
    (t' : FlatTree) × (copy_world world ≡ ok (with_tree world t'))
    × ((j : Key) → flat_codec.state t' j ≡ flat_codec.state tree j)
copy_world-states_example = copy_world-states flat_codec world tree refl refl refl refl

octomap_callback-get_octomap_example :
    (msg : Bool × Option FlatTree) × (get_octomap_callback (world_of node) ≡ ok (true, msg))
    × (flat.is_binary msg ≡ false)
    × IfOk (HoldsCells flat_codec tree node) (octomap_callback 3 no_tf (λ t. 0) msg node)
    × (t' : FlatTree) × (octomap_callback 3 no_tf (λ t. 0) msg node
        ≡ publish_all 3 no_tf (λ t. 0) (with_world node (with_tree (world_of node) t')))
    × ((j : Key) → flat_codec.value t' j ≡ flat_codec.value tree j)
octomap_callback-get_octomap_example =
    octomap_callback-get_octomap flat_codec node node tree 3 no_tf (λ t. 0) (λ u j. refl) refl refl

octomap_callback-publish_map_example :
    (msg : Bool × Option FlatTree) × (publish_map 3 no_tf (λ t. 0) full_map node
      ≡ ok (publication full_map "world" (octomap msg) ∷ []))
    × (t' : FlatTree) × (octomap_callback 3 no_tf (λ t. 0) msg node
        ≡ publish_all 3 no_tf (λ t. 0) (with_world node (with_tree (world_of node) t')))
    × ((j : Key) → flat_codec.state t' j ≡ flat_codec.state tree j)
octomap_callback-publish_map_example =
    octomap_callback-publish_map flat_codec node node tree full_map 3 no_tf (λ t. 0) refl refl refl

load_octomap_callback-save_octomap_example :
    (saved t' : FlatTree) × (save_octomap_callback world ≡ ok (with_tree world saved, true, tree))
    × (load_octomap_callback one_file (b'm' ∷ b'.' ∷ bt) world ≡ ok (with_tree world t', true))
    × ((j : Key)
        → (flat_codec.state saved j ≡ flat_codec.state tree j)
          × (flat_codec.state t' j ≡ flat_codec.state tree j))
load_octomap_callback-save_octomap_example =
    load_octomap_callback-save_octomap flat_codec one_file (b'm' ∷ []) world world tree tree refl
      refl refl refl refl refl

get_changed_points_twice_example :
    (get_changed_points true world >>= λ r. get_changed_points true r.0)
    ≡ ok (
      with_tree world (record tree { changes = [] }),
      record { changed_points = []; changed_states = [] },
    )
unfolding key_eq
get_changed_points_twice_example =
    get_changed_points_twice true true world tree refl ((λ e. cc), tt) (λ t. refl)

set_q_from_params-coefficients_example :
    ((set_q_from_params (coefficients zero_q) ≡ some zero_q)
      ↔ (coefficients zero_q ≡ coefficients zero_q))
    × ((set_q_from_params (coefficients zero_q) ≡ none) ↔ (length (coefficients zero_q) ≢ 16))
set_q_from_params-coefficients_example = set_q_from_params-coefficients (coefficients zero_q) zero_q

virtuals-IsPathCheck_example :
    IsPathCheck (world_base {W = OctomapWorld}) world × IsPathCheck (octomap_world 2) world
virtuals-IsPathCheck_example = virtuals-IsPathCheck 2 world world

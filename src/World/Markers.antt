-- ===== src/World/Markers.antt =====
-- The markers that show the map, and their colors (octomap_world/src/octomap_world.cc).
pub mod Leafs
pub mod Points
use Prim.Native.String.{String}
use volumetric_mapping.Common.{
  ℕ, zero, suc, ◌+◌, ◌%◌, Bool, not, ◌||◌, List, [], ◌∷◌, ◌++◌, ◌==◌, if◌then◌else◌,
}
use volumetric_mapping.Common.Int.{ℤ, pos, negsuc}
use volumetric_mapping.Outcome.{Outcome, ok, fault, bad_index, ◌>>=◌}
use volumetric_mapping.Platform.{Platform, Vec3, Leaf}
use volumetric_mapping.Vector.{min, max}
use volumetric_mapping.World.{OctomapWorld, tree_of, with_tree}
use volumetric_mapping.World.Nearest.{is_empty}

-- `std_msgs::ColorRGBA`.
pub record Color (D : Type 0) : Type 0 where
  pub r : D
  pub g : D
  pub b : D
  pub a : D

-- `none` stands for the action of a marker that was just made by `resize`.
pub data Action : Type 0 where
  none add delete : Action

pub data MarkerType : Type 0 where
  arrow cube_list : MarkerType

-- The fields of `visualization_msgs::Marker` that the code writes.
pub record Marker (D : Type 0) : Type 0 where
  pub frame_id : String
  pub ns : String
  pub id : ℕ
  pub type : MarkerType
  pub scale : Vec3 D
  pub action : Action
  pub points : List (Vec3 D)
  pub colors : List (Color D)

abbrev pub is_even : ℤ → Bool
is_even (pos n) = (n % 2) == 0
is_even (negsuc n) = ((n + 1) % 2) == 0

module _ ⦃p : Platform⦄ where
  open p use {
    Double, Tree, Node, literal, of_ℤ, to_int, to_float, lt, sub, mul, div, floor, leafs, node_size,
    tree_depth, is_node_occupied, metric_min, metric_max, prune,
  }

  unfoldable pub colorize_map_by_height : Double → Double → Double → Double
  colorize_map_by_height z min_z max_z =
      let height = div (sub z min_z) (sub max_z min_z) in
      sub (literal 1 0) (min (max height (literal 0 0)) (literal 1 0))

  -- The fields of the message are floats.
  abbrev pub rgb : Double → Double → Double → Color Double
  rgb red green blue = record {
    r = to_float red;
    g = to_float green;
    b = to_float blue;
    a = to_float (literal 1 0);
  }

  -- The `switch` over the sector of the hue.
  unfoldable pub sector_color : ℤ → Double → Double → Double → Color Double
  sector_color (negsuc _) v m n = rgb (literal 1 0) (literal 5 1) (literal 5 1)
  sector_color (pos i) v m n =
      if i == 6 || i == 0
      then rgb v n m
      else (if i == 1
          then rgb n v m
          else (if i == 2
              then rgb m v n
              else (if i == 3
                  then rgb m n v
                  else (if i == 4
                      then rgb n m v
                      else (if i == 5
                          then rgb v m n
                          else rgb (literal 1 0) (literal 5 1) (literal 5 1))))))

  unfoldable pub percent_to_color : Double → Color Double
  percent_to_color h =
      let one = literal 1 0 in
      let hue = mul (sub h (floor h)) (literal 6 0) in
      let i = to_int (floor hue) in
      let part = sub hue (of_ℤ i) in
      let f = if is_even i then sub one part else part in
      sector_color i one (mul one (sub one one)) (mul one (sub one (mul one f)))

  -- A marker that `resize` makes.
  abbrev pub blank : Marker Double
  blank = record {
    frame_id = "";
    ns = "";
    id = 0;
    type = arrow;
    scale = record { x = literal 0 0; y = literal 0 0; z = literal 0 0 };
    action = none;
    points = [];
    colors = [];
  }

  pub resize : ℕ → List (Marker Double) → List (Marker Double)
  resize zero ms = []
  resize (suc n) [] = blank ∷ resize n []
  resize (suc n) (m ∷ ms) = m ∷ resize n ms

  -- The first loop, from the index `i`, over the occupied markers. The free ones are then copies.
  pub prepare : String → Tree → ℕ → List (Marker Double) → List (Marker Double)
  prepare tf_frame t i [] = []
  prepare tf_frame t i (m ∷ ms) =
      let size = node_size t i in
      record m {
        frame_id = tf_frame;
        ns = "map";
        id = i;
        type = cube_list;
        scale = record { x = size; y = size; z = size };
      }
      ∷ prepare tf_frame t (i + 1) ms

  -- `markers[i].points.push_back(point)` and the same for its color.
  pub push_point :
      ℕ → Vec3 Double → Color Double → List (Marker Double) → Outcome (List (Marker Double))
  push_point i point color [] = fault bad_index
  push_point zero point color (m ∷ ms) =
      ok (record m { points = m.points ++ point ∷ []; colors = m.colors ++ color ∷ [] } ∷ ms)
  push_point (suc i) point color (m ∷ ms) = push_point i point color ms >>= λ rest. ok (m ∷ rest)

  -- Occupied and free markers.
  abbrev pub MarkerArrays : Type 0
  MarkerArrays = List (Marker Double) × List (Marker Double)

  -- The body of the loop over the leafs.
  pub add_leaf : Tree → Double → Double → Leaf Double Node → MarkerArrays → Outcome MarkerArrays
  add_leaf t min_z max_z leaf (occupied_nodes, free_nodes) =
      let z = leaf.center.z in
      let color = percent_to_color (colorize_map_by_height z min_z max_z) in
      let to_occupied =
        push_point leaf.depth leaf.center color occupied_nodes >>= λ ms. ok (ms, free_nodes) in
      let to_free =
        push_point leaf.depth leaf.center color free_nodes >>= λ ms. ok (occupied_nodes, ms) in
      if lt max_z z || lt z min_z
      then ok (occupied_nodes, free_nodes)
      else (if is_node_occupied t leaf.node then to_occupied else to_free)

  pub add_leafs :
      Tree → Double → Double → List (Leaf Double Node) → MarkerArrays → Outcome MarkerArrays
  add_leafs t min_z max_z [] arrays = ok arrays
  add_leafs t min_z max_z (leaf ∷ more) arrays = do
    arrays' ← add_leaf t min_z max_z leaf arrays
    add_leafs t min_z max_z more arrays'

  -- The last loop.
  pub set_actions : List (Marker Double) → List (Marker Double)
  set_actions [] = []
  set_actions (m ∷ ms) =
      record m { action = if not (is_empty m.points) then add else delete } ∷ set_actions ms

  -- The result is the world, whose tree is pruned, and the two arrays.
  unfoldable pub generate_marker_array :
      String → MarkerArrays → OctomapWorld → Outcome (OctomapWorld × MarkerArrays)
  generate_marker_array tf_frame (occupied_nodes, free_nodes) w = do
    t₀ ← tree_of w
    let t = prune t₀
    let low = (metric_min t).z
    let high = (metric_max t).z
    let min_z = if lt low w.params.visualize_min_z then w.params.visualize_min_z else low
    let max_z = if lt w.params.visualize_max_z high then w.params.visualize_max_z else high
    let ready = prepare tf_frame t 0 (resize (tree_depth t + 1) occupied_nodes)
    arrays ← add_leafs t min_z max_z (leafs t) (ready, ready)
    ok (with_tree w t, (set_actions arrays.0, set_actions arrays.1))

-- ===== src/World/Inflate.antt =====
-- The inflation of all obstacles by a safety space, and the conversion of unknown space into free
-- space (octomap_world/src/octomap_world.cc). `lazy_eval` is the constant true in both.
pub mod Freed
use volumetric_mapping.Common.{
  ℕ, zero, suc, Bool, true, false, ◌&&◌, none, some, List, [], ◌∷◌, map, if◌then◌else◌,
}
use volumetric_mapping.Outcome.{Outcome, ok, fault, out_of_fuel, ◌>>=◌}
use volumetric_mapping.Platform.{Platform, Vec3}
use volumetric_mapping.Vector.{vec, constant, two, epsilon, epsilon_3d, point_eigen_to_octomap}
use volumetric_mapping.KeySet.{KeySet}
use volumetric_mapping.Loop.{visited, collect}
use volumetric_mapping.World.{include_partial_boxes, OctomapWorld, tree_of, with_tree}
use volumetric_mapping.World.Status.{is_occupied}
use volumetric_mapping.World.Speckle.{get_cell_status_bounding_box}
use volumetric_mapping.World.Region.{
  get_keys_bounding_box, get_map_bounds, get_map_center, get_map_size, set_keys,
}
use volumetric_mapping.World.Boxes.{Box, get_all_free_boxes, get_occupied_boxes_bounding_box}

-- `v[i]` for i below 3.
pub data Axis : Type 0 where
  x_axis y_axis z_axis : Axis

abbrev pub coordinate : {A : Type 0} → Axis → Vec3 A → A
coordinate x_axis v = v.x
coordinate y_axis v = v.y
coordinate z_axis v = v.z

abbrev pub with_coordinate : {A : Type 0} → Axis → A → Vec3 A → Vec3 A
with_coordinate x_axis a v = record v { x = a }
with_coordinate y_axis a v = record v { y = a }
with_coordinate z_axis a v = record v { z = a }

module _ ⦃p : Platform⦄ where
  open p use {
    Double, Tree, literal, lt, add, sub, mul, div, neg, to_float, vadd, vsub, vdiv, min_coeff,
    cwise_min, cwise_max, resolution, search_coord, set_node_value, update_inner_occupancy, prune,
    clamping_thres_min_log, clamping_thres_max_log,
  }

  -- `for (float x = start + epsilon; x < end; x += resolution)`.
  pub float_steps : ℕ → Double → Double → Double → Outcome (List Double)
  float_steps fuel start end resolution =
      visited fuel (λ a. lt a end) (λ a. to_float (add a resolution)) (to_float (add start epsilon))

  -- Three such loops, nested: the points at which the innermost body runs, in order.
  pub float_grid : ℕ → Vec3 Double → Vec3 Double → Double → Outcome (List (Vec3 Double))
  float_grid fuel pmin pmax r = do
    xs ← float_steps fuel pmin.x pmax.x r
    collect xs λ x. do
      ys ← float_steps fuel pmin.y pmax.y r
      collect ys λ y. do zs ← float_steps fuel pmin.z pmax.z r; ok (map (vec x y) zs)

  -- A point that is unknown is set free.
  pub free_unknown : Double → List (Vec3 Double) → Tree → Tree
  free_unknown log_odds_value [] t = t
  free_unknown log_odds_value (v ∷ vs) t =
      free_unknown log_odds_value vs
        (elim (search_coord t v) [ none ↦ set_node_value v log_odds_value true t | some _ ↦ t ])

  pub convert_unknown_to_free_within :
      ℕ → Vec3 Double → Vec3 Double → OctomapWorld → Outcome OctomapWorld
  convert_unknown_to_free_within fuel min_bound max_bound w = do
    t ← tree_of w
    let r = resolution t
    let pmin = point_eigen_to_octomap (vadd min_bound epsilon_3d)
    let pmax = point_eigen_to_octomap (vsub max_bound epsilon_3d)
    points ← float_grid fuel pmin pmax r
    let freed = free_unknown (clamping_thres_min_log t) points t
    ok (with_tree w (prune (update_inner_occupancy freed)))

  unfoldable convert_unknown_to_free : ℕ → OctomapWorld → Outcome OctomapWorld
  convert_unknown_to_free fuel w = do
    bounds ← get_map_bounds w
    convert_unknown_to_free_within fuel bounds.0 bounds.1 w

  -- The loop that computes `bound_threshold`.
  unfoldable pub threshold_loop : ℕ → Double → Double → Double → Outcome Double
  threshold_loop zero limit bound_threshold multiple = fault out_of_fuel
  threshold_loop (suc fuel) limit bound_threshold multiple =
      let rest = threshold_loop fuel limit (add bound_threshold multiple) (mul multiple two) in
      if lt multiple limit then rest else ok bound_threshold

  -- The volume that an obstacle makes infeasible.
  unfoldable pub infeasible_min : Vec3 Double → Box Double → Vec3 Double
  infeasible_min safety_space (center, side) =
      vsub center (vdiv (vadd (constant side) safety_space) two)

  unfoldable pub infeasible_max : Vec3 Double → Box Double → Vec3 Double
  infeasible_max safety_space (center, side) =
      vadd center (vdiv (vadd (constant side) safety_space) two)

  -- The keys of the part of a free box that the obstacles of a list make infeasible.
  unfoldable pub overlap_keys :
      ℕ → Tree → Vec3 Double → Box Double → List (Box Double) → KeySet → Outcome KeySet
  overlap_keys fuel t safety_space free_box [] keys = ok keys
  overlap_keys fuel t safety_space free_box (box_occupied ∷ more) keys = do
    let half = vdiv (constant free_box.1) two
    let bbx_min = cwise_max (vsub free_box.0 half) (infeasible_min safety_space box_occupied)
    let bbx_max = cwise_min (vadd free_box.0 half) (infeasible_max safety_space box_occupied)
    let center = vdiv (vadd bbx_min bbx_max) two
    keys' ← get_keys_bounding_box fuel t center (vsub bbx_max bbx_min) include_partial_boxes keys
    overlap_keys fuel t safety_space free_box more keys'

  -- The first test: a small box that is not at the bounds of the map.
  unfoldable pub is_near_obstacle :
      Vec3 Double → Double → Vec3 Double × Vec3 Double → Box Double → Bool
  is_near_obstacle safety_space bound_threshold bounds (center, side) =
      let distance = cwise_min (vsub center bounds.0) (vsub bounds.1 center) in
      lt side (sub (div (min_coeff safety_space) (literal 4 0)) epsilon)
      && lt bound_threshold (min_coeff distance)

  -- The body of the loop over the free boxes.
  unfoldable pub inflate_free_box :
      ℕ
      → OctomapWorld
      → Tree
      → Vec3 Double
      → Double
      → Vec3 Double × Vec3 Double
      → Box Double
      → KeySet
      → Outcome KeySet
  inflate_free_box fuel w t safety_space bound_threshold bounds free_box keys = do
    let side = constant free_box.1
    let whole_box = get_keys_bounding_box fuel t free_box.0 side include_partial_boxes keys
    let shrunk = cwise_max (constant (sub (resolution t) epsilon)) (vsub safety_space side)
    let parts =
        get_occupied_boxes_bounding_box w free_box.0 (vadd safety_space side) >>= λ obstacles.
        overlap_keys fuel t safety_space free_box obstacles keys
    let inner = get_cell_status_bounding_box fuel w free_box.0 shrunk >>= λ status.
        if is_occupied status then whole_box else parts
    let outer =
        get_cell_status_bounding_box fuel w free_box.0 (vadd safety_space side) >>= λ status.
        if is_occupied status then inner else ok keys
    (if is_near_obstacle safety_space bound_threshold bounds free_box then whole_box else outer)

  unfoldable pub inflate_free_boxes :
      ℕ
      → OctomapWorld
      → Tree
      → Vec3 Double
      → Double
      → Vec3 Double × Vec3 Double
      → List (Box Double)
      → KeySet
      → Outcome KeySet
  inflate_free_boxes fuel w t safety_space bound_threshold bounds [] keys = ok keys
  inflate_free_boxes fuel w t safety_space bound_threshold bounds (free_box ∷ more) keys = do
    keys' ← inflate_free_box fuel w t safety_space bound_threshold bounds free_box keys
    inflate_free_boxes fuel w t safety_space bound_threshold bounds more keys'

  -- The inflated volume of one obstacle outside the map. `negative` is `sign == -1`.
  unfoldable pub outer_keys :
      ℕ
      → Tree
      → Vec3 Double
      → Vec3 Double × Vec3 Double
      → Axis
      → Bool
      → List (Box Double)
      → KeySet
      → Outcome KeySet
  outer_keys fuel t safety_space bounds i negative [] keys = ok keys
  outer_keys fuel t safety_space bounds i negative (box ∷ more) keys = do
    let low = infeasible_min safety_space box
    let high = infeasible_max safety_space box
    let bbx_min = if negative then low else with_coordinate i (coordinate i bounds.1) low
    let bbx_max = if negative then with_coordinate i (coordinate i bounds.0) high else high
    let center = vdiv (vadd bbx_min bbx_max) two
    let size = vsub (vsub bbx_max bbx_min) epsilon_3d
    keys' ← get_keys_bounding_box fuel t center size include_partial_boxes keys
    outer_keys fuel t safety_space bounds i negative more keys'

  -- The body of the loops over the axes and the signs.
  unfoldable pub inflate_border :
      ℕ
      → OctomapWorld
      → Tree
      → Vec3 Double
      → Vec3 Double × Vec3 Double
      → Axis
      → Bool
      → KeySet
      → Outcome KeySet
  inflate_border fuel w t safety_space bounds i negative keys = do
    c ← get_map_center w
    s ← get_map_size w
    let sign = if negative then neg (literal 1 0) else literal 1 0
    let slab = div (coordinate i safety_space) two
    let shift = div (mul sign (sub (coordinate i s) slab)) two
    let center = with_coordinate i (add (coordinate i c) shift) c
    let size = with_coordinate i slab s
    obstacles ← get_occupied_boxes_bounding_box w center (vsub size epsilon_3d)
    outer_keys fuel t safety_space bounds i negative obstacles keys

  unfoldable pub inflate_borders :
      ℕ → OctomapWorld → Tree → Vec3 Double → Vec3 Double × Vec3 Double → KeySet → Outcome KeySet
  inflate_borders fuel w t safety_space bounds keys = do
    keys₁ ← inflate_border fuel w t safety_space bounds x_axis true keys
    keys₂ ← inflate_border fuel w t safety_space bounds x_axis false keys₁
    keys₃ ← inflate_border fuel w t safety_space bounds y_axis true keys₂
    keys₄ ← inflate_border fuel w t safety_space bounds y_axis false keys₃
    keys₅ ← inflate_border fuel w t safety_space bounds z_axis true keys₄
    inflate_border fuel w t safety_space bounds z_axis false keys₅

  unfoldable inflate_occupied : ℕ → Vec3 Double → OctomapWorld → Outcome OctomapWorld
  inflate_occupied fuel safety_space w = do
    t ← tree_of w
    let limit = sub (div (min_coeff safety_space) (literal 4 0)) epsilon
    bound_threshold ← threshold_loop fuel limit (literal 0 0) (resolution t)
    bounds ← get_map_bounds w
    free_boxes ← get_all_free_boxes w
    keys ← inflate_free_boxes fuel w t safety_space bound_threshold bounds free_boxes []
    keys' ← inflate_borders fuel w t safety_space bounds keys
    ok (with_tree w (prune (update_inner_occupancy (set_keys (clamping_thres_max_log t) keys' t))))

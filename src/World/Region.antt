-- ===== src/World/Region.antt =====
-- Bounding boxes, and the operations that set the cells of a box
-- (octomap_world/src/octomap_world.cc). `lazy_eval` is the constant true in all of them.
pub mod Values
pub mod Slabs
pub mod ReadBack
pub mod Borders
use volumetric_mapping.Common.{ℕ, true, List, [], ◌∷◌}
use volumetric_mapping.Outcome.{Outcome, ok, ◌>>=◌}
use volumetric_mapping.Platform.{Platform, Vec3, Key}
use volumetric_mapping.Vector.{
  constant, two, epsilon_3d, point_eigen_to_octomap, point_octomap_to_eigen,
}
use volumetric_mapping.KeySet.{KeySet, insert}
use volumetric_mapping.Loop.{grid}
use volumetric_mapping.World.{
  BoundHandling, default, include_partial_boxes, ignore_partial_boxes, OctomapWorld, tree_of,
  with_tree,
}

module _ ⦃p : Platform⦄ where
  open p use {
    Double, Tree, literal, lt, add, sub, div, vadd, vsub, vdiv, resolution, coord_to_key,
    key_to_coord, search, search_coord, set_node_value, update_inner_occupancy, prune,
    clamping_thres_min_log, clamping_thres_max_log, metric_min, metric_max, to_float,
  }

  -- A position, moved to the center of its cell.
  unfoldable pub align : Tree → Vec3 Double → Vec3 Double
  align t v = point_octomap_to_eigen (key_to_coord t (coord_to_key t (point_eigen_to_octomap v)))

  -- The result is `*bbx_min` and `*bbx_max`.
  unfoldable pub adjust_bounding_box :
      Tree → Vec3 Double → Vec3 Double → BoundHandling → Vec3 Double × Vec3 Double
  adjust_bounding_box t position size default =
      let half = vdiv size two in
      (vsub (vsub position half) epsilon_3d, vadd (vadd position half) epsilon_3d)
  adjust_bounding_box t position size include_partial_boxes =
      let half = vdiv size two in
      let bbx_min = align t (vadd (vsub position half) epsilon_3d) in
      let bbx_max = align t (vsub (vadd position half) epsilon_3d) in
      (vsub bbx_min epsilon_3d, vadd bbx_max epsilon_3d)
  adjust_bounding_box t position size ignore_partial_boxes =
      let half = vdiv size two in
      let resolution_3d = constant (resolution t) in
      let bbx_min = align t (vsub (vsub position half) epsilon_3d) in
      let bbx_max = align t (vadd (vadd position half) epsilon_3d) in
      (vsub (vadd bbx_min resolution_3d) epsilon_3d, vadd (vsub bbx_max resolution_3d) epsilon_3d)

  -- The positions at which the three nested loops over an adjusted box run their body.
  unfoldable pub box_positions :
      ℕ → Tree → Vec3 Double → Vec3 Double → BoundHandling → Outcome (List (Vec3 Double))
  box_positions fuel t position size method =
      let box = adjust_bounding_box t position size method in grid fuel box.0 box.1 (resolution t)

  -- The members `coordToKey` and `keyToCoord`.
  unfoldable pub coord_to_key_eigen : Tree → Vec3 Double → Key
  coord_to_key_eigen t coord = coord_to_key t (point_eigen_to_octomap coord)

  unfoldable key_to_coord_eigen : Tree → Key → Vec3 Double
  key_to_coord_eigen t key = point_octomap_to_eigen (key_to_coord t key)

  pub insert_keys : Tree → List (Vec3 Double) → KeySet → KeySet
  insert_keys t [] keys = keys
  insert_keys t (v ∷ vs) keys = insert_keys t vs (insert (coord_to_key_eigen t v) keys)

  pub get_keys_bounding_box :
      ℕ → Tree → Vec3 Double → Vec3 Double → BoundHandling → KeySet → Outcome KeySet
  get_keys_bounding_box fuel t position size method keys = do
    positions ← box_positions fuel t position size method
    ok (insert_keys t positions keys)

  -- `setNodeValue` at each position.
  pub set_values : Double → List (Vec3 Double) → Tree → Tree
  set_values log_odds_value [] t = t
  set_values log_odds_value (v ∷ vs) t =
      set_values log_odds_value vs (set_node_value (point_eigen_to_octomap v) log_odds_value true t)

  unfoldable pub set_boxes :
      ℕ → Vec3 Double → Double → BoundHandling → List (Vec3 Double) → Tree → Outcome Tree
  set_boxes fuel size log_odds_value method [] t = ok t
  set_boxes fuel size log_odds_value method (position ∷ positions) t = do
    points ← box_positions fuel t position size method
    set_boxes fuel size log_odds_value method positions (set_values log_odds_value points t)

  unfoldable pub set_log_odds_bounding_box :
      ℕ
      → List (Vec3 Double)
      → Vec3 Double
      → Double
      → BoundHandling
      → OctomapWorld
      → Outcome OctomapWorld
  set_log_odds_bounding_box fuel positions size log_odds_value method w = do
    t ← tree_of w
    t' ← set_boxes fuel size log_odds_value method positions t
    ok (with_tree w (update_inner_occupancy t'))

  -- The overload for one position.
  unfoldable set_log_odds_bounding_box_at :
      ℕ → Vec3 Double → Vec3 Double → Double → BoundHandling → OctomapWorld → Outcome OctomapWorld
  set_log_odds_bounding_box_at fuel position size log_odds_value method w =
      set_log_odds_bounding_box fuel (position ∷ []) size log_odds_value method w

  unfoldable pub set_free :
      ℕ → List (Vec3 Double) → Vec3 Double → BoundHandling → OctomapWorld → Outcome OctomapWorld
  set_free fuel positions size method w = do
    t ← tree_of w
    set_log_odds_bounding_box fuel positions size (clamping_thres_min_log t) method w

  unfoldable pub set_occupied :
      ℕ → List (Vec3 Double) → Vec3 Double → BoundHandling → OctomapWorld → Outcome OctomapWorld
  set_occupied fuel positions size method w = do
    t ← tree_of w
    set_log_odds_bounding_box fuel positions size (clamping_thres_max_log t) method w

  -- The overloads for one position.
  unfoldable pub set_free_at :
      ℕ → Vec3 Double → Vec3 Double → BoundHandling → OctomapWorld → Outcome OctomapWorld
  set_free_at fuel position size method w = set_free fuel (position ∷ []) size method w

  unfoldable pub set_occupied_at :
      ℕ → Vec3 Double → Vec3 Double → BoundHandling → OctomapWorld → Outcome OctomapWorld
  set_occupied_at fuel position size method w = set_occupied fuel (position ∷ []) size method w

  unfoldable pub get_map_center : OctomapWorld → Outcome (Vec3 Double)
  get_map_center w = do
    t ← tree_of w
    ok (vadd (metric_min t) (vdiv (vsub (metric_max t) (metric_min t)) two))

  unfoldable pub get_map_size : OctomapWorld → Outcome (Vec3 Double)
  get_map_size w = do
    t ← tree_of w
    let low = metric_min t
    let high = metric_max t
    ok (record { x = sub high.x low.x; y = sub high.y low.y; z = sub high.z low.z })

  unfoldable pub get_map_bounds : OctomapWorld → Outcome (Vec3 Double × Vec3 Double)
  get_map_bounds w = do t ← tree_of w; ok (metric_min t, metric_max t)

  -- `octree_->setNodeValue(octree_->keyToCoord(key), ...)` for each key of a set.
  pub set_keys : Double → KeySet → Tree → Tree
  set_keys log_odds_value [] t = t
  set_keys log_odds_value (k ∷ ks) t =
      set_keys log_odds_value ks (set_node_value (key_to_coord t k) log_odds_value true t)

  -- Both slabs at the borders of one axis; the center is given by its distance along the axis.
  pub border_keys :
      ℕ
      → Tree
      → (Double → Vec3 Double)
      → Vec3 Double
      → Double
      → Double
      → Double
      → KeySet
      → Outcome KeySet
  border_keys fuel t center_at size center side cropping keys = do
    let lower = add (sub center (div side two)) (div cropping (literal 4 0))
    let upper = sub (add center (div side two)) (div cropping (literal 4 0))
    keys' ← get_keys_bounding_box fuel t (center_at lower) size include_partial_boxes keys
    get_keys_bounding_box fuel t (center_at upper) size include_partial_boxes keys'

  pub set_borders_occupied : ℕ → Vec3 Double → OctomapWorld → Outcome OctomapWorld
  set_borders_occupied fuel cropping w = do
    t ← tree_of w
    c ← get_map_center w
    s ← get_map_size w
    keys_x ←
        border_keys fuel t (λ a. record c { x = a }) (record s { x = div cropping.x two }) c.x s.x
          cropping.x []
    keys_y ←
        border_keys fuel t (λ a. record c { y = a }) (record s { y = div cropping.y two }) c.y s.y
          cropping.y keys_x
    keys_z ←
        border_keys fuel t (λ a. record c { z = a }) (record s { z = div cropping.z two }) c.z s.z
          cropping.z keys_y
    ok (with_tree w (prune (update_inner_occupancy (set_keys (clamping_thres_max_log t) keys_z t))))

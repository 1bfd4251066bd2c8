-- ===== src/World/Speckle.antt =====
-- `isSpeckleNode`, with the wrap-around of the 16-bit key coordinates, and the test of a box of
-- cells that calls it (octomap_world/src/octomap_world.cc).
pub mod Neighbors
pub mod Obstacles
use volumetric_mapping.Common.{
  ℕ, ◌+◌, ◌%◌, Bool, true, false, not, ◌&&◌, ◌||◌, Option, none, some, List, [], ◌∷◌, leb,
  if◌then◌else◌,
}
use volumetric_mapping.Outcome.{Outcome, ok, ◌>>=◌}
use volumetric_mapping.Platform.{Platform, Vec3, Key, Leaf}
use volumetric_mapping.Vector.{constant, two, point_eigen_to_octomap}
use volumetric_mapping.KeySet.{key_eq}
use volumetric_mapping.Loop.{for_return}
use volumetric_mapping.World.{OctomapParameters, OctomapWorld, tree_of}
use volumetric_mapping.World.Status.{
  CellStatus, free, occupied, unknown_as, is_free, get_cell_status_point,
}

-- `++k` and `k - 1`, stored in a `uint16_t`.
abbrev pub increment : ℕ → ℕ
increment k = (k + 1) % 65536

abbrev pub decrement : ℕ → ℕ
decrement k = (k + 65535) % 65536

-- `for (c = k - 1; c <= k + 1; ++c)`: the comparison is of `int`s, which do not wrap.
unfoldable pub around : {R : Type 0} → ℕ → ℕ → (ℕ → Outcome (Option R)) → Outcome (Option R)
around fuel k body = for_return fuel (λ c. leb c (k + 1)) increment body (decrement k)

module _ ⦃p : Platform⦄ where
  open p use {
    Double, Tree, Node, literal, lt, div, vadd, vsub, vscale, vdiv, search, is_node_occupied,
    coord_to_key_checked, leafs_bbx, node_size, unknown_leaf_centers,
  }

  -- `node && octree_->isNodeOccupied(node)` for the node at a key.
  unfoldable pub occupied_at : Tree → Key → Bool
  occupied_at t key = elim (search t key) [ none ↦ false | some node ↦ is_node_occupied t node ]

  -- The body of the three loops. The search is for `key`, as in the source.
  unfoldable pub check_neighbor : Tree → Key → Key → Outcome (Option Bool)
  check_neighbor t key current_key =
      ok (if not (key_eq current_key key) && occupied_at t key then some false else none)

  unfoldable pub is_speckle_node : ℕ → Tree → Key → Outcome Bool
  is_speckle_node fuel t key = do
    found ← around fuel key.k2 λ c2.
        around fuel key.k1
          λ c1. around fuel key.k0 λ c0. check_neighbor t key (record { k0 = c0; k1 = c1; k2 = c2 })
    ok (elim found [ some speckle ↦ speckle | none ↦ true ])

  -- A leaf that the iterator shows although it lies outside the box: the iterator "begins too early".
  unfoldable pub is_outside : Tree → Vec3 Double → Vec3 Double → Leaf Double Node → Bool
  is_outside t bbx_min bbx_max leaf =
      let half = vscale (constant (literal 1 0)) (div (node_size t leaf.depth) two) in
      let lower = vsub leaf.center half in
      let upper = vadd leaf.center half in
      lt upper.x bbx_min.x
      || lt bbx_max.x lower.x
      || lt upper.y bbx_min.y
      || lt bbx_max.y lower.y
      || lt upper.z bbx_min.z
      || lt bbx_max.z lower.z

  -- The loop over the leafs; true stands for `return CellStatus::kOccupied`.
  unfoldable pub hits_obstacle :
      ℕ → Bool → Tree → Vec3 Double → Vec3 Double → List (Leaf Double Node) → Outcome Bool
  hits_obstacle fuel filter t bbx_min bbx_max [] = ok false
  hits_obstacle fuel filter t bbx_min bbx_max (leaf ∷ leafs) =
      let rest = hits_obstacle fuel filter t bbx_min bbx_max leafs in
      if is_outside t bbx_min bbx_max leaf
      then rest
      else (if is_node_occupied t leaf.node
          then (if filter
              then (is_speckle_node fuel t leaf.key >>= λ speckle.
                  if speckle then rest else ok true)
              else ok true)
          else rest)

  -- The part of `getCellStatusBoundingBox` behind the tests of the center.
  unfoldable pub box_status :
      ℕ → OctomapParameters Double → Tree → Vec3 Double → Vec3 Double → Outcome CellStatus
  box_status fuel params t bbx_min bbx_max = do
    hit ← hits_obstacle fuel params.filter_speckles t bbx_min bbx_max (leafs_bbx t bbx_min bbx_max)
    ok (
        if hit then occupied else (elim (unknown_leaf_centers t bbx_min bbx_max) [
          | [] ↦ free
          | _ ∷ _ ↦ unknown_as params.treat_unknown_as_occupied
        ]))

  unfoldable pub get_cell_status_bounding_box :
      ℕ → OctomapWorld → Vec3 Double → Vec3 Double → Outcome CellStatus
  get_cell_status_bounding_box fuel w point bounding_box_size = do
    center_status ← get_cell_status_point w point
    t ← tree_of w
    let half = vdiv bounding_box_size two
    let bbx_min = point_eigen_to_octomap (vsub point half)
    let bbx_max = point_eigen_to_octomap (vadd point half)
    let inside = box_status fuel w.params t bbx_min bbx_max
    let checked : Outcome CellStatus =
        elim (coord_to_key_checked t (point_eigen_to_octomap point)) [
          | none ↦ ok (unknown_as w.params.treat_unknown_as_occupied)
          | some _ ↦ inside
        ]
    (if not (is_free center_status) then ok center_status else checked)

-- ===== src/World/Speckle/Obstacles.antt =====
-- What `getCellStatusBoundingBox` answers.
use volumetric_mapping.Common.{
  ℕ, suc, ◌≡◌, ◌≢◌, refl, ◌↔◌, Bool, true, false, not, ◌&&◌, none, some, List, [], ◌∷◌, All, arith,
}
use volumetric_mapping.Outcome.{ok}
use volumetric_mapping.Platform.{Platform, Vec3, Leaf}
use volumetric_mapping.Vector.{two, point_eigen_to_octomap}
use volumetric_mapping.World.{OctomapWorld}
use volumetric_mapping.World.Status.{free, get_cell_status_point}
use volumetric_mapping.World.Speckle.{
  occupied_at, is_speckle_node, is_outside, hits_obstacle, box_status, get_cell_status_bounding_box,
}
use volumetric_mapping.World.Speckle.Neighbors.{IsWithin, is_speckle_node_occupied}

module _ ⦃p : Platform⦄ where
  open p use {
    Double, Tree, Node, search, is_node_occupied, vadd, vsub, vdiv, coord_to_key_checked, leafs_bbx,
    unknown_leaf_centers,
  }

  -- An iterator of OctoMap stands at a leaf that `search` finds by the iterator's key.
  pub record IsFound (t : Tree) (leaf : Leaf Double Node) : Type 0 where
    pub found : search t leaf.key ≡ some leaf.node
    pub within : IsWithin 65535 leaf.key

  abbrev pub obstructs : Tree → Vec3 Double → Vec3 Double → Leaf Double Node → Bool
  obstructs t bbx_min bbx_max leaf =
      not (is_outside t bbx_min bbx_max leaf) && is_node_occupied t leaf.node

  occupied_here :
      (t : Tree) (leaf : Leaf Double Node)
      → search t leaf.key ≡ some leaf.node
      → is_node_occupied t leaf.node ≡ true
      → occupied_at t leaf.key ≡ true
  unfolding occupied_at
  occupied_here t leaf found e = rw (found, occupied_at) e

  leaf_not_speckle :
      (fuel : ℕ) (t : Tree) (leaf : Leaf Double Node)
      → IsFound t leaf
      → is_node_occupied t leaf.node ≡ true
      → is_speckle_node (suc fuel) t leaf.key ≡ ok false
  leaf_not_speckle fuel t leaf v e =
      is_speckle_node_occupied fuel t leaf.key v.within (occupied_here t leaf v.found e)

  -- The filter changes nothing: the loop finds an obstacle as if the flag were off.
  hits_obstacle_unfiltered :
      (fuel fuel' : ℕ) (filter : Bool) (t : Tree) (a b : Vec3 Double)
      (leafs : List (Leaf Double Node))
      → All (IsFound t) leafs
      → hits_obstacle (suc fuel) filter t a b leafs ≡ hits_obstacle fuel' false t a b leafs
  unfolding hits_obstacle
  hits_obstacle_unfiltered fuel fuel' filter t a b [] h = refl
  hits_obstacle_unfiltered fuel fuel' filter t a b (leaf ∷ leafs) (v, h) = ground (
    arith,
    leaf_not_speckle fuel t leaf v,
    hits_obstacle_unfiltered fuel fuel' filter t a b leafs h,
  )

  hits_obstacle_none :
      (fuel : ℕ) (t : Tree) (a b : Vec3 Double) (leafs : List (Leaf Double Node))
      → (hits_obstacle fuel false t a b leafs ≡ ok false)
        ↔ All (λ leaf. obstructs t a b leaf ≡ false) leafs
  unfolding hits_obstacle
  hits_obstacle_none fuel t a b [] = (λ _. tt, λ _. refl)
  hits_obstacle_none fuel t a b (leaf ∷ leafs) = ground (arith, hits_obstacle_none fuel t a b leafs)

  abbrev pub unfiltered : OctomapWorld → OctomapWorld
  unfiltered w =
      let params = w.params in record w { params = record params { filter_speckles = false } }

  -- The corners of the box, as the code hands them to the octree.
  abbrev pub box_min : Vec3 Double → Vec3 Double → Vec3 Double
  box_min point size = point_eigen_to_octomap (vsub point (vdiv size two))

  abbrev pub box_max : Vec3 Double → Vec3 Double → Vec3 Double
  box_max point size = point_eigen_to_octomap (vadd point (vdiv size two))

  module _ (w : OctomapWorld) (t : Tree) (here : w.octree ≡ some t) (point size : Vec3 Double) where
    -- If the octree is there, the fuel is positive and OctoMap's iterator over the box yields only
    -- leafs that the search finds by their keys, with coordinates from 1 to 65535, then
    -- `getCellStatusBoundingBox` answers as if `filter_speckles` were off: the filter has no
    -- effect.
    pub get_cell_status_bounding_box-unfiltered :
        (fuel fuel' : ℕ)
        → All (IsFound t) (leafs_bbx t (box_min point size) (box_max point size))
        → get_cell_status_bounding_box (suc fuel) w point size
          ≡ get_cell_status_bounding_box fuel' (unfiltered w) point size
    unfolding get_cell_status_bounding_box box_status get_cell_status_point
    get_cell_status_bounding_box-unfiltered fuel fuel' h =
        let a = box_min point size in
        let b = box_max point size in
        ground (
          arith,
          here,
          hits_obstacle_unfiltered fuel fuel' w.params.filter_speckles t a b (leafs_bbx t a b) h,
        )

    -- If the octree is there, the fuel is positive and OctoMap's iterator over the box yields only
    -- leafs that the search finds by their keys, with coordinates from 1 to 65535, then
    -- `getCellStatusBoundingBox` answers free exactly if the status of the center is free, the
    -- center has a key in the octree, no occupied leaf of the iterator reaches into the box, and
    -- the octree lists no unknown cell in the box. This holds with and without
    -- `treat_unknown_as_occupied` and `filter_speckles`.
    pub get_cell_status_bounding_box_free :
        (fuel : ℕ)
        → All (IsFound t) (leafs_bbx t (box_min point size) (box_max point size))
        → (get_cell_status_bounding_box (suc fuel) w point size ≡ ok free) ↔ (
            (get_cell_status_point w point ≡ ok free)
            × (coord_to_key_checked t (point_eigen_to_octomap point) ≢ none)
            × All
                (λ leaf. obstructs t (box_min point size) (box_max point size) leaf ≡ false)
                (leafs_bbx t (box_min point size) (box_max point size))
            × (unknown_leaf_centers t (box_min point size) (box_max point size) ≡ []))
    unfolding get_cell_status_bounding_box box_status get_cell_status_point
    get_cell_status_bounding_box_free fuel h =
        let a = box_min point size in
        let b = box_max point size in
        ground (
          arith,
          here,
          hits_obstacle_unfiltered fuel fuel w.params.filter_speckles t a b (leafs_bbx t a b) h,
          hits_obstacle_none fuel t a b (leafs_bbx t a b),
        )

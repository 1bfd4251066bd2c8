-- ===== src/World/Clouds/Filled.antt =====
-- The points that show the occupied cells (octomap_world/src/octomap_world.cc).
use mathlib.Core.List.{flat_map}
use mathlib.Core.Path.{subst}
use volumetric_mapping.Common.{
  ℕ, ◌-◌, ◌^◌, ◌<◌, ◌≡◌, refl, ◌⊎◌, inl, inr, Bool, true, Bool-cases, some, List, [], ◌∷◌, ◌==◌,
  map, keep, All, if◌then◌else◌,
}
use volumetric_mapping.Outcome.{ok}
use volumetric_mapping.Platform.{Platform, Vec3, Leaf}
use volumetric_mapping.Vector.{constant, two, epsilon, point_eigen_to_octomap}
use volumetric_mapping.Loop.Lattice.{AxisRounds, lattice, grid-lattice}
use volumetric_mapping.World.{OctomapWorld}
use volumetric_mapping.World.Clouds.{
  cloud_points, leaf_points, occupied_points, get_occupied_point_cloud,
}

module _ ⦃p : Platform⦄ where
  open p use {
    Double, Tree, Node, of_ℕ, add, sub, mul, div, vadd, vsub, resolution, leafs, tree_depth,
    is_node_occupied,
  }

  -- How many of the smallest cells a cube of the tree has along an edge.
  abbrev pub edge : Tree → Leaf Double Node → ℕ
  edge t leaf = 2 ^ (tree_depth t - leaf.depth)

  -- How far the centers of the outer cells of a larger cube are from its own center: half an edge
  -- less half a cell.
  abbrev pub reach : Tree → Leaf Double Node → Double
  reach t leaf =
      sub (mul (of_ℕ (2 ^ (tree_depth t - leaf.depth - 1))) (resolution t)) (div (resolution t) two)

  abbrev pub first_cell : Tree → Leaf Double Node → Vec3 Double
  first_cell t leaf = vsub leaf.center (constant (reach t leaf))

  abbrev pub last_cell : Tree → Leaf Double Node → Vec3 Double
  last_cell t leaf = vadd (vadd leaf.center (constant (reach t leaf))) (constant epsilon)

  -- The centers of the smallest cells of a cube, as floats.
  abbrev pub cell_centers : Tree → Leaf Double Node → List (Vec3 Double)
  cell_centers t leaf =
      let n = edge t leaf in
      if tree_depth t == leaf.depth
      then point_eigen_to_octomap leaf.center ∷ []
      else map point_eigen_to_octomap (lattice n n n (first_cell t leaf) (resolution t))

  -- The cube is a smallest cell, or a counter that starts at the center of its first cell and goes
  -- on by the resolution passes that of the last one after as many rounds as an edge has cells.
  abbrev pub IsFilled : ℕ → Tree → Leaf Double Node → Type 0
  IsFilled fuel t leaf =
      let n = edge t leaf in
      let low = first_cell t leaf in
      let high = last_cell t leaf in
      ((tree_depth t == leaf.depth) ≡ true)
      ⊎ ((n < fuel)
          × AxisRounds n low.x high.x (resolution t)
          × AxisRounds n low.y high.y (resolution t)
          × AxisRounds n low.z high.z (resolution t))

  cloud_points-map : (vs : List (Vec3 Double)) → cloud_points vs ≡ map point_eigen_to_octomap vs
  unfolding cloud_points
  cloud_points-map [] = refl
  cloud_points-map (v ∷ vs) = rw (cloud_points-map vs) refl

  leaf_points-cell_centers :
      (fuel : ℕ) (t : Tree) (leaf : Leaf Double Node)
      → IsFilled fuel t leaf
      → leaf_points fuel t leaf ≡ ok (cell_centers t leaf)
  unfolding leaf_points
  leaf_points-cell_centers fuel t leaf (inl small) = rw small refl
  leaf_points-cell_centers fuel t leaf (inr (enough, x, y, z)) =
      let n = edge t leaf in
      let low = first_cell t leaf in
      let cells = lattice n n n low (resolution t) in
      let all =
        grid-lattice fuel n n n low (last_cell t leaf) (resolution t) x y z enough enough enough in
      elim (Bool-cases (tree_depth t == leaf.depth)) [
        | inl e ↦ rw e refl
        | inr e ↦ rw (e, all, cloud_points-map cells) refl
      ]

  -- The occupied ones of a list of leafs.
  abbrev pub occupied_leafs : Tree → List (Leaf Double Node) → List (Leaf Double Node)
  occupied_leafs t leafs = keep (λ leaf. is_node_occupied t leaf.node) leafs

  occupied_points-cell_centers :
      (fuel : ℕ) (t : Tree) (leafs : List (Leaf Double Node))
      → All (IsFilled fuel t) (occupied_leafs t leafs)
      → occupied_points fuel t leafs ≡ ok (flat_map (cell_centers t) (occupied_leafs t leafs))
  unfolding occupied_points flat_map
  occupied_points-cell_centers fuel t [] filled = refl
  occupied_points-cell_centers fuel t (leaf ∷ more) filled =
      let rest = occupied_leafs t more in
      let split = λ (b : Bool). All (IsFilled fuel t) (if b then leaf ∷ rest else rest) in
      elim (Bool-cases (is_node_occupied t leaf.node)) [
        | inl e ↦
            let (this, others) = subst split e filled in
            rw
              (
                e,
                leaf_points-cell_centers fuel t leaf this,
                occupied_points-cell_centers fuel t more others,
              )
              refl
        | inr e ↦ rw (e, occupied_points-cell_centers fuel t more (subst split e filled)) refl
      ]

  -- If the octree is there and, along each edge of an occupied leaf larger than a smallest cell, the
  -- counter has as many rounds as the edge has cells and the fuel is more than that, then
  -- `getOccupiedPointCloud` gives, for one occupied leaf after the other and for no other leaf, the
  -- centers of all smallest cells that it consists of: its own center, or those in a cube with
  -- 2 ^ (tree depth - leaf depth) cells along each edge.
  pub get_occupied_point_cloud-cell_centers :
      (fuel : ℕ) (w : OctomapWorld) (t : Tree)
      → w.octree ≡ some t
      → All (IsFilled fuel t) (occupied_leafs t (leafs t))
      → get_occupied_point_cloud fuel w
        ≡ ok (flat_map (cell_centers t) (occupied_leafs t (leafs t)))
  unfolding get_occupied_point_cloud
  get_occupied_point_cloud-cell_centers fuel w t here filled =
      rw (here, occupied_points-cell_centers fuel t (leafs t) filled) refl

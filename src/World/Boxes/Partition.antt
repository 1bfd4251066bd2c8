-- ===== src/World/Boxes/Partition.antt =====
-- The free and the occupied boxes that the map gives.
use mathlib.Core.List.{Perm, perm_middle}
use mathlib.Core.List.Perm
use volumetric_mapping.Common.{
  ◌≡◌, refl, Bool, true, false, some, List, [], ◌∷◌, ◌++◌, map, keep, Bool-cases, inl, inr, arith,
  not, ◌==◌,
}
use volumetric_mapping.Outcome.{Outcome, ok}
use volumetric_mapping.Platform.{Platform, Vec3, Leaf}
use volumetric_mapping.Vector.{two, epsilon_3d, point_eigen_to_octomap}
use volumetric_mapping.World.{OctomapWorld}
use volumetric_mapping.World.Boxes.{
  Box, box_of, is_wanted, boxes_of, boxes_within, max_vector_size, reserve, get_all_boxes,
  get_all_free_boxes, get_all_occupied_boxes, get_boxes_bounding_box, get_free_boxes_bounding_box,
  get_occupied_boxes_bounding_box,
}
use volumetric_mapping.World.Speckle.{is_outside}

module _ ⦃p : Platform⦄ where
  open p use {
    Double, Tree, Node, literal, le, vadd, vsub, vdiv, max_coeff, to_int, tree_size, leafs,
    leafs_bbx, is_node_occupied,
  }

  -- The boxes of the leafs that are occupied, or of those that are not, in their order.
  abbrev pub occupied_part : Tree → List (Leaf Double Node) → List (Box Double)
  occupied_part t leafs = map (box_of t) (keep (λ leaf. is_node_occupied t leaf.node) leafs)

  abbrev pub free_part : Tree → List (Leaf Double Node) → List (Box Double)
  free_part t leafs = map (box_of t) (keep (λ leaf. not (is_node_occupied t leaf.node)) leafs)

  boxes_of-occupied :
      (t : Tree) (leafs : List (Leaf Double Node)) → boxes_of true t leafs ≡ occupied_part t leafs
  unfolding boxes_of is_wanted
  boxes_of-occupied t [] = refl
  boxes_of-occupied t (leaf ∷ leafs) = ground (arith, boxes_of-occupied t leafs)

  boxes_of-free :
      (t : Tree) (leafs : List (Leaf Double Node)) → boxes_of false t leafs ≡ free_part t leafs
  unfolding boxes_of is_wanted
  boxes_of-free t [] = refl
  boxes_of-free t (leaf ∷ leafs) = ground (arith, boxes_of-free t leafs)

  -- The occupied and the free boxes are together a permutation of the boxes of all leafs.
  parts-perm :
      (t : Tree) (leafs : List (Leaf Double Node))
      → Perm (occupied_part t leafs ++ free_part t leafs) (map (box_of t) leafs)
  parts-perm t [] = Perm.refl []
  parts-perm t (leaf ∷ leafs) = elim (Bool-cases (is_node_occupied t leaf.node)) [
    | inl e ↦ rw e (Perm.cons (box_of t leaf) (parts-perm t leafs))
    | inr e ↦ rw e (
        Perm.trans (perm_middle (occupied_part t leafs) (free_part t leafs))
          (Perm.cons (box_of t leaf) (parts-perm t leafs)))
  ]

  -- For any list of leafs, the boxes that the loop of `getBoxesBoundingBox` collects are those that
  -- the loop of `getAllBoxes` collects from the leafs that are not outside of the bounding box.
  pub boxes_within_lem :
      (occupied_boxes : Bool) (t : Tree) (a b : Vec3 Double) (leafs : List (Leaf Double Node))
      → boxes_within occupied_boxes t a b leafs
        ≡ boxes_of occupied_boxes t (keep (λ leaf. not (is_outside t a b leaf)) leafs)
  unfolding boxes_of boxes_within
  boxes_within_lem occupied_boxes t a b [] = refl
  boxes_within_lem occupied_boxes t a b (leaf ∷ leafs) =
      ground (arith, boxes_within_lem occupied_boxes t a b leafs)

  -- Two calls give the boxes of the occupied and of the other leafs of a list, and together those of
  -- all of them.
  pub record IsSplit (t : Tree) (leafs : List (Leaf Double Node))
      (occupied free : Outcome (List (Box Double))) : Type 0 where
    occupied_given : occupied ≡ ok (occupied_part t leafs)
    free_given : free ≡ ok (free_part t leafs)
    all_given : Perm (occupied_part t leafs ++ free_part t leafs) (map (box_of t) leafs)

  -- The leafs of the iteration over a bounding box that reach into it.
  abbrev pub leafs_inside : Tree → Vec3 Double → Vec3 Double → List (Leaf Double Node)
  leafs_inside t position size =
      let half = vdiv size two in
      let low = point_eigen_to_octomap (vadd (vsub position half) epsilon_3d) in
      let high = point_eigen_to_octomap (vsub (vadd position half) epsilon_3d) in
      keep (λ leaf. not (is_outside t low high leaf)) (leafs_bbx t low high)

  get_boxes_bounding_box-lem :
      (occupied_boxes : Bool) (w : OctomapWorld) (t : Tree) (position size : Vec3 Double)
      → w.octree ≡ some t
      → le (max_coeff size) (literal 0 0) ≡ false
      → (tree_size t == 0) ≡ false
      → reserve (to_int (max_vector_size t size)) ≡ ok tt
      → get_boxes_bounding_box occupied_boxes w position size
        ≡ ok (boxes_of occupied_boxes t (leafs_inside t position size))
  unfolding get_boxes_bounding_box
  get_boxes_bounding_box-lem occupied_boxes w t position size here wide nodes fits =
      let half = vdiv size two in
      let low = point_eigen_to_octomap (vadd (vsub position half) epsilon_3d) in
      let high = point_eigen_to_octomap (vsub (vadd position half) epsilon_3d) in
      let all = boxes_within_lem occupied_boxes t low high (leafs_bbx t low high) in
      rw (here, wide, nodes, fits, all) refl

  get_all_boxes-IsSplit :
      (w : OctomapWorld) (t : Tree)
      → w.octree ≡ some t
      → IsSplit t (leafs t) (get_all_occupied_boxes w) (get_all_free_boxes w)
  unfolding get_all_occupied_boxes get_all_free_boxes get_all_boxes
  get_all_boxes-IsSplit w t here = record {
    occupied_given = rw (here, boxes_of-occupied t (leafs t)) refl;
    free_given = rw (here, boxes_of-free t (leafs t)) refl;
    all_given = parts-perm t (leafs t);
  }

  -- If the octree is there and has nodes, the size of a bounding box has a positive coordinate and
  -- the vector of its boxes can be reserved, then the occupied boxes within it are the cubes of the
  -- occupied leafs that are not outside of it, each once and in order, the free boxes within it are
  -- those of the leafs that are not occupied, and both together are those of all leafs that are not
  -- outside. The same holds of all occupied and all free boxes of the map and all its leafs.
  pub get_boxes-IsSplit :
      (w : OctomapWorld) (t : Tree) (position size : Vec3 Double)
      → w.octree ≡ some t
      → le (max_coeff size) (literal 0 0) ≡ false
      → (tree_size t == 0) ≡ false
      → reserve (to_int (max_vector_size t size)) ≡ ok tt
      → IsSplit t
          (leafs_inside t position size)
          (get_occupied_boxes_bounding_box w position size)
          (get_free_boxes_bounding_box w position size)
        × IsSplit t (leafs t) (get_all_occupied_boxes w) (get_all_free_boxes w)
  unfolding get_occupied_boxes_bounding_box get_free_boxes_bounding_box
  get_boxes-IsSplit w t position size here wide nodes fits =
      let inside = leafs_inside t position size in
      let given =
        λ (b : Bool). get_boxes_bounding_box-lem b w t position size here wide nodes fits in
      (
        record {
          occupied_given = rw (given true, boxes_of-occupied t inside) refl;
          free_given = rw (given false, boxes_of-free t inside) refl;
          all_given = parts-perm t inside;
        },
        get_all_boxes-IsSplit w t here,
      )

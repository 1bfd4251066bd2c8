-- ===== src/World/Boxes.antt =====
-- The free and the occupied boxes of the map (octomap_world/src/octomap_world.cc). A box is the
-- center of a cube and the length of its side.
pub mod Partition
use volumetric_mapping.Common.{
  Bool, true, false, not, ◌&&◌, ◌||◌, List, [], ◌∷◌, ◌==◌, ◌^◌, ltb, if◌then◌else◌,
}
use volumetric_mapping.Common.Int.{ℤ, pos, negsuc}
use volumetric_mapping.Outcome.{Outcome, ok, fault, length_error, ◌>>=◌}
use volumetric_mapping.Platform.{Platform, Vec3, Key, Leaf}
use volumetric_mapping.Vector.{two, epsilon_3d, point_eigen_to_octomap}
use volumetric_mapping.World.{OctomapWorld, tree_of}
use volumetric_mapping.World.Speckle.{is_outside}

abbrev pub Box : Type 0 → Type 0
Box D = Vec3 D × D

module _ ⦃p : Platform⦄ where
  open p use {
    Double, Tree, Node, literal, le, mul, ceil, to_int, resolution, vadd, vsub, vdiv, max_coeff,
    leafs, leafs_bbx, leafs_bbx_key, node_size, is_node_occupied, tree_size,
  }

  abbrev pub box_of : Tree → Leaf Double Node → Box Double
  box_of t leaf = (leaf.center, node_size t leaf.depth)

  -- The two branches of the loops that append a box.
  pub is_wanted : Bool → Tree → Leaf Double Node → Bool
  is_wanted occupied_boxes t leaf =
      if is_node_occupied t leaf.node && occupied_boxes
      then true
      else not (is_node_occupied t leaf.node) && not occupied_boxes

  pub boxes_of : Bool → Tree → List (Leaf Double Node) → List (Box Double)
  boxes_of occupied_boxes t [] = []
  boxes_of occupied_boxes t (leaf ∷ more) =
      let rest = boxes_of occupied_boxes t more in
      if is_wanted occupied_boxes t leaf then box_of t leaf ∷ rest else rest

  pub get_all_boxes : Bool → OctomapWorld → Outcome (List (Box Double))
  get_all_boxes occupied_boxes w = do t ← tree_of w; ok (boxes_of occupied_boxes t (leafs t))

  pub get_all_free_boxes : OctomapWorld → Outcome (List (Box Double))
  get_all_free_boxes w = get_all_boxes false w

  pub get_all_occupied_boxes : OctomapWorld → Outcome (List (Box Double))
  get_all_occupied_boxes w = get_all_boxes true w

  -- The last leaf of the iteration stays in `*box`, which is left alone if there is none.
  unfoldable pub last_box : List (Leaf Double Node) → Box Double → Box Double
  last_box [] box = box
  last_box (leaf ∷ more) box = last_box more (leaf.center, leaf.size)

  unfoldable get_box : OctomapWorld → Key → Box Double → Outcome (Box Double)
  get_box w key box = do t ← tree_of w; ok (last_box (leafs_bbx_key t key key) box)

  -- The loop over the leafs of a bounding box, where those outside are passed over.
  unfoldable pub boxes_within :
      Bool → Tree → Vec3 Double → Vec3 Double → List (Leaf Double Node) → List (Box Double)
  boxes_within occupied_boxes t bbx_min bbx_max [] = []
  boxes_within occupied_boxes t bbx_min bbx_max (leaf ∷ more) =
      let rest = boxes_within occupied_boxes t bbx_min bbx_max more in
      if is_outside t bbx_min bbx_max leaf
      then rest
      else (if is_wanted occupied_boxes t leaf then box_of t leaf ∷ rest else rest)

  -- `max_vector_size` before its conversion to `int`.
  abbrev pub max_vector_size : Tree → Vec3 Double → Double
  max_vector_size t size =
      let max_boxes = vdiv size (resolution t) in
      mul (mul (ceil max_boxes.x) (ceil max_boxes.y)) (ceil max_boxes.z)

  -- `reserve` with an `int`: a negative one is too large a `size_t`. What does not fit an `int` is
  -- refused as well: its conversion is not defined, and compilers make it a negative one.
  unfoldable pub reserve : ℤ → Outcome (Unit {0})
  reserve (negsuc _) = fault length_error
  reserve (pos n) = if ltb n (2 ^ 31) then ok tt else fault length_error

  unfoldable pub get_boxes_bounding_box :
      Bool → OctomapWorld → Vec3 Double → Vec3 Double → Outcome (List (Box Double))
  get_boxes_bounding_box occupied_boxes w position size = do
    t ← tree_of w
    let half = vdiv size two
    let bbx_min = point_eigen_to_octomap (vadd (vsub position half) epsilon_3d)
    let bbx_max = point_eigen_to_octomap (vsub (vadd position half) epsilon_3d)
    let boxes = boxes_within occupied_boxes t bbx_min bbx_max (leafs_bbx t bbx_min bbx_max)
    let found = reserve (to_int (max_vector_size t size)) >>= λ _. ok boxes
    (if le (max_coeff size) (literal 0 0) || (tree_size t == 0) then ok [] else found)

  unfoldable pub get_free_boxes_bounding_box :
      OctomapWorld → Vec3 Double → Vec3 Double → Outcome (List (Box Double))
  get_free_boxes_bounding_box w position size = get_boxes_bounding_box false w position size

  pub get_occupied_boxes_bounding_box :
      OctomapWorld → Vec3 Double → Vec3 Double → Outcome (List (Box Double))
  get_occupied_boxes_bounding_box w position size = get_boxes_bounding_box true w position size

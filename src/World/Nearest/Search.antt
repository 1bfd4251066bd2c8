-- ===== src/World/Nearest/Search.antt =====
-- The search of `getNearestFreePoint` as a whole (octomap_world/src/octomap_world.cc).
use mathlib.Core.Path.{subst}
use volumetric_mapping.Common.{
  ℕ, zero, suc, ◌≡◌, ◌≢◌, refl, ◌⊎◌, inl, inr, Bool, true, false, Bool-cases, Option, none, some,
  List, [], ◌∷◌, All, ◌||◌, ◌==◌, arith, if◌then◌else◌,
}
use volumetric_mapping.Outcome.{Outcome, ok}
use volumetric_mapping.Platform.{Platform, Vec3, Leaf}
use volumetric_mapping.Vector.{constant, two, epsilon_3d, point_eigen_to_octomap}
use volumetric_mapping.World.{OctomapWorld}
use volumetric_mapping.World.Status.{free, get_cell_status_point}
use volumetric_mapping.World.Region.{get_map_size}
use volumetric_mapping.World.Boxes.{
  Box, is_wanted, boxes_within, reserve, max_vector_size, get_boxes_bounding_box,
  get_free_boxes_bounding_box,
}
use volumetric_mapping.World.Speckle.{is_outside}
use volumetric_mapping.World.Nearest.{
  is_empty, Best, enlarge, best_position, choose_nearest, get_nearest_free_point, nearest_in_box,
}
use volumetric_mapping.World.Nearest.Inside.{
  Coordinatewise, IsWide, IsNearestIn, nearest_in_box-IsNearestIn,
}
use volumetric_mapping.World.Nearest.Minimal.{
  IsChosen, IsLeast, StrictOrder, best_position-IsNearest,
}

module _ ⦃p : Platform⦄ (o : StrictOrder) (c : Coordinatewise) (position : Vec3 p.Double) where
  open p use {
    Double, Tree, Node, literal, le, lt, add, vadd, vsub, vdiv, max_coeff, resolution, to_int,
    tree_size, leafs_bbx, node_size,
  }

  -- The vector for the boxes in a cube can be reserved.
  abbrev pub Fits : Tree → Double → Type 0
  Fits t size = reserve (to_int (max_vector_size t (constant size))) ≡ ok tt

  -- The loop that enlarges the box ends within the fuel: the size passes the side of the map. The
  -- vector can be reserved for each size up to then.
  abbrev pub Exceeds : ℕ → Tree → Double → Double → Double → Type 0
  Exceeds zero t size side step = ⊥
  Exceeds (suc fuel) t size side step =
      (lt size side ≡ false) ⊎ (Fits t size × Exceeds fuel t (add size step) side step)

  -- `size`, enlarged by `step` a number of times, and the sizes before that.
  abbrev pub enlarged : ℕ → Double → Double → Double
  enlarged zero size step = size
  enlarged (suc n) size step = enlarged n (add size step) step

  abbrev pub sizes_before : ℕ → Double → Double → List Double
  sizes_before zero size step = []
  sizes_before (suc n) size step = size ∷ sizes_before n (add size step) step

  -- The cube of a size is smaller than the map, and it holds nothing free.
  abbrev pub IsPassed : OctomapWorld → Double → Double → Type 0
  IsPassed w side size =
      (lt size side ≡ true) × (get_free_boxes_bounding_box w position (constant size) ≡ ok [])

  -- The cubes of the first sizes are passed over. The next one is as large as the map, or it is
  -- the first that holds something free.
  abbrev pub IsFound : OctomapWorld → Double → Double → Double → List (Box Double) → Double → Type 0
  IsFound w side step size boxes bbx_size =
      (n : ℕ) × All (IsPassed w side) (sizes_before n size step)
      × (((boxes ≡ [])
            × (bbx_size ≡ enlarged n size step)
            × (lt (enlarged n size step) side ≡ false))
          ⊎ ((boxes ≢ [])
              × (bbx_size ≡ add (enlarged n size step) step)
              × (lt (enlarged n size step) side ≡ true)
              × (get_free_boxes_bounding_box w position (constant (enlarged n size step))
                  ≡ ok boxes)))

  abbrev AllWide : List (Box Double) → Type 0
  AllWide boxes = All (λ box. IsWide box.1) boxes

  boxes_within-AllWide :
      (occupied_boxes : Bool) (t : Tree) (low high : Vec3 Double) (leafs : List (Leaf Double Node))
      → ((depth : ℕ) → IsWide (node_size t depth))
      → AllWide (boxes_within occupied_boxes t low high leafs)
  unfolding boxes_within
  boxes_within-AllWide occupied_boxes t low high [] wide = tt
  boxes_within-AllWide occupied_boxes t low high (leaf ∷ leafs) wide =
      let rest = boxes_within-AllWide occupied_boxes t low high leafs wide in
      elim (Bool-cases (is_outside t low high leaf)) [
        | inl e ↦ rw e rest
        | inr e ↦ elim (Bool-cases (is_wanted occupied_boxes t leaf)) [
          | inl e' ↦ rw (e, e') (wide leaf.depth, rest)
          | inr e' ↦ rw (e, e') rest
        ]
      ]

  get_free_boxes-total :
      (w : OctomapWorld) (t : Tree) (size : Double)
      → w.octree ≡ some t
      → ((depth : ℕ) → IsWide (node_size t depth))
      → Fits t size
      → (boxes : List (Box Double)) × (get_free_boxes_bounding_box w position (constant size)
          ≡ ok boxes)
        × AllWide boxes
  unfolding get_free_boxes_bounding_box get_boxes_bounding_box
  get_free_boxes-total w t size here wide fits =
      let cube = constant size in
      let half = vdiv cube two in
      let low = point_eigen_to_octomap (vadd (vsub position half) epsilon_3d) in
      let high = point_eigen_to_octomap (vsub (vadd position half) epsilon_3d) in
      let leafs = leafs_bbx t low high in
      elim (Bool-cases (le (max_coeff cube) (literal 0 0) || (tree_size t == 0))) [
        | inl none_there ↦ ([], rw (here, none_there) refl, tt)
        | inr there ↦ (
          boxes_within false t low high leafs,
          rw (here, there, fits) refl,
          boxes_within-AllWide false t low high leafs wide,
        )
      ]

  List-cases :
      (boxes : List (Box Double))
      → (boxes ≡ []) ⊎ ((b : Box Double) × (bs : List (Box Double)) × (boxes ≡ b ∷ bs))
  List-cases [] = inl refl
  List-cases (b ∷ bs) = inr (b, bs, refl)

  enlarge-stop :
      (fuel : ℕ) (w : OctomapWorld) (t : Tree) (step side size : Double) (b : Box Double)
      (bs : List (Box Double))
      → Exceeds fuel t size side step
      → enlarge fuel w position step side size (b ∷ bs) ≡ ok (b ∷ bs, size)
  unfolding enlarge
  enlarge-stop zero w t step side size b bs e = absurd e
  enlarge-stop (suc fuel) w t step side size b bs e = refl

  enlarge-IsFound :
      (fuel : ℕ) (w : OctomapWorld) (t : Tree) (step side size : Double)
      → w.octree ≡ some t
      → ((depth : ℕ) → IsWide (node_size t depth))
      → Exceeds fuel t size side step
      → (boxes : List (Box Double)) × (size' : Double) × (enlarge fuel w position step side size []
          ≡ ok (boxes, size'))
        × AllWide boxes
        × IsFound w side step size boxes size'
  unfolding enlarge
  enlarge-IsFound zero w t step side size here wide e = absurd e
  enlarge-IsFound (suc fuel) w t step side size here wide e = elim (Bool-cases (lt size side)) [
    | inl inside ↦ elim e [
      | inl outside ↦ absurd (ground (arith, inside, outside))
      | inr (fits, more) ↦
          let (boxes, found, wides) = get_free_boxes-total w t size here wide fits in
          let (boxes', size', e', wides', (n, passed, last)) =
            enlarge-IsFound fuel w t step side (add size step) here wide more in
          elim (List-cases boxes) [
            | inl empty ↦ (
              boxes',
              size',
              rw (inside, found, empty) e',
              wides',
              (suc n, ((inside, rw (← empty) found), passed), last),
            )
            | inr (b, bs, full) ↦ (
              b ∷ bs,
              add size step,
              rw (inside, found, full) (enlarge-stop fuel w t step side (add size step) b bs more),
              subst AllWide full wides,
              (0, tt, inr (λ k. absurd (ground (arith, k)), refl, inside, rw (← full) found)),
            )
          ]
    ]
    | inr outside ↦ ([], size, rw outside refl, tt, (0, tt, inl (refl, refl, outside)))
  ]

  -- What a search that does not start at a free position gives: false, if no cube below the size of
  -- the map holds anything free, or true with the best point of the free boxes that are found.
  abbrev pub IsSearched :
      OctomapWorld → Tree → Vec3 Double → Outcome (Bool × Option (Vec3 Double)) → Type 0
  IsSearched w t size outcome =
      (boxes : List (Box Double)) × (bbx_size : Double) × (best : Best Double) × IsFound w
        (max_coeff size) (resolution t) (resolution t) boxes bbx_size
      × IsChosen position boxes (record { min_distance = bbx_size; free_position = none }) best
      × IsLeast position boxes best
      × All (λ box. IsNearestIn position box (nearest_in_box position box)) boxes
      × (outcome ≡ ok (if is_empty boxes then (false, none) else (true, best.free_position)))

  All-nearest :
      (boxes : List (Box Double))
      → AllWide boxes
      → All (λ box. IsNearestIn position box (nearest_in_box position box)) boxes
  All-nearest [] wide = tt
  All-nearest (box ∷ boxes) (w, ws) =
      (nearest_in_box-IsNearestIn c position box w, All-nearest boxes ws)

  abbrev unset : Double → Best Double
  unset size = record { min_distance = size; free_position = none }

  abbrev answer : List (Box Double) → Best Double → Bool × Option (Vec3 Double)
  answer boxes best = if is_empty boxes then (false, none) else (true, best.free_position)

  choose_nearest-lem :
      (boxes : List (Box Double)) (size : Double)
      → choose_nearest position (boxes, size)
        ≡ ok (answer boxes (best_position position boxes (unset size)))
  unfolding choose_nearest
  choose_nearest-lem [] size = refl
  choose_nearest-lem (b ∷ bs) size = refl

  -- If the octree is there, `double` is ordered and `cwiseMin` and `cwiseMax` work as documented,
  -- the position is not free, the cell of each depth is wide enough for a point 1 mm inside it, and
  -- enough steps of the resolution exceed the size of the map with a vector that can be reserved at
  -- each, then `getNearestFreePoint` succeeds. It looks at cubes around the position with the
  -- resolution, and then one resolution more each time, as their side. Either every such cube below
  -- the size of the map holds no free box, and it returns false; or it stops at the first cube that
  -- holds free boxes and returns true. The point that it then gives is, for one of these boxes, the
  -- center moved towards the position in each coordinate up to 1 mm before the side; the point that
  -- is found so in any other of these boxes is not nearer to the position. It gives no point only
  -- if the points in all these boxes are no nearer than the size of the next cube.
  pub get_nearest_free_point-IsSearched :
      (fuel : ℕ) (w : OctomapWorld) (t : Tree) (size : Vec3 Double)
      → w.octree ≡ some t
      → get_map_size w ≡ ok size
      → get_cell_status_point w position ≢ ok free
      → ((depth : ℕ) → IsWide (node_size t depth))
      → Exceeds fuel t (resolution t) (max_coeff size) (resolution t)
      → IsSearched w t size (get_nearest_free_point fuel w position)
  unfolding get_nearest_free_point get_cell_status_point
  get_nearest_free_point-IsSearched fuel w t size here sized blocked wide e =
      let (boxes, bbx_size, found, wides, r) =
        enlarge-IsFound fuel w t (resolution t) (max_coeff size) (resolution t) here wide e in
      let (chosen, least) = best_position-IsNearest o position boxes (unset bbx_size) in
      let best = best_position position boxes (unset bbx_size) in
      let chose = choose_nearest-lem boxes bbx_size in
      (
        boxes,
        bbx_size,
        best,
        r,
        chosen,
        least,
        All-nearest boxes wides,
        ground (arith, here, sized, found, chose, blocked),
      )

-- ===== src/World/Region/Values.antt =====
-- Setting the cells of boxes, as a map of cells.
use volumetric_mapping.Common.{
  ℕ, ◌≡◌, refl, ◌∙◌, Bool, true, false, ◌||◌, some, List, [], ◌∷◌, ◌++◌, if◌then◌else◌, All, arith,
}
use volumetric_mapping.Outcome.{Outcome, ok, ◌>>=◌, >>=-eq-ok}
use volumetric_mapping.Platform.{Platform, Vec3, Key}
use volumetric_mapping.Platform.CellMap.{CellMap, is_key}
use volumetric_mapping.Loop.Box.{StepsEnd, grid_total}
use volumetric_mapping.Vector.{point_eigen_to_octomap}
use volumetric_mapping.World.{
  BoundHandling, default, include_partial_boxes, ignore_partial_boxes, OctomapWorld, with_tree,
}
use volumetric_mapping.World.Region.{
  align, adjust_bounding_box, box_positions, set_values, set_boxes, set_log_odds_bounding_box,
  set_free, set_occupied,
}

module _ ⦃p : Platform⦄ where
  open p use {
    Double, Tree, coord_to_key_checked, set_node_value, clamping_thres_min_log,
    clamping_thres_max_log,
  }

  -- Some position of the list has the key.
  abbrev pub reaches : Tree → List (Vec3 Double) → Key → Bool
  reaches t [] j = false
  reaches t (v ∷ vs) j =
      is_key (coord_to_key_checked t (point_eigen_to_octomap v)) j || reaches t vs j

  -- The positions of all boxes, one box after the other.
  pub boxes_positions :
      ℕ → Tree → Vec3 Double → BoundHandling → List (Vec3 Double) → Outcome (List (Vec3 Double))
  boxes_positions fuel t size method [] = ok []
  boxes_positions fuel t size method (position ∷ more) = do
    vs ← box_positions fuel t position size method
    us ← boxes_positions fuel t size method more
    ok (vs ++ us)

  -- The three loops over the box around a position end within the fuel.
  abbrev pub BoxEnds : ℕ → Tree → Vec3 Double → BoundHandling → Vec3 Double → Type 0
  BoxEnds fuel t size method position =
      let box = adjust_bounding_box t position size method in
      StepsEnd fuel box.0.x box.1.x (p.resolution t)
      × StepsEnd fuel box.0.y box.1.y (p.resolution t)
      × StepsEnd fuel box.0.z box.1.z (p.resolution t)

  pub boxes_positions_total :
      (fuel : ℕ) (t : Tree) (size : Vec3 Double) (method : BoundHandling) (ps : List (Vec3 Double))
      → All (BoxEnds fuel t size method) ps
      → (vs : List (Vec3 Double)) × (boxes_positions fuel t size method ps ≡ ok vs)
  unfolding boxes_positions box_positions
  boxes_positions_total fuel t size method [] h = ([], refl)
  boxes_positions_total fuel t size method (position ∷ ps) ((ex, ey, ez), hs) =
      let box = adjust_bounding_box t position size method in
      let (vs, first, _) = grid_total fuel box.0 box.1 (p.resolution t) ex ey ez in
      let (us, rest) = boxes_positions_total fuel t size method ps hs in
      (vs ++ us, rw (first, rest))

  module _ (m : CellMap) where
    open m use {
      value, clamp, value-set_node_value, clamp-set_node_value, checked-set_node_value,
      value-update_inner, resolution-set_node_value, coord_to_key-set_node_value,
      key_to_coord-set_node_value,
    }

    pub set_values-checked :
        (a : Double) (vs : List (Vec3 Double)) (t : Tree)
        → coord_to_key_checked (set_values a vs t) ≡ coord_to_key_checked t
    unfolding set_values
    set_values-checked a [] t = refl
    set_values-checked a (v ∷ vs) t =
        let u = point_eigen_to_octomap v in
        set_values-checked a vs (set_node_value u a true t) ∙ checked-set_node_value t u a true

    set_values-clamp :
        (a : Double) (vs : List (Vec3 Double)) (t : Tree) → clamp (set_values a vs t) ≡ clamp t
    unfolding set_values
    set_values-clamp a [] t = refl
    set_values-clamp a (v ∷ vs) t =
        let u = point_eigen_to_octomap v in
        set_values-clamp a vs (set_node_value u a true t) ∙ clamp-set_node_value t u a true

    reaches-set_node_value :
        (v : Vec3 Double) (a : Double) (t : Tree) (vs : List (Vec3 Double)) (j : Key)
        → reaches (set_node_value v a true t) vs j ≡ reaches t vs j
    reaches-set_node_value v a t [] j = refl
    reaches-set_node_value v a t (u ∷ vs) j =
        rw (checked-set_node_value t v a true, reaches-set_node_value v a t vs j)

    -- Each cell that a position reaches gets the clamped value, and no other changes.
    pub set_values-value :
        (a : Double) (vs : List (Vec3 Double)) (t : Tree) (j : Key)
        → value (set_values a vs t) j ≡ (if reaches t vs j then some (clamp t a) else value t j)
    unfolding set_values
    set_values-value a [] t j = refl
    set_values-value a (v ∷ vs) t j =
        let u = point_eigen_to_octomap v in
        ground (
          arith,
          set_values-value a vs (set_node_value u a true t) j,
          value-set_node_value t u a true j,
          clamp-set_node_value t u a true,
          reaches-set_node_value u a t vs j,
        )

    box_positions-set_node_value :
        (u : Vec3 Double) (a : Double) (t : Tree) (fuel : ℕ) (position size : Vec3 Double)
        (method : BoundHandling)
        → box_positions fuel (set_node_value u a true t) position size method
          ≡ box_positions fuel t position size method
    unfolding box_positions adjust_bounding_box align
    box_positions-set_node_value u a t fuel position size default =
        rw (resolution-set_node_value t u a true)
    box_positions-set_node_value u a t fuel position size include_partial_boxes = rw (
      resolution-set_node_value t u a true,
      coord_to_key-set_node_value t u a true,
      key_to_coord-set_node_value t u a true,
    )
    box_positions-set_node_value u a t fuel position size ignore_partial_boxes = rw (
      resolution-set_node_value t u a true,
      coord_to_key-set_node_value t u a true,
      key_to_coord-set_node_value t u a true,
    )

    set_values-box_positions :
        (a : Double) (vs : List (Vec3 Double)) (t : Tree) (fuel : ℕ) (position size : Vec3 Double)
        (method : BoundHandling)
        → box_positions fuel (set_values a vs t) position size method
          ≡ box_positions fuel t position size method
    unfolding set_values
    set_values-box_positions a [] t fuel position size method = refl
    set_values-box_positions a (v ∷ vs) t fuel position size method =
        let u = point_eigen_to_octomap v in
        set_values-box_positions a vs (set_node_value u a true t) fuel position size method
        ∙ box_positions-set_node_value u a t fuel position size method

    set_values-boxes_positions :
        (a : Double) (vs : List (Vec3 Double)) (t : Tree) (fuel : ℕ) (size : Vec3 Double)
        (method : BoundHandling) (ps : List (Vec3 Double))
        → boxes_positions fuel (set_values a vs t) size method ps
          ≡ boxes_positions fuel t size method ps
    unfolding boxes_positions
    set_values-boxes_positions a vs t fuel size method [] = refl
    set_values-boxes_positions a vs t fuel size method (position ∷ ps) = rw (
      set_values-box_positions a vs t fuel position size method,
      set_values-boxes_positions a vs t fuel size method ps,
    )

    set_values-append :
        (a : Double) (vs us : List (Vec3 Double)) (t : Tree)
        → set_values a us (set_values a vs t) ≡ set_values a (vs ++ us) t
    unfolding set_values
    set_values-append a [] us t = refl
    set_values-append a (v ∷ vs) us t =
        set_values-append a vs us (set_node_value (point_eigen_to_octomap v) a true t)

    -- Setting box after box is setting all positions, although the tree changes in between.
    pub set_boxes-positions :
        (fuel : ℕ) (size : Vec3 Double) (a : Double) (method : BoundHandling)
        (ps : List (Vec3 Double)) (t : Tree) (vs : List (Vec3 Double))
        → boxes_positions fuel t size method ps ≡ ok vs
        → set_boxes fuel size a method ps t ≡ ok (set_values a vs t)
    unfolding set_boxes boxes_positions
    set_boxes-positions fuel size a method [] t vs e = unfold set_values in ground arith
    set_boxes-positions fuel size a method (position ∷ ps) t vs e =
        let (us, first, e') = >>=-eq-ok (box_positions fuel t position size method) _ e in
        let (more, second, e'') = >>=-eq-ok (boxes_positions fuel t size method ps) _ e' in
        let rest =
          set_boxes-positions fuel size a method ps (set_values a us t) more
            (set_values-boxes_positions a us t fuel size method ps ∙ second) in
        rw (first, rest) (ground (arith, set_values-append a us more t))

    -- The cells that a setter changes, and how.
    abbrev pub Sets :
        OctomapWorld → Tree → Double → List (Vec3 Double) → Outcome OctomapWorld → Type 0
    Sets w t a vs outcome =
        (t' : Tree) × (outcome ≡ ok (with_tree w t'))
        × ((j : Key) → value t' j ≡ (if reaches t vs j then some (clamp t a) else value t j))

    set_log_odds_bounding_box-Sets :
        (fuel : ℕ) (ps : List (Vec3 Double)) (size : Vec3 Double) (a : Double)
        (method : BoundHandling) (w : OctomapWorld) (t : Tree) (vs : List (Vec3 Double))
        → w.octree ≡ some t
        → boxes_positions fuel t size method ps ≡ ok vs
        → Sets w t a vs (set_log_odds_bounding_box fuel ps size a method w)
    unfolding set_log_odds_bounding_box
    set_log_odds_bounding_box-Sets fuel ps size a method w t vs here e = (
      p.update_inner_occupancy (set_values a vs t),
      ground (arith, here, set_boxes-positions fuel size a method ps t vs e),
      λ j. value-update_inner (set_values a vs t) j ∙ set_values-value a vs t j,
    )

    -- If the octree is there and the loops over the boxes around the positions end within the fuel,
    -- `setFree` succeeds: each cell that a position of the loops reaches gets the lower clamping
    -- threshold, as the octree stores it, and no other cell changes.
    pub set_free-Sets :
        (fuel : ℕ) (ps : List (Vec3 Double)) (size : Vec3 Double) (method : BoundHandling)
        (w : OctomapWorld) (t : Tree)
        → w.octree ≡ some t
        → All (BoxEnds fuel t size method) ps
        → (vs : List (Vec3 Double)) × (boxes_positions fuel t size method ps ≡ ok vs)
          × Sets w t (clamping_thres_min_log t) vs (set_free fuel ps size method w)
    unfolding set_free
    set_free-Sets fuel ps size method w t here ends =
        let a = clamping_thres_min_log t in
        let (vs, e) = boxes_positions_total fuel t size method ps ends in
        let (t', done, values) =
          set_log_odds_bounding_box-Sets fuel ps size a method w t vs here e in
        (vs, e, (t', ground (arith, here, done), values))

    -- If the octree is there and the loops over the boxes around the positions end within the fuel,
    -- `setOccupied` succeeds: each cell that a position of the loops reaches gets the upper clamping
    -- threshold, as the octree stores it, and no other cell changes.
    pub set_occupied-Sets :
        (fuel : ℕ) (ps : List (Vec3 Double)) (size : Vec3 Double) (method : BoundHandling)
        (w : OctomapWorld) (t : Tree)
        → w.octree ≡ some t
        → All (BoxEnds fuel t size method) ps
        → (vs : List (Vec3 Double)) × (boxes_positions fuel t size method ps ≡ ok vs)
          × Sets w t (clamping_thres_max_log t) vs (set_occupied fuel ps size method w)
    unfolding set_occupied
    set_occupied-Sets fuel ps size method w t here ends =
        let a = clamping_thres_max_log t in
        let (vs, e) = boxes_positions_total fuel t size method ps ends in
        let (t', done, values) =
          set_log_odds_bounding_box-Sets fuel ps size a method w t vs here e in
        (vs, e, (t', ground (arith, here, done), values))

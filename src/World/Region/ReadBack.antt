-- ===== src/World/Region/ReadBack.antt =====
-- What the query of a cell answers after the cells of boxes have been set.
use volumetric_mapping.Common.{
  ℕ, ◌≡◌, refl, ◌∙◌, Bool, true, false, none, some, List, [], ◌∷◌, All, if◌then◌else◌, Option-cases,
  Bool-cases, inl, inr, arith,
}
use volumetric_mapping.Outcome.{ok}
use volumetric_mapping.Platform.{Platform, Vec3, Key}
use volumetric_mapping.Platform.CellMap.{CellMap}
use volumetric_mapping.Vector.{point_eigen_to_octomap}
use volumetric_mapping.World.{BoundHandling, OctomapWorld, with_tree}
use volumetric_mapping.World.Status.{CellStatus, free, occupied, get_cell_status_point}
use volumetric_mapping.World.Region.{set_values, set_log_odds_bounding_box, set_free, set_occupied}
use volumetric_mapping.World.Region.Values.{
  reaches, boxes_positions, BoxEnds, boxes_positions_total, set_values-checked, set_values-value,
  set_boxes-positions,
}

module _ ⦃p : Platform⦄ where
  open p use {
    Double, Tree, Node, coord_to_key_checked, search_coord, is_node_occupied, set_node_value,
    update_inner_occupancy, clamping_thres_min_log, clamping_thres_max_log,
  }

  -- What the search shows of a cell: its node is occupied exactly if the log-odds are over the
  -- threshold of the tree, which neither a write nor the update of inner nodes changes.
  pub record Shown (m : CellMap) : Type 0 where
    pub over : Tree → Double → Bool
    pub found :
        (t : Tree) (v : Vec3 Double) (k : Key) (a : Double)
        → coord_to_key_checked t v ≡ some k
        → m.value t k ≡ some a
        → (node : Node) × (search_coord t v ≡ some node) × (is_node_occupied t node ≡ over t a)
    pub over-set_node_value :
        (t : Tree) (v : Vec3 Double) (a : Double) (lazy : Bool)
        → over (set_node_value v a lazy t) ≡ over t
    pub over-update_inner : (t : Tree) → over (update_inner_occupancy t) ≡ over t
    pub checked-update_inner :
        (t : Tree) → coord_to_key_checked (update_inner_occupancy t) ≡ coord_to_key_checked t

  abbrev pub status_of : Bool → CellStatus
  status_of b = if b then occupied else free

  module _ (m : CellMap) (s : Shown m) where
    open m use {value, clamp, searched, value-update_inner}
    open s use {over, found, over-set_node_value, over-update_inner, checked-update_inner}

    set_values-over :
        (a : Double) (vs : List (Vec3 Double)) (t : Tree) → over (set_values a vs t) ≡ over t
    unfolding set_values
    set_values-over a [] t = refl
    set_values-over a (v ∷ vs) t =
        let u = point_eigen_to_octomap v in
        set_values-over a vs (set_node_value u a true t) ∙ over-set_node_value t u a true

    -- The status of a cell depends on its log-odds and the threshold alone.
    status-known :
        (w : OctomapWorld) (t : Tree) (v : Vec3 Double) (k : Key) (a : Double)
        → w.octree ≡ some t
        → coord_to_key_checked t v ≡ some k
        → value t k ≡ some a
        → get_cell_status_point w v ≡ ok (status_of (over t a))
    unfolding get_cell_status_point
    status-known w t v k a here e h =
        let (node, there, same) = found t v k a e h in ground (arith, here, there, same)

    status-unknown :
        (w : OctomapWorld) (t t' : Tree) (v : Vec3 Double) (k : Key)
        → w.octree ≡ some t
        → coord_to_key_checked t v ≡ some k
        → coord_to_key_checked t' v ≡ some k
        → value t k ≡ none
        → value t' k ≡ none
        → get_cell_status_point (with_tree w t') v ≡ get_cell_status_point w v
    unfolding get_cell_status_point
    status-unknown w t t' v k here e e' h h' =
        ground (arith, here, (searched t v k e).1 h, (searched t' v k e').1 h')

    status-same :
        (w : OctomapWorld) (t t' : Tree) (v : Vec3 Double) (k : Key)
        → w.octree ≡ some t
        → coord_to_key_checked t v ≡ some k
        → coord_to_key_checked t' v ≡ some k
        → over t' ≡ over t
        → value t' k ≡ value t k
        → get_cell_status_point (with_tree w t') v ≡ get_cell_status_point w v
    status-same w t t' v k here e e' same equal = elim (Option-cases (value t k)) [
      | inl unknown ↦ status-unknown w t t' v k here e e' unknown (equal ∙ unknown)
      | inr (a, known) ↦
          let new = status-known (with_tree w t') t' v k a refl e' (equal ∙ known) in
          let old = status-known w t v k a here e known in ground (arith, new, old, same)
    ]

    -- Setting boxes and then asking for a cell.
    set_log_odds-status :
        (fuel : ℕ) (ps : List (Vec3 Double)) (size : Vec3 Double) (a : Double)
        (method : BoundHandling) (w : OctomapWorld) (t : Tree) (vs : List (Vec3 Double))
        (v : Vec3 Double) (k : Key)
        → w.octree ≡ some t
        → boxes_positions fuel t size method ps ≡ ok vs
        → coord_to_key_checked t v ≡ some k
        → (w' : OctomapWorld) × (set_log_odds_bounding_box fuel ps size a method w ≡ ok w')
          × (get_cell_status_point w' v ≡ (
              if reaches t vs k
              then ok (status_of (over t (clamp t a)))
              else get_cell_status_point w v))
    unfolding set_log_odds_bounding_box
    set_log_odds-status fuel ps size a method w t vs v k here e key =
        let set = set_values a vs t in
        let t' = update_inner_occupancy set in
        let key' : coord_to_key_checked t' v ≡ some k =
          ground (arith, checked-update_inner set, set_values-checked m a vs t, key) in
        let same = over-update_inner set ∙ set_values-over a vs t in
        let cell = value-update_inner set k ∙ set_values-value m a vs t k in
        (
          with_tree w t',
          ground (arith, here, set_boxes-positions m fuel size a method ps t vs e),
          elim (Bool-cases (reaches t vs k)) [
            | inl hit ↦
                let new =
                  status-known (with_tree w t') t' v k (clamp t a) refl key'
                    (ground (arith, cell, hit)) in
                ground (arith, hit, new, same)
            | inr miss ↦
                let old = status-same w t t' v k here key key' same (ground (arith, cell, miss)) in
                ground (arith, miss, old)
          ],
        )

    -- If the octree is there, the loops over the boxes around the positions end within the fuel, and
    -- the octree counts its upper clamping threshold as occupied and its lower one as free, then
    -- `setOccupied` and `setFree` succeed, and `getCellStatusPoint` at any coordinate with a key
    -- answers afterwards: occupied, or free, if a position of the loops reaches the cell, and what it
    -- answered before if none does.
    pub set_occupied-get_cell_status_point :
        (to_occupied : Bool) (fuel : ℕ) (ps : List (Vec3 Double)) (size : Vec3 Double)
        (method : BoundHandling) (w : OctomapWorld) (t : Tree) (v : Vec3 Double) (k : Key)
        → w.octree ≡ some t
        → All (BoxEnds fuel t size method) ps
        → over t (clamp t (clamping_thres_max_log t)) ≡ true
        → over t (clamp t (clamping_thres_min_log t)) ≡ false
        → coord_to_key_checked t v ≡ some k
        → (vs : List (Vec3 Double)) × (w' : OctomapWorld) × (boxes_positions fuel t size method ps
            ≡ ok vs)
          × ((if to_occupied
                then set_occupied fuel ps size method w
                else set_free fuel ps size method w)
              ≡ ok w')
          × (get_cell_status_point w' v
              ≡ (if reaches t vs k then ok (status_of to_occupied) else get_cell_status_point w v))
    unfolding set_occupied set_free
    set_occupied-get_cell_status_point true fuel ps size method w t v k here ends high low key =
        let (vs, e) = boxes_positions_total fuel t size method ps ends in
        let (w', done, status) =
          set_log_odds-status fuel ps size (clamping_thres_max_log t) method w t vs v k here e
            key in
        (vs, w', e, ground (arith, here, done), ground (arith, status, high))
    set_occupied-get_cell_status_point false fuel ps size method w t v k here ends high low key =
        let (vs, e) = boxes_positions_total fuel t size method ps ends in
        let (w', done, status) =
          set_log_odds-status fuel ps size (clamping_thres_min_log t) method w t vs v k here e
            key in
        (vs, w', e, ground (arith, here, done), ground (arith, status, low))

-- ===== src/World/Inflate/Freed.antt =====
-- What `convertUnknownToFree` changes, as a map of cells.
use volumetric_mapping.Common.{
  ℕ, ◌≡◌, refl, ◌∙◌, Bool, true, false, ◌||◌, Option, none, some, List, [], ◌∷◌, map, Option-cases,
  inl, inr, if◌then◌else◌, arith,
}
use volumetric_mapping.Outcome.{Outcome, ok}
use volumetric_mapping.Platform.{Platform, Vec3, Key}
use volumetric_mapping.Platform.CellMap.{CellMap, is_key}
use volumetric_mapping.Vector.{vec, epsilon, epsilon_3d, point_eigen_to_octomap}
use volumetric_mapping.KeySet.{eq_of_key_eq}
use volumetric_mapping.Loop.Rules.{Ends, visited_total}
use volumetric_mapping.Loop.Box.{Gives, All-map, collect-Gives}
use volumetric_mapping.World.{OctomapWorld, with_tree}
use volumetric_mapping.World.Inflate.{
  float_steps, float_grid, free_unknown, convert_unknown_to_free_within,
}

module _ ⦃p : Platform⦄ where
  open p use {
    Double, Tree, lt, add, to_float, vadd, vsub, resolution, coord_to_key_checked, set_node_value,
    clamping_thres_min_log,
  }

  -- Some point of the list has the key.
  abbrev pub covers : Tree → List (Vec3 Double) → Key → Bool
  covers t [] j = false
  covers t (v ∷ vs) j = is_key (coord_to_key_checked t v) j || covers t vs j

  -- A cell that is known stays; one that is not gets the value if it is covered.
  abbrev pub filled : Bool → Double → Option Double → Option Double
  filled covered a (some old) = some old
  filled covered a none = if covered then some a else none

  -- A loop over one axis ends within the fuel.
  abbrev pub FloatStepsEnd : ℕ → Double → Double → Double → Type 0
  FloatStepsEnd fuel start end r =
      Ends (λ a. lt a end) (λ a. to_float (add a r)) fuel (to_float (add start epsilon))

  -- Every coordinate is below that of the upper corner.
  abbrev Below : Vec3 Double → Vec3 Double → Type 0
  Below hi v = (lt v.x hi.x ≡ true) × (lt v.y hi.y ≡ true) × (lt v.z hi.z ≡ true)

  float_grid_total :
      (fuel : ℕ) (lo hi : Vec3 Double) (r : Double)
      → FloatStepsEnd fuel lo.x hi.x r
      → FloatStepsEnd fuel lo.y hi.y r
      → FloatStepsEnd fuel lo.z hi.z r
      → Gives (Below hi) (float_grid fuel lo hi r)
  unfolding float_grid float_steps
  float_grid_total fuel lo hi r ex ey ez =
      let (xs, x_eq, x_lt) = visited_total (λ a. lt a hi.x) (λ a. to_float (add a r)) fuel _ ex in
      let (ys, y_eq, y_lt) = visited_total (λ a. lt a hi.y) (λ a. to_float (add a r)) fuel _ ey in
      let (zs, z_eq, z_lt) = visited_total (λ a. lt a hi.z) (λ a. to_float (add a r)) fuel _ ez in
      rw x_eq (
        collect-Gives (λ x. lt x hi.x ≡ true) (Below hi) _
          (λ x hx. rw y_eq (
            collect-Gives (λ y. lt y hi.y ≡ true) (Below hi) _
              (λ y hy. rw z_eq (
                map (vec x y) zs,
                refl,
                All-map (λ z. lt z hi.z ≡ true) (Below hi) (vec x y) (λ z hz. (hx, hy, hz)) zs z_lt,
              ))
              ys y_lt))
          xs x_lt)

  abbrev pub lowest : Vec3 Double → Vec3 Double
  lowest min_bound = point_eigen_to_octomap (vadd min_bound epsilon_3d)

  abbrev pub highest : Vec3 Double → Vec3 Double
  highest max_bound = point_eigen_to_octomap (vsub max_bound epsilon_3d)

  abbrev pub BoundsEnd : ℕ → Tree → Vec3 Double → Vec3 Double → Type 0
  BoundsEnd fuel t lo hi =
      FloatStepsEnd fuel lo.x hi.x (resolution t)
      × FloatStepsEnd fuel lo.y hi.y (resolution t)
      × FloatStepsEnd fuel lo.z hi.z (resolution t)

  module _ (m : CellMap) where
    -- The cells that the conversion changes, and how.
    abbrev pub Filled :
        OctomapWorld → Tree → Vec3 Double → Vec3 Double → ℕ → Outcome OctomapWorld → Type 0
    Filled w t lo hi fuel outcome =
        (vs : List (Vec3 Double)) × (float_grid fuel lo hi (resolution t) ≡ ok vs)
        × (t' : Tree) × (outcome ≡ ok (with_tree w t'))
        × ((j : Key)
            → m.value t' j
              ≡ filled (covers t vs j) (m.clamp t (clamping_thres_min_log t)) (m.value t j))

    open m use {
      value, clamp, searched, value-set_node_value, clamp-set_node_value, checked-set_node_value,
      value-update_inner, value-prune,
    }

    covers-set_node_value :
        (v : Vec3 Double) (a : Double) (t : Tree) (vs : List (Vec3 Double)) (j : Key)
        → covers (set_node_value v a true t) vs j ≡ covers t vs j
    covers-set_node_value v a t [] j = refl
    covers-set_node_value v a t (u ∷ us) j =
        rw (checked-set_node_value t v a true, covers-set_node_value v a t us j)

    -- A step that writes, and one that does not.
    written :
        (v : Vec3 Double) (a : Double) (t : Tree) (j : Key)
        → p.search_coord t v ≡ none
        → (covered : Bool)
        → filled covered (clamp t a) (value (set_node_value v a true t) j)
          ≡ filled (is_key (coord_to_key_checked t v) j || covered) (clamp t a) (value t j)
    written v a t j absent covered = elim (Option-cases (coord_to_key_checked t v)) [
      | inl e ↦ ground (arith, e, value-set_node_value t v a true j)
      | inr (k, e) ↦
          let nothing = (searched t v k e).0 absent in
          ground (arith, e, nothing, eq_of_key_eq k j, value-set_node_value t v a true j)
    ]

    kept :
        (v : Vec3 Double) (a : Double) (t : Tree) (j : Key) (covered : Bool) (node : p.Node)
        → p.search_coord t v ≡ some node
        → filled covered (clamp t a) (value t j)
          ≡ filled (is_key (coord_to_key_checked t v) j || covered) (clamp t a) (value t j)
    kept v a t j covered node present = elim (Option-cases (coord_to_key_checked t v)) [
      | inl e ↦ ground (arith, e)
      | inr (k, e) ↦ elim (Option-cases (value t j)) [
        | inl nothing ↦ ground (arith, e, nothing, present, eq_of_key_eq k j, searched t v k e)
        | inr (old, known) ↦ ground (arith, e, known)
      ]
    ]

    free_unknown-value :
        (a : Double) (vs : List (Vec3 Double)) (t : Tree) (j : Key)
        → value (free_unknown a vs t) j ≡ filled (covers t vs j) (clamp t a) (value t j)
    unfolding free_unknown
    free_unknown-value a [] t j = ground arith
    free_unknown-value a (v ∷ vs) t j = elim (Option-cases (p.search_coord t v)) [
      | inl absent ↦
          let t' = set_node_value v a true t in
          ground (
            arith,
            absent,
            free_unknown-value a vs t' j,
            written v a t j absent (covers t vs j),
            clamp-set_node_value t v a true,
            covers-set_node_value v a t vs j,
          )
      | inr (node, present) ↦
          ground
            (arith, present, free_unknown-value a vs t j, kept v a t j (covers t vs j) node present)
    ]

    -- If the octree is there, is a map of cells as documented, and the loops over the three axes
    -- between the shrunk bounds end within the fuel, then `convertUnknownToFree` succeeds and changes
    -- only the octree: each cell that is not in the map and that a point of the loops reaches gets the
    -- lower clamping threshold, as the octree stores it, and every other cell is as before, the known
    -- ones included.
    pub convert_unknown_to_free_within-Filled :
        (fuel : ℕ) (min_bound max_bound : Vec3 Double) (w : OctomapWorld) (t : Tree)
        → w.octree ≡ some t
        → BoundsEnd fuel t (lowest min_bound) (highest max_bound)
        → Filled w t
            (lowest min_bound)
            (highest max_bound)
            fuel
            (convert_unknown_to_free_within fuel min_bound max_bound w)
    unfolding convert_unknown_to_free_within
    convert_unknown_to_free_within-Filled fuel min_bound max_bound w t here (ex, ey, ez) =
        let r = resolution t in
        let a = clamping_thres_min_log t in
        let (vs, e, _) = float_grid_total fuel (lowest min_bound) (highest max_bound) r ex ey ez in
        let freed = free_unknown a vs t in
        (
          vs,
          e,
          p.prune (p.update_inner_occupancy freed),
          rw (here, e),
          λ j.
              value-prune (p.update_inner_occupancy freed) j
              ∙ (value-update_inner freed j ∙ free_unknown-value a vs t j),
        )

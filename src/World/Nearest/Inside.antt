-- ===== src/World/Nearest/Inside.antt =====
-- The point of a box that is nearest to a position (octomap_world/src/octomap_world.cc).
use volumetric_mapping.Common.{
  ◌≡◌, refl, ◌⊎◌, inl, inr, true, false, Bool-cases, arith, if◌then◌else◌,
}
use volumetric_mapping.Platform.{Platform, Vec3}
use volumetric_mapping.Vector.{constant, two, epsilon}
use volumetric_mapping.World.Boxes.{Box}
use volumetric_mapping.World.Nearest.{nearest_in_box}

module _ ⦃p : Platform⦄ where
  open p use {Double, lt, add, sub, div, neg, vadd, vsub, cwise_min, cwise_max}

  -- `cwiseMin` and `cwiseMax` of Eigen take the smaller and the larger of two coordinates.
  pub record Coordinatewise : Type 0 where
    pub min_x : (u v : Vec3 Double) → (cwise_min u v).x ≡ (if lt v.x u.x then v.x else u.x)
    pub min_y : (u v : Vec3 Double) → (cwise_min u v).y ≡ (if lt v.y u.y then v.y else u.y)
    pub min_z : (u v : Vec3 Double) → (cwise_min u v).z ≡ (if lt v.z u.z then v.z else u.z)
    pub max_x : (u v : Vec3 Double) → (cwise_max u v).x ≡ (if lt u.x v.x then v.x else u.x)
    pub max_y : (u v : Vec3 Double) → (cwise_max u v).y ≡ (if lt u.y v.y then v.y else u.y)
    pub max_z : (u v : Vec3 Double) → (cwise_max u v).z ≡ (if lt u.z v.z then v.z else u.z)

  -- How far a point a little inside a cube may be from its center, down and up.
  abbrev pub lowest_offset : Double → Double
  lowest_offset side = add (div (neg side) two) epsilon

  abbrev pub highest_offset : Double → Double
  highest_offset side = sub (div side two) epsilon

  -- The cube is wide enough to hold such a point.
  abbrev pub IsWide : Double → Type 0
  IsWide side = lt (highest_offset side) (lowest_offset side) ≡ false

  -- `d` lies between two bounds, and it is `a` if that does, or the bound that `a` is beyond.
  abbrev pub IsLimited : Double → Double → Double → Double → Type 0
  IsLimited low high a d =
      ((d ≡ a) × (lt a low ≡ false) × (lt high a ≡ false))
      ⊎ ((d ≡ high) × (lt high a ≡ true) × (lt d low ≡ false))
      ⊎ ((d ≡ low) × (lt a low ≡ true) × (lt high d ≡ false))

  -- The point is the center of the box and an offset, which is in each coordinate that from the
  -- center to the position as far as the box reaches.
  pub record IsNearestIn (position : Vec3 Double) (box : Box Double) (point : Vec3 Double)
      : Type 0 where
    pub offset : Vec3 Double
    moved : point ≡ vadd box.0 offset
    limited_x :
        IsLimited (lowest_offset box.1) (highest_offset box.1) (vsub position box.0).x offset.x
    limited_y :
        IsLimited (lowest_offset box.1) (highest_offset box.1) (vsub position box.0).y offset.y
    limited_z :
        IsLimited (lowest_offset box.1) (highest_offset box.1) (vsub position box.0).z offset.z

  limited_lem :
      (low high a m d : Double)
      → lt high low ≡ false
      → m ≡ (if lt high a then high else a)
      → d ≡ (if lt m low then low else m)
      → IsLimited low high a d
  limited_lem low high a m d wide e k = elim (Bool-cases (lt high a)) [
    | inl above ↦ inr (inl (ground (arith, above, wide, e, k)))
    | inr below ↦ elim (Bool-cases (lt a low)) [
      | inl under ↦ inr (inr (ground (arith, below, under, wide, e, k)))
      | inr over ↦ inl (ground (arith, below, over, e, k))
    ]
  ]

  pub nearest_in_box-IsNearestIn :
      Coordinatewise
      → (position : Vec3 Double) (box : Box Double) → IsWide box.1
      → IsNearestIn position box (nearest_in_box position box)
  unfolding nearest_in_box
  nearest_in_box-IsNearestIn c position (center, side) wide =
      let low = lowest_offset side in
      let high = highest_offset side in
      let a = vsub position center in
      let m = cwise_min a (constant high) in
      let d = cwise_max m (constant low) in
      record {
        offset = d;
        moved = refl;
        limited_x =
            limited_lem low high a.x m.x d.x wide (c.min_x a (constant high))
              (c.max_x m (constant low));
        limited_y =
            limited_lem low high a.y m.y d.y wide (c.min_y a (constant high))
              (c.max_y m (constant low));
        limited_z =
            limited_lem low high a.z m.z d.z wide (c.min_z a (constant high))
              (c.max_z m (constant low));
      }

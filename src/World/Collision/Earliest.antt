-- ===== src/World/Collision/Earliest.antt =====
-- The index that `checkPathForCollisionsWithRobot` reports.
use volumetric_mapping.Common.{
  ℕ, zero, suc, ◌+◌, ◌≡◌, refl, ◌↔◌, Bool, true, false, none, some, inl, inr, List, [], ◌∷◌, All,
  get_elem?, take, arith,
}
use volumetric_mapping.Outcome.{ok, Outcome-cases}
use volumetric_mapping.Platform.{Platform, Vec3}
use volumetric_mapping.World.{OctomapWorld}
use volumetric_mapping.World.Collision.{
  check_single_pose_collision, check_path_from, check_path_for_collisions_with_robot,
}

module _ ⦃p : Platform⦄ (fuel : ℕ) (w : OctomapWorld) where
  open p use {Double}

  abbrev pub Collides : Vec3 Double → Type 0
  Collides v = check_single_pose_collision fuel w v ≡ ok true

  abbrev pub IsClear : Vec3 Double → Type 0
  IsClear v = check_single_pose_collision fuel w v ≡ ok false

  -- The position at an index collides, and those before it do not.
  pub record EarliestAt (i : ℕ) (positions : List (Vec3 Double)) : Type 0 where
    pub position : Vec3 Double
    pub there : get_elem? positions i ≡ some position
    pub hit : Collides position
    pub clear_before : All IsClear (take i positions)

  check_path_from_hit :
      (start : ℕ) (positions : List (Vec3 Double)) (i : ℕ)
      → check_path_from fuel w true start positions ≡ ok (true, some i)
      → (n : ℕ) × (i ≡ start + n) × EarliestAt n positions
  unfolding check_path_from
  check_path_from_hit start [] i h = cc
  check_path_from_hit start (v ∷ vs) i h =
      elim (Outcome-cases (check_single_pose_collision fuel w v)) [
        | inl (true, e) ↦
            (0, ground arith, record { position = v; there = refl; hit = e; clear_before = tt })
        | inl (false, e) ↦
            let (n, ni, r) = check_path_from_hit (start + 1) vs i (ground arith) in
            (
              suc n,
              omega arith,
              record {
                position = r.position;
                there = r.there;
                hit = r.hit;
                clear_before = (e, r.clear_before);
              },
            )
        | inr (f, e) ↦ absurd (ground arith)
      ]

  check_path_from_earliest :
      (start : ℕ) (positions : List (Vec3 Double)) (n : ℕ)
      → EarliestAt n positions
      → check_path_from fuel w true start positions ≡ ok (true, some (start + n))
  unfolding check_path_from
  check_path_from_earliest start [] n r = absurd (ground (arith, r.there))
  check_path_from_earliest start (v ∷ vs) zero r = ground (arith, r.there, r.hit)
  check_path_from_earliest start (v ∷ vs) (suc n) r =
      let r' : EarliestAt n vs = record {
        position = r.position;
        there = r.there;
        hit = r.hit;
        clear_before = r.clear_before.1;
      } in
      ground (arith, r.clear_before.0, check_path_from_earliest (start + 1) vs n r')

  check_path_from-IsClear :
      (wanted : Bool) (start : ℕ) (positions : List (Vec3 Double))
      → (check_path_from fuel w wanted start positions ≡ ok (false, none)) ↔ All IsClear positions
  unfolding check_path_from
  check_path_from-IsClear wanted start [] = (λ _. tt, λ _. refl)
  check_path_from-IsClear wanted start (v ∷ vs) =
      ground (arith, check_path_from-IsClear wanted (start + 1) vs)

  -- `checkPathForCollisionsWithRobot`, asked for an index, reports a collision at `i` exactly if
  -- the robot collides at the position with this index, and at none of those before it, all of
  -- whose checks succeed.
  pub check_path_earliest :
      (positions : List (Vec3 Double)) (i : ℕ)
      → (check_path_for_collisions_with_robot fuel w true positions ≡ ok (true, some i))
        ↔ EarliestAt i positions
  unfolding check_path_for_collisions_with_robot
  check_path_earliest positions i = (
    λ h.
        let (n, e, r) = check_path_from_hit 0 positions i h in
        let same : i ≡ n = omega arith in rw same r,
    λ r. ground (arith, check_path_from_earliest 0 positions i r),
  )

  -- `checkPathForCollisionsWithRobot` reports that there is no collision exactly if the check of
  -- each position succeeds and finds none, whether or not an index is asked for.
  pub check_path-IsClear :
      (wanted : Bool) (positions : List (Vec3 Double))
      → (check_path_for_collisions_with_robot fuel w wanted positions ≡ ok (false, none))
        ↔ All IsClear positions
  unfolding check_path_for_collisions_with_robot
  check_path-IsClear wanted positions = check_path_from-IsClear wanted 0 positions

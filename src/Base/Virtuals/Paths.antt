-- ===== src/Base/Virtuals/Paths.antt =====
-- What the classes promise of `checkPathForCollisionsWithRobot`, in terms of
-- `checkCollisionWithRobot`.
use volumetric_mapping.Common.{
  ℕ, ◌≡◌, ◌↔◌, Bool, true, false, none, some, List, [], ◌∷◌, All, get_elem?, take, refl, arith,
  zero, suc, ◌<◌, length,
}
use volumetric_mapping.Outcome.{ok}
use volumetric_mapping.Platform.{Platform, Vec3}
use volumetric_mapping.World.{OctomapWorld}
use volumetric_mapping.World.Collision.{check_collision_with_robot}
use volumetric_mapping.World.Collision.Earliest.{check_path_earliest, check_path-IsClear}
use volumetric_mapping.Base.Virtuals.{Virtuals, world_base, octomap_world}

module _ ⦃p : Platform⦄ {W : Type 0} (v : Virtuals W) (w : W) where
  open p use {Double}

  abbrev Collides : Vec3 Double → Type 0
  Collides position = v.check_collision_with_robot w position ≡ ok true

  abbrev IsClear : Vec3 Double → Type 0
  IsClear position = v.check_collision_with_robot w position ≡ ok false

  -- The robot collides at the position with an index, and at none before it.
  pub record FirstAt (i : ℕ) (positions : List (Vec3 Double)) : Type 0 where
    pub position : Vec3 Double
    pub there : get_elem? positions i ≡ some position
    pub hit : Collides position
    pub clear_before : All IsClear (take i positions)

  -- The contract of the base class: a path is reported with the index at which the collision
  -- occurred, and as clear otherwise.
  pub record IsPathCheck : Type 0 where
    pub first :
        (positions : List (Vec3 Double)) (i : ℕ)
        → (v.check_path_for_collisions_with_robot w true positions ≡ ok (true, some i))
          ↔ FirstAt i positions
    pub clear :
        (wanted : Bool) (positions : List (Vec3 Double))
        → (v.check_path_for_collisions_with_robot w wanted positions ≡ ok (false, none))
          ↔ All IsClear positions

-- An index at which something stands is within the list.
get_elem?-bounded :
    {A : Type 0} (xs : List A) (i : ℕ) (a : A) → get_elem? xs i ≡ some a → i < length xs
get_elem?-bounded [] i a h = absurd cc
get_elem?-bounded (x ∷ xs) zero a h = omega arith
get_elem?-bounded (x ∷ xs) (suc i) a h = omega (arith, get_elem?-bounded xs i a h)

module _ ⦃p : Platform⦄ where
  open p use {Double}

  -- What a caller of any class that keeps the contract may rely on: the index that is reported lies
  -- within the path.
  IsPathCheck-bounded :
      {W : Type 0} (v : Virtuals W) (w : W) (positions : List (Vec3 Double)) (i : ℕ)
      → IsPathCheck v w
      → v.check_path_for_collisions_with_robot w true positions ≡ ok (true, some i)
      → i < length positions
  IsPathCheck-bounded v w positions i c h =
      let r = (c.first positions i).0 h in get_elem?-bounded positions i r.position r.there

  never_hit :
      {W : Type 0} (w : W) (positions : List (Vec3 Double))
      → All (IsClear (world_base {W = W}) w) positions
  unfolding world_base
  never_hit w [] = tt
  never_hit w (x ∷ xs) = (refl, never_hit w xs)

  world_base-IsPathCheck : {W : Type 0} (w : W) → IsPathCheck (world_base {W = W}) w
  unfolding world_base
  world_base-IsPathCheck w = record {
    first = λ positions i. (λ h. absurd cc, λ r. absurd (let h = r.hit in cc));
    clear = λ wanted positions. (λ _. never_hit w positions, λ _. refl);
  }

  octomap_world-IsPathCheck : (fuel : ℕ) (w : OctomapWorld) → IsPathCheck (octomap_world fuel) w
  unfolding octomap_world check_collision_with_robot
  octomap_world-IsPathCheck fuel w = record {
    first = λ positions i.
        let iff = check_path_earliest fuel w positions i in
        (
          λ h.
              let r = iff.0 h in
              record {
                position = r.position;
                there = r.there;
                hit = r.hit;
                clear_before = r.clear_before;
              },
          λ r. iff.1 (record {
            position = r.position;
            there = r.there;
            hit = r.hit;
            clear_before = r.clear_before;
          }),
        );
    clear = λ wanted positions. check_path-IsClear fuel w wanted positions;
  }

  -- Both the base class and `OctomapWorld` keep the contract of path checks in every state: with an
  -- index asked for, the collision at an index is reported exactly if the robot collides there and
  -- at no position before, and a path is reported as clear exactly if no position collides.
  pub virtuals-IsPathCheck :
      {W : Type 0} (fuel : ℕ) (w : W) (world : OctomapWorld)
      → IsPathCheck (world_base {W = W}) w × IsPathCheck (octomap_world fuel) world
  virtuals-IsPathCheck fuel w world =
      (world_base-IsPathCheck w, octomap_world-IsPathCheck fuel world)

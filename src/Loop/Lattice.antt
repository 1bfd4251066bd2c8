-- ===== src/Loop/Lattice.antt =====
-- The positions at which the body of three nested loops over a box runs
-- (octomap_world/src/octomap_world.cc).
use mathlib.Core.List.{flat_map}
use volumetric_mapping.Common.{
  ℕ, zero, suc, ◌<◌, ◌≡◌, refl, Bool, true, false, List, [], ◌∷◌, map, All, arith,
}
use volumetric_mapping.Outcome.{Outcome, ok}
use volumetric_mapping.Platform.{Platform, Vec3}
use volumetric_mapping.Vector.{vec}
use volumetric_mapping.Loop.{visited, collect, steps, grid}

module _ {ℓ} {A : Type ℓ} where
  collect-flat_map {κ} :
      {B : Type κ} (f : A → Outcome (List B)) (g : A → List B)
      → ((a : A) → f a ≡ ok (g a))
      → (xs : List A) → collect xs f ≡ ok (flat_map g xs)
  unfolding collect flat_map
  collect-flat_map f g h [] = refl
  collect-flat_map f g h (x ∷ xs) = rw (h x, collect-flat_map f g h xs) refl

  -- `a`, `next a` and so on: the value after `n` rounds, and the values before it.
  abbrev pub after : (A → A) → ℕ → A → A
  after next zero a = a
  after next (suc n) a = after next n (next a)

  abbrev pub before : (A → A) → ℕ → A → List A
  before next zero a = []
  before next (suc n) a = a ∷ before next n (next a)

  module _ (test : A → Bool) (next : A → A) where
    -- The test holds for `n` rounds and fails then.
    abbrev pub Rounds : ℕ → A → Type 0
    Rounds n a = All (λ b. test b ≡ true) (before next n a) × (test (after next n a) ≡ false)

    visited-Rounds :
        (n fuel : ℕ) (a : A)
        → Rounds n a
        → n < fuel
        → visited fuel test next a ≡ ok (before next n a)
    unfolding visited
    visited-Rounds n zero a r enough = absurd (omega (arith, enough))
    visited-Rounds zero (suc fuel) a (_, stop) enough = rw stop refl
    visited-Rounds (suc n) (suc fuel) a ((go, more), stop) enough =
        rw (go, visited-Rounds n fuel (next a) (more, stop) (omega (arith, enough))) refl

module _ ⦃p : Platform⦄ where
  open p use {Double, add, le}

  -- `for (a = lo; a <= hi; a += step)` has `n` rounds.
  abbrev pub AxisRounds : ℕ → Double → Double → Double → Type 0
  AxisRounds n lo hi step = Rounds (λ a. le a hi) (λ a. add a step) n lo

  -- `n` coordinates from `lo` on, each a step after the last.
  abbrev pub axis : ℕ → Double → Double → List Double
  axis n lo step = before (λ a. add a step) n lo

  -- All positions with such coordinates, those with the same x together, and among these those with
  -- the same y.
  abbrev pub lattice : ℕ → ℕ → ℕ → Vec3 Double → Double → List (Vec3 Double)
  lattice l m n lo step =
      flat_map (λ x. flat_map (λ y. map (vec x y) (axis n lo.z step)) (axis m lo.y step))
        (axis l lo.x step)

  -- If on the three axes the counter first passes the upper bound after l, m and n rounds, and the
  -- fuel is more than each of these, then the three nested loops over a box end. They visit the
  -- positions whose coordinates are the first l, m and n of the sequences that start at the lower
  -- corner and go on by the step, in the order of x, then y, then z, and no other.
  pub grid-lattice :
      (fuel l m n : ℕ) (lo hi : Vec3 Double) (step : Double)
      → AxisRounds l lo.x hi.x step
      → AxisRounds m lo.y hi.y step
      → AxisRounds n lo.z hi.z step
      → l < fuel
      → m < fuel
      → n < fuel
      → grid fuel lo hi step ≡ ok (lattice l m n lo step)
  unfolding grid steps
  grid-lattice fuel l m n lo hi step rx ry rz fx fy fz =
      let next = λ (a : Double). add a step in
      let xs = visited-Rounds (λ a. le a hi.x) next l fuel lo.x rx fx in
      let ys = visited-Rounds (λ a. le a hi.y) next m fuel lo.y ry fy in
      let zs = visited-Rounds (λ a. le a hi.z) next n fuel lo.z rz fz in
      rw (xs, ys, zs)
        (collect-flat_map _
          (λ x. flat_map (λ y. map (vec x y) (axis n lo.z step)) (axis m lo.y step))
          (λ x.
            collect-flat_map _ (λ y. map (vec x y) (axis n lo.z step)) (λ y. refl)
              (axis m lo.y step))
          (axis l lo.x step))

-- ===== src/Loop.antt =====
-- The loops of octomap_world/src/octomap_world.cc whose counter is a floating-point or a machine
-- number: `for (a = start; test(a); a = next(a))`. They take fuel.
pub mod Box
pub mod Lattice
pub mod Rules
use volumetric_mapping.Common.{
  ℕ, zero, suc, Bool, Option, none, some, List, [], ◌∷◌, ◌++◌, map, if◌then◌else◌,
}
use volumetric_mapping.Outcome.{Outcome, ok, fault, out_of_fuel, ◌>>=◌}
use volumetric_mapping.Platform.{Platform, Vec3}
use volumetric_mapping.Vector.{vec}

module _ {ℓ} {A : Type ℓ} where
  -- The values of the counter for which the body runs.
  unfoldable pub visited : ℕ → (A → Bool) → (A → A) → A → Outcome (List A)
  visited zero test next a = fault out_of_fuel
  visited (suc f) test next a =
      let rest = visited f test next (next a) in
      if test a then (rest >>= λ rest'. ok (a ∷ rest')) else ok []

  -- A loop whose body may return from the function, with `some result`.
  unfoldable pub for_return {κ} :
      {R : Type κ} → ℕ → (A → Bool) → (A → A) → (A → Outcome (Option R)) → A → Outcome (Option R)
  for_return zero test next body a = fault out_of_fuel
  for_return (suc f) test next body a =
      let rest = for_return f test next body (next a) in
      if test a then (body a >>= λ r. elim r [ some v ↦ ok (some v) | none ↦ rest ]) else ok none

  -- The bodies of a loop over a list, each giving a list, one after the other.
  unfoldable pub collect {κ} : {B : Type κ} → List A → (A → Outcome (List B)) → Outcome (List B)
  collect [] f = ok []
  collect (a ∷ more) f = do bs ← f a; cs ← collect more f; ok (bs ++ cs)

module _ ⦃p : Platform⦄ where
  open p use {Double, add, le}

  -- `for (double x = lo; x <= hi; x += step)`.
  unfoldable pub steps : ℕ → Double → Double → Double → Outcome (List Double)
  steps fuel lo hi step = visited fuel (λ x. le x hi) (λ x. add x step) lo

  -- Three such loops, nested: the positions at which the innermost body runs, in order.
  unfoldable pub grid : ℕ → Vec3 Double → Vec3 Double → Double → Outcome (List (Vec3 Double))
  grid fuel lo hi step = do
    xs ← steps fuel lo.x hi.x step
    collect xs λ x. do
      ys ← steps fuel lo.y hi.y step
      collect ys λ y. do zs ← steps fuel lo.z hi.z step; ok (map (vec x y) zs)

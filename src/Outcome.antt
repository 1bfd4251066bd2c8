-- ===== src/Outcome.antt =====
-- How a call of the C++ code ends: with a value, or in one of the faults that the code can run into.
pub mod Holds
use volumetric_mapping.Common.{◌≡◌, refl, Option, none, some, ◌⊎◌, inl, inr}

-- `null_octree`: `octree_->` on an empty pointer. `null_node`: `*node` on a null node.
-- `bad_index`: an element past the end of a vector. `length_error`: `reserve` with a size that is
-- negative or out of the range of `int`. `out_of_fuel`: a loop of the model was given fewer rounds
-- than it needs.
pub data Fault : Type 0 where
  null_octree null_node bad_index length_error out_of_fuel : Fault

pub data Outcome {ℓ} (A : Type ℓ) : Type ℓ where
  ok : A → Outcome A
  fault : Fault → Outcome A

-- The dereference of a pointer, or another step that can fail.
abbrev pub or_fault {ℓ} : {A : Type ℓ} → Fault → Option A → Outcome A
or_fault e none = fault e
or_fault e (some a) = ok a

module _ {ℓ} {A : Type ℓ} where
  -- Every outcome is a value or a fault.
  pub Outcome-cases : (m : Outcome A) → ((a : A) × (m ≡ ok a)) ⊎ ((e : Fault) × (m ≡ fault e))
  Outcome-cases (ok a) = inl (a, refl)
  Outcome-cases (fault e) = inr (e, refl)

  infixl 5 ◌>>=◌
  abbrev pub ◌>>=◌ {κ} : {B : Type κ} → Outcome A → (A → Outcome B) → Outcome B
  fault e >>= next = fault e
  ok a >>= next = next a

  -- A chain that ends with a value had a value at its first step.
  pub >>=-eq-ok {κ} :
      {B : Type κ} (first : Outcome A) (next : A → Outcome B) {b : B}
      → (first >>= next) ≡ ok b
      → (a : A) × (first ≡ ok a) × (next a ≡ ok b)
  >>=-eq-ok (fault e) next h = cc
  >>=-eq-ok (ok a) next h = (a, refl, h)

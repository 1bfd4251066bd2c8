-- ===== src/Outcome/Holds.antt =====
-- Assertions on outcomes: a property of the value, or which faults there may be.
use volumetric_mapping.Common.{Bool, true, false, if◌then◌else◌}
use volumetric_mapping.Outcome.{Fault, null_octree, bad_index, Outcome, ok, fault, ◌>>=◌}

abbrev pub IsOther : Fault → Type 0
IsOther null_octree = ⊥
IsOther bad_index = ⊥
IsOther _ = Unit

-- The outcome is a value with the property, or a fault other than a null octree or a bad index.
abbrev pub Holds {ℓ} : {A : Type ℓ} → (A → Type 0) → Outcome A → Type 0
Holds P (ok a) = P a
Holds P (fault f) = IsOther f

abbrev pub Fine {ℓ} : {A : Type ℓ} → Outcome A → Type 0
Fine o = Holds (λ _. Unit) o

module _ {ℓ} {A : Type ℓ} where
  pub >>=-Holds {κ} :
      {B : Type κ} (P : A → Type 0) (Q : B → Type 0) (o : Outcome A) (next : A → Outcome B)
      → Holds P o
      → ((a : A) → P a → Holds Q (next a))
      → Holds Q (o >>= next)
  >>=-Holds P Q (ok a) next h n = n a h
  >>=-Holds P Q (fault f) next h n = h

  -- The same where nothing is known of the value.
  pub >>=-Fine {κ} :
      {B : Type κ} (Q : B → Type 0) (o : Outcome A) (next : A → Outcome B)
      → Fine o
      → ((a : A) → Holds Q (next a))
      → Holds Q (o >>= next)
  >>=-Fine Q (ok a) next h n = n a
  >>=-Fine Q (fault f) next h n = h

  pub if-Holds :
      (P : A → Type 0) (b : Bool) (x y : Outcome A)
      → Holds P x
      → Holds P y
      → Holds P (if b then x else y)
  if-Holds P true x y hx hy = hx
  if-Holds P false x y hx hy = hy

-- ===== src/World/Speckle/Neighbors.antt =====
-- What `isSpeckleNode` answers.
use volumetric_mapping.Common.{
  ℕ, suc, ◌+◌, ◌-◌, ◌≤◌, ◌≡◌, Bool, true, false, not, Option, none, some, inl, inr, leb, Bool-cases,
  arith,
}
use volumetric_mapping.Outcome.{Outcome, ok}
use volumetric_mapping.Platform.{Platform, Key}
use volumetric_mapping.KeySet.{key_eq}
use volumetric_mapping.Loop.Rules.{Ends, for_return_first, for_return_none}
use volumetric_mapping.World.Speckle.{
  increment, decrement, occupied_at, check_neighbor, around, is_speckle_node,
}

-- Every coordinate of the key is at least 1 and at most `top`.
pub record IsWithin (top : ℕ) (key : Key) : Type 0 where
  pub within0 : (1 ≤ key.k0) × (key.k0 ≤ top)
  pub within1 : (1 ≤ key.k1) × (key.k1 ≤ top)
  pub within2 : (1 ≤ key.k2) × (key.k2 ≤ top)

abbrev corner : Key → Key
corner key = record { k0 = decrement key.k0; k1 = decrement key.k1; k2 = decrement key.k2 }

corner-differs : (key : Key) → 1 ≤ key.k0 → key.k0 ≤ 65535 → key_eq (corner key) key ≡ false
unfolding key_eq
corner-differs key h h' = ground arith

decrement_lem : (k : ℕ) → 1 ≤ k → k ≤ 65535 → decrement k ≡ k - 1
decrement_lem k h h' = omega arith

Ends-around :
    (fuel k : ℕ)
    → 1 ≤ k
    → k ≤ 65533
    → Ends (λ c. leb c (k + 1)) increment (suc (suc (suc (suc fuel)))) (decrement k)
Ends-around fuel k h h' =
    inr (ground arith, inr (ground arith, inr (ground arith, inl (ground arith))))

around_first :
    {R : Type 0} (fuel k : ℕ) (body : ℕ → Outcome (Option R)) {v : R}
    → 1 ≤ k
    → k ≤ 65535
    → body (decrement k) ≡ ok (some v)
    → around (suc fuel) k body ≡ ok (some v)
unfolding around
around_first fuel k body h h' e =
    for_return_first (λ c. leb c (k + 1)) increment body fuel (decrement k) (ground arith) e

around_none :
    {R : Type 0} (fuel k : ℕ) (body : ℕ → Outcome (Option R))
    → 1 ≤ k
    → k ≤ 65533
    → ((c : ℕ) → body c ≡ ok none)
    → around (suc (suc (suc (suc fuel)))) k body ≡ ok none
unfolding around
around_none fuel k body h h' e =
    for_return_none (λ c. leb c (k + 1)) increment body (suc (suc (suc (suc fuel)))) (decrement k) e
      (Ends-around fuel k h h')

module _ ⦃p : Platform⦄ where
  open p use {Tree}

  check_neighbor_vacant :
      (t : Tree) (key current : Key)
      → occupied_at t key ≡ false
      → check_neighbor t key current ≡ ok none
  unfolding check_neighbor
  check_neighbor_vacant t key current e =
      rw e (elim (Bool-cases (key_eq current key)) [ inl same ↦ rw same | inr other ↦ rw other ])

  check_neighbor_other :
      (t : Tree) (key current : Key)
      → occupied_at t key ≡ true
      → key_eq current key ≡ false
      → check_neighbor t key current ≡ ok (some false)
  unfolding check_neighbor
  check_neighbor_other t key current e other = rw (e, other)

  -- The three loops, with the body of the innermost.
  abbrev neighbors : ℕ → Tree → Key → Outcome (Option Bool)
  neighbors fuel t key = around fuel key.k2 λ c2.
      around fuel key.k1
        λ c1. around fuel key.k0 λ c0. check_neighbor t key (record { k0 = c0; k1 = c1; k2 = c2 })

  neighbors_occupied :
      (fuel : ℕ) (t : Tree) (key : Key)
      → IsWithin 65535 key
      → occupied_at t key ≡ true
      → neighbors (suc fuel) t key ≡ ok (some false)
  neighbors_occupied fuel t key v e = around_first fuel key.k2 _ v.within2.0 v.within2.1 (
      around_first fuel key.k1 _ v.within1.0 v.within1.1 (
        around_first fuel key.k0 _ v.within0.0 v.within0.1
          (check_neighbor_other t key (corner key) e (corner-differs key v.within0.0 v.within0.1))))

  neighbors_vacant :
      (fuel : ℕ) (t : Tree) (key : Key)
      → IsWithin 65533 key
      → occupied_at t key ≡ false
      → neighbors (suc (suc (suc (suc fuel)))) t key ≡ ok none
  neighbors_vacant fuel t key v e = around_none fuel key.k2 _ v.within2.0 v.within2.1 λ c2.
      around_none fuel key.k1 _ v.within1.0 v.within1.1 λ c1.
        around_none fuel key.k0 _ v.within0.0 v.within0.1
          λ c0. check_neighbor_vacant t key (record { k0 = c0; k1 = c1; k2 = c2 }) e

  -- An occupied node is never called a speckle, whatever its neighbors are, unless a coordinate of
  -- its key is zero.
  pub is_speckle_node_occupied :
      (fuel : ℕ) (t : Tree) (key : Key)
      → IsWithin 65535 key
      → occupied_at t key ≡ true
      → is_speckle_node (suc fuel) t key ≡ ok false
  unfolding is_speckle_node
  is_speckle_node_occupied fuel t key v e = rw (neighbors_occupied fuel t key v e)

  -- For a key with all coordinates from 1 to 65533 and with fuel for four rounds, `isSpeckleNode`
  -- ends and tells only whether the node at the key itself is not occupied: two trees that agree
  -- on that node give the same answer, whatever its neighbors are.
  pub is_speckle_node_lem :
      (fuel : ℕ) (t : Tree) (key : Key)
      → IsWithin 65533 key
      → is_speckle_node (suc (suc (suc (suc fuel)))) t key ≡ ok (not (occupied_at t key))
  unfolding is_speckle_node
  is_speckle_node_lem fuel t key v = elim (Bool-cases (occupied_at t key)) [
    | inl e ↦ rw (e, neighbors_occupied (suc (suc (suc fuel))) t key (widen v) e)
    | inr e ↦ rw (e, neighbors_vacant fuel t key v e)
  ]
    where
      widen : IsWithin 65533 key → IsWithin 65535 key
      widen w = omega arith

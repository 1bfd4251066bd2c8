-- ===== src/Loop/Rules.antt =====
-- Rules for the loops on fuel: when they end, and what they return.
use volumetric_mapping.Common.{
  ℕ, zero, suc, ◌≡◌, Bool, true, false, Option, none, some, ◌⊎◌, inl, inr, List, [], ◌∷◌, All,
}
use volumetric_mapping.Outcome.{Outcome, ok}
use volumetric_mapping.Loop.{visited, for_return}

module _ {ℓ} {A : Type ℓ} (test : A → Bool) (next : A → A) where
  -- The test of the loop fails after fewer than `fuel` rounds.
  abbrev pub Ends : ℕ → A → Type 0
  Ends zero a = ⊥
  Ends (suc fuel) a = (test a ≡ false) ⊎ ((test a ≡ true) × Ends fuel (next a))

  -- A loop that ends visits a list of counters, all of which pass the test.
  pub visited_total :
      (fuel : ℕ) (a : A)
      → Ends fuel a
      → (as' : List A) × (visited fuel test next a ≡ ok as') × All (λ b. test b ≡ true) as'
  unfolding visited
  visited_total zero a e = absurd e
  visited_total (suc fuel) a (inl stop) = ([], rw stop, tt)
  visited_total (suc fuel) a (inr (go, e)) =
      let (as', eq, passed) = visited_total fuel (next a) e in (a ∷ as', rw (go, eq), (go, passed))

  module _ {κ} {R : Type κ} (body : A → Outcome (Option R)) where
    pub for_return_first :
        (fuel : ℕ) (a : A) {v : R}
        → test a ≡ true
        → body a ≡ ok (some v)
        → for_return (suc fuel) test next body a ≡ ok (some v)
    unfolding for_return
    for_return_first fuel a go e = rw (go, e)

    pub for_return_none :
        (fuel : ℕ) (a : A)
        → ((b : A) → body b ≡ ok none)
        → Ends fuel a
        → for_return fuel test next body a ≡ ok none
    unfolding for_return
    for_return_none zero a e h = absurd h
    for_return_none (suc fuel) a e (inl stop) = rw stop
    for_return_none (suc fuel) a e (inr (go, h)) = rw (go, e a) (for_return_none fuel (next a) e h)

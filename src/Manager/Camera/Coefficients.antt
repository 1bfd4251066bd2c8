-- ===== src/Manager/Camera/Coefficients.antt =====
-- The parameter `Q` against the matrix that it gives.
use mathlib.Core.Option.{some-injective, some-ne-none}
use volumetric_mapping.Common.{
  ◌≡◌, ◌≢◌, ◌↔◌, ◌⊎◌, inl, inr, refl, none, some, List, [], ◌∷◌, length, sym, ap, ◌∙◌, arith,
}
use volumetric_mapping.Platform.{Platform}
use volumetric_mapping.Base.{Matrix4}
use volumetric_mapping.Manager.Camera.{set_q_from_params}

module _ ⦃p : Platform⦄ where
  open p use {Double}

  -- The coefficients of a matrix, by rows.
  abbrev pub coefficients : Matrix4 Double → List Double
  coefficients q =
      q.r0.c0 ∷ q.r0.c1 ∷ q.r0.c2 ∷ q.r0.c3 ∷ q.r1.c0 ∷ q.r1.c1 ∷ q.r1.c2 ∷ q.r1.c3 ∷ q.r2.c0
      ∷ q.r2.c1 ∷ q.r2.c2 ∷ q.r2.c3 ∷ q.r3.c0 ∷ q.r3.c1 ∷ q.r3.c2 ∷ q.r3.c3 ∷ []

  set_q_from_params-cases :
      (l : List Double)
      → ((set_q_from_params l ≡ none) × (length l ≢ 16))
        ⊎ ((q : Matrix4 Double) × (set_q_from_params l ≡ some q) × (coefficients q ≡ l))
  unfolding set_q_from_params
  set_q_from_params-cases (a ∷ b ∷ c ∷ d ∷ e ∷ f ∷ g ∷ h ∷ i ∷ j ∷ k ∷ l ∷ m ∷ n ∷ o ∷ q ∷ []) =
      inr (_, refl, refl)
  set_q_from_params-cases _ = inl (refl, λ e. ground arith)

  set_q_from_params_roundtrip : (q : Matrix4 Double) → set_q_from_params (coefficients q) ≡ some q
  unfolding set_q_from_params
  set_q_from_params_roundtrip q = refl

  -- `setQFromParams` gives a matrix exactly for the list of its 16 coefficients by rows, and it
  -- refuses exactly the lists that do not have 16 elements.
  pub set_q_from_params-coefficients :
      (l : List Double) (q : Matrix4 Double)
      → ((set_q_from_params l ≡ some q) ↔ (coefficients q ≡ l))
        × ((set_q_from_params l ≡ none) ↔ (length l ≢ 16))
  set_q_from_params-coefficients l q = elim (set_q_from_params-cases l) [
    | inl (e, short) ↦ (
      (λ k. absurd (some-ne-none _ (sym k ∙ e)), λ k. absurd (short (ap length (sym k)))),
      (λ _. short, λ _. e),
    )
    | inr (q', e, same) ↦
        let unique : set_q_from_params l ≡ some q → q' ≡ q = λ k. some-injective _ _ (sym e ∙ k) in
        (
          (
            λ k. ap coefficients (sym (unique k)) ∙ same,
            λ k. ap set_q_from_params (sym k) ∙ set_q_from_params_roundtrip q,
          ),
          (λ k. absurd (some-ne-none _ (sym e ∙ k)), λ long. absurd (long (ap length (sym same)))),
        )
  ]

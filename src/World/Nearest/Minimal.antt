-- ===== src/World/Nearest/Minimal.antt =====
-- The point that `getNearestFreePoint` finds.
use mathlib.Core.Path.{subst}
use volumetric_mapping.Common.{
  ◌≡◌, refl, sym, ◌⊎◌, inl, inr, true, false, Bool-cases, some, List, [], ◌∷◌, All, Any, arith,
}
use volumetric_mapping.Platform.{Platform, Vec3}
use volumetric_mapping.World.Boxes.{Box}
use volumetric_mapping.World.Nearest.{Best, nearest_in_box, best_position}

module _ ⦃p : Platform⦄ where
  open p use {Double, Tree, lt, add, vsub, norm, max_coeff, resolution}

  -- How far a position is from the nearest point in a box.
  abbrev pub distance : Vec3 Double → Box Double → Double
  distance position box = norm (vsub position (nearest_in_box position box))

  -- The comparison of `double` is a strict order, with NaN unrelated to everything.
  pub record StrictOrder : Type 0 where
    pub irreflexive : (a : Double) → lt a a ≡ false
    pub transitive : (a b c : Double) → lt a b ≡ true → lt b c ≡ true → lt a c ≡ true

  -- The best point is in a box of the list, or none was near enough.
  abbrev pub IsChosen : Vec3 Double → List (Box Double) → Best Double → Best Double → Type 0
  IsChosen position boxes start best =
      (best ≡ start)
      ⊎ ((lt best.min_distance start.min_distance ≡ true)
          × Any
              (λ box. best ≡ record {
                min_distance = distance position box;
                free_position = some (nearest_in_box position box);
              })
              boxes)

  -- No box is nearer than the best point.
  abbrev pub IsLeast : Vec3 Double → List (Box Double) → Best Double → Type 0
  IsLeast position boxes best =
      All (λ box. lt (distance position box) best.min_distance ≡ false) boxes

  module _ (o : StrictOrder) (position : Vec3 Double) where
    open o use {irreflexive, transitive}

    lt-irreversible : (a b : Double) → lt a b ≡ true → lt b a ≡ false
    lt-irreversible a b h = elim (Bool-cases (lt b a)) [
      | inl back ↦ absurd (ground (arith, transitive a b a h back, irreflexive a))
      | inr e ↦ e
    ]

    not_below : (a b c : Double) → lt a c ≡ false → lt b c ≡ true → lt a b ≡ false
    not_below a b c h k = elim (Bool-cases (lt a b)) [
      | inl less ↦ absurd (ground (arith, transitive a b c less k))
      | inr e ↦ e
    ]

    abbrev pub IsNearest : List (Box Double) → Best Double → Best Double → Type 0
    IsNearest boxes start best = IsChosen position boxes start best × IsLeast position boxes best

    -- The point of a box, as the best one.
    abbrev pub from_box : Box Double → Best Double
    from_box box = record {
      min_distance = distance position box;
      free_position = some (nearest_in_box position box);
    }

    best_position-nil : (start : Best Double) → best_position position [] start ≡ start
    unfolding best_position
    best_position-nil start = refl

    best_position-nearer :
        (box : Box Double) (boxes : List (Box Double)) (start : Best Double)
        → lt (distance position box) start.min_distance ≡ true
        → best_position position (box ∷ boxes) start ≡ best_position position boxes (from_box box)
    unfolding best_position
    best_position-nearer box boxes start h = rw h refl

    best_position-further :
        (box : Box Double) (boxes : List (Box Double)) (start : Best Double)
        → lt (distance position box) start.min_distance ≡ false
        → best_position position (box ∷ boxes) start ≡ best_position position boxes start
    unfolding best_position
    best_position-further box boxes start h = rw h refl

    pub best_position-IsNearest :
        (boxes : List (Box Double)) (start : Best Double)
        → IsNearest boxes start (best_position position boxes start)
    best_position-IsNearest [] start =
        subst (IsNearest [] start) (sym (best_position-nil start)) (inl refl, tt)
    best_position-IsNearest (box ∷ boxes) start =
        let d = distance position box in
        let here = from_box box in
        let (chosen, least) = best_position-IsNearest boxes here in
        let (kept, least') = best_position-IsNearest boxes start in
        let r = best_position position boxes here in
        let r' = best_position position boxes start in
        elim (Bool-cases (lt d start.min_distance)) [
          | inl nearer ↦
              subst (IsNearest (box ∷ boxes) start)
                (sym (best_position-nearer box boxes start nearer))
                (elim chosen [
                  | inl e ↦ (inr (rw e nearer, inl e), (rw e (irreflexive d), least))
                  | inr (less, there) ↦ (
                    inr (transitive r.min_distance d start.min_distance less nearer, inr there),
                    (lt-irreversible r.min_distance d less, least),
                  )
                ])
          | inr further ↦
              subst (IsNearest (box ∷ boxes) start)
                (sym (best_position-further box boxes start further))
                (elim kept [
                  | inl e ↦ (inl e, (rw e further, least'))
                  | inr (less, there) ↦ (
                    inr (less, inr there),
                    (not_below d r'.min_distance start.min_distance further less, least'),
                  )
                ])
        ]

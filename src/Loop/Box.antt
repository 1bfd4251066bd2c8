-- ===== src/Loop/Box.antt =====
-- Rules for the three nested loops over a box.
use volumetric_mapping.Common.{ℕ, ◌≡◌, refl, true, List, [], ◌∷◌, ◌++◌, map, All, All-append}
use volumetric_mapping.Outcome.{Outcome, ok}
use volumetric_mapping.Platform.{Platform, Vec3}
use volumetric_mapping.Vector.{vec}
use volumetric_mapping.Loop.{steps, collect, grid}
use volumetric_mapping.Loop.Rules.{Ends, visited_total}

-- The outcome is a list whose elements have a property.
abbrev pub Gives {ℓ κ} : {A : Type ℓ} → (A → Type κ) → Outcome (List A) → Type (ℓ ⊔ κ)
Gives {A} P m = (xs : List A) × (m ≡ ok xs) × All P xs

pub collect-Gives {ℓ κ μ ν} :
    {A : Type ℓ} {B : Type κ} (P : A → Type μ) (Q : B → Type ν) (f : A → Outcome (List B))
    → ((a : A) → P a → Gives Q (f a))
    → (as' : List A) → All P as'
    → Gives Q (collect as' f)
unfolding collect
collect-Gives P Q f h [] ps = ([], refl, tt)
collect-Gives P Q f h (a ∷ as') (pa, ps) =
    let (bs, e, qs) = h a pa in
    let (cs, e', qs') = collect-Gives P Q f h as' ps in
    (bs ++ cs, rw (e, e'), All-append Q bs cs qs qs')

pub All-map {ℓ κ μ ν} :
    {A : Type ℓ} {B : Type κ} (P : A → Type μ) (Q : B → Type ν) (f : A → B)
    → ((a : A) → P a → Q (f a))
    → (xs : List A) → All P xs
    → All Q (map f xs)
All-map P Q f h [] ps = tt
All-map P Q f h (x ∷ xs) (px, ps) = (h x px, All-map P Q f h xs ps)

module _ ⦃p : Platform⦄ where
  open p use {Double, add, le}

  -- `for (a = lo; a <= hi; a += step)` ends within the fuel.
  abbrev pub StepsEnd : ℕ → Double → Double → Double → Type 0
  StepsEnd fuel lo hi step = Ends (λ a. le a hi) (λ a. add a step) fuel lo

  -- No coordinate exceeds the upper corner.
  abbrev pub AtMost : Vec3 Double → Vec3 Double → Type 0
  AtMost hi v = (le v.x hi.x ≡ true) × (le v.y hi.y ≡ true) × (le v.z hi.z ≡ true)

  -- If on each axis the counter passes the upper bound in fewer rounds than the fuel, then the
  -- three nested loops over a box end, and no position that they visit exceeds the upper corner in
  -- a coordinate.
  pub grid_total :
      (fuel : ℕ) (lo hi : Vec3 Double) (step : Double)
      → StepsEnd fuel lo.x hi.x step
      → StepsEnd fuel lo.y hi.y step
      → StepsEnd fuel lo.z hi.z step
      → Gives (AtMost hi) (grid fuel lo hi step)
  unfolding grid steps
  grid_total fuel lo hi step ex ey ez =
      let (xs, x_eq, x_le) = visited_total (λ a. le a hi.x) (λ a. add a step) fuel lo.x ex in
      let (ys, y_eq, y_le) = visited_total (λ a. le a hi.y) (λ a. add a step) fuel lo.y ey in
      let (zs, z_eq, z_le) = visited_total (λ a. le a hi.z) (λ a. add a step) fuel lo.z ez in
      rw (x_eq) (
        collect-Gives (λ x. le x hi.x ≡ true) (AtMost hi) _
          (λ x hx. rw (y_eq) (
            collect-Gives (λ y. le y hi.y ≡ true) (AtMost hi) _
              (λ y hy. rw (z_eq) (
                map (vec x y) zs,
                refl,
                All-map (λ z. le z hi.z ≡ true) (AtMost hi) (vec x y) (λ z hz. (hx, hy, hz)) zs
                    z_le,
              ))
              ys y_le))
          xs x_le)

-- ===== src/World/Line/Swept.antt =====
-- What `getLineStatusBoundingBox` answers.
use mathlib.Core.Path.{subst}
use volumetric_mapping.Common.{
  ℕ, zero, suc, ◌≡◌, ◌≢◌, refl, ◌↔◌, Bool, Option, none, some, List, [], ◌∷◌, inl, inr, All, arith,
}
use volumetric_mapping.Outcome.{Outcome, ok, fault, Outcome-cases, ◌>>=◌}
use volumetric_mapping.Platform.{Platform, Vec3}
use volumetric_mapping.Vector.{vec}
use volumetric_mapping.Loop.{for_return, visited}
use volumetric_mapping.Loop.Rules.{Ends}
use volumetric_mapping.World.{OctomapWorld}
use volumetric_mapping.World.Status.{CellStatus, free}
use volumetric_mapping.World.Line.{
  get_line_status, discretization, check_offset, get_line_status_bounding_box,
}

All-iff {ℓ κ μ} :
    {A : Type ℓ} (P : A → Type κ) (Q : A → Type μ)
    → ((a : A) → P a ↔ Q a)
    → (as' : List A) → All P as' ↔ All Q as'
All-iff P Q h [] = (λ _. tt, λ _. tt)
All-iff P Q h (a ∷ as') =
    let head = h a in
    let rest = All-iff P Q h as' in
    (λ (x, xs). (head.0 x, rest.0 xs), λ (y, ys). (head.1 y, rest.1 ys))

module _ {A : Type 0} (test : A → Bool) (next : A → A)
    (body : A → Outcome (Option CellStatus)) where
  -- A loop that ends returns nothing exactly if no round returns.
  pub for_return-none :
      (fuel : ℕ) (a : A)
      → Ends test next fuel a
      → (as' : List A) × (visited fuel test next a ≡ ok as')
        × ((for_return fuel test next body a ≡ ok none) ↔ All (λ b. body b ≡ ok none) as')
  unfolding for_return visited
  for_return-none zero a e = absurd e
  for_return-none (suc fuel) a (inl stop) = ([], rw stop, ground (arith, stop))
  for_return-none (suc fuel) a (inr (go, e)) =
      let (as', seen, h) = for_return-none fuel (next a) e in
      (a ∷ as', rw (go, seen), ground (arith, go, h))

  abbrev pub NeverFree : Outcome (Option CellStatus) → Type 0
  NeverFree outcome = (v : CellStatus) → outcome ≡ ok (some v) → v ≢ free

  pub for_return-NeverFree :
      ((a : A) → NeverFree (body a))
      → (fuel : ℕ) (a : A) → NeverFree (for_return fuel test next body a)
  unfolding for_return
  for_return-NeverFree h zero a v e = ground arith
  for_return-NeverFree h (suc fuel) a v e =
      ground (arith, h a v, for_return-NeverFree h fuel (next a) v)

  -- The same for a given list of rounds.
  pub for_return-visited :
      (fuel : ℕ) (a : A) (as' : List A)
      → Ends test next fuel a
      → visited fuel test next a ≡ ok as'
      → (for_return fuel test next body a ≡ ok none) ↔ All (λ b. body b ≡ ok none) as'
  for_return-visited fuel a as' e seen =
      let (bs, seen', h) = for_return-none fuel a e in
      let same : bs ≡ as' = cc in
      subst (λ cs. (for_return fuel test next body a ≡ ok none) ↔ All (λ b. body b ≡ ok none) cs)
        same h

-- What is made of the result of the loops.
abbrev pub answer : Option CellStatus → CellStatus
answer found = elim found [ some status ↦ status | none ↦ free ]

answer-free :
    (o : Outcome (Option CellStatus))
    → ((v : CellStatus) → o ≡ ok (some v) → v ≢ free)
    → ((o >>= λ found. ok (answer found)) ≡ ok free) ↔ (o ≡ ok none)
answer-free (ok none) h = (λ _. refl, λ _. refl)
answer-free (ok (some v)) h = ground (arith, h v refl)
answer-free (fault f) h = ground arith

module _ ⦃p : Platform⦄ where
  open p use {Double, Tree, literal, add, neg, le, vadd, vscale, resolution}

  -- The loop over one axis, and what it needs to end.
  abbrev pub Counts : ℕ → Double → Double → List Double → Type 0
  Counts fuel half disc xs =
      Ends (λ a. le a half) (λ a. add a disc) fuel (neg half)
      × (visited fuel (λ a. le a half) (λ a. add a disc) (neg half) ≡ ok xs)

  module _ (w : OctomapWorld) (start end : Vec3 Double) where
    check_offset-none :
        (offset : Vec3 Double)
        → (check_offset w start end offset ≡ ok none)
          ↔ (get_line_status w (vadd start offset) (vadd end offset) ≡ ok free)
    unfolding check_offset
    check_offset-none offset =
        elim (Outcome-cases (get_line_status w (vadd start offset) (vadd end offset))) [
          | inl (free, e) ↦ ground (arith, e)
          | inl (CellStatus.occupied, e) ↦ ground (arith, e)
          | inl (CellStatus.unknown, e) ↦ ground (arith, e)
          | inr (f, e) ↦ ground (arith, e)
        ]

    check_offset-NeverFree :
        (offset : Vec3 Double) (v : CellStatus)
        → check_offset w start end offset ≡ ok (some v)
        → v ≢ free
    unfolding check_offset
    check_offset-NeverFree offset v h =
        elim (Outcome-cases (get_line_status w (vadd start offset) (vadd end offset))) [
          | inl (free, e) ↦ ground (arith, e)
          | inl (CellStatus.occupied, e) ↦ ground (arith, e)
          | inl (CellStatus.unknown, e) ↦ ground (arith, e)
          | inr (f, e) ↦ ground (arith, e)
        ]

    module _ (fuel : ℕ) (t : Tree) (size : Vec3 Double) (xs ys zs : List Double) where
      abbrev pub half_size : Vec3 Double
      half_size = vscale size (literal 5 1)

      abbrev pub disc : Double → Double
      disc side = discretization (resolution t) side

      -- The line at an offset is free.
      abbrev pub IsFreeAt : Double → Double → Double → Type 0
      IsFreeAt x y z =
          let offset = vec x y z in
          get_line_status w (vadd start offset) (vadd end offset) ≡ ok free

      abbrev along_z : Double → Double → Outcome (Option CellStatus)
      along_z x y =
          for_return fuel (λ z. le z half_size.z) (λ z. add z (disc size.z))
            (λ z. check_offset w start end (vec x y z)) (neg half_size.z)

      abbrev along_y : Double → Outcome (Option CellStatus)
      along_y x =
          for_return fuel (λ y. le y half_size.y) (λ y. add y (disc size.y)) (along_z x)
            (neg half_size.y)

      abbrev along_x : Outcome (Option CellStatus)
      along_x =
          for_return fuel (λ x. le x half_size.x) (λ x. add x (disc size.x)) along_y
            (neg half_size.x)

      along_x-NeverFree : (v : CellStatus) → along_x ≡ ok (some v) → v ≢ free
      along_x-NeverFree =
          for_return-NeverFree _ _ along_y
            (λ x.
              for_return-NeverFree _ _ (along_z x)
                (λ y. for_return-NeverFree _ _ _ (λ z. check_offset-NeverFree (vec x y z)) fuel _)
                fuel _)
            fuel _

      along_x-none :
          Counts fuel half_size.x (disc size.x) xs
          → Counts fuel half_size.y (disc size.y) ys
          → Counts fuel half_size.z (disc size.z) zs
          → (along_x ≡ ok none) ↔ All (λ x. All (λ y. All (λ z. IsFreeAt x y z) zs) ys) xs
      along_x-none (ex, sx) (ey, sy) (ez, sz) =
          let for_z : (x y : Double) → (along_z x y ≡ ok none) ↔ All (λ z. IsFreeAt x y z) zs =
            λ x y.
              let h =
                for_return-visited _ _ (λ z. check_offset w start end (vec x y z)) fuel _ zs ez
                  sz in
              let i =
                All-iff (λ z. check_offset w start end (vec x y z) ≡ ok none) (λ z. IsFreeAt x y z)
                  (λ z. check_offset-none (vec x y z)) zs in
              (λ a. i.0 (h.0 a), λ b. h.1 (i.1 b)) in
          let for_y : (x : Double)
              → (along_y x ≡ ok none) ↔ All (λ y. All (λ z. IsFreeAt x y z) zs) ys =
            λ x.
              let h = for_return-visited _ _ (along_z x) fuel _ ys ey sy in
              let i =
                All-iff (λ y. along_z x y ≡ ok none) (λ y. All (λ z. IsFreeAt x y z) zs) (for_z x)
                  ys in
              (λ a. i.0 (h.0 a), λ b. h.1 (i.1 b)) in
          let h = for_return-visited _ _ along_y fuel _ xs ex sx in
          let i =
            All-iff (λ x. along_y x ≡ ok none) (λ x. All (λ y. All (λ z. IsFreeAt x y z) zs) ys)
              for_y xs in
          (λ a. i.0 (h.0 a), λ b. h.1 (i.1 b))

      -- If the octree is there and the loops over the three axes end within the fuel, then
      -- `getLineStatusBoundingBox` answers free exactly if `getLineStatus` answers free for the line
      -- shifted by each offset of the grid that the loops visit.
      pub get_line_status_bounding_box_free :
          w.octree ≡ some t
          → Counts fuel half_size.x (disc size.x) xs
          → Counts fuel half_size.y (disc size.y) ys
          → Counts fuel half_size.z (disc size.z) zs
          → (get_line_status_bounding_box fuel w start end size ≡ ok free)
            ↔ All (λ x. All (λ y. All (λ z. IsFreeAt x y z) zs) ys) xs
      unfolding get_line_status_bounding_box
      get_line_status_bounding_box_free here cx cy cz =
          ground (arith, here, along_x-none cx cy cz, answer-free along_x along_x-NeverFree)

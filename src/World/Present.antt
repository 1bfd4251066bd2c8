-- ===== src/World/Present.antt =====
-- The octree of `OctomapWorld` while its operations run (octomap_world/src/octomap_world.cc).
pub mod Operations
use volumetric_mapping.Common.{ℕ, zero, suc, ◌≡◌, refl, Bool, some, List, [], ◌∷◌}
use volumetric_mapping.Outcome.{Outcome, ◌>>=◌}
use volumetric_mapping.Outcome.Holds.{Holds, Fine, >>=-Fine, if-Holds}
use volumetric_mapping.Platform.{Platform, Vec3}
use volumetric_mapping.Loop.{visited, collect, steps, grid}
use volumetric_mapping.World.{BoundHandling, OctomapWorld, tree_of}
use volumetric_mapping.World.Region.{
  box_positions, set_boxes, set_values, set_log_odds_bounding_box, set_free, set_occupied,
  set_free_at, set_occupied_at,
}

module _ ⦃p : Platform⦄ where
  open p use {Double, Tree, Node, Binary, resolution}

  abbrev pub HasOctree : OctomapWorld → Type 0
  HasOctree w = (t : Tree) × (w.octree ≡ some t)

  -- An operation that begins with `octree_->`.
  pub tree_of-Holds :
      {B : Type 0} (Q : B → Type 0) (w : OctomapWorld) (next : Tree → Outcome B)
      → HasOctree w
      → ((t : Tree) → Holds Q (next t))
      → Holds Q (tree_of w >>= next)
  tree_of-Holds Q w next (t, here) n = rw here (n t)

  visited-Fine :
      {A : Type 0} (fuel : ℕ) (test : A → Bool) (next : A → A) (a : A)
      → Fine (visited fuel test next a)
  unfolding visited
  visited-Fine zero test next a = tt
  visited-Fine (suc fuel) test next a =
      let rest = visited-Fine fuel test next (next a) in
      if-Holds _ (test a) _ _ (>>=-Fine _ (visited fuel test next (next a)) _ rest (λ _. tt)) tt

  collect-Fine :
      {A B : Type 0} (as' : List A) (f : A → Outcome (List B))
      → ((a : A) → Fine (f a))
      → Fine (collect as' f)
  unfolding collect
  collect-Fine [] f h = tt
  collect-Fine (a ∷ more) f h =
      let rest = collect-Fine more f h in
      >>=-Fine _ (f a) _ (h a) (λ bs. >>=-Fine _ (collect more f) _ rest (λ cs. tt))

  pub grid-Fine : (fuel : ℕ) (lo hi : Vec3 Double) (step : Double) → Fine (grid fuel lo hi step)
  unfolding grid steps
  grid-Fine fuel lo hi step =
      >>=-Fine _ (steps fuel lo.x hi.x step) _ (visited-Fine fuel _ _ lo.x) (λ xs.
        collect-Fine xs _ (λ x.
          >>=-Fine _ (steps fuel lo.y hi.y step) _ (visited-Fine fuel _ _ lo.y) (λ ys.
            collect-Fine ys _ (λ y.
              >>=-Fine _ (steps fuel lo.z hi.z step) _ (visited-Fine fuel _ _ lo.z) (λ zs. tt)))))

  set_boxes-Fine :
      (fuel : ℕ) (size : Vec3 Double) (a : Double) (method : BoundHandling)
      (ps : List (Vec3 Double)) (t : Tree)
      → Fine (set_boxes fuel size a method ps t)
  unfolding set_boxes box_positions
  set_boxes-Fine fuel size a method [] t = tt
  set_boxes-Fine fuel size a method (position ∷ ps) t =
      >>=-Fine _ (box_positions fuel t position size method) _ (grid-Fine fuel _ _ (resolution t))
        (λ vs. set_boxes-Fine fuel size a method ps (set_values a vs t))

  set_log_odds-HasOctree :
      (fuel : ℕ) (ps : List (Vec3 Double)) (size : Vec3 Double) (a : Double)
      (method : BoundHandling) (w : OctomapWorld)
      → HasOctree w
      → Holds HasOctree (set_log_odds_bounding_box fuel ps size a method w)
  unfolding set_log_odds_bounding_box
  set_log_odds-HasOctree fuel ps size a method w h = tree_of-Holds HasOctree w _ h (λ t.
      >>=-Fine HasOctree (set_boxes fuel size a method ps t) _
        (set_boxes-Fine fuel size a method ps t) (λ t'. (p.update_inner_occupancy t', refl)))

  pub set_free_at-HasOctree :
      (fuel : ℕ) (v size : Vec3 Double) (method : BoundHandling) (w : OctomapWorld)
      → HasOctree w
      → Holds HasOctree (set_free_at fuel v size method w)
  unfolding set_free_at set_free
  set_free_at-HasOctree fuel v size method w h =
      tree_of-Holds HasOctree w _ h (λ t. set_log_odds-HasOctree fuel (v ∷ []) size _ method w h)

  pub set_occupied_at-HasOctree :
      (fuel : ℕ) (v size : Vec3 Double) (method : BoundHandling) (w : OctomapWorld)
      → HasOctree w
      → Holds HasOctree (set_occupied_at fuel v size method w)
  unfolding set_occupied_at set_occupied
  set_occupied_at-HasOctree fuel v size method w h =
      tree_of-Holds HasOctree w _ h (λ t. set_log_odds-HasOctree fuel (v ∷ []) size _ method w h)

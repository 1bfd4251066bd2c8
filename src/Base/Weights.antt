-- ===== src/Base/Weights.antt =====
-- The weights of points, and the dispatch on them.
use mathlib.Core.List.{append_assoc}
use volumetric_mapping.Common.{
  ℕ, ◌+◌, ◌≡◌, ◌≢◌, refl, ap, sym, ◌∙◌, Option, none, some, List, [], ◌∷◌, ◌++◌, map, replicate,
  set, length, length-append, arith,
}
use volumetric_mapping.Outcome.{ok}
use volumetric_mapping.Platform.{Platform, Vec3}
use volumetric_mapping.Base.{
  PointWeighing, Map, Matrix4, Image, write_weights, compute_weights, insert_pointcloud,
  insert_disparity_image, is_point_weighing_set, insert_pointcloud_into_map_with_weights_impl,
  insert_projected_disparity_into_map_with_weights_impl,
}

module _ ⦃p : Platform⦄ where
  open p use {Double, Transformation, literal, lt, sub}

  abbrev pub point_weight : PointWeighing Double → Vec3 Double → Double
  point_weight weighing v = weighing.compute_weight_for_point v.x v.y v.z

  set-middle :
      (done : List Double) (old new : Double) (more : List Double)
      → set (done ++ old ∷ more) (length done) new ≡ done ++ new ∷ more
  set-middle [] old new more = refl
  set-middle (x ∷ done) old new more = ap (◌∷◌ x) (set-middle done old new more)

  -- The loop writes what a map gives, behind what it has written already.
  write_weights_lem :
      (weighing : PointWeighing Double) (cloud : List (Vec3 Double)) (done : List Double) (n : ℕ)
      → n ≡ length done
      → write_weights weighing cloud n (done ++ replicate (length cloud) (literal 1 0))
        ≡ done ++ map (point_weight weighing) cloud
  unfolding write_weights
  write_weights_lem weighing [] done n e = refl
  write_weights_lem weighing (v ∷ vs) done n e =
      let weight = point_weight weighing v in
      let ones = replicate (length vs) (literal 1 0) in
      let next = done ++ weight ∷ [] in
      let placed : set (done ++ literal 1 0 ∷ ones) n weight ≡ next ++ ones =
        rw e (
          set-middle done (literal 1 0) weight ones ∙ sym (append_assoc done (weight ∷ []) ones)) in
      let longer : n + 1 ≡ length next = omega (arith, length-append {0} done (weight ∷ [])) in
      rw placed (
        write_weights_lem weighing vs next (n + 1) longer
        ∙ append_assoc done (weight ∷ []) (map (point_weight weighing) vs))

  abbrev pub weight_by : Option (PointWeighing Double) → Vec3 Double → Double
  weight_by none v = literal 1 0
  weight_by (some weighing) v = point_weight weighing v

  -- `computeWeights` gives each point of a cloud the weight that the installed object gives it, in
  -- order, or 1 if no object is installed.
  compute_weights_lem :
      (weighing : Option (PointWeighing Double)) (cloud : List (Vec3 Double))
      → compute_weights weighing cloud ≡ map (weight_by weighing) cloud
  unfolding compute_weights
  compute_weights_lem none [] = refl
  compute_weights_lem none (v ∷ vs) = ap (◌∷◌ (literal 1 0)) (compute_weights_lem none vs)
  compute_weights_lem (some weighing) cloud = write_weights_lem weighing cloud [] 0 refl

  -- If an object for weights is installed, then inserting a point cloud or a disparity image leaves
  -- the map of an `OctomapWorld` unchanged: the measurement is dropped.
  pub insert_weighted_dropped :
      (m : Map) (T : Transformation) (cloud : List (Vec3 Double))
      (reproject : Image Double → Matrix4 Double → List (Vec3 Double)) (disparity : Image Double)
      (q : Matrix4 Double) (width : Double)
      → m.point_weighing ≢ none
      → (insert_pointcloud T cloud m ≡ ok m)
        × (insert_disparity_image reproject T disparity q width m ≡ ok m)
  unfolding insert_pointcloud insert_disparity_image is_point_weighing_set
      insert_pointcloud_into_map_with_weights_impl
      insert_projected_disparity_into_map_with_weights_impl
  insert_weighted_dropped m T cloud reproject disparity q width h = ground arith

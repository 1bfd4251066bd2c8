-- ===== src/Manager/Services/Insertion.antt =====
-- A point cloud that comes with a matching transform of the queue, up to the cells that change.
use volumetric_mapping.Common.{
  ℕ, ◌≡◌, refl, false, Option, none, some, List, Any, ap, inl, inr, arith,
}
use Prim.Native.String.{String}
use volumetric_mapping.Outcome.{Outcome, ok}
use volumetric_mapping.Platform.{Platform, Vec3, Key}
use volumetric_mapping.Platform.CellMap.{CellMap}
use volumetric_mapping.Vector.{point_eigen_to_octomap}
use volumetric_mapping.World.{with_tree}
use volumetric_mapping.World.Insert.Measurement.{Measured, insert_pointcloud_into_map_impl-Measured}
use volumetric_mapping.Base.{insert_pointcloud, is_point_weighing_set}
use volumetric_mapping.Manager.{OctomapManager, TransformQueue}
use volumetric_mapping.Manager.Publish.{Topic}
use volumetric_mapping.Manager.Transforms.{Tf, chain, lookup_transform}
use volumetric_mapping.Manager.Transforms.Matching.{
  QueueMatch, matched, IsNear, IsSorted, lookup_transform_queue_lem,
  lookup_transform_queue_complete,
}
use volumetric_mapping.Manager.Services.{world_of, with_world, insert_pointcloud_with_tf}

module _ ⦃p : Platform⦄ {M : Type 0} (fuel : ℕ) (tf : Tf) (subscribers : Topic → ℕ) where
  open p use {Double, Tree, Transformation, coord_to_key, coord_to_key_checked}

  -- The node after the insertion: the queue is cut before the match, the rest is as before.
  abbrev pub Inserted :
      CellMap
      → OctomapManager M
      → Tree
      → ℕ
      → List (Vec3 Double)
      → Outcome (OctomapManager M)
      → Type 0
  Inserted cells m t stamp points outcome =
      (r : QueueMatch stamp m.transforms) × (t' : Tree) × (outcome
        ≡ ok (
            with_world (record m { transforms = (matched stamp m.transforms r).0 })
              (with_tree (world_of m) t')))
      × (let T = chain m.transforms r.head.transform in
          Measured cells (world_of m) t (point_eigen_to_octomap (p.position T))
            (p.transform_cloud T (p.remove_nan points)) (ok (with_tree (world_of m) t')))

  -- If transforms come as messages, no object for weights is installed, the octree is there, is a
  -- map of cells as documented and has checked keys that agree with the unchecked ones, and the
  -- queue is sorted by time stamp and holds a message less than the tolerance away from the stamp
  -- of a cloud, then `insertPointcloudWithTf` succeeds: it cuts the queue before the matching
  -- message, and it changes the cells of the octree, and nothing else of the node, as the insertion
  -- of the cloud at the pose of the matching message does: one hit for the cells of the points in
  -- range, one miss for the other cells on the rays.
  pub insert_pointcloud_with_tf-Inserted :
      (cells : CellMap) (m : OctomapManager M) (t : Tree) (frame_id : String) (stamp : ℕ)
      (points : List (Vec3 Double))
      → m.use_tf_transforms ≡ false
      → m.map.point_weighing ≡ none
      → (world_of m).octree ≡ some t
      → ((v : Vec3 Double) (k : Key) → coord_to_key_checked t v ≡ some k → coord_to_key t v ≡ k)
      → IsSorted m.transforms.transform_queue
      → Any (IsNear m.transforms.timestamp_tolerance_ns stamp) m.transforms.transform_queue
      → Inserted cells m t stamp points
          (insert_pointcloud_with_tf fuel tf subscribers frame_id stamp points m)
  unfolding insert_pointcloud_with_tf lookup_transform insert_pointcloud is_point_weighing_set
  insert_pointcloud_with_tf-Inserted cells m t frame_id stamp points queued plain here agree sorted
        near =
      let found = (lookup_transform_queue_complete stamp m.transforms sorted).1 near in
      elim (lookup_transform_queue_lem stamp m.transforms) [
        | inl e ↦ absurd (found (ap (λ (x : TransformQueue × Option Transformation). x.1) e))
        | inr (r, e) ↦
            let T = chain m.transforms r.head.transform in
            let (t', done, values) =
              insert_pointcloud_into_map_impl-Measured cells (world_of m) t here agree T points in
            (r, t', ground (arith, e, done), (t', refl, values))
      ]

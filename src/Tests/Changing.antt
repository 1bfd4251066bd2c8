-- ===== src/Tests/Changing.antt =====
-- The changes of the map of `OctomapWorld`, on the small map.
use volumetric_mapping.Common.{◌≡◌, refl, Bool, List, [], ◌∷◌, inl, inr, arith}
use volumetric_mapping.Common.Int.{ℤ, pos, negsuc, ◌+ℤ◌, ◌-ℤ◌, ◌*ℤ◌, floor_div}
use volumetric_mapping.Outcome.{ok, fault, null_node}
use volumetric_mapping.Platform.Flat.{flat, point}
use volumetric_mapping.Platform.{Vec3}
use volumetric_mapping.Vector.{constant, point_eigen_to_octomap}
use volumetric_mapping.Loop.{grid}
use volumetric_mapping.Loop.Lattice.{lattice, grid-lattice}
use volumetric_mapping.KeySet.{key_eq}
use volumetric_mapping.World.{default, with_tree}
use volumetric_mapping.World.Insert.{
  disparity_points, insert_pointcloud_into_map_impl, insert_projected_disparity_into_map_impl,
}
use volumetric_mapping.World.Insert.Measurement.{
  Measured, insert_pointcloud_into_map_impl-Measured,
  insert_projected_disparity_into_map_impl-Measured,
}
use volumetric_mapping.World.Region.{adjust_bounding_box, set_free, set_occupied}
use volumetric_mapping.World.Region.Values.{boxes_positions, Sets, set_free-Sets, set_occupied-Sets}
use volumetric_mapping.World.Changes.{get_changed_points}
use volumetric_mapping.World.Markers.{generate_marker_array}
use volumetric_mapping.World.Markers.Points.{Shows, generate_marker_array-Shows}
use volumetric_mapping.World.Changes.Response.{
  all_changes, get_changed_points-All, get_changed_points_absent,
}
use volumetric_mapping.World.Inflate.{convert_unknown_to_free_within}
use volumetric_mapping.World.Inflate.Freed.{Filled, convert_unknown_to_free_within-Filled}
use volumetric_mapping.Tests.Sample.{
  origin_key, tree, world, in_obstacle, in_free, small_box, lost_world, lost_tree,
}
use volumetric_mapping.Tests.Cells.{flat_cells}

grid-lattice_example :
    grid 4 in_obstacle in_free (pos 100) ≡ ok (lattice 2 1 1 in_obstacle (pos 100))
unfolding ◌+ℤ◌
grid-lattice_example =
    grid-lattice 4 2 1 1 in_obstacle in_free (pos 100) ((refl, (refl, tt)), refl) ((refl, tt), refl)
      ((refl, tt), refl) (omega arith) (omega arith) (omega arith)

insert_pointcloud_into_map_impl-Measured_example :
    Measured flat_cells world tree
      (point_eigen_to_octomap in_free)
      (in_obstacle ∷ [])
      (insert_pointcloud_into_map_impl in_free (point (negsuc 99) (pos 0) (pos 0) ∷ []) world)
unfolding ◌+ℤ◌
insert_pointcloud_into_map_impl-Measured_example =
    insert_pointcloud_into_map_impl-Measured flat_cells world tree refl (λ v k e. cc) in_free
      (point (negsuc 99) (pos 0) (pos 0) ∷ [])

insert_projected_disparity_into_map_impl-Measured_example :
    Measured flat_cells world tree
      (point_eigen_to_octomap (flat.transform in_free (constant (flat.literal 0 0))))
      (disparity_points in_free (point (negsuc 99) (pos 0) (pos 0) ∷ []))
      (insert_projected_disparity_into_map_impl in_free
        (point (negsuc 99) (pos 0) (pos 0) ∷ [])
        world)
insert_projected_disparity_into_map_impl-Measured_example =
    insert_projected_disparity_into_map_impl-Measured flat_cells world tree refl (λ v k e. cc)
      in_free (point (negsuc 99) (pos 0) (pos 0) ∷ [])

set_free-Sets_example :
    (vs : List (Vec3 ℤ)) × (boxes_positions 2 tree small_box default (in_obstacle ∷ []) ≡ ok vs)
    × Sets flat_cells world tree
        (negsuc 1999)
        vs
        (set_free 2 (in_obstacle ∷ []) small_box default world)
unfolding adjust_bounding_box ◌+ℤ◌ ◌-ℤ◌ ◌*ℤ◌ floor_div
set_free-Sets_example =
    set_free-Sets flat_cells 2 (in_obstacle ∷ []) small_box default world tree refl
      ((inr (refl, inl refl), inr (refl, inl refl), inr (refl, inl refl)), tt)

set_occupied-Sets_example :
    (vs : List (Vec3 ℤ)) × (boxes_positions 2 tree small_box default (in_obstacle ∷ []) ≡ ok vs)
    × Sets flat_cells world tree
        (pos 3500)
        vs
        (set_occupied 2 (in_obstacle ∷ []) small_box default world)
unfolding adjust_bounding_box ◌+ℤ◌ ◌-ℤ◌ ◌*ℤ◌ floor_div
set_occupied-Sets_example =
    set_occupied-Sets flat_cells 2 (in_obstacle ∷ []) small_box default world tree refl
      ((inr (refl, inl refl), inr (refl, inl refl), inr (refl, inl refl)), tt)

get_changed_points-All_example :
    get_changed_points Bool.true world
    ≡ ok (
      with_tree world (flat.reset_change_detection tree),
      all_changes Bool.true tree (origin_key ∷ []),
    )
unfolding key_eq
get_changed_points-All_example = get_changed_points-All Bool.true world tree refl ((λ e. cc), tt)

get_changed_points_absent_example : get_changed_points Bool.true lost_world ≡ fault null_node
unfolding key_eq
get_changed_points_absent_example =
    get_changed_points_absent Bool.true lost_world lost_tree refl (λ h. h.0 refl)

generate_marker_array-Shows_example :
    Shows world tree (generate_marker_array "world" ([], []) world)
generate_marker_array-Shows_example =
    generate_marker_array-Shows "world" world tree refl (omega arith, (omega arith, tt))

convert_unknown_to_free_within-Filled_example :
    Filled flat_cells world tree
      (point (pos 51) (pos 51) (pos 51))
      (point (pos 149) (pos 49) (pos 49))
      3
      (convert_unknown_to_free_within 3 in_obstacle in_free world)
unfolding ◌+ℤ◌ ◌-ℤ◌
convert_unknown_to_free_within-Filled_example =
    convert_unknown_to_free_within-Filled flat_cells 3 in_obstacle in_free world tree refl
      (inr (refl, inl refl), inl refl, inl refl)

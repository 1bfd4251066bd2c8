-- ===== src/Tests/Clouds.antt =====
-- The points of a map whose occupied leaf is larger than a smallest cell.
use mathlib.Core.List.{flat_map}
use volumetric_mapping.Common.{◌≡◌, refl, inr, some, [], ◌∷◌, arith}
use volumetric_mapping.Common.Int.{pos, ◌+ℤ◌, ◌-ℤ◌, ◌*ℤ◌, floor_div}
use volumetric_mapping.Outcome.{ok}
use volumetric_mapping.Platform.{Platform}
use volumetric_mapping.Platform.Flat.{flat, leaf_of, point, cells_map}
use volumetric_mapping.World.{OctomapWorld, default_parameters}
use volumetric_mapping.World.Clouds.{get_occupied_point_cloud}
use volumetric_mapping.World.Clouds.Filled.{cell_centers, get_occupied_point_cloud-cell_centers}
use volumetric_mapping.Tests.Sample.{origin_key, tree}

-- The leafs at depth 16 are not the smallest cells.
abbrev deep : Platform
deep = record flat { octomap = record cells_map { tree_depth = λ t. 17 } }

abbrev deep_world : OctomapWorld ⦃p = deep⦄
deep_world = record {
  octree = some tree;
  params = default_parameters ⦃p = deep⦄;
  robot_size = point (pos 50) (pos 50) (pos 50);
}

get_occupied_point_cloud-cell_centers_example :
    get_occupied_point_cloud ⦃p = deep⦄ 3 deep_world
    ≡ ok (flat_map (cell_centers ⦃p = deep⦄ tree) (leaf_of tree (origin_key, pos 850) ∷ []))
unfolding ◌+ℤ◌ ◌-ℤ◌ ◌*ℤ◌ floor_div
get_occupied_point_cloud-cell_centers_example =
    get_occupied_point_cloud-cell_centers ⦃p = deep⦄ 3 deep_world tree refl (
      inr (
        omega arith,
        ((refl, (refl, tt)), refl),
        ((refl, (refl, tt)), refl),
        ((refl, (refl, tt)), refl),
      ),
      tt,
    )

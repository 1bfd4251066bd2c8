-- ===== src/Tests/Sample.antt =====
-- A small map for the examples: cells of 0.1 m, one occupied and one free.
use volumetric_mapping.Common.{some, [], ◌∷◌}
use volumetric_mapping.Common.Int.{ℤ, pos, negsuc}
use volumetric_mapping.Platform.{Vec3, Key}
use volumetric_mapping.Platform.Flat.{flat, FlatTree, point}
use volumetric_mapping.World.{OctomapWorld, default_parameters}

abbrev pub origin_key : Key
origin_key = record { k0 = 32768; k1 = 32768; k2 = 32768 }

abbrev pub next_key : Key
next_key = record { k0 = 32769; k1 = 32768; k2 = 32768 }

abbrev pub tree : FlatTree
tree = record {
  cell_size = pos 100;
  cells = (origin_key, pos 850) ∷ (next_key, negsuc 399) ∷ [];
  changes = origin_key ∷ [];
}

abbrev pub world : OctomapWorld
world = record {
  octree = some tree;
  params = default_parameters;
  robot_size = point (pos 50) (pos 50) (pos 50);
}

-- Centers of the occupied cell, of the free cell and of a cell that is not in the map.
abbrev pub in_obstacle : Vec3 ℤ
in_obstacle = point (pos 50) (pos 50) (pos 50)

abbrev pub in_free : Vec3 ℤ
in_free = point (pos 150) (pos 50) (pos 50)

abbrev pub small_box : Vec3 ℤ
small_box = point (pos 40) (pos 40) (pos 40)

-- A map whose tree remembers a change of a cell that it no longer has.
abbrev pub lost_tree : FlatTree
lost_tree = record { cell_size = pos 100; cells = []; changes = origin_key ∷ [] }

abbrev pub lost_world : OctomapWorld
lost_world = record {
  octree = some lost_tree;
  params = default_parameters;
  robot_size = point (pos 50) (pos 50) (pos 50);
}

-- ===== src/Vector.antt =====
-- Vectors with three equal coordinates, the conversions between the vector types of Eigen and of
-- OctoMap, and the tests that the code writes over single coordinates
-- (octomap_world/src/octomap_world.cc).
use volumetric_mapping.Common.{if◌then◌else◌}
use volumetric_mapping.Platform.{Platform, Vec3}

abbrev pub vec : {A : Type 0} → A → A → A → Vec3 A
vec a b c = record { x = a; y = b; z = c }

-- `Eigen::Vector3d::Constant(a)`.
abbrev pub constant : {A : Type 0} → A → Vec3 A
constant a = vec a a a

module _ ⦃p : Platform⦄ where
  open p use {Double, literal, lt, to_float}

  -- `octomap::point3d` holds floats.
  abbrev pub point_eigen_to_octomap : Vec3 Double → Vec3 Double
  point_eigen_to_octomap v = vec (to_float v.x) (to_float v.y) (to_float v.z)

  abbrev pub point_octomap_to_eigen : Vec3 Double → Vec3 Double
  point_octomap_to_eigen v = vec v.x v.y v.z

  -- `const double epsilon = 0.001` and the vector `epsilon_3d`.
  abbrev pub epsilon : Double
  epsilon = literal 1 3

  abbrev pub epsilon_3d : Vec3 Double
  epsilon_3d = constant epsilon

  abbrev pub two : Double
  two = literal 2 0

  -- `std::min` and `std::max`.
  abbrev pub min : Double → Double → Double
  min a b = if lt b a then b else a

  abbrev pub max : Double → Double → Double
  max a b = if lt a b then b else a

-- ===== src/Tests/Coarse.antt =====
-- The search for a free point, the borders of the map, writing and reading cells, and when Q is known,
-- on small inputs.
use volumetric_mapping.Common.{
  Option, ℕ, zero, suc, ◌≡◌, refl, Bool, true, false, not, ◌&&◌, ◌||◌, some, List, [], ◌∷◌, All,
  inl, inr, if◌then◌else◌, Bool-cases, arith,
}
use volumetric_mapping.Common.Int.{ℤ, pos, negsuc, ltb_ℤ, leb_ℤ, ◌+ℤ◌, ◌-ℤ◌, ◌*ℤ◌, floor_div}
use volumetric_mapping.Outcome.{ok}
use volumetric_mapping.Platform.{Key, Vec3}
use volumetric_mapping.Platform.Flat.{flat, FlatTree, point, lower, upper}
use volumetric_mapping.KeySet.{key_eq}
use volumetric_mapping.Loop.Rules.{Ends}
use volumetric_mapping.World.{
  OctomapWorld, default, default_parameters, include_partial_boxes, with_tree,
}
use volumetric_mapping.World.Status.{free, get_cell_status_point}
use volumetric_mapping.World.Region.{
  align, adjust_bounding_box, get_map_size, get_map_center, set_borders_occupied, set_free,
}
use volumetric_mapping.World.Region.Values.{boxes_positions, reaches}
use volumetric_mapping.World.Region.ReadBack.{Shown, set_occupied-get_cell_status_point}
use volumetric_mapping.Manager.Camera.Once.{left, right, receive_all}
use volumetric_mapping.Manager.Camera.Known.{receive_all-known}
use volumetric_mapping.Tests.Node.{model, info, waiting}
use volumetric_mapping.World.Region.Slabs.{
  Slab, low_x, high_x, low_y, high_y, low_z, high_z, slabs, SlabEnds, slab_positions, centered,
}
use volumetric_mapping.World.Region.Borders.{set_borders_occupied-Sets}
use mathlib.Core.Quot
use volumetric_mapping.World.Insert.Unordered.{
  UnorderedKeys, UniqueKeys, value_after, update_occupancy_unordered,
}
use volumetric_mapping.World.Nearest.{get_nearest_free_point}
use volumetric_mapping.World.Nearest.Minimal.{StrictOrder}
use volumetric_mapping.World.Boxes.{reserve}
use volumetric_mapping.World.Nearest.Inside.{Coordinatewise, IsWide}
use volumetric_mapping.World.Nearest.Search.{Exceeds, IsSearched, get_nearest_free_point-IsSearched}
use volumetric_mapping.Tests.Cells.{flat_cells}
use volumetric_mapping.Tests.Sample.{origin_key, next_key, tree, world, in_obstacle, small_box}

abbrev coarse_tree : FlatTree
coarse_tree = record {
  cell_size = pos 5000;
  cells = (origin_key, pos 850) ∷ (next_key, negsuc 399) ∷ [];
  changes = [];
}

abbrev coarse : OctomapWorld
coarse = record {
  octree = some coarse_tree;
  params = default_parameters;
  robot_size = point (pos 50) (pos 50) (pos 50);
}

abbrev blocked : Vec3 ℤ
blocked = point (pos 2500) (pos 2500) (pos 2500)

ltb_ℤ-irreflexive : (a : ℤ) → ltb_ℤ a a ≡ false
ltb_ℤ-irreflexive a = ground arith

ltb_ℤ-transitive : (a b c : ℤ) → ltb_ℤ a b ≡ true → ltb_ℤ b c ≡ true → ltb_ℤ a c ≡ true
ltb_ℤ-transitive a b c h k = ground arith

abbrev flat_order : StrictOrder
flat_order = record { irreflexive = ltb_ℤ-irreflexive; transitive = ltb_ℤ-transitive }

flat_min : (a b : ℤ) → lower a b ≡ (if ltb_ℤ b a then b else a)
flat_min a b = refl

flat_max : (a b : ℤ) → upper a b ≡ (if ltb_ℤ a b then b else a)
flat_max a b = refl

abbrev flat_coordinatewise : Coordinatewise
flat_coordinatewise = record {
  min_x = λ u v. flat_min u.x v.x;
  min_y = λ u v. flat_min u.y v.y;
  min_z = λ u v. flat_min u.z v.z;
  max_x = λ u v. flat_max u.x v.x;
  max_y = λ u v. flat_max u.y v.y;
  max_z = λ u v. flat_max u.z v.z;
}

coarse-IsWide : (depth : ℕ) → IsWide (flat.node_size coarse_tree depth)
unfolding ◌+ℤ◌ ◌-ℤ◌ ◌*ℤ◌ floor_div
coarse-IsWide depth = refl

coarse-Exceeds :
    Exceeds flat_order flat_coordinatewise blocked 3 coarse_tree (pos 5000) (pos 10_000) (pos 5000)
unfolding reserve ◌+ℤ◌ ◌-ℤ◌ ◌*ℤ◌ floor_div
coarse-Exceeds = inr (refl, inl refl)

get_nearest_free_point-IsSearched_example :
    IsSearched flat_order flat_coordinatewise blocked coarse coarse_tree
      (point (pos 10_000) (pos 10_000) (pos 10_000))
      (get_nearest_free_point 3 coarse blocked)
unfolding get_map_size get_cell_status_point key_eq ◌+ℤ◌ ◌-ℤ◌ ◌*ℤ◌ floor_div
get_nearest_free_point-IsSearched_example =
    get_nearest_free_point-IsSearched flat_order flat_coordinatewise blocked 3 coarse coarse_tree
      (point (pos 10_000) (pos 10_000) (pos 10_000)) refl refl (λ e. cc) coarse-IsWide
      coarse-Exceeds

-- Whether a loop ends within the fuel.
abbrev ends : (ℤ → Bool) → (ℤ → ℤ) → ℕ → ℤ → Bool
ends test next zero a = false
ends test next (suc fuel) a = not (test a) || ends test next fuel (next a)

ends_lem :
    (test : ℤ → Bool) (next : ℤ → ℤ) (fuel : ℕ) (a : ℤ)
    → ends test next fuel a ≡ true
    → Ends test next fuel a
ends_lem test next zero a h = absurd cc
ends_lem test next (suc fuel) a h = elim (Bool-cases (test a)) [
  | inl go ↦ inr (go, ends_lem test next fuel (next a) (ground (arith, go, h)))
  | inr stop ↦ inl stop
]

abbrev center : Vec3 ℤ
center = point (pos 5000) (pos 5000) (pos 5000)

abbrev side : Vec3 ℤ
side = point (pos 10_000) (pos 10_000) (pos 10_000)

abbrev cropping : Vec3 ℤ
cropping = point (pos 1000) (pos 1000) (pos 1000)

abbrev axis_ends : ℤ → ℤ → Bool
axis_ends low high = ends (λ a. leb_ℤ a high) (λ a. a +ℤ pos 5000) 8 low

abbrev slab_ends : Slab → Bool
slab_ends (c, s) =
    let box = adjust_bounding_box coarse_tree c s include_partial_boxes in
    axis_ends box.0.x box.1.x && axis_ends box.0.y box.1.y && axis_ends box.0.z box.1.z

slab_ends_lem : (slab : Slab) → slab_ends slab ≡ true → SlabEnds 8 coarse_tree slab
slab_ends_lem (c, s) h =
    let box = adjust_bounding_box coarse_tree c s include_partial_boxes in
    let x_ends : axis_ends box.0.x box.1.x ≡ true = ground (arith, h) in
    let y_ends : axis_ends box.0.y box.1.y ≡ true = ground (arith, h) in
    let z_ends : axis_ends box.0.z box.1.z ≡ true = ground (arith, h) in
    (
      ends_lem (λ a. leb_ℤ a box.1.x) (λ a. a +ℤ pos 5000) 8 box.0.x x_ends,
      ends_lem (λ a. leb_ℤ a box.1.y) (λ a. a +ℤ pos 5000) 8 box.0.y y_ends,
      ends_lem (λ a. leb_ℤ a box.1.z) (λ a. a +ℤ pos 5000) 8 box.0.z z_ends,
    )

slabs-SlabEnds : All (SlabEnds 8 coarse_tree) (slabs center side cropping)
unfolding adjust_bounding_box align key_eq ◌+ℤ◌ ◌-ℤ◌ ◌*ℤ◌ floor_div
slabs-SlabEnds = (
  slab_ends_lem (low_x center side cropping) refl,
  (
    slab_ends_lem (high_x center side cropping) refl,
    (
      slab_ends_lem (low_y center side cropping) refl,
      (
        slab_ends_lem (high_y center side cropping) refl,
        (
          slab_ends_lem (low_z center side cropping) refl,
          (slab_ends_lem (high_z center side cropping) refl, tt),
        ),
      ),
    ),
  ),
)

set_borders_occupied-Sets_example :
    (vs : List (Vec3 ℤ)) × (t' : FlatTree) × (slab_positions 8 coarse_tree
        (slabs center side cropping)
      ≡ ok vs)
    × (set_borders_occupied 8 cropping coarse ≡ ok (with_tree coarse t'))
    × ((j : Key)
        → flat_cells.value t' j
          ≡ (if centered coarse_tree vs j then some (pos 3500) else flat_cells.value coarse_tree j))
unfolding get_map_center get_map_size ◌+ℤ◌ ◌-ℤ◌ ◌*ℤ◌ floor_div
set_borders_occupied-Sets_example =
    set_borders_occupied-Sets flat_cells 8 cropping coarse coarse_tree center side refl refl refl
      slabs-SlabEnds

found_lem :
    (t : FlatTree) (v : Vec3 ℤ) (k : Key) (a : ℤ)
    → flat.coord_to_key_checked t v ≡ some k
    → flat_cells.value t k ≡ some a
    → (node : ℤ) × (flat.search_coord t v ≡ some node)
      × (flat.is_node_occupied t node ≡ ltb_ℤ (pos 0) a)
found_lem t v k a e h = (a, ground (arith, e, h), refl)

abbrev flat_shown : Shown flat_cells
flat_shown = record {
  over = λ t a. ltb_ℤ (pos 0) a;
  found = found_lem;
  over-set_node_value = λ t v a lazy. refl;
  over-update_inner = λ t. refl;
  checked-update_inner = λ t. refl;
}

set_occupied-get_cell_status_point_example :
    (vs : List (Vec3 ℤ)) × (w' : OctomapWorld) × (boxes_positions 2 tree small_box default
        (in_obstacle ∷ [])
      ≡ ok vs)
    × (set_free 2 (in_obstacle ∷ []) small_box default world ≡ ok w')
    × (get_cell_status_point w' in_obstacle
        ≡ (if reaches tree vs origin_key then ok free else get_cell_status_point world in_obstacle))
unfolding adjust_bounding_box ◌+ℤ◌ ◌-ℤ◌ ◌*ℤ◌ floor_div
set_occupied-get_cell_status_point_example =
    set_occupied-get_cell_status_point flat_cells flat_shown false 2 (in_obstacle ∷ []) small_box
      default world tree in_obstacle origin_key refl
      ((inr (refl, inl refl), inr (refl, inl refl), inr (refl, inl refl)), tt) refl refl refl

-- The first message of the right camera comes after two of the left one.
receive_all-known_example :
    (receive_all (λ l r. model) waiting (left info ∷ left info ∷ right info ∷ [])).q_initialized
    ≡ true
receive_all-known_example =
    receive_all-known (λ l r. model) waiting (left info ∷ left info ∷ right info ∷ []) refl

ℤ-IsSet : IsSet ℤ
ℤ-IsSet = hlevel

update_occupancy_unordered_example :
    (updated : UnorderedKeys → UnorderedKeys → Key → Option ℤ) × ((free occupied : UniqueKeys)
        (j : Key)
      → updated (Quot.mk free) (Quot.mk occupied) j ≡ value_after flat_cells tree free occupied j)
update_occupancy_unordered_example = update_occupancy_unordered flat_cells tree ℤ-IsSet

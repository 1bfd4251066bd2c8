-- ===== src/Platform/Flat.antt =====
-- A platform that runs, for examples: a `double` is a number of thousandths, the octree is a list of
-- cells of one size, and a ray is the cell that it starts in.
use volumetric_mapping.Common.{
  ℕ, ◌+◌, ◌*◌, ◌/◌, ◌%◌, ◌^◌, Bool, true, false, Option, none, some, List, [], ◌∷◌, map, length,
  if◌then◌else◌,
}
use volumetric_mapping.Common.Int.{
  ℤ, pos, negsuc, pos_part, neg_part, ◌+ℤ◌, ◌-ℤ◌, ◌*ℤ◌, floor_div, ltb_ℤ, leb_ℤ, eq_ℤ,
}
use volumetric_mapping.KeySet.{key_eq}
use volumetric_mapping.Platform.{Vec3, Key, Leaf, Floats, Eigen, Octomap, Sensing, Platform}

abbrev pub point : ℤ → ℤ → ℤ → Vec3 ℤ
point a b c = record { x = a; y = b; z = c }

abbrev pub neg_ℤ : ℤ → ℤ
neg_ℤ a = pos 0 -ℤ a

abbrev pub abs_ℤ : ℤ → ℤ
abs_ℤ a = pos (pos_part a + neg_part a)

abbrev pub divide : ℤ → ℤ → ℤ
divide a b = if ltb_ℤ (pos 0) b then floor_div (a *ℤ pos 1000) (pos_part b) else pos 0

abbrev pub round_down : ℤ → ℤ
round_down a = floor_div a 1000 *ℤ pos 1000

abbrev pub lower : ℤ → ℤ → ℤ
lower a b = if ltb_ℤ b a then b else a

abbrev pub upper : ℤ → ℤ → ℤ
upper a b = if ltb_ℤ a b then b else a

abbrev pub thousandths : Floats
thousandths = record {
  Double = ℤ;
  literal = λ m k. pos (m * 1000 / 10 ^ k);
  of_ℕ = λ n. pos (n * 1000);
  of_ℤ = λ a. a *ℤ pos 1000;
  add = ◌+ℤ◌;
  sub = ◌-ℤ◌;
  mul = λ a b. floor_div (a *ℤ b) 1000;
  div = divide;
  neg = neg_ℤ;
  lt = ltb_ℤ;
  le = leb_ℤ;
  eq = eq_ℤ;
  floor = round_down;
  ceil = λ a. neg_ℤ (round_down (neg_ℤ a));
  is_inf = λ a. false;
  to_float = λ a. a;
  to_int = λ a. floor_div a 1000;
  max_double = pos 1_000_000_000;
  min_double = pos 1;
}

abbrev pub zip_with : (ℤ → ℤ → ℤ) → Vec3 ℤ → Vec3 ℤ → Vec3 ℤ
zip_with f u v = point (f u.x v.x) (f u.y v.y) (f u.z v.z)

abbrev pub vectors : Eigen ℤ
vectors = record {
  vadd = zip_with ◌+ℤ◌;
  vsub = zip_with ◌-ℤ◌;
  vscale = λ v a. zip_with (λ b c. floor_div (b *ℤ c) 1000) v (point a a a);
  vdiv = λ v a. zip_with divide v (point a a a);
  norm = λ v. abs_ℤ v.x +ℤ abs_ℤ v.y +ℤ abs_ℤ v.z;
  min_coeff = λ v. lower v.x (lower v.y v.z);
  max_coeff = λ v. upper v.x (upper v.y v.z);
  cwise_min = zip_with lower;
  cwise_max = zip_with upper;
}

-- The cells with their log-odds.
pub record FlatTree : Type 0 where
  pub cell_size : ℤ
  pub cells : List (Key × ℤ)
  pub changes : List Key

abbrev pub find : List (Key × ℤ) → Key → Option ℤ
find [] k = none
find ((j, v) ∷ cells) k = if key_eq j k then some v else find cells k

abbrev pub put : Key → ℤ → List (Key × ℤ) → List (Key × ℤ)
put k v [] = (k, v) ∷ []
put k v ((j, u) ∷ cells) = if key_eq j k then (k, v) ∷ cells else (j, u) ∷ put k v cells

abbrev pub value_or_zero : Option ℤ → ℤ
value_or_zero none = pos 0
value_or_zero (some v) = v

abbrev pub hit_or_miss : Bool → Option ℤ → ℤ
hit_or_miss b o = value_or_zero o +ℤ (if b then pos 850 else negsuc 399)

abbrev pub key_coordinate : ℤ → ℤ → ℕ
key_coordinate size a = pos_part (floor_div a (pos_part size) +ℤ pos 32768) % 65536

abbrev pub key_at : FlatTree → Vec3 ℤ → Key
key_at t v = record {
  k0 = key_coordinate t.cell_size v.x;
  k1 = key_coordinate t.cell_size v.y;
  k2 = key_coordinate t.cell_size v.z;
}

abbrev pub center_coordinate : ℤ → ℕ → ℤ
center_coordinate size k = (pos k -ℤ pos 32768) *ℤ size +ℤ floor_div size 2

abbrev pub center_of : FlatTree → Key → Vec3 ℤ
center_of t k =
    point (center_coordinate t.cell_size k.k0) (center_coordinate t.cell_size k.k1)
      (center_coordinate t.cell_size k.k2)

abbrev pub leaf_of : FlatTree → Key × ℤ → Leaf ℤ ℤ
leaf_of t (k, v) = record {
  node = v;
  key = k;
  center = center_of t k;
  depth = 16;
  size = t.cell_size;
}

abbrev pub unknown_corner : FlatTree → Vec3 ℤ → List (Vec3 ℤ)
unknown_corner t v = elim (find t.cells (key_at t v)) [ none ↦ v ∷ [] | some _ ↦ [] ]

abbrev pub tree_with : FlatTree → List (Key × ℤ) → FlatTree
tree_with t cells = record t { cells = cells }

-- A message says whether it is binary, and holds a tree unless it is of another type.
abbrev pub cells_map : Octomap ℤ
cells_map = record {
  Tree = FlatTree;
  Node = ℤ;
  Message = Bool × Option FlatTree;
  Binary = FlatTree;
  create = λ r. record { cell_size = r; cells = []; changes = [] };
  resolution = λ t. t.cell_size;
  clear = λ t. tree_with t [];
  prune = λ t. t;
  update_inner_occupancy = λ t. t;
  set_prob_hit = λ a t. t;
  set_prob_miss = λ a t. t;
  set_clamping_thres_min = λ a t. t;
  set_clamping_thres_max = λ a t. t;
  set_occupancy_thres = λ a t. t;
  enable_change_detection = λ b t. t;
  clamping_thres_min_log = λ t. negsuc 1999;
  clamping_thres_max_log = λ t. pos 3500;
  search = λ t k. find t.cells k;
  search_coord = λ t v. find t.cells (key_at t v);
  is_node_occupied = λ t v. ltb_ℤ (pos 0) v;
  occupancy = λ v. v;
  update_node = λ k b t. tree_with t (put k (hit_or_miss b (find t.cells k)) t.cells);
  set_node_value = λ v a lazy t. tree_with t (put (key_at t v) a t.cells);
  coord_to_key = key_at;
  coord_to_key_checked = λ t v. some (key_at t v);
  key_to_coord = center_of;
  compute_ray_keys = λ t u v. (true, key_at t u ∷ []);
  leafs = λ t. map (leaf_of t) t.cells;
  leafs_bbx = λ t u v. map (leaf_of t) t.cells;
  leafs_bbx_key = λ t j k. map (leaf_of t) t.cells;
  unknown_leaf_centers = λ t u v. unknown_corner t u;
  metric_min = λ t. point (pos 0) (pos 0) (pos 0);
  metric_max = λ t. point (pos 10_000) (pos 10_000) (pos 10_000);
  node_size = λ t depth. t.cell_size;
  tree_depth = λ t. 16;
  tree_size = λ t. length t.cells;
  changed_keys = λ t. t.changes;
  reset_change_detection = λ t. record t { changes = [] };
  write_binary = λ t. (t, true, t);
  write_binary_const = λ t. (true, t);
  read_binary = λ b t. (true, b);
  point_add = zip_with ◌+ℤ◌;
  point_sub = zip_with ◌-ℤ◌;
  point_scale = λ v a. zip_with (λ b c. floor_div (b *ℤ c) 1000) v (point a a a);
  point_norm = λ v. abs_ℤ v.x +ℤ abs_ℤ v.y +ℤ abs_ℤ v.z;
  point_normalized = λ v. v;
  is_binary = λ m. m.0;
  binary_map_to_msg = λ t. (true, (true, some t));
  full_map_to_msg = λ t. (true, (false, some t));
  binary_msg_to_map = λ m. m.1;
  full_msg_to_map = λ m. m.1;
}

-- A transformation is a translation.
abbrev pub translations : Sensing ℤ
translations = record {
  Transformation = Vec3 ℤ;
  position = λ T. T;
  transform = zip_with ◌+ℤ◌;
  identity = point (pos 0) (pos 0) (pos 0);
  inverse = λ T. point (neg_ℤ T.x) (neg_ℤ T.y) (neg_ℤ T.z);
  compose = zip_with ◌+ℤ◌;
  remove_nan = λ vs. vs;
  transform_cloud = λ T vs. map (zip_with ◌+ℤ◌ T) vs;
}

instance abbrev pub flat : Platform
flat = record { floats = thousandths; eigen = vectors; octomap = cells_map; sensing = translations }

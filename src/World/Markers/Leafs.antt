-- ===== src/World/Markers/Leafs.antt =====
-- The loop of `generateMarkerArray` over the leafs: which points it adds to which marker.
use mathlib.Core.List.{append-nil, append_assoc}
use volumetric_mapping.Common.{
  ℕ, zero, suc, ◌<◌, ◌≡◌, refl, sym, ap, ◌∙◌, Bool, true, false, not, ◌&&◌, ◌||◌, List, [], ◌∷◌,
  ◌++◌, ◌==◌, Bool-cases, inl, inr, All, length, if◌then◌else◌, arith,
}
use volumetric_mapping.Outcome.{ok}
use volumetric_mapping.Platform.{Platform, Vec3, Leaf}
use volumetric_mapping.World.Markers.{
  Color, Marker, MarkerArrays, push_point, add_leaf, add_leafs, percent_to_color,
  colorize_map_by_height,
}

module _ ⦃p : Platform⦄ where
  open p use {
    Double, Tree, Node, lt, leafs, prune, tree_depth, is_node_occupied, metric_min, metric_max,
  }

  -- The points of the marker at an index.
  abbrev pub points_at : List (Marker Double) → ℕ → List (Vec3 Double)
  points_at [] i = []
  points_at (m ∷ ms) zero = m.points
  points_at (m ∷ ms) (suc i) = points_at ms i

  abbrev one_if : Bool → Vec3 Double → List (Vec3 Double)
  one_if b v = if b then v ∷ [] else []

  record Pushed (i : ℕ) (v : Vec3 Double) (c : Color Double) (ms : List (Marker Double))
      : Type 0 where
    result : List (Marker Double)
    done : push_point i v c ms ≡ ok result
    same_length : length result ≡ length ms
    points : (j : ℕ) → points_at result j ≡ points_at ms j ++ one_if (i == j) v

  first-points :
      (v : Vec3 Double) (m m' : Marker Double) (ms : List (Marker Double))
      → m'.points ≡ m.points ++ v ∷ []
      → (j : ℕ) → points_at (m' ∷ ms) j ≡ points_at (m ∷ ms) j ++ one_if (0 == j) v
  first-points v m m' ms e zero = e
  first-points v m m' ms e (suc j) = ground (arith, append-nil (points_at ms j))

  next-points :
      (i : ℕ) (v : Vec3 Double) (m : Marker Double) (ms ms' : List (Marker Double))
      → ((j : ℕ) → points_at ms' j ≡ points_at ms j ++ one_if (i == j) v)
      → (j : ℕ) → points_at (m ∷ ms') j ≡ points_at (m ∷ ms) j ++ one_if (suc i == j) v
  next-points i v m ms ms' h zero = ground (arith, append-nil m.points)
  next-points i v m ms ms' h (suc j) = ground (arith, h j)

  push_point-Pushed :
      (i : ℕ) (v : Vec3 Double) (c : Color Double) (ms : List (Marker Double))
      → i < length ms
      → Pushed i v c ms
  unfolding push_point
  push_point-Pushed i v c [] h = absurd (omega arith)
  push_point-Pushed zero v c (m ∷ ms) h =
      let m' : Marker Double = record m {
        points = m.points ++ v ∷ [];
        colors = m.colors ++ c ∷ [];
      } in
      record {
        result = m' ∷ ms;
        done = refl;
        same_length = refl;
        points = first-points v m m' ms refl;
      }
  push_point-Pushed (suc i) v c (m ∷ ms) h =
      let r = push_point-Pushed i v c ms (omega arith) in
      record {
        result = m ∷ r.result;
        done = rw r.done;
        same_length = ap suc r.same_length;
        points = next-points i v m ms r.result r.points;
      }

  module _ (t : Tree) (min_z max_z : Double) where
    -- A leaf that is shown by the marker `j`, of the occupied (true) or of the free markers.
    abbrev pub is_shown : Bool → ℕ → Leaf Double Node → Bool
    is_shown b j leaf =
        not (lt max_z leaf.center.z || lt leaf.center.z min_z)
        && (if b then is_node_occupied t leaf.node else not (is_node_occupied t leaf.node))
        && leaf.depth == j

    -- The centers of those leafs, in order.
    abbrev pub shown : Bool → ℕ → List (Leaf Double Node) → List (Vec3 Double)
    shown b j [] = []
    shown b j (leaf ∷ more) = one_if (is_shown b j leaf) leaf.center ++ shown b j more

    abbrev pub pick : Bool → MarkerArrays → List (Marker Double)
    pick true arrays = arrays.0
    pick false arrays = arrays.1

    pub record Added (n : ℕ) (ls : List (Leaf Double Node)) (arrays : MarkerArrays) : Type 0 where
      pub result : MarkerArrays
      pub done : add_leafs t min_z max_z ls arrays ≡ ok result
      pub occupied_length : length result.0 ≡ n
      pub free_length : length result.1 ≡ n
      pub points :
          (b : Bool) (j : ℕ)
          → points_at (pick b result) j ≡ points_at (pick b arrays) j ++ shown b j ls

    record AddedOne (n : ℕ) (leaf : Leaf Double Node) (arrays : MarkerArrays) : Type 0 where
      result : MarkerArrays
      done : add_leaf t min_z max_z leaf arrays ≡ ok result
      occupied_length : length result.0 ≡ n
      free_length : length result.1 ≡ n
      points :
          (b : Bool) (j : ℕ)
          → points_at (pick b result) j
            ≡ points_at (pick b arrays) j ++ one_if (is_shown b j leaf) leaf.center

    hidden-points :
        (leaf : Leaf Double Node) (arrays : MarkerArrays)
        → (lt max_z leaf.center.z || lt leaf.center.z min_z) ≡ true
        → (b : Bool) (j : ℕ)
        → points_at (pick b arrays) j
          ≡ points_at (pick b arrays) j ++ one_if (is_shown b j leaf) leaf.center
    hidden-points leaf arrays e b j = rw e (sym (append-nil (points_at (pick b arrays) j)))

    occupied-points :
        (leaf : Leaf Double Node) (arrays : MarkerArrays) (ms : List (Marker Double))
        → (lt max_z leaf.center.z || lt leaf.center.z min_z) ≡ false
        → is_node_occupied t leaf.node ≡ true
        → ((j : ℕ) → points_at ms j ≡ points_at arrays.0 j ++ one_if (leaf.depth == j) leaf.center)
        → (b : Bool) (j : ℕ)
        → points_at (pick b (ms, arrays.1)) j
          ≡ points_at (pick b arrays) j ++ one_if (is_shown b j leaf) leaf.center
    occupied-points leaf arrays ms e o h true j = rw (e, o) (h j)
    occupied-points leaf arrays ms e o h false j =
        rw (e, o) (sym (append-nil (points_at arrays.1 j)))

    free-points :
        (leaf : Leaf Double Node) (arrays : MarkerArrays) (ms : List (Marker Double))
        → (lt max_z leaf.center.z || lt leaf.center.z min_z) ≡ false
        → is_node_occupied t leaf.node ≡ false
        → ((j : ℕ) → points_at ms j ≡ points_at arrays.1 j ++ one_if (leaf.depth == j) leaf.center)
        → (b : Bool) (j : ℕ)
        → points_at (pick b (arrays.0, ms)) j
          ≡ points_at (pick b arrays) j ++ one_if (is_shown b j leaf) leaf.center
    free-points leaf arrays ms e o h false j = rw (e, o) (h j)
    free-points leaf arrays ms e o h true j = rw (e, o) (sym (append-nil (points_at arrays.0 j)))

    add_leaf-AddedOne :
        (n : ℕ) (leaf : Leaf Double Node) (arrays : MarkerArrays)
        → leaf.depth < n
        → length arrays.0 ≡ n
        → length arrays.1 ≡ n
        → AddedOne n leaf arrays
    unfolding add_leaf
    add_leaf-AddedOne n leaf arrays d ho hf =
        let c = percent_to_color (colorize_map_by_height leaf.center.z min_z max_z) in
        elim (Bool-cases (lt max_z leaf.center.z || lt leaf.center.z min_z)) [
          | inl e ↦ record {
            result = arrays;
            done = rw e;
            occupied_length = ho;
            free_length = hf;
            points = hidden-points leaf arrays e;
          }
          | inr e ↦ elim (Bool-cases (is_node_occupied t leaf.node)) [
            | inl o ↦
                let r = push_point-Pushed leaf.depth leaf.center c arrays.0 (omega arith) in
                record {
                  result = (r.result, arrays.1);
                  done = rw (e, o, r.done);
                  occupied_length = r.same_length ∙ ho;
                  free_length = hf;
                  points = occupied-points leaf arrays r.result e o r.points;
                }
            | inr o ↦
                let r = push_point-Pushed leaf.depth leaf.center c arrays.1 (omega arith) in
                record {
                  result = (arrays.0, r.result);
                  done = rw (e, o, r.done);
                  occupied_length = ho;
                  free_length = r.same_length ∙ hf;
                  points = free-points leaf arrays r.result e o r.points;
                }
          ]
        ]

    pub add_leafs-Added :
        (n : ℕ) (ls : List (Leaf Double Node)) (arrays : MarkerArrays)
        → All (λ leaf. leaf.depth < n) ls
        → length arrays.0 ≡ n
        → length arrays.1 ≡ n
        → Added n ls arrays
    unfolding add_leafs
    add_leafs-Added n [] arrays h ho hf = record {
      result = arrays;
      done = refl;
      occupied_length = ho;
      free_length = hf;
      points = λ b j. sym (append-nil (points_at (pick b arrays) j));
    }
    add_leafs-Added n (leaf ∷ more) arrays (d, h) ho hf =
        let one = add_leaf-AddedOne n leaf arrays d ho hf in
        let rest = add_leafs-Added n more one.result h one.occupied_length one.free_length in
        record {
          result = rest.result;
          done = rw (one.done, rest.done);
          occupied_length = rest.occupied_length;
          free_length = rest.free_length;
          points = λ b j.
              rest.points b j
              ∙ (ap (λ vs. vs ++ shown b j more) (one.points b j)
                  ∙ append_assoc (points_at (pick b arrays) j)
                      (one_if (is_shown b j leaf) leaf.center) (shown b j more));
        }

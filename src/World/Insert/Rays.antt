-- ===== src/World/Insert/Rays.antt =====
-- The sets of cells that the rays of a measurement collect.
use volumetric_mapping.Common.{
  ◌≡◌, Bool, true, false, not, ◌||◌, ◌&&◌, Bool-cases, Option-cases, inl, inr, some, List, [], ◌∷◌,
  if◌then◌else◌, arith,
}
use volumetric_mapping.Platform.{Platform, Vec3, Key}
use volumetric_mapping.Platform.CellMap.{is_key}
use volumetric_mapping.KeySet.{
  KeySet, IsKeySet, key_eq, contains, insert, insert_all, contains-insert, insert-IsKeySet,
  contains-of_key_eq,
}
use volumetric_mapping.World.{OctomapParameters}
use volumetric_mapping.World.Insert.{
  Cells, is_free_space, insert_free_space, free_ray, is_in_range, insert_checked, short_end,
  cast_ray, cast_rays,
}

-- Both sets hold each key once.
pub record IsValid (cells : Cells) : Type 0 where
  pub free_valid : IsKeySet cells.free_cells
  pub occupied_valid : IsKeySet cells.occupied_cells

insert_all-IsKeySet : (ks : List Key) (s : KeySet) → IsKeySet s → IsKeySet (insert_all ks s)
unfolding insert_all
insert_all-IsKeySet [] s h = h
insert_all-IsKeySet (k ∷ ks) s h = insert_all-IsKeySet ks (insert k s) (insert-IsKeySet s k h)

module _ ⦃p : Platform⦄ (params : OctomapParameters p.Double) (t : p.Tree)
    (origin : Vec3 p.Double) where
  open p use {Double, coord_to_key, coord_to_key_checked}

  insert_free_space-IsKeySet :
      (ks : List Key) (s : KeySet) → IsKeySet s → IsKeySet (insert_free_space params t origin ks s)
  unfolding insert_free_space
  insert_free_space-IsKeySet [] s h = h
  insert_free_space-IsKeySet (k ∷ ks) s h =
      insert_free_space-IsKeySet ks (if is_free_space params t origin k then insert k s else s)
        (ground (arith, insert-IsKeySet s k h))

  free_ray-IsKeySet :
      (end : Vec3 Double) (s : KeySet) → IsKeySet s → IsKeySet (free_ray params t origin end s)
  unfolding free_ray
  free_ray-IsKeySet end s h =
      let ks = (p.compute_ray_keys t origin end).1 in
      ground (arith, insert_all-IsKeySet ks s h, insert_free_space-IsKeySet ks s h)

  cast_ray-IsValid :
      (point : Vec3 Double) (cells : Cells)
      → IsValid cells
      → IsValid (cast_ray params t origin point cells)
  unfolding cast_ray insert_checked
  cast_ray-IsValid point cells v = elim (Option-cases (coord_to_key_checked t point)) [
    | inl e ↦ ground (
      arith,
      e,
      free_ray-IsKeySet point cells.free_cells v.free_valid,
      free_ray-IsKeySet (short_end params origin point) cells.free_cells v.free_valid,
    )
    | inr (k, e) ↦ ground (
      arith,
      e,
      insert-IsKeySet cells.occupied_cells k v.occupied_valid,
      free_ray-IsKeySet point cells.free_cells v.free_valid,
      free_ray-IsKeySet (short_end params origin point) cells.free_cells v.free_valid,
    )
  ]

  -- If neither set of keys holds a key twice, this holds again after the loop that casts the rays
  -- of a measurement.
  pub cast_rays-IsValid :
      (points : List (Vec3 Double)) (cells : Cells)
      → IsValid cells
      → IsValid (cast_rays params t origin points cells)
  unfolding cast_rays
  cast_rays-IsValid [] cells v = v
  cast_rays-IsValid (point ∷ points) cells v =
      cast_rays-IsValid points
        (if not (contains cells.occupied_cells (coord_to_key t point))
          then cast_ray params t origin point cells
          else cells)
        (ground (arith, cast_ray-IsValid point cells v))

  -- Some point of a list within the range has the key.
  abbrev pub ends_at : List (Vec3 Double) → Key → Bool
  ends_at [] j = false
  ends_at (point ∷ points) j =
      (is_in_range params origin point && is_key (coord_to_key_checked t point) j)
      || ends_at points j

  cast_ray-occupied :
      (point : Vec3 Double) (cells : Cells) (j : Key)
      → contains (cast_ray params t origin point cells).occupied_cells j ≡ (
          contains cells.occupied_cells j
          || (is_in_range params origin point && is_key (coord_to_key_checked t point) j))
  unfolding cast_ray insert_checked
  cast_ray-occupied point cells j = elim (Option-cases (coord_to_key_checked t point)) [
    | inl e ↦ ground (arith, e)
    | inr (k, e) ↦ ground (arith, e, contains-insert cells.occupied_cells k j)
  ]

  module _
      (agree : (v : Vec3 Double) (k : Key)
        → coord_to_key_checked t v ≡ some k
        → coord_to_key t v ≡ k) where
    -- A point whose cell is occupied already has nothing to add.
    skipped :
        (s : KeySet) (point : Vec3 Double) (j : Key)
        → contains s (coord_to_key t point) ≡ true
        → is_key (coord_to_key_checked t point) j ≡ true
        → contains s j ≡ true
    skipped s point j old e = elim (Option-cases (coord_to_key_checked t point)) [
      | inl none_eq ↦ absurd (ground (arith, none_eq))
      | inr (k, some_eq) ↦
          let same : key_eq k j ≡ true = ground (arith, some_eq) in
          ground (arith, agree point k some_eq, contains-of_key_eq s k j same)
    ]

    -- If a checked key of the octree is always the unchecked one of the same point, then the
    -- occupied cells after the loop over the points are exactly those that were occupied before and
    -- those of the points within the range of the sensor, although a point casts no ray if its cell
    -- is occupied already.
    pub cast_rays-occupied :
        (points : List (Vec3 Double)) (cells : Cells) (j : Key)
        → contains (cast_rays params t origin points cells).occupied_cells j
          ≡ (contains cells.occupied_cells j || ends_at points j)
    unfolding cast_rays
    cast_rays-occupied [] cells j = ground arith
    cast_rays-occupied (point ∷ points) cells j =
        elim (Bool-cases (contains cells.occupied_cells (coord_to_key t point))) [
          | inl old ↦ ground (
            arith,
            old,
            skipped cells.occupied_cells point j old,
            cast_rays-occupied points cells j,
          )
          | inr new ↦
              let cells' = cast_ray params t origin point cells in
              ground
                (arith, new, cast_ray-occupied point cells j, cast_rays-occupied points cells' j)
        ]

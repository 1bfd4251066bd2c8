-- ===== src/World/Line/First.antt =====
-- What `getLineStatus` and `getVisibility` answer.
use volumetric_mapping.Common.{
  ◌≡◌, ◌≢◌, refl, sym, ap, ◌↔◌, Bool, Bool-cases, Option, none, some, inl, inr, List, [], ◌∷◌, ◌++◌,
  All, if◌then◌else◌, arith,
}
use volumetric_mapping.Outcome.{ok}
use volumetric_mapping.Platform.{Platform, Vec3, Key}
use volumetric_mapping.Vector.{point_eigen_to_octomap}
use volumetric_mapping.KeySet.{key_eq}
use volumetric_mapping.World.{OctomapWorld}
use volumetric_mapping.World.Status.{CellStatus, free, occupied, unknown, unknown_as, is_free}
use volumetric_mapping.World.Line.{keys_status, get_line_status, keys_visibility, get_visibility}

module _ ⦃p : Platform⦄ where
  open p use {Double, Tree, Node, search, is_node_occupied, coord_to_key, compute_ray_keys}

  -- The status of one cell.
  abbrev pub node_status : Bool → Tree → Option Node → CellStatus
  node_status treat t none = unknown_as treat
  node_status treat t (some node) = if is_node_occupied t node then occupied else free

  abbrev pub key_status : Bool → Tree → Key → CellStatus
  key_status treat t key = node_status treat t (search t key)

  -- The cells before the first one that is not free, and that one.
  pub record FirstAt (treat : Bool) (t : Tree) (keys : List Key) (s : CellStatus) : Type 0 where
    pub before : List Key
    pub at : Key
    pub after : List Key
    pub split : keys ≡ before ++ at ∷ after
    pub all_free : All (λ key. key_status treat t key ≡ free) before
    pub status : key_status treat t at ≡ s

  keys_status_free :
      (treat : Bool) (t : Tree) (keys : List Key)
      → (keys_status treat t keys ≡ free) ↔ All (λ key. key_status treat t key ≡ free) keys
  unfolding keys_status
  keys_status_free treat t [] = (λ _. tt, λ _. refl)
  keys_status_free treat t (key ∷ keys) = ground (arith, keys_status_free treat t keys)

  keys_status_first :
      (treat : Bool) (t : Tree) (keys : List Key) (s : CellStatus)
      → keys_status treat t keys ≡ s
      → s ≢ free
      → FirstAt treat t keys s
  unfolding keys_status
  keys_status_first treat t [] s e h = absurd (h (sym e))
  keys_status_first treat t (key ∷ keys) s e h =
      elim (Bool-cases (is_free (key_status treat t key))) [
        | inl clear ↦
            let r = keys_status_first treat t keys s (ground arith) h in
            record {
              before = key ∷ r.before;
              at = r.at;
              after = r.after;
              split = ap (◌∷◌ key) r.split;
              all_free = (ground arith, r.all_free);
              status = r.status;
            }
        | inr blocked ↦ record {
          before = [];
          at = key;
          after = keys;
          split = refl;
          all_free = tt;
          status = ground arith;
        }
      ]

  -- The keys that the ray of a line passes.
  abbrev pub line_keys : Tree → Vec3 Double → Vec3 Double → List Key
  line_keys t start end =
      (compute_ray_keys t (point_eigen_to_octomap start) (point_eigen_to_octomap end)).1

  -- If the octree is there, `getLineStatus` answers free exactly if each cell that the ray passes
  -- is free, where a cell that is not in the map counts as `treat_unknown_as_occupied` says.
  get_line_status_free :
      (w : OctomapWorld) (t : Tree) (start end : Vec3 Double)
      → w.octree ≡ some t
      → (get_line_status w start end ≡ ok free)
        ↔ All
            (λ key. key_status w.params.treat_unknown_as_occupied t key ≡ free)
            (line_keys t start end)
  unfolding get_line_status
  get_line_status_free w t start end here =
      let treat = w.params.treat_unknown_as_occupied in
      ground (arith, here, keys_status_free treat t (line_keys t start end))

  -- If the octree is there and `getLineStatus` answers a status other than free, then this is the
  -- status of the first cell on the ray that is not free.
  pub get_line_status_first :
      (w : OctomapWorld) (t : Tree) (start end : Vec3 Double) (s : CellStatus)
      → w.octree ≡ some t
      → get_line_status w start end ≡ ok s
      → s ≢ free
      → FirstAt w.params.treat_unknown_as_occupied t (line_keys t start end) s
  unfolding get_line_status
  get_line_status_first w t start end s here e h =
      keys_status_first w.params.treat_unknown_as_occupied t (line_keys t start end) s
        (ground (arith, here)) h

  -- Visibility.
  abbrev pub blocks : Bool → Tree → Key → Key → CellStatus
  blocks stop t target key = if key_eq key target then free else (elim (search t key) [
    | none ↦ if stop then unknown else free
    | some node ↦ if is_node_occupied t node then occupied else free
  ])

  keys_visibility_free :
      (stop : Bool) (t : Tree) (target : Key) (keys : List Key)
      → (keys_visibility stop t target keys ≡ free)
        ↔ All (λ key. blocks stop t target key ≡ free) keys
  unfolding keys_visibility
  keys_visibility_free stop t target [] = (λ _. tt, λ _. refl)
  keys_visibility_free stop t target (key ∷ keys) =
      ground (arith, keys_visibility_free stop t target keys)

  -- If the octree is there, `getVisibility` answers free exactly if no cell of the ray but that of
  -- the voxel itself is occupied or, where `stop_at_unknown_cell` is set, missing from the map.
  pub get_visibility_free :
      (w : OctomapWorld) (t : Tree) (view_point voxel : Vec3 Double) (stop : Bool)
      → w.octree ≡ some t
      → (get_visibility w view_point voxel stop ≡ ok free)
        ↔ All
            (λ key. blocks stop t (coord_to_key t (point_eigen_to_octomap voxel)) key ≡ free)
            (line_keys t view_point voxel)
  unfolding get_visibility
  get_visibility_free w t view_point voxel stop here = ground (
    arith,
    here,
    keys_visibility_free stop t (coord_to_key t (point_eigen_to_octomap voxel))
        (line_keys t view_point voxel),
  )

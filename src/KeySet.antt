-- ===== src/KeySet.antt =====
-- `octomap::KeySet`, a `std::unordered_set` of keys, as a list without repetition. The order of
-- iteration is the list's; the standard leaves it open.
use volumetric_mapping.Common.{
  ◌≡◌, refl, Bool, true, false, not, ◌&&◌, ◌||◌, List, [], ◌∷◌, ◌==◌, if◌then◌else◌, arith, inl,
  inr, Bool-cases,
}
use volumetric_mapping.Platform.{Key}

-- `operator==` of `octomap::OcTreeKey`.
unfoldable pub key_eq : Key → Key → Bool
key_eq a b = a.k0 == b.k0 && a.k1 == b.k1 && a.k2 == b.k2

abbrev pub KeySet : Type 0
KeySet = List Key

-- `find(k) != end()`.
unfoldable pub contains : KeySet → Key → Bool
contains [] k = false
contains (j ∷ s) k = key_eq j k || contains s k

unfoldable pub insert : Key → KeySet → KeySet
insert k s = if contains s k then s else k ∷ s

-- `insert(begin, end)`.
unfoldable pub insert_all : List Key → KeySet → KeySet
insert_all [] s = s
insert_all (k ∷ ks) s = insert_all ks (insert k s)

pub erase : Key → KeySet → KeySet
erase k [] = []
erase k (j ∷ s) = if key_eq j k then s else j ∷ erase k s

-- No key stands in the list twice.
abbrev pub IsKeySet : KeySet → Type 0
IsKeySet [] = Unit
IsKeySet (k ∷ s) = (contains s k ≡ false) × IsKeySet s

key_eq_refl : (k : Key) → key_eq k k ≡ true
unfolding key_eq
key_eq_refl k = ground arith

pub eq_of_key_eq : (j k : Key) → key_eq j k ≡ true → j ≡ k
unfolding key_eq
eq_of_key_eq j k h = ground arith

pub key_eq_comm : (j k : Key) → key_eq j k ≡ key_eq k j
unfolding key_eq
key_eq_comm j k = ground arith

pub contains-insert :
    (s : KeySet) (k j : Key) → contains (insert k s) j ≡ (key_eq k j || contains s j)
unfolding contains insert
contains-insert s k j = elim (Bool-cases (contains s k)) [
  | inl old ↦ rw old (elim (Bool-cases (key_eq k j)) [
    | inl same ↦ rw (same, ← eq_of_key_eq k j same) old
    | inr other ↦ rw other
  ])
  | inr new ↦ rw new
]

pub insert-IsKeySet : (s : KeySet) (k : Key) → IsKeySet s → IsKeySet (insert k s)
unfolding insert
insert-IsKeySet s k h = ground arith

pub contains-erase :
    (s : KeySet) (k j : Key)
    → IsKeySet s
    → contains (erase k s) j ≡ (not (key_eq k j) && contains s j)
unfolding contains erase
contains-erase [] k j h = ground arith
contains-erase (i ∷ s) k j (new, h) = elim (Bool-cases (key_eq i k)) [
  | inl same ↦ rw same (elim (Bool-cases (key_eq k j)) [
    | inl hit ↦ rw hit (rw (← eq_of_key_eq k j hit, ← eq_of_key_eq i k same) new)
    | inr miss ↦ rw (miss, eq_of_key_eq i k same, miss)
  ])
  | inr other ↦ rw other (elim (Bool-cases (key_eq i j)) [
    | inl hit ↦ rw (hit, ← eq_of_key_eq i j hit, key_eq_comm k i, other)
    | inr miss ↦ rw miss (contains-erase s k j h)
  ])
]

pub erase-IsKeySet : (s : KeySet) (k : Key) → IsKeySet s → IsKeySet (erase k s)
unfolding erase
erase-IsKeySet [] k h = tt
erase-IsKeySet (i ∷ s) k (new, h) = ground (arith, contains-erase s k i h, erase-IsKeySet s k h)

pub contains-of_key_eq : (s : KeySet) (j k : Key) → key_eq j k ≡ true → contains s j ≡ contains s k
contains-of_key_eq s j k h = rw (eq_of_key_eq j k h)

pub contains-nil : (j : Key) → contains [] j ≡ false
unfolding contains
contains-nil j = refl

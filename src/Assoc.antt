-- ===== src/Assoc.antt =====
-- `HashMap` and `DashMap` as association lists, and `HashSet` as a list without repetition.
-- The order of the list stands for the order of iteration, which the containers leave open.
pub mod Laws
use external_pod_autoscaler.Prelude.{
  ℕ, ◌≡◌, Bool, true, false, not, ◌&&◌, ◌||◌, List, [], ◌∷◌, ◌++◌, map, Option, none, some,
  if◌then◌else◌, Eq, ◌==◌, filter, contains,
}

module _ {ℓ κ} {K : Type ℓ} {V : Type κ} ⦃e : Eq K⦄ where
  -- `get`.
  abbrev pub lookup : K → List (K × V) → Option V
  lookup k [] = none
  lookup k ((j, v) ∷ m) = if j == k then some v else lookup k m

  -- `contains_key`.
  abbrev pub contains_key : K → List (K × V) → Bool
  contains_key k [] = false
  contains_key k ((j, v) ∷ m) = j == k || contains_key k m

  -- `insert`, which overwrites.
  abbrev pub insert : K → V → List (K × V) → List (K × V)
  insert k v [] = (k, v) ∷ []
  insert k v ((j, w) ∷ m) = if j == k then (k, v) ∷ m else (j, w) ∷ insert k v m

  -- `entry(k).and_modify(f).or_insert_with(v)`.
  abbrev pub modify_or_insert : K → (V → V) → V → List (K × V) → List (K × V)
  modify_or_insert k f v [] = (k, v) ∷ []
  modify_or_insert k f v ((j, w) ∷ m) =
      if j == k then (j, f w) ∷ m else (j, w) ∷ modify_or_insert k f v m

  -- `remove`.
  abbrev pub remove : K → List (K × V) → List (K × V)
  remove k [] = []
  remove k ((j, v) ∷ m) = if j == k then m else (j, v) ∷ remove k m

  -- No key stands twice, as in a hash map.
  abbrev pub Unique : List (K × V) → Type 0
  Unique [] = Unit
  Unique ((j, v) ∷ m) = (contains_key j m ≡ false) × Unique m

module _ {ℓ κ} {K : Type ℓ} {V : Type κ} where
  -- `retain`, and the filter of an iteration over the entries.
  abbrev pub retain : (K → V → Bool) → List (K × V) → List (K × V)
  retain p [] = []
  retain p ((j, v) ∷ m) = if p j v then (j, v) ∷ retain p m else retain p m

module _ {ℓ} {A : Type ℓ} ⦃e : Eq A⦄ where
  -- `HashSet::insert`.
  abbrev pub insert_elem : A → List A → List A
  insert_elem a xs = if contains xs a then xs else a ∷ xs

  -- `HashSet::remove`.
  abbrev pub remove_elem : A → List A → List A
  remove_elem a [] = []
  remove_elem a (x ∷ xs) = if x == a then xs else x ∷ remove_elem a xs

  abbrev pub Nodup : List A → Type 0
  Nodup [] = Unit
  Nodup (x ∷ xs) = (contains xs x ≡ false) × Nodup xs

-- ===== src/Assoc/Laws.antt =====
-- Laws of the maps and sets: what a read finds after a write, and that no key comes to stand twice.
use external_pod_autoscaler.Prelude.{
  ◌&&◌, filter, ◌≤◌, length, ◌++◌, ==_refl, ◌≡◌, refl, Bool, true, false, ◌||◌, List, [], ◌∷◌, none,
  some, arith, if◌then◌else◌, inl, inr, Bool-cases, Eq, ◌==◌, contains,
}
use external_pod_autoscaler.Assoc.{
  lookup, contains_key, insert, modify_or_insert, remove, Unique, retain, insert_elem, remove_elem,
  Nodup,
}

module _ {ℓ κ} {K : Type ℓ} {V : Type κ} ⦃e : Eq K⦄ where
  pub lookup-none : (k : K) (m : List (K × V)) → contains_key k m ≡ false → lookup k m ≡ none
  lookup-none k [] h = refl
  lookup-none k ((j, v) ∷ m) h = ground (arith, lookup-none k m)

  pub contains_key_of_none :
      (k : K) (m : List (K × V)) → lookup k m ≡ none → contains_key k m ≡ false
  contains_key_of_none k [] h = refl
  contains_key_of_none k ((j, w) ∷ m) h = ground (arith, contains_key_of_none k m)

  pub contains_key_of_lookup :
      (k : K) (v : V) (m : List (K × V)) → lookup k m ≡ some v → contains_key k m ≡ true
  contains_key_of_lookup k v [] h = ground arith
  contains_key_of_lookup k v ((j, w) ∷ m) h = ground (arith, contains_key_of_lookup k v m)

  pub lookup_of_contains_key :
      (k : K) (m : List (K × V)) → contains_key k m ≡ true → (v : V) × (lookup k m ≡ some v)
  lookup_of_contains_key k [] h = ground arith
  lookup_of_contains_key k ((j, v) ∷ m) h = elim (Bool-cases (j == k)) [
    | inl e ↦ (v, rw e)
    | inr e ↦ let (w, q) = lookup_of_contains_key k m (ground arith) in (w, rw (e, q))
  ]

  pub lookup-insert :
      (k j : K) (v : V) (m : List (K × V))
      → lookup j (insert k v m) ≡ (if k == j then some v else lookup j m)
  lookup-insert k j v [] = refl
  lookup-insert k j v ((i, w) ∷ m) =
      ground (arith, e.beq_iff k j, e.beq_iff i k, e.beq_iff i j, lookup-insert k j v m)

  pub contains_key-insert :
      (k j : K) (v : V) (m : List (K × V))
      → contains_key j (insert k v m) ≡ (k == j || contains_key j m)
  contains_key-insert k j v [] = refl
  contains_key-insert k j v ((i, w) ∷ m) =
      ground (arith, e.beq_iff k j, e.beq_iff i k, e.beq_iff i j, contains_key-insert k j v m)

  pub insert-Unique : (k : K) (v : V) (m : List (K × V)) → Unique m → Unique (insert k v m)
  insert-Unique k v [] u = ground arith
  insert-Unique k v ((i, w) ∷ m) u =
      ground (arith, e.beq_iff i k, e.beq_iff k i, insert-Unique k v m, contains_key-insert k i v m)

  pub contains_key-modify_or_insert :
      (k j : K) (f : V → V) (v : V) (m : List (K × V))
      → contains_key j (modify_or_insert k f v m) ≡ (k == j || contains_key j m)
  contains_key-modify_or_insert k j f v [] = refl
  contains_key-modify_or_insert k j f v ((i, w) ∷ m) =
      ground (
        arith,
        e.beq_iff k j,
        e.beq_iff i k,
        e.beq_iff i j,
        contains_key-modify_or_insert k j f v m,
      )

  pub modify_or_insert-Unique :
      (k : K) (f : V → V) (v : V) (m : List (K × V)) → Unique m → Unique (modify_or_insert k f v m)
  modify_or_insert-Unique k f v [] u = ground arith
  modify_or_insert-Unique k f v ((i, w) ∷ m) u = ground (
    arith,
    e.beq_iff i k,
    e.beq_iff k i,
    modify_or_insert-Unique k f v m,
    contains_key-modify_or_insert k i f v m,
  )

  pub contains_key-remove_le :
      (k j : K) (m : List (K × V)) → contains_key j m ≡ false → contains_key j (remove k m) ≡ false
  contains_key-remove_le k j [] h = refl
  contains_key-remove_le k j ((i, w) ∷ m) h = ground (arith, contains_key-remove_le k j m)

  pub remove-Unique : (k : K) (m : List (K × V)) → Unique m → Unique (remove k m)
  remove-Unique k [] u = tt
  remove-Unique k ((i, w) ∷ m) u = ground (arith, remove-Unique k m, contains_key-remove_le k i m)

  pub contains_key-remove :
      (k j : K) (m : List (K × V))
      → Unique m
      → contains_key j (remove k m) ≡ (if k == j then false else contains_key j m)
  contains_key-remove k j [] u = ground arith
  contains_key-remove k j ((i, w) ∷ m) u =
      ground (arith, e.beq_iff k j, e.beq_iff i k, e.beq_iff i j, contains_key-remove k j m)

  pub lookup-remove :
      (k j : K) (m : List (K × V))
      → Unique m
      → lookup j (remove k m) ≡ (if k == j then none else lookup j m)
  lookup-remove k j [] u = ground arith
  lookup-remove k j ((i, w) ∷ m) u =
      ground
        (arith, e.beq_iff k j, e.beq_iff i k, e.beq_iff i j, lookup-remove k j m, lookup-none j m)

  pub contains_key-retain_le :
      (p : K → V → Bool) (j : K) (m : List (K × V))
      → contains_key j m ≡ false
      → contains_key j (retain p m) ≡ false
  contains_key-retain_le p j [] h = refl
  contains_key-retain_le p j ((i, w) ∷ m) h = ground (arith, contains_key-retain_le p j m)

  pub retain-Unique : (p : K → V → Bool) (m : List (K × V)) → Unique m → Unique (retain p m)
  retain-Unique p [] u = tt
  retain-Unique p ((i, w) ∷ m) u = ground (arith, retain-Unique p m, contains_key-retain_le p i m)

  pub length-retain-le : (p : K → V → Bool) (m : List (K × V)) → length (retain p m) ≤ length m
  length-retain-le p [] = omega arith
  length-retain-le p ((i, w) ∷ m) = ground (arith, length-retain-le p m)

  -- A sweep by keys.
  pub lookup-retain_keys :
      (p : K → Bool) (j : K) (m : List (K × V))
      → lookup j (retain (λ k _. p k) m) ≡ (if p j then lookup j m else none)
  lookup-retain_keys p j [] = ground arith
  lookup-retain_keys p j ((i, w) ∷ m) = ground (arith, e.beq_iff i j, lookup-retain_keys p j m)

  -- What a sweep keeps is what was there and passes the test.
  pub lookup-retain :
      (p : K → V → Bool) (j : K) (m : List (K × V))
      → Unique m
      → lookup j (retain p m)
        ≡ elim (lookup j m) [ none ↦ none | some v ↦ if p j v then some v else none ]
  lookup-retain p j [] u = refl
  lookup-retain p j ((i, w) ∷ m) u = ground (
    arith,
    e.beq_iff i j,
    lookup-retain p j m,
    lookup-none j m,
    contains_key-retain_le p j m,
    lookup-none j (retain p m),
  )

  pub lookup-modify_or_insert :
      (k j : K) (f : V → V) (v : V) (m : List (K × V))
      → lookup j (modify_or_insert k f v m)
        ≡ (if k == j then some (elim (lookup k m) [ none ↦ v | some w ↦ f w ]) else lookup j m)
  lookup-modify_or_insert k j f v [] = ground arith
  lookup-modify_or_insert k j f v ((i, w) ∷ m) =
      ground (arith, e.beq_iff k j, e.beq_iff i k, e.beq_iff i j, lookup-modify_or_insert k j f v m)

module _ {ℓ} {A : Type ℓ} ⦃e : Eq A⦄ where
  pub contains-insert_elem :
      (a b : A) (xs : List A) → contains (insert_elem a xs) b ≡ (a == b || contains xs b)
  contains-insert_elem a b xs = ground (arith, e.beq_iff a b)

  pub insert_elem-Nodup : (a : A) (xs : List A) → Nodup xs → Nodup (insert_elem a xs)
  insert_elem-Nodup a xs h = ground arith

  pub contains-remove_elem_le :
      (a b : A) (xs : List A) → contains xs b ≡ false → contains (remove_elem a xs) b ≡ false
  contains-remove_elem_le a b [] h = refl
  contains-remove_elem_le a b (x ∷ xs) h = ground (arith, contains-remove_elem_le a b xs)

  pub remove_elem-Nodup : (a : A) (xs : List A) → Nodup xs → Nodup (remove_elem a xs)
  remove_elem-Nodup a [] h = tt
  remove_elem-Nodup a (x ∷ xs) h =
      ground (arith, remove_elem-Nodup a xs, contains-remove_elem_le a x xs)

  pub contains-remove_elem :
      (a b : A) (xs : List A)
      → Nodup xs
      → contains (remove_elem a xs) b ≡ (if a == b then false else contains xs b)
  contains-remove_elem a b [] h = ground arith
  contains-remove_elem a b (x ∷ xs) h =
      ground (arith, e.beq_iff a b, e.beq_iff x a, e.beq_iff x b, contains-remove_elem a b xs)

  pub contains-append :
      (a : A) (xs ys : List A) → contains (xs ++ ys) a ≡ (contains xs a || contains ys a)
  contains-append a [] ys = refl
  contains-append a (x ∷ xs) ys = ground (arith, contains-append a xs ys)

  pub append-Nodup :
      (xs ys : List A)
      → Nodup xs
      → Nodup ys
      → ((a : A) → contains xs a ≡ true → contains ys a ≡ false)
      → Nodup (xs ++ ys)
  append-Nodup [] ys h k apart = k
  append-Nodup (x ∷ xs) ys (fresh, h) k apart = (
    ground (arith, contains-append x xs ys, apart x, ==_refl x),
    append-Nodup xs ys h k (λ a m. apart a (ground arith)),
  )

  pub contains-filter :
      (p : A → Bool) (a : A) (xs : List A) → contains (filter p xs) a ≡ (p a && contains xs a)
  contains-filter p a [] = ground arith
  contains-filter p a (x ∷ xs) = ground (arith, e.beq_iff x a, contains-filter p a xs)

-- ===== src/Membership/Ownership/Election.antt =====
-- The election of `highest_weight_replica`: whom it picks.
use external_pod_autoscaler.Prelude.{
  ℕ, ◌≤◌, ◌≡◌, ◌≢◌, refl, true, false, List, [], ◌∷◌, some, map, arith, ltb, inl, inr,
  if◌then◌else◌, contains, Bool-cases, ap,
}
use external_pod_autoscaler.Text.{Text, text_Eq, text_beq_iff}
use external_pod_autoscaler.Membership.Ownership.{
  Hasher, max_by_weight, compute_weight, highest_weight_replica,
}

-- A replica of the list whose weight no other exceeds.
abbrev pub IsHeaviest : (Text → ℕ) → List Text → Text → Type 0
IsHeaviest weight replicas w =
    (contains replicas w ≡ true) × ((r : Text) → contains replicas r ≡ true → weight r ≤ weight w)

module _ (hasher : Hasher) (key : Text) where
  abbrev weight : Text → ℕ
  weight r = compute_weight hasher r key

  abbrev weighed : Text → Text × ℕ
  weighed r = (r, weight r)

  -- The replica that the loop ends with.
  abbrev winner : Text → List Text → Text
  winner best rs = (max_by_weight (weighed best) (map weighed rs)).0

  winner-lighter :
      (best r : Text) (rs : List Text)
      → ltb (weight r) (weight best) ≡ true
      → winner best (r ∷ rs) ≡ winner best rs
  unfolding max_by_weight
  winner-lighter best r rs h =
      ap (λ b. (max_by_weight (if b then weighed best else weighed r) (map weighed rs)).0) h

  winner-heavier :
      (best r : Text) (rs : List Text)
      → ltb (weight r) (weight best) ≡ false
      → winner best (r ∷ rs) ≡ winner r rs
  unfolding max_by_weight
  winner-heavier best r rs h =
      ap (λ b. (max_by_weight (if b then weighed best else weighed r) (map weighed rs)).0) h

  winner-contains : (best : Text) (rs : List Text) → contains (best ∷ rs) (winner best rs) ≡ true
  unfolding max_by_weight
  winner-contains best [] = ground (arith, text_beq_iff best best)
  winner-contains best (r ∷ rs) = elim (Bool-cases (ltb (weight r) (weight best))) [
    | inl e ↦ rw (winner-lighter best r rs e) (ground (arith, winner-contains best rs))
    | inr e ↦ rw (winner-heavier best r rs e) (ground (arith, winner-contains r rs))
  ]

  winner-le_best : (best : Text) (rs : List Text) → weight best ≤ weight (winner best rs)
  unfolding max_by_weight
  winner-le_best best [] = omega arith
  winner-le_best best (r ∷ rs) = elim (Bool-cases (ltb (weight r) (weight best))) [
    | inl e ↦ rw (winner-lighter best r rs e) (winner-le_best best rs)
    | inr e ↦ rw (winner-heavier best r rs e) (ground (arith, winner-le_best r rs))
  ]

  winner-le :
      (best : Text) (rs : List Text) (r : Text)
      → contains rs r ≡ true
      → weight r ≤ weight (winner best rs)
  unfolding max_by_weight
  winner-le best [] r h = ground arith
  winner-le best (q ∷ rs) r h = elim (Bool-cases (ltb (weight q) (weight best))) [
    | inl e ↦
        rw (winner-lighter best q rs e)
          (ground (arith, text_beq_iff q r, winner-le best rs r, winner-le_best best rs))
    | inr e ↦
        rw (winner-heavier best q rs e)
          (ground (arith, text_beq_iff q r, winner-le q rs r, winner-le_best q rs))
  ]

  -- For a list of replicas that is not empty, the election ends with one of them that no other
  -- outweighs.
  pub highest_weight_replica-IsHeaviest :
      (replicas : List Text)
      → (replicas ≢ [])
      → (w : Text) × (highest_weight_replica hasher replicas key ≡ some w)
        × IsHeaviest weight replicas w
  unfolding highest_weight_replica
  highest_weight_replica-IsHeaviest [] h = absurd (h refl)
  highest_weight_replica-IsHeaviest (r ∷ rs) h = (
    winner r rs,
    refl,
    (
      winner-contains r rs,
      λ q m. ground (arith, text_beq_iff r q, winner-le r rs q, winner-le_best r rs),
    ),
  )

-- ===== src/Membership/Ownership/Agreement.antt =====
-- Agreement between replicas, and minimal movement when the set of replicas changes.
use external_pod_autoscaler.Prelude.{
  ℕ, ◌≡◌, ◌≢◌, ◌⊎◌, refl, true, List, [], ◌∷◌, some, arith, inl, inr, ◌==◌, contains, Bool-cases,
  ap, sym, ◌∙◌,
}
use mathlib.Core.Path.{subst}
use external_pod_autoscaler.Text.{Text, text_Eq, text_beq_iff}
use external_pod_autoscaler.Assoc.{insert_elem, remove_elem, Nodup}
use external_pod_autoscaler.Assoc.Laws.{contains-insert_elem, contains-remove_elem}
use external_pod_autoscaler.Membership.Manager.{ReplicaSets, get_active_replicas}
use external_pod_autoscaler.Membership.Ownership.{
  Hasher, compute_weight, highest_weight_replica, get_epa_owner, is_epa_owner, epa_key,
}
use external_pod_autoscaler.Membership.Ownership.Election.{
  IsHeaviest, highest_weight_replica-IsHeaviest,
}

-- The same replicas, in whatever order the hash sets give them out.
abbrev pub SameReplicas : List Text → List Text → Type 0
SameReplicas xs ys = (r : Text) → contains xs r ≡ contains ys r

-- No two replicas of the list have the same weight.
abbrev pub DistinctWeights : (Text → ℕ) → List Text → Type 0
DistinctWeights weight xs =
    (r q : Text) → contains xs r ≡ true → contains xs q ≡ true → weight r ≡ weight q → r ≡ q

module _ (hasher : Hasher) (key : Text) where
  abbrev weight : Text → ℕ
  weight r = compute_weight hasher r key

  heaviest_unique :
      (xs : List Text) (w v : Text)
      → DistinctWeights weight xs
      → IsHeaviest weight xs w
      → IsHeaviest weight xs v
      → w ≡ v
  heaviest_unique xs w v d (m, h) (n, k) = d w v m n (omega (arith, h v n, k w m))

  pub elected :
      (xs : List Text) (w : Text)
      → highest_weight_replica hasher xs key ≡ some w
      → IsHeaviest weight xs w
  unfolding highest_weight_replica
  elected [] w e = cc
  elected (x ∷ xs) w e =
      let (v, found, heaviest) =
        highest_weight_replica-IsHeaviest hasher key (x ∷ xs) (λ p. cc p) in
      let same : v ≡ w = cc in subst (IsHeaviest weight (x ∷ xs)) same heaviest

  pub elects :
      (xs : List Text) (w : Text)
      → DistinctWeights weight xs
      → IsHeaviest weight xs w
      → highest_weight_replica hasher xs key ≡ some w
  elects [] w d h = ground (arith, h.0)
  elects (x ∷ xs) w d h =
      let (v, found, heaviest) =
        highest_weight_replica-IsHeaviest hasher key (x ∷ xs) (λ p. cc p) in
      found ∙ ap some (heaviest_unique (x ∷ xs) v w d heaviest h)

  -- Two replicas that see the same active set elect the same owner, whatever the order in which
  -- the hash sets give the replicas out, if no two replicas have the same weight for the key.
  pub highest_weight_replica_agree :
      (xs ys : List Text)
      → SameReplicas xs ys
      → DistinctWeights weight xs
      → highest_weight_replica hasher xs key ≡ highest_weight_replica hasher ys key
  highest_weight_replica_agree [] [] same d = refl
  highest_weight_replica_agree [] (y ∷ ys) same d = ground (arith, same y, text_beq_iff y y)
  highest_weight_replica_agree (x ∷ xs) ys same d =
      let (w, found, (m, most)) =
        highest_weight_replica-IsHeaviest hasher key (x ∷ xs) (λ p. cc p) in
      found
      ∙ sym (
          elects ys w (λ r q hr hq. d r q (same r ∙ hr) (same q ∙ hq))
            (sym (same w) ∙ m, λ r h. most r (same r ∙ h)))

  -- A replica that leaves takes no ExternalPodAutoscaler from another: the owner stays, unless it
  -- is the owner that leaves. No replica stands twice and no two weights are equal.
  pub highest_weight_replica-remove :
      (xs : List Text) (w a : Text)
      → Nodup xs
      → DistinctWeights weight xs
      → highest_weight_replica hasher xs key ≡ some w
      → a ≢ w
      → highest_weight_replica hasher (remove_elem a xs) key ≡ some w
  highest_weight_replica-remove xs w a n d e ne =
      elects (remove_elem a xs) w (λ r q hr hq. d r q (stays r hr) (stays q hq))
        (
          ground (arith, contains-remove_elem a w xs n, text_beq_iff a w, (elected xs w e).0),
          λ r h. (elected xs w e).1 r (stays r h),
        )
    where
      stays : (r : Text) → contains (remove_elem a xs) r ≡ true → contains xs r ≡ true
      stays r h = ground (arith, contains-remove_elem a r xs n)

  -- A replica that joins either becomes the owner or leaves the owner as it was. No two weights of
  -- the replicas before it are equal.
  pub highest_weight_replica-insert :
      (xs : List Text) (w a v : Text)
      → DistinctWeights weight xs
      → highest_weight_replica hasher xs key ≡ some w
      → highest_weight_replica hasher (insert_elem a xs) key ≡ some v
      → (v ≡ a) ⊎ (v ≡ w)
  highest_weight_replica-insert xs w a v d e f = elim (Bool-cases (contains xs v)) [
    | inl old ↦ inr (
        heaviest_unique xs v w d
          (old, λ r h. (elected _ v f).1 r (ground (arith, contains-insert_elem a r xs)))
          (elected xs w e))
    | inr new ↦
        inl (ground (arith, (elected _ v f).0, contains-insert_elem a v xs, text_beq_iff a v))
  ]

-- Among live replicas that all see the same active set, exactly one is the owner of an
-- ExternalPodAutoscaler: there is a live replica such that `is_epa_owner` holds at it and at no
-- other. The weights of the key are distinct, and some replica is live.
pub is_epa_owner_exactly_one :
    (hasher : Hasher) (namespace name : Text) (live : List Text) (view : Text → ReplicaSets)
    → live ≢ []
    → DistinctWeights (λ r. compute_weight hasher r (epa_key namespace name)) live
    → ((r : Text) → SameReplicas live (view r).active)
    → (w : Text) × (contains live w ≡ true)
      × ((r : Text) → is_epa_owner hasher (view r) r namespace name ≡ (w == r))
unfolding is_epa_owner get_epa_owner get_active_replicas
is_epa_owner_exactly_one hasher namespace name live view nonempty d same =
    let key = epa_key namespace name in
    let (w, found, (m, most)) = highest_weight_replica-IsHeaviest hasher key live nonempty in
    (
      w,
      m,
      λ r. ground (
        arith,
        found,
        m,
        same r w,
        highest_weight_replica_agree hasher key live (view r).active (same r) d,
      ),
    )

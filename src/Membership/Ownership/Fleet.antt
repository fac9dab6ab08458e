-- ===== src/Membership/Ownership/Fleet.antt =====
-- The manager and the election together: what the updates of all replicas make of one election.
use external_pod_autoscaler.Prelude.{
  ℕ, ◌+◌, ◌<◌, ◌≡◌, ◌≢◌, refl, true, false, List, [], ◌∷◌, ◌++◌, some, arith, inl, inr, ◌==◌,
  contains, Bool, Bool-cases, Option-cases, sym, ap, ◌∙◌, Member, lt→ltb, ◌&&◌, ltb,
}
use mathlib.Core.Path.{subst}
use external_pod_autoscaler.Text.{Text, text_Eq, text_beq_iff}
use external_pod_autoscaler.Membership.Manager.{
  Lease, LeaseApi, MembershipManager, ok, app_selector, lease_prefix, own_lease, is_current,
  replica_of, update_active_replicas,
}
use external_pod_autoscaler.Membership.Manager.Sets.{
  DistinctNames, listed, stands_for, update_active_replicas-classifies,
}
use external_pod_autoscaler.Membership.Manager.Renewal.{
  lease_nanos, own_lease_stands, listed_only, own_lease_name, agrees,
}
use external_pod_autoscaler.Membership.Ownership.{Hasher, compute_weight, is_epa_owner, epa_key}
use external_pod_autoscaler.Membership.Ownership.Agreement.{
  DistinctWeights, is_epa_owner_exactly_one,
}

-- A replica all of whose leases have run out is not listed.
listed_none :
    (t : ℕ) (drains : Bool) (r : Text) (leases : List Lease)
    → ((lease : Lease)
        → Member lease leases
        → replica_of lease ≡ some r
        → is_current lease t ≡ false)
    → listed t drains r leases ≡ false
listed_none t drains r [] old = refl
listed_none t drains r (lease ∷ leases) old =
    let rest = listed_none t drains r leases (λ l m e. old l (inr m) e) in
    elim (Option-cases (replica_of lease)) [
      | inl e ↦ ground (arith, rest)
      | inr (s, e) ↦ elim (Bool-cases (s == r)) [
        | inl same ↦
            let own : replica_of lease ≡ some r = e ∙ ap some ((text_beq_iff s r).0 same) in
            ground (arith, rest, old lease (inl refl) own)
        | inr ne ↦ ground (arith, rest)
      ]
    ]

-- The replicas of a deployment that runs: each live one has a lease in the list, which lasts over
-- all the updates, the leases of others have run out before them, and none is draining.
pub record IsSteady (leases : List Lease) (live : List Text) (managers : Text → MembershipManager)
    (renewed updated : Text → ℕ) : Type 0 where
  pub own_id : (r : Text) → (managers r).my_replica_id ≡ r
  pub serving : (r : Text) → (managers r).replica_sets.local_draining ≡ false
  pub stands :
      (r : Text) → contains live r ≡ true → Member (own_lease (managers r) (renewed r)) leases
  pub lasts : (r q : Text) → contains live q ≡ true → updated r < renewed q + lease_nanos
  pub gone :
      (r q : Text) (lease : Lease)
      → contains live q ≡ false
      → Member lease leases
      → replica_of lease ≡ some q
      → is_current lease (updated r) ≡ false

module _ (leases : List Lease) (live : List Text) (managers : Text → MembershipManager)
    (renewed updated : Text → ℕ) (steady : IsSteady leases live managers renewed updated)
    (d : DistinctNames leases) where
  listed-live : (r q : Text) → contains live q ≡ true → listed (updated r) false q leases ≡ true
  listed-live r q h =
      let m = managers q in
      let same = steady.own_id q in
      let name : (own_lease m (renewed q)).name ≡ some (lease_prefix ++ q) =
        subst (λ i. (own_lease m (renewed q)).name ≡ some (lease_prefix ++ i)) same
          (own_lease_name m (renewed q)) in
      let stands =
        subst
          (λ i. stands_for (updated r) false i (own_lease m (renewed q)) ≡ (
            ltb (updated r) (renewed q + lease_nanos)
            && agrees m.replica_sets.local_draining false))
          same (own_lease_stands m (renewed q) (updated r) false) in
      listed_only (updated r) false q (own_lease m (renewed q)) leases (steady.stands q h) d name
      ∙ stands
      ∙ rw (lt→ltb (updated r) (renewed q + lease_nanos) (steady.lasts r q h), steady.serving q)
          refl

  listed-eq-live : (r q : Text) → listed (updated r) false q leases ≡ contains live q
  listed-eq-live r q = elim (Bool-cases (contains live q)) [
    | inl h ↦ listed-live r q h ∙ sym h
    | inr h ↦
        listed_none (updated r) false q leases (λ lease m e. steady.gone r q lease h m e) ∙ sym h
  ]

-- The replicas elect one owner: once each live replica has read the leases, at times at which the
-- leases of the live replicas last, those of others have run out and none is draining, exactly one
-- replica takes itself for the owner of an autoscaler, and it is a live one. The live replicas have
-- distinct weights for it, lease names are distinct, and all read the same list.
pub update_active_replicas-elects_one :
    (hasher : Hasher) (namespace name : Text) (k8s : LeaseApi) (server : k8s.Server)
    (leases : List Lease) (live : List Text) (managers : Text → MembershipManager)
    (renewed updated : Text → ℕ)
    → k8s.list app_selector server ≡ ok leases
    → DistinctNames leases
    → IsSteady leases live managers renewed updated
    → live ≢ []
    → DistinctWeights (λ r. compute_weight hasher r (epa_key namespace name)) live
    → let view =
        λ (r : Text). (update_active_replicas k8s (managers r) (updated r) server).1.replica_sets in
      (w : Text) × (contains live w ≡ true)
      × ((r : Text) → is_epa_owner hasher (view r) r namespace name ≡ (w == r))
update_active_replicas-elects_one hasher namespace name k8s server leases live managers renewed
      updated answer d steady nonempty weights =
    is_epa_owner_exactly_one hasher namespace name live
      (λ r. (update_active_replicas k8s (managers r) (updated r) server).1.replica_sets) nonempty
      weights
      (λ r q.
        let (_, active, _, _) =
          update_active_replicas-classifies k8s (managers r) (updated r) server leases answer in
        ground (
          arith,
          active q,
          steady.serving r,
          listed-eq-live leases live managers renewed updated steady d r q,
        ))

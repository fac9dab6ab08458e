-- ===== src/Membership/Manager/Renewal.antt =====
-- The lease that `register_and_renew` writes, as the replicas read it that list it later.
use external_pod_autoscaler.Prelude.{
  ℕ, ◌+◌, ◌≡◌, ◌≢◌, refl, Bool, true, false, not, ◌&&◌, List, [], ◌∷◌, ◌++◌, some, arith, inl, inr,
  ap, sym, ◌∙◌, ltb, nat_eq, Bool-cases, Option-cases, contains, Member,
}
use external_pod_autoscaler.Text.{Text, text_Eq, text_beq_iff, text_beq_refl}
use external_pod_autoscaler.Text.Laws.{strip_prefix-append}
use external_pod_autoscaler.Membership.Manager.{
  Lease, LeaseApi, MembershipManager, Result, ok, err, missing_holder, api, other, lease_prefix,
  app_selector, or_apply, own_lease, lease_labels, drains_by, is_current, replica_of,
  is_draining_lease, register_and_renew, update_active_replicas,
}
use external_pod_autoscaler.Membership.Manager.Sets.{
  stands_for, listed, is_some_text, named, DistinctNames, listed-named, name_of_replica,
  update_active_replicas-classifies,
}

-- What the API server promises of a write that it accepts: a later list with the label selector
-- has the lease as it was written.
pub record ListsWrites (k8s : LeaseApi) : Type 0 where
  pub lists_created :
      (m : MembershipManager) (now : ℕ) (server server' : k8s.Server) (leases : List Lease)
      → k8s.create (own_lease m now) server ≡ (ok tt, server')
      → k8s.list app_selector server' ≡ ok leases
      → Member (own_lease m now) leases
  pub lists_applied :
      (m : MembershipManager) (now : ℕ) (server server' : k8s.Server) (leases : List Lease)
      → k8s.apply (lease_prefix ++ m.my_replica_id) (own_lease m now) server ≡ (ok tt, server')
      → k8s.list app_selector server' ≡ ok leases
      → Member (own_lease m now) leases

-- 30 seconds.
abbrev pub lease_nanos : ℕ
lease_nanos = 30_000_000_000

abbrev pub agrees : Bool → Bool → Bool
agrees true b = b
agrees false b = not b

own_lease_current :
    (m : MembershipManager) (now t : ℕ) → is_current (own_lease m now) t ≡ ltb t (now + lease_nanos)
unfolding own_lease is_current
own_lease_current m now t = refl

pub own_lease_replica :
    (m : MembershipManager) (now : ℕ) → replica_of (own_lease m now) ≡ some m.my_replica_id
unfolding own_lease replica_of
own_lease_replica m now = strip_prefix-append lease_prefix m.my_replica_id

labels_drain : (b : Bool) (id : Text) → drains_by (some (lease_labels b id)) ≡ b
labels_drain true id = refl
labels_drain false id = refl

pub own_lease_drains :
    (m : MembershipManager) (now : ℕ)
    → is_draining_lease (own_lease m now) ≡ m.replica_sets.local_draining
unfolding own_lease is_draining_lease
own_lease_drains m now = labels_drain m.replica_sets.local_draining m.my_replica_id

pub own_lease_stands :
    (m : MembershipManager) (now t : ℕ) (drains : Bool)
    → stands_for t drains m.my_replica_id (own_lease m now)
      ≡ (ltb t (now + lease_nanos) && agrees m.replica_sets.local_draining drains)
own_lease_stands m now t drains = ground (
  arith,
  own_lease_current m now t,
  own_lease_replica m now,
  own_lease_drains m now,
  text_beq_refl m.my_replica_id,
)

Member-named :
    (lease : Lease) (n : Text) (leases : List Lease)
    → Member lease leases
    → lease.name ≡ some n
    → named n leases ≡ true
Member-named lease n [] m e = absurd m
Member-named lease n (l ∷ leases) (inl here) e =
    ground (arith, ap (λ k. is_some_text k.name n) here, text_beq_refl n)
Member-named lease n (l ∷ leases) (inr there) e =
    ground (arith, Member-named lease n leases there e)

-- Of the leases of the list only one can stand for a replica: the one with its name.
pub listed_only :
    (t : ℕ) (drains : Bool) (r : Text) (lease : Lease) (leases : List Lease)
    → Member lease leases
    → DistinctNames leases
    → lease.name ≡ some (lease_prefix ++ r)
    → listed t drains r leases ≡ stands_for t drains r lease
listed_only t drains r lease [] m d n = absurd m
listed_only t drains r lease (l ∷ leases) (inl here) (fresh, d) n = ground (
  arith,
  ap (stands_for t drains r) here,
  listed-named t drains r leases,
  fresh (lease_prefix ++ r) (sym (ap (λ k. k.name) here) ∙ n),
)
listed_only t drains r lease (l ∷ leases) (inr there) (fresh, d) n =
    elim (Option-cases (replica_of l)) [
      | inl e ↦ ground (arith, listed_only t drains r lease leases there d n)
      | inr (s, e) ↦ ground (
        arith,
        listed_only t drains r lease leases there d n,
        text_beq_iff s r,
        fresh (lease_prefix ++ s) (name_of_replica l s e),
        Member-named lease (lease_prefix ++ r) leases there n,
      )
    ]

pub own_lease_name :
    (m : MembershipManager) (now : ℕ)
    → (own_lease m now).name ≡ some (lease_prefix ++ m.my_replica_id)
unfolding own_lease
own_lease_name m now = refl

module _ (k8s : LeaseApi) (laws : ListsWrites k8s) where
  written :
      (m : MembershipManager) (now : ℕ) (server server' : k8s.Server) (leases : List Lease)
      → register_and_renew k8s m now server ≡ (ok tt, server')
      → k8s.list app_selector server' ≡ ok leases
      → Member (own_lease m now) leases
  unfolding register_and_renew
  written m now server server' leases h l =
      go (k8s.create (own_lease m now) server).0 (k8s.create (own_lease m now) server).1 refl h
    where
      go :
          (r : Result (Unit {0})) (s : k8s.Server)
          → k8s.create (own_lease m now) server ≡ (r, s)
          → or_apply k8s (lease_prefix ++ m.my_replica_id) (own_lease m now) r s ≡ (ok tt, server')
          → Member (own_lease m now) leases
      go (ok x) s e h = laws.lists_created m now server server' leases (e ∙ h) l
      go missing_holder s e h = cc
      go (err other) s e h = cc
      go (err (api code)) s e h = elim (Bool-cases (nat_eq code 409)) [
        | inl q ↦ laws.lists_applied m now s server' leases (rw q at h) l
        | inr q ↦ let refused = rw q at h in cc
      ]

  -- A renewal that succeeds is seen by every other replica: as long as the lease lasts, 30
  -- seconds, an update puts the renewed replica into the draining set if it is draining, and into
  -- the active set otherwise, and into neither once the lease has run out. Lease names are
  -- distinct, and the server lists what it has accepted.
  pub renewal_seen :
      (m peer : MembershipManager) (now t : ℕ) (server server' : k8s.Server) (leases : List Lease)
      → register_and_renew k8s m now server ≡ (ok tt, server')
      → k8s.list app_selector server' ≡ ok leases
      → DistinctNames leases
      → peer.my_replica_id ≢ m.my_replica_id
      → let sets = (update_active_replicas k8s peer t server').1.replica_sets in
        (contains sets.active m.my_replica_id
          ≡ (ltb t (now + lease_nanos) && not m.replica_sets.local_draining))
        × (contains sets.draining m.my_replica_id
            ≡ (ltb t (now + lease_nanos) && m.replica_sets.local_draining))
  renewal_seen m peer now t server server' leases h l d ne =
      let member = written m now server server' leases h l in
      let (done, act, drain, flag) =
        update_active_replicas-classifies k8s peer t server' leases l in
      let r = m.my_replica_id in
      let in_list =
        λ (b : Bool). listed_only t b r (own_lease m now) leases member d (own_lease_name m now) in
      (
        ground (
          arith,
          act r,
          in_list false,
          own_lease_stands m now t false,
          text_beq_iff peer.my_replica_id r,
        ),
        ground (
          arith,
          drain r,
          in_list true,
          own_lease_stands m now t true,
          text_beq_iff peer.my_replica_id r,
        ),
      )

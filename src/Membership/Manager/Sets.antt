-- ===== src/Membership/Manager/Sets.antt =====
-- What `update_active_replicas` makes of the leases: which replica comes into which set.
use external_pod_autoscaler.Prelude.{
  ℕ, ◌≡◌, refl, Bool, true, false, not, ◌&&◌, ◌||◌, List, [], ◌∷◌, ◌++◌, Option, none, some, arith,
  inl, inr, sym, if◌then◌else◌, ◌==◌, Option-cases, contains,
}
use mathlib.Core.Path.{subst}
use external_pod_autoscaler.Text.{Text, text_Eq, text_beq_iff}
use external_pod_autoscaler.Text.Laws.{strip_prefix_sound}
use external_pod_autoscaler.Assoc.{Nodup}
use external_pod_autoscaler.Assoc.Laws.{
  contains-insert_elem, insert_elem-Nodup, contains-remove_elem, remove_elem-Nodup, append-Nodup,
}
use external_pod_autoscaler.Membership.Manager.{
  Lease, LeaseApi, MembershipManager, ReplicaSets, Result, ok, lease_prefix, app_selector,
  is_current, replica_of, is_draining_lease, note_lease, note_leases, install_sets,
  update_active_replicas, get_all_replicas,
}

abbrev pub is_some_text : Option Text → Text → Bool
is_some_text none r = false
is_some_text (some s) r = s == r

-- A current lease of the replica, marked as draining or not.
abbrev pub stands_for : ℕ → Bool → Text → Lease → Bool
stands_for now drains r lease =
    is_current lease now
    && is_some_text (replica_of lease) r
    && (if is_draining_lease lease then drains else not drains)

-- Some lease of the list stands for the replica.
abbrev pub listed : ℕ → Bool → Text → List Lease → Bool
listed now drains r [] = false
listed now drains r (lease ∷ leases) = stands_for now drains r lease || listed now drains r leases

-- No two leases of the list have one name, as in every Kubernetes namespace.
abbrev pub named : Text → List Lease → Bool
named n [] = false
named n (lease ∷ leases) = is_some_text lease.name n || named n leases

abbrev pub DistinctNames : List Lease → Type 0
DistinctNames [] = Unit
DistinctNames (lease ∷ leases) =
    ((n : Text) → lease.name ≡ some n → named n leases ≡ false) × DistinctNames leases

note_lease-contains :
    (now : ℕ) (lease : Lease) (active draining : List Text) (r : Text)
    → (contains (note_lease now lease (active, draining)).0 r
        ≡ (stands_for now false r lease || contains active r))
      × (contains (note_lease now lease (active, draining)).1 r
          ≡ (stands_for now true r lease || contains draining r))
unfolding note_lease
note_lease-contains now lease active draining r = elim (Option-cases (replica_of lease)) [
  | inl e ↦ ground arith
  | inr (s, e) ↦ ground (arith, contains-insert_elem s r active, contains-insert_elem s r draining)
]

-- A replica is found in a set exactly if some lease stands for it there.
pub note_leases-contains :
    (now : ℕ) (leases : List Lease) (active draining : List Text) (r : Text)
    → (contains (note_leases now leases (active, draining)).0 r
        ≡ (listed now false r leases || contains active r))
      × (contains (note_leases now leases (active, draining)).1 r
          ≡ (listed now true r leases || contains draining r))
unfolding note_leases
note_leases-contains now [] active draining r = (refl, refl)
note_leases-contains now (lease ∷ leases) active draining r =
    let found = note_lease now lease (active, draining) in
    ground (
      arith,
      note_leases-contains now leases found.0 found.1 r,
      note_lease-contains now lease active draining r,
    )

note_lease-Nodup :
    (now : ℕ) (lease : Lease) (active draining : List Text)
    → Nodup active
    → Nodup draining
    → Nodup (note_lease now lease (active, draining)).0
      × Nodup (note_lease now lease (active, draining)).1
unfolding note_lease
note_lease-Nodup now lease active draining a d = elim (Option-cases (replica_of lease)) [
  | inl e ↦ ground arith
  | inr (s, e) ↦ ground (arith, insert_elem-Nodup s active a, insert_elem-Nodup s draining d)
]

pub note_leases-Nodup :
    (now : ℕ) (leases : List Lease) (active draining : List Text)
    → Nodup active
    → Nodup draining
    → Nodup (note_leases now leases (active, draining)).0
      × Nodup (note_leases now leases (active, draining)).1
unfolding note_leases
note_leases-Nodup now [] active draining a d = (a, d)
note_leases-Nodup now (lease ∷ leases) active draining a d =
    let found = note_lease now lease (active, draining) in
    let (a', d') = note_lease-Nodup now lease active draining a d in
    note_leases-Nodup now leases found.0 found.1 a' d'

-- The name of a lease that stands for a replica is the prefix with the replica's ID.
pub name_of_replica :
    (lease : Lease) (r : Text) → replica_of lease ≡ some r → lease.name ≡ some (lease_prefix ++ r)
unfolding replica_of
name_of_replica lease r h = elim (Option-cases lease.name) [
  | inl e ↦ ground arith
  | inr (n, e) ↦ ground (arith, strip_prefix_sound n lease_prefix r)
]

pub listed-named :
    (now : ℕ) (drains : Bool) (r : Text) (leases : List Lease)
    → listed now drains r leases ≡ true
    → named (lease_prefix ++ r) leases ≡ true
listed-named now drains r [] h = ground arith
listed-named now drains r (lease ∷ leases) h = elim (Option-cases (replica_of lease)) [
  | inl e ↦ ground (arith, listed-named now drains r leases)
  | inr (s, e) ↦ ground (
    arith,
    text_beq_iff s r,
    name_of_replica lease s e,
    listed-named now drains r leases,
    text_beq_iff (lease_prefix ++ s) (lease_prefix ++ r),
  )
]

-- With distinct names no replica is listed both as active and as draining.
pub listed_once :
    (now : ℕ) (r : Text) (leases : List Lease)
    → DistinctNames leases
    → listed now false r leases ≡ true
    → listed now true r leases ≡ false
listed_once now r [] d h = ground arith
listed_once now r (lease ∷ leases) (fresh, d) h = elim (Option-cases (replica_of lease)) [
  | inl e ↦ ground (arith, listed_once now r leases d)
  | inr (s, e) ↦ ground (
    arith,
    text_beq_iff s r,
    listed_once now r leases d,
    fresh (lease_prefix ++ s) (name_of_replica lease s e),
    listed-named now true r leases,
    listed-named now false r leases,
  )
]

-- What each set must hold of a replica after an update from the given leases.
abbrev pub in_active : MembershipManager → ℕ → List Lease → Text → Bool
in_active m now leases r =
    listed now false r leases && not (m.replica_sets.local_draining && m.my_replica_id == r)

abbrev pub in_draining : MembershipManager → ℕ → List Lease → Text → Bool
in_draining m now leases r =
    listed now true r leases || (m.replica_sets.local_draining && m.my_replica_id == r)

module _ (m : MembershipManager) (now : ℕ) (leases : List Lease) where
  abbrev found : List Text × List Text
  found = note_leases now leases ([], [])

  abbrev installed : ReplicaSets
  installed = (install_sets m found).replica_sets

  found-Nodup : Nodup found.0 × Nodup found.1
  found-Nodup = note_leases-Nodup now leases [] [] tt tt

  installed-active : (r : Text) → contains installed.active r ≡ in_active m now leases r
  unfolding install_sets
  installed-active r = ground (
    arith,
    note_leases-contains now leases [] [] r,
    contains-remove_elem m.my_replica_id r found.0 found-Nodup.0,
  )

  installed-draining : (r : Text) → contains installed.draining r ≡ in_draining m now leases r
  unfolding install_sets
  installed-draining r = ground (
    arith,
    note_leases-contains now leases [] [] r,
    contains-insert_elem m.my_replica_id r found.1,
  )

  installed-flag : installed.local_draining ≡ m.replica_sets.local_draining
  unfolding install_sets
  installed-flag = ground arith

  installed-Nodup : Nodup installed.active × Nodup installed.draining
  unfolding install_sets
  installed-Nodup =
      let (a, d) = found-Nodup in
      ground (
        arith,
        a,
        d,
        remove_elem-Nodup m.my_replica_id found.0 a,
        insert_elem-Nodup m.my_replica_id found.1 d,
      )

module _ (k8s : LeaseApi) (m : MembershipManager) (now : ℕ) (server : k8s.Server)
    (leases : List Lease) (answer : k8s.list app_selector server ≡ ok leases) where
  abbrev updated : ReplicaSets
  updated = (update_active_replicas k8s m now server).1.replica_sets

  updates :
      update_active_replicas k8s m now server
      ≡ (ok tt, install_sets m (note_leases now leases ([], [])))
  unfolding update_active_replicas
  updates = rw (answer, update_active_replicas)

  -- An update that the API server answers succeeds. The active set then holds exactly the
  -- replicas with a current lease that is not marked as draining, and the draining set those with
  -- one that is; a replica that is itself draining stands in the second and never in the first.
  -- The draining flag stays.
  pub update_active_replicas-classifies :
      ((update_active_replicas k8s m now server).0 ≡ ok tt)
      × ((r : Text) → contains updated.active r ≡ in_active m now leases r)
      × ((r : Text) → contains updated.draining r ≡ in_draining m now leases r)
      × (updated.local_draining ≡ m.replica_sets.local_draining)
  update_active_replicas-classifies =
      subst
        (λ (p : Result (Unit {0}) × MembershipManager).
          (p.0 ≡ ok tt)
          × ((r : Text) → contains p.1.replica_sets.active r ≡ in_active m now leases r)
          × ((r : Text) → contains p.1.replica_sets.draining r ≡ in_draining m now leases r)
          × (p.1.replica_sets.local_draining ≡ m.replica_sets.local_draining))
        (sym updates)
        (
          refl,
          installed-active m now leases,
          installed-draining m now leases,
          installed-flag m now leases,
        )

  -- With distinct lease names the two sets are disjoint after an update, and the union that
  -- `get_all_replicas` returns holds no replica twice.
  pub get_all_replicas-Nodup :
      DistinctNames leases
      → ((r : Text) → contains updated.active r ≡ true → contains updated.draining r ≡ false)
        × Nodup (get_all_replicas updated)
  unfolding get_all_replicas
  get_all_replicas-Nodup d =
      subst
        (λ (p : Result (Unit {0}) × MembershipManager).
          ((r : Text)
            → contains p.1.replica_sets.active r ≡ true
            → contains p.1.replica_sets.draining r ≡ false)
          × Nodup (p.1.replica_sets.active ++ p.1.replica_sets.draining))
        (sym updates)
        (
          apart,
          append-Nodup _ _ (installed-Nodup m now leases).0 (installed-Nodup m now leases).1 apart,
        )
    where
      apart :
          (r : Text)
          → contains (installed m now leases).active r ≡ true
          → contains (installed m now leases).draining r ≡ false
      apart r h = ground (
        arith,
        installed-active m now leases r,
        installed-draining m now leases r,
        listed_once now r leases d,
      )

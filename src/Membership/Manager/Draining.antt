-- ===== src/Membership/Manager/Draining.antt =====
-- A replica that has begun to drain goes on draining: no operation clears the flag.
use external_pod_autoscaler.Prelude.{ℕ, ◌≡◌, refl, true, arith, ◌∙◌}
use external_pod_autoscaler.Text.{Text, text_Eq}
use external_pod_autoscaler.Membership.Manager.{
  LeaseApi, MembershipManager, own_lease, is_draining_lease, update_active_replicas, install_sets,
  mark_draining, delete_lease,
}
use external_pod_autoscaler.Membership.Manager.Renewal.{own_lease_drains}

module _ (k8s : LeaseApi) where
  -- The operations that change the manager's state, at any time and against any server.
  pub data Step : MembershipManager → MembershipManager → Type 0 where
    updated :
        (m : MembershipManager) (now : ℕ) (server : k8s.Server)
        → Step m (update_active_replicas k8s m now server).1
    marked :
        (m : MembershipManager) (now : ℕ) (server : k8s.Server)
        → Step m (mark_draining k8s m now server).0
    deleted : (m : MembershipManager) (server : k8s.Server) → Step m (delete_lease k8s m server).1

  pub data Reach (m : MembershipManager) : MembershipManager → Type 0 where
    here : Reach m m
    next : {m' m'' : MembershipManager} → Reach m m' → Step m' m'' → Reach m m''

  abbrev Drains : MembershipManager → Text → Type 0
  Drains m id = (m.replica_sets.local_draining ≡ true) × (m.my_replica_id ≡ id)

  updated-Drains :
      (m : MembershipManager) (id : Text) (now : ℕ) (server : k8s.Server)
      → Drains m id
      → Drains (update_active_replicas k8s m now server).1 id
  unfolding update_active_replicas install_sets
  updated-Drains m id now server h = ground arith

  marked-Drains :
      (m : MembershipManager) (now : ℕ) (server : k8s.Server)
      → Drains (mark_draining k8s m now server).0 m.my_replica_id
  unfolding mark_draining
  marked-Drains m now server = (refl, refl)

  deleted-Drains :
      (m : MembershipManager) (server : k8s.Server)
      → Drains (delete_lease k8s m server).1 m.my_replica_id
  unfolding delete_lease
  deleted-Drains m server = ground arith

  Step-Drains : {m m' : MembershipManager} (id : Text) → Step m m' → Drains m id → Drains m' id
  Step-Drains id (updated m now server) h = updated-Drains m id now server h
  Step-Drains id (marked m now server) h =
      ((marked-Drains m now server).0, (marked-Drains m now server).1 ∙ h.1)
  Step-Drains id (deleted m server) h =
      ((deleted-Drains m server).0, (deleted-Drains m server).1 ∙ h.1)

  Reach-Drains : {m m' : MembershipManager} (id : Text) → Drains m id → Reach m m' → Drains m' id
  Reach-Drains id h here = h
  Reach-Drains id h (next r st) = Step-Drains id st (Reach-Drains id h r)

  -- Draining cannot be undone: in every state that the operations reach after `mark_draining`,
  -- whatever the API server answers, the lease that the next renewal writes is marked as draining
  -- and is the lease of the same replica.
  pub mark_draining_sticks :
      (m : MembershipManager) (now : ℕ) (server : k8s.Server) {m' : MembershipManager}
      → Reach (mark_draining k8s m now server).0 m'
      → (later : ℕ)
      → (is_draining_lease (own_lease m' later) ≡ true)
        × ((own_lease m' later).name ≡ (own_lease m later).name)
  unfolding own_lease
  mark_draining_sticks m now server {m'} r later =
      let (flag, id) = Reach-Drains m.my_replica_id (marked-Drains m now server) r in
      (own_lease_drains m' later ∙ flag, rw id)

-- ===== src/Process/Ready.antt =====
-- When a replica is ready, and what a start that fails leaves behind.
use external_pod_autoscaler.Prelude.{
  ℕ, ◌+◌, ◌≡◌, ◌≢◌, ◌↔◌, refl, true, false, List, arith, Bool-cases, inl, inr, ltb, contains, ap,
  ◌∙◌,
}
use mathlib.Core.Path.{subst}
use external_pod_autoscaler.Text.{text_Eq, codes}
use external_pod_autoscaler.Membership.Manager.{
  MembershipManager, Lease, LeaseApi, Result, ok, err, missing_holder, register_and_renew,
  update_active_replicas, new, app_selector,
}
use external_pod_autoscaler.Membership.Manager.Sets.{DistinctNames}
use external_pod_autoscaler.Membership.Manager.Renewal.{ListsWrites, lease_nanos, renewal_seen}
use external_pod_autoscaler.Health.{
  Readiness, not_ready, mark_lease_registered, mark_membership_populated, mark_tls_loaded, pending,
  readyz,
}
use external_pod_autoscaler.Process.Environment.{Environment, drain_secs, metrics_port}
use external_pod_autoscaler.Process.Startup.{
  Outside, bad_drain_duration, Outcome, running, failed, Identity, Identified, identified, missing,
  identity_of, populate, register_lease, manager_of, start_with, start, run_webhook_server,
  readiness_of,
}
use external_pod_autoscaler.Process.Registered.{
  is_past_registration, registered_only, spawned, started, IsRegistered,
}

module _ (k8s : LeaseApi) where
  open k8s use {Server}

  -- The flag of the certificate is for the webhook server to set.
  no_tls_populated :
      (env : Environment) (outside : Outside) (r : Readiness) (server : Server)
      (answer : Result (Unit {0}) × MembershipManager)
      → r.tls_loaded ≡ false
      → (populate k8s env outside answer r server).readiness.tls_loaded ≡ false
  unfolding mark_membership_populated
  no_tls_populated env outside r server (ok x, peers) e =
      ap (λ (t : Readiness). t.tls_loaded)
        (spawned k8s outside (drain_secs (env (codes "DRAIN_DURATION"))) peers
          (mark_membership_populated r) server).0
      ∙ e
  no_tls_populated env outside r server (err x, peers) e = e
  no_tls_populated env outside r server (missing_holder, peers) e = e

  no_tls_registered :
      (env : Environment) (outside : Outside) (later : ℕ) (m : MembershipManager)
      (answer : Result (Unit {0}) × Server)
      → (register_lease k8s env outside later m answer not_ready).readiness.tls_loaded ≡ false
  unfolding mark_lease_registered
  no_tls_registered env outside later m (ok x, server) =
      no_tls_populated env outside (mark_lease_registered not_ready) server
        (update_active_replicas k8s m later server) refl
  no_tls_registered env outside later m (err x, server) = refl
  no_tls_registered env outside later m (missing_holder, server) = refl

  no_tls_identified :
      (env : Environment) (outside : Outside) (now later : ℕ) (server : Server) (who : Identified)
      → (start_with k8s env outside now later server who).readiness.tls_loaded ≡ false
  no_tls_identified env outside now later server (missing name) = refl
  no_tls_identified env outside now later server (identified id) =
      let m = manager_of k8s env id in
      elim (Bool-cases (outside.binds (metrics_port env))) [
        | inl e ↦ rw e (no_tls_registered env outside later m (register_and_renew k8s m now server))
        | inr e ↦ rw e refl
      ]

  no_tls :
      (env : Environment) (outside : Outside) (now later : ℕ) (server : Server)
      → (start k8s env outside now later server).readiness.tls_loaded ≡ false
  unfolding start
  no_tls env outside now later server = elim (Bool-cases outside.client) [
    | inl e ↦ rw e (no_tls_identified env outside now later server (identity_of env))
    | inr e ↦ rw e refl
  ]

abbrev pub IsRunning : Outcome → Type 0
IsRunning (running m secs) = Unit
IsRunning (failed e) = ⊥

ready_flags : (r : Readiness) → readyz r ≡ (200, codes "ok") → r.tls_loaded ≡ true
unfolding readyz pending
ready_flags r h = ground arith

serves :
    (outside : Outside) (outcome : Outcome) (r : Readiness)
    → r.tls_loaded ≡ false
    → (run_webhook_server outside outcome r).tls_loaded ≡ true
    → IsRunning outcome × (outside.forward_client ≡ true) × (outside.loads_tls ≡ true)
unfolding mark_tls_loaded
serves outside (running m secs) r e h = (tt, ground arith, ground arith)
serves outside (failed x) r e h = absurd (ground arith)

past : (outcome : Outcome) → IsRunning outcome → is_past_registration outcome ≡ true
past (running m secs) h = refl
past (failed e) h = elim h [ ]

ready_there :
    (outside : Outside) (outcome : Outcome) (r : Readiness)
    → IsRunning outcome
    → outside.forward_client ≡ true
    → outside.loads_tls ≡ true
    → r ≡ registered_only
    → readyz (run_webhook_server outside outcome r) ≡ (200, codes "ok")
unfolding mark_tls_loaded readyz pending
ready_there outside (running m secs) r h f t e = rw (e, f, t) refl
ready_there outside (failed x) r h f t e = elim h [ ]

module _ (k8s : LeaseApi) where
  -- A replica answers on `/readyz` with 200 and `ok` exactly when its start has come to the running
  -- of the components, the client for forwarding has been made, the certificate has been loaded,
  -- and the identity was there, the lease has been written and the replica sets have been read;
  -- every start that fails is answered otherwise.
  pub readyz-start :
      (env : Environment) (outside : Outside) (now later : ℕ) (server : k8s.Server)
      → let b = start k8s env outside now later server in
        (readyz (readiness_of k8s outside b) ≡ (200, codes "ok")) ↔ (
          IsRunning b.outcome
          × (outside.forward_client ≡ true)
          × (outside.loads_tls ≡ true)
          × ((id : Identity) × (identity_of env ≡ identified id)
              × IsRegistered k8s (manager_of k8s env id) now later server b))
  unfolding readiness_of
  readyz-start env outside now later server =
      let b = start k8s env outside now later server in
      (
        λ h.
            let (runs, forwards, loads) =
              serves outside b.outcome b.readiness (no_tls k8s env outside now later server)
                (ready_flags (run_webhook_server outside b.outcome b.readiness) h) in
            let (id, who, (registered, marks)) =
              started k8s env outside now later server (past b.outcome runs) in
            (runs, forwards, loads, (id, who, registered)),
        λ (runs, forwards, loads, _).
            let (_, _, (_, marks)) =
              started k8s env outside now later server (past b.outcome runs) in
            ready_there outside b.outcome b.readiness runs forwards loads marks,
      )

  -- A start that ends because of `DRAIN_DURATION` leaves the lease behind: the other replicas count
  -- the replica as active as long as the lease lasts, although nothing of it runs. The server lists
  -- what it has accepted, and lease names are distinct.
  pub failed_start_stays_active :
      ListsWrites k8s
      → (env : Environment) (outside : Outside) (now later t : ℕ) (server : k8s.Server)
        (peer : MembershipManager) (id : Identity) (leases : List Lease)
      → (start k8s env outside now later server).outcome ≡ failed bad_drain_duration
      → identity_of env ≡ identified id
      → k8s.list app_selector (start k8s env outside now later server).server ≡ ok leases
      → DistinctNames leases
      → peer.my_replica_id ≢ id.pod_uid
      → let b = start k8s env outside now later server in
        let sets = (update_active_replicas k8s peer t b.server).1.replica_sets in
        contains sets.active id.pod_uid ≡ ltb t (now + lease_nanos)
  unfolding new
  failed_start_stays_active laws env outside now later t server peer id leases f who l d ne =
      let b = start k8s env outside now later server in
      let (id', who', (r, _)) =
        started k8s env outside now later server (ap is_past_registration f) in
      let same : id' ≡ id = cc in
      let written =
        subst (λ i. register_and_renew k8s (manager_of k8s env i) now server ≡ (ok tt, b.server))
          same r.written in
      let (active, _) =
        renewal_seen k8s laws (manager_of k8s env id) peer now t server b.server leases written l d
          ne in
      ground (arith, active)

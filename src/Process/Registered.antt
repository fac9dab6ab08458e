-- ===== src/Process/Registered.antt =====
-- A start that comes past the calls of the manager has registered its lease.
use external_pod_autoscaler.Prelude.{
  ℕ, ◌≡◌, refl, Bool, true, false, Option, none, some, arith, Bool-cases, inl, inr, ap, sym, ◌∙◌,
}
use external_pod_autoscaler.Text.{text_Eq, codes}
use external_pod_autoscaler.Membership.Manager.{
  MembershipManager, LeaseApi, Result, ok, err, missing_holder, register_and_renew,
  update_active_replicas,
}
use external_pod_autoscaler.Health.{
  Readiness, not_ready, mark_lease_registered, mark_membership_populated,
}
use external_pod_autoscaler.Process.Environment.{Environment, drain_secs, metrics_port}
use external_pod_autoscaler.Process.Startup.{
  Outside, no_client, not_set, cannot_bind, not_registered, not_populated, bad_drain_duration,
  no_signals, Outcome, running, failed, Identity, Identified, identified, missing, identity_of,
  Boot, spawn_components, populate, register_lease, manager_of, bind_health, start_with, start,
}

-- The outcomes that come after the calls of the manager.
abbrev pub is_past_registration : Outcome → Bool
is_past_registration (running m secs) = true
is_past_registration (failed bad_drain_duration) = true
is_past_registration (failed no_signals) = true
is_past_registration (failed no_client) = false
is_past_registration (failed (not_set name)) = false
is_past_registration (failed (cannot_bind port)) = false
is_past_registration (failed not_registered) = false
is_past_registration (failed not_populated) = false

abbrev pub registered_only : Readiness
registered_only = record {
  tls_loaded = false;
  lease_registered = true;
  membership_populated = true;
}

module _ (k8s : LeaseApi) where
  open k8s use {Server}

  -- The lease has been written and the replica sets have been read.
  pub record IsRegistered (m : MembershipManager) (now later : ℕ) (server : Server) (b : Boot k8s)
      : Type 0 where
    pub written : register_and_renew k8s m now server ≡ (ok tt, b.server)
    pub peers : MembershipManager
    pub discovered : update_active_replicas k8s m later b.server ≡ (ok tt, peers)

  -- The same, and both are marked for the probe.
  abbrev pub Registers :
      (m : MembershipManager) (now later : ℕ) (server : Server) → Boot k8s → Type 0
  Registers m now later server b =
      IsRegistered m now later server b × (b.readiness ≡ registered_only)

  pub spawned :
      (outside : Outside) (secs : Option ℕ) (m : MembershipManager) (r : Readiness)
      (server : Server)
      → ((spawn_components k8s outside secs m r server).readiness ≡ r)
        × ((spawn_components k8s outside secs m r server).server ≡ server)
  spawned outside none m r server = (refl, refl)
  spawned outside (some secs) m r server = (refl, refl)

  populated :
      (env : Environment) (outside : Outside) (m : MembershipManager) (now later : ℕ)
      (before server : Server) (answer : Result (Unit {0}) × MembershipManager)
      → register_and_renew k8s m now before ≡ (ok tt, server)
      → update_active_replicas k8s m later server ≡ answer
      → is_past_registration
          (populate k8s env outside answer (mark_lease_registered not_ready) server).outcome
        ≡ true
      → Registers m now later before
          (populate k8s env outside answer (mark_lease_registered not_ready) server)
  unfolding mark_lease_registered mark_membership_populated
  populated env outside m now later before server (ok x, peers) w e h =
      let secs = drain_secs (env (codes "DRAIN_DURATION")) in
      let r = mark_membership_populated (mark_lease_registered not_ready) in
      let (ready, here) = spawned outside secs peers r server in
      (
        record {
          written = w ∙ ap (λ t. (ok tt, t)) (sym here);
          peers = peers;
          discovered = ap (λ t. update_active_replicas k8s m later t) here ∙ e;
        },
        ready,
      )
  populated env outside m now later before server (err x, peers) w e h = absurd (ground arith)
  populated env outside m now later before server (missing_holder, peers) w e h =
      absurd (ground arith)

  registered :
      (env : Environment) (outside : Outside) (m : MembershipManager) (now later : ℕ)
      (before : Server) (answer : Result (Unit {0}) × Server)
      → register_and_renew k8s m now before ≡ answer
      → is_past_registration (register_lease k8s env outside later m answer not_ready).outcome
        ≡ true
      → Registers m now later before (register_lease k8s env outside later m answer not_ready)
  registered env outside m now later before (ok x, server) e h =
      populated env outside m now later before server (update_active_replicas k8s m later server) e
        refl h
  registered env outside m now later before (err x, server) e h = absurd (ground arith)
  registered env outside m now later before (missing_holder, server) e h = absurd (ground arith)

  bound :
      (env : Environment) (outside : Outside) (now later : ℕ) (server : Server) (id : Identity)
      → is_past_registration (bind_health k8s env outside now later server not_ready id).outcome
        ≡ true
      → Registers
          (manager_of k8s env id)
          now
          later
          server
          (bind_health k8s env outside now later server not_ready id)
  bound env outside now later server id h =
      let m = manager_of k8s env id in
      elim (Bool-cases (outside.binds (metrics_port env))) [
        | inl e ↦ rw e (
            registered env outside m now later server (register_and_renew k8s m now server) refl
              (rw e at h))
        | inr e ↦ let stopped = rw e at h in absurd (ground (arith, stopped))
      ]

  identified_start :
      (env : Environment) (outside : Outside) (now later : ℕ) (server : Server) (who : Identified)
      → identity_of env ≡ who
      → is_past_registration (start_with k8s env outside now later server who).outcome ≡ true
      → (id : Identity) × (identity_of env ≡ identified id)
        × Registers
            (manager_of k8s env id)
            now
            later
            server
            (start_with k8s env outside now later server who)
  identified_start env outside now later server (identified id) e h =
      (id, e, bound env outside now later server id h)
  identified_start env outside now later server (missing name) e h = absurd (ground arith)

  -- A start that comes past the calls of the manager has an identity, has registered and has marked that it has.
  pub started :
      (env : Environment) (outside : Outside) (now later : ℕ) (server : Server)
      → is_past_registration (start k8s env outside now later server).outcome ≡ true
      → (id : Identity) × (identity_of env ≡ identified id)
        × Registers
            (manager_of k8s env id)
            now
            later
            server
            (start k8s env outside now later server)
  unfolding start
  started env outside now later server h = elim (Bool-cases outside.client) [
    | inl e ↦
        rw e (identified_start env outside now later server (identity_of env) refl (rw e at h))
    | inr e ↦ let stopped = rw e at h in absurd (ground (arith, stopped))
  ]

-- ===== src/Process/Startup.antt =====
-- The start of src/main.rs, up to the spawn of the components, and the TLS start of
-- src/webhook/server.rs. What the libraries answer is an argument: whether a client can be built,
-- which ports can be bound, whether the signal handlers register and the certificate loads.
use external_pod_autoscaler.Prelude.{ℕ, Bool, ◌&&◌, Option, none, some, if◌then◌else◌}
use external_pod_autoscaler.Text.{Text, codes}
use external_pod_autoscaler.Membership.Manager.{
  MembershipManager, LeaseApi, Result, ok, err, missing_holder, register_and_renew,
  update_active_replicas, new,
}
use external_pod_autoscaler.Health.{
  Readiness, not_ready, mark_lease_registered, mark_membership_populated, mark_tls_loaded,
}
use external_pod_autoscaler.Process.Environment.{
  Environment, ok_text, webhook_port, metrics_port, drain_secs,
}

pub record Outside : Type 0 where
  pub client : Bool
  pub binds : (port : ℕ) → Bool
  pub handles_signals : Bool
  pub forward_client : Bool
  pub loads_tls : Bool

pub data StartError : Type 0 where
  no_client : StartError
  not_set : (name : Text) → StartError
  cannot_bind : (port : ℕ) → StartError
  not_registered not_populated bad_drain_duration no_signals : StartError

-- The components run, or the process has ended with an error.
pub data Outcome : Type 0 where
  running : MembershipManager → (drain_secs : ℕ) → Outcome
  failed : StartError → Outcome

-- The names, the addresses and the namespace that the Downward API gives.
pub record Identity : Type 0 where
  pub pod_uid : Text
  pub pod_ip : Text
  pub pod_name : Text
  pub pod_namespace : Text

pub data Identified : Type 0 where
  identified : Identity → Identified
  missing : (name : Text) → Identified

-- `std::env::var(name).context(...)?`.
abbrev pub require : Environment → Text → (Text → Identified) → Identified
require env name next = elim (ok_text (env name)) [ none ↦ missing name | some t ↦ next t ]

abbrev pub with_namespace : Text → Text → Text → Text → Identified
with_namespace uid ip name namespace =
    identified record { pod_uid = uid; pod_ip = ip; pod_name = name; pod_namespace = namespace }

unfoldable pub identity_of : Environment → Identified
identity_of env = require env (codes "POD_UID") λ uid. require env (codes "POD_IP") λ ip.
    require env (codes "POD_NAME")
      λ name. require env (codes "POD_NAMESPACE") (with_namespace uid ip name)

-- `run_webhook_server`, up to the accepting of connections: the certificate is loaded if the HTTP
-- client for the forwarding can be built.
abbrev pub run_webhook_server : Outside → Outcome → Readiness → Readiness
run_webhook_server outside (failed e) r = r
run_webhook_server outside (running m secs) r =
    if outside.forward_client && outside.loads_tls then mark_tls_loaded r else r

module _ (k8s : LeaseApi) where
  open k8s use {Server}

  pub record Boot : Type 0 where
    pub readiness : Readiness
    pub server : Server
    pub outcome : Outcome

  abbrev pub boot : Readiness → Server → Outcome → Boot
  boot readiness server outcome = record {
    readiness = readiness;
    server = server;
    outcome = outcome;
  }

  -- `DRAIN_DURATION` and the signal handlers.
  abbrev pub spawn_components : Outside → Option ℕ → MembershipManager → Readiness → Server → Boot
  spawn_components outside none m r server = boot r server (failed bad_drain_duration)
  spawn_components outside (some secs) m r server =
      boot r server (if outside.handles_signals then running m secs else failed no_signals)

  abbrev pub populate :
      Environment → Outside → Result (Unit {0}) × MembershipManager → Readiness → Server → Boot
  populate env outside (ok _, m) r server =
      spawn_components outside (drain_secs (env (codes "DRAIN_DURATION"))) m
        (mark_membership_populated r) server
  populate env outside (err e, m) r server = boot r server (failed not_populated)
  populate env outside (missing_holder, m) r server = boot r server (failed not_populated)

  -- The calls of the manager: first the lease, then the replica sets.
  abbrev pub register_lease :
      Environment
      → Outside
      → (later : ℕ) → MembershipManager
      → Result (Unit {0}) × Server
      → Readiness
      → Boot
  register_lease env outside later m (ok _, server) r =
      populate env outside (update_active_replicas k8s m later server) (mark_lease_registered r)
        server
  register_lease env outside later m (err e, server) r = boot r server (failed not_registered)
  register_lease env outside later m (missing_holder, server) r =
      boot r server (failed not_registered)

  abbrev pub manager_of : Environment → Identity → MembershipManager
  manager_of env id = new id.pod_uid id.pod_ip id.pod_name id.pod_namespace (webhook_port env)

  abbrev pub bind_health :
      Environment → Outside → (now later : ℕ) → Server → Readiness → Identity → Boot
  bind_health env outside now later server r id =
      let m = manager_of env id in
      if outside.binds (metrics_port env)
      then register_lease env outside later m (register_and_renew k8s m now server) r
      else boot r server (failed (cannot_bind (metrics_port env)))

  abbrev pub start_with : Environment → Outside → (now later : ℕ) → Server → Identified → Boot
  start_with env outside now later server (missing name) =
      boot not_ready server (failed (not_set name))
  start_with env outside now later server (identified id) =
      bind_health env outside now later server not_ready id

  -- `main`, up to its `select!`.
  unfoldable pub start : Environment → Outside → (now later : ℕ) → Server → Boot
  start env outside now later server =
      if outside.client
      then start_with env outside now later server (identity_of env)
      else boot not_ready server (failed no_client)

  -- The readiness once the components have started.
  unfoldable pub readiness_of : Outside → Boot → Readiness
  readiness_of outside b = run_webhook_server outside b.outcome b.readiness

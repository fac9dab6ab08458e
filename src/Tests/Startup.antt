-- ===== src/Tests/Startup.antt =====
-- Examples of the start: one that is ready, and one that ends because of its drain duration.
use external_pod_autoscaler.Prelude.{
  ◌+◌, ◌≡◌, ◌≢◌, ◌↔◌, refl, true, [], ◌∷◌, List, arith, contains, ltb, if◌then◌else◌, ◌==◌,
}
use external_pod_autoscaler.Text.{codes, text_Eq}
use external_pod_autoscaler.Membership.Manager.{
  Lease, MembershipManager, ok, new, own_lease, register_and_renew, update_active_replicas,
  app_selector,
}
use external_pod_autoscaler.Membership.Manager.Sets.{DistinctNames}
use external_pod_autoscaler.Membership.Manager.Renewal.{lease_nanos}
use external_pod_autoscaler.Health.{
  readyz, pending, mark_tls_loaded, mark_lease_registered, mark_membership_populated,
}
use external_pod_autoscaler.Process.Environment.{
  Var, value, not_present, Environment, enable_webhooks, drain_secs, worker_count, job_slots,
}
use external_pod_autoscaler.Process.Startup.{
  Outside, failed, bad_drain_duration, Identity, identified, identity_of, Boot, manager_of, start,
  readiness_of,
}
use external_pod_autoscaler.Process.Registered.{IsRegistered}
use external_pod_autoscaler.Process.Ready.{IsRunning, readyz-start, failed_start_stays_active}
use external_pod_autoscaler.Tests.{alpha, beta, ns, seconds, leases_api, leases_laws}

-- The variables of the deployment, with the given drain duration.
abbrev env : Var → Environment
env drain name =
    if name == codes "POD_UID"
    then value alpha
    else if name == codes "POD_IP"
    then value (codes "10.0.0.1")
    else if name == codes "POD_NAME"
    then value (codes "pod")
    else if name == codes "POD_NAMESPACE"
    then value ns
    else if name == codes "DRAIN_DURATION"
    then drain
    else not_present

abbrev outside : Outside
outside = record {
  client = true;
  binds = λ port. true;
  handles_signals = true;
  forward_client = true;
  loads_tls = true;
}

abbrev good : Boot leases_api
good = start leases_api (env not_present) outside (seconds 5) (seconds 6) []

readyz-start_example : (readyz (readiness_of leases_api outside good) ≡ (200, codes "ok")) ↔ (
    IsRunning good.outcome
    × (outside.forward_client ≡ true)
    × (outside.loads_tls ≡ true)
    × ((id : Identity) × (identity_of (env not_present) ≡ identified id)
        × IsRegistered leases_api
            (manager_of leases_api (env not_present) id)
            (seconds 5)
            (seconds 6)
            []
            good))
readyz-start_example = readyz-start leases_api (env not_present) outside (seconds 5) (seconds 6) []

good_is_ready : readyz (readiness_of leases_api outside good) ≡ (200, codes "ok")
unfolding start identity_of readiness_of readyz register_and_renew update_active_replicas pending
    mark_tls_loaded mark_lease_registered mark_membership_populated drain_secs
good_is_ready = refl

-- `DRAIN_DURATION=2m` is no number.
abbrev minutes : Environment
minutes = env (value (codes "2m"))

abbrev bad : Boot leases_api
bad = start leases_api minutes outside (seconds 5) (seconds 6) []

abbrev id : Identity
id = record {
  pod_uid = alpha;
  pod_ip = codes "10.0.0.1";
  pod_name = codes "pod";
  pod_namespace = ns;
}

abbrev leases : List Lease
leases = own_lease (manager_of leases_api minutes id) (seconds 5) ∷ []

abbrev peer : MembershipManager
peer = new beta (codes "10.0.0.2") (codes "other") ns 8443

bad_outcome : bad.outcome ≡ failed bad_drain_duration
unfolding start identity_of register_and_renew update_active_replicas drain_secs
bad_outcome = refl

bad_leases : leases_api.list app_selector bad.server ≡ ok leases
unfolding start identity_of register_and_renew update_active_replicas drain_secs new
bad_leases = refl

there : identity_of minutes ≡ identified id
unfolding identity_of
there = refl

one_name : DistinctNames leases
one_name = (λ n e. refl, tt)

another : peer.my_replica_id ≢ id.pod_uid
unfolding new
another e = ground arith

failed_start_stays_active_example :
    let sets = (update_active_replicas leases_api peer (seconds 20) bad.server).1.replica_sets in
    contains sets.active id.pod_uid ≡ ltb (seconds 20) (seconds 5 + lease_nanos)
failed_start_stays_active_example =
    failed_start_stays_active leases_api leases_laws minutes outside (seconds 5) (seconds 6)
      (seconds 20) [] peer id leases bad_outcome there bad_leases one_name another

defaults : worker_count (env not_present) ≡ 20
unfolding worker_count
defaults = refl

slots : job_slots (env not_present) ≡ 1280
unfolding job_slots worker_count
slots = refl

enabled : enable_webhooks (env not_present) ≡ true
unfolding enable_webhooks
enabled = refl

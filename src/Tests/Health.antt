-- ===== src/Tests/Health.antt =====
-- Examples of the readiness.
use external_pod_autoscaler.Prelude.{◌≡◌, refl, [], ◌∷◌}
use external_pod_autoscaler.Health.{
  Readiness, not_ready, mark_all, tls, lease, membership, pending, mark_tls_loaded,
  mark_lease_registered, mark_membership_populated,
}

abbrev started : Readiness
started = mark_all (lease ∷ tls ∷ membership ∷ []) not_ready

all_met : pending started ≡ []
unfolding pending mark_tls_loaded mark_lease_registered mark_membership_populated
all_met = refl

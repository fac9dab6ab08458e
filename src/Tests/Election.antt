-- ===== src/Tests/Election.antt =====
-- Examples of the election among two replicas.
use external_pod_autoscaler.Prelude.{ℕ, ◌≡◌, ◌≢◌, refl, [], ◌∷◌, some, arith}
use external_pod_autoscaler.Text.{Text, text_Eq, text_beq_iff}
use external_pod_autoscaler.Membership.Ownership.{
  compute_weight, highest_weight_replica, max_by_weight, epa_key,
}
use external_pod_autoscaler.Membership.Ownership.Agreement.{DistinctWeights}
use external_pod_autoscaler.Tests.{hasher, alpha, beta, ns, epa_name}

abbrev pub key : Text
key = epa_key ns epa_name

abbrev pub weight : Text → ℕ
weight r = compute_weight hasher r key

pub weights_differ : weight alpha ≢ weight beta
unfolding compute_weight
weights_differ e = ground arith

pub distinct : (a b : Text) → weight a ≢ weight b → DistinctWeights weight (a ∷ b ∷ [])
distinct a b ne r q in_r in_q e =
    ground (arith, text_beq_iff a r, text_beq_iff b r, text_beq_iff a q, text_beq_iff b q)

beta_wins : highest_weight_replica hasher (alpha ∷ beta ∷ []) key ≡ some beta
unfolding highest_weight_replica max_by_weight compute_weight
beta_wins = refl

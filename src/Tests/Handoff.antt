-- ===== src/Tests/Handoff.antt =====
-- Examples of a handoff: `a` is the owner alone, then `b` joins and wins.
use external_pod_autoscaler.Prelude.{ℕ, ◌≡◌, ◌⊎◌, refl, true, false, [], ◌∷◌, arith}
use external_pod_autoscaler.Text.{Text, text_Eq}
use external_pod_autoscaler.Membership.Manager.{ReplicaSets, get_active_replicas}
use external_pod_autoscaler.Membership.Ownership.{
  compute_weight, highest_weight_replica, max_by_weight, epa_key, get_epa_owner, TransitionState,
  OwnershipState, new_state, should_scrape_epa, should_serve_epa,
}
use external_pod_autoscaler.Membership.Ownership.Transition.{IsValid}
use external_pod_autoscaler.Membership.Ownership.Runs.{Tick, refresh, run, Outcome}
use external_pod_autoscaler.Membership.Ownership.Grace.{
  grace_period, grace_period_ends, handoff_no_gap,
}
use external_pod_autoscaler.Tests.{hasher, alpha, beta, ns, epa_name, both_active, seconds}

abbrev key : Text
key = epa_key ns epa_name

abbrev record_of : ℕ → OwnershipState
record_of since = record { since = since; evaluation_period = seconds 60 }

-- `a` has owned the autoscaler from the start.
abbrev owning : TransitionState
owning = record { owned = (key, record_of 0) ∷ []; lost = [] }

owning-IsValid : IsValid owning
owning-IsValid = record { owned_once = (refl, tt); lost_once = tt; apart = λ k h. refl }

new-IsValid : IsValid new_state
new-IsValid = record { owned_once = tt; lost_once = tt; apart = λ k h. refl }

-- A tick that sees both replicas.
abbrev tick_at : ℕ → Tick
tick_at now = record {
  sets = both_active;
  namespace = ns;
  name = epa_name;
  evaluation_period = seconds 60;
  now = now;
  later = now;
}

alpha_loses : (now : ℕ) → Outcome hasher alpha key false (tick_at now)
unfolding get_epa_owner get_active_replicas highest_weight_replica max_by_weight compute_weight
alpha_loses now e = refl

beta_wins : (now : ℕ) → Outcome hasher beta key true (tick_at now)
unfolding get_epa_owner get_active_replicas highest_weight_replica max_by_weight compute_weight
beta_wins now e = refl

grace_period_example :
    let s' = run hasher alpha (tick_at (seconds 100) ∷ tick_at (seconds 120) ∷ []) owning in
    (should_scrape_epa s' ns epa_name ≡ true)
    × ((sets : ReplicaSets) (now : ℕ)
        → should_serve_epa hasher s' sets alpha ns epa_name now ≡ true)
grace_period_example =
    grace_period hasher alpha ns epa_name owning (record_of 0) (tick_at (seconds 100))
      (tick_at (seconds 120) ∷ []) owning-IsValid refl refl (alpha_loses (seconds 100), omega arith)
      ((alpha_loses (seconds 120), omega arith), tt)

abbrev losing : TransitionState
losing = record {
  owned = [];
  lost = (key, record { at = seconds 10; evaluation_period = seconds 60 }) ∷ [];
}

losing-IsValid : IsValid losing
losing-IsValid = record { owned_once = tt; lost_once = (refl, tt); apart = λ k h. ground arith }

grace_period_ends_example :
    (should_scrape_epa (refresh hasher alpha (tick_at (seconds 100)) losing) ns epa_name ≡ false)
    × ((sets : ReplicaSets) (now : ℕ)
        → should_serve_epa hasher
            (refresh hasher alpha (tick_at (seconds 100)) losing)
            sets
            alpha
            ns
            epa_name
            now
          ≡ false)
grace_period_ends_example =
    grace_period_ends hasher alpha ns epa_name losing
      (record { at = seconds 10; evaluation_period = seconds 60 }) (tick_at (seconds 100))
      losing-IsValid refl (alpha_loses (seconds 100)) (omega arith)

handoff_no_gap_example :
    (should_serve_epa hasher
        (run hasher alpha (tick_at (seconds 100) ∷ []) owning)
        both_active
        alpha
        ns
        epa_name
        (seconds 110)
      ≡ true)
    ⊎ (should_serve_epa hasher
          (run hasher beta (tick_at (seconds 103) ∷ []) new_state)
          both_active
          beta
          ns
          epa_name
          (seconds 110)
        ≡ true)
handoff_no_gap_example =
    handoff_no_gap hasher alpha beta ns epa_name owning new_state (record_of 0)
      (tick_at (seconds 100)) (tick_at (seconds 103)) [] [] both_active both_active (seconds 110)
      owning-IsValid new-IsValid refl refl refl refl (alpha_loses (seconds 100), omega arith)
      (beta_wins (seconds 103)) refl (omega arith) tt tt

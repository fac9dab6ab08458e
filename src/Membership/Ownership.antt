-- ===== src/Membership/Ownership.antt =====
-- src/membership/ownership.rs: rendezvous hashing over the replicas, and the two maps that
-- follow an ExternalPodAutoscaler (EPA) through a change of owner.
-- Times are nanoseconds. Every reading of the clock is an argument, and so is every snapshot of
-- the replica sets, since the code takes them outside the lock of `state`. The FNV hasher is a
-- parameter.
pub mod Election
pub mod Agreement
pub mod Fleet
pub mod Transition
pub mod Runs
pub mod Grace
use external_pod_autoscaler.Prelude.{
  ℕ, ◌+◌, ◌-◌, ◌*◌, Bool, true, false, not, ◌||◌, List, [], ◌∷◌, ◌++◌, Option, none, some, map, ltb,
  leb, if◌then◌else◌, ◌==◌, is_empty,
}
use external_pod_autoscaler.Text.{Text, text_Eq, as_bytes}
use external_pod_autoscaler.Assoc.{contains_key, lookup, modify_or_insert, insert, remove, retain}
use external_pod_autoscaler.Membership.Manager.{ReplicaSets, get_active_replicas, get_all_replicas}

-- `Duration::from_secs`.
abbrev pub secs : ℕ → ℕ
secs n = n * 1_000_000_000

abbrev pub grace_buffer : ℕ
grace_buffer = secs 5

-- `Instant::elapsed` at the reading `now`; it saturates at zero.
abbrev pub elapsed : ℕ → ℕ → ℕ
elapsed now since = now - since

-- The crate `fnv`: `Default`, `Hasher::write` and `Hasher::finish`.
pub record Hasher : Type 1 where
  pub State : Type 0
  pub default : State
  pub write : State → List ℕ → State
  pub finish : State → ℕ

pub record OwnershipState : Type 0 where
  pub since : ℕ
  pub evaluation_period : ℕ

pub record LostOwnership : Type 0 where
  pub at : ℕ
  pub evaluation_period : ℕ

pub record TransitionState : Type 0 where
  pub owned : List (Text × OwnershipState)
  pub lost : List (Text × LostOwnership)

-- `EpaOwnership::new`.
abbrev pub new_state : TransitionState
new_state = record { owned = []; lost = [] }

abbrev pub epa_key : Text → Text → Text
epa_key namespace name = namespace ++ b'/' ∷ name

-- The loop of `Iterator::max_by_key`: of two equal weights the later one stays.
unfoldable pub max_by_weight : Text × ℕ → List (Text × ℕ) → Text × ℕ
max_by_weight best [] = best
max_by_weight best (entry ∷ rest) = max_by_weight (if ltb entry.1 best.1 then best else entry) rest

-- `owner.as_deref() == Some(my_id)`.
abbrev pub is_mine : Option Text → Text → Bool
is_mine none my_id = false
is_mine (some owner) my_id = owner == my_id

-- `Duration::MAX`, in nanoseconds.
abbrev pub duration_max : ℕ
duration_max = 18_446_744_073_709_551_615_999_999_999

-- Whether an entry of `lost` is kept by the sweep of `refresh_ownership`, where the sum is a
-- duration.
abbrev pub in_grace : ℕ → LostOwnership → Bool
in_grace now entry = ltb (elapsed now entry.at) (entry.evaluation_period + grace_buffer)

-- The sweep panics where the sum of an entry is past the largest duration.
abbrev pub sweep_panics : List (Text × LostOwnership) → Bool
sweep_panics [] = false
sweep_panics ((key, entry) ∷ lost) =
    ltb duration_max (entry.evaluation_period + grace_buffer) || sweep_panics lost

-- The critical section of `refresh_ownership` up to the sweep: `now` is read where an entry is made.
abbrev pub noted : Bool → Text → ℕ → (now : ℕ) → TransitionState → TransitionState
noted i_am_winner key evaluation_period now state =
    let won : TransitionState = record {
      owned =
          modify_or_insert key (λ s. record s { evaluation_period = evaluation_period })
            (record { since = now; evaluation_period = evaluation_period }) state.owned;
      lost = remove key state.lost;
    } in
    let yielded : TransitionState = record {
      owned = remove key state.owned;
      lost =
          modify_or_insert key (λ s. s) (record { at = now; evaluation_period = evaluation_period })
            state.lost;
    } in
    if i_am_winner then won else if contains_key key state.owned then yielded else state

-- The critical section: `later` is read by the sweep.
unfoldable pub note_winner : Bool → Text → ℕ → (now later : ℕ) → TransitionState → TransitionState
note_winner i_am_winner key evaluation_period now later state =
    let next = noted i_am_winner key evaluation_period now state in
    record next { lost = retain (λ _ entry. in_grace later entry) next.lost }

unfoldable pub should_scrape_epa : TransitionState → Text → Text → Bool
should_scrape_epa state namespace name =
    contains_key (epa_key namespace name) state.owned
    || contains_key (epa_key namespace name) state.lost

module _ (hasher : Hasher) where
  open hasher use {State, default, write, finish}

  -- `str::hash`: the bytes, then one byte 0xff.
  abbrev hash_str : Text → State → State
  hash_str s st = write (write st (as_bytes s)) (0xff ∷ [])

  unfoldable pub compute_weight : Text → Text → ℕ
  compute_weight replica_id key = finish (hash_str key (hash_str replica_id default))

  abbrev weighed : Text → Text → Text × ℕ
  weighed key replica_id = (replica_id, compute_weight replica_id key)

  unfoldable pub highest_weight_replica : List Text → Text → Option Text
  highest_weight_replica [] key = none
  highest_weight_replica (replica_id ∷ replicas) key =
      some (max_by_weight (weighed key replica_id) (map (weighed key) replicas)).0

  unfoldable pub get_epa_owner : ReplicaSets → Text → Text → Option Text
  get_epa_owner sets namespace name =
      let active_replicas = get_active_replicas sets in
      if is_empty active_replicas
      then none
      else highest_weight_replica active_replicas (epa_key namespace name)

  -- The owner if draining replicas were still active.
  unfoldable pub get_previous_epa_owner : ReplicaSets → Text → Text → Option Text
  get_previous_epa_owner sets namespace name =
      let all_replicas = get_all_replicas sets in
      if is_empty all_replicas
      then none
      else highest_weight_replica all_replicas (epa_key namespace name)

  unfoldable pub is_epa_owner : ReplicaSets → Text → Text → Text → Bool
  is_epa_owner sets my_id namespace name = is_mine (get_epa_owner sets namespace name) my_id

  unfoldable pub refresh_ownership :
      ReplicaSets → Text → Text → Text → ℕ → (now later : ℕ) → TransitionState → TransitionState
  refresh_ownership sets my_id namespace name evaluation_period now later state =
      note_winner (is_mine (get_epa_owner sets namespace name) my_id) (epa_key namespace name)
        evaluation_period now later state

  -- The state that the sweep of `refresh_ownership` finds.
  abbrev pub before_sweep :
      ReplicaSets → Text → Text → Text → ℕ → (now : ℕ) → TransitionState → TransitionState
  before_sweep sets my_id namespace name evaluation_period now state =
      noted (is_mine (get_epa_owner sets namespace name) my_id) (epa_key namespace name)
        evaluation_period now state

  -- `Some(prev) => prev != my_id`.
  abbrev has_previous_owner : ReplicaSets → Text → Text → Text → Bool
  has_previous_owner sets my_id namespace name = elim (get_previous_epa_owner sets namespace name) [
    | none ↦ false
    | some prev ↦ not (prev == my_id)
  ]

  unfoldable pub should_serve_epa : TransitionState → ReplicaSets → Text → Text → Text → ℕ → Bool
  should_serve_epa state sets my_id namespace name now =
      elim (lookup (epa_key namespace name) state.owned) [
        | none ↦ contains_key (epa_key namespace name) state.lost
        | some s ↦
            leb s.evaluation_period (elapsed now s.since)
            || not (has_previous_owner sets my_id namespace name)
      ]

-- ===== src/Membership/Ownership/Runs.antt =====
-- Runs of ticks: what becomes of the entry of a key in `owned` and in `lost`.
use external_pod_autoscaler.Prelude.{
  ℕ, ◌+◌, ◌<◌, ◌≡◌, Bool, true, false, List, [], ◌∷◌, none, some, arith, inl, inr, Bool-cases, All,
}
use external_pod_autoscaler.Text.{Text, text_Eq, text_beq_iff}
use external_pod_autoscaler.Assoc.{lookup}
use external_pod_autoscaler.Membership.Manager.{ReplicaSets}
use external_pod_autoscaler.Membership.Ownership.{
  Hasher, OwnershipState, LostOwnership, TransitionState, grace_buffer, elapsed, in_grace,
  refresh_ownership, get_epa_owner, is_mine, epa_key,
}
use external_pod_autoscaler.Membership.Ownership.Transition.{
  IsValid, refresh_ownership-IsValid, lookup-owned_won, lookup-lost_won, lookup-owned_lost,
  lookup-lost_lost,
}

-- One call of `refresh_ownership`, with all that it reads.
pub record Tick : Type 0 where
  pub sets : ReplicaSets
  pub namespace : Text
  pub name : Text
  pub evaluation_period : ℕ
  pub now : ℕ
  pub later : ℕ

abbrev pub tick_key : Tick → Text
tick_key t = epa_key t.namespace t.name

module _ (hasher : Hasher) (my_id : Text) where
  abbrev pub wins : Tick → Bool
  wins t = is_mine (get_epa_owner hasher t.sets t.namespace t.name) my_id

  abbrev pub refresh : Tick → TransitionState → TransitionState
  refresh t s =
      refresh_ownership hasher t.sets my_id t.namespace t.name t.evaluation_period t.now t.later s

  -- The ticks of a replica, the earliest first.
  abbrev pub run : List Tick → TransitionState → TransitionState
  run [] s = s
  run (t ∷ ticks) s = run ticks (refresh t s)

  -- Every tick that is about `key` ends as `result` says.
  abbrev pub Outcome : Text → Bool → Tick → Type 0
  Outcome key result t = tick_key t ≡ key → wins t ≡ result

  -- An entry of `lost` survives a tick whose sweep is within the grace period.
  lost_stays :
      (key : Text) (t : Tick) (s : TransitionState) (entry : LostOwnership)
      → IsValid s
      → lookup key s.lost ≡ some entry
      → lookup key s.owned ≡ none
      → Outcome key false t
      → in_grace t.later entry ≡ true
      → (lookup key (refresh t s).lost ≡ some entry) × (lookup key (refresh t s).owned ≡ none)
  unfolding refresh_ownership
  lost_stays key t s entry v l o h g = elim (Bool-cases (wins t)) [
    | inl e ↦ rw e (
        ground (
          arith,
          h,
          text_beq_iff (tick_key t) key,
          lookup-lost_won (tick_key t) key t.evaluation_period t.now t.later s v,
          lookup-owned_won (tick_key t) key t.evaluation_period t.now t.later s v,
        ))
    | inr e ↦ rw e (
        ground (
          arith,
          text_beq_iff (tick_key t) key,
          lookup-lost_lost (tick_key t) key t.evaluation_period t.now t.later s v,
          lookup-owned_lost (tick_key t) key t.evaluation_period t.now t.later s v,
        ))
  ]

  pub refresh-IsValid : (t : Tick) (s : TransitionState) → IsValid s → IsValid (refresh t s)
  refresh-IsValid t s v =
      refresh_ownership-IsValid hasher t.sets my_id t.namespace t.name t.evaluation_period t.now
        t.later s v

  pub lost_stays_run :
      (key : Text) (ticks : List Tick) (s : TransitionState) (entry : LostOwnership)
      → IsValid s
      → lookup key s.lost ≡ some entry
      → lookup key s.owned ≡ none
      → All (λ t. Outcome key false t × (in_grace t.later entry ≡ true)) ticks
      → (lookup key (run ticks s).lost ≡ some entry) × (lookup key (run ticks s).owned ≡ none)
  lost_stays_run key [] s entry v l o h = (l, o)
  lost_stays_run key (t ∷ ticks) s entry v l o ((h, g), rest) =
      let (l', o') = lost_stays key t s entry v l o h g in
      lost_stays_run key ticks (refresh t s) entry (refresh-IsValid t s v) l' o' rest

  -- The tick at which an owner finds that it has lost starts the grace period, if the sweep of
  -- that same tick falls within it.
  pub owner_yields :
      (key : Text) (t : Tick) (s : TransitionState) (r : OwnershipState)
      → IsValid s
      → lookup key s.owned ≡ some r
      → tick_key t ≡ key
      → wins t ≡ false
      → elapsed t.later t.now < t.evaluation_period + grace_buffer
      → (lookup key (refresh t s).lost
          ≡ some (record { at = t.now; evaluation_period = t.evaluation_period }))
        × (lookup key (refresh t s).owned ≡ none)
  unfolding refresh_ownership
  owner_yields key t s r v o k e g = rw e (
      ground (
        arith,
        text_beq_iff (tick_key t) key,
        lookup-lost_lost (tick_key t) key t.evaluation_period t.now t.later s v,
        lookup-owned_lost (tick_key t) key t.evaluation_period t.now t.later s v,
      ))

  -- The entry of a winner keeps the instant at which it was made.
  winner_stays :
      (key : Text) (t : Tick) (s : TransitionState) (since period : ℕ)
      → IsValid s
      → lookup key s.owned ≡ some (record { since = since; evaluation_period = period })
      → Outcome key true t
      → (tick_key t ≡ key → t.evaluation_period ≡ period)
      → lookup key (refresh t s).owned ≡ some (record { since = since; evaluation_period = period })
  unfolding refresh_ownership
  winner_stays key t s since period v o h p = elim (Bool-cases (wins t)) [
    | inl e ↦ rw e (
        ground (
          arith,
          p,
          text_beq_iff (tick_key t) key,
          lookup-owned_won (tick_key t) key t.evaluation_period t.now t.later s v,
        ))
    | inr e ↦ rw e (
        ground (
          arith,
          h,
          text_beq_iff (tick_key t) key,
          lookup-owned_lost (tick_key t) key t.evaluation_period t.now t.later s v,
        ))
  ]

  pub winner_stays_run :
      (key : Text) (ticks : List Tick) (s : TransitionState) (since period : ℕ)
      → IsValid s
      → lookup key s.owned ≡ some (record { since = since; evaluation_period = period })
      → All (λ t. Outcome key true t × (tick_key t ≡ key → t.evaluation_period ≡ period)) ticks
      → lookup key (run ticks s).owned ≡ some (record { since = since; evaluation_period = period })
  winner_stays_run key [] s since period v o h = o
  winner_stays_run key (t ∷ ticks) s since period v o ((h, p), rest) =
      winner_stays_run key ticks (refresh t s) since period (refresh-IsValid t s v)
        (winner_stays key t s since period v o h p) rest

  -- A replica that becomes the owner notes the instant.
  pub winner_enters :
      (key : Text) (t : Tick) (s : TransitionState)
      → IsValid s
      → lookup key s.owned ≡ none
      → tick_key t ≡ key
      → wins t ≡ true
      → lookup key (refresh t s).owned
        ≡ some (record { since = t.now; evaluation_period = t.evaluation_period })
  unfolding refresh_ownership
  winner_enters key t s v o k e = rw e (
      ground (
        arith,
        text_beq_iff (tick_key t) key,
        lookup-owned_won (tick_key t) key t.evaluation_period t.now t.later s v,
      ))

  pub lost_goes :
      (key : Text) (t : Tick) (s : TransitionState) (entry : LostOwnership)
      → IsValid s
      → lookup key s.lost ≡ some entry
      → lookup key s.owned ≡ none
      → Outcome key false t
      → in_grace t.later entry ≡ false
      → (lookup key (refresh t s).lost ≡ none) × (lookup key (refresh t s).owned ≡ none)
  unfolding refresh_ownership
  lost_goes key t s entry v l o h g = elim (Bool-cases (wins t)) [
    | inl e ↦ rw e (
        ground (
          arith,
          h,
          text_beq_iff (tick_key t) key,
          lookup-lost_won (tick_key t) key t.evaluation_period t.now t.later s v,
          lookup-owned_won (tick_key t) key t.evaluation_period t.now t.later s v,
        ))
    | inr e ↦ rw e (
        ground (
          arith,
          text_beq_iff (tick_key t) key,
          lookup-lost_lost (tick_key t) key t.evaluation_period t.now t.later s v,
          lookup-owned_lost (tick_key t) key t.evaluation_period t.now t.later s v,
        ))
  ]

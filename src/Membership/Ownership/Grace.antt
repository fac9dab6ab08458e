-- ===== src/Membership/Ownership/Grace.antt =====
-- The grace period: an owner that loses an ExternalPodAutoscaler goes on for the grace period and no
-- longer, and a handoff leaves no instant at which nobody serves.
use external_pod_autoscaler.Prelude.{
  ℕ, ◌+◌, ◌≤◌, ◌<◌, ◌≡◌, ◌⊎◌, true, false, List, [], ◌∷◌, none, some, arith, leb→le, inl, inr, leb,
  Bool-cases, Option-cases, All,
}
use external_pod_autoscaler.Text.{Text, text_Eq}
use external_pod_autoscaler.Assoc.{lookup}
use external_pod_autoscaler.Assoc.Laws.{contains_key_of_lookup, contains_key_of_none}
use external_pod_autoscaler.Membership.Manager.{ReplicaSets}
use external_pod_autoscaler.Membership.Ownership.{
  Hasher, OwnershipState, LostOwnership, TransitionState, grace_buffer, elapsed, in_grace, epa_key,
  should_scrape_epa, should_serve_epa,
}
use external_pod_autoscaler.Membership.Ownership.Transition.{IsValid}
use external_pod_autoscaler.Membership.Ownership.Runs.{
  Tick, tick_key, refresh, run, Outcome, lost_stays_run, owner_yields, winner_stays_run,
  winner_enters, lost_goes, refresh-IsValid,
}

-- What the two questions answer, by the entries of the maps.
module _ (hasher : Hasher) (my_id : Text) (s : TransitionState) (namespace name : Text) where
  abbrev key : Text
  key = epa_key namespace name

  lost_scrapes :
      (entry : LostOwnership)
      → lookup key s.lost ≡ some entry
      → lookup key s.owned ≡ none
      → (should_scrape_epa s namespace name ≡ true)
        × ((sets : ReplicaSets) (now : ℕ)
            → should_serve_epa hasher s sets my_id namespace name now ≡ true)
  unfolding should_scrape_epa should_serve_epa
  lost_scrapes entry l o =
      let present = contains_key_of_lookup key entry s.lost l in
      (ground arith, λ sets now. rw (o, should_serve_epa) present)

  gone_stops :
      lookup key s.lost ≡ none
      → lookup key s.owned ≡ none
      → (should_scrape_epa s namespace name ≡ false)
        × ((sets : ReplicaSets) (now : ℕ)
            → should_serve_epa hasher s sets my_id namespace name now ≡ false)
  unfolding should_scrape_epa should_serve_epa
  gone_stops l o =
      let absent = contains_key_of_none key s.lost l in
      (
        ground (arith, contains_key_of_none key s.owned o),
        λ sets now. rw (o, should_serve_epa) absent,
      )

  owner_serves :
      (sets : ReplicaSets) (now since period : ℕ)
      → lookup key s.owned ≡ some (record { since = since; evaluation_period = period })
      → period ≤ elapsed now since
      → should_serve_epa hasher s sets my_id namespace name now ≡ true
  unfolding should_serve_epa
  owner_serves sets now since period o h = rw (o, should_serve_epa) (ground arith)

  -- A replica that serves an ExternalPodAutoscaler also scrapes it.
  pub serves→scrapes :
      (sets : ReplicaSets) (now : ℕ)
      → should_serve_epa hasher s sets my_id namespace name now ≡ true
      → should_scrape_epa s namespace name ≡ true
  unfolding should_scrape_epa should_serve_epa
  serves→scrapes sets now h = elim (Option-cases (lookup key s.owned)) [
    | inl e ↦ ground arith
    | inr (r, e) ↦ ground (arith, contains_key_of_lookup key r s.owned)
  ]

module _ (hasher : Hasher) (my_id namespace name : Text) where
  abbrev epa : Text
  epa = epa_key namespace name

  abbrev Loses : (now period : ℕ) → Tick → Type 0
  Loses now period t =
      Outcome hasher my_id epa false t × (elapsed t.later now < period + grace_buffer)

  in_grace-All :
      (now period : ℕ) (ticks : List Tick)
      → All (Loses now period) ticks
      → All
          (λ t.
            Outcome hasher my_id epa false t
            × (in_grace t.later (record { at = now; evaluation_period = period }) ≡ true))
          ticks
  in_grace-All now period [] h = tt
  in_grace-All now period (t ∷ ticks) ((h, g), rest) =
      ((h, ground arith), in_grace-All now period ticks rest)

  -- An owner that loses an ExternalPodAutoscaler at some tick goes on scraping it, and answers
  -- that it serves it, after every later run of ticks whose sweeps fall within the evaluation
  -- period of that tick and the grace buffer, as long as it does not win again. Ticks for other
  -- autoscalers may stand between. The maps are well formed at the start.
  pub grace_period :
      (s : TransitionState) (r : OwnershipState) (first : Tick) (ticks : List Tick)
      → IsValid s
      → lookup epa s.owned ≡ some r
      → tick_key first ≡ epa
      → Loses first.now first.evaluation_period first
      → All (Loses first.now first.evaluation_period) ticks
      → let s' = run hasher my_id (first ∷ ticks) s in
        (should_scrape_epa s' namespace name ≡ true)
        × ((sets : ReplicaSets) (now : ℕ)
            → should_serve_epa hasher s' sets my_id namespace name now ≡ true)
  grace_period s r first ticks v o k (h, g) rest =
      let (l, o') = owner_yields hasher my_id epa first s r v o k (h k) g in
      let (l', o'') =
        lost_stays_run hasher my_id epa ticks (refresh hasher my_id first s) _
          (refresh-IsValid hasher my_id first s v) l o'
          (in_grace-All first.now first.evaluation_period ticks rest) in
      lost_scrapes hasher my_id (run hasher my_id (first ∷ ticks) s) namespace name _ l' o''

  -- The grace period ends: the first tick whose sweep comes when the evaluation period frozen at
  -- the loss and the grace buffer have passed drops the autoscaler, unless this replica wins it.
  -- After that tick the replica neither scrapes nor serves it. The maps are well formed.
  pub grace_period_ends :
      (s : TransitionState) (entry : LostOwnership) (t : Tick)
      → IsValid s
      → lookup epa s.lost ≡ some entry
      → Outcome hasher my_id epa false t
      → entry.evaluation_period + grace_buffer ≤ elapsed t.later entry.at
      → (should_scrape_epa (refresh hasher my_id t s) namespace name ≡ false)
        × ((sets : ReplicaSets) (now : ℕ)
            → should_serve_epa hasher (refresh hasher my_id t s) sets my_id namespace name now
              ≡ false)
  grace_period_ends s entry t v l h g =
      let o = not_owned s entry v l in
      let (l', o') = lost_goes hasher my_id epa t s entry v l o h (ground arith) in
      gone_stops hasher my_id (refresh hasher my_id t s) namespace name l' o'
    where
      not_owned :
          (s : TransitionState) (entry : LostOwnership)
          → IsValid s
          → lookup epa s.lost ≡ some entry
          → lookup epa s.owned ≡ none
      not_owned s entry v l = elim (Option-cases (lookup epa s.owned)) [
        | inl e ↦ e
        | inr (r, e) ↦ cc (
          contains_key_of_lookup epa entry s.lost l,
          v.apart epa (contains_key_of_lookup epa r s.owned e),
        )
      ]

  -- Sweeps that come before the new owner's evaluation period has passed are within the grace
  -- period of the old owner.
  early_Loses :
      (lost_at won_at period now : ℕ) (ticks : List Tick)
      → won_at ≤ lost_at + grace_buffer
      → elapsed now won_at < period
      → All (λ t. Outcome hasher my_id epa false t × (t.later ≤ now)) ticks
      → All (Loses lost_at period) ticks
  early_Loses lost_at won_at period now [] soon early h = tt
  early_Loses lost_at won_at period now (t ∷ ticks) soon early ((h, before), rest) =
      ((h, omega arith), early_Loses lost_at won_at period now ticks soon early rest)

-- A handoff leaves no gap. The old owner finds at `first` that it has lost the autoscaler, the
-- new owner finds at `entry` that it has won it, no more than the grace buffer later, and both
-- read the same evaluation period, which does not change. Neither changes its mind in the ticks
-- that follow, whose sweeps at the old owner come no later than the instant `now`. The maps of both
-- are well formed. Then at `now` one of the two answers that it serves the autoscaler.
pub handoff_no_gap :
    (hasher : Hasher) (old new namespace name : Text) (s u : TransitionState) (r : OwnershipState)
    (first entry : Tick) (ticks ticks' : List Tick) (sets sets' : ReplicaSets) (now : ℕ)
    → IsValid s
    → IsValid u
    → lookup (epa_key namespace name) s.owned ≡ some r
    → lookup (epa_key namespace name) u.owned ≡ none
    → tick_key first ≡ epa_key namespace name
    → tick_key entry ≡ epa_key namespace name
    → Outcome hasher old (epa_key namespace name) false first × (first.later ≤ now)
    → Outcome hasher new (epa_key namespace name) true entry
    → entry.evaluation_period ≡ first.evaluation_period
    → entry.now ≤ first.now + grace_buffer
    → All (λ t. Outcome hasher old (epa_key namespace name) false t × (t.later ≤ now)) ticks
    → All
        (λ t.
          Outcome hasher new (epa_key namespace name) true t
          × (tick_key t ≡ epa_key namespace name → t.evaluation_period ≡ entry.evaluation_period))
        ticks'
    → (should_serve_epa hasher (run hasher old (first ∷ ticks) s) sets old namespace name now
        ≡ true)
      ⊎ (should_serve_epa hasher (run hasher new (entry ∷ ticks') u) sets' new namespace name now
          ≡ true)
handoff_no_gap hasher old new namespace name s u r first entry ticks ticks' sets sets' now v w os ou
      kf ke lose win same soon rest rest' =
    elim (Bool-cases (leb entry.evaluation_period (elapsed now entry.now))) [
      | inl due ↦ inr (
          owner_serves hasher new (run hasher new (entry ∷ ticks') u) namespace name sets' now
            entry.now entry.evaluation_period
            (winner_stays_run hasher new key ticks' (refresh hasher new entry u) entry.now
              entry.evaluation_period (refresh-IsValid hasher new entry u w)
              (winner_enters hasher new key entry u w ou ke (win ke)) rest')
            (leb→le _ _ due))
      | inr early ↦
          let covered =
            early_Loses hasher old namespace name first.now entry.now first.evaluation_period now
              (first ∷ ticks) soon (ground arith) (lose, rest) in
          inl (
            (grace_period hasher old namespace name s r first ticks v os kf covered.0 covered.1).1
              sets now)
    ]
  where
    key : Text
    key = epa_key namespace name

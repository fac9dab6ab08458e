-- ===== src/Membership/Ownership/Transition.antt =====
-- One tick of `refresh_ownership`: the well-formedness of the two maps, and what a tick does to
-- the key that it is about and to every other.
use external_pod_autoscaler.Prelude.{
  ℕ, ◌≡◌, true, false, List, Option, none, some, arith, inl, inr, ap, ◌∙◌, if◌then◌else◌, ◌==◌,
  Bool-cases,
}
use external_pod_autoscaler.Text.{Text, text_Eq, text_beq_iff}
use external_pod_autoscaler.Assoc.{contains_key, lookup, remove, retain, Unique}
use external_pod_autoscaler.Assoc.Laws.{
  modify_or_insert-Unique, remove-Unique, retain-Unique, lookup-retain, lookup-remove,
  lookup-modify_or_insert, contains_key-modify_or_insert, contains_key-remove,
  contains_key-retain_le, lookup-none, lookup_of_contains_key,
}
use external_pod_autoscaler.Membership.Manager.{ReplicaSets}
use external_pod_autoscaler.Membership.Ownership.{
  Hasher, OwnershipState, LostOwnership, TransitionState, in_grace, note_winner, refresh_ownership,
  get_epa_owner, is_mine, epa_key,
}

-- Each key stands once in each map, and never in both.
pub record IsValid (s : TransitionState) : Type 0 where
  pub owned_once : Unique s.owned
  pub lost_once : Unique s.lost
  pub apart : (k : Text) → contains_key k s.owned ≡ true → contains_key k s.lost ≡ false

module _ (key : Text) (period now later : ℕ) (s : TransitionState) (v : IsValid s) where
  -- The sweep, over whatever the branch has made of the two maps.
  swept :
      (owned : List (Text × OwnershipState)) (lost : List (Text × LostOwnership))
      → Unique owned
      → Unique lost
      → ((k : Text) → contains_key k owned ≡ true → contains_key k lost ≡ false)
      → IsValid (record { owned = owned; lost = retain (λ _ entry. in_grace later entry) lost })
  swept owned lost u w a = record {
    owned_once = u;
    lost_once = retain-Unique _ lost w;
    apart = λ k h. contains_key-retain_le _ k lost (a k h);
  }

  won-IsValid : IsValid (note_winner true key period now later s)
  unfolding note_winner
  won-IsValid =
      swept _ _ (modify_or_insert-Unique key _ _ s.owned v.owned_once)
        (remove-Unique key s.lost v.lost_once)
        λ k h. ground (
          arith,
          contains_key-remove key k s.lost v.lost_once,
          v.apart k,
          contains_key-modify_or_insert key k (λ r. record r { evaluation_period = period })
              (record { since = now; evaluation_period = period }) s.owned,
        )

  lost-IsValid : IsValid (note_winner false key period now later s)
  unfolding note_winner
  lost-IsValid = elim (Bool-cases (contains_key key s.owned)) [
    | inl e ↦ rw e (
        swept _ _ (remove-Unique key s.owned v.owned_once)
          (modify_or_insert-Unique key _ _ s.lost v.lost_once)
          λ k h. ground (
            arith,
            contains_key-remove key k s.owned v.owned_once,
            v.apart k,
            contains_key-modify_or_insert key k (λ r. r)
                (record { at = now; evaluation_period = period }) s.lost,
          ))
    | inr e ↦ rw e (swept s.owned s.lost v.owned_once v.lost_once v.apart)
  ]

-- A tick of `refresh_ownership` keeps the maps well formed, whatever the replica sets are: each
-- key stands once in each map, and never in both.
pub refresh_ownership-IsValid :
    (hasher : Hasher) (sets : ReplicaSets) (my_id namespace name : Text) (period now later : ℕ)
    (s : TransitionState)
    → IsValid s
    → IsValid (refresh_ownership hasher sets my_id namespace name period now later s)
unfolding refresh_ownership
refresh_ownership-IsValid hasher sets my_id namespace name period now later s v =
    elim (Bool-cases (is_mine (get_epa_owner hasher sets namespace name) my_id)) [
      | inl e ↦ rw e (won-IsValid (epa_key namespace name) period now later s v)
      | inr e ↦ rw e (lost-IsValid (epa_key namespace name) period now later s v)
    ]

-- What the sweep leaves of an entry.
abbrev pub sweep : ℕ → Option LostOwnership → Option LostOwnership
sweep later none = none
sweep later (some entry) = if in_grace later entry then some entry else none

lookup-swept :
    (later : ℕ) (k : Text) (m : List (Text × LostOwnership))
    → Unique m
    → lookup k (retain (λ _ entry. in_grace later entry) m) ≡ sweep later (lookup k m)
lookup-swept later k m u = ground (arith, lookup-retain (λ _ entry. in_grace later entry) k m u)

module _ (key k : Text) (period now later : ℕ) (s : TransitionState) (v : IsValid s) where
  -- The winner's entry keeps the instant at which it was made, and takes the new period.
  pub lookup-owned_won : lookup k (note_winner true key period now later s).owned ≡ (
      if key == k
      then some (elim (lookup key s.owned) [
        | none ↦ record { since = now; evaluation_period = period }
        | some r ↦ record r { evaluation_period = period }
      ])
      else lookup k s.owned)
  unfolding note_winner
  lookup-owned_won = lookup-modify_or_insert key k _ _ s.owned

  pub lookup-lost_won :
      lookup k (note_winner true key period now later s).lost
      ≡ (if key == k then none else sweep later (lookup k s.lost))
  unfolding note_winner
  lookup-lost_won =
      lookup-swept later k (remove key s.lost) (remove-Unique key s.lost v.lost_once)
      ∙ ground (arith, lookup-remove key k s.lost v.lost_once)

  pub lookup-owned_lost :
      lookup k (note_winner false key period now later s).owned
      ≡ (if key == k then none else lookup k s.owned)
  unfolding note_winner
  lookup-owned_lost = elim (Bool-cases (contains_key key s.owned)) [
    | inl e ↦ rw e (lookup-remove key k s.owned v.owned_once)
    | inr e ↦ rw e (ground (arith, text_beq_iff key k, lookup-none key s.owned))
  ]

  pub lookup-lost_lost :
      lookup k (note_winner false key period now later s).lost
      ≡ sweep later (
          if key == k
          then elim (lookup key s.owned) [
            | none ↦ lookup key s.lost
            | some _ ↦ some (record { at = now; evaluation_period = period })
          ]
          else lookup k s.lost)
  unfolding note_winner
  lookup-lost_lost = elim (Bool-cases (contains_key key s.owned)) [
    | inl e ↦
        let (r, found) = lookup_of_contains_key key s.owned e in
        rw e (
          lookup-swept later k _ (modify_or_insert-Unique key _ _ s.lost v.lost_once)
          ∙ ap (sweep later) (
              ground (
                arith,
                found,
                lookup-none key s.lost (v.apart key e),
                lookup-modify_or_insert key k (λ s. s)
                    (record { at = now; evaluation_period = period }) s.lost,
              )))
    | inr e ↦ rw e (
        lookup-swept later k s.lost v.lost_once
        ∙ ap (sweep later) (ground (arith, text_beq_iff key k, lookup-none key s.owned e)))
  ]

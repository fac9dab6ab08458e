-- ===== src/Scraper/Scheduler/Pass.antt =====
-- What a pass over the EPAs leaves of one of them: nothing new, or a next time.
use external_pod_autoscaler.Prelude.{
  ℕ, ◌+◌, ◌<◌, ◌≡◌, ◌⊎◌, refl, inl, inr, true, ◌||◌, [], ◌∷◌, Option, some, map, arith, ◌==◌, ap,
  ◌∙◌, All, contains,
}
use external_pod_autoscaler.Text.{Text, text_Eq}
use external_pod_autoscaler.Assoc.{lookup, contains_key}
use external_pod_autoscaler.Assoc.Laws.{lookup-retain_keys}
use external_pod_autoscaler.Api.{ExternalPodAutoscaler}
use external_pod_autoscaler.Membership.Ownership.{Hasher}
use external_pod_autoscaler.Scraper.Service.{Active}
use external_pod_autoscaler.Scraper.Scheduler.{Readings, Scheduler}
use external_pod_autoscaler.Scraper.Scheduler.Round.{process_epa}
use external_pod_autoscaler.Scraper.Scheduler.Tick.{finish_tick}
use external_pod_autoscaler.Scraper.Scheduler.Steps.{
  jobs_of, IsKeyed, HasInterval, Kept, process_epa_step,
}

contains-active_keys :
    (key : Text) (epas : Active)
    → contains (map (λ (entry : Text × ExternalPodAutoscaler). entry.0) epas) key
      ≡ contains_key key epas
contains-active_keys key [] = refl
contains-active_keys key ((j, epa) ∷ epas) = ap (λ b. j == key || b) (contains-active_keys key epas)

-- After a pass, the EPA was not scraped, or its next time is an interval ahead.
abbrev pub KeptOrScraped :
    {Float : Type 0} → Text → (interval now : ℕ) → Scheduler Float → Scheduler Float → Type 0
KeptOrScraped key interval now s s' =
    Kept key s s' ⊎ (lookup key s'.next_scrape ≡ some (now + interval, interval))

-- An EPA whose next time is ahead.
abbrev pub KeptWaiting :
    {Float : Type 0} → Text → (interval next_time : ℕ) → Scheduler Float → Scheduler Float → Type 0
KeptWaiting key interval next_time s s' =
    (jobs_of key s' ≡ jobs_of key s) × (lookup key s'.next_scrape ≡ some (next_time, interval))

module _ {Float : Type 0} (hasher : Hasher) (my_id : Text) (instant_max : ℕ)
    (parse_duration : Text → Option ℕ) (key : Text) where
  pub pass_step :
      (interval : ℕ) (epas : Active) (now : ℕ) (r : Text → Readings) (start : Scheduler Float)
      → IsKeyed epas
      → All (HasInterval parse_duration key interval) epas
      → All
          (λ (entry : Text × ExternalPodAutoscaler).
            (s : Scheduler Float)
            → KeptOrScraped key interval now start s
            → KeptOrScraped key interval now start
                (process_epa hasher my_id instant_max parse_duration entry.0 entry.1 now
                  (r entry.0)
                  s).0)
          epas
  pass_step interval [] now r start keyed steady = tt
  pass_step interval ((j, epa) ∷ epas) now r start (h, keyed) (p, steady) = (
    λ s k.
        elim (process_epa_step hasher my_id instant_max parse_duration key j epa now interval (r j)
          s h p) [
            | inr (next, due) ↦ inr next
            | inl (jobs, next) ↦ elim k [
              | inl (jobs', next') ↦ inl (jobs ∙ jobs', next ∙ next')
              | inr next' ↦ inr (next ∙ next')
            ]
          ],
    pass_step interval epas now r start keyed steady,
  )

  pub waiting_step :
      (interval next_time : ℕ) (epas : Active) (now : ℕ) (r : Text → Readings)
      (start : Scheduler Float)
      → now < next_time
      → IsKeyed epas
      → All (HasInterval parse_duration key interval) epas
      → All
          (λ (entry : Text × ExternalPodAutoscaler).
            (s : Scheduler Float)
            → KeptWaiting key interval next_time start s
            → KeptWaiting key interval next_time start
                (process_epa hasher my_id instant_max parse_duration entry.0 entry.1 now
                  (r entry.0)
                  s).0)
          epas
  waiting_step interval next_time [] now r start lt keyed steady = tt
  waiting_step interval next_time ((j, epa) ∷ epas) now r start lt (h, keyed) (p, steady) = (
    λ s (jobs', next').
        elim (process_epa_step hasher my_id instant_max parse_duration key j epa now interval (r j)
          s h p) [
            | inl (jobs, next) ↦ (jobs ∙ jobs', next ∙ next')
            | inr (next, due) ↦ ground (arith, due, next', lt)
          ],
    waiting_step interval next_time epas now r start lt keyed steady,
  )

  -- The end of a tick sends nothing and keeps the time of an active EPA.
  pub finish_tick_kept :
      (epas : Active) (now evicted_at : ℕ) (s : Scheduler Float)
      → contains_key key epas ≡ true
      → (jobs_of key (finish_tick hasher my_id instant_max parse_duration epas now evicted_at s)
          ≡ jobs_of key s)
        × (lookup key
              (finish_tick hasher my_id instant_max parse_duration epas now evicted_at
                s).next_scrape
            ≡ lookup key s.next_scrape)
  unfolding finish_tick
  finish_tick_kept epas now evicted_at s h = (
    ground arith,
    ground (
      arith,
      contains-active_keys key epas,
      lookup-retain_keys
          (λ k. contains (map (λ (entry : Text × ExternalPodAutoscaler). entry.0) epas) k) key
          s.next_scrape,
    ),
  )

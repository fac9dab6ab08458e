-- ===== src/Scraper/Scheduler/Tick.antt =====
-- The loop of `Scheduler::run` of src/scraper/scheduler.rs: one tick, and its pass over the EPAs.
use external_pod_autoscaler.Prelude.{
  List, ℕ, ◌-◌, Bool, [], ◌∷◌, Option, map, leb, if◌then◌else◌, contains,
}
use external_pod_autoscaler.Text.{Text, text_Eq}
use external_pod_autoscaler.Assoc.{retain}
use external_pod_autoscaler.Api.{ExternalPodAutoscaler}
use external_pod_autoscaler.Membership.Ownership.{Hasher, secs}
use external_pod_autoscaler.Store.Ops.{evict_stale_windows}
use external_pod_autoscaler.Scraper.Service.{Active}
use external_pod_autoscaler.Scraper.Scheduler.{Readings, Scheduler, Outcome, done, failed, panicked}
use external_pod_autoscaler.Scraper.Scheduler.Round.{process_epa}

-- How the loop goes on after an EPA.
pub data Next : Type 0 where
  goes_on stopped crashed : Next

abbrev pub next_of : Outcome → (closed : Bool) → Next
next_of done closed = goes_on
next_of panicked closed = crashed
next_of (failed e) closed = if closed then stopped else goes_on

module _ {Float : Type 0} (hasher : Hasher) (my_id : Text) (instant_max : ℕ)
    (parse_duration : Text → Option ℕ) where
  -- The loop over the EPAs of the snapshot.
  unfoldable pub process_epas :
      Active → (now : ℕ) → (Text → Readings) → Scheduler Float → Scheduler Float × Next
  process_epas [] now r s = (s, goes_on)
  process_epas ((key, epa) ∷ epas) now r s =
      let (s', outcome) =
        process_epa hasher my_id instant_max parse_duration key epa now (r key) s in
      elim (next_of outcome (r key).closed) [
        | goes_on ↦ process_epas epas now r s'
        | stopped ↦ (s', stopped)
        | crashed ↦ (s', crashed)
      ]

  -- The end of a tick: the times of EPAs that are no longer active go, and so do stale windows,
  -- once a minute.
  unfoldable pub finish_tick : Active → (now evicted_at : ℕ) → Scheduler Float → Scheduler Float
  finish_tick epas now evicted_at s =
      let active_keys = map (λ (entry : Text × ExternalPodAutoscaler). entry.0) epas in
      let retained = record s {
        next_scrape = retain (λ key _. contains active_keys key) s.next_scrape;
      } in
      if leb (secs 60) (now - s.last_eviction)
      then record retained {
        metrics_store = (evict_stale_windows (secs 120) evicted_at s.metrics_store).1;
        last_eviction = now;
      }
      else retained

  -- After the loop over the EPAs: a loop that was left leaves the tick too.
  unfoldable pub after_epas :
      Active → (now evicted_at : ℕ) → Scheduler Float × Next → Scheduler Float × Next
  after_epas epas now evicted_at (s, goes_on) = (finish_tick epas now evicted_at s, goes_on)
  after_epas epas now evicted_at (s, stopped) = (s, stopped)
  after_epas epas now evicted_at (s, crashed) = (s, crashed)

  -- One tick; `closed` is the test of the channel at its start.
  unfoldable pub tick :
      (closed : Bool)
      → Active
      → (now evicted_at : ℕ) → (Text → Readings)
      → Scheduler Float
      → Scheduler Float × Next
  tick closed epas now evicted_at r s =
      if closed then (s, stopped) else after_epas epas now evicted_at (process_epas epas now r s)

-- What a tick reads: the snapshot of the active EPAs, the clock at its start and at the eviction,
-- and what is read for each EPA.
pub record TickInput : Type 0 where
  pub closed : Bool
  pub epas : Active
  pub now : ℕ
  pub evicted_at : ℕ
  pub readings : Text → Readings

module _ {Float : Type 0} (hasher : Hasher) (my_id : Text) (instant_max : ℕ)
    (parse_duration : Text → Option ℕ) where
  -- The next tick, if the loop still goes on.
  abbrev pub tick_after : TickInput → Scheduler Float × Next → Scheduler Float × Next
  tick_after t (s, goes_on) =
      tick hasher my_id instant_max parse_duration t.closed t.epas t.now t.evicted_at t.readings s
  tick_after t (s, stopped) = (s, stopped)
  tick_after t (s, crashed) = (s, crashed)

  -- The loop of `run`, over the ticks that the clock gives.
  unfoldable pub run : List TickInput → Scheduler Float × Next → Scheduler Float × Next
  run [] p = p
  run (t ∷ ticks) p = run ticks (tick_after t p)

-- ===== src/Scraper/Scheduler/Rate.antt =====
-- How often an EPA is scraped: at most once in each interval, over any run of ticks.
use external_pod_autoscaler.Prelude.{
  ◌≢◌, ℕ, ◌+◌, ◌<◌, ◌≡◌, ◌⊎◌, refl, inl, inr, true, List, [], ◌∷◌, Option, some, ◌∙◌, Bool-cases,
  All,
}
use external_pod_autoscaler.Text.{Text, text_Eq}
use external_pod_autoscaler.Assoc.{lookup, contains_key}
use external_pod_autoscaler.Membership.Ownership.{Hasher}
use external_pod_autoscaler.Scraper.Service.{Active}
use external_pod_autoscaler.Scraper.Scheduler.{Scheduler}
use external_pod_autoscaler.Scraper.Scheduler.Tick.{
  Next, goes_on, stopped, crashed, process_epas, after_epas, tick, tick_after, TickInput, run,
}
use external_pod_autoscaler.Scraper.Scheduler.Steps.{jobs_of, IsActiveAt, process_epas_ind}
use external_pod_autoscaler.Scraper.Scheduler.Pass.{
  KeptOrScraped, KeptWaiting, pass_step, waiting_step, finish_tick_kept,
}

module _ {Float : Type 0} (hasher : Hasher) (my_id : Text) (instant_max : ℕ)
    (parse_duration : Text → Option ℕ) (key : Text) where
  -- The tick as a whole, for an EPA whose next time is ahead.
  abbrev pub Waiting : (interval next_time : ℕ) → Scheduler Float → Scheduler Float × Next → Type 0
  Waiting interval next_time start (s, next) =
      (jobs_of key s ≡ jobs_of key start)
      × (next ≡ goes_on → lookup key s.next_scrape ≡ some (next_time, interval))

  after_epas-Waiting :
      (interval next_time : ℕ) (epas : Active) (now evicted_at : ℕ) (start : Scheduler Float)
      (p : Scheduler Float × Next)
      → contains_key key epas ≡ true
      → KeptWaiting key interval next_time start p.0
      → Waiting interval next_time start
          (after_epas hasher my_id instant_max parse_duration epas now evicted_at p)
  unfolding after_epas
  after_epas-Waiting interval next_time epas now evicted_at start (s, goes_on) h (jobs, next) =
      let kept =
        finish_tick_kept hasher my_id instant_max parse_duration key epas now evicted_at s h in
      (kept.0 ∙ jobs, λ e. kept.1 ∙ next)
  after_epas-Waiting interval next_time epas now evicted_at start (s, stopped) h (jobs, next) =
      (jobs, λ e. next)
  after_epas-Waiting interval next_time epas now evicted_at start (s, crashed) h (jobs, next) =
      (jobs, λ e. next)

  tick-Waiting :
      (interval next_time : ℕ) (t : TickInput) (start s : Scheduler Float)
      → IsActiveAt parse_duration key interval t
      → t.now < next_time
      → KeptWaiting key interval next_time start s
      → Waiting interval next_time start (
          tick hasher my_id instant_max parse_duration t.closed t.epas t.now t.evicted_at t.readings
            s)
  unfolding tick
  tick-Waiting interval next_time t start s active lt kept = elim (Bool-cases t.closed) [
    | inl e ↦ rw (e, tick) (kept.0, λ _. kept.1)
    | inr e ↦
        rw (e, tick)
          (after_epas-Waiting interval next_time t.epas t.now t.evicted_at start
            (process_epas hasher my_id instant_max parse_duration t.epas t.now t.readings s)
            active.active
            (process_epas_ind hasher my_id instant_max parse_duration key
              (KeptWaiting key interval next_time start) t.epas t.now t.readings
              (waiting_step hasher my_id instant_max parse_duration key interval next_time t.epas
                t.now t.readings start lt active.keyed active.steady)
              s kept))
  ]

  run-Waiting :
      (interval next_time : ℕ) (ticks : List TickInput) (start : Scheduler Float)
      (p : Scheduler Float × Next)
      → All (λ t. IsActiveAt parse_duration key interval t × (t.now < next_time)) ticks
      → Waiting interval next_time start p
      → jobs_of key (run hasher my_id instant_max parse_duration ticks p).0 ≡ jobs_of key start
  unfolding run
  run-Waiting interval next_time [] start p h w = w.0
  run-Waiting interval next_time (t ∷ ticks) start (s, goes_on) ((active, lt), h) w =
      run-Waiting interval next_time ticks start _ h
        (tick-Waiting interval next_time t start s active lt (w.0, w.1 refl))
  run-Waiting interval next_time (t ∷ ticks) start (s, stopped) (a, h) w =
      run-Waiting interval next_time ticks start _ h w
  run-Waiting interval next_time (t ∷ ticks) start (s, crashed) (a, h) w =
      run-Waiting interval next_time ticks start _ h w

  after_epas_scrapes :
      (interval now evicted_at : ℕ) (epas : Active) (start : Scheduler Float)
      (p : Scheduler Float × Next)
      → contains_key key epas ≡ true
      → KeptOrScraped key interval now start p.0
      → let after = after_epas hasher my_id instant_max parse_duration epas now evicted_at p in
        (jobs_of key after.0 ≡ jobs_of key start) ⊎ Waiting interval (now + interval) after.0 after
  unfolding after_epas
  after_epas_scrapes interval now evicted_at epas start (s, goes_on) h k =
      let kept =
        finish_tick_kept hasher my_id instant_max parse_duration key epas now evicted_at s h in
      elim k [ inl (jobs, next) ↦ inl (kept.0 ∙ jobs) | inr next ↦ inr (refl, λ e. kept.1 ∙ next) ]
  after_epas_scrapes interval now evicted_at epas start (s, stopped) h k = elim k [
    | inl (jobs, next) ↦ inl jobs
    | inr next ↦ inr (refl, λ e. next)
  ]
  after_epas_scrapes interval now evicted_at epas start (s, crashed) h k = elim k [
    | inl (jobs, next) ↦ inl jobs
    | inr next ↦ inr (refl, λ e. next)
  ]

  -- A tick has left the EPA alone or set its next time.
  tick_scrapes :
      (interval : ℕ) (t : TickInput) (s : Scheduler Float)
      → IsActiveAt parse_duration key interval t
      → let after =
          tick hasher my_id instant_max parse_duration t.closed t.epas t.now t.evicted_at t.readings
            s in
        (jobs_of key after.0 ≡ jobs_of key s) ⊎ Waiting interval (t.now + interval) after.0 after
  unfolding tick
  tick_scrapes interval t s active = elim (Bool-cases t.closed) [
    | inl e ↦ rw (e, tick) (inl refl)
    | inr e ↦
        rw (e, tick)
          (after_epas_scrapes interval t.now t.evicted_at t.epas s
            (process_epas hasher my_id instant_max parse_duration t.epas t.now t.readings s)
            active.active
            (process_epas_ind hasher my_id instant_max parse_duration key
              (KeptOrScraped key interval t.now s) t.epas t.now t.readings
              (pass_step hasher my_id instant_max parse_duration key interval t.epas t.now
                t.readings s active.keyed active.steady)
              s (inl (refl, refl))))
  ]

  -- At most one round in each interval: after a tick that sends jobs for an EPA, no tick that
  -- starts less than an interval after it sends jobs for that EPA, however many ticks there are
  -- and whatever they read. At each of these ticks the EPA is active, each active EPA stands under
  -- its own key, and the EPA's interval is parsed as the same duration.
  pub once_per_interval :
      (interval : ℕ) (t : TickInput) (ticks : List TickInput) (s : Scheduler Float)
      → IsActiveAt parse_duration key interval t
      → All
          (λ later. IsActiveAt parse_duration key interval later × (later.now < t.now + interval))
          ticks
      → let after = tick_after hasher my_id instant_max parse_duration t (s, goes_on) in
        jobs_of key after.0 ≢ jobs_of key s
        → jobs_of key (run hasher my_id instant_max parse_duration ticks after).0
          ≡ jobs_of key after.0
  once_per_interval interval t ticks s active later sent = elim (tick_scrapes interval t s active) [
    | inl same ↦ absurd (sent same)
    | inr waiting ↦
        run-Waiting interval (t.now + interval) ticks
          (tick_after hasher my_id instant_max parse_duration t (s, goes_on)).0
          (tick_after hasher my_id instant_max parse_duration t (s, goes_on)) later waiting
  ]

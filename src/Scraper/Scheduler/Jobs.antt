-- ===== src/Scraper/Scheduler/Jobs.antt =====
-- What the scheduler does for one EPA: nothing that can be seen from outside, or one round.
use external_pod_autoscaler.Prelude.{
  ℕ, ◌+◌, ◌≤◌, ◌≡◌, ◌⊎◌, refl, inl, inr, Bool, true, false, List, ◌++◌, Option, some, map, ltb,
  arith, ap, ◌∙◌, Option-cases, Bool-cases,
}
use external_pod_autoscaler.Text.{Text, text_Eq, split_once}
use external_pod_autoscaler.Assoc.{lookup, insert}
use external_pod_autoscaler.Api.{ExternalPodAutoscaler}
use external_pod_autoscaler.Membership.Ownership.{
  Hasher, sweep_panics, before_sweep, should_scrape_epa, refresh_ownership,
}
use external_pod_autoscaler.Scraper.Pods.{Pod, get_ready_pods}
use external_pod_autoscaler.Scraper.Pods.Workload.{Selected, selected, unselected, get_pod_selector}
use external_pod_autoscaler.Scraper.Scheduler.{
  Readings, Scheduler, waits, target_of, job_for, take_jobs, report_stats,
}
use external_pod_autoscaler.Scraper.Scheduler.Round.{
  scrape_pods, scrape_round, refreshed, unswept, process_owned, process_epa,
}

-- A round of an EPA: who owns it, that its time has come, and which jobs it sends.
pub record Round {Float : Type 0} (hasher : Hasher) (my_id : Text) (instant_max : ℕ)
    (parse_duration : Text → Option ℕ) (key : Text) (epa : ExternalPodAutoscaler) (now : ℕ)
    (r : Readings) (before after : Scheduler Float) : Type 0 where
  pub namespace : Text
  pub name : Text
  pub evaluation_period : ℕ
  pub interval : ℕ
  pub selector : Text
  pub pods : List Pod
  pub is_key : split_once key b'/' ≡ some (namespace, name)
  pub is_period : parse_duration epa.spec.scrape.evaluation_period ≡ some evaluation_period
  pub is_interval : parse_duration epa.spec.scrape.interval ≡ some interval
  pub swept :
      sweep_panics
        (before_sweep hasher r.sets my_id namespace name evaluation_period r.refreshed_at
          before.transition).lost
      ≡ false
  pub owned :
      should_scrape_epa
        (refresh_ownership hasher r.sets my_id namespace name evaluation_period r.refreshed_at
          r.swept_at before.transition)
        namespace
        name
      ≡ true
  pub due : waits (lookup key before.next_scrape) interval now ≡ false
  pub is_selector : get_pod_selector r.get namespace (target_of epa) ≡ selected selector
  pub reflected : r.reflected ≡ some pods
  pub in_range : now + interval ≤ instant_max
  pub sent :
      after.jobs
      ≡ before.jobs
        ++ take_jobs r.accepts
            (map (job_for epa evaluation_period interval) (get_ready_pods pods selector))
  pub scheduled : after.next_scrape ≡ insert key (now + interval, interval) before.next_scrape

abbrev pub Quiet : {Float : Type 0} → Scheduler Float → Scheduler Float → Type 0
Quiet before after = (after.jobs ≡ before.jobs) × (after.next_scrape ≡ before.next_scrape)

pub Selected-cases :
    (c : Selected) → (c ≡ unselected) ⊎ ((selector : Text) × (c ≡ selected selector))
Selected-cases unselected = inl refl
Selected-cases (selected selector) = inr (selector, refl)

module _ {Float : Type 0} where
  pub report_stats-Quiet :
      (namespace name : Text) (patched : Bool) (s : Scheduler Float)
      → Quiet s (report_stats namespace name patched s)
  unfolding report_stats
  report_stats-Quiet namespace name patched s = (ground arith, ground arith)

  report_stats_transition :
      (namespace name : Text) (patched : Bool) (s : Scheduler Float)
      → (report_stats namespace name patched s).transition ≡ s.transition
  unfolding report_stats
  report_stats_transition namespace name patched s = ground arith

module _ {Float : Type 0} (instant_max : ℕ) where
  -- What `scrape_pods` leaves of the jobs and of the schedule.
  pub scrape_pods_cases :
      (namespace name key : Text) (epa : ExternalPodAutoscaler)
      (evaluation_period interval now accepts : ℕ) (pods : List Pod) (s : Scheduler Float)
      → let after =
          (scrape_pods instant_max namespace name key epa evaluation_period interval now accepts
            pods s).0 in
        Quiet s after
        ⊎ ((now + interval ≤ instant_max)
            × (after.jobs
                ≡ s.jobs ++ take_jobs accepts (map (job_for epa evaluation_period interval) pods))
            × (after.next_scrape ≡ insert key (now + interval, interval) s.next_scrape))
  unfolding scrape_pods
  scrape_pods_cases namespace name key epa evaluation_period interval now accepts pods s =
      elim (Bool-cases (ltb instant_max (now + interval))) [
        | inl e ↦ rw e (inl (refl, refl))
        | inr e ↦ rw e (inr (ground arith, refl, refl))
      ]

  -- A round that does not end before the pods are at hand.
  pub scrape_round_cases :
      (namespace name key : Text) (epa : ExternalPodAutoscaler) (evaluation_period interval now : ℕ)
      (r : Readings) (s : Scheduler Float)
      → let after =
          (scrape_round instant_max namespace name key epa evaluation_period interval now r s).0 in
        Quiet s after
        ⊎ ((selector : Text) × (pods : List Pod) × (get_pod_selector r.get namespace (target_of epa)
              ≡ selected selector)
            × (r.reflected ≡ some pods)
            × (now + interval ≤ instant_max)
            × (after.jobs
                ≡ s.jobs
                  ++ take_jobs r.accepts
                      (map (job_for epa evaluation_period interval) (get_ready_pods pods selector)))
            × (after.next_scrape ≡ insert key (now + interval, interval) s.next_scrape))
  unfolding scrape_round report_stats
  scrape_round_cases namespace name key epa evaluation_period interval now r s =
      let quiet = report_stats-Quiet namespace name r.patched s in
      elim (Selected-cases (get_pod_selector r.get namespace (target_of epa))) [
        | inl e ↦ rw (e, scrape_round) (inl quiet)
        | inr (selector, e) ↦ elim (Option-cases r.reflected) [
          | inl f ↦ rw (e, f, scrape_round) (inl quiet)
          | inr (pods, f) ↦
              elim (scrape_pods_cases namespace name key epa evaluation_period interval now
                r.accepts (get_ready_pods pods selector)
                (report_stats namespace name r.patched s)) [
                  | inl (jobs, next) ↦
                      rw (e, f, scrape_round) (inl (jobs ∙ quiet.0, next ∙ quiet.1))
                  | inr (le, jobs, next) ↦ inr (
                    selector,
                    pods,
                    e,
                    f,
                    le,
                    rw (e, f, scrape_round)
                        (jobs
                          ∙ ap
                              (λ t.
                                t
                                ++ take_jobs r.accepts (
                                    map (job_for epa evaluation_period interval)
                                      (get_ready_pods pods selector)))
                              quiet.0),
                    rw (e, f, scrape_round)
                        (next ∙ ap (λ t. insert key (now + interval, interval) t) quiet.1),
                  )
                ]
        ]
      ]

module _ {Float : Type 0} (hasher : Hasher) (my_id : Text) (instant_max : ℕ)
    (parse_duration : Text → Option ℕ) where
  process_owned_cases :
      (namespace name key : Text) (epa : ExternalPodAutoscaler) (evaluation_period interval now : ℕ)
      (r : Readings) (s : Scheduler Float)
      → split_once key b'/' ≡ some (namespace, name)
      → parse_duration epa.spec.scrape.evaluation_period ≡ some evaluation_period
      → parse_duration epa.spec.scrape.interval ≡ some interval
      → let after =
          (process_owned hasher my_id instant_max parse_duration namespace name key epa
            evaluation_period interval now r s).0 in
        Quiet s after ⊎ Round hasher my_id instant_max parse_duration key epa now r s after
  unfolding process_owned
  process_owned_cases namespace name key epa period interval now r s is_key is_period is_interval =
      let s' = refreshed hasher my_id instant_max parse_duration namespace name period r s in
      let before = unswept hasher my_id instant_max parse_duration namespace name period r s in
      elim (Bool-cases (sweep_panics before.transition.lost)) [
        | inl p ↦ rw (p, process_owned) (inl (refl, refl))
        | inr p ↦ elim (Bool-cases (should_scrape_epa s'.transition namespace name)) [
          | inr e ↦ rw (p, e, process_owned) (inl (refl, refl))
          | inl e ↦ elim (Bool-cases (waits (lookup key s.next_scrape) interval now)) [
            | inl f ↦ rw (p, e, f, process_owned) (inl (refl, refl))
            | inr f ↦
                elim (scrape_round_cases instant_max namespace name key epa period interval now r
                  s') [
                    | inl quiet ↦ rw (p, e, f, process_owned) (inl quiet)
                    | inr (selector, pods, g, h, le, jobs, next) ↦ inr record {
                      namespace = namespace;
                      name = name;
                      evaluation_period = period;
                      interval = interval;
                      selector = selector;
                      pods = pods;
                      is_key = is_key;
                      is_period = is_period;
                      is_interval = is_interval;
                      swept = p;
                      owned = e;
                      due = f;
                      is_selector = g;
                      reflected = h;
                      in_range = le;
                      sent = rw (p, e, f, process_owned) jobs;
                      scheduled = rw (p, e, f, process_owned) next;
                    }
                  ]
          ]
        ]
      ]

  -- For one EPA either no job is sent and the schedule stays as it is, or there is a round. Then the
  -- key has a slash, both durations are parsed, the sweep of the lost entries does not panic, this
  -- replica scrapes the EPA after the refresh of the ownership, the EPA has no next time ahead that
  -- was set for its present interval, the workload has a selector, the pods of the namespace are at
  -- hand and the new next time is in the clock's range. The jobs sent are those that the channel
  -- takes, from the first on, of one for each ready pod that the selector accepts, and the next
  -- time is the present one plus the interval.
  pub process_epa_cases :
      (key : Text) (epa : ExternalPodAutoscaler) (now : ℕ) (r : Readings) (s : Scheduler Float)
      → let after = (process_epa hasher my_id instant_max parse_duration key epa now r s).0 in
        Quiet s after ⊎ Round hasher my_id instant_max parse_duration key epa now r s after
  unfolding process_epa
  process_epa_cases key epa now r s = elim (Option-cases (split_once key b'/')) [
    | inl e ↦ rw (e, process_epa) (inl (refl, refl))
    | inr ((namespace, name), e) ↦
        elim (Option-cases (parse_duration epa.spec.scrape.evaluation_period)) [
          | inl f ↦ rw (e, f, process_epa) (inl (refl, refl))
          | inr (period, f) ↦ elim (Option-cases (parse_duration epa.spec.scrape.interval)) [
            | inl g ↦ rw (e, f, g, process_epa) (inl (refl, refl))
            | inr (interval, g) ↦
                rw (e, f, g, process_epa)
                  (process_owned_cases namespace name key epa period interval now r s e f g)
          ]
        ]
  ]

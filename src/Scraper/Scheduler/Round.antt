-- ===== src/Scraper/Scheduler/Round.antt =====
-- `process_epa` of src/scraper/scheduler.rs, from its last step to its first.
use external_pod_autoscaler.Prelude.{ℕ, ◌+◌, not, List, Option, none, some, map, ltb, if◌then◌else◌}
use external_pod_autoscaler.Text.{Text, text_Eq, split_once}
use external_pod_autoscaler.Assoc.{lookup, insert}
use external_pod_autoscaler.Api.{ExternalPodAutoscaler}
use external_pod_autoscaler.Membership.Ownership.{
  Hasher, sweep_panics, before_sweep, refresh_ownership, should_scrape_epa,
}
use external_pod_autoscaler.Store.Ops.{retain_pod_windows}
use external_pod_autoscaler.Scraper.Pods.{Pod, get_ready_pods}
use external_pod_autoscaler.Scraper.Pods.Workload.{selected, unselected, get_pod_selector}
use external_pod_autoscaler.Scraper.Service.{set_configs}
use external_pod_autoscaler.Scraper.Scheduler.{
  Readings, Scheduler, invalid_key, invalid_duration, no_selector, no_pods, Outcome, done, failed,
  panicked, waits, target_of, job_for, report_stats, dispatch,
}

module _ {Float : Type 0} (instant_max : ℕ) where
  -- With the pods at hand: their windows are kept, the next time is set, then the jobs are sent.
  unfoldable pub scrape_pods :
      (namespace name key : Text)
      → ExternalPodAutoscaler
      → (evaluation_period interval now : ℕ) → (accepts : ℕ) → List Pod
      → Scheduler Float
      → Scheduler Float × Outcome
  scrape_pods namespace name key epa evaluation_period interval now accepts pods s =
      let kept =
        retain_pod_windows namespace name (map (λ (pod : Pod). pod.name) pods) s.metrics_store in
      if ltb instant_max (now + interval)
      then (record s { metrics_store = kept.1 }, panicked)
      else dispatch accepts (map (job_for epa evaluation_period interval) pods) (record s {
        metrics_store = set_configs namespace name epa epa.spec.metrics kept.1;
        next_scrape = insert key (now + interval, interval) s.next_scrape;
      })

  -- From the status report on.
  unfoldable pub scrape_round :
      (namespace name key : Text)
      → ExternalPodAutoscaler
      → (evaluation_period interval now : ℕ) → Readings
      → Scheduler Float
      → Scheduler Float × Outcome
  scrape_round namespace name key epa evaluation_period interval now r s =
      let reported = report_stats namespace name r.patched s in
      elim (get_pod_selector r.get namespace (target_of epa)) [
        | unselected ↦ (reported, failed no_selector)
        | selected selector ↦ elim r.reflected [
          | none ↦ (reported, failed no_pods)
          | some pods ↦
              scrape_pods namespace name key epa evaluation_period interval now r.accepts
                (get_ready_pods pods selector) reported
        ]
      ]

module _ {Float : Type 0} (hasher : Hasher) (my_id : Text) (instant_max : ℕ)
    (parse_duration : Text → Option ℕ) where
  abbrev pub refreshed :
      (namespace name : Text)
      → (evaluation_period : ℕ) → Readings
      → Scheduler Float
      → Scheduler Float
  refreshed namespace name evaluation_period r s = record s {
    transition =
        refresh_ownership hasher r.sets my_id namespace name evaluation_period r.refreshed_at
          r.swept_at s.transition;
  }

  abbrev pub unswept :
      (namespace name : Text)
      → (evaluation_period : ℕ) → Readings
      → Scheduler Float
      → Scheduler Float
  unswept namespace name evaluation_period r s = record s {
    transition =
        before_sweep hasher r.sets my_id namespace name evaluation_period r.refreshed_at
          s.transition;
  }

  -- After the durations are parsed. A sweep that panics ends in the middle of the map; the entries
  -- that it has dropped by then are left in.
  unfoldable pub process_owned :
      (namespace name key : Text)
      → ExternalPodAutoscaler
      → (evaluation_period interval now : ℕ) → Readings
      → Scheduler Float
      → Scheduler Float × Outcome
  process_owned namespace name key epa evaluation_period interval now r s =
      let s' = refreshed namespace name evaluation_period r s in
      let noted = unswept namespace name evaluation_period r s in
      if sweep_panics noted.transition.lost
      then (noted, panicked)
      else if not (should_scrape_epa s'.transition namespace name)
      then (s', done)
      else if waits (lookup key s'.next_scrape) interval now
      then (s', done)
      else scrape_round instant_max namespace name key epa evaluation_period interval now r s'

  unfoldable pub process_epa :
      (key : Text)
      → ExternalPodAutoscaler
      → (now : ℕ) → Readings
      → Scheduler Float
      → Scheduler Float × Outcome
  process_epa key epa now r s = elim (split_once key b'/') [
    | none ↦ (s, failed invalid_key)
    | some (namespace, name) ↦ elim (parse_duration epa.spec.scrape.evaluation_period) [
      | none ↦ (s, failed invalid_duration)
      | some evaluation_period ↦ elim (parse_duration epa.spec.scrape.interval) [
        | none ↦ (s, failed invalid_duration)
        | some interval ↦ process_owned namespace name key epa evaluation_period interval now r s
      ]
    ]
  ]

-- ===== src/Scraper/Scheduler.antt =====
-- src/scraper/scheduler.rs. Times and durations are nanoseconds. What a round reads from outside
-- is a record, `Readings`; `parse_duration` stands for the crate humantime, and `instant_max` for
-- the last instant of the platform's clock, past which adding a duration panics. The log lines and
-- the telemetry are left out.
pub mod Round
pub mod Tick
pub mod Steps
pub mod Keys
pub mod Pass
pub mod Rate
pub mod Jobs
pub mod Status
pub mod Sizes
use external_pod_autoscaler.Prelude.{
  ℕ, zero, suc, ◌+◌, ◌-◌, ◌*◌, ◌/◌, ◌^◌, Bool, true, false, not, ◌&&◌, ◌||◌, List, [], ◌∷◌, ◌++◌,
  Option, none, some, map, ltb, leb, nat_eq, if◌then◌else◌, ◌==◌, contains, length,
}
use external_pod_autoscaler.Text.{Text, text_Eq, split_once}
use external_pod_autoscaler.Assoc.{lookup, insert, retain, modify_or_insert}
use external_pod_autoscaler.Api.{
  ExternalPodAutoscaler, ExternalPodAutoscalerSpec, ScrapeConfig, TlsConfig, TargetRef,
}
use external_pod_autoscaler.Membership.Manager.{ReplicaSets}
use external_pod_autoscaler.Membership.Ownership.{
  Hasher, TransitionState, secs, refresh_ownership, should_scrape_epa,
}
use external_pod_autoscaler.Store.Types.{MetricsStore, ScrapeStats}
use external_pod_autoscaler.Store.Ops.{
  stats_key, get_scrape_stats, retain_pod_windows, evict_stale_windows,
}
use external_pod_autoscaler.Store.Stats.{snapshot_and_reset, restore}
use external_pod_autoscaler.Scraper.Pods.{Pod, get_ready_pods}
use external_pod_autoscaler.Scraper.Pods.Workload.{
  Kind, Fetched, Selected, selected, unselected, get_pod_selector,
}
use external_pod_autoscaler.Scraper.Service.{Active, set_configs}

pub record ScrapeJob : Type 0 where
  pub epa : ExternalPodAutoscaler
  pub pod : Pod
  pub max_samples : ℕ
  pub use_insecure_tls : Bool

-- What a round reads for one EPA: the replica sets and the two instants of `refresh_ownership`,
-- whether the status patch succeeds, what the API server answers about the workload, the pods of
-- the namespace if their reflector is ready, the number of jobs that the channel still takes, and
-- whether it is found closed after an error.
pub record Readings : Type 0 where
  pub sets : ReplicaSets
  pub refreshed_at : ℕ
  pub swept_at : ℕ
  pub patched : Bool
  pub get : Kind → (namespace name : Text) → Fetched
  pub reflected : Option (List Pod)
  pub accepts : ℕ
  pub closed : Bool

-- The scheduler's own state, with the state that it shares: the maps of the ownership, the store,
-- the jobs sent so far, and the counts that the status patches reported.
pub record Scheduler (Float : Type 0) : Type 0 where
  pub next_scrape : List (Text × (ℕ × ℕ))
  pub last_eviction : ℕ
  pub transition : TransitionState
  pub metrics_store : MetricsStore Float
  pub jobs : List ScrapeJob
  pub reported : List (Text × (ℕ × ℕ))

pub data Failure : Type 0 where
  invalid_key invalid_duration no_selector no_pods channel_closed : Failure

-- `Ok(())`, an error, or the panic of an addition to an instant.
pub data Outcome : Type 0 where
  done : Outcome
  failed : Failure → Outcome
  panicked : Outcome

-- Whether an EPA still has to wait: its next time lies ahead, for the interval it has now.
abbrev pub waits : Option (ℕ × ℕ) → (interval now : ℕ) → Bool
waits none interval now = false
waits (some (next_time, stored_interval)) interval now =
    nat_eq stored_interval interval && ltb now next_time

-- `> 0` on an `i32`.
abbrev pub is_positive : ℕ → Bool
is_positive n = ltb 0 n && ltb n (2 ^ 31)

abbrev pub at_least_one : ℕ → ℕ
at_least_one zero = 1
at_least_one (suc n) = suc n

-- `div_ceil`, for a divisor that is not zero.
abbrev pub div_ceil : ℕ → ℕ → ℕ
div_ceil a b = (a + b - 1) / b

abbrev pub as_secs : ℕ → ℕ
as_secs duration = duration / 1_000_000_000

unfoldable pub max_samples_of : (evaluation_period interval : ℕ) → ℕ
max_samples_of evaluation_period interval =
    at_least_one (div_ceil (as_secs evaluation_period) (at_least_one (as_secs interval)))

abbrev pub insecure : Option TlsConfig → Bool
insecure none = false
insecure (some tls) = tls.insecure_skip_verify

abbrev pub target_of : ExternalPodAutoscaler → TargetRef
target_of epa = elim epa.spec.scrape_target_ref [
  | none ↦ epa.spec.scale_target_ref
  | some target ↦ target
]

abbrev pub job_for : ExternalPodAutoscaler → (evaluation_period interval : ℕ) → Pod → ScrapeJob
job_for epa evaluation_period interval pod = record {
  epa = epa;
  pod = pod;
  max_samples = max_samples_of evaluation_period interval;
  use_insecure_tls = insecure epa.spec.scrape.tls;
}

-- The jobs that the channel takes of a list, and whether it takes them all.
abbrev pub take_jobs : ℕ → List ScrapeJob → List ScrapeJob
take_jobs n [] = []
take_jobs zero (job ∷ jobs) = []
take_jobs (suc n) (job ∷ jobs) = job ∷ take_jobs n jobs

abbrev pub sends_all : ℕ → List ScrapeJob → Bool
sends_all accepts jobs = leb (length jobs) accepts

module _ {Float : Type 0} where
  -- The counts of the EPA are taken, and reported if there are any; a patch that fails puts them
  -- back.
  unfoldable pub report_stats :
      (namespace name : Text) → (patched : Bool) → Scheduler Float → Scheduler Float
  report_stats namespace name patched s =
      let key = stats_key namespace name in
      let (stats, store) = get_scrape_stats namespace name s.metrics_store in
      let ((scraped, errors), taken) = snapshot_and_reset stats in
      let put = λ (stats' : ScrapeStats). record store {
        scrape_stats = insert key stats' store.scrape_stats;
      } in
      if is_positive scraped || is_positive errors
      then (if patched
          then record s {
            metrics_store = put taken;
            reported = (key, (scraped, errors)) ∷ s.reported;
          }
          else record s { metrics_store = put (restore scraped errors taken) })
      else record s { metrics_store = put taken }

  -- One job for each pod; a send that fails ends the loop.
  abbrev pub dispatch : ℕ → List ScrapeJob → Scheduler Float → Scheduler Float × Outcome
  dispatch accepts jobs s = (
    record s { jobs = s.jobs ++ take_jobs accepts jobs },
    if sends_all accepts jobs then done else failed channel_closed,
  )

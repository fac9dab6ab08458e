-- ===== src/Tests/Scheduler.antt =====
-- Examples of the service and of the scheduler: one EPA, one workload and one ready pod.
use external_pod_autoscaler.Prelude.{
  ℕ, ◌*◌, ◌≤◌, ◌<◌, ◌≡◌, ◌≢◌, ◌⊎◌, refl, true, false, List, [], ◌∷◌, Option, none, some, arith, map,
  length,
}
use external_pod_autoscaler.Text.{Text, codes, text_Eq, strip_suffix, parse_u64}
use external_pod_autoscaler.Assoc.{lookup, Unique}
use external_pod_autoscaler.Membership.Manager.{ReplicaSets, get_active_replicas}
use external_pod_autoscaler.Membership.Ownership.{
  new_state, refresh_ownership, should_scrape_epa, get_epa_owner, highest_weight_replica,
  max_by_weight, compute_weight, is_epa_owner, note_winner,
}
use external_pod_autoscaler.Store.Ops.{
  empty_store, get_scrape_stats, retain_pod_windows, set_metric_config, evict_stale_windows,
}
use external_pod_autoscaler.Store.Stats.{snapshot_and_reset}
use external_pod_autoscaler.Scraper.Pods.{
  Pod, get_ready_pods, is_pod_ready, pod_matches_selector, parse_label_selector, ready_condition,
  build_label_selector_string,
}
use external_pod_autoscaler.Scraper.Pods.Workload.{spec, selected, get_pod_selector}
use external_pod_autoscaler.Scraper.Service.{EpaUpdate, upsert, delete, set_configs, handle_updates}
use external_pod_autoscaler.Scraper.Service.Registered.{last_word, lookup-handle_updates}
use external_pod_autoscaler.Scraper.Scheduler.{
  ScrapeJob, Readings, Scheduler, report_stats, max_samples_of,
}
use external_pod_autoscaler.Scraper.Scheduler.Round.{
  scrape_pods, scrape_round, process_owned, process_epa,
}
use external_pod_autoscaler.Scraper.Scheduler.Tick.{
  Next, goes_on, process_epas, finish_tick, after_epas, tick, tick_after, TickInput, run,
}
use external_pod_autoscaler.Scraper.Scheduler.Steps.{jobs_of, IsActiveAt}
use external_pod_autoscaler.Scraper.Scheduler.Rate.{once_per_interval}
use external_pod_autoscaler.Scraper.Scheduler.Jobs.{Round, Quiet, process_epa_cases}
use external_pod_autoscaler.Scraper.Scheduler.Sizes.{max_samples_of_covers}
use external_pod_autoscaler.Scraper.Scheduler.Status.{Settles, report_stats-Settles}
use external_pod_autoscaler.Tests.{Extended, hasher, alpha, ns, epa_name, seconds}
use external_pod_autoscaler.Tests.Controller.{epa}
use external_pod_autoscaler.Tests.Scraper.{selector}

abbrev key : Text
key = codes "ns/web"

-- The durations of the examples: whole seconds.
abbrev as_duration : Option ℕ → Option ℕ
as_duration none = none
as_duration (some n) = some (seconds n)

abbrev digits_of : Option Text → Option ℕ
digits_of none = none
digits_of (some s) = as_duration (parse_u64 s)

abbrev pub parse_duration : Text → Option ℕ
parse_duration s = digits_of (strip_suffix s (codes "s"))

abbrev pub pod : Pod
pod = record {
  name = codes "web-0";
  namespace = some ns;
  deletion_timestamp = false;
  labels = some ((codes "app", codes "web") ∷ (codes "tier", codes "front") ∷ []);
  status = some (record {
    phase = some (codes "Running");
    pod_ip = some (codes "10.0.0.7");
    conditions = some (record { type_ = codes "Ready"; status = codes "True" } ∷ []);
  });
}

abbrev alone : ReplicaSets
alone = record { active = alpha ∷ []; draining = []; local_draining = false }

abbrev readings : ℕ → Readings
readings now = record {
  sets = alone;
  refreshed_at = now;
  swept_at = now;
  patched = true;
  get = λ kind namespace name. spec (some selector);
  reflected = some (pod ∷ []);
  accepts = 10;
  closed = false;
}

abbrev fresh : Scheduler Extended
fresh = record {
  next_scrape = [];
  last_eviction = 0;
  transition = new_state;
  metrics_store = empty_store;
  jobs = [];
  reported = [];
}

abbrev tick_at : ℕ → TickInput
tick_at now = record {
  closed = false;
  epas = (key, epa) ∷ [];
  now = now;
  evicted_at = now;
  readings = λ k. readings now;
}

abbrev horizon : ℕ
horizon = seconds 1_000_000

abbrev ticked : Scheduler Extended × Next
ticked = tick_after hasher alpha horizon parse_duration (tick_at (seconds 1)) (fresh, goes_on)

one_job : map (λ (job : ScrapeJob). job.max_samples) ticked.0.jobs ≡ 4 ∷ []
unfolding tick after_epas process_epas process_epa process_owned scrape_round scrape_pods
    report_stats finish_tick refresh_ownership should_scrape_epa get_epa_owner is_epa_owner
    note_winner highest_weight_replica max_by_weight compute_weight get_active_replicas
    get_pod_selector build_label_selector_string get_ready_pods is_pod_ready pod_matches_selector
    parse_label_selector ready_condition get_scrape_stats snapshot_and_reset retain_pod_windows
    set_metric_config set_configs evict_stale_windows max_samples_of
one_job = refl

is_active : (now : ℕ) → IsActiveAt parse_duration key (seconds 15) (tick_at now)
is_active now = record { active = refl; keyed = (refl, tt); steady = (λ e. refl, tt) }

sent : jobs_of key ticked.0 ≢ jobs_of key fresh
unfolding tick after_epas process_epas process_epa process_owned scrape_round scrape_pods
    report_stats finish_tick refresh_ownership should_scrape_epa get_epa_owner is_epa_owner
    note_winner highest_weight_replica max_by_weight compute_weight get_active_replicas
    get_pod_selector build_label_selector_string get_ready_pods is_pod_ready pod_matches_selector
    parse_label_selector ready_condition get_scrape_stats snapshot_and_reset retain_pod_windows
    set_metric_config set_configs evict_stale_windows max_samples_of
sent e = ground arith

once_per_interval_example :
    jobs_of key
      (run hasher alpha horizon parse_duration
        (tick_at (seconds 2) ∷ tick_at (seconds 9) ∷ [])
        ticked).0
    ≡ jobs_of key ticked.0
once_per_interval_example =
    once_per_interval hasher alpha horizon parse_duration key (seconds 15) (tick_at (seconds 1))
      (tick_at (seconds 2) ∷ tick_at (seconds 9) ∷ []) fresh (is_active (seconds 1))
      ((is_active (seconds 2), omega arith), ((is_active (seconds 9), omega arith), tt)) sent

-- The one job of a round.
abbrev ReadyAt : ℕ → Type 0
ReadyAt now =
    should_scrape_epa
      (refresh_ownership hasher alone alpha ns epa_name (seconds 60) now now new_state) ns epa_name
    ≡ true

scrapes : ReadyAt (seconds 1)
unfolding refresh_ownership should_scrape_epa get_epa_owner is_epa_owner note_winner
    highest_weight_replica max_by_weight compute_weight get_active_replicas
scrapes = refl

found :
    get_pod_selector (readings (seconds 1)).get ns epa.spec.scale_target_ref
    ≡ selected (codes "app=web,tier=front")
unfolding get_pod_selector build_label_selector_string
found = refl

few : length (get_ready_pods (pod ∷ []) (codes "app=web,tier=front")) ≤ 10
unfolding get_ready_pods is_pod_ready pod_matches_selector parse_label_selector ready_condition
few = omega arith

process_epa_cases_example :
    let after =
      (process_epa hasher alpha horizon parse_duration key epa
        (seconds 1)
        (readings (seconds 1))
        fresh).0 in
    Quiet fresh after
    ⊎ Round hasher alpha horizon parse_duration key epa
        (seconds 1)
        (readings (seconds 1))
        fresh
        after
process_epa_cases_example =
    process_epa_cases hasher alpha horizon parse_duration key epa (seconds 1) (readings (seconds 1))
      fresh

max_samples_of_covers_example :
    let size = max_samples_of (seconds 60) (seconds 15) in
    (0 < size) × (60 ≤ size * 15) × ((m : ℕ) → 0 < m → 60 ≤ m * 15 → size ≤ m)
max_samples_of_covers_example = max_samples_of_covers (seconds 60) (seconds 15)

-- An upsert, a deletion of another object, and an object without a name.
abbrev messages : List EpaUpdate
messages =
    upsert epa
    ∷ delete ns (codes "other")
    ∷ upsert (record epa { metadata = record epa.metadata { name = none } })
    ∷ []

lookup-handle_updates_example :
    Unique (handle_updates messages ([], empty_store {Float = Extended})).0
    × ((k : Text)
        → lookup k (handle_updates messages ([], empty_store {Float = Extended})).0
          ≡ last_word k messages none)
lookup-handle_updates_example = lookup-handle_updates messages ([], empty_store) tt

abbrev counted : Scheduler Extended
counted = record fresh {
  metrics_store = record (empty_store {Float = Extended}) {
    scrape_stats = (key, record { scraped = 3; errors = 1 }) ∷ [];
  };
}

report_stats-Settles_example :
    Settles ns epa_name false counted (report_stats ns epa_name false counted)
report_stats-Settles_example =
    report_stats-Settles ns epa_name false counted
      (record { scraped_count = omega arith; errors_count = omega arith })

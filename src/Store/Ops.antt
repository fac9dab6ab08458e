-- ===== src/Store/Ops.antt =====
-- src/store/ops.rs: the operations of `MetricsStore`. A window is written in place of the entry
-- that holds it, as if the map's shard stayed locked; the clock is an argument. The order of a
-- map's list is the order of iteration.
pub mod Windows
pub mod Epa
pub mod Cache
use external_pod_autoscaler.Prelude.{
  ℕ, suc, ◌+◌, ◌-◌, Bool, true, false, not, ◌&&◌, ◌||◌, List, [], ◌∷◌, ◌++◌, Option, none, some,
  map, ltb, if◌then◌else◌, ◌==◌, length, contains, filter,
}
use external_pod_autoscaler.Text.{Text, text_Eq}
use external_pod_autoscaler.Assoc.{
  lookup, contains_key, insert, modify_or_insert, remove, retain, insert_elem,
}
use external_pod_autoscaler.Store.Types.{
  LabeledSample, SampleKey, CacheKey, sample_key_Eq, cache_key_Eq, CachedAggregation, is_valid,
  MetricConfig, default_config, MetricWindow, ScrapeStats, MetricsStore,
}
use external_pod_autoscaler.Store.Window.{push, newest_sample_age}
use external_pod_autoscaler.Store.Window
use external_pod_autoscaler.Store.Stats

abbrev pub is_of_epa : Text → Text → SampleKey → Bool
is_of_epa namespace epa_name key = key.namespace == namespace && key.epa_name == epa_name

abbrev pub is_of_metric : Text → Text → Text → SampleKey → Bool
is_of_metric namespace epa_name metric_name key =
    key.namespace == namespace && key.epa_name == epa_name && key.metric_name == metric_name

abbrev pub cache_key : (namespace epa_name metric_name : Text) → CacheKey
cache_key namespace epa_name metric_name = record {
  namespace = namespace;
  epa_name = epa_name;
  metric_name = metric_name;
}

abbrev pub is_cached_of_epa : Text → Text → CacheKey → Bool
is_cached_of_epa namespace epa_name key = key.namespace == namespace && key.epa_name == epa_name

-- `format!("{}/{}", namespace, epa_name)`.
abbrev pub stats_key : Text → Text → Text
stats_key namespace epa_name = namespace ++ b'/' ∷ epa_name

module _ {Float : Type 0} where
  -- `MetricsStore::new`.
  abbrev pub empty_store : MetricsStore Float
  empty_store = record {
    windows = [];
    cache = [];
    configs = [];
    scrape_stats = [];
    multi_series_warned = [];
  }

  unfoldable pub push_sample :
      SampleKey → LabeledSample Float → (max_samples : ℕ) → MetricsStore Float → MetricsStore Float
  push_sample key sample max_samples store = record store {
    windows =
        modify_or_insert key (push sample) (push sample (Window.new max_samples)) store.windows;
  }

  unfoldable pub get_windows :
      MetricsStore Float
      → (namespace epa_name metric_name : Text) → List (Text × MetricWindow Float)
  get_windows store namespace epa_name metric_name =
      map (λ (entry : SampleKey × MetricWindow Float). (entry.0.pod_name, entry.1))
        (retain (λ key _. is_of_metric namespace epa_name metric_name key) store.windows)

  unfoldable pub get_cached :
      MetricsStore Float → (namespace epa_name metric_name : Text) → (now : ℕ) → Option Float
  get_cached store namespace epa_name metric_name now =
      elim (lookup (cache_key namespace epa_name metric_name) store.cache) [
        | none ↦ none
        | some c ↦ if is_valid c now then some c.value else none
      ]

  unfoldable pub cache_result :
      (namespace epa_name metric_name : Text)
      → Float
      → (ttl now : ℕ) → MetricsStore Float
      → MetricsStore Float
  cache_result namespace epa_name metric_name value ttl now store = record store {
    cache =
        insert (cache_key namespace epa_name metric_name)
          (record { value = value; computed_at = now; ttl = ttl }) store.cache;
  }

  unfoldable pub set_metric_config :
      (namespace epa_name metric_name : Text)
      → MetricConfig
      → MetricsStore Float
      → MetricsStore Float
  set_metric_config namespace epa_name metric_name config store = record store {
    configs = insert (cache_key namespace epa_name metric_name) config store.configs;
  }

  unfoldable pub get_metric_config :
      MetricsStore Float → (namespace epa_name metric_name : Text) → MetricConfig
  get_metric_config store namespace epa_name metric_name =
      elim (lookup (cache_key namespace epa_name metric_name) store.configs) [
        | none ↦ default_config
        | some config ↦ config
      ]

  -- `newest_sample_age().is_some_and(|age| age > max_age)`.
  abbrev pub is_stale : (max_age now : ℕ) → MetricWindow Float → Bool
  is_stale max_age now window = elim (newest_sample_age window now) [
    | none ↦ false
    | some age ↦ ltb max_age age
  ]

  -- The pass over the snapshot, and the pass that removes.
  abbrev pub stale_keys : (max_age now : ℕ) → List (SampleKey × MetricWindow Float) → List SampleKey
  stale_keys max_age now [] = []
  stale_keys max_age now ((key, window) ∷ entries) =
      if is_stale max_age now window
      then key ∷ stale_keys max_age now entries
      else stale_keys max_age now entries

  abbrev pub remove_keys :
      List SampleKey → List (SampleKey × MetricWindow Float) → List (SampleKey × MetricWindow Float)
  remove_keys [] windows = windows
  remove_keys (key ∷ keys) windows = remove_keys keys (remove key windows)

  unfoldable pub evict_stale_windows :
      (max_age now : ℕ) → MetricsStore Float → ℕ × MetricsStore Float
  evict_stale_windows max_age now store =
      let stale = stale_keys max_age now store.windows in
      (length stale, record store { windows = remove_keys stale store.windows })

  unfoldable pub retain_pod_windows :
      (namespace epa_name : Text) → List Text → MetricsStore Float → ℕ × MetricsStore Float
  retain_pod_windows namespace epa_name active_pods store =
      let kept =
        retain
          (λ (key : SampleKey) _.
            not (key.namespace == namespace)
            || not (key.epa_name == epa_name)
            || contains active_pods key.pod_name)
          store.windows in
      (length store.windows - length kept, record store { windows = kept })

  -- `true` the first time that the key is seen.
  unfoldable pub first_multi_series :
      (namespace epa_name metric_name : Text) → MetricsStore Float → Bool × MetricsStore Float
  first_multi_series namespace epa_name metric_name store =
      let key = cache_key namespace epa_name metric_name in
      (
        not (contains store.multi_series_warned key),
        record store { multi_series_warned = insert_elem key store.multi_series_warned },
      )

  unfoldable pub remove_epa_windows :
      (namespace epa_name : Text) → MetricsStore Float → MetricsStore Float
  remove_epa_windows namespace epa_name store = record {
    windows = retain (λ key _. not (is_of_epa namespace epa_name key)) store.windows;
    cache = retain (λ key _. not (is_cached_of_epa namespace epa_name key)) store.cache;
    configs = retain (λ key _. not (is_cached_of_epa namespace epa_name key)) store.configs;
    multi_series_warned =
        filter (λ key. not (is_cached_of_epa namespace epa_name key)) store.multi_series_warned;
    scrape_stats = remove (stats_key namespace epa_name) store.scrape_stats;
  }

  -- The statistics of the EPA, which are made at the first call.
  unfoldable pub get_scrape_stats :
      (namespace epa_name : Text) → MetricsStore Float → ScrapeStats × MetricsStore Float
  get_scrape_stats namespace epa_name store =
      let key = stats_key namespace epa_name in
      let stats = modify_or_insert key (λ s. s) Stats.new store.scrape_stats in
      (
        elim (lookup key stats) [ none ↦ Stats.new | some s ↦ s ],
        record store { scrape_stats = stats },
      )

  unfoldable pub cleanup_expired_cache : (now : ℕ) → MetricsStore Float → ℕ × MetricsStore Float
  cleanup_expired_cache now store =
      let kept = retain (λ _ (c : CachedAggregation Float). is_valid c now) store.cache in
      (length store.cache - length kept, record store { cache = kept })

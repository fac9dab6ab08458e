-- ===== src/Store/Spec.antt =====
-- What the store promises: a cell for each key, and for each window its whole history. This is the
-- reference that the maps and the bounded windows of src/store/ops.rs are compared with.
use external_pod_autoscaler.Prelude.{
  ℕ, ◌-◌, Bool, false, not, ◌&&◌, ◌||◌, List, [], ◌∷◌, ◌++◌, Option, none, some, ltb, if◌then◌else◌,
  ◌==◌,
}
use external_pod_autoscaler.Text.{Text, text_Eq}
use external_pod_autoscaler.Store.Types.{
  LabeledSample, SampleKey, sample_key_Eq, CacheKey, cache_key_Eq, CachedAggregation, is_valid,
  MetricConfig, ScrapeStats, MetricsStore,
}
use external_pod_autoscaler.Store.Window.{back}
use external_pod_autoscaler.Store.Ops.{
  cache_key, is_of_epa, is_cached_of_epa, stats_key, push_sample, cache_result, set_metric_config,
  evict_stale_windows, retain_pod_windows, first_multi_series, remove_epa_windows, get_scrape_stats,
  cleanup_expired_cache,
}
use external_pod_autoscaler.Store.Ops.Windows.{keeps}
use external_pod_autoscaler.Store.Ops.Epa.{unless}
use external_pod_autoscaler.Store.Stats

-- The calls that change the store.
pub data Call (Float : Type 0) : Type 0 where
  push_of : SampleKey → LabeledSample Float → (max_samples : ℕ) → Call Float
  cache_of : (namespace epa_name metric_name : Text) → Float → (ttl now : ℕ) → Call Float
  config_of : (namespace epa_name metric_name : Text) → MetricConfig → Call Float
  evict_of : (max_age now : ℕ) → Call Float
  retain_of : (namespace epa_name : Text) → List Text → Call Float
  warn_of : (namespace epa_name metric_name : Text) → Call Float
  remove_of : (namespace epa_name : Text) → Call Float
  stats_of : (namespace epa_name : Text) → Call Float
  clean_of : (now : ℕ) → Call Float

-- A window is its history and its size.
pub record View (Float : Type 0) : Type 0 where
  pub windows : SampleKey → Option (List (LabeledSample Float) × ℕ)
  pub cache : CacheKey → Option (CachedAggregation Float)
  pub configs : CacheKey → Option MetricConfig
  pub warned : CacheKey → Bool
  pub stats : Text → Option ScrapeStats

abbrev pub or_zero : Option ScrapeStats → ScrapeStats
or_zero none = Stats.new
or_zero (some s) = s

module _ {Float : Type 0} where
  -- The call on the store itself.
  abbrev pub perform : Call Float → MetricsStore Float → MetricsStore Float
  perform (push_of key sample max_samples) store = push_sample key sample max_samples store
  perform (cache_of namespace epa_name metric_name value ttl now) store =
      cache_result namespace epa_name metric_name value ttl now store
  perform (config_of namespace epa_name metric_name config) store =
      set_metric_config namespace epa_name metric_name config store
  perform (evict_of max_age now) store = (evict_stale_windows max_age now store).1
  perform (retain_of namespace epa_name active_pods) store =
      (retain_pod_windows namespace epa_name active_pods store).1
  perform (warn_of namespace epa_name metric_name) store =
      (first_multi_series namespace epa_name metric_name store).1
  perform (remove_of namespace epa_name) store = remove_epa_windows namespace epa_name store
  perform (stats_of namespace epa_name) store = (get_scrape_stats namespace epa_name store).1
  perform (clean_of now) store = (cleanup_expired_cache now store).1

  abbrev pub add_sample :
      LabeledSample Float
      → (max_samples : ℕ) → Option (List (LabeledSample Float) × ℕ)
      → List (LabeledSample Float) × ℕ
  add_sample sample max_samples none = (sample ∷ [], max_samples)
  add_sample sample max_samples (some (history, size)) = (history ++ sample ∷ [], size)

  -- Whether the last sample of a history is too old.
  abbrev pub too_old : (max_age now : ℕ) → Option (LabeledSample Float) → Bool
  too_old max_age now none = false
  too_old max_age now (some s) = ltb max_age (now - s.scraped_at)

  abbrev pub forget_stale :
      (max_age now : ℕ)
      → Option (List (LabeledSample Float) × ℕ)
      → Option (List (LabeledSample Float) × ℕ)
  forget_stale max_age now none = none
  forget_stale max_age now (some (history, size)) =
      if too_old max_age now (back history) then none else some (history, size)

  abbrev pub forget_expired :
      (now : ℕ) → Option (CachedAggregation Float) → Option (CachedAggregation Float)
  forget_expired now none = none
  forget_expired now (some c) = if is_valid c now then some c else none

  -- The call on the cells.
  abbrev pub specified : Call Float → View Float → View Float
  specified (push_of key sample max_samples) v = record v {
    windows =
        λ j. if key == j then some (add_sample sample max_samples (v.windows key)) else v.windows j;
  }
  specified (cache_of namespace epa_name metric_name value ttl now) v = record v {
    cache = λ j.
        if cache_key namespace epa_name metric_name == j
        then some (record { value = value; computed_at = now; ttl = ttl })
        else v.cache j;
  }
  specified (config_of namespace epa_name metric_name config) v = record v {
    configs =
        λ j. if cache_key namespace epa_name metric_name == j then some config else v.configs j;
  }
  specified (evict_of max_age now) v = record v {
    windows = λ j. forget_stale max_age now (v.windows j);
  }
  specified (retain_of namespace epa_name active_pods) v = record v {
    windows = λ j. unless (not (keeps namespace epa_name active_pods j)) (v.windows j);
  }
  specified (warn_of namespace epa_name metric_name) v = record v {
    warned = λ j. cache_key namespace epa_name metric_name == j || v.warned j;
  }
  specified (remove_of namespace epa_name) v = record {
    windows = λ j. unless (is_of_epa namespace epa_name j) (v.windows j);
    cache = λ j. unless (is_cached_of_epa namespace epa_name j) (v.cache j);
    configs = λ j. unless (is_cached_of_epa namespace epa_name j) (v.configs j);
    warned = λ j. not (is_cached_of_epa namespace epa_name j) && v.warned j;
    stats = λ j. unless (stats_key namespace epa_name == j) (v.stats j);
  }
  specified (stats_of namespace epa_name) v = record v {
    stats = λ j.
        if stats_key namespace epa_name == j
        then some (or_zero (v.stats (stats_key namespace epa_name)))
        else v.stats j;
  }
  specified (clean_of now) v = record v { cache = λ j. forget_expired now (v.cache j) }

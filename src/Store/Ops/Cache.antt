-- ===== src/Store/Ops/Cache.antt =====
-- The cache of aggregated values, its time to live and its clean-up, and the configurations.
use external_pod_autoscaler.Prelude.{ℕ, ◌-◌, ◌≤◌, ◌≡◌, none, some, arith, ltb, if◌then◌else◌, ◌==◌}
use external_pod_autoscaler.Text.{Text, text_Eq}
use external_pod_autoscaler.Assoc.{Unique}
use external_pod_autoscaler.Assoc.Laws.{lookup-retain, lookup-insert}
use external_pod_autoscaler.Store.Types.{
  CacheKey, cache_key_Eq, CachedAggregation, is_valid, MetricConfig, MetricsStore,
}
use external_pod_autoscaler.Store.Ops.{
  cache_key, get_cached, cache_result, cleanup_expired_cache, set_metric_config, get_metric_config,
}

module _ {Float : Type 0} (namespace epa_name metric_name : Text) (store : MetricsStore Float) where
  abbrev here : CacheKey
  here = cache_key namespace epa_name metric_name

  -- A cached value is read back for the same metric exactly while its time to live lasts; the
  -- cached values of other metrics are not affected.
  pub get_cached-cache_result :
      (value : Float) (ttl now later : ℕ) (ns name metric : Text)
      → get_cached
          (cache_result namespace epa_name metric_name value ttl now store)
          ns
          name
          metric
          later
        ≡ (if here == cache_key ns name metric
            then if ltb (later - now) ttl then some value else none
            else get_cached store ns name metric later)
  unfolding get_cached cache_result
  get_cached-cache_result value ttl now later ns name metric = ground (
    arith,
    lookup-insert here (cache_key ns name metric)
        (record { value = value; computed_at = now; ttl = ttl }) store.cache,
  )

  -- The clean-up is invisible: no later read of any metric can tell whether it ran. No key stands
  -- twice in the map.
  pub get_cached-cleanup_expired_cache :
      (now later : ℕ)
      → now ≤ later
      → Unique store.cache
      → get_cached (cleanup_expired_cache now store).1 namespace epa_name metric_name later
        ≡ get_cached store namespace epa_name metric_name later
  unfolding get_cached cleanup_expired_cache
  get_cached-cleanup_expired_cache now later le u =
      ground (
        arith,
        lookup-retain (λ _ (c : CachedAggregation Float). is_valid c now) here store.cache u,
      )

  -- The configuration of a metric is the one set last, and other metrics keep theirs.
  pub get_metric_config-set_metric_config :
      (config : MetricConfig) (ns name metric : Text)
      → get_metric_config
          (set_metric_config namespace epa_name metric_name config store)
          ns
          name
          metric
        ≡ (if here == cache_key ns name metric
            then config
            else get_metric_config store ns name metric)
  unfolding get_metric_config set_metric_config
  get_metric_config-set_metric_config config ns name metric =
      ground (arith, lookup-insert here (cache_key ns name metric) config store.configs)

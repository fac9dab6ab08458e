-- ===== src/Store/Calls.antt =====
-- The calls on cached values, configurations and statistics refine the same calls on the cells.
use external_pod_autoscaler.Prelude.{ℕ, ◌≡◌, refl, Option, none, some, if◌then◌else◌, ◌==◌, ap, ◌∙◌}
use external_pod_autoscaler.Text.{Text, text_Eq}
use external_pod_autoscaler.Assoc.{lookup}
use external_pod_autoscaler.Assoc.Laws.{
  lookup-insert, lookup-retain, lookup-modify_or_insert, insert-Unique, retain-Unique,
  modify_or_insert-Unique,
}
use external_pod_autoscaler.Store.Types.{
  sample_key_Eq, cache_key_Eq, CachedAggregation, is_valid, MetricConfig, ScrapeStats, MetricsStore,
}
use external_pod_autoscaler.Store.Ops.{
  cache_key, stats_key, cache_result, set_metric_config, get_scrape_stats, cleanup_expired_cache,
}
use external_pod_autoscaler.Store.Spec.{
  cache_of, config_of, stats_of, clean_of, View, perform, forget_expired, or_zero, specified,
}
use external_pod_autoscaler.Store.Stats
use external_pod_autoscaler.Store.Cells.{Refines}

same_stats : (o : Option ScrapeStats) → elim o [ none ↦ Stats.new | some w ↦ w ] ≡ or_zero o
same_stats none = refl
same_stats (some w) = refl

module _ {Float : Type 0} where
  pub cache-Refines :
      (namespace epa_name metric_name : Text) (value : Float) (ttl now : ℕ)
      (store : MetricsStore Float) (v : View Float)
      → Refines store v
      → let call = cache_of namespace epa_name metric_name value ttl now in
        Refines (perform call store) (specified call v)
  unfolding cache_result
  cache-Refines namespace epa_name metric_name value ttl now store v r =
      let k = cache_key namespace epa_name metric_name in
      let entry : CachedAggregation Float = record {
        value = value;
        computed_at = now;
        ttl = ttl;
      } in
      record {
        windows_once = r.windows_once;
        cache_once = insert-Unique k entry store.cache r.cache_once;
        stats_once = r.stats_once;
        windows = r.windows;
        cache = λ j.
            lookup-insert k j entry store.cache
            ∙ ap (λ o. if k == j then some entry else o) (r.cache j);
        configs = r.configs;
        warned = r.warned;
        stats = r.stats;
      }

  pub config-Refines :
      (namespace epa_name metric_name : Text) (config : MetricConfig) (store : MetricsStore Float)
      (v : View Float)
      → Refines store v
      → let call = config_of namespace epa_name metric_name config in
        Refines (perform call store) (specified call v)
  unfolding set_metric_config
  config-Refines namespace epa_name metric_name config store v r =
      let k = cache_key namespace epa_name metric_name in
      record {
        windows_once = r.windows_once;
        cache_once = r.cache_once;
        stats_once = r.stats_once;
        windows = r.windows;
        cache = r.cache;
        configs = λ j.
            lookup-insert k j config store.configs
            ∙ ap (λ o. if k == j then some config else o) (r.configs j);
        warned = r.warned;
        stats = r.stats;
      }

  pub stats-Refines :
      (namespace epa_name : Text) (store : MetricsStore Float) (v : View Float)
      → Refines store v
      → Refines
          (perform (stats_of namespace epa_name) store)
          (specified (stats_of namespace epa_name) v)
  unfolding get_scrape_stats
  stats-Refines namespace epa_name store v r =
      let k = stats_key namespace epa_name in
      record {
        windows_once = r.windows_once;
        cache_once = r.cache_once;
        stats_once = modify_or_insert-Unique k (λ s. s) Stats.new store.scrape_stats r.stats_once;
        windows = r.windows;
        cache = r.cache;
        configs = r.configs;
        warned = r.warned;
        stats = λ j.
            lookup-modify_or_insert k j (λ s. s) Stats.new store.scrape_stats
            ∙ ap (λ s. if k == j then some s else lookup j store.scrape_stats)
                (same_stats (lookup k store.scrape_stats) ∙ ap or_zero (r.stats k))
            ∙ ap (λ o. if k == j then some (or_zero (v.stats k)) else o) (r.stats j);
      }

  expired :
      (now : ℕ) (o : Option (CachedAggregation Float))
      → elim o [ none ↦ none | some c ↦ if is_valid c now then some c else none ]
        ≡ forget_expired now o
  expired now none = refl
  expired now (some c) = refl

  pub clean-Refines :
      (now : ℕ) (store : MetricsStore Float) (v : View Float)
      → Refines store v
      → Refines (perform (clean_of now) store) (specified (clean_of now) v)
  unfolding cleanup_expired_cache
  clean-Refines now store v r = record {
    windows_once = r.windows_once;
    cache_once = retain-Unique _ store.cache r.cache_once;
    stats_once = r.stats_once;
    windows = r.windows;
    cache = λ j.
        lookup-retain (λ _ (c : CachedAggregation Float). is_valid c now) j store.cache r.cache_once
        ∙ expired now (lookup j store.cache)
        ∙ ap (forget_expired now) (r.cache j);
    configs = r.configs;
    warned = r.warned;
    stats = r.stats;
  }

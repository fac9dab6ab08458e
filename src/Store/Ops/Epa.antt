-- ===== src/Store/Ops/Epa.antt =====
-- The deletion of an autoscaler, and the warnings that are raised once.
use external_pod_autoscaler.Prelude.{
  ◌≡◌, ◌≢◌, Bool, true, false, not, ◌&&◌, Option, none, arith, ◌==◌, ==_refl, contains,
}
use external_pod_autoscaler.Text.{Text, text_Eq}
use external_pod_autoscaler.Assoc.{lookup, Unique, insert_elem}
use external_pod_autoscaler.Assoc.Laws.{
  lookup-retain_keys, lookup-remove, contains-insert_elem, contains-filter,
}
use external_pod_autoscaler.Store.Types.{
  SampleKey, sample_key_Eq, CacheKey, cache_key_Eq, cache_key_beq_iff, MetricsStore,
}
use external_pod_autoscaler.Store.Ops.{
  is_of_epa, is_cached_of_epa, cache_key, stats_key, remove_epa_windows, first_multi_series,
}

abbrev pub unless {ℓ} : {A : Type ℓ} → Bool → Option A → Option A
unless true o = none
unless false o = o

module _ {Float : Type 0} (namespace epa_name : Text) (store : MetricsStore Float) where
  abbrev removed : MetricsStore Float
  removed = remove_epa_windows namespace epa_name store

  -- After an autoscaler is deleted no window, cached value, configuration, warning record or
  -- statistics of it is left, and those of every other autoscaler are as they were. No key stands
  -- twice in the map of statistics.
  pub lookup-remove_epa_windows :
      Unique store.scrape_stats
      → ((k : SampleKey)
          → lookup k removed.windows
            ≡ unless (is_of_epa namespace epa_name k) (lookup k store.windows))
        × ((k : CacheKey)
            → lookup k removed.cache
              ≡ unless (is_cached_of_epa namespace epa_name k) (lookup k store.cache))
        × ((k : CacheKey)
            → lookup k removed.configs
              ≡ unless (is_cached_of_epa namespace epa_name k) (lookup k store.configs))
        × ((k : CacheKey)
            → contains removed.multi_series_warned k ≡ (
                not (is_cached_of_epa namespace epa_name k)
                && contains store.multi_series_warned k))
        × ((k : Text)
            → lookup k removed.scrape_stats
              ≡ unless (stats_key namespace epa_name == k) (lookup k store.scrape_stats))
  unfolding remove_epa_windows
  lookup-remove_epa_windows u = (
    λ k.
        ground (
          arith,
          lookup-retain_keys (λ key. not (is_of_epa namespace epa_name key)) k store.windows,
        ),
    λ k. ground (
      arith,
      lookup-retain_keys (λ key. not (is_cached_of_epa namespace epa_name key)) k store.cache,
    ),
    λ k. ground (
      arith,
      lookup-retain_keys (λ key. not (is_cached_of_epa namespace epa_name key)) k store.configs,
    ),
    λ k.
        contains-filter (λ key. not (is_cached_of_epa namespace epa_name key)) k
          store.multi_series_warned,
    λ k. ground (arith, lookup-remove (stats_key namespace epa_name) k store.scrape_stats u),
  )

-- The warning about a metric with several series is raised once: after a call the next one for the
-- metric answers `false`, a call for another metric answers as it would have without it, and once
-- the autoscaler has been deleted a call answers `true`.
pub first_multi_series_once :
    {Float : Type 0} (namespace epa_name metric_name : Text) (store : MetricsStore Float)
    → let warned = (first_multi_series namespace epa_name metric_name store).1 in
      ((first_multi_series namespace epa_name metric_name warned).0 ≡ false)
      × ((ns name metric : Text)
          → cache_key ns name metric ≢ cache_key namespace epa_name metric_name
          → (first_multi_series ns name metric warned).0
            ≡ (first_multi_series ns name metric store).0)
      × ((first_multi_series namespace epa_name metric_name
            (remove_epa_windows namespace epa_name warned)).0
          ≡ true)
unfolding first_multi_series remove_epa_windows
first_multi_series_once namespace epa_name metric_name store =
    let key = cache_key namespace epa_name metric_name in
    (
      ground (arith, contains-insert_elem key key store.multi_series_warned, ==_refl key),
      λ ns name metric ne. ground (
        arith,
        cache_key_beq_iff key (cache_key ns name metric),
        contains-insert_elem key (cache_key ns name metric) store.multi_series_warned,
      ),
      ground (
        arith,
        ==_refl namespace,
        ==_refl epa_name,
        contains-filter (λ k. not (is_cached_of_epa namespace epa_name k)) key
            (insert_elem key store.multi_series_warned),
      ),
    )

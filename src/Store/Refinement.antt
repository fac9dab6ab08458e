-- ===== src/Store/Refinement.antt =====
-- The store refines its specification: every call keeps the cells that the specification gives.
use external_pod_autoscaler.Prelude.{List, [], ◌∷◌}
use external_pod_autoscaler.Text.{text_Eq}
use external_pod_autoscaler.Store.Types.{sample_key_Eq, cache_key_Eq, MetricsStore}
use external_pod_autoscaler.Store.Spec.{
  Call, push_of, cache_of, config_of, evict_of, retain_of, warn_of, remove_of, stats_of, clean_of,
  View, perform, specified,
}
use external_pod_autoscaler.Store.Cells.{Refines}
use external_pod_autoscaler.Store.Calls.{
  cache-Refines, config-Refines, stats-Refines, clean-Refines,
}
use external_pod_autoscaler.Store.WindowCalls.{
  push-Refines, evict-Refines, retain-Refines, warn-Refines, remove-Refines,
}

module _ {Float : Type 0} where
  perform-Refines :
      (call : Call Float) (store : MetricsStore Float) (v : View Float)
      → Refines store v
      → Refines (perform call store) (specified call v)
  perform-Refines (push_of k s size) store v r = push-Refines k s size store v r
  perform-Refines (cache_of namespace epa_name metric_name value ttl now) store v r =
      cache-Refines namespace epa_name metric_name value ttl now store v r
  perform-Refines (config_of namespace epa_name metric_name config) store v r =
      config-Refines namespace epa_name metric_name config store v r
  perform-Refines (evict_of max_age now) store v r = evict-Refines max_age now store v r
  perform-Refines (retain_of namespace epa_name pods) store v r =
      retain-Refines namespace epa_name pods store v r
  perform-Refines (warn_of namespace epa_name metric_name) store v r =
      warn-Refines namespace epa_name metric_name store v r
  perform-Refines (remove_of namespace epa_name) store v r =
      remove-Refines namespace epa_name store v r
  perform-Refines (stats_of namespace epa_name) store v r =
      stats-Refines namespace epa_name store v r
  perform-Refines (clean_of now) store v r = clean-Refines now store v r

  abbrev pub perform_all : List (Call Float) → MetricsStore Float → MetricsStore Float
  perform_all [] store = store
  perform_all (call ∷ calls) store = perform_all calls (perform call store)

  abbrev pub specified_all : List (Call Float) → View Float → View Float
  specified_all [] v = v
  specified_all (call ∷ calls) v = specified_all calls (specified call v)

  -- The store refines its specification: after any run of calls, the maps hold exactly what the
  -- cells hold that the specification updates one by one - cached values, configurations,
  -- warnings and statistics as they are, and each window as the last samples of the history of its
  -- key, as many as its size allows - where they did so before the run; no key comes to stand
  -- twice.
  pub perform_all-Refines :
      (calls : List (Call Float)) (store : MetricsStore Float) (v : View Float)
      → Refines store v
      → Refines (perform_all calls store) (specified_all calls v)
  perform_all-Refines [] store v r = r
  perform_all-Refines (call ∷ calls) store v r =
      perform_all-Refines calls (perform call store) (specified call v)
        (perform-Refines call store v r)

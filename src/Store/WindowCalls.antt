-- ===== src/Store/WindowCalls.antt =====
-- The calls on windows, and the deletion of an autoscaler, refine the same calls on the cells.
use external_pod_autoscaler.Prelude.{
  ℕ, inl, inr, not, ◌&&◌, ◌||◌, List, ◌==◌, ap, sym, ◌∙◌, Bool-cases,
}
use mathlib.Core.Path.{subst}
use external_pod_autoscaler.Text.{Text, text_Eq}
use external_pod_autoscaler.Assoc.{lookup}
use external_pod_autoscaler.Assoc.Laws.{
  retain-Unique, remove-Unique, modify_or_insert-Unique, contains-insert_elem,
}
use external_pod_autoscaler.Store.Types.{
  LabeledSample, SampleKey, sample_key_Eq, cache_key_Eq, MetricsStore,
}
use external_pod_autoscaler.Store.Window.{
  back, capacity, push, newest_sample_age, Shows, push-Shows, drop-nil,
}
use external_pod_autoscaler.Store.Window
use external_pod_autoscaler.Store.Ops.{
  cache_key, is_of_epa, is_cached_of_epa, stats_key, push_sample, stale_keys, evict_stale_windows,
  retain_pod_windows, first_multi_series, remove_epa_windows,
}
use external_pod_autoscaler.Store.Ops.Windows.{
  keeps, lookup-push_sample, lookup-evict_stale_windows, lookup-retain_pod_windows,
}
use external_pod_autoscaler.Store.Ops.Epa.{unless, lookup-remove_epa_windows}
use external_pod_autoscaler.Store.Spec.{
  push_of, evict_of, retain_of, warn_of, remove_of, View, perform, forget_stale, specified,
}
use external_pod_autoscaler.Store.Cells.{
  Matches, Refines, Matches-push, Matches-unless_stale, Matches-if_kept, Matches-unless,
  remove_keys-Unique,
}

module _ {Float : Type 0} where
  pub push-Refines :
      (k : SampleKey) (s : LabeledSample Float) (size : ℕ) (store : MetricsStore Float)
      (v : View Float)
      → Refines store v
      → Refines (perform (push_of k s size) store) (specified (push_of k s size) v)
  unfolding push_sample
  push-Refines k s size store v r = record {
    windows_once =
        modify_or_insert-Unique k (push s) (push s (Window.new size)) store.windows r.windows_once;
    cache_once = r.cache_once;
    stats_once = r.stats_once;
    windows = λ j.
        subst (λ o. Matches o ((specified (push_of k s size) v).windows j))
          (sym (lookup-push_sample k j s size store))
          (elim (Bool-cases (k == j)) [
            | inl e ↦
                rw e (Matches-push s size (lookup k store.windows) (v.windows k) (r.windows k))
            | inr e ↦ rw e (r.windows j)
          ]);
    cache = r.cache;
    configs = r.configs;
    warned = r.warned;
    stats = r.stats;
  }

  pub evict-Refines :
      (max_age now : ℕ) (store : MetricsStore Float) (v : View Float)
      → Refines store v
      → Refines (perform (evict_of max_age now) store) (specified (evict_of max_age now) v)
  unfolding evict_stale_windows
  evict-Refines max_age now store v r = record {
    windows_once =
        remove_keys-Unique (stale_keys max_age now store.windows) store.windows r.windows_once;
    cache_once = r.cache_once;
    stats_once = r.stats_once;
    windows = λ j.
        subst (λ o. Matches o (forget_stale max_age now (v.windows j)))
          (sym (lookup-evict_stale_windows max_age now j store r.windows_once))
          (Matches-unless_stale max_age now (lookup j store.windows) (v.windows j) (r.windows j));
    cache = r.cache;
    configs = r.configs;
    warned = r.warned;
    stats = r.stats;
  }

  pub retain-Refines :
      (namespace epa_name : Text) (active_pods : List Text) (store : MetricsStore Float)
      (v : View Float)
      → Refines store v
      → let call = retain_of namespace epa_name active_pods in
        Refines (perform call store) (specified call v)
  unfolding retain_pod_windows
  retain-Refines namespace epa_name active_pods store v r = record {
    windows_once = retain-Unique _ store.windows r.windows_once;
    cache_once = r.cache_once;
    stats_once = r.stats_once;
    windows = λ j.
        subst (λ o. Matches o (unless (not (keeps namespace epa_name active_pods j)) (v.windows j)))
          (sym (lookup-retain_pod_windows namespace epa_name active_pods j store r.windows_once).0)
          (Matches-if_kept (keeps namespace epa_name active_pods j) (lookup j store.windows)
            (v.windows j) (r.windows j));
    cache = r.cache;
    configs = r.configs;
    warned = r.warned;
    stats = r.stats;
  }

  pub warn-Refines :
      (namespace epa_name metric_name : Text) (store : MetricsStore Float) (v : View Float)
      → Refines store v
      → let call = warn_of namespace epa_name metric_name in
        Refines (perform call store) (specified call v)
  unfolding first_multi_series
  warn-Refines namespace epa_name metric_name store v r =
      let k = cache_key namespace epa_name metric_name in
      record {
        windows_once = r.windows_once;
        cache_once = r.cache_once;
        stats_once = r.stats_once;
        windows = r.windows;
        cache = r.cache;
        configs = r.configs;
        warned = λ j.
            contains-insert_elem k j store.multi_series_warned ∙ ap (λ b. k == j || b) (r.warned j);
        stats = r.stats;
      }

  pub remove-Refines :
      (namespace epa_name : Text) (store : MetricsStore Float) (v : View Float)
      → Refines store v
      → Refines
          (perform (remove_of namespace epa_name) store)
          (specified (remove_of namespace epa_name) v)
  unfolding remove_epa_windows
  remove-Refines namespace epa_name store v r =
      let (windows, cache, configs, warned, stats) =
        lookup-remove_epa_windows namespace epa_name store r.stats_once in
      record {
        windows_once = retain-Unique _ store.windows r.windows_once;
        cache_once = retain-Unique _ store.cache r.cache_once;
        stats_once = remove-Unique (stats_key namespace epa_name) store.scrape_stats r.stats_once;
        windows = λ j.
            subst (λ o. Matches o (unless (is_of_epa namespace epa_name j) (v.windows j)))
              (sym (windows j))
              (Matches-unless (is_of_epa namespace epa_name j) (lookup j store.windows)
                (v.windows j) (r.windows j));
        cache = λ j. cache j ∙ ap (unless (is_cached_of_epa namespace epa_name j)) (r.cache j);
        configs =
            λ j. configs j ∙ ap (unless (is_cached_of_epa namespace epa_name j)) (r.configs j);
        warned =
            λ j. warned j ∙ ap (λ b. not (is_cached_of_epa namespace epa_name j) && b) (r.warned j);
        stats = λ j. stats j ∙ ap (unless (stats_key namespace epa_name == j)) (r.stats j);
      }

-- ===== src/Tests/Refinement.antt =====
-- An example of the store beside its specification.
use external_pod_autoscaler.Prelude.{refl, true, false, [], ◌∷◌, none, ℕ, List}
use external_pod_autoscaler.Text.{codes}
use external_pod_autoscaler.Store.Types.{MetricsStore, SampleKey, LabeledSample, gauge}
use external_pod_autoscaler.Store.Ops.{empty_store}
use external_pod_autoscaler.Store.Spec.{
  Call, View, push_of, cache_of, evict_of, retain_of, warn_of, stats_of, clean_of,
}
use external_pod_autoscaler.Store.Cells.{Refines}
use external_pod_autoscaler.Store.Refinement.{perform_all, specified_all, perform_all-Refines}
use external_pod_autoscaler.Tests.{ns, epa_name, seconds}

abbrev nothing : View ℕ
nothing = record {
  windows = λ k. none;
  cache = λ k. none;
  configs = λ k. none;
  warned = λ k. false;
  stats = λ k. none;
}

abbrev empty : MetricsStore ℕ
empty = empty_store

empty-Refines : Refines empty nothing
empty-Refines = record {
  windows_once = tt;
  cache_once = tt;
  stats_once = tt;
  windows = λ k. tt;
  cache = λ k. refl;
  configs = λ k. refl;
  warned = λ k. refl;
  stats = λ k. refl;
}

abbrev first_pod : SampleKey
first_pod = record {
  namespace = ns;
  epa_name = epa_name;
  metric_name = codes "qps";
  pod_name = codes "web-0";
}

abbrev sample : ℕ → LabeledSample ℕ
sample v = record { value = v; scraped_at = seconds v; success = true; metric_type = gauge }

-- Three pushes into a window of two, and the rest of a tick.
abbrev calls : List (Call ℕ)
calls =
    push_of first_pod (sample 1) 2
    ∷ push_of first_pod (sample 2) 2
    ∷ push_of first_pod (sample 3) 2
    ∷ stats_of ns epa_name
    ∷ warn_of ns epa_name (codes "qps")
    ∷ cache_of ns epa_name (codes "qps") 3 (seconds 10) (seconds 3)
    ∷ retain_of ns epa_name (codes "web-0" ∷ [])
    ∷ evict_of (seconds 120) (seconds 60)
    ∷ clean_of (seconds 60)
    ∷ []

perform_all-Refines_example : Refines (perform_all calls empty) (specified_all calls nothing)
perform_all-Refines_example = perform_all-Refines calls empty nothing empty-Refines

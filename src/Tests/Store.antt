-- ===== src/Tests/Store.antt =====
-- Examples of the store of samples.
use external_pod_autoscaler.Prelude.{ℕ, ◌-◌, ◌≡◌, true, [], ◌∷◌, arith, drop}
use external_pod_autoscaler.Text.{Text, codes, text_Eq}
use external_pod_autoscaler.Store.Types.{
  MetricsStore, SampleKey, LabeledSample, gauge, ScrapeStats, sample_key_Eq, cache_key_Eq,
}
use external_pod_autoscaler.Store.Window
use external_pod_autoscaler.Store.Window.{push, push_all, capacity, push_all-keeps_last}
use external_pod_autoscaler.Store.Ops.{cache_key}
use external_pod_autoscaler.Store.Stats.{IsI32}
use external_pod_autoscaler.Tests.{alpha, ns, epa_name, seconds}

abbrev sample : ℕ → LabeledSample ℕ
sample v = record { value = v; scraped_at = seconds v; success = true; metric_type = gauge }

abbrev key_of : Text → SampleKey
key_of pod = record {
  namespace = ns;
  epa_name = epa_name;
  metric_name = codes "qps";
  pod_name = pod;
}

abbrev store : MetricsStore ℕ
store = record {
  windows = (key_of alpha, record { samples = sample 1 ∷ sample 2 ∷ []; max_samples = 2 }) ∷ [];
  cache =
      (cache_key ns epa_name (codes "qps"), record { value = 3; computed_at = 0; ttl = seconds 10 })
      ∷ [];
  configs = [];
  scrape_stats = [];
  multi_series_warned = [];
}

push_all-keeps_last_example :
    (push_all (sample 1 ∷ sample 2 ∷ sample 3 ∷ []) (Window.new 2)).samples
    ≡ drop (3 - capacity 2) (sample 1 ∷ sample 2 ∷ sample 3 ∷ [])
push_all-keeps_last_example = push_all-keeps_last 2 (sample 1 ∷ sample 2 ∷ sample 3 ∷ [])

abbrev full : ScrapeStats
full = record { scraped = 4294967295; errors = 2 }

full-IsI32 : IsI32 full
full-IsI32 = record { scraped_word = omega arith; errors_word = omega arith }

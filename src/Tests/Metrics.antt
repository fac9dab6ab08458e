-- ===== src/Tests/Metrics.antt =====
-- Examples of the answers to requests for a metric.
use external_pod_autoscaler.Prelude.{
  ℕ, ◌-◌, ◌≡◌, ◌≢◌, refl, true, [], ◌∷◌, none, some, arith, All, if◌then◌else◌, ltb,
}
use external_pod_autoscaler.Text.{Text, codes, text_Eq}
use external_pod_autoscaler.Api.{max, min}
use external_pod_autoscaler.Store.Types.{MetricsStore, MetricWindow, LabeledSample, gauge, counter}
use external_pod_autoscaler.Store.Ops.{get_cached}
use external_pod_autoscaler.Membership.Ownership.{new_state, secs}
use external_pod_autoscaler.Webhook.Metrics.Aggregation.{
  aggregate_samples, calculate_rate, values_of,
}
use external_pod_autoscaler.Webhook.Metrics.Aggregation.Bounds.{Attained, aggregate_samples_extrema}
use external_pod_autoscaler.Webhook.Metrics.Name.{
  ok, err, metric_unavailable, parse_external_metric_name, external_metric_name,
  parse-external_metric_name,
}
use external_pod_autoscaler.Webhook.Metrics.Handler.{AppState, answer, serve_local}
use external_pod_autoscaler.Webhook.Metrics.Handler.Answers.{
  contributors, aggregated, serve_local_cases,
}
use external_pod_autoscaler.Tests.{
  Extended, fin, extended_le, floats, floats_order, hasher, alpha, ns, epa_name, both_active,
  seconds,
}

abbrev qps : Text
qps = codes "qps"

abbrev sample : ℕ → ℕ → LabeledSample Extended
sample t v = record { value = fin v; scraped_at = seconds t; success = true; metric_type = gauge }

abbrev count : ℕ → ℕ → LabeledSample Extended
count t v = record { value = fin v; scraped_at = seconds t; success = true; metric_type = counter }

abbrev window : MetricWindow Extended
window = record { samples = sample 1 3 ∷ sample 2 5 ∷ []; max_samples = 4 }

aggregate_samples_extrema_example :
    let values = values_of floats (sample 1 3 ∷ sample 2 5 ∷ []) in
    let top = aggregate_samples floats (sample 1 3 ∷ sample 2 5 ∷ []) max in
    let bottom = aggregate_samples floats (sample 1 3 ∷ sample 2 5 ∷ []) min in
    (All (λ v. extended_le v top ≡ true) values × Attained floats floats_order top values)
    × (All (λ v. extended_le bottom v ≡ true) values × Attained floats floats_order bottom values)
aggregate_samples_extrema_example =
    aggregate_samples_extrema floats floats_order (sample 1 3) (sample 2 5 ∷ []) (refl, (refl, tt))

rate_is : calculate_rate floats (count 1 3 ∷ count 2 5 ∷ []) ≡ some (fin 2)
unfolding calculate_rate
rate_is = refl

parse-external_metric_name_example :
    parse_external_metric_name
      (codes "my-ns")
      (external_metric_name (codes "my-web") (codes "my-ns") qps)
    ≡ ok (codes "my-web", codes "my-ns", qps)
parse-external_metric_name_example =
    parse-external_metric_name (codes "my-web") (codes "my-ns") qps (λ e. ground arith)
      (λ e. ground arith) refl

parsed : parse_external_metric_name ns (codes "web-ns-qps") ≡ ok (epa_name, ns, qps)
unfolding parse_external_metric_name
parsed = refl

abbrev store : MetricsStore Extended
store = record {
  windows =
      (record { namespace = ns; epa_name = epa_name; metric_name = qps; pod_name = alpha }, window)
      ∷ [];
  cache = [];
  configs = [];
  scrape_stats = [];
  multi_series_warned = [];
}

-- The replica `a`, which owns nothing.
abbrev app : AppState Extended
app = record {
  my_id = alpha;
  sets = both_active;
  transition = new_state;
  metrics_store = store;
  now = seconds 50;
  cached_at = seconds 50;
  computed_at = seconds 51;
}

serve_local_cases_example :
    ((v : Extended)
      → get_cached store ns epa_name qps (seconds 50) ≡ some v
      → serve_local floats hasher app (codes "web-ns-qps") ns epa_name qps
        ≡ (ok (answer floats hasher (codes "web-ns-qps") v), store))
    × (get_cached store ns epa_name qps (seconds 50) ≡ none
        → contributors floats hasher app (codes "web-ns-qps") ns epa_name qps ≡ []
        → serve_local floats hasher app (codes "web-ns-qps") ns epa_name qps
          ≡ (err metric_unavailable, store))
    × (get_cached store ns epa_name qps (seconds 50) ≡ none
        → contributors floats hasher app (codes "web-ns-qps") ns epa_name qps ≢ []
        → let (result, store') =
            serve_local floats hasher app (codes "web-ns-qps") ns epa_name qps in
          let sum = (aggregated floats hasher app (codes "web-ns-qps") ns epa_name qps).0 in
          (result ≡ ok (answer floats hasher (codes "web-ns-qps") sum))
          × ((later : ℕ)
              → get_cached store' ns epa_name qps later
                ≡ (if ltb (later - seconds 51) (secs 10) then some sum else none)))
serve_local_cases_example = serve_local_cases floats hasher app (codes "web-ns-qps") ns epa_name qps

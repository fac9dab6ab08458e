-- ===== src/Webhook/Metrics/Aggregation/Contributors.antt =====
-- Which pods contribute to the value of a metric.
use external_pod_autoscaler.Prelude.{
  ◌≡◌, refl, Bool, true, false, List, [], ◌∷◌, Option, none, some, arith, if◌then◌else◌, ap, length,
  filter, is_empty,
}
use external_pod_autoscaler.Float.{F64}
use external_pod_autoscaler.Text.{Text}
use external_pod_autoscaler.Api.{AggregationType}
use external_pod_autoscaler.Store.Types.{LabeledSample, MetricType, gauge, counter, MetricWindow}
use external_pod_autoscaler.Webhook.Metrics.Aggregation.{
  calculate_rate, value_of_successful, pod_value, per_pod_values, aggregate_metric, sum,
}

abbrev is_gauge : MetricType → Bool
is_gauge gauge = true
is_gauge counter = false

-- A gauge contributes from its first successful sample on, a counter from its second.
abbrev enough : {Float : Type 0} → List (LabeledSample Float) → Bool
enough [] = false
enough (s ∷ []) = is_gauge s.metric_type
enough (s ∷ t ∷ samples) = true

abbrev pub contributes : {Float : Type 0} → Text × MetricWindow Float → Bool
contributes {Float} (pod_name, window) =
    enough (filter (λ (s : LabeledSample Float). s.success) window.samples)

abbrev is_value {ℓ} : {A : Type ℓ} → Option A → Bool
is_value none = false
is_value (some v) = true

module _ (f64 : F64) (type : AggregationType) where
  value_of_successful-enough :
      (samples : List (LabeledSample f64.Float))
      → is_value (value_of_successful f64 samples type) ≡ enough samples
  unfolding value_of_successful calculate_rate
  value_of_successful-enough [] = refl
  value_of_successful-enough (s ∷ []) = ground arith
  value_of_successful-enough (s ∷ t ∷ samples) = ground arith

  pod_value-contributes :
      (pod_name : Text) (window : MetricWindow f64.Float)
      → is_value (pod_value f64 window type) ≡ contributes (pod_name, window)
  unfolding pod_value
  pod_value-contributes pod_name window = go window.samples
    where
      successful : List (LabeledSample f64.Float) → List (LabeledSample f64.Float)
      successful = filter (λ (s : LabeledSample f64.Float). s.success)

      go :
          (samples : List (LabeledSample f64.Float))
          → is_value
              (if is_empty samples then none else value_of_successful f64 (successful samples) type)
            ≡ enough (successful samples)
      go [] = refl
      go (s ∷ samples) = value_of_successful-enough (successful (s ∷ samples))

  -- The number that `aggregate_metric` returns is the number of pods that contribute: those with a
  -- successful sample, and for a counter with two.
  pub aggregate_metric_counts :
      (windows : List (Text × MetricWindow f64.Float))
      → (aggregate_metric f64 windows type).1 ≡ length (filter contributes windows)
  unfolding aggregate_metric per_pod_values
  aggregate_metric_counts [] = refl
  aggregate_metric_counts ((pod_name, window) ∷ windows) =
      ground (arith, aggregate_metric_counts windows, pod_value-contributes pod_name window)

  per_pod_values-filter :
      (windows : List (Text × MetricWindow f64.Float))
      → per_pod_values f64 (filter contributes windows) type ≡ per_pod_values f64 windows type
  unfolding per_pod_values
  per_pod_values-filter [] = refl
  per_pod_values-filter ((pod_name, window) ∷ windows) =
      ground (arith, per_pod_values-filter windows, pod_value-contributes pod_name window)

  -- The pods that do not contribute can be left out: neither the sum nor the number changes.
  pub aggregate_metric-filter :
      (windows : List (Text × MetricWindow f64.Float))
      → aggregate_metric f64 (filter contributes windows) type ≡ aggregate_metric f64 windows type
  unfolding aggregate_metric
  aggregate_metric-filter windows =
      ap (λ values. (sum f64 values, length values)) (per_pod_values-filter windows)

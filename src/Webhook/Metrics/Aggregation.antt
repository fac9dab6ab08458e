-- ===== src/Webhook/Metrics/Aggregation.antt =====
-- src/webhook/metrics/aggregation.rs: a value for each pod from its window, then the sum over pods.
-- A sum starts at zero. The sort of the median puts a value behind all that are not greater; among
-- numbers that is the stable sort of the source.
pub mod Bounds
pub mod Contributors
use external_pod_autoscaler.Prelude.{
  ℕ, zero, suc, ◌+◌, ◌-◌, ◌/◌, ◌%◌, Bool, true, false, not, ◌&&◌, List, [], ◌∷◌, ◌++◌, Option, none,
  some, map, nat_eq, if◌then◌else◌, length, filter, is_empty,
}
use external_pod_autoscaler.Prelude.Int.{pos}
use external_pod_autoscaler.Float.{F64, fmax, fmin}
use external_pod_autoscaler.Text.{Text}
use external_pod_autoscaler.Api.{AggregationType, avg, max, min, median, last}
use external_pod_autoscaler.Store.Types.{LabeledSample, MetricType, gauge, counter, MetricWindow}

abbrev pub get_or {ℓ} : {A : Type ℓ} → List A → ℕ → A → A
get_or [] i d = d
get_or (x ∷ xs) zero d = x
get_or (x ∷ xs) (suc i) d = get_or xs i d

module _ (f64 : F64) where
  open f64 use {Float, add, sub, div, le, infinity, neg_infinity, of_ℤ, as_secs, two}

  abbrev pub sum_from : Float → List Float → Float
  sum_from acc [] = acc
  sum_from acc (v ∷ values) = sum_from (add acc v) values

  -- `Iterator::sum`.
  abbrev pub sum : List Float → Float
  sum values = sum_from f64.zero values

  abbrev pub fold : (Float → Float → Float) → Float → List Float → Float
  fold f acc [] = acc
  fold f acc (v ∷ values) = fold f (f acc v) values

  abbrev pub values_of : List (LabeledSample Float) → List Float
  values_of samples = map (λ (s : LabeledSample Float). s.value) samples

  -- `partial_cmp(..).unwrap_or(Equal)` is `Greater`.
  abbrev pub greater : Float → Float → Bool
  greater a b = le b a && not (le a b)

  abbrev pub insert_sorted : Float → List Float → List Float
  insert_sorted v [] = v ∷ []
  insert_sorted v (w ∷ values) = if greater v w then w ∷ insert_sorted v values else v ∷ w ∷ values

  abbrev pub sort : List Float → List Float
  sort [] = []
  sort (v ∷ values) = insert_sorted v (sort values)

  abbrev pub median_of : List Float → Float
  median_of values =
      let mid = length values / 2 in
      if nat_eq (length values % 2) 0
      then div (add (get_or values (mid - 1) f64.zero) (get_or values mid f64.zero)) two
      else get_or values mid f64.zero

  abbrev pub last_of : Float → List Float → Float
  last_of default [] = default
  last_of default (v ∷ values) = last_of v values

  unfoldable pub aggregate_samples : List (LabeledSample Float) → AggregationType → Float
  aggregate_samples [] type = f64.zero
  aggregate_samples (s ∷ samples) avg =
      let values = values_of (s ∷ samples) in div (sum values) (of_ℤ (pos (length values)))
  aggregate_samples (s ∷ samples) max = fold (fmax f64) neg_infinity (values_of (s ∷ samples))
  aggregate_samples (s ∷ samples) min = fold (fmin f64) infinity (values_of (s ∷ samples))
  aggregate_samples (s ∷ samples) median = median_of (sort (values_of (s ∷ samples)))
  aggregate_samples (s ∷ samples) last = last_of f64.zero (values_of (s ∷ samples))

  abbrev pub max_rate : Float
  max_rate = of_ℤ (pos 1_000_000_000)

  -- `==` on floats.
  abbrev pub feq : Float → Float → Bool
  feq a b = le a b && le b a

  abbrev pub last_sample : LabeledSample Float → List (LabeledSample Float) → LabeledSample Float
  last_sample s [] = s
  last_sample s (t ∷ samples) = last_sample t samples

  -- One pair of `windows(2)`: a value that drops is a restart of the counter.
  abbrev pub pair_increase : Float → Float → Float
  pair_increase a b = if le a b then sub b a else b

  abbrev pub increases : LabeledSample Float → List (LabeledSample Float) → List Float
  increases s [] = []
  increases s (t ∷ samples) = pair_increase s.value t.value ∷ increases t samples

  unfoldable pub calculate_rate : List (LabeledSample Float) → Option Float
  calculate_rate [] = none
  calculate_rate (first ∷ []) = none
  calculate_rate (first ∷ second ∷ samples) =
      let end = last_sample second samples in
      let elapsed = as_secs (end.scraped_at - first.scraped_at) in
      let increase = sum (increases first (second ∷ samples)) in
      if feq elapsed f64.zero
      then some f64.zero
      else some (fmin f64 (div increase elapsed) max_rate)

  -- The value that a pod contributes, from its successful samples; `none` is a `continue`.
  unfoldable pub value_of_successful : List (LabeledSample Float) → AggregationType → Option Float
  value_of_successful [] type = none
  value_of_successful (first ∷ samples) type = elim first.metric_type [
    | counter ↦ calculate_rate (first ∷ samples)
    | gauge ↦ some (aggregate_samples (first ∷ samples) type)
  ]

  unfoldable pub pod_value : MetricWindow Float → AggregationType → Option Float
  pod_value window type =
      if is_empty window.samples
      then none
      else value_of_successful (filter (λ (s : LabeledSample Float). s.success) window.samples) type

  unfoldable pub per_pod_values : List (Text × MetricWindow Float) → AggregationType → List Float
  per_pod_values [] type = []
  per_pod_values ((pod_name, window) ∷ windows) type = elim (pod_value window type) [
    | none ↦ per_pod_values windows type
    | some v ↦ v ∷ per_pod_values windows type
  ]

  unfoldable pub aggregate_metric : List (Text × MetricWindow Float) → AggregationType → Float × ℕ
  aggregate_metric windows type =
      let values = per_pod_values windows type in (sum values, length values)

-- ===== src/Webhook/Metrics/Handler/Answers.antt =====
-- What `get_external_metric` answers, and what it leaves in the store.
use external_pod_autoscaler.Prelude.{
  ℕ, ◌-◌, ◌≡◌, ◌≢◌, refl, Bool, true, false, List, [], ◌∷◌, none, some, if◌then◌else◌, arith,
  ==_refl, inl, inr, Bool-cases, ap, ◌∙◌, is_empty, nat_eq, filter, length, ltb,
}
use external_pod_autoscaler.Prelude.Int.{◌≤ℤ◌}
use external_pod_autoscaler.Float.{F64}
use external_pod_autoscaler.Text.{Text, text_Eq}
use external_pod_autoscaler.Membership.Ownership.{Hasher, secs}
use external_pod_autoscaler.Store.Types.{MetricsStore, MetricWindow, cache_key_Eq}
use external_pod_autoscaler.Store.Ops.{
  get_windows, get_cached, get_metric_config, cache_result, cache_key,
}
use external_pod_autoscaler.Store.Ops.Cache.{get_cached-cache_result}
use external_pod_autoscaler.Webhook.Metrics.Aggregation.{aggregate_metric}
use external_pod_autoscaler.Webhook.Metrics.Aggregation.Contributors.{
  contributes, aggregate_metric_counts,
}
use external_pod_autoscaler.Webhook.Metrics.Name.{
  metric_unavailable, ApiResult, ok, err, parse_external_metric_name,
}
use external_pod_autoscaler.Webhook.Metrics.Handler.{
  AppState, Peers, ExternalMetricValueList, i64_max, i64_min, to_i64, answer, finish_local,
  serve_local, fall_back, serves, get_external_metric, target_of, try_forward,
}

length_nonempty : {A : Type 0} (xs : List A) → xs ≢ [] → nat_eq (length xs) 0 ≡ false
length_nonempty [] h = absurd (h refl)
length_nonempty (x ∷ xs) h = ground arith

filter_empty : {A : Type 0} (p : A → Bool) (xs : List A) → is_empty xs ≡ true → filter p xs ≡ []
filter_empty p [] h = refl
filter_empty p (x ∷ xs) h = cc

module _ (f64 : F64) (hasher : Hasher) where
  open f64 use {Float}

  module _ (app : AppState Float) (metric_name epa_namespace epa_name actual_metric : Text) where
    abbrev store : MetricsStore Float
    store = app.metrics_store

    -- The pods of the metric that contribute a value.
    abbrev pub contributors : List (Text × MetricWindow Float)
    contributors = filter contributes (get_windows store epa_namespace epa_name actual_metric)

    abbrev pub aggregated : Float × ℕ
    aggregated =
        aggregate_metric f64 (get_windows store epa_namespace epa_name actual_metric)
          (get_metric_config store epa_namespace epa_name actual_metric).aggregation_type

    local : ApiResult ExternalMetricValueList × MetricsStore Float
    local = serve_local f64 hasher app metric_name epa_namespace epa_name actual_metric

    aggregated_counts : aggregated.1 ≡ length contributors
    aggregated_counts =
        aggregate_metric_counts f64
          (get_metric_config store epa_namespace epa_name actual_metric).aggregation_type
          (get_windows store epa_namespace epa_name actual_metric)

    serve_miss :
        get_cached store epa_namespace epa_name actual_metric app.cached_at ≡ none
        → local ≡ (
            if is_empty (get_windows store epa_namespace epa_name actual_metric)
            then (err metric_unavailable, store)
            else finish_local f64 hasher app metric_name epa_namespace epa_name actual_metric
                aggregated)
    unfolding serve_local local
    serve_miss miss = rw (miss, serve_local)

    serve_empty :
        get_cached store epa_namespace epa_name actual_metric app.cached_at ≡ none
        → contributors ≡ []
        → local ≡ (err metric_unavailable, store)
    serve_empty miss h =
        let zero_pods : aggregated.1 ≡ 0 = aggregated_counts ∙ ap length h in
        serve_miss miss
        ∙ elim (Bool-cases (is_empty (get_windows store epa_namespace epa_name actual_metric))) [
          | inl e ↦ rw e
          | inr e ↦ rw (e, zero_pods)
        ]

    computed : MetricsStore Float
    computed =
        cache_result epa_namespace epa_name actual_metric aggregated.0 (secs 10) app.computed_at
          store

    reads :
        (later : ℕ)
        → get_cached computed epa_namespace epa_name actual_metric later
          ≡ (if ltb (later - app.computed_at) (secs 10) then some aggregated.0 else none)
    unfolding computed
    reads later =
        let key = cache_key epa_namespace epa_name actual_metric in
        get_cached-cache_result epa_namespace epa_name actual_metric store aggregated.0 (secs 10)
          app.computed_at later epa_namespace epa_name actual_metric
        ∙ rw (==_refl key)

    some_pods : contributors ≢ [] → nat_eq aggregated.1 0 ≡ false
    some_pods h = ap (λ n. nat_eq n 0) aggregated_counts ∙ length_nonempty contributors h

    some_windows :
        contributors ≢ []
        → is_empty (get_windows store epa_namespace epa_name actual_metric) ≡ false
    some_windows h =
        elim (Bool-cases (is_empty (get_windows store epa_namespace epa_name actual_metric))) [
          | inl e ↦ absurd (h (filter_empty contributes _ e))
          | inr e ↦ e
        ]

    serve_hit :
        get_cached store epa_namespace epa_name actual_metric app.cached_at ≡ none
        → contributors ≢ []
        → local ≡ (ok (answer f64 hasher metric_name aggregated.0), computed)
    unfolding computed
    serve_hit miss h = serve_miss miss ∙ rw (some_windows h, some_pods h)

    -- The local answer, case by case: a cached value that is still valid is answered and the store
    -- stays; without one, and without a contributing pod, the metric is unavailable and the store
    -- stays; else the answer is the aggregate over the pods, and a read of the cache finds it for
    -- ten seconds.
    pub serve_local_cases :
        ((v : Float)
          → get_cached store epa_namespace epa_name actual_metric app.cached_at ≡ some v
          → serve_local f64 hasher app metric_name epa_namespace epa_name actual_metric
            ≡ (ok (answer f64 hasher metric_name v), store))
        × (get_cached store epa_namespace epa_name actual_metric app.cached_at ≡ none
            → contributors ≡ []
            → serve_local f64 hasher app metric_name epa_namespace epa_name actual_metric
              ≡ (err metric_unavailable, store))
        × (get_cached store epa_namespace epa_name actual_metric app.cached_at ≡ none
            → contributors ≢ []
            → let (result, store') =
                serve_local f64 hasher app metric_name epa_namespace epa_name actual_metric in
              (result ≡ ok (answer f64 hasher metric_name aggregated.0))
              × ((later : ℕ)
                  → get_cached store' epa_namespace epa_name actual_metric later ≡ (
                      if ltb (later - app.computed_at) (secs 10) then some aggregated.0 else none)))
    unfolding serve_local local computed
    serve_local_cases = (
      λ v e. rw (e, serve_local) refl,
      serve_empty,
      λ miss h. (
        ap (λ (r : ApiResult ExternalMetricValueList × MetricsStore Float). r.0) (serve_hit miss h),
        λ later.
            ap
              (λ (r : ApiResult ExternalMetricValueList × MetricsStore Float).
                get_cached r.1 epa_namespace epa_name actual_metric later)
              (serve_hit miss h)
            ∙ reads later,
      ),
    )

  -- A request that this replica does not serve leaves the store alone when it is forwarded with
  -- success, and then answers what the other replica answered.
  pub get_external_metric_forwarded :
      (peers : Peers) (app : AppState Float)
      (namespace metric_name epa_name epa_namespace actual_metric : Text)
      (list : ExternalMetricValueList)
      → parse_external_metric_name namespace metric_name
        ≡ ok (epa_name, epa_namespace, actual_metric)
      → serves f64 hasher app epa_namespace epa_name ≡ false
      → try_forward peers namespace metric_name (target_of f64 hasher app epa_namespace epa_name)
        ≡ some list
      → get_external_metric f64 hasher peers app namespace metric_name
        ≡ (ok list, app.metrics_store)
  unfolding get_external_metric fall_back
  get_external_metric_forwarded peers app namespace metric_name epa_name epa_namespace actual_metric
        list parsed idle found =
      rw (parsed, get_external_metric, idle, found) refl

  -- The value answered fits into an `i64`: between the bounds for every float, if dropping the
  -- fraction of a float between the bounds stays between them.
  pub to_i64_bounds :
      ((v : Float)
        → f64.is_nan v ≡ false
        → f64.le (f64.of_ℤ i64_max) v ≡ false
        → f64.le v (f64.of_ℤ i64_min) ≡ false
        → (i64_min ≤ℤ f64.truncate v) × (f64.truncate v ≤ℤ i64_max))
      → (v : Float) → (i64_min ≤ℤ to_i64 f64 hasher v) × (to_i64 f64 hasher v ≤ℤ i64_max)
  unfolding to_i64
  to_i64_bounds between v = ground (arith, between v)

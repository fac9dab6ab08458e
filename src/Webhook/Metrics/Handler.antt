-- ===== src/Webhook/Metrics/Handler.antt =====
-- `get_external_metric` of src/webhook/metrics/handlers.rs. The lease lookup and the HTTP client
-- are parameters: `Peers` says what they answer. The telemetry and the log lines are left out, and
-- so is the timestamp of the answer.
pub mod Answers
use external_pod_autoscaler.Prelude.{
  ℕ, ◌≡◌, ◌^◌, ◌-◌, Bool, true, false, not, List, [], ◌∷◌, ◌++◌, Option, none, some, if◌then◌else◌,
  ◌==◌, nat_eq, is_empty,
}
use external_pod_autoscaler.Prelude.Int.{ℤ, pos, negsuc}
use external_pod_autoscaler.Float.{F64}
use external_pod_autoscaler.Text.{Text, codes, text_Eq}
use external_pod_autoscaler.Text.Number.{show_ℤ}
use external_pod_autoscaler.Membership.Manager.{ReplicaSets}
use external_pod_autoscaler.Membership.Ownership.{
  Hasher, TransitionState, secs, get_epa_owner, get_previous_epa_owner, should_serve_epa,
}
use external_pod_autoscaler.Store.Types.{MetricsStore, MetricWindow}
use external_pod_autoscaler.Store.Ops.{get_windows, get_cached, get_metric_config, cache_result}
use external_pod_autoscaler.Webhook.Metrics.Aggregation.{aggregate_metric}
use external_pod_autoscaler.Webhook.Metrics.Name.{
  ApiError, bad_request, metric_unavailable, ApiResult, ok, err, parse_external_metric_name,
}

-- src/webhook/metrics/types.rs.
pub record ExternalMetricValue : Type 0 where
  pub metric_name : Text
  pub metric_labels : List (Text × Text)
  pub value : Text

pub record ExternalMetricValueList : Type 0 where
  pub api_version : Text
  pub kind : Text
  pub items : List ExternalMetricValue

abbrev pub new_list : List ExternalMetricValue → ExternalMetricValueList
new_list items = record {
  api_version = codes "external.metrics.k8s.io/v1beta1";
  kind = codes "ExternalMetricValueList";
  items = items;
}

-- What comes back of a forwarded request.
pub data Reply : Type 0 where
  metrics : ExternalMetricValueList → Reply
  unparsable non_success failed : Reply

-- `get_replica_address`, with `none` for an error, and `forward_client.get(url).send()`.
pub record Peers : Type 0 where
  pub address : Text → Option Text
  pub send : (url : Text) → Reply

-- What the handler reads of the application's state, with one reading of the clock for each
-- question: `now` for the ownership, `cached_at` for the cache, `computed_at` where it writes it.
pub record AppState (Float : Type 0) : Type 0 where
  pub my_id : Text
  pub sets : ReplicaSets
  pub transition : TransitionState
  pub metrics_store : MetricsStore Float
  pub now : ℕ
  pub cached_at : ℕ
  pub computed_at : ℕ

-- Where a request is forwarded that this replica does not serve, and whether that is the
-- draining predecessor.
unfoldable pub forward_target :
    (my_id : Text) → (owner previous : Option Text) → Option (Text × Bool)
forward_target my_id none previous = none
forward_target my_id (some owner_id) none =
    if owner_id == my_id then none else some (owner_id, false)
forward_target my_id (some owner_id) (some prev) =
    if owner_id == my_id
    then (if prev == owner_id then none else some (prev, true))
    else some (owner_id, false)

abbrev pub forward_url : (address namespace metric_name : Text) → Text
forward_url address namespace metric_name =
    codes "https://"
    ++ (address
        ++ (codes "/apis/external.metrics.k8s.io/v1beta1/namespaces/"
            ++ (namespace ++ b'/' ∷ metric_name)))

abbrev pub parsed_reply : Reply → Option ExternalMetricValueList
parsed_reply (metrics list) = some list
parsed_reply unparsable = none
parsed_reply non_success = none
parsed_reply failed = none

-- The block labelled `'forward`.
unfoldable pub try_forward :
    Peers → (namespace metric_name : Text) → Option (Text × Bool) → Option ExternalMetricValueList
try_forward peers namespace metric_name none = none
try_forward peers namespace metric_name (some (target, _)) = elim (peers.address target) [
  | none ↦ none
  | some address ↦ parsed_reply (peers.send (forward_url address namespace metric_name))
]

abbrev pub i64_max : ℤ
i64_max = pos (2 ^ 63 - 1)

abbrev pub i64_min : ℤ
i64_min = negsuc (2 ^ 63 - 1)

module _ (f64 : F64) (hasher : Hasher) where
  open f64 use {Float, le, is_nan, of_ℤ, truncate}

  -- `f64` to `i64` with overflow protection; a NaN becomes zero.
  unfoldable pub to_i64 : Float → ℤ
  to_i64 v =
      if le (of_ℤ i64_max) v
      then i64_max
      else if le v (of_ℤ i64_min)
      then i64_min
      else if is_nan v
      then pos 0
      else truncate v

  abbrev pub answer : Text → Float → ExternalMetricValueList
  answer metric_name value =
      new_list (
        record { metric_name = metric_name; metric_labels = []; value = show_ℤ (to_i64 value) }
        ∷ [])

  -- After the aggregation: no value without a contributing pod, else the value, cached for 10 s.
  abbrev pub finish_local :
      AppState Float
      → (metric_name epa_namespace epa_name actual_metric : Text) → Float × ℕ
      → ApiResult ExternalMetricValueList × MetricsStore Float
  finish_local app metric_name epa_namespace epa_name actual_metric (value, contributing_pods) =
      if nat_eq contributing_pods 0 then (err metric_unavailable, app.metrics_store) else (
        ok (answer metric_name value),
        cache_result epa_namespace epa_name actual_metric value (secs 10) app.computed_at
            app.metrics_store,
      )

  -- The local processing, from the cache or the windows.
  unfoldable pub serve_local :
      AppState Float
      → (metric_name epa_namespace epa_name actual_metric : Text)
      → ApiResult ExternalMetricValueList × MetricsStore Float
  serve_local app metric_name epa_namespace epa_name actual_metric =
      let store = app.metrics_store in
      let windows = get_windows store epa_namespace epa_name actual_metric in
      let config = get_metric_config store epa_namespace epa_name actual_metric in
      elim (get_cached store epa_namespace epa_name actual_metric app.cached_at) [
        | some cached_value ↦ (ok (answer metric_name cached_value), store)
        | none ↦
            if is_empty windows
            then (err metric_unavailable, store)
            else finish_local app metric_name epa_namespace epa_name actual_metric
                (aggregate_metric f64 windows config.aggregation_type)
      ]

  -- After a forward that failed: the local data, if there is any.
  unfoldable pub fall_back :
      AppState Float
      → (metric_name epa_namespace epa_name actual_metric : Text) → Option ExternalMetricValueList
      → ApiResult ExternalMetricValueList × MetricsStore Float
  fall_back app metric_name epa_namespace epa_name actual_metric (some list) =
      (ok list, app.metrics_store)
  fall_back app metric_name epa_namespace epa_name actual_metric none =
      if is_empty (get_windows app.metrics_store epa_namespace epa_name actual_metric)
      then (err metric_unavailable, app.metrics_store)
      else serve_local app metric_name epa_namespace epa_name actual_metric

  -- Whether this replica answers by itself, and where it would forward the request otherwise.
  unfoldable pub serves : AppState Float → (epa_namespace epa_name : Text) → Bool
  serves app epa_namespace epa_name =
      should_serve_epa hasher app.transition app.sets app.my_id epa_namespace epa_name app.now

  unfoldable pub target_of : AppState Float → (epa_namespace epa_name : Text) → Option (Text × Bool)
  target_of app epa_namespace epa_name =
      forward_target app.my_id (get_epa_owner hasher app.sets epa_namespace epa_name)
        (get_previous_epa_owner hasher app.sets epa_namespace epa_name)

  unfoldable pub get_external_metric :
      Peers
      → AppState Float
      → (namespace metric_name : Text) → ApiResult ExternalMetricValueList × MetricsStore Float
  get_external_metric peers app namespace metric_name =
      elim (parse_external_metric_name namespace metric_name) [
        | err e ↦ (err e, app.metrics_store)
        | ok (epa_name, epa_namespace, actual_metric) ↦
            if serves app epa_namespace epa_name
            then serve_local app metric_name epa_namespace epa_name actual_metric
            else fall_back app metric_name epa_namespace epa_name actual_metric
                (try_forward peers namespace metric_name (target_of app epa_namespace epa_name))
      ]

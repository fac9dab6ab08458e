-- ===== src/Tests/Controller.antt =====
-- Examples of the controller.
use external_pod_autoscaler.Prelude.{◌≡◌, refl, true, false, [], ◌∷◌, Option, none, some, List}
use external_pod_autoscaler.Prelude.Int.{pos}
use external_pod_autoscaler.Text.{Text, codes, text_Eq, is_some}
use external_pod_autoscaler.Api.{
  ExternalPodAutoscaler, MetricSpec, MetricTargetType, AggregationType,
}
use external_pod_autoscaler.Store.Types.{MetricsStore}
use external_pod_autoscaler.Controller.Hpa.{Hpa}
use external_pod_autoscaler.Controller.Reconcile.{found}
use external_pod_autoscaler.Assoc.{lookup, Unique}
use external_pod_autoscaler.Controller.Registration.{Request, reconcile_all, active_until_dropped}
use external_pod_autoscaler.Tests.{Extended, ns, epa_name}

abbrev metric : MetricSpec
metric = record {
  metric_name = codes "qps";
  type_ = MetricTargetType.average_value;
  target_value = codes "10";
  aggregation_type = none;
  evaluation_period = none;
  label_selector = none;
}

abbrev pub epa : ExternalPodAutoscaler
epa = record {
  metadata = record {
    name = some epa_name;
    namespace = some ns;
    uid = some (codes "uid");
    deletion_timestamp = true;
  };
  spec = record {
    min_replicas = pos 1;
    max_replicas = pos 5;
    scrape = record {
      port = pos 8080;
      path = codes "/metrics";
      interval = codes "15s";
      timeout = codes "1s";
      scheme = codes "http";
      tls = none;
      evaluation_period = codes "60s";
      aggregation_type = AggregationType.avg;
    };
    scrape_target_ref = none;
    scale_target_ref = record {
      api_version = codes "apps/v1";
      kind = codes "Deployment";
      name = codes "web";
    };
    metrics = metric ∷ [];
    behavior = none;
  };
}

abbrev store : MetricsStore Extended
store = record {
  windows = [];
  cache = [];
  configs = [];
  scrape_stats = [];
  multi_series_warned = [];
}

abbrev answer : Hpa → Option Text
answer h = none

-- Two reconciles about an active object: another replica owns it while it is being deleted, and
-- then it is gone.
abbrev gone : List Request
gone =
    record { answer = answer; is_owner = false; epa = epa; observed = found (some epa) }
    ∷ record { answer = answer; is_owner = true; epa = epa; observed = found none }
    ∷ []

active_until_dropped_example :
    Unique (reconcile_all gone ((codes "ns/web", epa) ∷ [], store)).0
    × (is_some (lookup (codes "ns/web") (reconcile_all gone ((codes "ns/web", epa) ∷ [], store)).0)
        ≡ true)
active_until_dropped_example =
    active_until_dropped (codes "ns/web") gone ((codes "ns/web", epa) ∷ [], store) (refl, tt)
      (refl, (refl, tt)) refl

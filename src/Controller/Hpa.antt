-- ===== src/Controller/Hpa.antt =====
-- `build_hpa_spec` of src/controller/externalpodautoscaler/reconcile.rs. The objects of the
-- autoscaling API have the fields that the code sets; all others keep their defaults.
use external_pod_autoscaler.Prelude.{Bool, true, List, [], ◌∷◌, ◌++◌, Option, none, some, map}
use external_pod_autoscaler.Prelude.Int.{ℤ}
use external_pod_autoscaler.Text.{Text, codes}
use external_pod_autoscaler.Api.{
  ExternalPodAutoscaler, TargetRef, MetricSpec, MetricTargetType, ScalingBehavior,
}
use external_pod_autoscaler.Webhook.Metrics.Name.{external_metric_name}

pub data Error : Type 0 where
  kube observation : Error
  hpa : Text → Error

pub data Built (A : Type 0) : Type 0 where
  built : A → Built A
  refused : Error → Built A

pub record HpaOwner : Type 0 where
  pub api_version : Text
  pub kind : Text
  pub name : Text
  pub uid : Text
  pub controller : Bool
  pub block_owner_deletion : Bool

pub record HpaMetric : Type 0 where
  pub metric_name : Text
  pub average_value : Option Text
  pub value : Option Text
  pub target_type : Text

-- The rules of the behaviour are copied field by field, so the type of the resource serves.
pub record Hpa : Type 0 where
  pub name : Text
  pub namespace : Text
  pub owner_references : List HpaOwner
  pub scale_target_ref : TargetRef
  pub min_replicas : Option ℤ
  pub max_replicas : ℤ
  pub metrics : List HpaMetric
  pub behavior : Option ScalingBehavior

abbrev pub target_average : MetricTargetType → Text → Option Text
target_average MetricTargetType.average_value target = some target
target_average MetricTargetType.value target = none

abbrev pub target_value : MetricTargetType → Text → Option Text
target_value MetricTargetType.average_value target = none
target_value MetricTargetType.value target = some target

abbrev pub target_type_of : MetricTargetType → Text
target_type_of MetricTargetType.average_value = codes "AverageValue"
target_type_of MetricTargetType.value = codes "Value"

abbrev pub hpa_metric : (name namespace : Text) → MetricSpec → HpaMetric
hpa_metric name namespace metric_spec = record {
  metric_name = external_metric_name name namespace metric_spec.metric_name;
  average_value = target_average metric_spec.type_ metric_spec.target_value;
  value = target_value metric_spec.type_ metric_spec.target_value;
  target_type = target_type_of metric_spec.type_;
}

abbrev pub epa_name_namespace : ExternalPodAutoscaler → Built (Text × Text)
epa_name_namespace epa = elim epa.metadata.name [
  | none ↦ refused observation
  | some name ↦ elim epa.metadata.namespace [
    | none ↦ refused observation
    | some namespace ↦ built (name, namespace)
  ]
]

abbrev pub with_uid : ExternalPodAutoscaler → (name namespace uid : Text) → Hpa
with_uid epa name namespace uid = record {
  name = name;
  namespace = namespace;
  owner_references =
      record {
        api_version = codes "ctx.sh/v1beta1";
        kind = codes "ExternalPodAutoscaler";
        name = name;
        uid = uid;
        controller = true;
        block_owner_deletion = true;
      }
      ∷ [];
  scale_target_ref = epa.spec.scale_target_ref;
  min_replicas = some epa.spec.min_replicas;
  max_replicas = epa.spec.max_replicas;
  metrics = map (hpa_metric name namespace) epa.spec.metrics;
  behavior = epa.spec.behavior;
}

unfoldable pub build_hpa_spec : ExternalPodAutoscaler → Built Hpa
build_hpa_spec epa = elim (epa_name_namespace epa) [
  | refused e ↦ refused e
  | built (name, namespace) ↦ elim epa.metadata.uid [
    | none ↦ refused (
        hpa (
          codes "ExternalPodAutoscaler "
          ++ (namespace ++ b'/' ∷ name ++ codes " missing required UID for owner reference")))
    | some uid ↦ built (with_uid epa name namespace uid)
  ]
]

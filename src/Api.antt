-- ===== src/Api.antt =====
-- src/apis/ctx.sh/v1beta1/externalpodautoscaler.rs: the custom resource. Of the object's metadata
-- the fields are kept that the program reads.
use external_pod_autoscaler.Prelude.{List, Option, Bool}
use external_pod_autoscaler.Prelude.Int.{ℤ}
use external_pod_autoscaler.Text.{Text}

pub data MetricTargetType : Type 0 where
  average_value value : MetricTargetType

pub data AggregationType : Type 0 where
  avg max min median last : AggregationType

pub data LabelSelectorOperator : Type 0 where
  in_values not_in exists does_not_exist : LabelSelectorOperator

pub record LabelSelectorRequirement : Type 0 where
  pub key : Text
  pub operator : LabelSelectorOperator
  pub values : Option (List Text)

pub record LabelSelector : Type 0 where
  pub match_labels : Option (List (Text × Text))
  pub match_expressions : Option (List LabelSelectorRequirement)

pub record TlsConfig : Type 0 where
  pub insecure_skip_verify : Bool

pub record ScrapeConfig : Type 0 where
  pub port : ℤ
  pub path : Text
  pub interval : Text
  pub timeout : Text
  pub scheme : Text
  pub tls : Option TlsConfig
  pub evaluation_period : Text
  pub aggregation_type : AggregationType

pub record TargetRef : Type 0 where
  pub api_version : Text
  pub kind : Text
  pub name : Text

pub record MetricSpec : Type 0 where
  pub metric_name : Text
  pub type_ : MetricTargetType
  pub target_value : Text
  pub aggregation_type : Option AggregationType
  pub evaluation_period : Option Text
  pub label_selector : Option LabelSelector

pub record ScalingPolicy : Type 0 where
  pub type_ : Text
  pub value : ℤ
  pub period_seconds : ℤ

pub record ScalingRules : Type 0 where
  pub stabilization_window_seconds : Option ℤ
  pub policies : Option (List ScalingPolicy)
  pub select_policy : Option Text

pub record ScalingBehavior : Type 0 where
  pub scale_up : Option ScalingRules
  pub scale_down : Option ScalingRules

pub record ExternalPodAutoscalerSpec : Type 0 where
  pub min_replicas : ℤ
  pub max_replicas : ℤ
  pub scrape : ScrapeConfig
  pub scrape_target_ref : Option TargetRef
  pub scale_target_ref : TargetRef
  pub metrics : List MetricSpec
  pub behavior : Option ScalingBehavior

-- The fields of `ObjectMeta` that are read; `deletion_timestamp` says whether it is set.
pub record Metadata : Type 0 where
  pub name : Option Text
  pub namespace : Option Text
  pub uid : Option Text
  pub deletion_timestamp : Bool

pub record ExternalPodAutoscaler : Type 0 where
  pub metadata : Metadata
  pub spec : ExternalPodAutoscalerSpec

-- ===== src/Tests/Admission.antt =====
-- Examples of the admission webhooks.
use external_pod_autoscaler.Prelude.{
  ℕ, ◌≤◌, ◌≡◌, ◌↔◌, refl, true, false, [], ◌∷◌, ◌++◌, none, some, arith,
}
use external_pod_autoscaler.Prelude.Int.{pos}
use external_pod_autoscaler.Text.{Text, codes, trim}
use external_pod_autoscaler.Api.{
  ExternalPodAutoscaler, TargetRef, MetricSpec, MetricTargetType, AggregationType,
}
use external_pod_autoscaler.Webhook.Admission.{
  passed, panicked, validate_duration, validate_scrape_path, validate_metrics, validate_scrape,
  validate_epa_spec, apply_defaults, check_trimmed,
}
use external_pod_autoscaler.Webhook.Admission.Duration.{
  IsDuration, validate_duration_accepts, validate_duration_panics,
}
use external_pod_autoscaler.Webhook.Admission.Spec.{IsValidSpec, validate_epa_spec_sound}
use external_pod_autoscaler.Webhook.Admission.Handlers.{Json, value, RoundTrips}
use external_pod_autoscaler.Tests.{floats, ns, epa_name}

validate_duration_accepts_example :
    (validate_duration (codes " 15s") (codes "scrape.interval") ≡ passed)
    ↔ IsDuration (trim (codes " 15s"))
validate_duration_accepts_example =
    validate_duration_accepts (codes " 15s") (codes "scrape.interval")

validate_duration_panics_example :
    (validate_duration (codes "15µ") (codes "scrape.interval") ≡ panicked)
    ↔ ((u : Text) × (c : ℕ) × (trim (codes "15µ") ≡ u ++ c ∷ []) × (0x80 ≤ c))
validate_duration_panics_example = validate_duration_panics (codes "15µ") (codes "scrape.interval")

-- A slice of that text panics.
micro : validate_duration (codes "15µ") (codes "scrape.interval") ≡ panicked
unfolding validate_duration check_trimmed
micro = refl

abbrev target : TargetRef
target = record { api_version = []; kind = codes "Deployment"; name = codes "web" }

abbrev metric : MetricSpec
metric = record {
  metric_name = codes "qps";
  type_ = MetricTargetType.average_value;
  target_value = codes "10";
  aggregation_type = none;
  evaluation_period = none;
  label_selector = none;
}

-- An object with the fields that have no default.
abbrev epa : ExternalPodAutoscaler
epa = record {
  metadata = record {
    name = some epa_name;
    namespace = some ns;
    uid = none;
    deletion_timestamp = false;
  };
  spec = record {
    min_replicas = pos 0;
    max_replicas = pos 5;
    scrape = record {
      port = pos 0;
      path = [];
      interval = [];
      timeout = [];
      scheme = [];
      tls = none;
      evaluation_period = [];
      aggregation_type = AggregationType.avg;
    };
    scrape_target_ref = none;
    scale_target_ref = target;
    metrics = metric ∷ [];
    behavior = none;
  };
}

abbrev parse_error : Text → Text
parse_error s = codes "invalid float literal"

defaults_pass : validate_epa_spec floats parse_error (apply_defaults epa) ≡ passed
unfolding validate_epa_spec apply_defaults validate_metrics validate_scrape validate_scrape_path
    validate_duration check_trimmed
defaults_pass = refl

validate_epa_spec_sound_example : IsValidSpec floats parse_error (apply_defaults epa).spec
validate_epa_spec_sound_example =
    validate_epa_spec_sound floats parse_error (apply_defaults epa) defaults_pass

-- Objects that stand for their own text; a difference is whether there may be one.
abbrev plain : Json
plain = record {
  Value = ExternalPodAutoscaler;
  Patch = Unit {0};
  from_value = value;
  to_value = value;
  diff = λ a b. tt;
  patch_is_empty = λ p. true;
  patch_to_string = λ p. none;
  encode = λ s. s;
}

read_back :
    (e v : ExternalPodAutoscaler) → plain.to_value e ≡ value v → plain.from_value v ≡ value e
read_back e v h = ground arith

plain_laws : RoundTrips plain
plain_laws = record { from_value-to_value = read_back; diff_self = λ v. refl }

-- ===== src/Webhook/Admission.antt =====
-- src/webhook/admission/handlers.rs: `validate_epa_spec` with the checks of a path and of a
-- duration, and `apply_defaults`.
pub mod Duration
pub mod Spec
pub mod Defaults
pub mod Handlers
use external_pod_autoscaler.Prelude.{
  ℕ, suc, ◌+◌, Bool, true, false, not, ◌&&◌, ◌||◌, List, [], ◌∷◌, ◌++◌, Option, none, some,
  if◌then◌else◌, ◌==◌, is_empty, ltb, leb, nat_eq,
}
use external_pod_autoscaler.Prelude.Int.{ℤ, pos, ltb_ℤ}
use external_pod_autoscaler.Text.{
  Text, codes, text_Eq, byte_len, starts_with, contains_text, contains_char, strip_suffix, trim,
  parse_u64, is_some,
}
use external_pod_autoscaler.Text.Number.{show_ℕ, show_ℤ}
use external_pod_autoscaler.Float.{F64}
use external_pod_autoscaler.Api.{
  ExternalPodAutoscaler, ExternalPodAutoscalerSpec, ScrapeConfig, TargetRef, MetricSpec,
}

-- `Result<(), String>`, and the panic of a slice that cuts a character.
pub data Checked : Type 0 where
  passed : Checked
  rejected : Text → Checked
  panicked : Checked

-- The operator `?`, and a statement `if test { return Err(message) }`.
abbrev pub and_then : Checked → Checked → Checked
and_then passed next = next
and_then (rejected message) next = rejected message
and_then panicked next = panicked

abbrev pub fail_if : Bool → Text → Checked → Checked
fail_if test message next = if test then rejected message else next

-- `&s[..s.len() - 1]` and `&s[s.len() - 1..]`: no result, which is a panic, where the last
-- character has more than one byte.
abbrev pub cons_cut : ℕ → Option (Text × Text) → Option (Text × Text)
cons_cut a none = none
cons_cut a (some (u, v)) = some (a ∷ u, v)

abbrev pub cut_last_byte : Text → Option (Text × Text)
cut_last_byte [] = none
cut_last_byte (a ∷ []) = if ltb a 0x80 then some ([], a ∷ []) else none
cut_last_byte (a ∷ b ∷ s) = cons_cut a (cut_last_byte (b ∷ s))

abbrev pub is_unit : Text → Bool
is_unit unit =
    (unit == codes "ms") || (unit == codes "s") || (unit == codes "m") || (unit == codes "h")

-- After the split: the number, then the unit.
abbrev pub check_parts : (duration field num_str unit : Text) → Checked
check_parts duration field num_str unit =
    fail_if (not (is_some (parse_u64 num_str)))
      (field ++ (codes " has invalid number: " ++ duration))
      (fail_if (not (is_unit unit))
        (field ++ (codes " has invalid unit (must be ms, s, m, or h): " ++ duration)) passed)

abbrev pub check_cut : (duration field : Text) → Option (Text × Text) → Checked
check_cut duration field none = panicked
check_cut duration field (some (num_str, unit)) = check_parts duration field num_str unit

-- `validate_duration` after `trim`.
unfoldable pub check_trimmed : (duration field : Text) → Checked
check_trimmed duration field =
    fail_if (is_empty duration) (field ++ codes " must not be empty")
      (elim (strip_suffix duration (codes "ms")) [
        | some stripped ↦ check_parts duration field stripped (codes "ms")
        | none ↦
            if ltb 1 (byte_len duration)
            then check_cut duration field (cut_last_byte duration)
            else rejected (field ++ (codes " has invalid format: " ++ duration))
      ])

unfoldable pub validate_duration : (duration field : Text) → Checked
validate_duration duration field = check_trimmed (trim duration) field

unfoldable pub validate_scrape_path : Text → Checked
validate_scrape_path path =
    fail_if (not (starts_with path (codes "/")))
      (codes "scrape.path must start with '/', got '" ++ (path ++ codes "'"))
      (fail_if (contains_text path (codes ".."))
        (codes "scrape.path must not contain '..' (path traversal attempt): '"
          ++ (path ++ codes "'"))
        (fail_if (contains_text path (codes "//"))
          (codes "scrape.path must not contain consecutive slashes: '" ++ (path ++ codes "'"))
          (fail_if (contains_char path 0) (codes "scrape.path must not contain null bytes") (
            fail_if (ltb 256 (byte_len path))
              (codes "scrape.path too long (max 256 characters), got "
                ++ (show_ℕ (byte_len path) ++ codes " characters"))
              passed))))

abbrev pub metrics_at : ℕ → Text → Text
metrics_at i message = codes "metrics[" ++ (show_ℕ i ++ message)

module _ (f64 : F64) (parse_error : Text → Text) where
  -- The loop over the metrics, from the index `i`. `parse_error` is what the standard library
  -- says about a text that is no number.
  unfoldable pub validate_metrics : ℕ → List MetricSpec → Checked
  validate_metrics i [] = passed
  validate_metrics i (metric ∷ metrics) =
      fail_if (is_empty metric.metric_name) (metrics_at i (codes "].metricName must not be empty"))
        (fail_if (is_empty metric.target_value)
          (metrics_at i (codes "].targetValue must not be empty"))
          (fail_if (not (is_some (f64.parse metric.target_value)))
            (metrics_at i
              (codes "].targetValue must be a valid number: " ++ parse_error metric.target_value))
            (validate_metrics (suc i) metrics)))

  unfoldable pub validate_scrape : ScrapeConfig → Checked
  validate_scrape scrape =
      fail_if (ltb_ℤ scrape.port (pos 1) || ltb_ℤ (pos 65535) scrape.port)
        (codes "scrape.port must be between 1 and 65535, got " ++ show_ℤ scrape.port)
        (fail_if (not (scrape.scheme == codes "http") && not (scrape.scheme == codes "https"))
          (codes "scrape.scheme must be 'http' or 'https', got '" ++ (scrape.scheme ++ codes "'"))
          (and_then (validate_scrape_path scrape.path) (
            and_then (validate_duration scrape.interval (codes "scrape.interval")) (
              and_then (validate_duration scrape.timeout (codes "scrape.timeout")) (
                and_then
                  (validate_duration scrape.evaluation_period (codes "scrape.evaluationPeriod"))
                  passed)))))

  unfoldable pub validate_epa_spec : ExternalPodAutoscaler → Checked
  validate_epa_spec epa =
      fail_if (ltb_ℤ epa.spec.min_replicas (pos 1)) (codes "minReplicas must be at least 1") (
        fail_if (ltb_ℤ epa.spec.max_replicas epa.spec.min_replicas)
          (codes "maxReplicas ("
            ++ (show_ℤ epa.spec.max_replicas
                ++ (codes ") must be greater than or equal to minReplicas ("
                    ++ (show_ℤ epa.spec.min_replicas ++ codes ")"))))
          (fail_if (is_empty epa.spec.scale_target_ref.name)
            (codes "scaleTargetRef.name must not be empty")
            (fail_if (is_empty epa.spec.scale_target_ref.kind)
              (codes "scaleTargetRef.kind must not be empty")
              (fail_if (is_empty epa.spec.metrics) (codes "At least one metric must be specified") (
                and_then (validate_metrics 0 epa.spec.metrics)
                  (validate_scrape epa.spec.scrape))))))

-- An empty field, with its default.
abbrev pub or_default : Text → Text → Text
or_default s default = if is_empty s then default else s

abbrev pub or_default_ℤ : ℤ → ℤ → ℤ
or_default_ℤ n default = if not (ltb_ℤ n (pos 0)) && not (ltb_ℤ (pos 0) n) then default else n

abbrev pub or_default_ref : Option TargetRef → TargetRef → Option TargetRef
or_default_ref none default = some default
or_default_ref (some target) default = some target

abbrev pub default_scrape : ScrapeConfig → ScrapeConfig
default_scrape scrape = record {
  port = or_default_ℤ scrape.port (pos 8080);
  path = or_default scrape.path (codes "/metrics");
  interval = or_default scrape.interval (codes "15s");
  timeout = or_default scrape.timeout (codes "1s");
  scheme = or_default scrape.scheme (codes "http");
  tls = scrape.tls;
  evaluation_period = or_default scrape.evaluation_period (codes "60s");
  aggregation_type = scrape.aggregation_type;
}

-- `apply_defaults`: the scrape target is copied from the scale target before the API version of
-- the latter is filled in.
unfoldable pub apply_defaults : ExternalPodAutoscaler → ExternalPodAutoscaler
apply_defaults epa = record {
  metadata = epa.metadata;
  spec = record {
    min_replicas = or_default_ℤ epa.spec.min_replicas (pos 1);
    max_replicas = epa.spec.max_replicas;
    scrape = default_scrape epa.spec.scrape;
    scrape_target_ref = or_default_ref epa.spec.scrape_target_ref epa.spec.scale_target_ref;
    scale_target_ref = record {
      api_version = or_default epa.spec.scale_target_ref.api_version (codes "apps/v1");
      kind = epa.spec.scale_target_ref.kind;
      name = epa.spec.scale_target_ref.name;
    };
    metrics = epa.spec.metrics;
    behavior = epa.spec.behavior;
  };
}

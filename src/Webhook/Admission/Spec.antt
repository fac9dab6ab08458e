-- ===== src/Webhook/Admission/Spec.antt =====
-- `validate_epa_spec`: what an object satisfies that passes.
use external_pod_autoscaler.Prelude.{
  ℕ, suc, ◌≡◌, ◌≢◌, ◌≤◌, ◌⊎◌, refl, true, false, ◌||◌, List, [], ◌∷◌, ◌++◌, some, arith, inl, inr,
  ap, sym, ◌∙◌, ltb, is_empty, ◌==◌, Bool-cases, Option-cases, All,
}
use external_pod_autoscaler.Prelude.Int.{pos, ◌≤ℤ◌}
use external_pod_autoscaler.Float.{F64}
use external_pod_autoscaler.Text.{
  Text, codes, text_Eq, text_beq_iff, byte_len, starts_with, contains_text, contains_char, trim,
  is_some, strip_prefix,
}
use external_pod_autoscaler.Text.Laws.{strip_prefix_sound, strip_prefix-append}
use external_pod_autoscaler.Api.{
  ExternalPodAutoscaler, ExternalPodAutoscalerSpec, ScrapeConfig, MetricSpec,
}
use external_pod_autoscaler.Webhook.Admission.{
  passed, validate_scrape_path, validate_duration, validate_metrics, validate_scrape,
  validate_epa_spec,
}
use external_pod_autoscaler.Webhook.Admission.Duration.{IsDuration, validate_duration_accepts}

starts_with-append : (p s : Text) → starts_with (p ++ s) p ≡ true
starts_with-append p s = ap is_some (strip_prefix-append p s)

contains_text-append : (u p v : Text) → contains_text (u ++ (p ++ v)) p ≡ true
contains_text-append [] [] [] = refl
contains_text-append [] [] (a ∷ v) = refl
contains_text-append [] (a ∷ p) v = rw (starts_with-append (a ∷ p) v) refl
contains_text-append (a ∷ u) p v = ground (arith, contains_text-append u p v)

not_inside : (s p : Text) → contains_text s p ≡ false → (u v : Text) → s ≢ u ++ (p ++ v)
not_inside s p h u v e =
    let found = sym h ∙ ap (λ t. contains_text t p) e ∙ contains_text-append u p v in ground arith

begins : (s p : Text) → starts_with s p ≡ true → (rest : Text) × (s ≡ p ++ rest)
begins s p h = elim (Option-cases (strip_prefix s p)) [
  | inl e ↦ ground arith
  | inr (rest, e) ↦ (rest, strip_prefix_sound s p rest e)
]

path_tests :
    (path : Text)
    → validate_scrape_path path ≡ passed
    → (starts_with path (codes "/") ≡ true)
      × (contains_text path (codes "..") ≡ false)
      × (contains_text path (codes "//") ≡ false)
      × (contains_char path 0 ≡ false)
      × (ltb 256 (byte_len path) ≡ false)
unfolding validate_scrape_path
path_tests path h = ground arith

-- An absolute path of at most 256 bytes, without a parent directory, an empty segment or a null
-- character.
abbrev pub IsSafePath : Text → Type 0
IsSafePath path =
    ((rest : Text) × (path ≡ b'/' ∷ rest))
    × ((u v : Text) → path ≢ u ++ (codes ".." ++ v))
    × ((u v : Text) → path ≢ u ++ (codes "//" ++ v))
    × (contains_char path 0 ≡ false)
    × (byte_len path ≤ 256)

pub validate_scrape_path_sound :
    (path : Text) → validate_scrape_path path ≡ passed → IsSafePath path
validate_scrape_path_sound path h =
    let (slash, dots, slashes, nulls, long) = path_tests path h in
    (
      begins path (codes "/") slash,
      not_inside path (codes "..") dots,
      not_inside path (codes "//") slashes,
      nulls,
      ground arith,
    )

module _ (f64 : F64) (parse_error : Text → Text) where
  abbrev pub IsValidMetric : MetricSpec → Type 0
  IsValidMetric metric =
      (metric.metric_name ≢ [])
      × (metric.target_value ≢ [])
      × ((v : f64.Float) × (f64.parse metric.target_value ≡ some v))

  abbrev pub IsValidScrape : ScrapeConfig → Type 0
  IsValidScrape scrape =
      (pos 1 ≤ℤ scrape.port)
      × (scrape.port ≤ℤ pos 65535)
      × ((scrape.scheme ≡ codes "http") ⊎ (scrape.scheme ≡ codes "https"))
      × IsSafePath scrape.path
      × IsDuration (trim scrape.interval)
      × IsDuration (trim scrape.timeout)
      × IsDuration (trim scrape.evaluation_period)

  abbrev pub IsValidSpec : ExternalPodAutoscalerSpec → Type 0
  IsValidSpec spec =
      (pos 1 ≤ℤ spec.min_replicas)
      × (spec.min_replicas ≤ℤ spec.max_replicas)
      × (spec.scale_target_ref.name ≢ [])
      × (spec.scale_target_ref.kind ≢ [])
      × (spec.metrics ≢ [])
      × All IsValidMetric spec.metrics
      × IsValidScrape spec.scrape

  non_empty : (s : Text) → is_empty s ≡ false → s ≢ []
  non_empty s h e = ground arith

  metrics_sound :
      (i : ℕ) (metrics : List MetricSpec)
      → validate_metrics f64 parse_error i metrics ≡ passed
      → All IsValidMetric metrics
  unfolding validate_metrics
  metrics_sound i [] h = tt
  metrics_sound i (metric ∷ metrics) h = elim (Option-cases (f64.parse metric.target_value)) [
    | inl e ↦ ground arith
    | inr (v, e) ↦
        let tests : (is_empty metric.metric_name ≡ false)
            × (is_empty metric.target_value ≡ false)
            × (validate_metrics f64 parse_error (suc i) metrics ≡ passed) =
          ground arith in
        (
          (non_empty metric.metric_name tests.0, non_empty metric.target_value tests.1, (v, e)),
          metrics_sound (suc i) metrics tests.2,
        )
  ]

  scrape_tests :
      (scrape : ScrapeConfig)
      → validate_scrape f64 parse_error scrape ≡ passed
      → (pos 1 ≤ℤ scrape.port)
        × (scrape.port ≤ℤ pos 65535)
        × ((scrape.scheme == codes "http") || (scrape.scheme == codes "https") ≡ true)
        × (validate_scrape_path scrape.path ≡ passed)
        × (validate_duration scrape.interval (codes "scrape.interval") ≡ passed)
        × (validate_duration scrape.timeout (codes "scrape.timeout") ≡ passed)
        × (validate_duration scrape.evaluation_period (codes "scrape.evaluationPeriod") ≡ passed)
  unfolding validate_scrape
  scrape_tests scrape h = ground arith

  scrape_sound :
      (scrape : ScrapeConfig)
      → validate_scrape f64 parse_error scrape ≡ passed
      → IsValidScrape scrape
  scrape_sound scrape h =
      let (low, high, scheme, path, interval, timeout, period) = scrape_tests scrape h in
      (
        low,
        high,
        elim (Bool-cases (scrape.scheme == codes "http")) [
          | inl e ↦ inl ((text_beq_iff scrape.scheme (codes "http")).0 e)
          | inr e ↦ inr ((text_beq_iff scrape.scheme (codes "https")).0 (ground arith))
        ],
        validate_scrape_path_sound scrape.path path,
        (validate_duration_accepts scrape.interval (codes "scrape.interval")).0 interval,
        (validate_duration_accepts scrape.timeout (codes "scrape.timeout")).0 timeout,
        (validate_duration_accepts scrape.evaluation_period (codes "scrape.evaluationPeriod")).0
            period,
      )

  spec_tests :
      (epa : ExternalPodAutoscaler)
      → validate_epa_spec f64 parse_error epa ≡ passed
      → (pos 1 ≤ℤ epa.spec.min_replicas)
        × (epa.spec.min_replicas ≤ℤ epa.spec.max_replicas)
        × (is_empty epa.spec.scale_target_ref.name ≡ false)
        × (is_empty epa.spec.scale_target_ref.kind ≡ false)
        × (is_empty epa.spec.metrics ≡ false)
        × (validate_metrics f64 parse_error 0 epa.spec.metrics ≡ passed)
        × (validate_scrape f64 parse_error epa.spec.scrape ≡ passed)
  unfolding validate_epa_spec
  spec_tests epa h = ground arith

  -- What the validating webhook lets through: at least one replica and no fewer at most; a named
  -- scale target with a kind; at least one metric, each with a name and a target that is a number;
  -- and a scrape with a port of TCP, a known scheme, a safe path, and an interval, a timeout and an
  -- evaluation period that are a number of a u64 in a known unit. It says nothing of the evaluation
  -- periods of the metrics and of the label selectors, which are not looked at.
  pub validate_epa_spec_sound :
      (epa : ExternalPodAutoscaler)
      → validate_epa_spec f64 parse_error epa ≡ passed
      → IsValidSpec epa.spec
  validate_epa_spec_sound epa h =
      let (low, high, name, kind, some_metric, metrics, scrape) = spec_tests epa h in
      (
        low,
        high,
        non_empty epa.spec.scale_target_ref.name name,
        non_empty epa.spec.scale_target_ref.kind kind,
        λ e. ground arith,
        metrics_sound 0 epa.spec.metrics metrics,
        scrape_sound epa.spec.scrape scrape,
      )

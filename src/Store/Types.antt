-- ===== src/Store/Types.antt =====
-- src/store/types.rs and the record of src/store/mod.rs. The type of sample values is a parameter.
use external_pod_autoscaler.Prelude.{ℕ, ◌-◌, ◌≡◌, ◌↔◌, Bool, true, ◌&&◌, List, ltb, arith, Eq, ◌==◌}
use external_pod_autoscaler.Text.{Text, text_Eq, text_beq_iff, text_beq_refl}
use external_pod_autoscaler.Api.{AggregationType}

pub data MetricType : Type 0 where
  gauge counter : MetricType

pub record LabeledSample (Float : Type 0) : Type 0 where
  pub value : Float
  pub scraped_at : ℕ
  pub success : Bool
  pub metric_type : MetricType

pub record SampleKey : Type 0 where
  pub namespace : Text
  pub epa_name : Text
  pub metric_name : Text
  pub pod_name : Text

pub record CacheKey : Type 0 where
  pub namespace : Text
  pub epa_name : Text
  pub metric_name : Text

abbrev pub sample_key_beq : SampleKey → SampleKey → Bool
sample_key_beq a b =
    a.namespace == b.namespace
    && a.epa_name == b.epa_name
    && a.metric_name == b.metric_name
    && a.pod_name == b.pod_name

abbrev pub cache_key_beq : CacheKey → CacheKey → Bool
cache_key_beq a b =
    a.namespace == b.namespace && a.epa_name == b.epa_name && a.metric_name == b.metric_name

pub sample_key_beq_iff : (a b : SampleKey) → (sample_key_beq a b ≡ true) ↔ (a ≡ b)
sample_key_beq_iff a b = (
  ground (
    arith,
    text_beq_iff a.namespace b.namespace,
    text_beq_iff a.epa_name b.epa_name,
    text_beq_iff a.metric_name b.metric_name,
    text_beq_iff a.pod_name b.pod_name,
  ),
  ground (
    arith,
    text_beq_refl a.namespace,
    text_beq_refl a.epa_name,
    text_beq_refl a.metric_name,
    text_beq_refl a.pod_name,
  ),
)

pub cache_key_beq_iff : (a b : CacheKey) → (cache_key_beq a b ≡ true) ↔ (a ≡ b)
cache_key_beq_iff a b = (
  ground (
    arith,
    text_beq_iff a.namespace b.namespace,
    text_beq_iff a.epa_name b.epa_name,
    text_beq_iff a.metric_name b.metric_name,
  ),
  ground (arith, text_beq_refl a.namespace, text_beq_refl a.epa_name, text_beq_refl a.metric_name),
)

instance abbrev pub sample_key_Eq : Eq SampleKey
sample_key_Eq = record { beq = sample_key_beq; beq_iff = sample_key_beq_iff }

instance abbrev pub cache_key_Eq : Eq CacheKey
cache_key_Eq = record { beq = cache_key_beq; beq_iff = cache_key_beq_iff }

pub record CachedAggregation (Float : Type 0) : Type 0 where
  pub value : Float
  pub computed_at : ℕ
  pub ttl : ℕ

-- `CachedAggregation::is_valid` at the reading `now`.
abbrev pub is_valid : {Float : Type 0} → CachedAggregation Float → ℕ → Bool
is_valid c now = ltb (now - c.computed_at) c.ttl

pub record MetricConfig : Type 0 where
  pub aggregation_type : AggregationType

-- `MetricConfig::default`.
abbrev pub default_config : MetricConfig
default_config = record { aggregation_type = AggregationType.avg }

-- src/store/window.rs.
pub record MetricWindow (Float : Type 0) : Type 0 where
  pub samples : List (LabeledSample Float)
  pub max_samples : ℕ

-- The counters are `AtomicI32`: numbers modulo 2 ^ 32, of which those from 2 ^ 31 are negative.
pub record ScrapeStats : Type 0 where
  pub scraped : ℕ
  pub errors : ℕ

pub record MetricsStore (Float : Type 0) : Type 0 where
  pub windows : List (SampleKey × MetricWindow Float)
  pub cache : List (CacheKey × CachedAggregation Float)
  pub configs : List (CacheKey × MetricConfig)
  pub scrape_stats : List (Text × ScrapeStats)
  pub multi_series_warned : List CacheKey

-- ===== src/Scraper/Worker.antt =====
-- src/scraper/worker.rs: what a worker does with a job, as one step. The HTTP clients are a
-- parameter, `fetch`, told whether the certificate goes unchecked, and so is `parse_duration` of the
-- crate humantime. `scraped_at` is the clock when the answer has been parsed. A panic of the parser
-- or of the allocation of a new window ends the worker. The log lines and the telemetry are left
-- out.
pub mod Samples
pub mod Scrapes
pub mod Counters
pub mod Accounts
use external_pod_autoscaler.Prelude.{
  ℕ, Bool, true, false, ◌&&◌, ◌||◌, not, List, [], ◌∷◌, ◌++◌, Option, none, some, map, ltb,
  if◌then◌else◌, ◌==◌, filter, length,
}
use external_pod_autoscaler.Text.{Text, codes, text_Eq}
use external_pod_autoscaler.Text.Number.{show_ℤ}
use external_pod_autoscaler.Float.{F64}
use external_pod_autoscaler.Assoc.{contains_key, insert}
use external_pod_autoscaler.Api.{
  ExternalPodAutoscaler, ExternalPodAutoscalerSpec, Metadata, MetricSpec, ScrapeConfig,
  LabelSelector,
}
use external_pod_autoscaler.Store.Types.{
  LabeledSample, SampleKey, sample_key_Eq, ScrapeStats, MetricsStore,
}
use external_pod_autoscaler.Store.Ops.{push_sample, first_multi_series, get_scrape_stats, stats_key}
use external_pod_autoscaler.Store.Stats.{record_success, record_error}
use external_pod_autoscaler.Scraper.Parser.{PrometheusMetric, Parse, parse_prometheus_text}
use external_pod_autoscaler.Scraper.Parser
use external_pod_autoscaler.Scraper.Pods.{Pod, PodStatus, matches_label_selector}
use external_pod_autoscaler.Scraper.Scheduler.{ScrapeJob}
use external_pod_autoscaler.Webhook.Metrics.Aggregation.{sum}

-- What comes of a request within its timeout.
pub data Answer : Type 0 where
  timed_out unreachable failed_status unreadable : Answer
  text : Text → Answer

pub data ScrapeError : Type 0 where
  no_namespace no_name no_ip invalid_timeout request_timeout http_error not_success : ScrapeError
  unread_body invalid_text : ScrapeError

pub data Scraped : Type 0 where
  done : Scraped
  failed : ScrapeError → Scraped
  panicked : Scraped

abbrev pub pod_ip : Pod → Option Text
pod_ip pod = elim pod.status [ none ↦ none | some status ↦ status.pod_ip ]

-- `format!("{}://{}:{}{}", scheme, pod_ip, port, path)`.
abbrev pub url_of : ScrapeConfig → (ip : Text) → Text
url_of scrape ip =
    scrape.scheme ++ codes "://" ++ ip ++ codes ":" ++ show_ℤ scrape.port ++ scrape.path

abbrev pub selects : Option LabelSelector → List (Text × Text) → Bool
selects none labels = true
selects (some selector) labels = matches_label_selector labels selector

abbrev pub is_plain : Option LabelSelector → Bool
is_plain none = true
is_plain (some selector) = false

module _ (f64 : F64) where
  open f64 use {Float}

  -- The series that count for a metric of the EPA: those of its name that its selector accepts.
  unfoldable pub matched :
      List (PrometheusMetric Float) → MetricSpec → List (PrometheusMetric Float)
  matched parsed_metrics metric_spec =
      filter (λ (m : PrometheusMetric Float). selects metric_spec.label_selector m.labels)
        (filter (λ (m : PrometheusMetric Float). m.name == metric_spec.metric_name) parsed_metrics)

  -- The sample that the series of a metric become: their sum, with the type of the first.
  abbrev pub sample_of :
      PrometheusMetric Float
      → List (PrometheusMetric Float)
      → (scraped_at : ℕ) → LabeledSample Float
  sample_of first series scraped_at = record {
    value = sum f64 (map (λ (m : PrometheusMetric Float). m.value) series);
    scraped_at = scraped_at;
    success = true;
    metric_type = first.metric_type;
  }

  -- The warning about several series, which is recorded in the store.
  abbrev pub warn_series :
      (namespace epa_name : Text)
      → MetricSpec
      → List (PrometheusMetric Float)
      → MetricsStore Float
      → MetricsStore Float
  warn_series namespace epa_name metric_spec series store =
      if ltb 1 (length series) && is_plain metric_spec.label_selector
      then (first_multi_series namespace epa_name metric_spec.metric_name store).1
      else store

  abbrev pub key_of : (namespace epa_name pod_name : Text) → MetricSpec → SampleKey
  key_of namespace epa_name pod_name metric_spec = record {
    namespace = namespace;
    epa_name = epa_name;
    metric_name = metric_spec.metric_name;
    pod_name = pod_name;
  }

  abbrev pub put_series :
      (namespace epa_name pod_name : Text)
      → (max_samples scraped_at : ℕ) → MetricSpec
      → List (PrometheusMetric Float)
      → MetricsStore Float
      → MetricsStore Float
  put_series namespace epa_name pod_name max_samples scraped_at metric_spec [] store = store
  put_series namespace epa_name pod_name max_samples scraped_at metric_spec (first ∷ rest) store =
      push_sample (key_of namespace epa_name pod_name metric_spec)
        (sample_of first (first ∷ rest) scraped_at) max_samples
        (warn_series namespace epa_name metric_spec (first ∷ rest) store)

  abbrev pub is_matched : List (PrometheusMetric Float) → Bool
  is_matched [] = false
  is_matched (first ∷ rest) = true

-- `fits` tells whether `VecDeque::with_capacity` makes a buffer for so many samples; if their size is
-- too large for it, it panics.
module _ (f64 : F64) (fits : ℕ → Bool) where
  open f64 use {Float}

  -- The sample would open a window that cannot be made.
  abbrev pub series_panics :
      SampleKey → (max_samples : ℕ) → List (PrometheusMetric Float) → MetricsStore Float → Bool
  series_panics key max_samples series store =
      is_matched f64 series && not (contains_key key store.windows || fits max_samples)

  -- One round of the loop, and whether it ends without a panic.
  abbrev pub store_series :
      (namespace epa_name pod_name : Text)
      → (max_samples scraped_at : ℕ) → MetricSpec
      → List (PrometheusMetric Float)
      → MetricsStore Float
      → MetricsStore Float × Bool
  store_series namespace epa_name pod_name max_samples scraped_at metric_spec series store =
      if series_panics (key_of f64 namespace epa_name pod_name metric_spec) max_samples series store
      then (warn_series f64 namespace epa_name metric_spec series store, false)
      else (
        put_series f64 namespace epa_name pod_name max_samples scraped_at metric_spec series store,
        true,
      )

  -- The loop over the metrics of the EPA, which a panic ends.
  unfoldable pub store_metrics :
      (namespace epa_name pod_name : Text)
      → (max_samples scraped_at : ℕ) → List (PrometheusMetric Float)
      → List MetricSpec
      → MetricsStore Float
      → MetricsStore Float × Scraped
  store_metrics namespace epa_name pod_name max_samples scraped_at parsed_metrics [] store =
      (store, done)
  store_metrics namespace epa_name pod_name max_samples scraped_at parsed_metrics
        (metric_spec ∷ metrics) store =
      let stored =
        store_series namespace epa_name pod_name max_samples scraped_at metric_spec
          (matched f64 parsed_metrics metric_spec) store in
      let rest =
        store_metrics namespace epa_name pod_name max_samples scraped_at parsed_metrics metrics
          stored.0 in
      if stored.1 then rest else (stored.0, panicked)

  abbrev pub store_parsed :
      (namespace epa_name pod_name : Text)
      → (max_samples scraped_at : ℕ) → List MetricSpec
      → Parse (List (PrometheusMetric Float))
      → MetricsStore Float
      → MetricsStore Float × Scraped
  store_parsed namespace epa_name pod_name max_samples scraped_at metrics (Parser.ok parsed) store =
      store_metrics namespace epa_name pod_name max_samples scraped_at parsed metrics store
  store_parsed namespace epa_name pod_name max_samples scraped_at metrics (Parser.err e) store =
      (store, failed invalid_text)
  store_parsed namespace epa_name pod_name max_samples scraped_at metrics Parser.panic store =
      (store, panicked)

  abbrev pub store_answer :
      (namespace epa_name pod_name : Text)
      → (max_samples scraped_at : ℕ) → List MetricSpec
      → Answer
      → MetricsStore Float
      → MetricsStore Float × Scraped
  store_answer namespace epa_name pod_name max_samples scraped_at metrics answer store =
      elim answer [
        | timed_out ↦ (store, failed request_timeout)
        | unreachable ↦ (store, failed http_error)
        | failed_status ↦ (store, failed not_success)
        | unreadable ↦ (store, failed unread_body)
        | text body ↦
            store_parsed namespace epa_name pod_name max_samples scraped_at metrics
              (parse_prometheus_text f64 body) store
      ]

abbrev pub or_unnamed : Option Text → Text
or_unnamed none = codes "<unnamed>"
or_unnamed (some name) = name

abbrev pub or_no_namespace : Option Text → Text
or_no_namespace none = codes "<no-namespace>"
or_no_namespace (some namespace) = namespace

abbrev pub record_result :
    {Float : Type 0}
    → (key : Text) → ScrapeStats
    → MetricsStore Float × Scraped
    → MetricsStore Float × Bool
record_result key stats (store, done) =
    (record store { scrape_stats = insert key (record_success stats) store.scrape_stats }, true)
record_result key stats (store, failed e) =
    (record store { scrape_stats = insert key (record_error stats) store.scrape_stats }, true)
record_result key stats (store, panicked) = (store, false)

module _ (f64 : F64) (fits : ℕ → Bool) (parse_duration : Text → Option ℕ)
    (fetch : (insecure : Bool) → (url : Text) → (timeout : ℕ) → Answer) where
  open f64 use {Float}

  unfoldable pub scrape_pod_static :
      (insecure : Bool)
      → ExternalPodAutoscaler
      → Pod
      → (max_samples scraped_at : ℕ) → MetricsStore Float
      → MetricsStore Float × Scraped
  scrape_pod_static insecure epa pod max_samples scraped_at store = elim pod.namespace [
    | none ↦ (store, failed no_namespace)
    | some namespace ↦ elim epa.metadata.name [
      | none ↦ (store, failed no_name)
      | some epa_name ↦ elim (pod_ip pod) [
        | none ↦ (store, failed no_ip)
        | some ip ↦ elim (parse_duration epa.spec.scrape.timeout) [
          | none ↦ (store, failed invalid_timeout)
          | some timeout ↦
              store_answer f64 fits namespace epa_name pod.name max_samples scraped_at
                epa.spec.metrics (fetch insecure (url_of epa.spec.scrape ip) timeout) store
        ]
      ]
    ]
  ]

  -- One round of the loop of `run`, and whether the worker lives on.
  unfoldable pub do_job :
      ScrapeJob → (scraped_at : ℕ) → MetricsStore Float → MetricsStore Float × Bool
  do_job job scraped_at store =
      let namespace = or_no_namespace job.epa.metadata.namespace in
      let epa_name = or_unnamed job.epa.metadata.name in
      let (stats, store') = get_scrape_stats namespace epa_name store in
      record_result (stats_key namespace epa_name) stats
        (scrape_pod_static job.use_insecure_tls job.epa job.pod job.max_samples scraped_at store')

-- ===== src/Scraper/Worker/Counters.antt =====
-- The counters of the scrape statistics, read and written by key, and that a scrape leaves them.
use external_pod_autoscaler.Prelude.{
  ℕ, ◌≡◌, refl, inl, inr, Bool, true, false, List, [], ◌∷◌, Option, none, some, if◌then◌else◌, ◌==◌,
  arith, ap, ◌∙◌, Bool-cases, Option-cases,
}
use external_pod_autoscaler.Text.{Text, text_Eq, text_beq_refl, text_beq_iff}
use external_pod_autoscaler.Float.{F64}
use external_pod_autoscaler.Assoc.{lookup, insert, modify_or_insert}
use external_pod_autoscaler.Assoc.Laws.{lookup-insert, lookup-modify_or_insert}
use external_pod_autoscaler.Api.{ExternalPodAutoscaler, MetricSpec}
use external_pod_autoscaler.Store.Types.{ScrapeStats, sample_key_Eq, MetricsStore}
use external_pod_autoscaler.Store.Ops.{first_multi_series, push_sample, stats_key, get_scrape_stats}
use external_pod_autoscaler.Store.Stats.{record_success, record_error}
use external_pod_autoscaler.Store.Stats
use external_pod_autoscaler.Scraper.Parser.{PrometheusMetric, Parse, parse_prometheus_text}
use external_pod_autoscaler.Scraper.Parser
use external_pod_autoscaler.Scraper.Pods.{Pod}
use external_pod_autoscaler.Scraper.Scheduler.{ScrapeJob}
use external_pod_autoscaler.Scraper.Worker.{
  Answer, text, timed_out, unreachable, failed_status, unreadable, Scraped, done, failed, panicked,
  pod_ip, url_of, matched, warn_series, key_of, put_series, series_panics, store_metrics,
  store_parsed, store_answer, scrape_pod_static, or_unnamed, or_no_namespace,
}

-- The counters of a key; they start at zero when they are first asked for.
abbrev pub or_new : Option ScrapeStats → ScrapeStats
or_new none = Stats.new
or_new (some s) = s

abbrev pub stats_of : {Float : Type 0} → Text → MetricsStore Float → ScrapeStats
stats_of key store = or_new (lookup key store.scrape_stats)

-- The job's EPA, in the map of the statistics.
abbrev pub job_key : ScrapeJob → Text
job_key job =
    stats_key (or_no_namespace job.epa.metadata.namespace) (or_unnamed job.epa.metadata.name)

-- What the outcome of a scrape does to the counters.
abbrev pub counted : Scraped → ScrapeStats → ScrapeStats
counted done s = record_success s
counted (failed e) s = record_error s
counted panicked s = s

abbrev pub survives : Scraped → Bool
survives done = true
survives (failed e) = true
survives panicked = false

module _ {Float : Type 0} (namespace epa_name : Text) (store : MetricsStore Float) where
  abbrev own_key : Text
  own_key = stats_key namespace epa_name

  found :
      (key : Text)
      → lookup key (modify_or_insert own_key (λ s. s) Stats.new store.scrape_stats)
        ≡ (if own_key == key then some (stats_of own_key store) else lookup key store.scrape_stats)
  found key = elim (Option-cases (lookup own_key store.scrape_stats)) [
    | inl e ↦
        ground (arith, e, lookup-modify_or_insert own_key key (λ s. s) Stats.new store.scrape_stats)
    | inr (s, e) ↦
        ground (arith, e, lookup-modify_or_insert own_key key (λ s. s) Stats.new store.scrape_stats)
  ]

  pub get_scrape_stats_lem : (get_scrape_stats namespace epa_name store).0 ≡ stats_of own_key store
  unfolding get_scrape_stats
  get_scrape_stats_lem = ground (arith, found own_key, text_beq_refl own_key)

  pub stats_of-get_scrape_stats :
      (key : Text) → stats_of key (get_scrape_stats namespace epa_name store).1 ≡ stats_of key store
  unfolding get_scrape_stats
  stats_of-get_scrape_stats key = ap or_new (found key) ∙ (elim (Bool-cases (own_key == key)) [
    | inr e ↦ rw e refl
    | inl e ↦ rw e (ap (λ k. stats_of k store) ((text_beq_iff own_key key).0 e))
  ])

-- A write of the counters of a key.
pub stats_of-insert :
    {Float : Type 0} (key k : Text) (s : ScrapeStats) (store : MetricsStore Float)
    → or_new (lookup k (insert key s store.scrape_stats))
      ≡ (if key == k then s else stats_of k store)
stats_of-insert key k s store =
    ap or_new (lookup-insert key k s store.scrape_stats)
    ∙ (elim (Bool-cases (key == k)) [ inl e ↦ rw e refl | inr e ↦ rw e refl ])

module _ (f64 : F64) (fits : ℕ → Bool) where
  open f64 use {Float}

  warn_series_stats :
      (namespace epa_name : Text) (metric_spec : MetricSpec)
      (series : List (PrometheusMetric Float)) (store : MetricsStore Float)
      → (warn_series f64 namespace epa_name metric_spec series store).scrape_stats
        ≡ store.scrape_stats
  unfolding first_multi_series
  warn_series_stats namespace epa_name metric_spec series store = ground arith

  put_series_stats :
      (namespace epa_name pod_name : Text) (max_samples scraped_at : ℕ) (metric_spec : MetricSpec)
      (series : List (PrometheusMetric Float)) (store : MetricsStore Float)
      → (put_series f64 namespace epa_name pod_name max_samples scraped_at metric_spec series
          store).scrape_stats
        ≡ store.scrape_stats
  unfolding first_multi_series push_sample
  put_series_stats namespace epa_name pod_name max_samples scraped_at metric_spec [] store = refl
  put_series_stats namespace epa_name pod_name max_samples scraped_at metric_spec (first ∷ series)
        store =
      ground arith

  store_metrics_stats :
      (namespace epa_name pod_name : Text) (max_samples scraped_at : ℕ)
      (parsed : List (PrometheusMetric Float)) (metrics : List MetricSpec)
      (store : MetricsStore Float)
      → (store_metrics f64 fits namespace epa_name pod_name max_samples scraped_at parsed metrics
          store).0.scrape_stats
        ≡ store.scrape_stats
  unfolding store_metrics
  store_metrics_stats namespace epa_name pod_name max_samples scraped_at parsed [] store = refl
  store_metrics_stats namespace epa_name pod_name max_samples scraped_at parsed
        (metric_spec ∷ metrics) store =
      let series = matched f64 parsed metric_spec in
      let key = key_of f64 namespace epa_name pod_name metric_spec in
      elim (Bool-cases (series_panics f64 fits key max_samples series store)) [
        | inl panics ↦ rw panics (warn_series_stats namespace epa_name metric_spec series store)
        | inr lives ↦ rw lives (
            store_metrics_stats namespace epa_name pod_name max_samples scraped_at parsed metrics (
              put_series f64 namespace epa_name pod_name max_samples scraped_at metric_spec series
                store)
            ∙ put_series_stats namespace epa_name pod_name max_samples scraped_at metric_spec series
                store)
      ]

  store_parsed_stats :
      (namespace epa_name pod_name : Text) (max_samples scraped_at : ℕ) (metrics : List MetricSpec)
      (parsed : Parse (List (PrometheusMetric Float))) (store : MetricsStore Float)
      → (store_parsed f64 fits namespace epa_name pod_name max_samples scraped_at metrics parsed
          store).0.scrape_stats
        ≡ store.scrape_stats
  store_parsed_stats namespace epa_name pod_name max_samples scraped_at metrics (Parser.ok parsed)
        store =
      store_metrics_stats namespace epa_name pod_name max_samples scraped_at parsed metrics store
  store_parsed_stats namespace epa_name pod_name max_samples scraped_at metrics (Parser.err e)
        store =
      refl
  store_parsed_stats namespace epa_name pod_name max_samples scraped_at metrics Parser.panic store =
      refl

  store_answer_stats :
      (namespace epa_name pod_name : Text) (max_samples scraped_at : ℕ) (metrics : List MetricSpec)
      (answer : Answer) (store : MetricsStore Float)
      → (store_answer f64 fits namespace epa_name pod_name max_samples scraped_at metrics answer
          store).0.scrape_stats
        ≡ store.scrape_stats
  store_answer_stats namespace epa_name pod_name max_samples scraped_at metrics timed_out store =
      refl
  store_answer_stats namespace epa_name pod_name max_samples scraped_at metrics unreachable store =
      refl
  store_answer_stats namespace epa_name pod_name max_samples scraped_at metrics failed_status
        store =
      refl
  store_answer_stats namespace epa_name pod_name max_samples scraped_at metrics unreadable store =
      refl
  store_answer_stats namespace epa_name pod_name max_samples scraped_at metrics (text body) store =
      store_parsed_stats namespace epa_name pod_name max_samples scraped_at metrics
        (parse_prometheus_text f64 body) store

module _ (f64 : F64) (fits : ℕ → Bool) (parse_duration : Text → Option ℕ)
    (fetch : (insecure : Bool) → (url : Text) → (timeout : ℕ) → Answer) where
  open f64 use {Float}

  pub scrape_stats-scrape_pod_static :
      (insecure : Bool) (epa : ExternalPodAutoscaler) (pod : Pod) (max_samples scraped_at : ℕ)
      (store : MetricsStore Float)
      → (scrape_pod_static f64 fits parse_duration fetch insecure epa pod max_samples scraped_at
          store).0.scrape_stats
        ≡ store.scrape_stats
  unfolding scrape_pod_static
  scrape_stats-scrape_pod_static insecure epa pod max_samples scraped_at store =
      elim (Option-cases pod.namespace) [
        | inl e ↦ rw (e, scrape_pod_static) refl
        | inr (namespace, e) ↦ elim (Option-cases epa.metadata.name) [
          | inl f ↦ rw (e, f, scrape_pod_static) refl
          | inr (epa_name, f) ↦ elim (Option-cases (pod_ip pod)) [
            | inl g ↦ rw (e, f, g, scrape_pod_static) refl
            | inr (ip, g) ↦ elim (Option-cases (parse_duration epa.spec.scrape.timeout)) [
              | inl h ↦ rw (e, f, g, h, scrape_pod_static) refl
              | inr (timeout, h) ↦
                  rw (e, f, g, h, scrape_pod_static)
                    (store_answer_stats f64 fits namespace epa_name pod.name max_samples scraped_at
                      epa.spec.metrics (fetch insecure (url_of epa.spec.scrape ip) timeout) store)
            ]
          ]
        ]
      ]

  abbrev pub scrape_of :
      ScrapeJob → (scraped_at : ℕ) → MetricsStore Float → MetricsStore Float × Scraped
  scrape_of job scraped_at store =
      scrape_pod_static f64 fits parse_duration fetch job.use_insecure_tls job.epa job.pod
        job.max_samples scraped_at
        (get_scrape_stats (or_no_namespace job.epa.metadata.namespace)
          (or_unnamed job.epa.metadata.name) store).1

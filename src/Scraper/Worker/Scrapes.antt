-- ===== src/Scraper/Worker/Scrapes.antt =====
-- A scrape of a pod: on every path, what it needs and what it leaves in the store.
use external_pod_autoscaler.Prelude.{
  ℕ, ◌≡◌, ◌≢◌, ◌⊎◌, refl, inl, inr, Bool, List, Option, some, arith, sym, Option-cases,
}
use mathlib.Core.Path.{subst}
use external_pod_autoscaler.Text.{Text, text_Eq}
use external_pod_autoscaler.Float.{F64}
use external_pod_autoscaler.Api.{ExternalPodAutoscaler}
use external_pod_autoscaler.Store.Types.{sample_key_Eq, MetricsStore}
use external_pod_autoscaler.Scraper.Parser.{
  PrometheusMetric, Parse, ParseError, parse_prometheus_text,
}
use external_pod_autoscaler.Scraper.Parser
use external_pod_autoscaler.Scraper.Pods.{Pod}
use external_pod_autoscaler.Scraper.Worker.{
  Answer, text, timed_out, unreachable, failed_status, unreadable, Scraped, done, pod_ip, url_of,
  store_answer, scrape_pod_static,
}
use external_pod_autoscaler.Scraper.Worker.Samples.{Ends, store_metrics-Ends}

module _ (f64 : F64) where
  open f64 use {Float}

  -- What a scrape needs to come to the metrics: all of it is there.
  pub record Answered (parse_duration : Text → Option ℕ)
      (fetch : (insecure : Bool) → (url : Text) → (timeout : ℕ) → Answer) (insecure : Bool)
      (epa : ExternalPodAutoscaler) (pod : Pod) : Type 0 where
    pub namespace : Text
    pub epa_name : Text
    pub ip : Text
    pub timeout : ℕ
    pub body : Text
    pub parsed : List (PrometheusMetric Float)
    pub is_namespace : pod.namespace ≡ some namespace
    pub is_name : epa.metadata.name ≡ some epa_name
    pub is_ip : pod_ip pod ≡ some ip
    pub is_timeout : parse_duration epa.spec.scrape.timeout ≡ some timeout
    pub is_body : fetch insecure (url_of epa.spec.scrape ip) timeout ≡ text body
    pub is_parsed : parse_prometheus_text f64 body ≡ Parser.ok parsed

module _ (f64 : F64) (fits : ℕ → Bool) (parse_duration : Text → Option ℕ)
    (fetch : (insecure : Bool) → (url : Text) → (timeout : ℕ) → Answer) (insecure : Bool)
    (epa : ExternalPodAutoscaler) (pod : Pod) (max_samples scraped_at : ℕ)
    (store : MetricsStore f64.Float) where
  abbrev pub Settled : MetricsStore f64.Float × Scraped → Type 0
  Settled result =
      ((a : Answered f64 parse_duration fetch insecure epa pod) × Ends f64 fits a.namespace
          a.epa_name pod.name max_samples scraped_at a.parsed epa.spec.metrics store result)
      ⊎ ((result.1 ≢ done) × (result.0 ≡ store))

  Parse-cases :
      (p : Parse (List (PrometheusMetric f64.Float)))
      → ((parsed : List (PrometheusMetric f64.Float)) × (p ≡ Parser.ok parsed))
        ⊎ ((e : ParseError) × (p ≡ Parser.err e))
        ⊎ (p ≡ Parser.panic)
  Parse-cases (Parser.ok parsed) = inl (parsed, refl)
  Parse-cases (Parser.err e) = inr (inl (e, refl))
  Parse-cases Parser.panic = inr (inr refl)

  Answer-cases :
      (answer : Answer)
      → ((body : Text) × (answer ≡ text body))
        ⊎ ((namespace epa_name : Text)
            → let result =
                store_answer f64 fits namespace epa_name pod.name max_samples scraped_at
                  epa.spec.metrics answer store in
              (result.1 ≢ done) × (result.0 ≡ store))
  Answer-cases timed_out = inr (λ n e. (λ p. ground arith, refl))
  Answer-cases unreachable = inr (λ n e. (λ p. ground arith, refl))
  Answer-cases failed_status = inr (λ n e. (λ p. ground arith, refl))
  Answer-cases unreadable = inr (λ n e. (λ p. ground arith, refl))
  Answer-cases (text body) = inl (body, refl)

  -- The scrape once the address and the timeout are known.
  answered :
      (namespace epa_name ip : Text) (timeout : ℕ)
      → pod.namespace ≡ some namespace
      → epa.metadata.name ≡ some epa_name
      → pod_ip pod ≡ some ip
      → parse_duration epa.spec.scrape.timeout ≡ some timeout
      → scrape_pod_static f64 fits parse_duration fetch insecure epa pod max_samples scraped_at
          store
        ≡ store_answer f64 fits namespace epa_name pod.name max_samples scraped_at epa.spec.metrics
            (fetch insecure (url_of epa.spec.scrape ip) timeout)
            store
  unfolding scrape_pod_static
  answered namespace epa_name ip timeout e f g h = rw (e, f, g, h, scrape_pod_static) refl

  answer-Settled :
      (namespace epa_name ip : Text) (timeout : ℕ)
      → pod.namespace ≡ some namespace
      → epa.metadata.name ≡ some epa_name
      → pod_ip pod ≡ some ip
      → parse_duration epa.spec.scrape.timeout ≡ some timeout
      → Settled (
          store_answer f64 fits namespace epa_name pod.name max_samples scraped_at epa.spec.metrics
            (fetch insecure (url_of epa.spec.scrape ip) timeout)
            store)
  answer-Settled namespace epa_name ip timeout e f g h =
      elim (Answer-cases (fetch insecure (url_of epa.spec.scrape ip) timeout)) [
        | inr kept ↦ inr (kept namespace epa_name)
        | inl (body, k) ↦ elim (Parse-cases (parse_prometheus_text f64 body)) [
          | inr (inl (error, l)) ↦ rw (k, l) (inr (λ p. ground arith, refl))
          | inr (inr l) ↦ rw (k, l) (inr (λ p. ground arith, refl))
          | inl (parsed, l) ↦
              rw (k, l)
                (inl (
                  record {
                    namespace = namespace;
                    epa_name = epa_name;
                    ip = ip;
                    timeout = timeout;
                    body = body;
                    parsed = parsed;
                    is_namespace = e;
                    is_name = f;
                    is_ip = g;
                    is_timeout = h;
                    is_body = k;
                    is_parsed = l;
                  },
                  store_metrics-Ends f64 fits namespace epa_name pod.name max_samples scraped_at
                      parsed epa.spec.metrics store,
                ))
        ]
      ]

  -- A scrape succeeds, panics at a metric, or leaves the store as it was. It comes to the metrics
  -- where the pod has a namespace and an address, the EPA has a name and a timeout that is parsed,
  -- and the answer is a text that is parsed. If it succeeds, each window of this EPA and this pod
  -- has grown by the samples of its metric, one for each specification of that name which some
  -- series match, in the order of the specifications, and no other window has changed. If it
  -- panics at a metric, that has series but no window, and no window of the job's size can be
  -- made; then the windows have grown in the same way by the metrics in front of it only. On all
  -- other paths the outcome is not a success and the store is the one before.
  pub scrape_pod_static_cases : Settled (
      scrape_pod_static f64 fits parse_duration fetch insecure epa pod max_samples scraped_at store)
  unfolding scrape_pod_static
  scrape_pod_static_cases = elim (Option-cases pod.namespace) [
    | inl e ↦ rw (e, scrape_pod_static) (inr (λ p. ground arith, refl))
    | inr (namespace, e) ↦ elim (Option-cases epa.metadata.name) [
      | inl f ↦ rw (e, f, scrape_pod_static) (inr (λ p. ground arith, refl))
      | inr (epa_name, f) ↦ elim (Option-cases (pod_ip pod)) [
        | inl g ↦ rw (e, f, g, scrape_pod_static) (inr (λ p. ground arith, refl))
        | inr (ip, g) ↦ elim (Option-cases (parse_duration epa.spec.scrape.timeout)) [
          | inl h ↦ rw (e, f, g, h, scrape_pod_static) (inr (λ p. ground arith, refl))
          | inr (timeout, h) ↦
              subst Settled (sym (answered namespace epa_name ip timeout e f g h))
                (answer-Settled namespace epa_name ip timeout e f g h)
        ]
      ]
    ]
  ]

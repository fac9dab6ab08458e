-- ===== src/Scraper/Worker/Samples.antt =====
-- What a scrape leaves in the windows of the store.
use external_pod_autoscaler.Prelude.{
  ℕ, ◌≡◌, ◌⊎◌, refl, inl, inr, Bool, true, false, ◌&&◌, List, [], ◌∷◌, ◌++◌, Option, none, some,
  if◌then◌else◌, ◌==◌, arith, ap, ◌∙◌, Bool-cases, Option-cases,
}
use external_pod_autoscaler.Text.{Text, text_Eq}
use external_pod_autoscaler.Float.{F64}
use external_pod_autoscaler.Assoc.{lookup, contains_key}
use external_pod_autoscaler.Api.{MetricSpec}
use external_pod_autoscaler.Store.Types.{
  LabeledSample, SampleKey, sample_key_Eq, sample_key_beq_iff, MetricWindow, MetricsStore,
}
use external_pod_autoscaler.Store.Window.{push}
use external_pod_autoscaler.Store.Window
use external_pod_autoscaler.Store.Ops.{first_multi_series}
use external_pod_autoscaler.Store.Ops.Windows.{lookup-push_sample}
use external_pod_autoscaler.Scraper.Parser.{PrometheusMetric}
use external_pod_autoscaler.Scraper.Worker.{
  Scraped, done, panicked, matched, sample_of, warn_series, key_of, put_series, is_matched,
  series_panics, store_metrics,
}

abbrev pub is_of_pod : (namespace epa_name pod_name : Text) → SampleKey → Bool
is_of_pod namespace epa_name pod_name key =
    namespace == key.namespace && epa_name == key.epa_name && pod_name == key.pod_name

-- A window after samples have come, which is made for the first one if there is none.
abbrev pub grown :
    {Float : Type 0}
    → (max_samples : ℕ) → List (LabeledSample Float)
    → Option (MetricWindow Float)
    → Option (MetricWindow Float)
grown max_samples [] window = window
grown max_samples (s ∷ samples) none =
    grown max_samples samples (some (push s (Window.new max_samples)))
grown max_samples (s ∷ samples) (some w) = grown max_samples samples (some (push s w))

module _ (f64 : F64) where
  open f64 use {Float}

  abbrev pub samples_in :
      (series : List (PrometheusMetric Float))
      → (scraped_at : ℕ) → List (LabeledSample Float)
      → List (LabeledSample Float)
  samples_in [] scraped_at rest = rest
  samples_in (first ∷ series) scraped_at rest =
      sample_of f64 first (first ∷ series) scraped_at ∷ rest

  -- The samples that a scrape gives for a metric: one for each specification of that name which
  -- some series match, the sum of their values.
  abbrev pub samples_of :
      (metric_name : Text)
      → (scraped_at : ℕ) → List (PrometheusMetric Float)
      → List MetricSpec
      → List (LabeledSample Float)
  samples_of metric_name scraped_at parsed [] = []
  samples_of metric_name scraped_at parsed (metric_spec ∷ metrics) =
      let rest = samples_of metric_name scraped_at parsed metrics in
      if metric_spec.metric_name == metric_name
      then samples_in (matched f64 parsed metric_spec) scraped_at rest
      else rest

  warn_series_windows :
      (namespace epa_name : Text) (metric_spec : MetricSpec)
      (series : List (PrometheusMetric Float)) (store : MetricsStore Float)
      → (warn_series f64 namespace epa_name metric_spec series store).windows ≡ store.windows
  unfolding first_multi_series
  warn_series_windows namespace epa_name metric_spec series store = ground arith

  lookup-put_series :
      (namespace epa_name pod_name : Text) (max_samples scraped_at : ℕ) (metric_spec : MetricSpec)
      (series : List (PrometheusMetric Float)) (store : MetricsStore Float) (j : SampleKey)
      → lookup j
          (put_series f64 namespace epa_name pod_name max_samples scraped_at metric_spec series
            store).windows
        ≡ (if is_of_pod namespace epa_name pod_name j && metric_spec.metric_name == j.metric_name
            then grown max_samples (samples_in series scraped_at []) (lookup j store.windows)
            else lookup j store.windows)
  lookup-put_series namespace epa_name pod_name max_samples scraped_at metric_spec [] store j =
      ground arith
  lookup-put_series namespace epa_name pod_name max_samples scraped_at metric_spec (first ∷ series)
        store j =
      let k = key_of f64 namespace epa_name pod_name metric_spec in
      let warned = warn_series f64 namespace epa_name metric_spec (first ∷ series) store in
      lookup-push_sample k j (sample_of f64 first (first ∷ series) scraped_at) max_samples warned
      ∙ rw (warn_series_windows namespace epa_name metric_spec (first ∷ series) store)
          (elim (Bool-cases (k == j)) [
            | inr e ↦ ground (arith, e)
            | inl e ↦
                let same = ap (λ i. lookup i store.windows) ((sample_key_beq_iff k j).0 e) in
                elim (Option-cases (lookup j store.windows)) [
                  | inl f ↦ ground (arith, e, f, same ∙ f)
                  | inr (w, f) ↦ ground (arith, e, f, same ∙ f)
                ]
          ])

  grown-samples_in :
      (max_samples scraped_at : ℕ) (series : List (PrometheusMetric Float))
      (rest : List (LabeledSample Float)) (window : Option (MetricWindow Float))
      → grown max_samples (samples_in series scraped_at rest) window
        ≡ grown max_samples rest (grown max_samples (samples_in series scraped_at []) window)
  grown-samples_in max_samples scraped_at [] rest window = refl
  grown-samples_in max_samples scraped_at (first ∷ series) rest none = refl
  grown-samples_in max_samples scraped_at (first ∷ series) rest (some w) = refl

  -- The windows after the loop over the metrics.
  abbrev pub Grows :
      (namespace epa_name pod_name : Text)
      → (max_samples scraped_at : ℕ) → List (PrometheusMetric Float)
      → List MetricSpec
      → (before after : MetricsStore Float) → Type 0
  Grows namespace epa_name pod_name max_samples scraped_at parsed metrics before after =
      (j : SampleKey)
      → lookup j after.windows ≡ (
          if is_of_pod namespace epa_name pod_name j
          then grown max_samples (samples_of j.metric_name scraped_at parsed metrics)
              (lookup j before.windows)
          else lookup j before.windows)

  -- One more metric in front.
  Grows-cons :
      (namespace epa_name pod_name : Text) (max_samples scraped_at : ℕ)
      (parsed : List (PrometheusMetric Float)) (metric_spec : MetricSpec)
      (metrics : List MetricSpec) (store after : MetricsStore Float)
      → Grows namespace epa_name pod_name max_samples scraped_at parsed metrics
          (put_series f64 namespace epa_name pod_name max_samples scraped_at metric_spec
            (matched f64 parsed metric_spec)
            store)
          after
      → Grows namespace epa_name pod_name max_samples scraped_at parsed
          (metric_spec ∷ metrics)
          store
          after
  Grows-cons namespace epa_name pod_name max_samples scraped_at parsed metric_spec metrics store
        after grows j =
      let series = matched f64 parsed metric_spec in
      grows j
      ∙ rw
          (lookup-put_series namespace epa_name pod_name max_samples scraped_at metric_spec series
            store j)
          (elim (Bool-cases (is_of_pod namespace epa_name pod_name j)) [
            | inr e ↦ ground (arith, e)
            | inl e ↦ elim (Bool-cases (metric_spec.metric_name == j.metric_name)) [
              | inr f ↦ ground (arith, e, f)
              | inl f ↦ ground (
                arith,
                e,
                f,
                grown-samples_in max_samples scraped_at series
                    (samples_of j.metric_name scraped_at parsed metrics) (lookup j store.windows),
              )
            ]
          ])

module _ (f64 : F64) (fits : ℕ → Bool) (namespace epa_name pod_name : Text)
    (max_samples scraped_at : ℕ) (parsed : List (PrometheusMetric f64.Float)) where
  -- The loop has panicked: the metrics in front of some metric have been stored, and that one has
  -- series but no window yet, and a window cannot be made.
  pub record BreaksOff (metrics : List MetricSpec) (before after : MetricsStore f64.Float)
      : Type 0 where
    pub stored : List MetricSpec
    pub broken : MetricSpec
    pub rest : List MetricSpec
    pub parts : metrics ≡ stored ++ broken ∷ rest
    pub grows :
        Grows f64 namespace epa_name pod_name max_samples scraped_at parsed stored before after
    pub has_series : is_matched f64 (matched f64 parsed broken) ≡ true
    pub no_window :
        contains_key (key_of f64 namespace epa_name pod_name broken) after.windows ≡ false
    pub no_room : fits max_samples ≡ false

  -- How the loop over the metrics ends.
  abbrev pub Ends :
      List MetricSpec
      → (before : MetricsStore f64.Float) → MetricsStore f64.Float × Scraped
      → Type 0
  Ends metrics before (after, outcome) =
      ((outcome ≡ done)
        × Grows f64 namespace epa_name pod_name max_samples scraped_at parsed metrics before after)
      ⊎ ((outcome ≡ panicked) × BreaksOff metrics before after)

  abbrev one_more :
      (metric_spec : MetricSpec) (metrics : List MetricSpec) (store : MetricsStore f64.Float)
      (result : MetricsStore f64.Float × Scraped)
      → Ends metrics
          (put_series f64 namespace epa_name pod_name max_samples scraped_at metric_spec
            (matched f64 parsed metric_spec)
            store)
          result
      → Ends (metric_spec ∷ metrics) store result
  one_more metric_spec metrics store (after, outcome) (inl (e, grows)) = inl (
    e,
    Grows-cons f64 namespace epa_name pod_name max_samples scraped_at parsed metric_spec metrics
        store after grows,
  )
  one_more metric_spec metrics store (after, outcome) (inr (e, b)) = inr (
    e,
    record {
      stored = metric_spec ∷ b.stored;
      broken = b.broken;
      rest = b.rest;
      parts = ap (λ t. metric_spec ∷ t) b.parts;
      grows =
          Grows-cons f64 namespace epa_name pod_name max_samples scraped_at parsed metric_spec
            b.stored store after b.grows;
      has_series = b.has_series;
      no_window = b.no_window;
      no_room = b.no_room;
    },
  )

  pub store_metrics-Ends :
      (metrics : List MetricSpec) (store : MetricsStore f64.Float)
      → Ends metrics store (
          store_metrics f64 fits namespace epa_name pod_name max_samples scraped_at parsed metrics
            store)
  unfolding store_metrics
  store_metrics-Ends [] store = inl (refl, λ j. ground arith)
  store_metrics-Ends (metric_spec ∷ metrics) store =
      let series = matched f64 parsed metric_spec in
      let key = key_of f64 namespace epa_name pod_name metric_spec in
      let same = warn_series_windows f64 namespace epa_name metric_spec series store in
      elim (Bool-cases (series_panics f64 fits key max_samples series store)) [
        | inr lives ↦ rw lives (
            one_more metric_spec metrics store
              (store_metrics f64 fits namespace epa_name pod_name max_samples scraped_at parsed
                metrics
                (put_series f64 namespace epa_name pod_name max_samples scraped_at metric_spec
                  series store))
              (store_metrics-Ends metrics (
                put_series f64 namespace epa_name pod_name max_samples scraped_at metric_spec series
                  store)))
        | inl panics ↦ rw panics (
            inr (
              refl,
              record {
                stored = [];
                broken = metric_spec;
                rest = metrics;
                parts = refl;
                grows = λ j. ap (λ t. lookup j t) same ∙ ground arith;
                has_series = ground (arith, panics);
                no_window = ap (λ t. contains_key key t) same ∙ ground (arith, panics);
                no_room = ground (arith, panics);
              },
            ))
      ]

-- ===== src/Scraper/Service.antt =====
-- src/scraper/service.rs: the map of active EPAs, which the messages of the controller change.
-- The map is an association list; each message is one step.
pub mod Registered
use external_pod_autoscaler.Prelude.{List, [], ◌∷◌, ◌++◌, Option, none, some}
use external_pod_autoscaler.Text.{Text, text_Eq}
use external_pod_autoscaler.Assoc.{insert, remove}
use external_pod_autoscaler.Api.{
  ExternalPodAutoscaler, ExternalPodAutoscalerSpec, Metadata, MetricSpec, ScrapeConfig,
  AggregationType,
}
use external_pod_autoscaler.Store.Types.{MetricsStore, MetricConfig}
use external_pod_autoscaler.Store.Ops.{set_metric_config}
use external_pod_autoscaler.Membership.Ownership.{epa_key}

pub data EpaUpdate : Type 0 where
  upsert : ExternalPodAutoscaler → EpaUpdate
  delete : (namespace name : Text) → EpaUpdate

abbrev pub Active : Type 0
Active = List (Text × ExternalPodAutoscaler)

-- `metric_spec.aggregation_type.unwrap_or(epa.spec.scrape.aggregation_type)`.
abbrev pub aggregation_of : ExternalPodAutoscaler → MetricSpec → AggregationType
aggregation_of epa metric_spec = elim metric_spec.aggregation_type [
  | none ↦ epa.spec.scrape.aggregation_type
  | some type ↦ type
]

module _ {Float : Type 0} where
  -- The loop that writes the configuration of every metric, here and in the scheduler.
  unfoldable pub set_configs :
      (namespace name : Text)
      → ExternalPodAutoscaler
      → List MetricSpec
      → MetricsStore Float
      → MetricsStore Float
  set_configs namespace name epa [] store = store
  set_configs namespace name epa (metric_spec ∷ metrics) store =
      set_configs namespace name epa metrics (
        set_metric_config namespace name metric_spec.metric_name
          (record { aggregation_type = aggregation_of epa metric_spec }) store)

  -- An EPA without a namespace or without a name is skipped.
  abbrev pub register :
      (namespace name : Option Text)
      → ExternalPodAutoscaler
      → Active × MetricsStore Float
      → Active × MetricsStore Float
  register none name epa state = state
  register (some namespace) none epa state = state
  register (some namespace) (some name) epa (active, store) = (
    insert (epa_key namespace name) epa active,
    set_configs namespace name epa epa.spec.metrics store,
  )

  -- One round of the loop of `handle_updates`.
  unfoldable pub handle_update :
      EpaUpdate → Active × MetricsStore Float → Active × MetricsStore Float
  handle_update (upsert epa) state = register epa.metadata.namespace epa.metadata.name epa state
  handle_update (delete namespace name) (active, store) =
      (remove (epa_key namespace name) active, store)

  -- The messages that come until the channel is closed.
  unfoldable pub handle_updates :
      List EpaUpdate → Active × MetricsStore Float → Active × MetricsStore Float
  handle_updates [] state = state
  handle_updates (msg ∷ messages) state = handle_updates messages (handle_update msg state)

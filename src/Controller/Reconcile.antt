-- ===== src/Controller/Reconcile.antt =====
-- `reconcile` and `reconcile_hpa` of src/controller/externalpodautoscaler/reconcile.rs. What a
-- reconcile does outside the store is a list of effects, in order; the answers of the API server
-- are parameters. A message that the scraper does not take and a status patch that fails are
-- logged and ignored, so the effects say what is sent. Conditions keep their reason only.
use external_pod_autoscaler.Prelude.{
  Bool, true, false, List, [], ◌∷◌, ◌++◌, Option, none, some, if◌then◌else◌,
}
use external_pod_autoscaler.Text.{Text, codes}
use external_pod_autoscaler.Api.{ExternalPodAutoscaler}
use external_pod_autoscaler.Store.Types.{MetricsStore}
use external_pod_autoscaler.Store.Ops.{remove_epa_windows}
use external_pod_autoscaler.Controller.Hpa.{
  Error, observation, hpa, built, refused, Hpa, epa_name_namespace, build_hpa_spec,
}

pub data Effect : Type 0 where
  apply_hpa : (name namespace : Text) → Hpa → Effect
  patch_status : (name namespace : Text) → (ready : Bool) → (reason : Text) → Effect
  send_delete : (namespace name : Text) → Effect
  send_upsert : ExternalPodAutoscaler → Effect

-- The outcome of `StateObserver::observe`.
pub data Observed : Type 0 where
  unobservable : Observed
  found : Option ExternalPodAutoscaler → Observed

-- `Action::await_change()`, or the error for which the reconcile is repeated.
pub data Action : Type 0 where
  await_change : Action
  fail : Error → Action

-- The server's answer to the patch of the HPA: a message if it fails.
abbrev pub applied : (Hpa → Option Text) → Hpa → Option Error
applied answer h = elim (answer h) [
  | none ↦ none
  | some e ↦ some (hpa (codes "Failed to apply HPA: " ++ e))
]

-- The effects, and the error.
unfoldable pub reconcile_hpa :
    (Hpa → Option Text) → ExternalPodAutoscaler → List Effect × Option Error
reconcile_hpa answer epa = elim (epa_name_namespace epa) [
  | refused e ↦ ([], some e)
  | built (name, namespace) ↦ elim (build_hpa_spec epa) [
    | refused e ↦ ([], some e)
    | built h ↦ (apply_hpa name namespace h ∷ [], applied answer h)
  ]
]

-- After `reconcile_hpa`: the status, and the scraper only if there was no error.
abbrev pub conclude :
    (name namespace : Text)
    → ExternalPodAutoscaler
    → List Effect × Option Error
    → List Effect × Action
conclude name namespace epa (effects, none) = (
  effects ++ patch_status name namespace true (codes "HpaSynced") ∷ send_upsert epa ∷ [],
  await_change,
)
conclude name namespace epa (effects, some e) =
    (effects ++ patch_status name namespace false (codes "HpaError") ∷ [], fail e)

module _ {Float : Type 0} where
  abbrev pub delete_epa :
      Bool
      → (name namespace : Text) → MetricsStore Float
      → (List Effect × Action) × MetricsStore Float
  delete_epa is_owner name namespace store =
      if is_owner
      then (
        (send_delete namespace name ∷ [], await_change),
        remove_epa_windows namespace name store,
      )
      else (([], await_change), store)

  abbrev pub reconcile_found :
      (Hpa → Option Text)
      → Bool
      → (name namespace : Text) → ExternalPodAutoscaler
      → MetricsStore Float
      → (List Effect × Action) × MetricsStore Float
  reconcile_found answer is_owner name namespace epa store =
      if epa.metadata.deletion_timestamp
      then delete_epa is_owner name namespace store
      else if is_owner
      then (conclude name namespace epa (reconcile_hpa answer epa), store)
      else ((send_upsert epa ∷ [], await_change), store)

  unfoldable pub reconcile :
      (Hpa → Option Text)
      → (is_owner : Bool) → (epa : ExternalPodAutoscaler) → Observed
      → MetricsStore Float
      → (List Effect × Action) × MetricsStore Float
  reconcile answer is_owner epa observed store = elim (epa_name_namespace epa) [
    | refused e ↦ (([], fail e), store)
    | built (name, namespace) ↦ elim observed [
      | unobservable ↦ (([], fail observation), store)
      | found none ↦ (([], await_change), store)
      | found (some epa_ref) ↦ reconcile_found answer is_owner name namespace epa_ref store
    ]
  ]

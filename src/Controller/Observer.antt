-- ===== src/Controller/Observer.antt =====
-- `StateObserver` of src/controller/externalpodautoscaler/observer.rs, and `error_policy` of
-- reconcile.rs. What the API server answers to the read of the EPA is an argument.
use external_pod_autoscaler.Prelude.{
  ℕ, ◌≡◌, ◌↔◌, Option, none, some, nat_eq, nat_eq_iff, if◌then◌else◌, arith,
}
use external_pod_autoscaler.Api.{ExternalPodAutoscaler}
use external_pod_autoscaler.Controller.Hpa.{Error}
use external_pod_autoscaler.Controller.Reconcile.{
  Observed, unobservable, found, Action, await_change, fail,
}

pub data EpaAnswer : Type 0 where
  got : ExternalPodAutoscaler → EpaAnswer
  refused : (code : ℕ) → EpaAnswer
  failed : EpaAnswer

-- An object that is not there is no error.
unfoldable pub observe : EpaAnswer → Observed
observe (got epa) = found (some epa)
observe (refused code) = if nat_eq code 404 then found none else unobservable
observe failed = unobservable

-- The seconds after which kube repeats a reconcile, if it does.
unfoldable pub error_policy : Error → ℕ
error_policy error = 60

abbrev pub requeue_after : Action → Option ℕ
requeue_after await_change = none
requeue_after (fail error) = some (error_policy error)

-- The object counts as deleted exactly where the server answers that it does not exist.
pub observe-absent : (answer : EpaAnswer) → (observe answer ≡ found none) ↔ (answer ≡ refused 404)
unfolding observe
observe-absent (got epa) = (λ h. absurd (ground arith), λ h. absurd (ground arith))
observe-absent (refused code) = ground (arith, nat_eq_iff code 404)
observe-absent failed = (λ h. absurd (ground arith), λ h. absurd (ground arith))

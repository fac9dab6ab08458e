-- ===== src/Scraper/Pods/Workload.antt =====
-- `get_pod_selector` of src/scraper/worker.rs: from the target of an EPA to a text that selects its
-- pods. What the API server answers to `get` is a parameter.
use external_pod_autoscaler.Prelude.{Option, none, some, if◌then◌else◌, ◌==◌}
use external_pod_autoscaler.Text.{Text, codes, text_Eq}
use external_pod_autoscaler.Api.{TargetRef}
use external_pod_autoscaler.Scraper.Pods.{
  WorkloadSelector, SelectorResult, ok, err, build_label_selector_string,
}

pub data Kind : Type 0 where
  deployment stateful_set daemon_set : Kind

-- The answer to `get`: an error, or the selector of the specification, if there is one.
pub data Fetched : Type 0 where
  unavailable : Fetched
  spec : Option WorkloadSelector → Fetched

pub data Selected : Type 0 where
  selected : Text → Selected
  unselected : Selected

abbrev pub selector_of : SelectorResult Text → Selected
selector_of (ok s) = selected s
selector_of (err e) = unselected

abbrev pub from_spec : Fetched → Selected
from_spec unavailable = unselected
from_spec (spec none) = unselected
from_spec (spec (some selector)) = selector_of (build_label_selector_string selector)

unfoldable pub get_pod_selector :
    (Kind → (namespace name : Text) → Fetched) → (namespace : Text) → TargetRef → Selected
get_pod_selector get namespace target_ref =
    if target_ref.kind == codes "Deployment"
    then from_spec (get deployment namespace target_ref.name)
    else if target_ref.kind == codes "StatefulSet"
    then from_spec (get stateful_set namespace target_ref.name)
    else if target_ref.kind == codes "DaemonSet"
    then from_spec (get daemon_set namespace target_ref.name)
    else unselected

-- ===== src/Controller/Status.antt =====
-- `patch_epa_status` of src/controller/externalpodautoscaler/reconcile.rs: the condition `Ready` of
-- an EPA, with the time of its last transition. The API server is a parameter, of which the code
-- reads the status and to which it sends a merge patch. Times are texts, as in the status.
pub mod Transitions
use external_pod_autoscaler.Prelude.{
  Bool, true, false, List, [], ◌∷◌, Option, none, some, if◌then◌else◌, ◌==◌,
}
use external_pod_autoscaler.Prelude.Int.{ℤ}
use external_pod_autoscaler.Text.{Text, codes, text_Eq}

pub record Condition : Type 0 where
  pub type_ : Text
  pub status : Text
  pub last_transition_time : Text
  pub reason : Text
  pub message : Text

pub record ManagedHpaStatus : Type 0 where
  pub name : Text
  pub last_sync_time : Option Text

pub record ExternalPodAutoscalerStatus : Type 0 where
  pub managed_hpa : Option ManagedHpaStatus
  pub scraped_replicas : Option ℤ
  pub scrape_errors : Option ℤ
  pub conditions : List Condition

-- The patch: the other fields of the status stay.
pub record StatusPatch : Type 0 where
  pub managed_hpa : ManagedHpaStatus
  pub conditions : List Condition

-- What the API server answers about one EPA. `get` has `none` for an error and `some none` for an
-- object with no status; `patch_status` has whether it succeeded.
pub record StatusApi : Type 1 where
  pub Server : Type 0
  pub get : Server → Option (Option ExternalPodAutoscalerStatus)
  pub patch_status : StatusPatch → Server → Bool × Server

abbrev pub condition_status : Bool → Text
condition_status ready = if ready then codes "True" else codes "False"

abbrev pub find_ready : List Condition → Option Condition
find_ready [] = none
find_ready (c ∷ conds) = if c.type_ == codes "Ready" then some c else find_ready conds

abbrev pub existing_ready : Option (Option ExternalPodAutoscalerStatus) → Option Condition
existing_ready none = none
existing_ready (some none) = none
existing_ready (some (some status)) = find_ready status.conditions

-- An unchanged state keeps its time.
abbrev pub kept_time : Bool → (now : Text) → Option Condition → Text
kept_time ready now none = now
kept_time ready now (some c) =
    if c.status == condition_status ready then c.last_transition_time else now

abbrev pub ready_patch :
    (name : Text) → (ready : Bool) → (now transition_time reason message : Text) → StatusPatch
ready_patch name ready now transition_time reason message = record {
  managed_hpa = record { name = name; last_sync_time = some now };
  conditions =
      record {
        type_ = codes "Ready";
        status = condition_status ready;
        last_transition_time = transition_time;
        reason = reason;
        message = message;
      }
      ∷ [];
}

module _ (k8s : StatusApi) where
  open k8s use {Server, get, patch_status}

  -- Whether the patch succeeded is only logged.
  unfoldable pub patch_epa_status :
      (name : Text) → (ready : Bool) → (now reason message : Text) → Server → Bool × Server
  patch_epa_status name ready now reason message server =
      let transition_time = kept_time ready now (existing_ready (get server)) in
      patch_status (ready_patch name ready now transition_time reason message) server

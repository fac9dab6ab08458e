-- ===== src/Tests/Status.antt =====
-- Two patches of the condition, with the counts of the scheduler between them.
use external_pod_autoscaler.Prelude.{◌≡◌, refl, Bool, true, [], ◌∷◌, List, none, some, arith}
use external_pod_autoscaler.Prelude.Int.{pos}
use external_pod_autoscaler.Text.{Text, codes}
use external_pod_autoscaler.Controller.Status.{
  ExternalPodAutoscalerStatus, StatusApi, StatusPatch, condition_status, patch_epa_status,
}
use external_pod_autoscaler.Controller.Status.Transitions.{
  ReadsPatches, Patches, here, patched, apart, view_of, patch_epa_status-keeps_transition,
}

abbrev no_status : ExternalPodAutoscalerStatus
no_status = record {
  managed_hpa = none;
  scraped_replicas = none;
  scrape_errors = none;
  conditions = [];
}

abbrev merged : StatusPatch → ExternalPodAutoscalerStatus → ExternalPodAutoscalerStatus
merged patch status = record status {
  managed_hpa = some patch.managed_hpa;
  conditions = patch.conditions;
}

-- A server that holds one status and accepts every patch.
abbrev status_api : StatusApi
status_api = record {
  Server = ExternalPodAutoscalerStatus;
  get = λ status. some (some status);
  patch_status = λ patch status. (true, merged patch status);
}

merged_reads :
    (patch : StatusPatch) (server server' : ExternalPodAutoscalerStatus)
    → status_api.patch_status patch server ≡ (true, server')
    → (status : ExternalPodAutoscalerStatus) × (status_api.get server' ≡ some (some status))
      × (status.conditions ≡ patch.conditions)
merged_reads patch server server' h = (server', refl, ground arith)

status_laws : ReadsPatches status_api
status_laws = record { reads = merged_reads }

abbrev synced : Text → ExternalPodAutoscalerStatus → ExternalPodAutoscalerStatus
synced now status =
    (patch_epa_status status_api (codes "web") true now (codes "HpaSynced") (codes "ok") status).1

abbrev first : ExternalPodAutoscalerStatus
first = synced (codes "08:00") no_status

abbrev counted : ExternalPodAutoscalerStatus
counted = record first { scraped_replicas = some (pos 3) }

abbrev second : ExternalPodAutoscalerStatus
second = synced (codes "08:05") counted

abbrev log : List (Bool × Text)
log = (true, codes "08:05") ∷ (true, codes "08:00") ∷ []

two_patches : Patches status_api no_status log second
unfolding patch_epa_status
two_patches =
    patched
      (apart (patched here (codes "web") true (codes "08:00") (codes "HpaSynced") (codes "ok") refl)
        counted refl)
      (codes "web") true (codes "08:05") (codes "HpaSynced") (codes "ok") refl

patch_epa_status-keeps_transition_example :
    view_of status_api second ≡ some (condition_status true, codes "08:00")
patch_epa_status-keeps_transition_example =
    patch_epa_status-keeps_transition status_api ((true, codes "08:05") ∷ []) [] true
      (codes "08:00") status_laws two_patches (refl, tt) tt

-- ===== src/Webhook/Admission/Defaults.antt =====
-- `apply_defaults`: what it leaves behind.
use external_pod_autoscaler.Prelude.{◌≡◌, refl, [], ◌∷◌, Option, none, some, arith}
use external_pod_autoscaler.Prelude.Int.{ℤ, pos}
use external_pod_autoscaler.Text.{Text, codes}
use external_pod_autoscaler.Api.{ExternalPodAutoscaler, ScrapeConfig, TargetRef}
use external_pod_autoscaler.Webhook.Admission.{
  apply_defaults, or_default, or_default_ℤ, or_default_ref, default_scrape,
}

or_default_again :
    (s default : Text) → or_default (or_default s default) default ≡ or_default s default
or_default_again [] [] = refl
or_default_again [] (a ∷ default) = refl
or_default_again (a ∷ s) default = refl

or_default_ℤ_again :
    (n default : ℤ) → or_default_ℤ (or_default_ℤ n default) default ≡ or_default_ℤ n default
or_default_ℤ_again n default = ground arith

or_default_ref_again :
    (target : Option TargetRef) (default default' : TargetRef)
    → or_default_ref (or_default_ref target default) default' ≡ or_default_ref target default
or_default_ref_again none default default' = refl
or_default_ref_again (some target) default default' = refl

default_scrape_again :
    (scrape : ScrapeConfig) → default_scrape (default_scrape scrape) ≡ default_scrape scrape
default_scrape_again scrape =
    rw
      (
        or_default_ℤ_again scrape.port (pos 8080),
        or_default_again scrape.path (codes "/metrics"),
        or_default_again scrape.interval (codes "15s"),
        or_default_again scrape.timeout (codes "1s"),
        or_default_again scrape.scheme (codes "http"),
        or_default_again scrape.evaluation_period (codes "60s"),
      )
      refl

-- The defaults are applied once: an object that has been through the mutating webhook is not
-- changed by it again.
pub apply_defaults_again :
    (epa : ExternalPodAutoscaler) → apply_defaults (apply_defaults epa) ≡ apply_defaults epa
unfolding apply_defaults
apply_defaults_again epa =
    rw
      (
        or_default_ℤ_again epa.spec.min_replicas (pos 1),
        default_scrape_again epa.spec.scrape,
        or_default_ref_again epa.spec.scrape_target_ref epa.spec.scale_target_ref,
        or_default_again epa.spec.scale_target_ref.api_version (codes "apps/v1"),
      )
      refl

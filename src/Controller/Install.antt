-- ===== src/Controller/Install.antt =====
-- `install_crd` and `register_api_service` of src/controller/run.rs: what the start of the
-- controller writes for the custom resource definition and for the API service of the metrics. The
-- answers of the API server and the environment are arguments. A replacement that fails is logged
-- and ignored.
use external_pod_autoscaler.Prelude.{
  ℕ, ◌≡◌, refl, Bool, false, List, [], ◌∷◌, ◌++◌, Option, none, some, if◌then◌else◌,
}
use external_pod_autoscaler.Text.{Text, codes}

-- The answer to `get`; `absent` is the status 404.
pub data Fetched (A : Type 0) : Type 0 where
  existing : A → Fetched A
  absent : Fetched A
  failing : Fetched A

pub data Write (A : Type 0) : Type 0 where
  replace : (name : Text) → A → Write A
  create : A → Write A

-- `Ok(())`, or the error with which the controller ends.
pub data Installed : Type 0 where
  installed : Installed
  failed : Installed

-- The part of the definition that the code reads and changes; `schema` is the rest.
pub record Crd : Type 0 where
  pub name : Option Text
  pub resource_version : Option Text
  pub schema : Text

abbrev pub install_named :
    Text → Crd → Fetched Crd → (created : Bool) → List (Write Crd) × Installed
install_named crd_name crd (existing found) created =
    (replace crd_name (record crd { resource_version = found.resource_version }) ∷ [], installed)
install_named crd_name crd absent created = (create crd ∷ [], if created then installed else failed)
install_named crd_name crd failing created =
    (create crd ∷ [], if created then installed else failed)

-- Any error of `get` counts as absence.
unfoldable pub install_crd :
    Crd → (Text → Fetched Crd) → (created : Bool) → List (Write Crd) × Installed
install_crd crd get created = elim crd.name [
  | none ↦ ([], failed)
  | some crd_name ↦ install_named crd_name crd (get crd_name) created
]

pub record ServiceReference : Type 0 where
  pub name : Option Text
  pub namespace : Option Text
  pub port : Option ℕ

pub record ApiServiceSpec : Type 0 where
  pub service : Option ServiceReference
  pub group : Option Text
  pub version : Option Text
  pub insecure_skip_tls_verify : Option Bool
  pub group_priority_minimum : ℕ
  pub version_priority : ℕ
  pub ca_bundle : Option Text

pub record ApiService : Type 0 where
  pub name : Option Text
  pub resource_version : Option Text
  pub annotations : List (Text × Text)
  pub spec : Option ApiServiceSpec

-- `SERVICE_NAMESPACE`, `SERVICE_NAME` and `CERT_NAME`.
pub record Environment : Type 0 where
  pub service_namespace : Option Text
  pub service_name : Option Text
  pub cert_name : Option Text

abbrev pub or_text : Option Text → Text → Text
or_text none default = default
or_text (some s) default = s

abbrev pub api_service_name : Text
api_service_name = codes "v1beta1.external.metrics.k8s.io"

abbrev pub api_service_spec : Environment → (ca_bundle : Option Text) → ApiServiceSpec
api_service_spec env ca_bundle = record {
  service = some (record {
    name = some (or_text env.service_name (codes "epa-webhook"));
    namespace = some (or_text env.service_namespace (codes "epa-system"));
    port = some 443;
  });
  group = some (codes "external.metrics.k8s.io");
  version = some (codes "v1beta1");
  insecure_skip_tls_verify = some false;
  group_priority_minimum = 100;
  version_priority = 100;
  ca_bundle = ca_bundle;
}

unfoldable pub api_service : Environment → (resource_version ca_bundle : Option Text) → ApiService
api_service env resource_version ca_bundle = record {
  name = some api_service_name;
  resource_version = resource_version;
  annotations =
      (
        codes "cert-manager.io/inject-ca-from",
        or_text env.service_namespace (codes "epa-system")
            ++ b'/' ∷ or_text env.cert_name (codes "epa-webhook-cert"),
      )
      ∷ [];
  spec = some (api_service_spec env ca_bundle);
}

abbrev pub bundle_of : Option ApiServiceSpec → Option Text
bundle_of none = none
bundle_of (some spec) = spec.ca_bundle

-- The version and the bundle of the object that is there are kept.
unfoldable pub register_api_service :
    Environment → Fetched ApiService → (created : Bool) → List (Write ApiService) × Installed
register_api_service env (existing found) created = (
  replace api_service_name (api_service env found.resource_version (bundle_of found.spec)) ∷ [],
  installed,
)
register_api_service env absent created =
    (create (api_service env none none) ∷ [], if created then installed else failed)
register_api_service env failing created = ([], failed)

-- A restart changes nothing: over an object that an earlier start wrote in the same environment,
-- whatever version the server and whatever bundle cert-manager have given it since, the start
-- writes that very object.
pub register_api_service_again :
    (env : Environment) (resource_version ca_bundle : Option Text) (created : Bool)
    → let written = api_service env resource_version ca_bundle in
      register_api_service env (existing written) created
      ≡ (replace api_service_name written ∷ [], installed)
unfolding register_api_service api_service
register_api_service_again env resource_version ca_bundle created = refl

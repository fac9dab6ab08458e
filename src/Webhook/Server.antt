-- ===== src/Webhook/Server.antt =====
-- The routes of the HTTPS server, `build_router` of src/webhook/server.rs, and those of the health
-- listener, `router` of src/health/server.rs. How a request is matched with a route belongs to the
-- library axum, which refuses a table in which a path stands twice.
use external_pod_autoscaler.Prelude.{
  refl, Bool, true, false, List, [], ◌∷◌, ◌++◌, map, if◌then◌else◌,
}
use external_pod_autoscaler.Text.{Text, codes, text_Eq}
use external_pod_autoscaler.Assoc.{Nodup}
use external_pod_autoscaler.Process.Environment.{Environment, enable_webhooks}

pub data Method : Type 0 where
  get post : Method

pub data Endpoint : Type 0 where
  resource_list external_metric validate mutate metrics_page healthz readyz : Endpoint

pub record Route : Type 0 where
  pub path : Text
  pub method : Method
  pub endpoint : Endpoint

abbrev pub metrics_api : Text
metrics_api = codes "/apis/external.metrics.k8s.io/v1beta1"

abbrev pub metrics_routes : List Route
metrics_routes =
    record { path = metrics_api; method = get; endpoint = resource_list }
    ∷ record {
      path = metrics_api ++ codes "/namespaces/:namespace/:metric_name";
      method = get;
      endpoint = external_metric;
    }
    ∷ []

abbrev pub admission_routes : List Route
admission_routes =
    record {
      path = codes "/validate-ctx-sh-v1beta1-externalpodautoscaler";
      method = post;
      endpoint = validate;
    }
    ∷ record {
      path = codes "/mutate-ctx-sh-v1beta1-externalpodautoscaler";
      method = post;
      endpoint = mutate;
    }
    ∷ []

unfoldable pub build_router : (enable_webhooks : Bool) → List Route
build_router enable_webhooks =
    if enable_webhooks then metrics_routes ++ admission_routes else metrics_routes

-- What the health listener serves.
unfoldable pub health_router : List Route
health_router =
    record { path = codes "/metrics"; method = get; endpoint = metrics_page }
    ∷ record { path = codes "/healthz"; method = get; endpoint = healthz }
    ∷ record { path = codes "/readyz"; method = get; endpoint = readyz }
    ∷ []

-- `WebhookServer::run` builds the table that the environment asks for.
unfoldable pub routes_of : Environment → List Route
unfolding build_router
routes_of env = build_router (enable_webhooks env)

abbrev pub paths : List Route → List Text
paths routes = map (λ (route : Route). route.path) routes

-- The server can always be built.
pub build_router-Nodup : (enable_webhooks : Bool) → Nodup (paths (build_router enable_webhooks))
unfolding build_router
build_router-Nodup true = (refl, (refl, (refl, (refl, tt))))
build_router-Nodup false = (refl, (refl, tt))

health_router-Nodup : Nodup (paths health_router)
unfolding health_router
health_router-Nodup = (refl, (refl, (refl, tt)))

-- ===== src/Webhook/Metrics/Name.antt =====
-- `parse_external_metric_name` of src/webhook/metrics/handlers.rs, against the name that
-- `build_hpa_spec` of src/controller/externalpodautoscaler/reconcile.rs puts into the HPA.
use external_pod_autoscaler.Prelude.{
  ◌≡◌, ◌≢◌, refl, false, ◌||◌, [], ◌∷◌, ◌++◌, Option, none, some, arith, inl, inr, if◌then◌else◌,
  ap, sym, ◌∙◌, is_empty, Option-cases,
}
use external_pod_autoscaler.Text.{Text, contains_char, rsplit_once, strip_suffix}
use external_pod_autoscaler.Text.Laws.{
  rsplit_once-append, rsplit_once_sound, strip_suffix-append, strip_suffix_sound,
}

-- `ApiError`; the message of a response is left out where it only repeats the request.
pub data ApiError : Type 0 where
  not_found bad_request internal_error metric_unavailable : ApiError

pub data ApiResult {ℓ} (A : Type ℓ) : Type ℓ where
  ok : A → ApiResult A
  err : ApiError → ApiResult A

-- What stands in front of the namespace suffix: `ends_with` and the slice.
abbrev parse_prefix :
    (url_namespace actual_metric : Text) → Option Text → ApiResult (Text × Text × Text)
parse_prefix url_namespace actual_metric none = err bad_request
parse_prefix url_namespace actual_metric (some epa_name) =
    if is_empty epa_name || is_empty actual_metric
    then err bad_request
    else ok (epa_name, url_namespace, actual_metric)

unfoldable pub parse_external_metric_name :
    (url_namespace metric_name : Text) → ApiResult (Text × Text × Text)
parse_external_metric_name url_namespace metric_name = elim (rsplit_once metric_name b'-') [
  | none ↦ err bad_request
  | some (before, actual_metric) ↦
      parse_prefix url_namespace actual_metric (strip_suffix before (b'-' ∷ url_namespace))
]

-- `format!("{name}-{namespace}-{}", metric_spec.metric_name)`.
unfoldable pub external_metric_name : (name namespace metric_name : Text) → Text
external_metric_name name namespace metric_name = (name ++ b'-' ∷ namespace) ++ b'-' ∷ metric_name

not_empty : (s : Text) → s ≢ [] → is_empty s ≡ false
not_empty [] h = absurd (h refl)
not_empty (a ∷ s) h = refl

empty_of_eq : (s : Text) → is_empty s ≡ false → s ≢ []
empty_of_eq s h e = cc (ap is_empty e)

-- The handler reads back what the controller wrote: the external metric name of an autoscaler, in
-- its own namespace, parses to the autoscaler's name, its namespace and the metric, provided that
-- the first and the last are not empty and the metric name has no hyphen. Hyphens in the name and
-- in the namespace do no harm.
pub parse-external_metric_name :
    (name namespace metric_name : Text)
    → name ≢ []
    → metric_name ≢ []
    → contains_char metric_name b'-' ≡ false
    → parse_external_metric_name namespace (external_metric_name name namespace metric_name)
      ≡ ok (name, namespace, metric_name)
unfolding parse_external_metric_name external_metric_name
parse-external_metric_name name namespace metric_name n m h = ground (
  arith,
  rsplit_once-append (name ++ b'-' ∷ namespace) metric_name b'-' h,
  strip_suffix-append name (b'-' ∷ namespace),
  not_empty name n,
  not_empty metric_name m,
)

-- What the handler accepts is such a name and no other: the name parsed is the external metric
-- name of the parts, the namespace is that of the request, no part that must not be empty is, and
-- the metric has no hyphen.
pub parse_external_metric_name_sound :
    (url_namespace metric_name epa_name epa_namespace actual_metric : Text)
    → parse_external_metric_name url_namespace metric_name
      ≡ ok (epa_name, epa_namespace, actual_metric)
    → (metric_name ≡ external_metric_name epa_name epa_namespace actual_metric)
      × (epa_namespace ≡ url_namespace)
      × (epa_name ≢ [])
      × (actual_metric ≢ [])
      × (contains_char actual_metric b'-' ≡ false)
unfolding parse_external_metric_name external_metric_name
parse_external_metric_name_sound url_namespace metric_name epa_name epa_namespace actual_metric h =
    elim (Option-cases (rsplit_once metric_name b'-')) [
      | inl e ↦ ground arith
      | inr (parts, e) ↦ elim (Option-cases (strip_suffix parts.0 (b'-' ∷ url_namespace))) [
        | inl f ↦ ground arith
        | inr (q, f) ↦
            let (whole, clean) = rsplit_once_sound metric_name parts.0 parts.1 b'-' e in
            let cut = strip_suffix_sound parts.0 (b'-' ∷ url_namespace) q f in
            let known : (q ≡ epa_name)
                × (url_namespace ≡ epa_namespace)
                × (parts.1 ≡ actual_metric)
                × (is_empty q ≡ false)
                × (is_empty parts.1 ≡ false) =
              ground arith in
            (
              cc (whole, cut, known.0, known.1, known.2),
              sym known.1,
              empty_of_eq epa_name (ap is_empty (sym known.0) ∙ known.3),
              empty_of_eq actual_metric (ap is_empty (sym known.2) ∙ known.4),
              ap (λ s. contains_char s b'-') (sym known.2) ∙ clean,
            )
      ]
    ]

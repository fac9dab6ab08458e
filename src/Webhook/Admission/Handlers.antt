-- ===== src/Webhook/Admission/Handlers.antt =====
-- `validate_epa` and `mutate_epa` of src/webhook/admission/handlers.rs, with `generate_patch`.
-- The libraries for JSON, for patches and for base64 are parameters, `Json`. Kinds, resources and
-- operation of the request are left out: the handlers do not read them.
use external_pod_autoscaler.Prelude.{
  ℕ, ◌≡◌, ◌↔◌, ◌⊎◌, refl, Bool, true, false, ◌++◌, Option, none, some, if◌then◌else◌, arith, inl,
  inr,
}
use external_pod_autoscaler.Text.{Text, codes, is_some}
use external_pod_autoscaler.Float.{F64}
use external_pod_autoscaler.Api.{ExternalPodAutoscaler}
use external_pod_autoscaler.Webhook.Admission.{
  Checked, passed, rejected, panicked, validate_epa_spec, apply_defaults,
}
use external_pod_autoscaler.Webhook.Admission.Defaults.{apply_defaults_again}

pub data Parsed (A : Type 0) : Type 0 where
  value : A → Parsed A
  failed : Text → Parsed A

-- `serde_json`, `json_patch` and `base64`.
pub record Json : Type 1 where
  pub Value : Type 0
  pub Patch : Type 0
  pub from_value : Value → Parsed ExternalPodAutoscaler
  pub to_value : ExternalPodAutoscaler → Parsed Value
  pub diff : Value → Value → Patch
  pub patch_is_empty : Patch → Bool
  pub patch_to_string : Patch → Option Text
  pub encode : Text → Text

pub record StatusDetails : Type 0 where
  pub code : ℕ
  pub message : Text

pub record AdmissionResponse : Type 0 where
  pub uid : Text
  pub allowed : Bool
  pub status : Option StatusDetails
  pub patch : Option Text
  pub patch_type : Option Text

pub record AdmissionRequest (Value : Type 0) : Type 0 where
  pub uid : Text
  pub object : Option Value

pub record AdmissionReview (Value : Type 0) : Type 0 where
  pub api_version : Text
  pub kind : Text
  pub request : Option (AdmissionRequest Value)
  pub response : Option AdmissionResponse

-- The outcome of a handler: a review, an `AdmissionError`, or a panic.
pub data Outcome (Value : Type 0) : Type 0 where
  review : AdmissionReview Value → Outcome Value
  bad_request internal_error : Text → Outcome Value
  aborted : Outcome Value

abbrev pub respond : {Value : Type 0} → AdmissionResponse → Outcome Value
respond response = review record {
  api_version = codes "admission.k8s.io/v1";
  kind = codes "AdmissionReview";
  request = none;
  response = some response;
}

abbrev pub allow : Text → AdmissionResponse
allow uid = record { uid = uid; allowed = true; status = none; patch = none; patch_type = none }

abbrev pub deny : Text → Text → AdmissionResponse
deny uid message = record {
  uid = uid;
  allowed = false;
  status = some record { code = 400; message = message };
  patch = none;
  patch_type = none;
}

abbrev pub allow_with : Text → Option Text → AdmissionResponse
allow_with uid patch = record {
  uid = uid;
  allowed = true;
  status = none;
  patch = patch;
  patch_type = if is_some patch then some (codes "JSONPatch") else none;
}

abbrev pub answer_check : {Value : Type 0} → Text → Checked → Outcome Value
answer_check uid passed = respond (allow uid)
answer_check uid (rejected message) = respond (deny uid message)
answer_check uid panicked = aborted

module _ (f64 : F64) (parse_error : Text → Text) (json : Json) where
  open json use {Value}

  unfoldable pub validate_epa : AdmissionReview Value → Outcome Value
  validate_epa incoming = elim incoming.request [
    | none ↦ bad_request (codes "Missing request in AdmissionReview")
    | some request ↦ elim request.object [
      | none ↦ respond (allow request.uid)
      | some obj ↦ elim (json.from_value obj) [
        | failed e ↦ bad_request (codes "Failed to parse EPA object: " ++ e)
        | value epa ↦ answer_check request.uid (validate_epa_spec f64 parse_error epa)
      ]
    ]
  ]

module _ (json : Json) where
  open json use {Value}

  unfoldable pub generate_patch : (original modified : Value) → Option Text
  generate_patch original modified =
      let patch = json.diff original modified in
      if json.patch_is_empty patch then none else elim (json.patch_to_string patch) [
        | none ↦ none
        | some patch_json ↦ some (json.encode patch_json)
      ]

  unfoldable pub mutate_epa : AdmissionReview Value → Outcome Value
  mutate_epa incoming = elim incoming.request [
    | none ↦ bad_request (codes "Missing request in AdmissionReview")
    | some request ↦ elim request.object [
      | none ↦ respond (allow request.uid)
      | some original_obj ↦ elim (json.from_value original_obj) [
        | failed e ↦ bad_request (codes "Failed to parse EPA object: " ++ e)
        | value epa ↦ elim (json.to_value (apply_defaults epa)) [
          | failed e ↦ internal_error (codes "Failed to serialize EPA: " ++ e)
          | value modified_obj ↦
              respond (allow_with request.uid (generate_patch original_obj modified_obj))
        ]
      ]
    ]
  ]

-- What the libraries document: an object reads back as it was written, and a value does not
-- differ from itself.
pub record RoundTrips (json : Json) : Type 0 where
  pub from_value-to_value :
      (epa : ExternalPodAutoscaler) (v : json.Value)
      → json.to_value epa ≡ value v
      → json.from_value v ≡ value epa
  pub diff_self : (v : json.Value) → json.patch_is_empty (json.diff v v) ≡ true

abbrev pub request_of : {Value : Type 0} → Text → Value → AdmissionReview Value
request_of uid object = record {
  api_version = codes "admission.k8s.io/v1";
  kind = codes "AdmissionReview";
  request = some record { uid = uid; object = some object };
  response = none;
}

-- The mutating webhook settles: an object that its defaults were written into is let through
-- without a patch.
pub mutate_epa_settles :
    (json : Json) (laws : RoundTrips json) (uid : Text) (epa : ExternalPodAutoscaler)
    (object : json.Value)
    → json.to_value (apply_defaults epa) ≡ value object
    → mutate_epa json (request_of uid object) ≡ respond (allow uid)
unfolding mutate_epa generate_patch
mutate_epa_settles json laws uid epa object written =
    rw
      (
        laws.from_value-to_value (apply_defaults epa) object written,
        apply_defaults_again epa,
        written,
        laws.diff_self object,
      )
      refl

Parsed-cases :
    {A : Type 0} (p : Parsed A)
    → ((a : A) × (p ≡ value a)) ⊎ ((message : Text) × (p ≡ failed message))
Parsed-cases (value a) = inl (a, refl)
Parsed-cases (failed message) = inr (message, refl)

allowed :
    {Value : Type 0} (uid : Text) (c : Checked)
    → answer_check {Value = Value} uid c ≡ respond (allow uid)
    → c ≡ passed
allowed uid passed h = refl
allowed uid (rejected message) h = ground arith
allowed uid panicked h = ground arith

-- The validating webhook allows the creation or the change of an object exactly if the object can
-- be read and its specification passes the checks.
pub validate_epa_allows :
    (f64 : F64) (parse_error : Text → Text) (json : Json) (uid : Text) (object : json.Value)
    → (validate_epa f64 parse_error json (request_of uid object) ≡ respond (allow uid)) ↔ (
        (epa : ExternalPodAutoscaler) × (json.from_value object ≡ value epa)
        × (validate_epa_spec f64 parse_error epa ≡ passed))
unfolding validate_epa
validate_epa_allows f64 parse_error json uid object = (
  λ h. elim (Parsed-cases (json.from_value object)) [
    | inl (epa, e) ↦
        let answered : answer_check {Value = json.Value} uid (validate_epa_spec f64 parse_error epa)
            ≡ respond (allow uid) =
          ground arith in
        (epa, e, allowed uid (validate_epa_spec f64 parse_error epa) answered)
    | inr (message, e) ↦ ground arith
  ],
  λ (epa, e, p). rw (e, validate_epa, p) refl,
)

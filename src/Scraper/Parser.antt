-- ===== src/Scraper/Parser.antt =====
-- src/scraper/parser.rs: the text format of Prometheus. The labels of a series are an association
-- list in which the latest entry of a key stands. A slice that starts behind its end is a panic.
pub mod Printed
pub mod Labels
pub mod Lines
pub mod RoundTrip
use external_pod_autoscaler.Prelude.{
  ℕ, ◌+◌, Bool, List, [], ◌∷◌, Option, none, some, if◌then◌else◌, ◌==◌, nat_eq, leb, length,
  is_empty, drop,
}
use external_pod_autoscaler.Text.{
  Text, codes, text_Eq, split, split_once, rsplit_once, split_whitespace, starts_with, trim,
  trim_matches, strip_suffix,
}
use external_pod_autoscaler.Float.{F64}
use external_pod_autoscaler.Assoc.{insert}
use external_pod_autoscaler.Store.Types.{MetricType, counter, gauge}

pub record PrometheusMetric (Float : Type 0) : Type 0 where
  pub name : Text
  pub value : Float
  pub labels : List (Text × Text)
  pub metric_type : MetricType

pub data ParseError : Type 0 where
  invalid_value : Text → ParseError
  invalid_format : ParseError

pub data Parse {ℓ} (A : Type ℓ) : Type ℓ where
  ok : A → Parse A
  err : ParseError → Parse A
  panic : Parse A

-- `str::lines`: cut at every line feed, without a carriage return in front of it and without an
-- empty last line.
abbrev pub without_return : Text → Text
without_return line = elim (strip_suffix line (13 ∷ [])) [ none ↦ line | some stripped ↦ stripped ]

abbrev pub cut_lines : List Text → List Text
cut_lines [] = []
cut_lines (line ∷ []) = if is_empty line then [] else line ∷ []
cut_lines (line ∷ next ∷ rest) = without_return line ∷ cut_lines (next ∷ rest)

abbrev pub lines : Text → List Text
lines text = cut_lines (split text 10)

abbrev pub is_quote : ℕ → Bool
is_quote c = nat_eq c b'"'

abbrev pub insert_pair : Option (Text × Text) → List (Text × Text) → List (Text × Text)
insert_pair none labels = labels
insert_pair (some (key, v)) labels = insert (trim key) (trim_matches is_quote (trim v)) labels

-- The loop over the pairs, with the labels found so far.
abbrev pub collect_labels : List Text → List (Text × Text) → List (Text × Text)
collect_labels [] labels = labels
collect_labels (pair ∷ pairs) labels =
    collect_labels pairs (insert_pair (split_once (trim pair) b'=') labels)

unfoldable pub parse_labels : Text → List (Text × Text)
parse_labels labels_str =
    if is_empty labels_str then [] else collect_labels (split labels_str b',') []

-- `&metric_part[open_brace + 1..close_brace]`, from what stands before the first open brace and
-- before the last closing brace: a panic where the latter stands in front of the former.
abbrev pub slice_between : (before_open before_close : Text) → Parse Text
slice_between before_open before_close =
    if leb (length before_open + 1) (length before_close)
    then ok (drop (length before_open + 1) before_close)
    else panic

abbrev pub labelled : Text → Parse Text → Parse (Text × List (Text × Text))
labelled name (ok labels_str) = ok (name, parse_labels labels_str)
labelled name (err e) = err e
labelled name panic = panic

-- The name and the labels of a series.
unfoldable pub parse_series : Text → Parse (Text × List (Text × Text))
parse_series metric_part = elim (split_once metric_part b'{') [
  | none ↦ ok (metric_part, [])
  | some (name, _) ↦ elim (rsplit_once metric_part b'}') [
    | none ↦ err invalid_format
    | some (before_close, _) ↦ labelled name (slice_between name before_close)
  ]
]

-- The type that the last TYPE comment gave, if it was about this name.
abbrev pub type_of : Option (Text × MetricType) → Text → MetricType
type_of none name = gauge
type_of (some (type_name, mt)) name = if type_name == name then mt else gauge

abbrev pub metric_type_of : Text → MetricType
metric_type_of type_str =
    if type_str == codes "counter"
    then counter
    else if type_str == codes "gauge"
    then gauge
    else gauge

-- The effect of a line that begins with `# TYPE `.
abbrev pub read_type : Option (Text × MetricType) → List Text → Option (Text × MetricType)
read_type current (hash ∷ keyword ∷ metric_name ∷ type_str ∷ rest) =
    some (metric_name, metric_type_of type_str)
read_type current _ = current

module _ (f64 : F64) where
  open f64 use {Float}

  abbrev pub with_series :
      Float
      → Option (Text × MetricType)
      → Parse (Text × List (Text × Text))
      → Parse (Option (PrometheusMetric Float))
  with_series value current (ok (name, labels)) = ok (
      some
        record { name = name; value = value; labels = labels; metric_type = type_of current name })
  with_series value current (err e) = err e
  with_series value current panic = panic

  abbrev pub parse_fields :
      Option (Text × MetricType) → List Text → Parse (Option (PrometheusMetric Float))
  parse_fields current (metric_part ∷ value_str ∷ rest) = elim (f64.parse value_str) [
    | none ↦ err (invalid_value value_str)
    | some value ↦ with_series value current (parse_series metric_part)
  ]
  parse_fields current _ = ok none

  unfoldable pub parse_metric_line :
      Text → Option (Text × MetricType) → Parse (Option (PrometheusMetric Float))
  parse_metric_line line current = parse_fields current (split_whitespace line)

  abbrev pub push_metric :
      Option (PrometheusMetric Float)
      → Parse (List (PrometheusMetric Float))
      → Parse (List (PrometheusMetric Float))
  push_metric none (ok metrics) = ok metrics
  push_metric (some metric) (ok metrics) = ok (metric ∷ metrics)
  push_metric metric (err e) = err e
  push_metric metric panic = panic

  -- The loop over the lines. The first error or panic ends it, and the lines after it have no
  -- effect.
  unfoldable pub parse_lines :
      List Text → Option (Text × MetricType) → Parse (List (PrometheusMetric Float))
  parse_lines [] current = ok []
  parse_lines (raw ∷ rest) current =
      let line = trim raw in
      let skipped = parse_lines rest current in
      let typed = parse_lines rest (read_type current (split_whitespace line)) in
      if is_empty line
      then skipped
      else if starts_with line (codes "# TYPE ")
      then typed
      else if starts_with line (codes "#")
      then skipped
      else elim (parse_metric_line line current) [
        | err e ↦ err e
        | panic ↦ panic
        | ok metric ↦ push_metric metric skipped
      ]

  unfoldable pub parse_prometheus_text : Text → Parse (List (PrometheusMetric Float))
  parse_prometheus_text text = parse_lines (lines text) none

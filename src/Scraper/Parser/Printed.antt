-- ===== src/Scraper/Parser/Printed.antt =====
-- The text that a client library of Prometheus writes, in the part of the format that the parser is
-- made for: series without white space and without escapes, TYPE lines and HELP lines.
use external_pod_autoscaler.Prelude.{
  ◌≡◌, false, List, [], ◌∷◌, ◌++◌, Option, some, map, is_empty, All,
}
use external_pod_autoscaler.Text.{Text, codes, text_Eq, join, contains_char}
use external_pod_autoscaler.Text.Words.{IsPlain, Lacks}
use external_pod_autoscaler.Assoc.{Unique}
use external_pod_autoscaler.Float.{F64}
use external_pod_autoscaler.Store.Types.{MetricType}
use external_pod_autoscaler.Scraper.Parser.{PrometheusMetric, type_of, metric_type_of, is_quote}

-- `key="value"`.
abbrev pub print_pair : Text × Text → Text
print_pair (key, v) = key ++ b'=' ∷ (b'"' ∷ (v ++ b'"' ∷ []))

abbrev pub print_pairs : List (Text × Text) → Text
print_pairs labels = join (map print_pair labels) (b',' ∷ [])

-- `name` or `name{key="value",...}`.
abbrev pub print_series : Text → List (Text × Text) → Text
print_series name [] = name
print_series name (label ∷ labels) = name ++ b'{' ∷ (print_pairs (label ∷ labels) ++ b'}' ∷ [])

-- A label that stands in the text as it is.
pub record IsCleanLabel (label : Text × Text) : Type 0 where
  pub key_plain : IsPlain label.0
  pub key_no_equals : contains_char label.0 b'=' ≡ false
  pub key_no_comma : contains_char label.0 b',' ≡ false
  pub value_plain : IsPlain label.1
  pub value_no_comma : contains_char label.1 b',' ≡ false
  pub value_no_quote : Lacks is_quote label.1

module _ (f64 : F64) where
  open f64 use {Float}

  -- A series with the text of its value and the value, a TYPE line, and a HELP line.
  pub data Line : Type 0 where
    series : (name : Text) (labels : List (Text × Text)) (text : Text) (value : Float) → Line
    type_line : (name type : Text) → Line
    help_line : Text → Line

  abbrev pub print_line : Line → Text
  print_line (series name labels text value) = print_series name labels ++ b' ' ∷ text
  print_line (type_line name type) = codes "# TYPE " ++ (name ++ b' ' ∷ type)
  print_line (help_line text) = codes "# HELP " ++ text

  abbrev pub print_lines : List Line → Text
  print_lines [] = []
  print_lines (line ∷ lines) = print_line line ++ 10 ∷ print_lines lines

  -- The metrics that the lines stand for. A series has the type of the last TYPE line if that line
  -- is about its name, and else it is a gauge.
  abbrev pub metrics_of : Option (Text × MetricType) → List Line → List (PrometheusMetric Float)
  metrics_of current [] = []
  metrics_of current (series name labels text value ∷ lines) =
      record { name = name; value = value; labels = labels; metric_type = type_of current name }
      ∷ metrics_of current lines
  metrics_of current (type_line name type ∷ lines) =
      metrics_of (some (name, metric_type_of type)) lines
  metrics_of current (help_line text ∷ lines) = metrics_of current lines

  abbrev pub IsWord : Text → Type 0
  IsWord w = IsPlain w × (is_empty w ≡ false)

  pub record IsCleanSeries (name : Text) (labels : List (Text × Text)) (text : Text) (value : Float)
      : Type 0 where
    pub name_word : IsWord name
    pub name_no_brace : contains_char name b'{' ≡ false
    pub name_no_hash : contains_char name b'#' ≡ false
    pub labels_clean : All IsCleanLabel labels
    pub labels_unique : Unique labels
    pub text_word : IsWord text
    pub text_value : f64.parse text ≡ some value

  abbrev pub IsClean : Line → Type 0
  IsClean (series name labels text value) = IsCleanSeries name labels text value
  IsClean (type_line name type) = IsWord name × IsWord type
  IsClean (help_line text) = (contains_char text 10 ≡ false) × (contains_char text 13 ≡ false)

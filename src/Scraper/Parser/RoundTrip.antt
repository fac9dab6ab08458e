-- ===== src/Scraper/Parser/RoundTrip.antt =====
-- What the parser reads from printed lines.
use external_pod_autoscaler.Prelude.{
  ◌≡◌, refl, true, false, List, [], ◌∷◌, ◌++◌, Option, none, some, map, arith, ap, sym, ◌∙◌, All,
  is_empty,
}
use mathlib.Core.List.{append_assoc}
use external_pod_autoscaler.Text.{Text, codes, trim, starts_with, split_whitespace}
use external_pod_autoscaler.Text.Words.{words_from-append, trim_head}
use external_pod_autoscaler.Float.{F64}
use external_pod_autoscaler.Store.Types.{MetricType}
use external_pod_autoscaler.Scraper.Parser.{
  PrometheusMetric, ok, parse_fields, parse_metric_line, push_metric, parse_lines,
  parse_prometheus_text, type_of, metric_type_of, read_type,
}
use external_pod_autoscaler.Scraper.Parser.Printed.{
  print_series, Line, series, type_line, help_line, print_line, print_lines, metrics_of, IsWord,
  IsCleanSeries, IsClean,
}
use external_pod_autoscaler.Scraper.Parser.Labels.{parse_series-print}
use external_pod_autoscaler.Scraper.Parser.Lines.{
  print_series-IsPlain, words_two, trim_two, trim_shape, no_hash, nonempty_series, nonempty_line,
  lines-print,
}

module _ (f64 : F64) where
  open f64 use {Float}

  -- One line at a time.
  parse_lines-nil : (current : Option (Text × MetricType)) → parse_lines f64 [] current ≡ ok []
  unfolding parse_lines
  parse_lines-nil current = refl

  metric_step :
      (w : Text) (rest : List Text) (current : Option (Text × MetricType))
      (m : PrometheusMetric Float)
      → trim w ≡ w
      → is_empty w ≡ false
      → starts_with w (codes "# TYPE ") ≡ false
      → starts_with w (codes "#") ≡ false
      → parse_metric_line f64 w current ≡ ok (some m)
      → parse_lines f64 (w ∷ rest) current ≡ push_metric f64 (some m) (parse_lines f64 rest current)
  unfolding parse_lines
  metric_step w rest current m t e f g h = rw (parse_lines, t, e, f, g, h) refl

  type_step :
      (w : Text) (rest : List Text) (current : Option (Text × MetricType))
      → trim w ≡ w
      → is_empty w ≡ false
      → starts_with w (codes "# TYPE ") ≡ true
      → parse_lines f64 (w ∷ rest) current
        ≡ parse_lines f64 rest (read_type current (split_whitespace w))
  unfolding parse_lines
  type_step w rest current t e f = rw (parse_lines, t, e, f) refl

  comment_step :
      (w : Text) (rest : List Text) (current : Option (Text × MetricType))
      → starts_with (trim w) (codes "# TYPE ") ≡ false
      → starts_with (trim w) (codes "#") ≡ true
      → parse_lines f64 (w ∷ rest) current ≡ parse_lines f64 rest current
  unfolding parse_lines
  comment_step w rest current f g = ground arith

  series_line :
      (name : Text) (labels : List (Text × Text)) (text : Text) (value : Float)
      (current : Option (Text × MetricType))
      → IsCleanSeries f64 name labels text value
      → parse_metric_line f64 (print_line f64 (series name labels text value)) current
        ≡ ok (
            some record {
              name = name;
              value = value;
              labels = labels;
              metric_type = type_of current name;
            })
  unfolding parse_metric_line
  series_line name labels text value current c =
      let plain = print_series-IsPlain name labels c.name_word.0 c.labels_clean in
      ap (parse_fields f64 current) (
        words_two (print_series name labels) text plain (nonempty_series name labels c.name_word.1)
          c.text_word.0 c.text_word.1)
      ∙ rw
          (
            parse_fields,
            c.text_value,
            parse_series-print name labels c.name_no_brace c.labels_clean c.labels_unique,
          )
          refl

  type_words :
      (name type : Text) (current : Option (Text × MetricType))
      → IsWord f64 name
      → IsWord f64 type
      → read_type current (split_whitespace (print_line f64 (type_line name type)))
        ≡ some (name, metric_type_of type)
  type_words name type current n t = ap (read_type current) (
      words_from-append [] (codes "#") (codes "TYPE " ++ (name ++ b' ' ∷ type)) b' ' (refl, tt) refl
      ∙ ap (λ ws. codes "#" ∷ ws)
          (words_from-append [] (codes "TYPE") (name ++ b' ' ∷ type) b' '
              (refl, (refl, (refl, (refl, tt)))) refl
            ∙ ap (λ ws. codes "TYPE" ∷ ws) (words_two name type n.0 n.1 t.0 t.1)))

  type_trimmed :
      (name type : Text)
      → IsWord f64 type
      → trim (print_line f64 (type_line name type)) ≡ print_line f64 (type_line name type)
  type_trimmed name type (t, e) =
      trim_shape (print_line f64 (type_line name type)) b'#' (codes " TYPE " ++ (name ++ b' ' ∷ []))
        type (ap (λ u. codes "# TYPE " ++ u) (sym (append_assoc name (b' ' ∷ []) type))) refl e t

  -- A HELP line stays a comment when its end is trimmed.
  help_trimmed :
      (text : Text)
      → (starts_with (trim (codes "# HELP " ++ text)) (codes "# TYPE ") ≡ false)
        × (starts_with (trim (codes "# HELP " ++ text)) (codes "#") ≡ true)
  help_trimmed text =
      let (r, e) = trim_head b'#' b' ' b'H' (codes "ELP " ++ text) refl refl in
      (ap (λ t. starts_with t (codes "# TYPE ")) e, ap (λ t. starts_with t (codes "#")) e)

  parse_lines-print :
      (ls : List (Line f64)) (current : Option (Text × MetricType))
      → All (IsClean f64) ls
      → parse_lines f64 (map (print_line f64) ls) current ≡ ok (metrics_of f64 current ls)
  parse_lines-print [] current c = parse_lines-nil current
  parse_lines-print (series name labels text value ∷ ls) current (c, cs) =
      let plain = print_series-IsPlain name labels c.name_word.0 c.labels_clean in
      let rest = b' ' ∷ text in
      metric_step (print_line f64 (series name labels text value)) (map (print_line f64) ls) current
        (record { name = name; value = value; labels = labels; metric_type = type_of current name })
        (trim_two (print_series name labels) text plain (nonempty_series name labels c.name_word.1)
          c.text_word.0 c.text_word.1)
        (nonempty_line (print_series name labels) text b' ')
        (no_hash name labels rest (codes " TYPE ") c.name_word.1 c.name_no_hash)
        (no_hash name labels rest [] c.name_word.1 c.name_no_hash)
        (series_line name labels text value current c)
      ∙ ap
          (push_metric f64 (
            some record {
              name = name;
              value = value;
              labels = labels;
              metric_type = type_of current name;
            }))
          (parse_lines-print ls current cs)
  parse_lines-print (type_line name type ∷ ls) current ((n, t), cs) =
      type_step (print_line f64 (type_line name type)) (map (print_line f64) ls) current
        (type_trimmed name type t) refl refl
      ∙ ap (parse_lines f64 (map (print_line f64) ls)) (type_words name type current n t)
      ∙ parse_lines-print ls (some (name, metric_type_of type)) cs
  parse_lines-print (help_line text ∷ ls) current (c, cs) =
      let (f, g) = help_trimmed text in
      comment_step (print_line f64 (help_line text)) (map (print_line f64) ls) current f g
      ∙ parse_lines-print ls current cs

  -- The parser reads back what was printed: for every list of lines whose names, types and values are
  -- words, whose labels are distinct and free of white space, quotes and separators, and whose HELP
  -- texts are free of line ends, the parse succeeds and gives exactly the series of the lines, in
  -- their order, each with its name, its labels, its value and the type that the last TYPE line in
  -- front of it gives if that line is about its name.
  pub parse_prometheus_text-print :
      (ls : List (Line f64))
      → All (IsClean f64) ls
      → parse_prometheus_text f64 (print_lines f64 ls) ≡ ok (metrics_of f64 none ls)
  unfolding parse_prometheus_text
  parse_prometheus_text-print ls c =
      ap (λ t. parse_lines f64 t none) (lines-print f64 ls c) ∙ parse_lines-print ls none c

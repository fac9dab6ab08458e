-- ===== src/Tests/Scraper.antt =====
-- Examples of the scraper.
use external_pod_autoscaler.Prelude.{◌≡◌, ◌↔◌, refl, true, false, [], ◌∷◌, none, some}
use external_pod_autoscaler.Text.{codes}
use external_pod_autoscaler.Store.Types.{counter}
use external_pod_autoscaler.Scraper.Pods.{
  Pod, WorkloadSelector, SelectorResult, pod_matches_selector, parse_label_selector,
  build_label_selector_string,
}
use external_pod_autoscaler.Scraper.Pods
use external_pod_autoscaler.Scraper.Pods.Selection.{
  Carries, asked_labels, pod_matches_selector-build,
}
use external_pod_autoscaler.Scraper.Parser.{
  PrometheusMetric, Parse, parse_prometheus_text, parse_lines, parse_metric_line, parse_series,
  parse_labels,
}
use external_pod_autoscaler.Scraper.Parser
use external_pod_autoscaler.Tests.{fin, floats}

abbrev pub selector : WorkloadSelector
selector = record {
  match_labels = some ((codes "app", codes "web") ∷ []);
  match_expressions = some (
      record { key = codes "tier"; operator = codes "In"; values = some (codes "front" ∷ []) }
      ∷ []);
}

abbrev pod : Pod
pod = record {
  name = codes "web-0";
  namespace = some (codes "ns");
  deletion_timestamp = false;
  labels = some ((codes "app", codes "web") ∷ (codes "tier", codes "front") ∷ []);
  status = none;
}

built : build_label_selector_string selector ≡ Pods.ok (codes "app=web,tier=front")
unfolding build_label_selector_string
built = refl

pod_matches_selector-build_example :
    (pod_matches_selector pod (parse_label_selector (codes "app=web,tier=front")) ≡ true)
    ↔ Carries pod (asked_labels selector)
pod_matches_selector-build_example =
    pod_matches_selector-build pod selector (codes "app=web,tier=front") built
      ((refl, refl, refl, refl, refl, refl), ((refl, refl, refl, refl, refl, refl), tt))

-- The text of a pod with a counter.
one_counter :
    parse_prometheus_text floats (codes "# TYPE hits counter\nhits{path=\"/a\"} 12\n")
    ≡ Parser.ok (
        record {
          name = codes "hits";
          value = fin 12;
          labels = (codes "path", codes "/a") ∷ [];
          metric_type = counter;
        }
        ∷ [])
unfolding parse_prometheus_text parse_lines parse_metric_line parse_series parse_labels
one_counter = refl

-- A brace that is closed before it is opened.
closed_first : parse_prometheus_text floats (codes "}a{ 5") ≡ Parser.panic
unfolding parse_prometheus_text parse_lines parse_metric_line parse_series parse_labels
closed_first = refl

-- A label value with a space ends the parse, for all series of the pod.
space_in_label :
    parse_prometheus_text floats (codes "ok 1\na{x=\"b c\"} 5")
    ≡ Parser.err (Parser.invalid_value (codes "c\"}"))
unfolding parse_prometheus_text parse_lines parse_metric_line parse_series parse_labels
space_in_label = refl

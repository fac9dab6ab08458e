-- ===== src/Tests/Parser.antt =====
-- A printed answer of a pod.
use external_pod_autoscaler.Prelude.{◌≡◌, refl, [], ◌∷◌, none, List, All, arith}
use external_pod_autoscaler.Text.{codes}
use external_pod_autoscaler.Scraper.Parser.{parse_prometheus_text}
use external_pod_autoscaler.Scraper.Parser
use external_pod_autoscaler.Scraper.Parser.Printed.{
  Line, series, type_line, help_line, print_lines, metrics_of, IsCleanLabel, IsCleanSeries, IsClean,
}
use external_pod_autoscaler.Scraper.Parser.RoundTrip.{parse_prometheus_text-print}
use external_pod_autoscaler.Tests.{fin, floats}

abbrev answer : List (Line floats)
answer =
    help_line (codes "Requests so far ")
    ∷ type_line (codes "requests") (codes "counter")
    ∷ series (codes "requests") ((codes "path", codes "/a=b") ∷ (codes "code", []) ∷ [])
        (codes "12") (fin 12)
    ∷ series (codes "up") [] (codes "1") (fin 1)
    ∷ []

printed :
    print_lines floats answer
    ≡ codes
        "# HELP Requests so far \n# TYPE requests counter\nrequests{path=\"/a=b\",code=\"\"} 12\nup 1\n"
printed = refl

path_clean : IsCleanLabel (codes "path", codes "/a=b")
path_clean = record {
  key_plain = ground arith;
  key_no_equals = refl;
  key_no_comma = refl;
  value_plain = ground arith;
  value_no_comma = refl;
  value_no_quote = ground arith;
}

code_clean : IsCleanLabel (codes "code", [])
code_clean = record {
  key_plain = ground arith;
  key_no_equals = refl;
  key_no_comma = refl;
  value_plain = tt;
  value_no_comma = refl;
  value_no_quote = tt;
}

requests_clean :
    IsCleanSeries floats
      (codes "requests")
      ((codes "path", codes "/a=b") ∷ (codes "code", []) ∷ [])
      (codes "12")
      (fin 12)
requests_clean = record {
  name_word = ground arith;
  name_no_brace = refl;
  name_no_hash = refl;
  labels_clean = (path_clean, (code_clean, tt));
  labels_unique = ground arith;
  text_word = ground arith;
  text_value = refl;
}

up_clean : IsCleanSeries floats (codes "up") [] (codes "1") (fin 1)
up_clean = record {
  name_word = ground arith;
  name_no_brace = refl;
  name_no_hash = refl;
  labels_clean = tt;
  labels_unique = tt;
  text_word = ground arith;
  text_value = refl;
}

answer-IsClean : All (IsClean floats) answer
answer-IsClean = ((refl, refl), (ground arith, (requests_clean, (up_clean, tt))))

parse_prometheus_text-print_example :
    parse_prometheus_text floats (print_lines floats answer)
    ≡ Parser.ok (metrics_of floats none answer)
parse_prometheus_text-print_example = parse_prometheus_text-print floats answer answer-IsClean

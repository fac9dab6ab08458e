-- ===== src/Tests/Worker.antt =====
-- Examples of a worker: a pod answers with two series of a metric.
use external_pod_autoscaler.Prelude.{◌≡◌, ℕ, Bool, false, leb, if◌then◌else◌, ◌==◌}
use external_pod_autoscaler.Text.{Text, codes, text_Eq}
use external_pod_autoscaler.Store.Types.{MetricsStore}
use external_pod_autoscaler.Store.Ops.{empty_store}
use external_pod_autoscaler.Scraper.Scheduler.{ScrapeJob}
use external_pod_autoscaler.Scraper.Worker.{Answer, text, scrape_pod_static, do_job}
use external_pod_autoscaler.Scraper.Worker.Scrapes.{Settled, scrape_pod_static_cases}
use external_pod_autoscaler.Scraper.Worker.Counters.{
  stats_of, job_key, counted, survives, scrape_of,
}
use external_pod_autoscaler.Scraper.Worker.Accounts.{do_job_counts}
use external_pod_autoscaler.Tests.{Extended, floats, seconds}
use external_pod_autoscaler.Tests.Controller.{epa}
use external_pod_autoscaler.Tests.Scheduler.{pod, parse_duration}

abbrev fetch : Bool → Text → ℕ → Answer
fetch insecure url timeout = text (codes "qps{path=\"/a\"} 12\nqps{path=\"/b\"} 30\n")

-- Room for a million samples.
abbrev fits : ℕ → Bool
fits max_samples = leb max_samples 1000000

abbrev store : MetricsStore Extended
store = empty_store

scrape_pod_static_cases_example :
    Settled floats fits parse_duration fetch false epa pod 4
      (seconds 3)
      store
      (scrape_pod_static floats fits parse_duration fetch false epa pod 4 (seconds 3) store)
scrape_pod_static_cases_example =
    scrape_pod_static_cases floats fits parse_duration fetch false epa pod 4 (seconds 3) store

abbrev pub job : ScrapeJob
job = record { epa = epa; pod = pod; max_samples = 4; use_insecure_tls = false }

do_job_counts_example :
    let result = scrape_of floats fits parse_duration fetch job (seconds 3) store in
    let after = do_job floats fits parse_duration fetch job (seconds 3) store in
    ((k : Text)
      → stats_of k after.0
        ≡ (if job_key job == k then counted result.1 (stats_of k store) else stats_of k store))
    × (after.1 ≡ survives result.1)
    × (after.0.windows ≡ result.0.windows)
do_job_counts_example = do_job_counts floats fits parse_duration fetch job (seconds 3) store

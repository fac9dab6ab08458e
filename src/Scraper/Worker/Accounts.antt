-- ===== src/Scraper/Worker/Accounts.antt =====
-- What a worker counts.
use external_pod_autoscaler.Prelude.{
  ℕ, ◌≡◌, refl, inl, inr, Bool, true, false, Option, if◌then◌else◌, ◌==◌, ap, sym, ◌∙◌, Bool-cases,
}
use external_pod_autoscaler.Text.{Text, text_Eq, text_beq_iff}
use external_pod_autoscaler.Float.{F64}
use external_pod_autoscaler.Assoc.{lookup}
use external_pod_autoscaler.Store.Types.{ScrapeStats, sample_key_Eq, MetricsStore}
use external_pod_autoscaler.Store.Ops.{get_scrape_stats}
use external_pod_autoscaler.Store.Stats.{record_success, record_error}
use external_pod_autoscaler.Scraper.Scheduler.{ScrapeJob}
use external_pod_autoscaler.Scraper.Worker.{
  Answer, Scraped, done, failed, panicked, or_unnamed, or_no_namespace, record_result, do_job,
}
use external_pod_autoscaler.Scraper.Worker.Counters.{
  or_new, stats_of, job_key, counted, survives, get_scrape_stats_lem, stats_of-get_scrape_stats,
  stats_of-insert, scrape_stats-scrape_pod_static, scrape_of,
}

-- What a worker does to the counters of each key.
record_result_here :
    {Float : Type 0} (key k : Text) (stats : ScrapeStats) (result : MetricsStore Float × Scraped)
    → (key == k) ≡ true
    → stats ≡ stats_of k result.0
    → stats_of k (record_result key stats result).0 ≡ counted result.1 (stats_of k result.0)
record_result_here key k stats (store, done) e h =
    stats_of-insert key k (record_success stats) store ∙ rw (e, h) refl
record_result_here key k stats (store, failed error) e h =
    stats_of-insert key k (record_error stats) store ∙ rw (e, h) refl
record_result_here key k stats (store, panicked) e h = refl

record_result_apart :
    {Float : Type 0} (key k : Text) (stats : ScrapeStats) (result : MetricsStore Float × Scraped)
    → (key == k) ≡ false
    → stats_of k (record_result key stats result).0 ≡ stats_of k result.0
record_result_apart key k stats (store, done) e =
    stats_of-insert key k (record_success stats) store ∙ rw e refl
record_result_apart key k stats (store, failed error) e =
    stats_of-insert key k (record_error stats) store ∙ rw e refl
record_result_apart key k stats (store, panicked) e = refl

record_result_rest :
    {Float : Type 0} (key : Text) (stats : ScrapeStats) (result : MetricsStore Float × Scraped)
    → ((record_result key stats result).1 ≡ survives result.1)
      × ((record_result key stats result).0.windows ≡ result.0.windows)
record_result_rest key stats (store, done) = (refl, refl)
record_result_rest key stats (store, failed error) = (refl, refl)
record_result_rest key stats (store, panicked) = (refl, refl)

module _ (f64 : F64) (fits : ℕ → Bool) (parse_duration : Text → Option ℕ)
    (fetch : (insecure : Bool) → (url : Text) → (timeout : ℕ) → Answer) where
  open f64 use {Float}

  -- A worker counts each scrape once: after a job the counters of the job's EPA have one more
  -- success if the scrape was done, one more error if it failed, and are unchanged if it panicked,
  -- in the parser or because a window could not be made; the counters of every other EPA are as
  -- they were. The worker lives on unless the scrape panicked, and the windows are those that the
  -- scrape left.
  pub do_job_counts :
      (job : ScrapeJob) (scraped_at : ℕ) (store : MetricsStore Float)
      → let result = scrape_of f64 fits parse_duration fetch job scraped_at store in
        let after = do_job f64 fits parse_duration fetch job scraped_at store in
        ((k : Text)
          → stats_of k after.0
            ≡ (if job_key job == k then counted result.1 (stats_of k store) else stats_of k store))
        × (after.1 ≡ survives result.1)
        × (after.0.windows ≡ result.0.windows)
  unfolding do_job
  do_job_counts job scraped_at store =
      let namespace = or_no_namespace job.epa.metadata.namespace in
      let epa_name = or_unnamed job.epa.metadata.name in
      let prepared = get_scrape_stats namespace epa_name store in
      let result = scrape_of f64 fits parse_duration fetch job scraped_at store in
      let kept : (k : Text) → stats_of k result.0 ≡ stats_of k store = λ k.
        ap (λ stats. or_new (lookup k stats))
          (scrape_stats-scrape_pod_static f64 fits parse_duration fetch job.use_insecure_tls job.epa
            job.pod job.max_samples scraped_at prepared.1)
        ∙ stats_of-get_scrape_stats namespace epa_name store k in
      let own : prepared.0 ≡ stats_of (job_key job) store =
        get_scrape_stats_lem namespace epa_name store in
      (
        λ k. elim (Bool-cases (job_key job == k)) [
          | inr e ↦ record_result_apart (job_key job) k prepared.0 result e ∙ kept k ∙ rw e refl
          | inl e ↦
              record_result_here (job_key job) k prepared.0 result e (
                own
                ∙ ap (λ i. stats_of i store) ((text_beq_iff (job_key job) k).0 e)
                ∙ sym (kept k))
              ∙ ap (counted result.1) (kept k)
              ∙ rw e refl
        ],
        (record_result_rest (job_key job) prepared.0 result).0,
        (record_result_rest (job_key job) prepared.0 result).1,
      )

-- ===== src/Scraper/Scheduler/Status.antt =====
-- What the status patches report of the scrape statistics.
use external_pod_autoscaler.Prelude.{
  ℕ, ◌<◌, ◌^◌, ◌≡◌, ◌⊎◌, refl, inl, inr, Bool, false, ◌||◌, ◌∷◌, ◌==◌, arith, ap, sym, ◌∙◌,
  Bool-cases,
}
use mathlib.Core.Path.{subst}
use external_pod_autoscaler.Text.{Text, text_Eq, text_beq_refl}
use external_pod_autoscaler.Assoc.{insert}
use external_pod_autoscaler.Store.Types.{ScrapeStats, MetricsStore}
use external_pod_autoscaler.Store.Ops.{stats_key, get_scrape_stats}
use external_pod_autoscaler.Store.Stats.{
  snapshot_and_reset, restore, restore-snapshot_and_reset, IsI32,
}
use external_pod_autoscaler.Store.Stats
use external_pod_autoscaler.Scraper.Scheduler.{Scheduler, is_positive, report_stats}
use external_pod_autoscaler.Scraper.Worker.Counters.{
  stats_of, get_scrape_stats_lem, stats_of-get_scrape_stats, stats_of-insert,
}

-- Counters that have not grown past the largest `i32`.
pub record IsCount (s : ScrapeStats) : Type 0 where
  pub scraped_count : s.scraped < 2 ^ 31
  pub errors_count : s.errors < 2 ^ 31

module _ {Float : Type 0} (namespace name : Text) (patched : Bool) (s : Scheduler Float) where
  abbrev counts : ScrapeStats
  counts = stats_of (stats_key namespace name) s.metrics_store

  abbrev after : Scheduler Float
  after = report_stats namespace name patched s

  abbrev prepared : ScrapeStats × MetricsStore Float
  prepared = get_scrape_stats namespace name s.metrics_store

  -- The counters, written back.
  abbrev put : ScrapeStats → MetricsStore Float
  put stats = record prepared.1 {
    scrape_stats = insert (stats_key namespace name) stats prepared.1.scrape_stats;
  }

  put_here : (stats : ScrapeStats) → stats_of (stats_key namespace name) (put stats) ≡ stats
  put_here stats =
      stats_of-insert (stats_key namespace name) (stats_key namespace name) stats prepared.1
      ∙ rw (text_beq_refl (stats_key namespace name)) refl

  put_apart :
      (stats : ScrapeStats) (k : Text)
      → (stats_key namespace name == k) ≡ false
      → stats_of k (put stats) ≡ stats_of k s.metrics_store
  put_apart stats k e =
      stats_of-insert (stats_key namespace name) k stats prepared.1
      ∙ rw e (stats_of-get_scrape_stats namespace name s.metrics_store k)

  own : prepared.0 ≡ counts
  own = get_scrape_stats_lem namespace name s.metrics_store

  -- Counters of which nothing is to be reported.
  nothing :
      (c : ScrapeStats)
      → IsCount c
      → (is_positive c.scraped || is_positive c.errors) ≡ false
      → Stats.new ≡ c
  nothing c small e = ground arith

  restored : (c : ScrapeStats) → IsCount c → restore c.scraped c.errors Stats.new ≡ c
  unfolding restore
  restored c small = ground arith

  abbrev pub Settles : Scheduler Float → Type 0
  Settles after =
      ((after.reported ≡ (stats_key namespace name, (counts.scraped, counts.errors)) ∷ s.reported)
          × (stats_of (stats_key namespace name) after.metrics_store ≡ Stats.new)
        ⊎ (after.reported ≡ s.reported)
          × (stats_of (stats_key namespace name) after.metrics_store ≡ counts))
      × ((k : Text)
          → (stats_key namespace name == k) ≡ false
          → stats_of k after.metrics_store ≡ stats_of k s.metrics_store)

  quiet :
      IsCount counts
      → (is_positive counts.scraped || is_positive counts.errors) ≡ false
      → Settles (record s { metrics_store = put Stats.new })
  quiet small e = (inr (refl, put_here Stats.new ∙ nothing counts small e), put_apart Stats.new)

  reports :
      (scraped errors : ℕ)
      → scraped ≡ counts.scraped
      → errors ≡ counts.errors
      → Settles (record s {
        metrics_store = put Stats.new;
        reported = (stats_key namespace name, (scraped, errors)) ∷ s.reported;
      })
  reports scraped errors p q = (
    inl (ap (λ c. (stats_key namespace name, c) ∷ s.reported) (rw (p, q) refl), put_here Stats.new),
    put_apart Stats.new,
  )

  puts_back :
      (c : ScrapeStats)
      → IsCount c
      → c ≡ counts
      → Settles (record s { metrics_store = put (restore c.scraped c.errors Stats.new) })
  puts_back c small p =
      let stats = restore c.scraped c.errors Stats.new in
      (inr (refl, put_here stats ∙ restored c small ∙ p), put_apart stats)

  -- No count is lost and none is reported twice: where the counters fit an `i32`, a report either
  -- shows what they held and sets them to zero, or it shows nothing and they hold what they held.
  -- The counters of every other EPA are as they were.
  pub report_stats-Settles : IsCount counts → Settles after
  unfolding report_stats snapshot_and_reset
  report_stats-Settles small =
      let counted : IsCount prepared.0 = subst IsCount (sym own) small in
      elim (Bool-cases (is_positive prepared.0.scraped || is_positive prepared.0.errors)) [
        | inr e ↦ rw (e, report_stats) (quiet small (rw (sym own) e))
        | inl e ↦ elim (Bool-cases patched) [
          | inl f ↦
              rw (e, f, report_stats)
                (reports prepared.0.scraped prepared.0.errors (ap (λ c. c.scraped) own)
                  (ap (λ c. c.errors) own))
          | inr f ↦ rw (e, f, report_stats) (puts_back prepared.0 counted own)
        ]
      ]

-- ===== src/Store/Stats.antt =====
-- `ScrapeStats` of src/store/types.rs: two atomic counters that the workers raise and the scheduler
-- takes and, where the status patch fails, puts back.
use external_pod_autoscaler.Prelude.{
  ℕ, ◌+◌, ◌%◌, ◌^◌, ◌≡◌, ◌<◌, refl, ap, ◌∙◌, List, [], ◌∷◌, arith,
}
use external_pod_autoscaler.Store.Types.{ScrapeStats}

-- `fetch_add` on an `AtomicI32`, which wraps around.
abbrev pub wrapping_add : ℕ → ℕ → ℕ
wrapping_add a b = (a + b) % 2 ^ 32

abbrev pub new : ScrapeStats
new = record { scraped = 0; errors = 0 }

unfoldable pub record_success : ScrapeStats → ScrapeStats
record_success s = record s { scraped = wrapping_add s.scraped 1 }

unfoldable pub record_error : ScrapeStats → ScrapeStats
record_error s = record s { errors = wrapping_add s.errors 1 }

unfoldable pub snapshot_and_reset : ScrapeStats → (ℕ × ℕ) × ScrapeStats
snapshot_and_reset s = ((s.scraped, s.errors), new)

unfoldable pub restore : ℕ → ℕ → ScrapeStats → ScrapeStats
restore scraped errors s = record {
  scraped = wrapping_add s.scraped scraped;
  errors = wrapping_add s.errors errors;
}

-- What a worker records after a scrape.
pub data Scrape : Type 0 where
  success error : Scrape

abbrev pub record_scrape : Scrape → ScrapeStats → ScrapeStats
record_scrape success s = record_success s
record_scrape error s = record_error s

abbrev pub record_all : List Scrape → ScrapeStats → ScrapeStats
record_all [] s = s
record_all (x ∷ xs) s = record_all xs (record_scrape x s)

pub record IsI32 (s : ScrapeStats) : Type 0 where
  pub scraped_word : s.scraped < 2 ^ 32
  pub errors_word : s.errors < 2 ^ 32

restore-record_scrape :
    (a b : ℕ) (x : Scrape) (s : ScrapeStats)
    → restore a b (record_scrape x s) ≡ record_scrape x (restore a b s)
unfolding restore record_success record_error
restore-record_scrape a b success s = ground arith
restore-record_scrape a b error s = ground arith

restore-record_all :
    (a b : ℕ) (xs : List Scrape) (s : ScrapeStats)
    → restore a b (record_all xs s) ≡ record_all xs (restore a b s)
restore-record_all a b [] s = refl
restore-record_all a b (x ∷ xs) s =
    restore-record_all a b xs (record_scrape x s)
    ∙ ap (record_all xs) (restore-record_scrape a b x s)

restore-new : (s : ScrapeStats) → IsI32 s → restore s.scraped s.errors new ≡ s
unfolding restore
restore-new s v = ground arith

-- A failed status patch loses no count: what is taken before the patch and put back after it,
-- with scrapes recorded in between, leaves the counters as if they had never been taken, also
-- where they wrap around.
pub restore-snapshot_and_reset :
    (xs : List Scrape) (s : ScrapeStats)
    → IsI32 s
    → let ((scraped, errors), taken) = snapshot_and_reset s in
      restore scraped errors (record_all xs taken) ≡ record_all xs s
unfolding snapshot_and_reset
restore-snapshot_and_reset xs s v =
    restore-record_all s.scraped s.errors xs new ∙ ap (record_all xs) (restore-new s v)

-- ===== src/Scraper/Scheduler/Sizes.antt =====
-- How many samples a window is asked to hold.
use external_pod_autoscaler.Prelude.{ℕ, zero, suc, ◌+◌, ◌-◌, ◌*◌, ◌/◌, ◌≤◌, ◌<◌, arith}
use native.Mathlib.Nat.{lt-div-mul-add, div-lt_iff_lt-mul, mul-le-mul_right}
use external_pod_autoscaler.Scraper.Scheduler.{at_least_one, div_ceil, as_secs, max_samples_of}

at_least_one_pos : (n : ℕ) → 0 < at_least_one n
at_least_one_pos zero = omega arith
at_least_one_pos (suc n) = omega arith

at_least_one_le : (n : ℕ) → n ≤ at_least_one n
at_least_one_le zero = omega arith
at_least_one_le (suc n) = omega arith

div_ceil_covers : (a b : ℕ) → 0 < b → a ≤ div_ceil a b * b
div_ceil_covers a b h =
    let total = a + b - 1 in let bound : total < total / b * b + b = lt-div-mul-add h in omega arith

div_ceil_least : (a b m : ℕ) → 0 < b → a ≤ m * b → div_ceil a b ≤ m
div_ceil_least a b m h le =
    let total = a + b - 1 in
    let next = m + 1 in
    let enough : total < next * b = omega arith in
    let below : total / b < next = (div-lt_iff_lt-mul h).1 enough in omega arith

at_least_one_least : (n m : ℕ) → 0 < m → n ≤ m → at_least_one n ≤ m
at_least_one_least zero m h le = omega arith
at_least_one_least (suc n) m h le = le

-- A window is asked to hold as many samples as the evaluation period has intervals: one at least,
-- enough that as many intervals, each counted in whole seconds and as one second at least, last as
-- long as the evaluation period, counted in whole seconds, and no more than needed for that.
pub max_samples_of_covers :
    (evaluation_period interval : ℕ)
    → let step = at_least_one (as_secs interval) in
      let size = max_samples_of evaluation_period interval in
      (0 < size)
      × (as_secs evaluation_period ≤ size * step)
      × ((m : ℕ) → 0 < m → as_secs evaluation_period ≤ m * step → size ≤ m)
unfolding max_samples_of
max_samples_of_covers evaluation_period interval =
    let a = as_secs evaluation_period in
    let b = at_least_one (as_secs interval) in
    let positive = at_least_one_pos (as_secs interval) in
    (
      at_least_one_pos (div_ceil a b),
      let covered = div_ceil_covers a b positive in
          let grown : div_ceil a b * b ≤ at_least_one (div_ceil a b) * b =
            mul-le-mul_right b (at_least_one_le (div_ceil a b)) in
          omega arith,
      λ m h le. at_least_one_least (div_ceil a b) m h (div_ceil_least a b m positive le),
    )

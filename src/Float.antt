-- ===== src/Float.antt =====
-- The type `f64`. Its values and its arithmetic are a parameter of the development, with the
-- operations that the program calls; the laws of IEEE order that some theorems rely on are a
-- record of their own, `IsOrdered`.
use external_pod_autoscaler.Prelude.{ℕ, ◌≡◌, ◌⊎◌, Bool, true, false, Option, if◌then◌else◌}
use external_pod_autoscaler.Prelude.Int.{ℤ}
use external_pod_autoscaler.Text.{Text}

pub record F64 : Type 1 where
  pub Float : Type 0
  pub zero : Float
  pub two : Float
  pub add : Float → Float → Float
  pub sub : Float → Float → Float
  pub div : Float → Float → Float
  -- `<=`, which is false beside a NaN.
  pub le : Float → Float → Bool
  pub is_nan : Float → Bool
  pub infinity : Float
  pub neg_infinity : Float
  -- `as f64` of an integer, and `Duration::as_secs_f64` of nanoseconds.
  pub of_ℤ : ℤ → Float
  pub as_secs : ℕ → Float
  -- `as i64`, for a value strictly between the bounds: it drops the fraction.
  pub truncate : Float → ℤ
  -- `str::parse::<f64>`.
  pub parse : Text → Option Float

module _ (f64 : F64) where
  open f64 use {Float, le, is_nan}

  -- `f64::max` and `f64::min`: beside a NaN, the other value.
  abbrev pub fmax : Float → Float → Float
  fmax a b = if is_nan a then b else if is_nan b then a else if le a b then b else a

  abbrev pub fmin : Float → Float → Float
  fmin a b = if is_nan a then b else if is_nan b then a else if le a b then a else b

-- The order of the numbers among the floats: total and transitive, between the infinities.
pub record IsOrdered (f64 : F64) : Type 0 where
  pub le_refl : (a : f64.Float) → f64.is_nan a ≡ false → f64.le a a ≡ true
  pub le_total :
      (a b : f64.Float)
      → f64.is_nan a ≡ false
      → f64.is_nan b ≡ false
      → (f64.le a b ≡ true) ⊎ (f64.le b a ≡ true)
  pub le_trans : (a b c : f64.Float) → f64.le a b ≡ true → f64.le b c ≡ true → f64.le a c ≡ true
  pub neg_infinity_number : f64.is_nan f64.neg_infinity ≡ false
  pub infinity_number : f64.is_nan f64.infinity ≡ false
  pub neg_infinity_le : (a : f64.Float) → f64.is_nan a ≡ false → f64.le f64.neg_infinity a ≡ true
  pub le_infinity : (a : f64.Float) → f64.is_nan a ≡ false → f64.le a f64.infinity ≡ true

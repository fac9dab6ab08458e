-- ===== src/Webhook/Metrics/Aggregation/Bounds.antt =====
-- The extrema that `aggregate_samples` finds, and the cap on the rate of a counter.
use external_pod_autoscaler.Prelude.{
  ◌≡◌, ◌⊎◌, refl, true, false, List, [], ◌∷◌, some, arith, inl, inr, All, Member, ◌∙◌, ap,
}
use external_pod_autoscaler.Float.{F64, IsOrdered, fmax, fmin}
use external_pod_autoscaler.Api.{max, min}
use external_pod_autoscaler.Store.Types.{LabeledSample}
use external_pod_autoscaler.Webhook.Metrics.Aggregation.{
  fold, values_of, aggregate_samples, calculate_rate, max_rate,
}

module _ (f64 : F64) (order : IsOrdered f64) where
  open f64 use {Float, le, is_nan}

  abbrev Number : Float → Type 0
  Number v = is_nan v ≡ false

  fmax_upper :
      (a b : Float)
      → Number a
      → Number b
      → (le a (fmax f64 a b) ≡ true) × (le b (fmax f64 a b) ≡ true) × Number (fmax f64 a b)
  fmax_upper a b na nb =
      ground (arith, order.le_refl a na, order.le_refl b nb, order.le_total a b na nb)

  fmin_lower :
      (a b : Float)
      → Number a
      → Number b
      → (le (fmin f64 a b) a ≡ true) × (le (fmin f64 a b) b ≡ true) × Number (fmin f64 a b)
  fmin_lower a b na nb =
      ground (arith, order.le_refl a na, order.le_refl b nb, order.le_total a b na nb)

  fold-fmax :
      (acc : Float) (values : List Float)
      → Number acc
      → All Number values
      → (le acc (fold f64 (fmax f64) acc values) ≡ true)
        × All (λ v. le v (fold f64 (fmax f64) acc values) ≡ true) values
  fold-fmax acc [] na nv = (order.le_refl acc na, tt)
  fold-fmax acc (v ∷ values) na (nv, rest) =
      let (above, above', n) = fmax_upper acc v na nv in
      let (le_acc, le_values) = fold-fmax (fmax f64 acc v) values n rest in
      (order.le_trans _ _ _ above le_acc, (order.le_trans _ _ _ above' le_acc, le_values))

  fold-fmin :
      (acc : Float) (values : List Float)
      → Number acc
      → All Number values
      → (le (fold f64 (fmin f64) acc values) acc ≡ true)
        × All (λ v. le (fold f64 (fmin f64) acc values) v ≡ true) values
  fold-fmin acc [] na nv = (order.le_refl acc na, tt)
  fold-fmin acc (v ∷ values) na (nv, rest) =
      let (below, below', n) = fmin_lower acc v na nv in
      let (le_acc, le_values) = fold-fmin (fmin f64 acc v) values n rest in
      (order.le_trans _ _ _ le_acc below, (order.le_trans _ _ _ le_acc below', le_values))

  -- Some value of the list stands level with `r`.
  abbrev pub Attained : Float → List Float → Type 0
  Attained r values = (w : Float) × Member w values × (le w r ≡ true) × (le r w ≡ true)

  fold-chosen :
      (f : Float → Float → Float)
      → ((a b : Float) → Number a → Number b → ((f a b ≡ a) ⊎ (f a b ≡ b)))
      → (acc : Float) (values : List Float) → Number acc
      → All Number values
      → (fold f64 f acc values ≡ acc) ⊎ Member (fold f64 f acc values) values
  fold-chosen f choice acc [] na nv = inl refl
  fold-chosen f choice acc (v ∷ values) na (nv, rest) = elim (choice acc v na nv) [
    | inl e ↦ elim (fold-chosen f choice (f acc v) values (ap is_nan e ∙ na) rest) [
      | inl q ↦ inl (q ∙ e)
      | inr m ↦ inr (inr m)
    ]
    | inr e ↦ elim (fold-chosen f choice (f acc v) values (ap is_nan e ∙ nv) rest) [
      | inl q ↦ inr (inl (q ∙ e))
      | inr m ↦ inr (inr m)
    ]
  ]

  fmax_choice : (a b : Float) → Number a → Number b → (fmax f64 a b ≡ a) ⊎ (fmax f64 a b ≡ b)
  fmax_choice a b na nb = ground arith

  fmin_choice : (a b : Float) → Number a → Number b → (fmin f64 a b ≡ a) ⊎ (fmin f64 a b ≡ b)
  fmin_choice a b na nb = ground arith

  numbers_Member :
      (r : Float) (values : List Float) → All Number values → Member r values → Number r
  numbers_Member r [] h m = absurd m
  numbers_Member r (v ∷ values) h (inl e) = ap is_nan e ∙ h.0
  numbers_Member r (v ∷ values) h (inr m) = numbers_Member r values h.1 m

  attained :
      (r v : Float) (values : List Float)
      → All Number (v ∷ values)
      → (Member r (v ∷ values)) ⊎ ((le v r ≡ true) × (le r v ≡ true))
      → Attained r (v ∷ values)
  attained r v values h (inl m) =
      let n = numbers_Member r (v ∷ values) h m in (r, m, order.le_refl r n, order.le_refl r n)
  attained r v values h (inr level) = (v, inl refl, level.0, level.1)

  top_chosen :
      (v : Float) (values : List Float)
      → All Number (v ∷ values)
      → let r = fold f64 (fmax f64) f64.neg_infinity (v ∷ values) in
        le v r ≡ true → Member r (v ∷ values) ⊎ ((le v r ≡ true) × (le r v ≡ true))
  top_chosen v values h above =
      elim (fold-chosen (fmax f64) fmax_choice f64.neg_infinity (v ∷ values)
        order.neg_infinity_number h) [
          | inl e ↦ inr (above, ap (λ x. le x v) e ∙ order.neg_infinity_le v h.0)
          | inr m ↦ inl m
        ]

  bottom_chosen :
      (v : Float) (values : List Float)
      → All Number (v ∷ values)
      → let r = fold f64 (fmin f64) f64.infinity (v ∷ values) in
        le r v ≡ true → Member r (v ∷ values) ⊎ ((le v r ≡ true) × (le r v ≡ true))
  bottom_chosen v values h below =
      elim (fold-chosen (fmin f64) fmin_choice f64.infinity (v ∷ values) order.infinity_number h) [
        | inl e ↦ inr (ap (λ x. le v x) e ∙ order.le_infinity v h.0, below)
        | inr m ↦ inl m
      ]

  -- The maximum of a pod's samples is one of their values, up to the order of floats, and no
  -- smaller than any; likewise the minimum. There is a sample, and none is a NaN.
  pub aggregate_samples_extrema :
      (s : LabeledSample Float) (samples : List (LabeledSample Float))
      → All Number (values_of f64 (s ∷ samples))
      → let values = values_of f64 (s ∷ samples) in
        let top = aggregate_samples f64 (s ∷ samples) max in
        let bottom = aggregate_samples f64 (s ∷ samples) min in
        (All (λ v. le v top ≡ true) values × Attained top values)
        × (All (λ v. le bottom v ≡ true) values × Attained bottom values)
  unfolding aggregate_samples
  aggregate_samples_extrema s samples h =
      let values = values_of f64 (s ∷ samples) in
      let above = fold-fmax f64.neg_infinity values order.neg_infinity_number h in
      let below = fold-fmin f64.infinity values order.infinity_number h in
      (
        (
          above.1,
          attained _ s.value (values_of f64 samples) h
              (top_chosen s.value (values_of f64 samples) h above.1.0),
        ),
        (
          below.1,
          attained _ s.value (values_of f64 samples) h
              (bottom_chosen s.value (values_of f64 samples) h below.1.0),
        ),
      )

  -- The rate of a counter is never above the cap, if the cap is a number that is not below zero
  -- in the model of floats.
  pub calculate_rate-le-max_rate :
      (samples : List (LabeledSample Float)) (rate : Float)
      → Number (max_rate f64)
      → le f64.zero (max_rate f64) ≡ true
      → calculate_rate f64 samples ≡ some rate
      → le rate (max_rate f64) ≡ true
  unfolding calculate_rate
  calculate_rate-le-max_rate [] rate n z h = ground arith
  calculate_rate-le-max_rate (first ∷ []) rate n z h = ground arith
  calculate_rate-le-max_rate (first ∷ second ∷ samples) rate n z h =
      ground (arith, order.le_refl (max_rate f64) n)

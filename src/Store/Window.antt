-- ===== src/Store/Window.antt =====
-- src/store/window.rs: a first-in first-out buffer of samples.
use external_pod_autoscaler.Prelude.{
  ℕ, zero, suc, ◌-◌, ◌≤◌, ◌<◌, ◌≡◌, refl, ap, sym, ◌∙◌, List, [], ◌∷◌, ◌++◌, Option, none, some,
  arith, leb, leb→le, not_leb→lt, if◌then◌else◌, length, drop, length-append, length-drop,
  Bool-cases, inl, inr,
}
use mathlib.Core.List.{append-nil, append_assoc}
use external_pod_autoscaler.Store.Types.{LabeledSample, MetricWindow}

-- `VecDeque::back`.
abbrev pub back {ℓ} : {A : Type ℓ} → List A → Option A
back [] = none
back (x ∷ []) = some x
back (x ∷ y ∷ xs) = back (y ∷ xs)

-- How many samples a window of the given size holds at most: a size of zero counts as one, since
-- the sample that arrives is kept.
abbrev pub capacity : ℕ → ℕ
capacity zero = 1
capacity (suc n) = suc n

module _ {Float : Type 0} where
  -- A buffer that is too large for `with_capacity` is a panic, which the worker's `series_panics`
  -- tells of before it comes here.
  abbrev pub new : ℕ → MetricWindow Float
  new max_samples = record { samples = []; max_samples = max_samples }

  unfoldable pub push : LabeledSample Float → MetricWindow Float → MetricWindow Float
  push sample w =
      let kept = if leb w.max_samples (length w.samples) then drop 1 w.samples else w.samples in
      record w { samples = kept ++ sample ∷ [] }

  unfoldable pub newest_sample_age : MetricWindow Float → ℕ → Option ℕ
  newest_sample_age w now = elim (back w.samples) [
    | none ↦ none
    | some s ↦ some (now - s.scraped_at)
  ]

  abbrev pub push_all : List (LabeledSample Float) → MetricWindow Float → MetricWindow Float
  push_all [] w = w
  push_all (s ∷ samples) w = push_all samples (push s w)

  drop-append :
      (n : ℕ) (xs : List (LabeledSample Float)) (s : LabeledSample Float)
      → n ≤ length xs
      → drop n (xs ++ s ∷ []) ≡ drop n xs ++ s ∷ []
  drop-append zero xs s h = refl
  drop-append (suc n) [] s h = absurd (omega arith)
  drop-append (suc n) (x ∷ xs) s h = drop-append n xs s (omega arith)

  pub drop-nil : (n : ℕ) → [] ≡ drop {A = LabeledSample Float} n []
  drop-nil zero = refl
  drop-nil (suc n) = refl

  drop-suc : (n : ℕ) (xs : List (LabeledSample Float)) → drop 1 (drop n xs) ≡ drop (suc n) xs
  drop-suc zero xs = refl
  drop-suc (suc n) [] = refl
  drop-suc (suc n) (x ∷ xs) = drop-suc n xs

  -- The window shows the last samples of its history.
  abbrev pub Shows : MetricWindow Float → List (LabeledSample Float) → Type 0
  Shows w history = w.samples ≡ drop (length history - capacity w.max_samples) history

  shift :
      (size : ℕ) (h : List (LabeledSample Float)) (s : LabeledSample Float)
      → 0 < size
      → size ≤ length h
      → drop 1 (drop (length h - size) h) ++ s ∷ []
        ≡ drop (length (h ++ s ∷ []) - size) (h ++ s ∷ [])
  shift size h s positive le =
      let k = length h - size in
      ap (λ l. l ++ s ∷ []) (drop-suc k h)
      ∙ sym (drop-append (suc k) h s (omega arith))
      ∙ ap (λ i. drop i (h ++ s ∷ [])) {x = suc k} (omega (arith, length-append h (s ∷ [])))

  push-full :
      (n : ℕ) (h : List (LabeledSample Float)) (s : LabeledSample Float)
      → n ≤ length (drop (length h - capacity n) h)
      → drop 1 (drop (length h - capacity n) h) ++ s ∷ []
        ≡ drop (length (h ++ s ∷ []) - capacity n) (h ++ s ∷ [])
  push-full zero [] s full = refl
  push-full zero (x ∷ h) s full = shift 1 (x ∷ h) s (omega arith) (omega arith)
  push-full (suc n) h s full =
      shift (suc n) h s (omega arith) (omega (arith, length-drop (length h - suc n) h))

  push-room :
      (n : ℕ) (h : List (LabeledSample Float)) (s : LabeledSample Float)
      → length (drop (length h - capacity n) h) < n
      → drop (length h - capacity n) h ++ s ∷ []
        ≡ drop (length (h ++ s ∷ []) - capacity n) (h ++ s ∷ [])
  push-room zero h s room = absurd (omega arith)
  push-room (suc n) h s room =
      let k = length h - suc n in
      sym (drop-append k h s (omega arith))
      ∙ ap (λ i. drop i (h ++ s ∷ [])) (omega (arith, length-append h (s ∷ []), length-drop k h))

  pub push-Shows :
      (w : MetricWindow Float) (h : List (LabeledSample Float)) (s : LabeledSample Float)
      → Shows w h
      → Shows (push s w) (h ++ s ∷ [])
  unfolding push
  push-Shows w h s shows = elim (Bool-cases (leb w.max_samples (length w.samples))) [
    | inl e ↦
        rw (e, shows)
          (push-full w.max_samples h s (rw shows at (leb→le w.max_samples (length w.samples) e)))
    | inr e ↦
        rw (e, shows)
          (push-room w.max_samples h s
            (rw shows at (not_leb→lt w.max_samples (length w.samples) e)))
  ]

  push_all-max_samples :
      (samples : List (LabeledSample Float)) (w : MetricWindow Float)
      → (push_all samples w).max_samples ≡ w.max_samples
  unfolding push
  push_all-max_samples [] w = refl
  push_all-max_samples (s ∷ samples) w = push_all-max_samples samples (push s w)

  push_all-Shows :
      (samples : List (LabeledSample Float)) (w : MetricWindow Float)
      (h : List (LabeledSample Float))
      → Shows w h
      → Shows (push_all samples w) (h ++ samples)
  push_all-Shows [] w h shows = rw append-nil shows
  push_all-Shows (s ∷ samples) w h shows =
      rw (sym (append_assoc h (s ∷ []) samples))
        (push_all-Shows samples (push s w) (h ++ s ∷ []) (push-Shows w h s shows))

  -- A window is a first-in first-out buffer of bounded size: after any run of pushes into a new
  -- window it holds the last `max_samples` of the samples pushed, in order, or the last one if
  -- `max_samples` is zero.
  pub push_all-keeps_last :
      (max_samples : ℕ) (samples : List (LabeledSample Float))
      → (push_all samples (new max_samples)).samples
        ≡ drop (length samples - capacity max_samples) samples
  push_all-keeps_last max_samples samples =
      push_all-Shows samples (new max_samples) [] (drop-nil _)
      ∙ ap (λ n. drop (length samples - capacity n) samples)
          (push_all-max_samples samples (new max_samples))

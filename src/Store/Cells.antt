-- ===== src/Store/Cells.antt =====
-- What it means that the maps of the store hold what the cells of the specification hold.
use external_pod_autoscaler.Prelude.{
  ℕ, zero, suc, ◌-◌, ◌<◌, ◌≡◌, refl, inl, inr, Bool, true, false, not, List, [], ◌∷◌, Option, none,
  some, arith, ap, sym, ◌∙◌, Bool-cases, length, drop, contains,
}
use external_pod_autoscaler.Text.{Text, text_Eq}
use external_pod_autoscaler.Assoc.{lookup, remove, Unique}
use external_pod_autoscaler.Assoc.Laws.{remove-Unique}
use external_pod_autoscaler.Store.Types.{
  LabeledSample, SampleKey, sample_key_Eq, CacheKey, cache_key_Eq, MetricWindow, MetricsStore,
}
use external_pod_autoscaler.Store.Window.{
  back, capacity, push, newest_sample_age, Shows, push-Shows, drop-nil,
}
use external_pod_autoscaler.Store.Window
use external_pod_autoscaler.Store.Ops.{remove_keys, is_stale}
use external_pod_autoscaler.Store.Ops.Windows.{unless_stale, if_kept}
use external_pod_autoscaler.Store.Ops.Epa.{unless}
use external_pod_autoscaler.Store.Spec.{View, add_sample, too_old, forget_stale}

capacity_pos : (n : ℕ) → 0 < capacity n
capacity_pos zero = omega arith
capacity_pos (suc n) = omega arith

module _ {Float : Type 0} where
  -- A window shows the end of its history.
  abbrev pub Matches :
      Option (MetricWindow Float) → Option (List (LabeledSample Float) × ℕ) → Type 0
  Matches none none = Unit
  Matches none (some cell) = ⊥
  Matches (some w) none = ⊥
  Matches (some w) (some (history, size)) = (w.max_samples ≡ size) × Shows w history

  -- The maps hold what the cells hold, and no key stands twice.
  pub record Refines (store : MetricsStore Float) (v : View Float) : Type 0 where
    pub windows_once : Unique store.windows
    pub cache_once : Unique store.cache
    pub stats_once : Unique store.scrape_stats
    pub windows : (j : SampleKey) → Matches (lookup j store.windows) (v.windows j)
    pub cache : (j : CacheKey) → lookup j store.cache ≡ v.cache j
    pub configs : (j : CacheKey) → lookup j store.configs ≡ v.configs j
    pub warned : (j : CacheKey) → contains store.multi_series_warned j ≡ v.warned j
    pub stats : (j : Text) → lookup j store.scrape_stats ≡ v.stats j

  push_max_samples :
      (s : LabeledSample Float) (w : MetricWindow Float) → (push s w).max_samples ≡ w.max_samples
  unfolding push
  push_max_samples s w = refl

  -- A push into a window is an entry of its history.
  pub Matches-push :
      (s : LabeledSample Float) (size : ℕ) (o : Option (MetricWindow Float))
      (cell : Option (List (LabeledSample Float) × ℕ))
      → Matches o cell
      → Matches
          (some (push s (elim o [ none ↦ Window.new size | some w ↦ w ])))
          (some (add_sample s size cell))
  Matches-push s size none none m =
      (push_max_samples s (Window.new size), push-Shows (Window.new size) [] s (drop-nil _))
  Matches-push s size none (some cell) m = absurd m
  Matches-push s size (some w) none m = absurd m
  Matches-push s size (some w) (some (history, n)) (e, shows) =
      (push_max_samples s w ∙ e, push-Shows w history s shows)

  back-drop : (n : ℕ) (h : List (LabeledSample Float)) → n < length h → back (drop n h) ≡ back h
  back-drop zero h lt = refl
  back-drop (suc n) [] lt = absurd (omega arith)
  back-drop (suc n) (x ∷ []) lt = absurd (omega arith)
  back-drop (suc n) (x ∷ y ∷ h) lt = back-drop n (y ∷ h) (omega arith)

  -- The newest sample of a window is the last of its history.
  Matches-back :
      (w : MetricWindow Float) (h : List (LabeledSample Float))
      → Shows w h
      → back w.samples ≡ back h
  Matches-back w [] shows = ap back (shows ∙ sym (drop-nil _))
  Matches-back w (x ∷ h) shows =
      let k = length (x ∷ h) - capacity w.max_samples in
      let below : k < length (x ∷ h) = omega (arith, capacity_pos w.max_samples) in
      ap back shows ∙ back-drop k (x ∷ h) below

  is_stale_lem :
      (max_age now : ℕ) (w : MetricWindow Float)
      → is_stale max_age now w ≡ too_old max_age now (back w.samples)
  unfolding newest_sample_age
  is_stale_lem max_age now w = ground arith

  pub Matches-unless_stale :
      (max_age now : ℕ) (o : Option (MetricWindow Float))
      (cell : Option (List (LabeledSample Float) × ℕ))
      → Matches o cell
      → Matches (unless_stale max_age now o) (forget_stale max_age now cell)
  Matches-unless_stale max_age now none none m = m
  Matches-unless_stale max_age now none (some cell) m = absurd m
  Matches-unless_stale max_age now (some w) none m = absurd m
  Matches-unless_stale max_age now (some w) (some (history, n)) (e, shows) =
      let same : is_stale max_age now w ≡ too_old max_age now (back history) =
        is_stale_lem max_age now w ∙ ap (too_old max_age now) (Matches-back w history shows) in
      rw same (elim (Bool-cases (too_old max_age now (back history))) [
        | inl f ↦ rw f tt
        | inr f ↦ rw f (e, shows)
      ])

  pub Matches-if_kept :
      (b : Bool) (o : Option (MetricWindow Float)) (cell : Option (List (LabeledSample Float) × ℕ))
      → Matches o cell
      → Matches (if_kept b o) (unless (not b) cell)
  Matches-if_kept true o cell m = m
  Matches-if_kept false o cell m = tt

  pub Matches-unless :
      (b : Bool) (o : Option (MetricWindow Float)) (cell : Option (List (LabeledSample Float) × ℕ))
      → Matches o cell
      → Matches (unless b o) (unless b cell)
  Matches-unless true o cell m = tt
  Matches-unless false o cell m = m

  pub remove_keys-Unique :
      (keys : List SampleKey) (windows : List (SampleKey × MetricWindow Float))
      → Unique windows
      → Unique (remove_keys keys windows)
  remove_keys-Unique [] windows u = u
  remove_keys-Unique (k ∷ keys) windows u =
      remove_keys-Unique keys (remove k windows) (remove-Unique k windows u)

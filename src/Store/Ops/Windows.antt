-- ===== src/Store/Ops/Windows.antt =====
-- The windows: what a push, an eviction and a change of pods leave in the map.
use external_pod_autoscaler.Prelude.{
  ℕ, ◌+◌, ◌≡◌, refl, Bool, true, false, not, ◌||◌, List, [], ◌∷◌, Option, none, some, arith,
  if◌then◌else◌, ◌==◌, length, contains,
}
use external_pod_autoscaler.Text.{Text, text_Eq}
use external_pod_autoscaler.Assoc.{lookup, remove, Unique}
use external_pod_autoscaler.Assoc.Laws.{
  lookup-modify_or_insert, lookup-remove, remove-Unique, lookup-retain_keys, length-retain-le,
  lookup-none,
}
use external_pod_autoscaler.Store.Types.{
  LabeledSample, SampleKey, sample_key_Eq, sample_key_beq_iff, MetricWindow, MetricsStore,
}
use external_pod_autoscaler.Store.Window
use external_pod_autoscaler.Store.Window.{push}
use external_pod_autoscaler.Store.Ops.{
  push_sample, is_of_epa, is_stale, stale_keys, remove_keys, evict_stale_windows,
  retain_pod_windows,
}

-- Whether `retain_pod_windows` is asked to keep the window of a key.
abbrev pub keeps : (namespace epa_name : Text) → List Text → SampleKey → Bool
keeps namespace epa_name active_pods key =
    not (is_of_epa namespace epa_name key) || contains active_pods key.pod_name

module _ {Float : Type 0} where
  -- A push goes to the window of its key, which it makes if there is none, and no other window
  -- changes. The size is used only for a window that is made.
  pub lookup-push_sample :
      (k j : SampleKey) (sample : LabeledSample Float) (size : ℕ) (store : MetricsStore Float)
      → lookup j (push_sample k sample size store).windows ≡ (
          if k == j
          then some
              (push sample (elim (lookup k store.windows) [ none ↦ Window.new size | some w ↦ w ]))
          else lookup j store.windows)
  unfolding push_sample
  lookup-push_sample k j sample size store = ground (
    arith,
    lookup-modify_or_insert k j (push sample) (push sample (Window.new size)) store.windows,
  )

  lookup-remove_keys :
      (keys : List SampleKey) (j : SampleKey) (windows : List (SampleKey × MetricWindow Float))
      → Unique windows
      → lookup j (remove_keys keys windows) ≡ (if contains keys j then none else lookup j windows)
  lookup-remove_keys [] j windows u = refl
  lookup-remove_keys (k ∷ keys) j windows u = ground (
    arith,
    lookup-remove_keys keys j (remove k windows) (remove-Unique k windows u),
    lookup-remove k j windows u,
  )

  stale_keys-contains :
      (max_age now : ℕ) (j : SampleKey) (entries : List (SampleKey × MetricWindow Float))
      → Unique entries
      → contains (stale_keys max_age now entries) j
        ≡ elim (lookup j entries) [ none ↦ false | some w ↦ is_stale max_age now w ]
  stale_keys-contains max_age now j [] u = refl
  stale_keys-contains max_age now j ((k, w) ∷ entries) u = ground (
    arith,
    sample_key_beq_iff k j,
    stale_keys-contains max_age now j entries,
    lookup-none j entries,
  )

  -- What an eviction leaves of a window.
  abbrev pub unless_stale :
      (max_age now : ℕ) → Option (MetricWindow Float) → Option (MetricWindow Float)
  unless_stale max_age now none = none
  unless_stale max_age now (some w) = if is_stale max_age now w then none else some w

  -- An eviction removes exactly the windows whose newest sample is older than the given age. A
  -- window without samples stays, and what stays is unchanged. No key stands twice in the map.
  pub lookup-evict_stale_windows :
      (max_age now : ℕ) (j : SampleKey) (store : MetricsStore Float)
      → Unique store.windows
      → lookup j (evict_stale_windows max_age now store).1.windows
        ≡ unless_stale max_age now (lookup j store.windows)
  unfolding evict_stale_windows
  lookup-evict_stale_windows max_age now j store u = ground (
    arith,
    lookup-remove_keys (stale_keys max_age now store.windows) j store.windows u,
    stale_keys-contains max_age now j store.windows u,
  )

  abbrev pub if_kept : Bool → Option (MetricWindow Float) → Option (MetricWindow Float)
  if_kept true w = w
  if_kept false w = none

  -- After the pods of an autoscaler are known anew, the windows of its other pods are gone, and
  -- those of its active pods and of every other autoscaler are as they were. The number returned
  -- is the number of windows removed. No key stands twice in the map.
  pub lookup-retain_pod_windows :
      (namespace epa_name : Text) (active_pods : List Text) (j : SampleKey)
      (store : MetricsStore Float)
      → Unique store.windows
      → let (removed, store') = retain_pod_windows namespace epa_name active_pods store in
        (lookup j store'.windows
          ≡ if_kept (keeps namespace epa_name active_pods j) (lookup j store.windows))
        × (removed + length store'.windows ≡ length store.windows)
  unfolding retain_pod_windows
  lookup-retain_pod_windows namespace epa_name active_pods j store u = (
    ground (
      arith,
      lookup-retain_keys
          (λ key.
            not (key.namespace == namespace)
            || not (key.epa_name == epa_name)
            || contains active_pods key.pod_name)
          j store.windows,
    ),
    omega (arith, length-retain-le _ store.windows),
  )

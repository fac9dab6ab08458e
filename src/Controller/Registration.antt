-- ===== src/Controller/Registration.antt =====
-- The reconciles of one replica together with its scraper: what the controller sends over the
-- channel of src/scraper/service.rs, and which EPAs stay active. The channel is taken to deliver
-- each message before the next reconcile.
use external_pod_autoscaler.Prelude.{
  ◌≡◌, ◌⊎◌, refl, Bool, true, false, ◌&&◌, List, [], ◌∷◌, ◌++◌, Option, none, some, if◌then◌else◌,
  ◌==◌, inl, inr, Bool-cases, All, arith, ap, sym, ◌∙◌,
}
use external_pod_autoscaler.Text.{Text, codes, text_Eq, is_some}
use external_pod_autoscaler.Assoc.{lookup, Unique}
use external_pod_autoscaler.Api.{ExternalPodAutoscaler}
use external_pod_autoscaler.Store.Types.{MetricsStore}
use external_pod_autoscaler.Membership.Ownership.{epa_key}
use external_pod_autoscaler.Scraper.Service.{EpaUpdate, upsert, delete, Active, handle_updates}
use external_pod_autoscaler.Scraper.Service.Registered.{
  says, last_word, about, lookup-handle_updates,
}
use external_pod_autoscaler.Controller.Hpa.{Hpa, Error, Built, built, refused, epa_name_namespace}
use external_pod_autoscaler.Controller.Reconcile.{
  Effect, apply_hpa, patch_status, send_delete, send_upsert, Observed, unobservable, found,
  await_change, reconcile_hpa, conclude, delete_epa, reconcile,
}

-- The messages among the effects.
abbrev pub updates_of : List Effect → List EpaUpdate
updates_of [] = []
updates_of (apply_hpa name namespace h ∷ effects) = updates_of effects
updates_of (patch_status name namespace ready reason ∷ effects) = updates_of effects
updates_of (send_delete namespace name ∷ effects) = delete namespace name ∷ updates_of effects
updates_of (send_upsert epa ∷ effects) = upsert epa ∷ updates_of effects

-- What a reconcile reads: the answer to the patch of the HPA, whether the replica is the owner, the
-- object that it is about and what the observer finds.
pub record Request : Type 0 where
  pub answer : Hpa → Option Text
  pub is_owner : Bool
  pub epa : ExternalPodAutoscaler
  pub observed : Observed

abbrev pub is_deleting : Observed → Bool
is_deleting unobservable = false
is_deleting (found none) = false
is_deleting (found (some epa)) = epa.metadata.deletion_timestamp

-- Whether a reconcile is that of the owner, for the object of a key that is being deleted.
abbrev pub drops_named : Text → (is_owner : Bool) → Observed → Built (Text × Text) → Bool
drops_named key is_owner observed (refused e) = false
drops_named key is_owner observed (built (name, namespace)) =
    is_owner && is_deleting observed && epa_key namespace name == key

abbrev pub drops : Text → Request → Bool
drops key r = drops_named key r.is_owner r.observed (epa_name_namespace r.epa)

-- A message that does not take a key away.
abbrev pub Leaves : Text → EpaUpdate → Type 0
Leaves key (upsert epa) = Unit
Leaves key (delete namespace name) = (epa_key namespace name == key) ≡ false

last_word_some :
    (key : Text) (messages : List EpaUpdate) (before : Option ExternalPodAutoscaler)
    → All (Leaves key) messages
    → is_some before ≡ true
    → is_some (last_word key messages before) ≡ true
last_word_some key [] before h some_before = some_before
last_word_some key (upsert epa ∷ messages) before (_, h) some_before =
    last_word_some key messages (says key (upsert epa) before) h
      (elim (Bool-cases (about epa.metadata.namespace epa.metadata.name key)) [
        | inl e ↦ rw e refl
        | inr e ↦ rw e some_before
      ])
last_word_some key (delete namespace name ∷ messages) before (e, h) some_before =
    last_word_some key messages (says key (delete namespace name) before) h (rw e some_before)

updates_of-append : (xs ys : List Effect) → updates_of (xs ++ ys) ≡ updates_of xs ++ updates_of ys
updates_of-append [] ys = refl
updates_of-append (apply_hpa name namespace h ∷ xs) ys = updates_of-append xs ys
updates_of-append (patch_status name namespace ready reason ∷ xs) ys = updates_of-append xs ys
updates_of-append (send_delete namespace name ∷ xs) ys =
    ap (λ t. delete namespace name ∷ t) (updates_of-append xs ys)
updates_of-append (send_upsert epa ∷ xs) ys = ap (λ t. upsert epa ∷ t) (updates_of-append xs ys)

reconcile_hpa_updates :
    (answer : Hpa → Option Text) (epa : ExternalPodAutoscaler)
    → updates_of (reconcile_hpa answer epa).0 ≡ []
unfolding reconcile_hpa
reconcile_hpa_updates answer epa = ground arith

conclude_updates :
    (key name namespace : Text) (epa : ExternalPodAutoscaler) (result : List Effect × Option Error)
    → updates_of result.0 ≡ []
    → All (Leaves key) (updates_of (conclude name namespace epa result).0)
conclude_updates key name namespace epa (effects, none) h =
    let rest : List Effect =
      patch_status name namespace true (codes "HpaSynced") ∷ send_upsert epa ∷ [] in
    rw (updates_of-append effects rest, h) (tt, tt)
conclude_updates key name namespace epa (effects, some e) h =
    let rest : List Effect = patch_status name namespace false (codes "HpaError") ∷ [] in
    rw (updates_of-append effects rest, h) tt

Observed-cases :
    (observed : Observed)
    → (observed ≡ unobservable)
      ⊎ (observed ≡ found none)
      ⊎ ((epa : ExternalPodAutoscaler) × (observed ≡ found (some epa)))
Observed-cases unobservable = inl refl
Observed-cases (found none) = inr (inl refl)
Observed-cases (found (some epa)) = inr (inr (epa, refl))

Built-cases :
    {A : Type 0} (b : Built A) → ((a : A) × (b ≡ built a)) ⊎ ((e : Error) × (b ≡ refused e))
Built-cases (built a) = inl (a, refl)
Built-cases (refused e) = inr (e, refl)

module _ {Float : Type 0} (key : Text) where
  -- The tests of `reconcile_found`, for any values of them.
  branch-Leaves :
      (deleting is_owner : Bool) (answer : Hpa → Option Text) (name namespace : Text)
      (epa : ExternalPodAutoscaler) (store : MetricsStore Float)
      → (is_owner && deleting && epa_key namespace name == key) ≡ false
      → All (Leaves key) (
          updates_of
            (if deleting
              then delete_epa is_owner name namespace store
              else if is_owner
              then (conclude name namespace epa (reconcile_hpa answer epa), store)
              else ((send_upsert epa ∷ [], await_change), store)).0.0)
  branch-Leaves true true answer name namespace epa store h = (h, tt)
  branch-Leaves true false answer name namespace epa store h = tt
  branch-Leaves false true answer name namespace epa store h =
      conclude_updates key name namespace epa (reconcile_hpa answer epa)
        (reconcile_hpa_updates answer epa)
  branch-Leaves false false answer name namespace epa store h = (tt, tt)

  reconcile-Leaves :
      (r : Request) (store : MetricsStore Float)
      → drops key r ≡ false
      → All (Leaves key) (updates_of (reconcile r.answer r.is_owner r.epa r.observed store).0.0)
  unfolding reconcile
  reconcile-Leaves r store h = elim (Built-cases (epa_name_namespace r.epa)) [
    | inr (e, f) ↦ rw (f, reconcile) tt
    | inl ((name, namespace), f) ↦ elim (Observed-cases r.observed) [
      | inl g ↦ rw (f, g, reconcile) tt
      | inr (inl g) ↦ rw (f, g, reconcile) tt
      | inr (inr (epa, g)) ↦
          rw (f, g, reconcile)
            (branch-Leaves epa.metadata.deletion_timestamp r.is_owner r.answer name namespace epa
              store
              (ap (λ o. drops_named key r.is_owner o (built (name, namespace))) (sym g)
                ∙ ap (drops_named key r.is_owner r.observed) (sym f)
                ∙ h))
    ]
  ]

-- A reconcile, and the scraper taking its messages.
abbrev pub reconcile_next :
    {Float : Type 0} → Request → Active × MetricsStore Float → Active × MetricsStore Float
reconcile_next r (active, store) =
    let ((effects, action), store') = reconcile r.answer r.is_owner r.epa r.observed store in
    handle_updates (updates_of effects) (active, store')

abbrev pub reconcile_all :
    {Float : Type 0} → List Request → Active × MetricsStore Float → Active × MetricsStore Float
reconcile_all [] state = state
reconcile_all (r ∷ requests) state = reconcile_all requests (reconcile_next r state)

-- An active EPA stays active over any run of reconciles of the replica, whether the replica is its
-- owner or not and whatever is found and answered, unless the run has a reconcile of this EPA
-- at which the replica is the owner and finds it being deleted. No key comes to stand twice in the
-- map.
pub active_until_dropped :
    {Float : Type 0} (key : Text) (requests : List Request) (state : Active × MetricsStore Float)
    → Unique state.0
    → All (λ r. drops key r ≡ false) requests
    → is_some (lookup key state.0) ≡ true
    → Unique (reconcile_all requests state).0
      × (is_some (lookup key (reconcile_all requests state).0) ≡ true)
active_until_dropped key [] state u h active = (u, active)
active_until_dropped key (r ∷ requests) (active_epas, store) u (kept, h) active =
    let result = reconcile r.answer r.is_owner r.epa r.observed store in
    let messages = updates_of result.0.0 in
    let (unique, follows) = lookup-handle_updates messages (active_epas, result.1) u in
    active_until_dropped key requests (handle_updates messages (active_epas, result.1)) unique h (
      ap is_some (follows key)
      ∙ last_word_some key messages (lookup key active_epas) (reconcile-Leaves key r store kept)
          active)

-- ===== src/Scraper/Scheduler/Keys.antt =====
-- The service keeps each active EPA under its own key, as the theorem on the rate asks for.
use external_pod_autoscaler.Prelude.{
  ◌≡◌, true, List, [], ◌∷◌, Option, none, some, ◌==◌, inl, inr, Bool-cases,
}
use external_pod_autoscaler.Text.{Text, text_Eq, text_beq_refl}
use external_pod_autoscaler.Assoc.{insert, remove}
use external_pod_autoscaler.Api.{ExternalPodAutoscaler}
use external_pod_autoscaler.Store.Types.{MetricsStore}
use external_pod_autoscaler.Membership.Ownership.{epa_key}
use external_pod_autoscaler.Scraper.Service.{
  EpaUpdate, upsert, delete, Active, register, handle_update, handle_updates,
}
use external_pod_autoscaler.Scraper.Service.Registered.{about}
use external_pod_autoscaler.Scraper.Scheduler.Steps.{is_about, IsKeyed}

insert-IsKeyed :
    (key : Text) (epa : ExternalPodAutoscaler) (epas : Active)
    → is_about key epa ≡ true
    → IsKeyed epas
    → IsKeyed (insert key epa epas)
insert-IsKeyed key epa [] h keyed = (h, tt)
insert-IsKeyed key epa ((j, other) ∷ epas) h (k, keyed) = elim (Bool-cases (j == key)) [
  | inl e ↦ rw e (h, keyed)
  | inr e ↦ rw e (k, insert-IsKeyed key epa epas h keyed)
]

remove-IsKeyed : (key : Text) (epas : Active) → IsKeyed epas → IsKeyed (remove key epas)
remove-IsKeyed key [] keyed = tt
remove-IsKeyed key ((j, epa) ∷ epas) (k, keyed) = elim (Bool-cases (j == key)) [
  | inl e ↦ rw e keyed
  | inr e ↦ rw e (k, remove-IsKeyed key epas keyed)
]

module _ {Float : Type 0} where
  register-IsKeyed :
      (namespace name : Option Text) (epa : ExternalPodAutoscaler)
      (state : Active × MetricsStore Float)
      → ((key : Text) → about namespace name key ≡ true → is_about key epa ≡ true)
      → IsKeyed state.0
      → IsKeyed (register namespace name epa state).0
  register-IsKeyed none name epa state own keyed = keyed
  register-IsKeyed (some namespace) none epa state own keyed = keyed
  register-IsKeyed (some namespace) (some name) epa (active, store) own keyed =
      insert-IsKeyed (epa_key namespace name) epa active
        (own (epa_key namespace name) (text_beq_refl (epa_key namespace name))) keyed

  handle_update-IsKeyed :
      (msg : EpaUpdate) (state : Active × MetricsStore Float)
      → IsKeyed state.0
      → IsKeyed (handle_update msg state).0
  unfolding handle_update
  handle_update-IsKeyed (upsert epa) state keyed =
      register-IsKeyed epa.metadata.namespace epa.metadata.name epa state (λ key h. h) keyed
  handle_update-IsKeyed (delete namespace name) (active, store) keyed =
      remove-IsKeyed (epa_key namespace name) active keyed

  -- After any run of messages each active EPA stands under the key of its own namespace and name,
  -- if this was so before.
  pub handle_updates-IsKeyed :
      (messages : List EpaUpdate) (state : Active × MetricsStore Float)
      → IsKeyed state.0
      → IsKeyed (handle_updates messages state).0
  unfolding handle_updates
  handle_updates-IsKeyed [] state keyed = keyed
  handle_updates-IsKeyed (msg ∷ messages) state keyed =
      handle_updates-IsKeyed messages (handle_update msg state)
        (handle_update-IsKeyed msg state keyed)

-- ===== src/Scraper/Service/Registered.antt =====
-- Which EPAs are active after a run of messages, and how they are configured.
use external_pod_autoscaler.Prelude.{
  ◌≡◌, refl, Bool, false, List, [], ◌∷◌, Option, none, some, if◌then◌else◌, ◌==◌, ap, ◌∙◌,
}
use external_pod_autoscaler.Text.{Text, text_Eq}
use external_pod_autoscaler.Assoc.{lookup, Unique}
use external_pod_autoscaler.Assoc.Laws.{lookup-insert, lookup-remove, insert-Unique, remove-Unique}
use external_pod_autoscaler.Api.{ExternalPodAutoscaler}
use external_pod_autoscaler.Store.Types.{MetricsStore}
use external_pod_autoscaler.Membership.Ownership.{epa_key}
use external_pod_autoscaler.Scraper.Service.{
  EpaUpdate, upsert, delete, Active, register, handle_update, handle_updates,
}

abbrev pub about : (namespace name : Option Text) → Text → Bool
about none name key = false
about (some namespace) none key = false
about (some namespace) (some name) key = epa_key namespace name == key

-- What a message says about a key, given what was said before: an upsert of an object without a
-- name or a namespace is about no key.
abbrev pub says : Text → EpaUpdate → Option ExternalPodAutoscaler → Option ExternalPodAutoscaler
says key (upsert epa) before =
    if about epa.metadata.namespace epa.metadata.name key then some epa else before
says key (delete namespace name) before = if epa_key namespace name == key then none else before

-- The last word about a key.
abbrev pub last_word :
    Text → List EpaUpdate → Option ExternalPodAutoscaler → Option ExternalPodAutoscaler
last_word key [] before = before
last_word key (msg ∷ messages) before = last_word key messages (says key msg before)

module _ {Float : Type 0} where
  register-Unique :
      (namespace name : Option Text) (epa : ExternalPodAutoscaler)
      (state : Active × MetricsStore Float)
      → Unique state.0
      → Unique (register namespace name epa state).0
  register-Unique none name epa state u = u
  register-Unique (some namespace) none epa state u = u
  register-Unique (some namespace) (some name) epa (active, store) u =
      insert-Unique (epa_key namespace name) epa active u

  pub handle_update-Unique :
      (msg : EpaUpdate) (state : Active × MetricsStore Float)
      → Unique state.0
      → Unique (handle_update msg state).0
  unfolding handle_update
  handle_update-Unique (upsert epa) state u =
      register-Unique epa.metadata.namespace epa.metadata.name epa state u
  handle_update-Unique (delete namespace name) (active, store) u =
      remove-Unique (epa_key namespace name) active u

  lookup-register :
      (namespace name : Option Text) (epa : ExternalPodAutoscaler)
      (state : Active × MetricsStore Float) (key : Text)
      → lookup key (register namespace name epa state).0
        ≡ (if about namespace name key then some epa else lookup key state.0)
  lookup-register none name epa state key = refl
  lookup-register (some namespace) none epa state key = refl
  lookup-register (some namespace) (some name) epa (active, store) key =
      lookup-insert (epa_key namespace name) key epa active

  pub lookup-handle_update :
      (msg : EpaUpdate) (state : Active × MetricsStore Float) (key : Text)
      → Unique state.0
      → lookup key (handle_update msg state).0 ≡ says key msg (lookup key state.0)
  unfolding handle_update
  lookup-handle_update (upsert epa) state key u =
      lookup-register epa.metadata.namespace epa.metadata.name epa state key
  lookup-handle_update (delete namespace name) (active, store) key u =
      lookup-remove (epa_key namespace name) key active u

  -- The service follows the controller: after a run of messages an EPA is active exactly as the
  -- last message about it says, with the object of that message if it was an upsert; an EPA that
  -- no message was about is as it was. No key comes to stand twice in the map.
  pub lookup-handle_updates :
      (messages : List EpaUpdate) (state : Active × MetricsStore Float)
      → Unique state.0
      → Unique (handle_updates messages state).0
        × ((key : Text)
            → lookup key (handle_updates messages state).0
              ≡ last_word key messages (lookup key state.0))
  unfolding handle_updates
  lookup-handle_updates [] state u = (u, λ key. refl)
  lookup-handle_updates (msg ∷ messages) state u =
      let rest =
        lookup-handle_updates messages (handle_update msg state)
          (handle_update-Unique msg state u) in
      (
        rest.0,
        λ key. rest.1 key ∙ ap (last_word key messages) (lookup-handle_update msg state key u),
      )

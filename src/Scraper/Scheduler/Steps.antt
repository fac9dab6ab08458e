-- ===== src/Scraper/Scheduler/Steps.antt =====
-- What the processing of one EPA does to another, and the pass over all of them.
use external_pod_autoscaler.Prelude.{
  ℕ, ◌+◌, ◌≡◌, ◌⊎◌, refl, inl, inr, Bool, true, false, List, [], ◌∷◌, ◌++◌, Option, none, some, map,
  arith, ◌==◌, ap, sym, ◌∙◌, Bool-cases, All, filter, suc, zero,
}
use mathlib.Core.List.{append-nil}
use mathlib.Core.Path.{subst}
use mathlib.Core.Option.{some_inj}
use external_pod_autoscaler.Text.{Text, text_Eq, text_beq_iff, text_beq_refl}
use external_pod_autoscaler.Assoc.{lookup, contains_key}
use external_pod_autoscaler.Assoc.Laws.{lookup-insert}
use external_pod_autoscaler.Api.{ExternalPodAutoscaler}
use external_pod_autoscaler.Membership.Ownership.{Hasher, epa_key}
use external_pod_autoscaler.Scraper.Pods.{Pod, get_ready_pods}
use external_pod_autoscaler.Scraper.Service.{Active}
use external_pod_autoscaler.Scraper.Service.Registered.{about}
use external_pod_autoscaler.Scraper.Scheduler.{
  ScrapeJob, Readings, Scheduler, waits, job_for, take_jobs,
}
use external_pod_autoscaler.Scraper.Scheduler.Round.{process_epa}
use external_pod_autoscaler.Scraper.Scheduler.Jobs.{Round, process_epa_cases}
use external_pod_autoscaler.Scraper.Scheduler.Tick.{
  Next, goes_on, stopped, crashed, next_of, process_epas, TickInput,
}

pub Next-cases : (n : Next) → (n ≡ goes_on) ⊎ (n ≡ stopped) ⊎ (n ≡ crashed)
Next-cases goes_on = inl refl
Next-cases stopped = inr (inl refl)
Next-cases crashed = inr (inr refl)

abbrev pub is_about : Text → ExternalPodAutoscaler → Bool
is_about key epa = about epa.metadata.namespace epa.metadata.name key

-- The jobs of the EPA of a key.
abbrev pub jobs_of : {Float : Type 0} → Text → Scheduler Float → List ScrapeJob
jobs_of key s = filter (λ (job : ScrapeJob). is_about key job.epa) s.jobs

-- The map of active EPAs has each object under its own key.
abbrev pub IsKeyed : Active → Type 0
IsKeyed epas = All (λ (entry : Text × ExternalPodAutoscaler). is_about entry.0 entry.1 ≡ true) epas

module _ (parse_duration : Text → Option ℕ) where
  -- An entry for the key has the given interval.
  abbrev pub HasInterval : Text → ℕ → Text × ExternalPodAutoscaler → Type 0
  HasInterval key interval (j, epa) =
      j ≡ key → parse_duration epa.spec.scrape.interval ≡ some interval

  -- A tick at which the EPA is active with the given interval.
  pub record IsActiveAt (key : Text) (interval : ℕ) (t : TickInput) : Type 0 where
    pub active : contains_key key t.epas ≡ true
    pub keyed : IsKeyed t.epas
    pub steady : All (HasInterval key interval) t.epas

pub filter-append :
    {A : Type 0} (p : A → Bool) (xs ys : List A) → filter p (xs ++ ys) ≡ filter p xs ++ filter p ys
filter-append p [] ys = refl
filter-append p (x ∷ xs) ys = ground (arith, filter-append p xs ys)

pub no_jobs :
    (key : Text) (epa : ExternalPodAutoscaler) (period interval n : ℕ) (pods : List Pod)
    → is_about key epa ≡ false
    → filter
        (λ (job : ScrapeJob). is_about key job.epa)
        (take_jobs n (map (job_for epa period interval) pods))
      ≡ []
no_jobs key epa period interval n [] h = refl
no_jobs key epa period interval zero (pod ∷ pods) h = refl
no_jobs key epa period interval (suc n) (pod ∷ pods) h =
    rw h (no_jobs key epa period interval n pods h)

pub about_apart :
    (namespace name : Option Text) (j key : Text)
    → about namespace name j ≡ true
    → (j == key) ≡ false
    → about namespace name key ≡ false
about_apart none name j key h ne = refl
about_apart (some namespace) none j key h ne = refl
about_apart (some namespace) (some name) j key h ne =
    ground (arith, text_beq_iff (epa_key namespace name) j, text_beq_iff j key)

-- What a step leaves of the EPA of the key: nothing happened to it, or it has had its round.
abbrev pub Kept : {Float : Type 0} → Text → Scheduler Float → Scheduler Float → Type 0
Kept key s s' =
    (jobs_of key s' ≡ jobs_of key s) × (lookup key s'.next_scrape ≡ lookup key s.next_scrape)

abbrev pub Scraped :
    {Float : Type 0} → Text → (interval now : ℕ) → Scheduler Float → Scheduler Float → Type 0
Scraped key interval now s s' =
    (lookup key s'.next_scrape ≡ some (now + interval, interval))
    × (waits (lookup key s.next_scrape) interval now ≡ false)

module _ {Float : Type 0} (hasher : Hasher) (my_id : Text) (instant_max : ℕ)
    (parse_duration : Text → Option ℕ) (key : Text) where
  -- A round of another EPA.
  pub scraped_apart :
      (j : Text) (epa : ExternalPodAutoscaler) (now : ℕ) (r : Readings) (s s' : Scheduler Float)
      → is_about j epa ≡ true
      → (j == key) ≡ false
      → Round hasher my_id instant_max parse_duration j epa now r s s'
      → (jobs_of key s' ≡ jobs_of key s) × (lookup key s'.next_scrape ≡ lookup key s.next_scrape)
  scraped_apart j epa now r s s' h ne round = (
    ap (filter (λ (job : ScrapeJob). is_about key job.epa)) round.sent
        ∙ filter-append (λ (job : ScrapeJob). is_about key job.epa) s.jobs _
        ∙ ap (λ t. jobs_of key s ++ t)
            (no_jobs key epa round.evaluation_period round.interval r.accepts
              (get_ready_pods round.pods round.selector)
              (about_apart epa.metadata.namespace epa.metadata.name j key h ne))
        ∙ append-nil _,
    ap (lookup key) round.scheduled
        ∙ lookup-insert j key (now + round.interval, round.interval) s.next_scrape
        ∙ rw ne refl,
  )

  -- A round of the EPA itself.
  pub scraped_here :
      (epa : ExternalPodAutoscaler) (now interval : ℕ) (r : Readings) (s s' : Scheduler Float)
      → parse_duration epa.spec.scrape.interval ≡ some interval
      → Round hasher my_id instant_max parse_duration key epa now r s s'
      → (lookup key s'.next_scrape ≡ some (now + interval, interval))
        × (waits (lookup key s.next_scrape) interval now ≡ false)
  scraped_here epa now interval r s s' p round =
      let same : round.interval ≡ interval = some_inj.0 (sym round.is_interval ∙ p) in
      (
        ap (lookup key) round.scheduled
            ∙ lookup-insert key key (now + round.interval, round.interval) s.next_scrape
            ∙ rw (text_beq_refl key, same) refl,
        rw (sym same) round.due,
      )

  pub process_epa_step :
      (j : Text) (epa : ExternalPodAutoscaler) (now interval : ℕ) (r : Readings)
      (s : Scheduler Float)
      → is_about j epa ≡ true
      → HasInterval parse_duration key interval (j, epa)
      → let s' = (process_epa hasher my_id instant_max parse_duration j epa now r s).0 in
        Kept key s s' ⊎ Scraped key interval now s s'
  process_epa_step j epa now interval r s h steady =
      let s' = (process_epa hasher my_id instant_max parse_duration j epa now r s).0 in
      elim (process_epa_cases hasher my_id instant_max parse_duration j epa now r s) [
        | inl (jobs, next) ↦
            inl (ap (filter (λ (job : ScrapeJob). is_about key job.epa)) jobs, ap (lookup key) next)
        | inr round ↦ elim (Bool-cases (j == key)) [
          | inr ne ↦ inl (scraped_apart j epa now r s s' h ne round)
          | inl e ↦
              let same = (text_beq_iff j key).0 e in
              inr (
                scraped_here epa now interval r s s' (steady same) (
                  subst (λ k. Round hasher my_id instant_max parse_duration k epa now r s s') same
                    round))
        ]
      ]

  -- An invariant of the steps is an invariant of the pass.
  pub process_epas_ind :
      (P : Scheduler Float → Type 0) (epas : Active) (now : ℕ) (r : Text → Readings)
      → All
          (λ (entry : Text × ExternalPodAutoscaler).
            (s : Scheduler Float)
            → P s
            → P
                (process_epa hasher my_id instant_max parse_duration entry.0 entry.1 now
                  (r entry.0)
                  s).0)
          epas
      → (s : Scheduler Float) → P s
      → P (process_epas hasher my_id instant_max parse_duration epas now r s).0
  unfolding process_epas
  process_epas_ind P [] now r steps s h = h
  process_epas_ind P ((j, epa) ∷ epas) now r (step, steps) s h =
      let result = process_epa hasher my_id instant_max parse_duration j epa now (r j) s in
      elim (Next-cases (next_of result.1 (r j).closed)) [
        | inl e ↦ rw (e, process_epas) (process_epas_ind P epas now r steps result.0 (step s h))
        | inr (inl e) ↦ rw (e, process_epas) (step s h)
        | inr (inr e) ↦ rw (e, process_epas) (step s h)
      ]

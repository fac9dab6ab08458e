-- ===== src/Controller/Status/Transitions.antt =====
-- The time of the last transition over a run of patches.
use external_pod_autoscaler.Prelude.{
  ◌≡◌, refl, Bool, true, false, not, List, [], ◌∷◌, ◌++◌, Option, none, some, if◌then◌else◌, ◌==◌,
  ap, ◌∙◌, All,
}
use external_pod_autoscaler.Text.{Text, text_Eq, text_beq_refl}
use external_pod_autoscaler.Controller.Status.{
  Condition, ExternalPodAutoscalerStatus, StatusApi, StatusPatch, condition_status, existing_ready,
  kept_time, ready_patch, patch_epa_status,
}

-- The status and the time of the condition `Ready`.
abbrev pub view : Option Condition → Option (Text × Text)
view none = none
view (some c) = some (c.status, c.last_transition_time)

abbrev pub view_of : (k8s : StatusApi) → k8s.Server → Option (Text × Text)
view_of k8s server = view (existing_ready (k8s.get server))

-- What the API server promises of a merge patch that it accepts: a later read has its conditions.
pub record ReadsPatches (k8s : StatusApi) : Type 0 where
  pub reads :
      (patch : StatusPatch) (server server' : k8s.Server)
      → k8s.patch_status patch server ≡ (true, server')
      → (status : ExternalPodAutoscalerStatus) × (k8s.get server' ≡ some (some status))
        × (status.conditions ≡ patch.conditions)

-- A run of patches that succeed, the latest first, each with its outcome and its time. Between
-- them the object changes in other ways, as the counts of the scheduler do, that leave the condition.
pub data Patches (k8s : StatusApi) (start : k8s.Server)
    : List (Bool × Text) → k8s.Server → Type 0 where
  here : Patches k8s start [] start
  patched :
      {log : List (Bool × Text)} {server server' : k8s.Server}
      → Patches k8s start log server
      → (name : Text) (ready : Bool) (now reason message : Text)
      → patch_epa_status k8s name ready now reason message server ≡ (true, server')
      → Patches k8s start ((ready, now) ∷ log) server'
  apart :
      {log : List (Bool × Text)} {server : k8s.Server}
      → Patches k8s start log server
      → (server' : k8s.Server) → view_of k8s server' ≡ view_of k8s server
      → Patches k8s start log server'

-- The condition after each patch of a run.
abbrev settled_time : Bool → Text → Option (Text × Text) → Text
settled_time ready now none = now
settled_time ready now (some (status, time)) =
    if status == condition_status ready then time else now

abbrev settled : Option (Text × Text) → List (Bool × Text) → Option (Text × Text)
settled before [] = before
settled before ((ready, now) ∷ log) =
    some (condition_status ready, settled_time ready now (settled before log))

kept_settled :
    (ready : Bool) (now : Text) (c : Option Condition)
    → kept_time ready now c ≡ settled_time ready now (view c)
kept_settled ready now none = refl
kept_settled ready now (some c) = refl

one_patch :
    (k8s : StatusApi)
    → ReadsPatches k8s
    → (name : Text) (ready : Bool) (now reason message : Text) (server server' : k8s.Server)
    → patch_epa_status k8s name ready now reason message server ≡ (true, server')
    → view_of k8s server'
      ≡ some (condition_status ready, settled_time ready now (view_of k8s server))
unfolding patch_epa_status
one_patch k8s laws name ready now reason message server server' h =
    let c = existing_ready (k8s.get server) in
    let (status, answer, same) =
      laws.reads (ready_patch name ready now (kept_time ready now c) reason message) server server'
        h in
    rw (answer, same, kept_settled ready now c) refl

Patches-settled :
    (k8s : StatusApi) {start : k8s.Server} {log : List (Bool × Text)} {server : k8s.Server}
    → ReadsPatches k8s
    → Patches k8s start log server
    → view_of k8s server ≡ settled (view_of k8s start) log
Patches-settled k8s laws here = refl
Patches-settled k8s laws (patched {log} {server} {server'} run name ready now reason message h) =
    one_patch k8s laws name ready now reason message server server' h
    ∙ ap (λ v. some (condition_status ready, settled_time ready now v))
        (Patches-settled k8s laws run)
Patches-settled k8s laws (apart run server' same) = same ∙ Patches-settled k8s laws run

-- In front of a run of equal outcomes stands another outcome, or a condition of another status.
abbrev pub Turns : Option (Text × Text) → List (Bool × Text) → Bool → Type 0
Turns none [] ready = Unit
Turns (some (status, time)) [] ready = (status == condition_status ready) ≡ false
Turns before ((other, now) ∷ log) ready = other ≡ not ready

turned :
    (before : Option (Text × Text)) (log : List (Bool × Text)) (ready : Bool) (now : Text)
    → Turns before log ready
    → settled_time ready now (settled before log) ≡ now
turned none [] ready now h = refl
turned (some (status, time)) [] ready now h = rw h refl
turned none ((other, then_) ∷ log) true now h = rw h refl
turned none ((other, then_) ∷ log) false now h = rw h refl
turned (some v) ((other, then_) ∷ log) true now h = rw h refl
turned (some v) ((other, then_) ∷ log) false now h = rw h refl

unturned :
    (before : Option (Text × Text)) (same log : List (Bool × Text)) (ready : Bool) (now : Text)
    → All (λ (p : Bool × Text). p.0 ≡ ready) same
    → Turns before log ready
    → settled before (same ++ (ready, now) ∷ log) ≡ some (condition_status ready, now)
unturned before [] log ready now a h =
    ap (λ t. some (condition_status ready, t)) (turned before log ready now h)
unturned before ((other, later) ∷ same) log ready now (e, a) h =
    rw (e, unturned before same log ready now a h, text_beq_refl (condition_status ready)) refl

-- The condition shows the last transition: after any run of patches that succeed, with other changes
-- of the object between them, the status is that of the latest outcome, and the time is that of the
-- first patch since the outcome was another. The server reads back what it has accepted.
pub patch_epa_status-keeps_transition :
    (k8s : StatusApi) {start server : k8s.Server} (same log : List (Bool × Text)) (ready : Bool)
    (now : Text)
    → ReadsPatches k8s
    → Patches k8s start (same ++ (ready, now) ∷ log) server
    → All (λ (p : Bool × Text). p.0 ≡ ready) same
    → Turns (view_of k8s start) log ready
    → view_of k8s server ≡ some (condition_status ready, now)
patch_epa_status-keeps_transition k8s {start} same log ready now laws run a h =
    Patches-settled k8s laws run ∙ unturned (view_of k8s start) same log ready now a h

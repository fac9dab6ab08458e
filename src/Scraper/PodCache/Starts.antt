-- ===== src/Scraper/PodCache/Starts.antt =====
-- Who starts the reflector of a namespace, and what the set `starting` says of it.
use mathlib.Core.Path.{subst}
use external_pod_autoscaler.Prelude.{
  ℕ, ◌+◌, ◌≡◌, inl, inr, Bool, true, false, arith, nat_eq, ◌==◌, ◌∙◌, sym, ap, Bool-cases,
  nat_eq_iff, contains,
}
use external_pod_autoscaler.Text.{Text, text_Eq}
use external_pod_autoscaler.Assoc.{Nodup}
use external_pod_autoscaler.Assoc.Laws.{
  contains-insert_elem, insert_elem-Nodup, contains-remove_elem, remove_elem-Nodup,
}
use external_pod_autoscaler.Scraper.PodCache.{
  Call, outside, entered, checked, waiting, syncing, finishing, PodCache, update, empty_cache, Step,
  enters, finds_store, finds_none, waits, wakes, gives_up, spawns, publishes, writer_dropped,
  sync_times_out, finishes, syncs, ends, clears, ticks, Steps, here, next,
}

-- From the spawn of the reflector to the removal of the flag.
abbrev pub starts : Text → Call → Bool
starts n (syncing namespace id deadline) = namespace == n
starts n (finishing namespace) = namespace == n
starts n outside = false
starts n (entered namespace) = false
starts n (checked namespace) = false
starts n (waiting namespace deadline) = false

-- A call that starts a reflector for as many namespaces as the call that it takes the place of.
starts_still :
    (n : Text) (f : ℕ → Call) (i j : ℕ) (call : Call)
    → (starts n (f i) ≡ true → starts n call ≡ true)
    → starts n (f j) ≡ true
    → starts n (update f i call j) ≡ true
starts_still n f i j call keeps h = elim (Bool-cases (nat_eq i j)) [
  | inl e ↦
      let same : j ≡ i = sym ((nat_eq_iff i j).0 e) in
      rw e (keeps (subst (λ k. starts n (f k) ≡ true) same h))
  | inr e ↦ rw e h
]

pub starts_before :
    (n : Text) (f : ℕ → Call) (i j : ℕ) (call : Call)
    → (starts n call ≡ true → starts n (f i) ≡ true)
    → starts n (update f i call j) ≡ true
    → starts n (f j) ≡ true
starts_before n f i j call keeps h = elim (Bool-cases (nat_eq i j)) [
  | inl e ↦
      let same : i ≡ j = (nat_eq_iff i j).0 e in
      subst (λ k. starts n (f k) ≡ true) same (keeps (ground arith))
  | inr e ↦ ground arith
]

-- A worker is starting the reflector of each namespace in the set.
abbrev pub HasStarter : PodCache → Text → Type 0
HasStarter c n = (i : ℕ) × (starts n (c.calls i) ≡ true)

pub record IsFlagged (c : PodCache) : Type 0 where
  pub starting_once : Nodup c.starting
  pub starter : (n : Text) → contains c.starting n ≡ true → HasStarter c n

-- The steps of a call that is starting nothing before and after.
same_starter :
    (f : ℕ → Call) (i : ℕ) (before call : Call) (n : Text)
    → f i ≡ before
    → (starts n before ≡ true → starts n call ≡ true)
    → (j : ℕ) × (starts n (f j) ≡ true)
    → (j : ℕ) × (starts n (update f i call j) ≡ true)
same_starter f i before call n e keeps (j, h) =
    (j, starts_still n f i j call (λ k. keeps (ap (starts n) (sym e) ∙ k)) h)

Step-starter :
    {c d : PodCache}
    → Step c d
    → IsFlagged c
    → (n : Text) → contains d.starting n ≡ true
    → HasStarter d n
Step-starter {c} (enters i m e f) g n h =
    same_starter c.calls i outside (entered m) n e (λ k. ground arith) (g.starter n h)
Step-starter {c} (finds_store i m e f k) g n h =
    same_starter c.calls i (entered m) outside n e (λ k. ground arith) (g.starter n h)
Step-starter {c} (finds_none i m e f k) g n h =
    same_starter c.calls i (entered m) (checked m) n e (λ k. ground arith) (g.starter n h)
Step-starter {c} (waits i m e f) g n h =
    same_starter c.calls i (checked m) (waiting m (c.now + 30)) n e (λ k. ground arith)
      (g.starter n h)
Step-starter {c} (wakes i m deadline e f) g n h =
    same_starter c.calls i (waiting m deadline) outside n e (λ k. ground arith) (g.starter n h)
Step-starter {c} (gives_up i m deadline e f) g n h =
    same_starter c.calls i (waiting m deadline) outside n e (λ k. ground arith) (g.starter n h)
Step-starter {c} (spawns i m e f) g n h = elim (Bool-cases (m == n)) [
  | inl own ↦ (i, ground (arith, nat_eq_iff i i))
  | inr ne ↦
      same_starter c.calls i (checked m) (syncing m c.spawned (c.now + 30)) n e (λ k. ground arith)
        (g.starter n (ground (arith, contains-insert_elem m n c.starting)))
]
Step-starter {c} (publishes i m id deadline e s) g n h =
    same_starter c.calls i (syncing m id deadline) (finishing m) n e (λ k. k) (g.starter n h)
Step-starter {c} (writer_dropped i m id deadline e s t) g n h =
    same_starter c.calls i (syncing m id deadline) (finishing m) n e (λ k. k) (g.starter n h)
Step-starter {c} (sync_times_out i m id deadline e s t) g n h =
    same_starter c.calls i (syncing m id deadline) (finishing m) n e (λ k. k) (g.starter n h)
Step-starter {c} (finishes i m e f) g n h =
    same_starter c.calls i (finishing m) outside n e
      (λ k. ground (arith, contains-remove_elem m n c.starting g.starting_once))
      (g.starter n (ground (arith, contains-remove_elem m n c.starting g.starting_once)))
Step-starter (syncs id t) g n h = g.starter n h
Step-starter (ends id t) g n h = g.starter n h
Step-starter {c} (clears id t f) g n h = g.starter n (
    ground (arith, contains-remove_elem ((c.reflectors id).namespace) n c.starting g.starting_once))
Step-starter ticks g n h = g.starter n h

pub Step-Nodup : {c d : PodCache} → Step c d → Nodup c.starting → Nodup d.starting
Step-Nodup {c} (spawns i m e f) u = insert_elem-Nodup m c.starting u
Step-Nodup {c} (finishes i m e f) u = remove_elem-Nodup m c.starting u
Step-Nodup {c} (clears id t f) u = remove_elem-Nodup ((c.reflectors id).namespace) c.starting u
Step-Nodup _ u = u

Steps-IsFlagged : {c d : PodCache} → Steps c d → IsFlagged c → IsFlagged d
Steps-IsFlagged here g = g
Steps-IsFlagged (next steps step) g =
    let g' = Steps-IsFlagged steps g in
    record { starting_once = Step-Nodup step g'.starting_once; starter = Step-starter step g' }

empty_cache-IsFlagged : IsFlagged empty_cache
empty_cache-IsFlagged = record { starting_once = tt; starter = λ n h. absurd (ground arith) }

-- No flag is left behind: in every state that the calls and the tasks reach, in any order of their
-- steps and with streams that end at any point, a namespace in `starting` has a worker that has
-- spawned its reflector and has the removal of the flag before it.
pub flag-HasStarter :
    {c : PodCache} (n : Text) → Steps empty_cache c → contains c.starting n ≡ true → HasStarter c n
flag-HasStarter n steps h = (Steps-IsFlagged steps empty_cache-IsFlagged).starter n h

-- A run in which no stream that has ended clears the flag of a namespace that a worker is starting.
abbrev pub Spares : {c d : PodCache} → Step c d → Type 0
Spares {c} (clears id t f) = (i : ℕ) → starts ((c.reflectors id).namespace) (c.calls i) ≡ false
Spares _ = Unit

abbrev pub AllSpare : {c d : PodCache} → Steps c d → Type 0
AllSpare here = Unit
AllSpare (next steps step) = AllSpare steps × Spares step

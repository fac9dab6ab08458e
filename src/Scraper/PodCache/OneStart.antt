-- ===== src/Scraper/PodCache/OneStart.antt =====
-- That no two workers start the reflector of one namespace.
use external_pod_autoscaler.Prelude.{
  ℕ, ◌+◌, ◌≡◌, ◌⊎◌, refl, inl, inr, true, false, arith, nat_eq, ◌==◌, ◌∙◌, sym, ap, Bool-cases,
  nat_eq_iff, contains,
}
use external_pod_autoscaler.Text.{Text, text_Eq, text_beq_iff}
use external_pod_autoscaler.Assoc.{Nodup}
use external_pod_autoscaler.Assoc.Laws.{contains-insert_elem, contains-remove_elem}
use external_pod_autoscaler.Scraper.PodCache.{
  Call, outside, entered, checked, waiting, syncing, finishing, PodCache, update, empty_cache, Step,
  enters, finds_store, finds_none, waits, wakes, gives_up, spawns, publishes, writer_dropped,
  sync_times_out, finishes, syncs, ends, clears, ticks, Steps, here, next, spawn_reflector,
}
use external_pod_autoscaler.Scraper.PodCache.Starts.{
  starts, starts_before, Step-Nodup, Spares, AllSpare,
}

-- Each start has its flag, and no namespace is started twice at a time.
pub record IsExclusive (c : PodCache) : Type 0 where
  pub starting_once : Nodup c.starting
  pub flagged : (n : Text) (i : ℕ) → starts n (c.calls i) ≡ true → contains c.starting n ≡ true
  pub alone :
      (n : Text) (i j : ℕ) → starts n (c.calls i) ≡ true → starts n (c.calls j) ≡ true → i ≡ j

-- The worker `j` begins to start the namespace in this step, and no other does.
abbrev Begins : PodCache → PodCache → Text → ℕ → Type 0
Begins c d n j =
    (contains c.starting n ≡ false)
    × (contains d.starting n ≡ true)
    × ((k : ℕ) → starts n (d.calls k) ≡ true → (starts n (c.calls k) ≡ true) ⊎ (k ≡ j))

started_before :
    (f : ℕ → Call) (i : ℕ) (before call : Call) (n : Text) (j : ℕ)
    → f i ≡ before
    → (starts n call ≡ true → starts n before ≡ true)
    → starts n (update f i call j) ≡ true
    → starts n (f j) ≡ true
started_before f i before call n j e keeps h =
    starts_before n f i j call (λ k. ap (starts n) e ∙ keeps k) h

begins :
    (f : ℕ → Call) (i j : ℕ) (n m : Text) (id deadline : ℕ)
    → starts n (update f i (syncing m id deadline) j) ≡ true
    → (starts n (f j) ≡ true) ⊎ ((j ≡ i) × (m ≡ n))
begins f i j n m id deadline h = elim (Bool-cases (nat_eq i j)) [
  | inl e ↦ inr (sym ((nat_eq_iff i j).0 e), ground (arith, text_beq_iff m n))
  | inr e ↦ inl (ground arith)
]

spawn-Begins :
    (c d : PodCache) (i : ℕ) (m : Text) (id deadline : ℕ) (n : Text) (j : ℕ)
    → d.calls ≡ update c.calls i (syncing m id deadline)
    → contains d.starting m ≡ true
    → contains c.starting m ≡ false
    → starts n (d.calls j) ≡ true
    → (starts n (c.calls j) ≡ true) ⊎ Begins c d n j
spawn-Begins c d i m id deadline n j e added fresh h =
    let as_updated = λ (k : ℕ) (g : starts n (d.calls k) ≡ true).
      begins c.calls i k n m id deadline (ap (λ (f : ℕ → Call). starts n (f k)) (sym e) ∙ g) in
    elim (as_updated j h) [
      | inl before ↦ inl before
      | inr (here_j, own) ↦ inr (
        ground (arith, own),
        ground (arith, own),
        λ k g. elim (as_updated k g) [
          | inl before ↦ inl before
          | inr (here_k, _) ↦ inr (here_k ∙ sym here_j)
        ],
      )
    ]

Step-before :
    {c d : PodCache}
    → Step c d
    → (n : Text) (j : ℕ) → starts n (d.calls j) ≡ true
    → (starts n (c.calls j) ≡ true) ⊎ Begins c d n j
Step-before {c} (enters i m e f) n j h =
    inl (started_before c.calls i outside (entered m) n j e (λ k. ground arith) h)
Step-before {c} (finds_store i m e f k) n j h =
    inl (started_before c.calls i (entered m) outside n j e (λ k. ground arith) h)
Step-before {c} (finds_none i m e f k) n j h =
    inl (started_before c.calls i (entered m) (checked m) n j e (λ k. ground arith) h)
Step-before {c} (waits i m e f) n j h =
    inl (started_before c.calls i (checked m) (waiting m (c.now + 30)) n j e (λ k. ground arith) h)
Step-before {c} (wakes i m deadline e f) n j h =
    inl (started_before c.calls i (waiting m deadline) outside n j e (λ k. ground arith) h)
Step-before {c} (gives_up i m deadline e f) n j h =
    inl (started_before c.calls i (waiting m deadline) outside n j e (λ k. ground arith) h)
Step-before {c} (spawns i m e f) n j h =
    spawn-Begins c (spawn_reflector i m c) i m c.spawned (c.now + 30) n j refl
      (ground (arith, contains-insert_elem m m c.starting, text_beq_iff m m)) f h
Step-before {c} (publishes i m id deadline e s) n j h =
    inl (started_before c.calls i (syncing m id deadline) (finishing m) n j e (λ k. k) h)
Step-before {c} (writer_dropped i m id deadline e s t) n j h =
    inl (started_before c.calls i (syncing m id deadline) (finishing m) n j e (λ k. k) h)
Step-before {c} (sync_times_out i m id deadline e s t) n j h =
    inl (started_before c.calls i (syncing m id deadline) (finishing m) n j e (λ k. k) h)
Step-before {c} (finishes i m e f) n j h =
    inl (started_before c.calls i (finishing m) outside n j e (λ k. ground arith) h)
Step-before (syncs id t) n j h = inl h
Step-before (ends id t) n j h = inl h
Step-before (clears id t f) n j h = inl h
Step-before ticks n j h = inl h

-- A start that goes on across a step keeps its flag.
Step-flag :
    {c d : PodCache} (step : Step c d)
    → IsExclusive c
    → Spares step
    → (n : Text) (j : ℕ) → starts n (c.calls j) ≡ true
    → starts n (d.calls j) ≡ true
    → contains d.starting n ≡ true
Step-flag {c} (spawns i m e f) x s n j before after =
    ground (arith, contains-insert_elem m n c.starting, x.flagged n j before)
Step-flag {c} (finishes i m e f) x s n j before after = elim (Bool-cases (m == n)) [
  | inl own ↦
      let finisher : starts n (c.calls i) ≡ true = ap (starts n) e ∙ own in
      let same : i ≡ j = x.alone n i j finisher before in absurd (ground (arith, nat_eq_iff i j))
  | inr ne ↦
      ground (arith, contains-remove_elem m n c.starting x.starting_once, x.flagged n j before)
]
Step-flag {c} (clears id t f) x s n j before after =
    let m = (c.reflectors id).namespace in
    ground (
      arith,
      contains-remove_elem m n c.starting x.starting_once,
      x.flagged n j before,
      s j,
      text_beq_iff m n,
    )
Step-flag _ x s n j before after = x.flagged n j before

Step-IsExclusive : {c d : PodCache} (step : Step c d) → IsExclusive c → Spares step → IsExclusive d
Step-IsExclusive step x s = record {
  starting_once = Step-Nodup step x.starting_once;
  flagged = λ n i h. elim (Step-before step n i h) [
    | inl before ↦ Step-flag step x s n i before h
    | inr (_, added, _) ↦ added
  ];
  alone = λ n i j h k. elim (Step-before step n j k) [
    | inl before_j ↦ elim (Step-before step n i h) [
      | inl before_i ↦ x.alone n i j before_i before_j
      | inr (fresh, _, _) ↦ absurd (ground (arith, x.flagged n j before_j))
    ]
    | inr (fresh, _, others) ↦ elim (others i h) [
      | inl before_i ↦ absurd (ground (arith, x.flagged n i before_i))
      | inr same ↦ same
    ]
  ];
}

Steps-IsExclusive :
    {c d : PodCache} (steps : Steps c d) → IsExclusive c → AllSpare steps → IsExclusive d
Steps-IsExclusive here x s = x
Steps-IsExclusive (next steps step) x (s, t) = Step-IsExclusive step (Steps-IsExclusive steps x s) t

empty_cache-IsExclusive : IsExclusive empty_cache
empty_cache-IsExclusive = record {
  starting_once = tt;
  flagged = λ n i h. absurd (ground arith);
  alone = λ n i j h k. absurd (ground arith);
}

-- One reflector is started at a time: in every run in which no stream that has ended clears the
-- flag of a namespace that a worker is starting, in any order of the steps, no two workers stand
-- between the spawn of a reflector for one namespace and the removal of its flag, and the flag is
-- set where one does.
pub one_start_at_a_time :
    {c : PodCache} (n : Text) (i j : ℕ) (steps : Steps empty_cache c)
    → AllSpare steps
    → starts n (c.calls i) ≡ true
    → starts n (c.calls j) ≡ true
    → (i ≡ j) × (contains c.starting n ≡ true)
one_start_at_a_time n i j steps s h k =
    let x = Steps-IsExclusive steps empty_cache-IsExclusive s in
    (x.alone n i j h k, x.flagged n i h)

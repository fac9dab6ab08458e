-- ===== src/Scraper/PodCache/Published.antt =====
-- What stands in the map of the stores: readers whose first list has come.
use external_pod_autoscaler.Prelude.{
  ℕ, ◌+◌, ◌≤◌, ◌<◌, ◌≡◌, ◌⊎◌, refl, inl, inr, true, some, arith, nat_eq, ◌==◌, ◌∙◌, Bool-cases,
  nat_eq_iff,
}
use external_pod_autoscaler.Text.{Text, text_Eq, text_beq_iff}
use external_pod_autoscaler.Assoc.{lookup, Unique, insert, remove}
use external_pod_autoscaler.Assoc.Laws.{lookup-insert, lookup-remove, insert-Unique, remove-Unique}
use external_pod_autoscaler.Scraper.PodCache.{
  Call, outside, entered, checked, waiting, syncing, finishing, PodCache, update, empty_cache, Step,
  enters, finds_store, finds_none, waits, wakes, gives_up, spawns, publishes, writer_dropped,
  sync_times_out, finishes, syncs, ends, clears, ticks, Steps, here, next, spawn_reflector,
}
use mathlib.Core.Path.{subst}

-- The reflectors that were spawned keep their namespaces, and what has synced.
abbrev pub Extends : PodCache → PodCache → Type 0
Extends c d =
    (c.spawned ≤ d.spawned)
    × ((id : ℕ)
        → id < c.spawned
        → ((d.reflectors id).namespace ≡ (c.reflectors id).namespace)
          × ((c.reflectors id).synced ≡ true → (d.reflectors id).synced ≡ true))

Step-Extends : {c d : PodCache} → Step c d → Extends c d
Step-Extends {c} (spawns i namespace e f) = (omega arith, λ id h. (ground arith, λ s. ground arith))
Step-Extends {c} (writer_dropped i namespace id deadline e s t) =
    (omega arith, λ k h. (ground arith, λ u. ground arith))
Step-Extends {c} (sync_times_out i namespace id deadline e s t) =
    (omega arith, λ k h. (ground arith, λ u. ground arith))
Step-Extends {c} (syncs id t) = (omega arith, λ k h. (ground arith, λ u. ground arith))
Step-Extends {c} (ends id t) = (omega arith, λ k h. (ground arith, λ u. ground arith))
Step-Extends {c} (clears id t f) = (omega arith, λ k h. (ground arith, λ u. ground arith))
Step-Extends _ = (omega arith, λ id h. (refl, λ s. s))

-- A reflector of the namespace, and one whose first list has come.
abbrev pub IsStarted : PodCache → Text → ℕ → Type 0
IsStarted c namespace id = (id < c.spawned) × ((c.reflectors id).namespace ≡ namespace)

abbrev pub IsSynced : PodCache → Text → ℕ → Type 0
IsSynced c namespace id = IsStarted c namespace id × ((c.reflectors id).synced ≡ true)

IsStarted-still :
    {c d : PodCache} (namespace : Text) (id : ℕ)
    → Step c d
    → IsStarted c namespace id
    → IsStarted d namespace id
IsStarted-still namespace id step (lt, own) =
    let more = Step-Extends step in (omega (arith, more.0), (more.1 id lt).0 ∙ own)

IsSynced-still :
    {c d : PodCache} (namespace : Text) (id : ℕ)
    → Step c d
    → IsSynced c namespace id
    → IsSynced d namespace id
IsSynced-still namespace id step ((lt, own), s) =
    (IsStarted-still namespace id step (lt, own), ((Step-Extends step).1 id lt).1 s)

pub record IsPublished (c : PodCache) : Type 0 where
  pub stores_unique : Unique c.stores
  pub stores_synced :
      (namespace : Text) (id : ℕ) → lookup namespace c.stores ≡ some id → IsSynced c namespace id
  pub call_started :
      (i : ℕ) (namespace : Text) (id deadline : ℕ)
      → c.calls i ≡ syncing namespace id deadline
      → IsStarted c namespace id

-- A call after a write to one call.
pub update-cases {ℓ} :
    {A : Type ℓ} (f : ℕ → A) (i j : ℕ) (a b : A)
    → update f i a j ≡ b
    → ((i ≡ j) × (a ≡ b)) ⊎ (f j ≡ b)
update-cases f i j a b h = elim (Bool-cases (nat_eq i j)) [
  | inl e ↦ inl ((nat_eq_iff i j).0 e, ground arith)
  | inr e ↦ inr (ground arith)
]

-- The calls that wait for a sync after a write of a call that does not.
other_call :
    (f : ℕ → Call) (i j : ℕ) (call : Call) (namespace : Text) (id deadline : ℕ)
    → ((namespace' : Text) (id' deadline' : ℕ) → call ≡ syncing namespace' id' deadline' → ⊥)
    → update f i call j ≡ syncing namespace id deadline
    → f j ≡ syncing namespace id deadline
other_call f i j call namespace id deadline ne h =
    elim (update-cases f i j call (syncing namespace id deadline) h) [
      | inl (_, e) ↦ absurd (ne namespace id deadline e)
      | inr e ↦ e
    ]

not_outside : (namespace : Text) (id deadline : ℕ) → outside ≡ syncing namespace id deadline → ⊥
not_outside namespace id deadline h = cc

not_finishing :
    (n namespace : Text) (id deadline : ℕ) → finishing n ≡ syncing namespace id deadline → ⊥
not_finishing n namespace id deadline h = cc

-- What a publication leaves, and what a removal does.
published_store :
    (c : PodCache) (n : Text) (id : ℕ)
    → IsSynced c n id
    → IsPublished c
    → (namespace : Text) (k : ℕ) → lookup namespace (insert n id c.stores) ≡ some k
    → IsSynced c namespace k
published_store c n id own p namespace k h = elim (Bool-cases (n == namespace)) [
  | inl e ↦
      let same : n ≡ namespace = (text_beq_iff n namespace).0 e in
      let new : id ≡ k = ground (arith, lookup-insert n namespace id c.stores) in
      subst (λ m. IsSynced c m k) same (subst (λ m. IsSynced c n m) new own)
  | inr e ↦ p.stores_synced namespace k (ground (arith, lookup-insert n namespace id c.stores))
]

remaining :
    (n namespace : Text) (k : ℕ) (c : PodCache)
    → IsPublished c
    → lookup namespace (remove n c.stores) ≡ some k
    → lookup namespace c.stores ≡ some k
remaining n namespace k c p h = ground (arith, lookup-remove n namespace c.stores p.stores_unique)

-- The call of a worker that has spawned a reflector.
spawned_call :
    (c : PodCache) (i : ℕ) (n : Text) (j : ℕ) (namespace : Text) (id deadline : ℕ)
    → (spawn_reflector i n c).calls j ≡ syncing namespace id deadline
    → (c.calls j ≡ syncing namespace id deadline) ⊎ IsStarted (spawn_reflector i n c) namespace id
spawned_call c i n j namespace id deadline h =
    elim (update-cases c.calls i j (syncing n c.spawned (c.now + 30))
      (syncing namespace id deadline) h) [
        | inl (_, e) ↦
            let own : n ≡ namespace = ground arith in
            let new : c.spawned ≡ id = ground arith in
            inr (omega (arith, new), ground (arith, nat_eq_iff c.spawned id))
        | inr e ↦ inl e
      ]

-- A call that waits for a sync was doing so before the step, or has spawned its reflector in it.
Step-call :
    {c d : PodCache}
    → Step c d
    → (j : ℕ) (namespace : Text) (id deadline : ℕ) → d.calls j ≡ syncing namespace id deadline
    → (c.calls j ≡ syncing namespace id deadline) ⊎ IsStarted d namespace id
Step-call {c} (enters i n e f) j m k t h =
    inl (other_call c.calls i j (entered n) m k t (λ m k t h. cc) h)
Step-call {c} (finds_store i n e f g) j m k t h =
    inl (other_call c.calls i j outside m k t not_outside h)
Step-call {c} (finds_none i n e f g) j m k t h =
    inl (other_call c.calls i j (checked n) m k t (λ m k t h. cc) h)
Step-call {c} (waits i n e f) j m k t h =
    inl (other_call c.calls i j (waiting n (c.now + 30)) m k t (λ m k t h. cc) h)
Step-call {c} (wakes i n deadline e f) j m k t h =
    inl (other_call c.calls i j outside m k t not_outside h)
Step-call {c} (gives_up i n deadline e f) j m k t h =
    inl (other_call c.calls i j outside m k t not_outside h)
Step-call {c} (spawns i n e f) j m k t h = spawned_call c i n j m k t h
Step-call {c} (publishes i n id deadline e s) j m k t h =
    inl (other_call c.calls i j (finishing n) m k t (not_finishing n) h)
Step-call {c} (writer_dropped i n id deadline e s f) j m k t h =
    inl (other_call c.calls i j (finishing n) m k t (not_finishing n) h)
Step-call {c} (sync_times_out i n id deadline e s f) j m k t h =
    inl (other_call c.calls i j (finishing n) m k t (not_finishing n) h)
Step-call {c} (finishes i n e f) j m k t h =
    inl (other_call c.calls i j outside m k t not_outside h)
Step-call (syncs id f) j m k t h = inl h
Step-call (ends id f) j m k t h = inl h
Step-call (clears id e f) j m k t h = inl h
Step-call ticks j m k t h = inl h

Step-Unique : {c d : PodCache} → Step c d → Unique c.stores → Unique d.stores
Step-Unique {c} (publishes i n id deadline e s) u = insert-Unique n id c.stores u
Step-Unique {c} (ends id f) u = remove-Unique ((c.reflectors id).namespace) c.stores u
Step-Unique _ u = u

-- What the map has after a step was there, or has been published with its first list.
Step-store :
    {c d : PodCache} (namespace : Text) (k : ℕ)
    → Step c d
    → IsPublished c
    → lookup namespace d.stores ≡ some k
    → IsSynced c namespace k
Step-store {c} namespace k (publishes i n id deadline e s) p h =
    published_store c n id (p.call_started i n id deadline e, s) p namespace k h
Step-store {c} namespace k (ends id f) p h =
    p.stores_synced namespace k (remaining ((c.reflectors id).namespace) namespace k c p h)
Step-store namespace k _ p h = p.stores_synced namespace k h

Step-IsPublished : {c d : PodCache} → Step c d → IsPublished c → IsPublished d
Step-IsPublished step p = record {
  stores_unique = Step-Unique step p.stores_unique;
  stores_synced =
      λ namespace id h. IsSynced-still namespace id step (Step-store namespace id step p h);
  call_started = λ i namespace id deadline h. elim (Step-call step i namespace id deadline h) [
    | inl e ↦ IsStarted-still namespace id step (p.call_started i namespace id deadline e)
    | inr new ↦ new
  ];
}

Steps-IsPublished : {c d : PodCache} → Steps c d → IsPublished c → IsPublished d
Steps-IsPublished here p = p
Steps-IsPublished (next steps step) p = Step-IsPublished step (Steps-IsPublished steps p)

empty_cache-IsPublished : IsPublished empty_cache
empty_cache-IsPublished = record {
  stores_unique = tt;
  stores_synced = λ namespace id h. absurd (ground arith);
  call_started = λ i namespace id deadline h. absurd (ground arith);
}

-- A store is published only after its first list: in every state that the calls and the tasks
-- reach, in any order of their steps and with streams that end at any point, what the map has for a
-- namespace is the store of a reflector that was spawned for this namespace and has synced, and no
-- namespace stands twice.
pub published_store-IsSynced :
    {c : PodCache} (namespace : Text) (id : ℕ)
    → Steps empty_cache c
    → lookup namespace c.stores ≡ some id
    → IsSynced c namespace id × Unique c.stores
published_store-IsSynced namespace id steps h =
    let p = Steps-IsPublished steps empty_cache-IsPublished in
    (p.stores_synced namespace id h, p.stores_unique)

-- ===== src/Scraper/PodCache.antt =====
-- `PodCache` of src/scraper/pod_cache.rs: one reflector for a namespace, which the workers share.
-- The calls of `ensure_namespace` by the workers and the tasks of the reflectors are the steps of
-- one relation, in any order. The map of the stores is read and written with no lock; the set
-- `starting` stands behind one. What the reflector writes to its store is the library's: the model
-- has whether its first list has come. Time is a clock that goes on by itself, in seconds.
pub mod Published
pub mod OneStart
pub mod Starts
use external_pod_autoscaler.Prelude.{
  ℕ, ◌+◌, ◌≤◌, ◌≡◌, Bool, true, false, List, [], ◌∷◌, Option, none, some, if◌then◌else◌, ◌==◌,
  nat_eq, contains,
}
use external_pod_autoscaler.Text.{Text, text_Eq}
use external_pod_autoscaler.Assoc.{lookup, contains_key, insert, remove, insert_elem, remove_elem}
use external_pod_autoscaler.Scraper.Pods.{Pod, get_ready_pods}

-- The task of a reflector: in its loop, at the lock after its stream has ended, or at its end.
pub data Task : Type 0 where
  watching clearing stopped : Task

pub record Reflector : Type 0 where
  pub namespace : Text
  pub synced : Bool
  pub task : Task

-- Where a worker is in `ensure_namespace`: not in it, at the lock, in possession of the lock with
-- no store found, in the loop of those who wait for another, in `wait_until_ready` for the
-- reflector that it has spawned, or at the lock again with the outcome.
pub data Call : Type 0 where
  outside : Call
  entered : Text → Call
  checked : Text → Call
  waiting : Text → (deadline : ℕ) → Call
  syncing : Text → (reflector deadline : ℕ) → Call
  finishing : Text → Call

pub record PodCache : Type 0 where
  pub stores : List (Text × ℕ)
  pub starting : List Text
  -- Whether a worker that stands between its test and its entry holds the lock of `starting`.
  pub locked : Bool
  pub reflectors : ℕ → Reflector
  -- The number of reflectors that were spawned.
  pub spawned : ℕ
  pub calls : ℕ → Call
  pub now : ℕ

abbrev pub update {ℓ} : {A : Type ℓ} → (ℕ → A) → ℕ → A → ℕ → A
update f i a j = if nat_eq i j then a else f j

abbrev pub at_call : ℕ → Call → PodCache → PodCache
at_call i call c = record c { calls = update c.calls i call }

abbrev pub with_task : Task → Reflector → Reflector
with_task task r = record r { task = task }

abbrev pub at_task : ℕ → Task → PodCache → PodCache
at_task id task c = record c {
  reflectors = update c.reflectors id (with_task task (c.reflectors id));
}

abbrev pub no_reflector : Reflector
no_reflector = record { namespace = []; synced = false; task = stopped }

-- `PodCache::new`, before any call.
abbrev pub empty_cache : PodCache
empty_cache = record {
  stores = [];
  starting = [];
  locked = false;
  reflectors = λ id. no_reflector;
  spawned = 0;
  calls = λ i. outside;
  now = 0;
}

-- The entry in `starting`, and the spawn of the reflector, of the worker that holds the lock.
abbrev pub spawn_reflector : ℕ → Text → PodCache → PodCache
spawn_reflector i namespace c = record c {
  starting = insert_elem namespace c.starting;
  locked = false;
  reflectors =
      update c.reflectors c.spawned
        (record { namespace = namespace; synced = false; task = watching });
  spawned = c.spawned + 1;
  calls = update c.calls i (syncing namespace c.spawned (c.now + 30));
}

-- The two outcomes of the wait, and the removal from `starting` that both are followed by.
abbrev pub publish_store : ℕ → Text → (id : ℕ) → PodCache → PodCache
publish_store i namespace id c = record (at_call i (finishing namespace) c) {
  stores = insert namespace id c.stores;
}

abbrev pub abort_reflector : ℕ → Text → (id : ℕ) → PodCache → PodCache
abort_reflector i namespace id c = at_call i (finishing namespace) (at_task id stopped c)

abbrev pub finish_start : ℕ → Text → PodCache → PodCache
finish_start i namespace c = record (at_call i outside c) {
  starting = remove_elem namespace c.starting;
}

-- The eviction at the end of a stream: first the store, then, behind the lock, the flag.
abbrev pub evict_store : ℕ → PodCache → PodCache
evict_store id c = record (at_task id clearing c) {
  stores = remove ((c.reflectors id).namespace) c.stores;
}

abbrev pub clear_flag : ℕ → PodCache → PodCache
clear_flag id c = record (at_task id stopped c) {
  starting = remove_elem ((c.reflectors id).namespace) c.starting;
}

pub data Step (c : PodCache) : PodCache → Type 0 where
  -- The fast path finds no store; where it finds one, nothing happens.
  enters :
      (i : ℕ) (namespace : Text)
      → c.calls i ≡ outside
      → contains_key namespace c.stores ≡ false
      → Step c (at_call i (entered namespace) c)
  -- The second test, behind the lock.
  finds_store :
      (i : ℕ) (namespace : Text)
      → c.calls i ≡ entered namespace
      → c.locked ≡ false
      → contains_key namespace c.stores ≡ true
      → Step c (at_call i outside c)
  finds_none :
      (i : ℕ) (namespace : Text)
      → c.calls i ≡ entered namespace
      → c.locked ≡ false
      → contains_key namespace c.stores ≡ false
      → Step c (record (at_call i (checked namespace) c) { locked = true })
  -- `starting.insert`, where another worker is starting the reflector.
  waits :
      (i : ℕ) (namespace : Text)
      → c.calls i ≡ checked namespace
      → contains c.starting namespace ≡ true
      → Step c (record (at_call i (waiting namespace (c.now + 30)) c) { locked = false })
  -- A round of the loop, after a notification or before the first: a store is there, or none.
  wakes :
      (i : ℕ) (namespace : Text) (deadline : ℕ)
      → c.calls i ≡ waiting namespace deadline
      → contains_key namespace c.stores ≡ true
      → Step c (at_call i outside c)
  gives_up :
      (i : ℕ) (namespace : Text) (deadline : ℕ)
      → c.calls i ≡ waiting namespace deadline
      → deadline ≤ c.now
      → Step c (at_call i outside c)
  -- `starting.insert`, where no other worker is.
  spawns :
      (i : ℕ) (namespace : Text)
      → c.calls i ≡ checked namespace
      → contains c.starting namespace ≡ false
      → Step c (spawn_reflector i namespace c)
  publishes :
      (i : ℕ) (namespace : Text) (id deadline : ℕ)
      → c.calls i ≡ syncing namespace id deadline
      → (c.reflectors id).synced ≡ true
      → Step c (publish_store i namespace id c)
  -- The writer is dropped before the first list, or the time is over.
  writer_dropped :
      (i : ℕ) (namespace : Text) (id deadline : ℕ)
      → c.calls i ≡ syncing namespace id deadline
      → (c.reflectors id).synced ≡ false
      → (c.reflectors id).task ≡ stopped
      → Step c (abort_reflector i namespace id c)
  sync_times_out :
      (i : ℕ) (namespace : Text) (id deadline : ℕ)
      → c.calls i ≡ syncing namespace id deadline
      → (c.reflectors id).synced ≡ false
      → deadline ≤ c.now
      → Step c (abort_reflector i namespace id c)
  finishes :
      (i : ℕ) (namespace : Text)
      → c.calls i ≡ finishing namespace
      → c.locked ≡ false
      → Step c (finish_start i namespace c)
  -- The task of a reflector: its first list comes, or its stream ends.
  syncs :
      (id : ℕ)
      → (c.reflectors id).task ≡ watching
      → Step c (record c {
        reflectors = update c.reflectors id (record (c.reflectors id) { synced = true });
      })
  ends : (id : ℕ) → (c.reflectors id).task ≡ watching → Step c (evict_store id c)
  clears :
      (id : ℕ) → (c.reflectors id).task ≡ clearing → c.locked ≡ false → Step c (clear_flag id c)
  ticks : Step c (record c { now = c.now + 1 })

pub data Steps (c : PodCache) : PodCache → Type 0 where
  here : Steps c c
  next : {d e : PodCache} → Steps c d → Step d e → Steps c e

-- `get_ready_pods` after the call of `ensure_namespace`: an error where no store is published.
abbrev pub pods_of : (pods : ℕ → List Pod) → (selector : Text) → Option ℕ → Option (List Pod)
pods_of pods selector none = none
pods_of pods selector (some id) = some (get_ready_pods (pods id) selector)

unfoldable pub ready_pods :
    PodCache → (pods : ℕ → List Pod) → (namespace selector : Text) → Option (List Pod)
ready_pods c pods namespace selector = pods_of pods selector (lookup namespace c.stores)

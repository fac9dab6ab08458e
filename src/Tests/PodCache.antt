-- ===== src/Tests/PodCache.antt =====
-- Workers that ask for the pods of one namespace.
use external_pod_autoscaler.Prelude.{ℕ, ◌≡◌, refl, true, false, contains}
use external_pod_autoscaler.Text.{text_Eq}
use external_pod_autoscaler.Assoc.{Unique}
use external_pod_autoscaler.Scraper.PodCache.{
  PodCache, entered, checked, waiting, empty_cache, at_call, spawn_reflector, publish_store,
  evict_store, clear_flag, Steps, here, next, enters, finds_none, waits, spawns, syncs, publishes,
  ends, clears, update,
}
use external_pod_autoscaler.Scraper.PodCache.Published.{IsSynced, published_store-IsSynced}
use external_pod_autoscaler.Scraper.PodCache.Starts.{starts, HasStarter, flag-HasStarter, AllSpare}
use external_pod_autoscaler.Scraper.PodCache.OneStart.{one_start_at_a_time}
use external_pod_autoscaler.Tests.{ns}

-- Worker 0 takes the lock, with worker 1 behind it, and spawns.
abbrev spawned : PodCache
spawned =
    spawn_reflector 0 ns
      (record (at_call 0 (checked ns)
        (at_call 1 (entered ns) (at_call 0 (entered ns) empty_cache))) { locked = true })

spawns_run : Steps empty_cache spawned
spawns_run =
    next
      (next (next (next here (enters 0 ns refl refl)) (enters 1 ns refl refl))
        (finds_none 0 ns refl refl refl))
      (spawns 0 ns refl refl)

-- Worker 1 finds the flag and waits, the list comes, and worker 0 publishes the store.
abbrev waited : PodCache
waited =
    record (at_call 1 (waiting ns 30) (record (at_call 1 (checked ns) spawned) { locked = true })) {
      locked = false;
    }

waits_run : Steps empty_cache waited
waits_run = next (next spawns_run (finds_none 1 ns refl refl refl)) (waits 1 ns refl refl)

abbrev published : PodCache
published = publish_store 0 ns 0 (record waited {
  reflectors = update waited.reflectors 0 (record (waited.reflectors 0) { synced = true });
})

publishes_run : Steps empty_cache published
publishes_run = next (next waits_run (syncs 0 refl)) (publishes 0 ns 0 30 refl refl)

published_store-IsSynced_example : IsSynced published ns 0 × Unique published.stores
published_store-IsSynced_example = published_store-IsSynced ns 0 publishes_run refl

flag-HasStarter_example : HasStarter published ns
flag-HasStarter_example = flag-HasStarter ns publishes_run refl

waits_run_spares : AllSpare waits_run
unfolding waits_run spawns_run
waits_run_spares = ((((((tt, tt), tt), tt), tt), tt), tt)

one_start_at_a_time_example : (◌≡◌ {A = ℕ} 0 0) × (contains waited.starting ns ≡ true)
one_start_at_a_time_example = one_start_at_a_time ns 0 0 waits_run waits_run_spares refl refl

-- A stream that ends before its first list clears the flag of the worker that waits for it, and
-- the next worker starts a second reflector beside it.
abbrev ended_early : PodCache
ended_early = clear_flag 0 (evict_store 0 spawned)

abbrev started_twice : PodCache
started_twice = spawn_reflector 1 ns (record (at_call 1 (checked ns) ended_early) { locked = true })

twice_run : Steps empty_cache started_twice
twice_run =
    next
      (next (next (next spawns_run (ends 0 refl)) (clears 0 refl refl))
        (finds_none 1 ns refl refl refl))
      (spawns 1 ns refl refl)

twice : (starts ns (started_twice.calls 0) ≡ true) × (starts ns (started_twice.calls 1) ≡ true)
twice = (refl, refl)

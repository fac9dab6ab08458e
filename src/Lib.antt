-- ===== src/Lib.antt =====
-- A verification library for the external pod autoscaler, a Kubernetes operator in Rust. It scrapes
-- the pods of a workload, keeps the samples in windows, and answers the external metrics API from
-- which horizontal pod autoscalers read. Several replicas share the work: each ExternalPodAutoscaler
-- (EPA) has one owner, elected by rendezvous hashing over the replicas whose leases are current.
--
-- The parts and their files:
-- - Api: the custom resource, src/apis/ctx.sh/v1beta1/externalpodautoscaler.rs.
-- - Membership/Manager: src/membership/manager.rs. `MembershipManager` holds the replica sets;
--   `register_and_renew`, `update_active_replicas`, `mark_draining` and `delete_lease` are its
--   operations. Sets, Renewal and Draining prove what they do.
-- - Membership/Ownership: src/membership/ownership.rs. `TransitionState` holds the maps `owned` and
--   `lost`; `refresh_ownership` is one tick. Election and Agreement are about the election,
--   Fleet puts it together with the manager, and Transition, Runs and Grace are about the maps over
--   runs of ticks.
-- - Store: src/store. `MetricsStore` holds five maps: windows of samples, cached aggregations,
--   configurations, scrape statistics and warnings. Types, Window, Ops and Stats follow the files
--   of the source; the children of Ops hold the laws of single operations. Spec is the reference
--   for the whole store, a cell for each key; Cells, Calls, WindowCalls and
--   Refinement compare the two.
-- - Scraper/Parser: src/scraper/parser.rs; Printed is a printer of what a pod answers, and Labels,
--   Lines and RoundTrip compare the two. Scraper/Pods: the choice of pods of
--   src/scraper/pod_cache.rs and the selectors of src/scraper/worker.rs; Selection has the theorem,
--   Workload is `get_pod_selector`. Scraper/PodCache: the calls of `ensure_namespace` by the workers
--   and the tasks of the reflectors; Published, Starts and OneStart are about their runs.
-- - Scraper/Service: src/scraper/service.rs: `handle_updates` with the map of active EPAs, and how many
--   workers `run` spawns.
-- - Scraper/Scheduler: src/scraper/scheduler.rs. Round is `process_epa`, Tick is `run`; Jobs,
--   Steps, Keys, Pass, Rate, Status and Sizes are about them.
-- - Scraper/Worker: `run` and `scrape_pod_static` of src/scraper/worker.rs; Samples and Scrapes are
--   about the windows, Counters and Accounts about the statistics.
-- - Webhook/Metrics: src/webhook/metrics. Aggregation follows aggregation.rs, Name and Handler
--   follow handlers.rs; Bounds, Contributors and Answers hold the theorems.
-- - Webhook/Server: the routes of src/webhook/server.rs and of src/health/server.rs.
-- - Webhook/Admission: src/webhook/admission/handlers.rs: the checks of a specification, the
--   defaults, and in Handlers the two webhooks.
-- - Controller: src/controller/externalpodautoscaler/reconcile.rs. Hpa builds the HPA of an EPA;
--   Reconcile is one reconcile, with what it sends as a list of effects; Registration puts the
--   reconciles of a replica and its scraper together. Observer is the read of the EPA, and
--   Status the status patch with the time of the condition's last transition. Install is
--   src/controller/run.rs.
-- - Process: src/main.rs. Environment is what the process reads from its environment, Startup the
--   start up to the running of the components, with Registered and Ready about it. The shutdown is
--   a step relation of the main task and the renewals; Shutdown and Announcement are about it.
-- - Health: the readiness of src/health/server.rs.
-- - Prelude, Text, Assoc and Float: numbers and tests, strings as lists of code points, maps as
--   association lists and sets as lists without repetition, and the type of floats.
-- - Tests: examples at which the theorems apply.
--
-- How the parts interact: the controller tells the service which EPAs are active; at each tick the
-- scheduler goes through them, ticks the ownership, and for an EPA that this replica scrapes and
-- that is due makes a job for each ready pod; a worker does a job and pushes samples into the store.
-- The manager gives the ownership the replica sets; the metrics handler asks the ownership whether
-- this replica serves an EPA, forwards the request to the owner or to the draining predecessor if it
-- does not, and else aggregates the windows of the store.
--
-- How the code is modelled. A record stands for a struct, a function from state to state for a
-- method that changes it, and each method that holds its locks to the end is one step. Every
-- reading of a clock is an argument, in nanoseconds, and so is every snapshot of the replica sets
-- that a method takes. Errors are values of result types, and a panic is a value as well where the
-- code can reach one. The loops are structural recursion, so no fuel is used.
--
-- Parameters are the code outside the repository: the arithmetic of floats (`F64`, with the laws of
-- their order in `IsOrdered`), the FNV hasher (`Hasher`), the Kubernetes API server for leases
-- (`LeaseApi`, with `ListsWrites` for what it promises of a list after a write) and for the status
-- (`StatusApi`, with `ReadsPatches`), the HTTP client of the handler (`Peers`) and of the workers
-- (`fetch`), the sizes for which a buffer of samples can be made (`fits`), durations as the crate
-- humantime reads them (`parse_duration`), what a round of the scheduler reads from outside
-- (`Readings`), what the start finds (`Environment`, `Outside`), the last instant of the clock
-- (`instant_max`), and JSON, patches and base64 (`Json`, with `RoundTrips`).
--
-- A tick of the scheduler and a job of a worker are one step each: what runs between the steps of
-- one of them is left out, but for the counts that come in during a status patch (Store/Stats). The
-- shutdown and the pod cache are step relations, whose steps come in any order. An abort of the
-- membership task does not recall a request that has been sent. In the pod cache a reflector that is
-- aborted stops at once, and a worker is not dropped inside of `ensure_namespace`.
--
-- Not modelled: the contents of a reflector's store, the watch of the controller, the discovery
-- document, the listeners, the spawn of the tasks and of the pool of workers, TLS, telemetry, log lines and the intervals of
-- background tasks. These are I/O and wiring whose decisions the modelled functions make.
pub mod Prelude
pub mod Text
pub mod Assoc
pub mod Float
pub mod Api
pub mod Membership
pub mod Store
pub mod Scraper
pub mod Webhook
pub mod Controller
pub mod Process
pub mod Health
pub mod Tests

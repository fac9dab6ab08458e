-- ===== src/Membership/Manager.antt =====
-- src/membership/manager.rs: the lease of this replica, and the replica sets that it reads from
-- the leases of all. The Kubernetes API server is a parameter: `LeaseApi` has the calls that the
-- code makes, over a type of server states. Times are nanoseconds.
pub mod Sets
pub mod Renewal
pub mod Draining
use external_pod_autoscaler.Prelude.{
  ℕ, ◌+◌, ◌*◌, ◌≡◌, Bool, true, false, not, List, [], ◌∷◌, ◌++◌, Option, none, some, ltb, leb,
  nat_eq, if◌then◌else◌, ◌==◌,
}
use external_pod_autoscaler.Prelude.Int.{ℤ, pos, negsuc}
use external_pod_autoscaler.Text.{Text, codes, text_Eq, strip_prefix}
use external_pod_autoscaler.Text.Number.{show_ℕ}
use external_pod_autoscaler.Assoc.{lookup, insert, insert_elem, remove_elem}

pub record ReplicaSets : Type 0 where
  pub active : List Text
  pub draining : List Text
  pub local_draining : Bool

pub record MembershipManager : Type 0 where
  pub my_replica_id : Text
  pub my_pod_ip : Text
  pub my_pod_name : Text
  pub namespace : Text
  pub webhook_port : ℕ
  pub replica_sets : ReplicaSets

-- `MembershipManager::new`.
unfoldable pub new : (my_replica_id my_pod_ip my_pod_name namespace : Text) → ℕ → MembershipManager
new my_replica_id my_pod_ip my_pod_name namespace webhook_port = record {
  my_replica_id = my_replica_id;
  my_pod_ip = my_pod_ip;
  my_pod_name = my_pod_name;
  namespace = namespace;
  webhook_port = webhook_port;
  replica_sets = record { active = []; draining = []; local_draining = false };
}

-- The fields of `coordination/v1` leases that the code sets or reads.
pub record OwnerReference : Type 0 where
  pub api_version : Text
  pub kind : Text
  pub name : Text
  pub uid : Text

pub record LeaseSpec : Type 0 where
  pub holder_identity : Option Text
  pub lease_duration_seconds : Option ℤ
  pub renew_time : Option ℕ
  pub acquire_time : Option ℕ

pub record Lease : Type 0 where
  pub name : Option Text
  pub namespace : Option Text
  pub labels : Option (List (Text × Text))
  pub owner_references : List OwnerReference
  pub spec : Option LeaseSpec

-- `kube::Error`.
pub data KubeError : Type 0 where
  api : (code : ℕ) → KubeError
  other : KubeError

pub data Result {ℓ} (A : Type ℓ) : Type ℓ where
  ok : A → Result A
  err : KubeError → Result A
  missing_holder : Result A

-- What the API server answers to the calls of the code.
pub record LeaseApi : Type 1 where
  pub Server : Type 0
  pub create : Lease → Server → Result (Unit {0}) × Server
  pub apply : Text → Lease → Server → Result (Unit {0}) × Server
  pub delete : Text → Server → Result (Unit {0}) × Server
  pub list : Text → Server → Result (List Lease)
  pub get : Text → Server → Result Lease

unfoldable pub lease_prefix : Text
lease_prefix = codes "epa-replica-"

unfoldable pub app_selector : Text
app_selector = codes "app=external-pod-autoscaler"

abbrev pub lease_labels : Bool → Text → List (Text × Text)
lease_labels is_draining my_replica_id =
    let labels : List (Text × Text) =
      (codes "app", codes "external-pod-autoscaler") ∷ (codes "replica-id", my_replica_id) ∷ [] in
    if is_draining then insert (codes "draining") (codes "true") labels else labels

-- The lease that `register_and_renew` writes.
unfoldable pub own_lease : MembershipManager → ℕ → Lease
unfolding show_ℕ
own_lease m now = record {
  name = some (lease_prefix ++ m.my_replica_id);
  namespace = some m.namespace;
  labels = some (lease_labels m.replica_sets.local_draining m.my_replica_id);
  owner_references =
      record {
        api_version = codes "v1";
        kind = codes "Pod";
        name = m.my_pod_name;
        uid = m.my_replica_id;
      }
      ∷ [];
  spec = some (record {
    holder_identity = some (m.my_pod_ip ++ b':' ∷ show_ℕ m.webhook_port);
    lease_duration_seconds = some (pos 30);
    renew_time = some now;
    acquire_time = some now;
  });
}

-- `u64::try_from` of an `i32`.
abbrev try_u64 : ℤ → Option ℕ
try_u64 (pos n) = some n
try_u64 (negsuc n) = none

-- `duration_u64.min(86400)`, and the end of the lease.
abbrev pub clamped : ℕ → ℕ
clamped seconds = if leb seconds 86400 then seconds else 86400

abbrev pub expires_at : ℕ → ℕ → ℕ
expires_at renew_time seconds = renew_time + clamped seconds * 1_000_000_000

-- Whether the lease is still valid: the nested tests of the loop.
abbrev pub valid_until : Option ℕ → Option ℤ → ℕ → Bool
valid_until none _ now = false
valid_until (some renew_time) none now = false
valid_until (some renew_time) (some (negsuc n)) now = false
valid_until (some renew_time) (some (pos n)) now = ltb now (expires_at renew_time n)

unfoldable pub is_current : Lease → ℕ → Bool
is_current lease now = elim lease.spec [
  | none ↦ false
  | some spec ↦ valid_until spec.renew_time spec.lease_duration_seconds now
]

unfoldable pub replica_of : Lease → Option Text
replica_of lease = elim lease.name [ none ↦ none | some name ↦ strip_prefix name lease_prefix ]

-- `and_then(|l| l.get("draining")).is_some_and(|v| v == "true")`.
abbrev pub drains_by : Option (List (Text × Text)) → Bool
drains_by none = false
drains_by (some labels) = elim (lookup (codes "draining") labels) [
  | none ↦ false
  | some v ↦ v == codes "true"
]

unfoldable pub is_draining_lease : Lease → Bool
is_draining_lease lease = drains_by lease.labels

-- One round of the loop of `update_active_replicas`, over the sets `active` and `draining`.
unfoldable pub note_lease : ℕ → Lease → List Text × List Text → List Text × List Text
note_lease now lease (active, draining) =
    if is_current lease now
    then elim (replica_of lease) [
      | none ↦ (active, draining)
      | some id ↦
          if is_draining_lease lease
          then (active, insert_elem id draining)
          else (insert_elem id active, draining)
    ]
    else (active, draining)

unfoldable pub note_leases : ℕ → List Lease → List Text × List Text → List Text × List Text
note_leases now [] found = found
note_leases now (lease ∷ leases) found = note_leases now leases (note_lease now lease found)

-- The write under the lock, with the local override.
unfoldable pub install_sets : MembershipManager → List Text × List Text → MembershipManager
install_sets m (active, draining) =
    let sets = m.replica_sets in
    record m {
      replica_sets =
          if sets.local_draining
          then record sets {
            active = remove_elem m.my_replica_id active;
            draining = insert_elem m.my_replica_id draining;
          }
          else record sets { active = active; draining = draining };
    }

unfoldable pub get_active_replicas : ReplicaSets → List Text
get_active_replicas sets = sets.active

unfoldable pub get_all_replicas : ReplicaSets → List Text
get_all_replicas sets = sets.active ++ sets.draining

unfoldable pub get_draining_replicas : ReplicaSets → List Text
get_draining_replicas sets = sets.draining

-- `sets.local_draining = true` under the lock.
abbrev pub set_draining : MembershipManager → MembershipManager
set_draining m =
    let sets = m.replica_sets in record m { replica_sets = record sets { local_draining = true } }

module _ (k8s : LeaseApi) where
  open k8s use {Server, create, apply, delete, list, get}

  -- The match on the answer to `create`: if the lease exists (409), apply it.
  abbrev pub or_apply : Text → Lease → Result (Unit {0}) → Server → Result (Unit {0}) × Server
  or_apply lease_name lease (ok _) server = (ok tt, server)
  or_apply lease_name lease missing_holder server = (missing_holder, server)
  or_apply lease_name lease (err other) server = (err other, server)
  or_apply lease_name lease (err (api code)) server =
      if nat_eq code 409 then apply lease_name lease server else (err (api code), server)

  unfoldable pub register_and_renew :
      MembershipManager → (now : ℕ) → Server → Result (Unit {0}) × Server
  register_and_renew m now server =
      let (created, server') = create (own_lease m now) server in
      or_apply (lease_prefix ++ m.my_replica_id) (own_lease m now) created server'

  unfoldable pub update_active_replicas :
      MembershipManager → (now : ℕ) → Server → Result (Unit {0}) × MembershipManager
  update_active_replicas m now server = elim (list app_selector server) [
    | ok leases ↦ (ok tt, install_sets m (note_leases now leases ([], [])))
    | err e ↦ (err e, m)
    | missing_holder ↦ (missing_holder, m)
  ]

  unfoldable pub get_replica_address : Text → Server → Result Text
  get_replica_address replica_id server = elim (get (lease_prefix ++ replica_id) server) [
    | ok lease ↦ elim lease.spec [
      | none ↦ missing_holder
      | some spec ↦ elim spec.holder_identity [ none ↦ missing_holder | some address ↦ ok address ]
    ]
    | err e ↦ err e
    | missing_holder ↦ missing_holder
  ]

  -- A failed renewal is logged and forgotten: the flag stays set.
  unfoldable pub mark_draining : MembershipManager → (now : ℕ) → Server → MembershipManager × Server
  mark_draining m now server = let m' = set_draining m in (m', (register_and_renew m' now server).1)

  -- A lease that is already gone (404) counts as deleted.
  unfoldable pub delete_lease :
      MembershipManager → Server → Result (Unit {0}) × MembershipManager × Server
  delete_lease m server =
      let m' = set_draining m in
      let (deleted, server') = delete (lease_prefix ++ m.my_replica_id) server in
      elim deleted [
        | ok _ ↦ (ok tt, m', server')
        | missing_holder ↦ (missing_holder, m', server')
        | err other ↦ (err other, m', server')
        | err (api code) ↦ (if nat_eq code 404 then ok tt else err (api code), m', server')
      ]

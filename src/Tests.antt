-- ===== src/Tests.antt =====
-- The data of the examples: floats of which the naturals and infinity are modelled, a hasher, an
-- API server that keeps a list of leases, and two replicas.
mod Election
mod Handoff
mod Fleet
mod Leases
mod Store
mod Metrics
mod Admission
mod Scraper
mod Scheduler
mod Worker
mod Refinement
mod Parser
mod PodCache
mod Startup
mod Process
mod Controller
mod Status
mod Health
use external_pod_autoscaler.Prelude.{
  ℕ, ◌+◌, ◌-◌, ◌*◌, ◌/◌, ◌%◌, ◌^◌, ◌≡◌, ◌≢◌, ◌⊎◌, refl, Bool, true, false, List, [], ◌∷◌, ◌++◌,
  Option, none, some, leb, if◌then◌else◌, arith, Member, inl, inr, nat_eq, ◌==◌, filter, not,
}
use external_pod_autoscaler.Prelude.Int.{ℤ, pos, negsuc, pos_part}
use external_pod_autoscaler.Text.{Text, codes, text_Eq, parse_u64}
use external_pod_autoscaler.Float.{F64, IsOrdered}
use external_pod_autoscaler.Membership.Ownership.{Hasher}
use external_pod_autoscaler.Membership.Manager.{
  Lease, LeaseApi, Result, ok, err, api, missing_holder, ReplicaSets, MembershipManager,
  app_selector, lease_prefix, own_lease,
}
use external_pod_autoscaler.Membership.Manager.Renewal.{ListsWrites}

pub data Extended : Type 0 where
  fin : ℕ → Extended
  inf : Extended

abbrev pub extended_le : Extended → Extended → Bool
extended_le (fin a) (fin b) = leb a b
extended_le (fin a) inf = true
extended_le inf (fin b) = false
extended_le inf inf = true

abbrev pub extended_map2 : (ℕ → ℕ → ℕ) → Extended → Extended → Extended
extended_map2 f (fin a) (fin b) = fin (f a b)
extended_map2 f (fin a) inf = inf
extended_map2 f inf b = inf

abbrev pub extended_truncate : Extended → ℤ
extended_truncate (fin n) = pos n
extended_truncate inf = pos 0

abbrev pub extended_parse : Option ℕ → Option Extended
extended_parse none = none
extended_parse (some n) = some (fin n)

abbrev pub floats : F64
floats = record {
  Float = Extended;
  zero = fin 0;
  two = fin 2;
  add = extended_map2 (λ a b. a + b);
  sub = extended_map2 (λ a b. a - b);
  div = extended_map2 (λ a b. a / b);
  le = extended_le;
  is_nan = λ v. false;
  infinity = inf;
  neg_infinity = fin 0;
  of_ℤ = λ n. fin (pos_part n);
  as_secs = λ n. fin (n / 1_000_000_000);
  truncate = extended_truncate;
  parse = λ s. extended_parse (parse_u64 s);
}

extended_total : (a b : Extended) → (extended_le a b ≡ true) ⊎ (extended_le b a ≡ true)
extended_total (fin a) (fin b) = ground arith
extended_total (fin a) inf = inl refl
extended_total inf (fin b) = inr refl
extended_total inf inf = inl refl

extended_refl : (a : Extended) → extended_le a a ≡ true
extended_refl (fin a) = ground arith
extended_refl inf = refl

extended_trans :
    (a b c : Extended) → extended_le a b ≡ true → extended_le b c ≡ true → extended_le a c ≡ true
extended_trans (fin a) (fin b) (fin c) h i = ground arith
extended_trans (fin a) (fin b) inf h i = refl
extended_trans (fin a) inf (fin c) h i = ground arith
extended_trans (fin a) inf inf h i = refl
extended_trans inf (fin b) c h i = ground arith
extended_trans inf inf (fin c) h i = ground arith
extended_trans inf inf inf h i = refl

extended_top : (a : Extended) → extended_le a inf ≡ true
extended_top (fin a) = refl
extended_top inf = refl

extended_bottom : (a : Extended) → extended_le (fin 0) a ≡ true
extended_bottom (fin a) = ground arith
extended_bottom inf = refl

pub floats_order : IsOrdered floats
floats_order = record {
  le_refl = λ a h. extended_refl a;
  le_total = λ a b h i. extended_total a b;
  le_trans = extended_trans;
  neg_infinity_number = refl;
  infinity_number = refl;
  neg_infinity_le = λ a h. extended_bottom a;
  le_infinity = λ a h. extended_top a;
}

abbrev pub write_bytes : ℕ → List ℕ → ℕ
write_bytes st [] = st
write_bytes st (b ∷ bs) = write_bytes ((st * 31 + b) % 2 ^ 64) bs

abbrev pub hasher : Hasher
hasher = record { State = ℕ; default = 0; write = write_bytes; finish = λ st. st }

abbrev pub alpha : Text
alpha = codes "a"

abbrev pub beta : Text
beta = codes "b"

abbrev pub ns : Text
ns = codes "ns"

abbrev pub epa_name : Text
epa_name = codes "web"

abbrev pub both_active : ReplicaSets
both_active = record { active = alpha ∷ beta ∷ []; draining = []; local_draining = false }

abbrev pub seconds : ℕ → ℕ
seconds n = n * 1_000_000_000

-- A server that accepts every lease.
abbrev pub leases_api : LeaseApi
leases_api = record {
  Server = List Lease;
  create = λ lease server. (ok tt, lease ∷ server);
  apply = λ name lease server. (ok tt, lease ∷ server);
  delete = λ name server. (err (api 404), server);
  list = λ selector server. ok server;
  get = λ name server. missing_holder;
}

created_listed :
    (m : MembershipManager) (now : ℕ) (server server' : List Lease) (leases : List Lease)
    → leases_api.create (own_lease m now) server ≡ (ok tt, server')
    → leases_api.list app_selector server' ≡ ok leases
    → Member (own_lease m now) leases
created_listed m now server server' [] e f = ground arith
created_listed m now server server' (lease ∷ leases) e f = inl (ground arith)

applied_listed :
    (m : MembershipManager) (now : ℕ) (server server' : List Lease) (leases : List Lease)
    → leases_api.apply (lease_prefix ++ m.my_replica_id) (own_lease m now) server ≡ (ok tt, server')
    → leases_api.list app_selector server' ≡ ok leases
    → Member (own_lease m now) leases
applied_listed m now server server' [] e f = ground arith
applied_listed m now server server' (lease ∷ leases) e f = inl (ground arith)

pub leases_laws : ListsWrites leases_api
leases_laws = record { lists_created = created_listed; lists_applied = applied_listed }

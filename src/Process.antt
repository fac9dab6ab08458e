-- ===== src/Process.antt =====
-- src/main.rs: the end of the process, and what it does with the replica's lease. The membership
-- task renews the lease beside the main task; a renewal reads the flag and the clock, then its call
-- is under way, and then it lands at the API server or fails. The steps of the two tasks come in
-- any order. Of the components only their end is modelled here; the start is in the child Startup.
pub mod Environment
pub mod Startup
pub mod Registered
pub mod Ready
pub mod Shutdown
pub mod Announcement
use external_pod_autoscaler.Prelude.{ℕ, ◌≡◌, Bool, true, false, List, [], ◌∷◌, Option, none, some}
use external_pod_autoscaler.Text.{Text}
use external_pod_autoscaler.Membership.Manager.{
  MembershipManager, Lease, own_lease, set_draining, install_sets,
}

-- Where the main task is: in its `select!`, in `mark_draining` with its call under way, in the
-- sleep of the drain, in `delete_lease` after the membership task is stopped, or at its end.
pub data Phase : Type 0 where
  running : Phase
  marking : Lease → Phase
  draining : Phase
  deleting : Phase
  ended : Phase

-- The membership task: between two renewals, in one, or aborted. A request that is under way when
-- the task is aborted is not recalled: nobody waits for its answer, but it can still arrive at the
-- API server.
pub data Renewal : Type 0 where
  idle : Renewal
  pending : Lease → Renewal
  aborted : Renewal
  orphaned : Lease → Renewal

-- The request under way.
abbrev pub request : Renewal → Option Lease
request idle = none
request (pending l) = some l
request aborted = none
request (orphaned l) = some l

-- The request has landed or failed.
abbrev pub settled : Renewal → Renewal
settled idle = idle
settled (pending l) = idle
settled aborted = aborted
settled (orphaned l) = aborted

abbrev pub is_aborted : Renewal → Bool
is_aborted idle = false
is_aborted (pending l) = false
is_aborted aborted = true
is_aborted (orphaned l) = true

-- What has reached the API server of this replica's lease.
pub data LeaseCall : Type 0 where
  written : Lease → LeaseCall
  deleted : LeaseCall

pub record Process : Type 0 where
  pub phase : Phase
  pub membership : MembershipManager
  pub renewal : Renewal
  -- The latest call first.
  pub log : List LeaseCall

abbrev pub at_phase : Phase → Process → Process
at_phase phase p = record p { phase = phase }

-- Before the `select!`: the lease has been registered.
unfoldable pub started : MembershipManager → (now : ℕ) → Process
started m now = record {
  phase = running;
  membership = m;
  renewal = idle;
  log = written (own_lease m now) ∷ [];
}

-- `membership_handle.abort()`, awaited.
abbrev pub abort : Renewal → Renewal
abort idle = aborted
abort (pending l) = orphaned l
abort aborted = aborted
abort (orphaned l) = orphaned l

abbrev pub abort_renewal : Phase → Process → Process
abort_renewal phase p = record p { phase = phase; renewal = abort p.renewal }

pub data Step (p : Process) : Process → Type 0 where
  -- The renewal loop and the discovery loop.
  renews :
      (now : ℕ)
      → p.renewal ≡ idle
      → Step p (record p { renewal = pending (own_lease p.membership now) })
  lands :
      (l : Lease)
      → request p.renewal ≡ some l
      → Step p (record p { renewal = settled p.renewal; log = written l ∷ p.log })
  fails :
      (l : Lease) → request p.renewal ≡ some l → Step p (record p { renewal = settled p.renewal })
  discovers :
      (found : List Text × List Text)
      → is_aborted p.renewal ≡ false
      → Step p (record p { membership = install_sets p.membership found })
  -- SIGTERM: `mark_draining`, then the sleep, up to its end or another signal.
  sigterm :
      (now : ℕ)
      → p.phase ≡ running
      → Step p (record p {
        membership = set_draining p.membership;
        phase = marking (own_lease (set_draining p.membership) now);
      })
  marks :
      (l : Lease)
      → p.phase ≡ marking l
      → Step p (record p { phase = draining; log = written l ∷ p.log })
  marks_fails : (l : Lease) → p.phase ≡ marking l → Step p (at_phase draining p)
  drained : p.phase ≡ draining → Step p (abort_renewal deleting p)
  -- SIGINT outside a drain.
  sigint : p.phase ≡ running → Step p (abort_renewal deleting p)
  -- `delete_lease`.
  deletes :
      p.phase ≡ deleting
      → Step p (record p {
        phase = ended;
        membership = set_draining p.membership;
        log = deleted ∷ p.log;
      })
  deletes_fails :
      p.phase ≡ deleting
      → Step p (record p { phase = ended; membership = set_draining p.membership })
  -- A component ends outside a drain, and with it the process.
  component_ends : p.phase ≡ running → Step p (abort_renewal ended p)

pub data Steps (p : Process) : Process → Type 0 where
  here : Steps p p
  next : {q r : Process} → Steps p q → Step q r → Steps p r

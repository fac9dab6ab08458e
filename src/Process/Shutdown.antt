-- ===== src/Process/Shutdown.antt =====
-- What the shutdown does to the lease, over all interleavings of the main task, the renewals and the
-- requests that are under way.
use external_pod_autoscaler.Prelude.{
  ℕ, suc, ◌+◌, ◌≤◌, ◌≡◌, refl, Bool, true, false, List, [], ◌∷◌, ◌++◌, some, arith, ap, sym, ◌∙◌,
}
use mathlib.Core.List.{append_assoc}
use external_pod_autoscaler.Membership.Manager.{MembershipManager, Lease}
use external_pod_autoscaler.Process.{
  Phase, deleting, ended, Renewal, idle, pending, aborted, orphaned, request, settled, is_aborted,
  abort, LeaseCall, written, deleted, Process, started, Step, renews, lands, fails, discovers,
  sigterm, marks, marks_fails, drained, sigint, deletes, deletes_fails, component_ends, Steps, here,
  next,
}

abbrev pub all_written : List LeaseCall → Bool
all_written [] = true
all_written (written l ∷ log) = all_written log
all_written (deleted ∷ log) = false

abbrev pub writes : List LeaseCall → ℕ
writes [] = 0
writes (written l ∷ log) = suc (writes log)
writes (deleted ∷ log) = writes log

abbrev pub deletions : List LeaseCall → ℕ
deletions [] = 0
deletions (written l ∷ log) = deletions log
deletions (deleted ∷ log) = suc (deletions log)

-- The requests under way.
abbrev pub in_flight : Renewal → ℕ
in_flight idle = 0
in_flight (pending l) = 1
in_flight aborted = 0
in_flight (orphaned l) = 1

-- The deletions still to come.
abbrev to_delete : Phase → ℕ
to_delete deleting = 1
to_delete _ = 0

abbrev is_ended : Phase → Bool
is_ended ended = true
is_ended _ = false

abbrev is_stopping : Phase → Bool
is_stopping deleting = true
is_stopping ended = true
is_stopping _ = false

abort-is_aborted : (r : Renewal) → is_aborted (abort r) ≡ true
abort-is_aborted idle = refl
abort-is_aborted (pending l) = refl
abort-is_aborted aborted = refl
abort-is_aborted (orphaned l) = refl

settled-is_aborted : (r : Renewal) → is_aborted r ≡ true → is_aborted (settled r) ≡ true
settled-is_aborted idle h = h
settled-is_aborted (pending l) h = absurd (ground arith)
settled-is_aborted aborted h = refl
settled-is_aborted (orphaned l) h = refl

one_less :
    (r : Renewal) (l : Lease) → request r ≡ some l → suc (in_flight (settled r)) ≤ in_flight r
one_less idle l e = absurd (ground arith)
one_less (pending k) l e = ground arith
one_less aborted l e = absurd (ground arith)
one_less (orphaned k) l e = ground arith

-- Before the end nothing is deleted, and once the process stops the membership task is aborted.
record IsOrderly (p : Process) : Type 0 where
  open_log : is_ended p.phase ≡ false → all_written p.log ≡ true
  stopped : is_stopping p.phase ≡ true → is_aborted p.renewal ≡ true

Step-IsOrderly : {p q : Process} → Step p q → IsOrderly p → IsOrderly q
Step-IsOrderly (renews now e) i = record {
  open_log = i.open_log;
  stopped = λ h. ground (arith, i.stopped h, ap is_aborted e);
}
Step-IsOrderly {p} (lands l e) i = record {
  open_log = i.open_log;
  stopped = λ h. settled-is_aborted p.renewal (i.stopped h);
}
Step-IsOrderly {p} (fails l e) i = record {
  open_log = i.open_log;
  stopped = λ h. settled-is_aborted p.renewal (i.stopped h);
}
Step-IsOrderly (discovers found e) i = record { open_log = i.open_log; stopped = i.stopped }
Step-IsOrderly (sigterm now e) i = record {
  open_log = λ h. i.open_log (rw e refl);
  stopped = λ h. ground arith;
}
Step-IsOrderly (marks l e) i = record {
  open_log = λ h. i.open_log (rw e refl);
  stopped = λ h. ground arith;
}
Step-IsOrderly (marks_fails l e) i = record {
  open_log = λ h. i.open_log (rw e refl);
  stopped = λ h. ground arith;
}
Step-IsOrderly {p} (drained e) i = record {
  open_log = λ h. i.open_log (rw e refl);
  stopped = λ h. abort-is_aborted p.renewal;
}
Step-IsOrderly {p} (sigint e) i = record {
  open_log = λ h. i.open_log (rw e refl);
  stopped = λ h. abort-is_aborted p.renewal;
}
Step-IsOrderly (deletes e) i = record {
  open_log = λ h. ground arith;
  stopped = λ h. i.stopped (rw e refl);
}
Step-IsOrderly (deletes_fails e) i = record {
  open_log = λ h. ground arith;
  stopped = λ h. i.stopped (rw e refl);
}
Step-IsOrderly {p} (component_ends e) i = record {
  open_log = λ h. ground arith;
  stopped = λ h. abort-is_aborted p.renewal;
}

Steps-IsOrderly : {p q : Process} → Steps p q → IsOrderly p → IsOrderly q
Steps-IsOrderly here i = i
Steps-IsOrderly (next steps step) i = Step-IsOrderly step (Steps-IsOrderly steps i)

started-IsOrderly : (m : MembershipManager) (now : ℕ) → IsOrderly (started m now)
unfolding started
started-IsOrderly m now = record { open_log = λ h. refl; stopped = λ h. ground arith }

-- What a run of a process that is stopping adds to the log.
record Closes (p q : Process) : Type 0 where
  stopping : is_stopping q.phase ≡ true
  calls : List LeaseCall
  adds : q.log ≡ calls ++ p.log
  few_writes : writes calls + in_flight q.renewal ≤ in_flight p.renewal
  few_deletions : deletions calls + to_delete q.phase ≤ to_delete p.phase

Step-Closes : {p q : Process} → Step p q → IsOrderly p → is_stopping p.phase ≡ true → Closes p q
Step-Closes (renews now e) i h = absurd (ground (arith, i.stopped h, ap is_aborted e))
Step-Closes {p} (lands l e) i h = record {
  stopping = h;
  calls = written l ∷ [];
  adds = refl;
  few_writes = omega (arith, one_less p.renewal l e);
  few_deletions = omega arith;
}
Step-Closes {p} (fails l e) i h = record {
  stopping = h;
  calls = [];
  adds = refl;
  few_writes = omega (arith, one_less p.renewal l e);
  few_deletions = omega arith;
}
Step-Closes (discovers found e) i h = absurd (ground (arith, i.stopped h, e))
Step-Closes (sigterm now e) i h = absurd (ground (arith, h, ap is_stopping e))
Step-Closes (marks l e) i h = absurd (ground (arith, h, ap is_stopping e))
Step-Closes (marks_fails l e) i h = absurd (ground (arith, h, ap is_stopping e))
Step-Closes (drained e) i h = absurd (ground (arith, h, ap is_stopping e))
Step-Closes (sigint e) i h = absurd (ground (arith, h, ap is_stopping e))
Step-Closes (deletes e) i h = record {
  stopping = refl;
  calls = deleted ∷ [];
  adds = refl;
  few_writes = omega arith;
  few_deletions = omega (arith, ap to_delete e);
}
Step-Closes (deletes_fails e) i h = record {
  stopping = refl;
  calls = [];
  adds = refl;
  few_writes = omega arith;
  few_deletions = omega (arith, ap to_delete e);
}
Step-Closes (component_ends e) i h = absurd (ground (arith, h, ap is_stopping e))

writes_append : (xs ys : List LeaseCall) → writes (xs ++ ys) ≡ writes xs + writes ys
writes_append [] ys = omega arith
writes_append (written l ∷ xs) ys = omega (arith, writes_append xs ys)
writes_append (deleted ∷ xs) ys = writes_append xs ys

deletions_append : (xs ys : List LeaseCall) → deletions (xs ++ ys) ≡ deletions xs + deletions ys
deletions_append [] ys = omega arith
deletions_append (written l ∷ xs) ys = deletions_append xs ys
deletions_append (deleted ∷ xs) ys = omega (arith, deletions_append xs ys)

Closes-trans : {p q r : Process} → Closes p q → Closes q r → Closes p r
Closes-trans {p} c d = record {
  stopping = d.stopping;
  calls = d.calls ++ c.calls;
  adds = d.adds ∙ ap (λ t. d.calls ++ t) c.adds ∙ sym (append_assoc d.calls c.calls p.log);
  few_writes = omega (arith, writes_append d.calls c.calls, c.few_writes, d.few_writes);
  few_deletions = omega (arith, deletions_append d.calls c.calls, c.few_deletions, d.few_deletions);
}

Steps-Closes : {p q : Process} → Steps p q → IsOrderly p → is_stopping p.phase ≡ true → Closes p q
Steps-Closes here i h = record {
  stopping = h;
  calls = [];
  adds = refl;
  few_writes = omega arith;
  few_deletions = omega arith;
}
Steps-Closes (next steps step) i h =
    let before = Steps-Closes steps i h in
    Closes-trans before (Step-Closes step (Steps-IsOrderly steps i) before.stopping)

-- What happens to the lease once the membership task is aborted: in every state that the process
-- reaches in front of its deletion the lease has only been written, and whatever comes later, in
-- any order of the steps, adds at most one deletion and at most as many writes as there were
-- requests of the membership task under way. So if none was under way, the lease is not written
-- again, and the deletion is the last call about it.
pub writes_after_abort :
    (m : MembershipManager) (now : ℕ) {p q : Process}
    → Steps (started m now) p
    → p.phase ≡ deleting
    → Steps p q
    → (calls : List LeaseCall) × (q.log ≡ calls ++ p.log)
      × (all_written p.log ≡ true)
      × (writes calls ≤ in_flight p.renewal)
      × (deletions calls ≤ 1)
writes_after_abort m now {p} reached e later =
    let i = Steps-IsOrderly reached (started-IsOrderly m now) in
    let c = Steps-Closes later i (ap is_stopping e) in
    (
      c.calls,
      c.adds,
      i.open_log (ap is_ended e),
      omega (arith, c.few_writes),
      omega (arith, c.few_deletions, ap to_delete e),
    )

-- ===== src/Process/Announcement.antt =====
-- How the drain is announced: the label of the leases that are written after SIGTERM.
use external_pod_autoscaler.Prelude.{
  ℕ, ◌≡◌, refl, true, none, some, List, [], ◌∷◌, ◌++◌, arith, ap, sym, ◌∙◌, All,
}
use mathlib.Core.List.{append_assoc}
use external_pod_autoscaler.Text.{Text}
use external_pod_autoscaler.Membership.Manager.{
  MembershipManager, Lease, own_lease, set_draining, install_sets, is_draining_lease,
}
use external_pod_autoscaler.Membership.Manager.Renewal.{own_lease_drains}
use external_pod_autoscaler.Process.{
  marking, Renewal, idle, pending, aborted, orphaned, request, settled, abort, LeaseCall, written,
  deleted, Process, Step, renews, lands, fails, discovers, sigterm, marks, marks_fails, drained,
  sigint, deletes, deletes_fails, component_ends, Steps, here, next,
}

abbrev pub Announces : LeaseCall → Type 0
Announces (written l) = is_draining_lease l ≡ true
Announces deleted = Unit

-- The flag is set, and no lease without the label is under way.
record IsDraining (p : Process) : Type 0 where
  flag : p.membership.replica_sets.local_draining ≡ true
  renewing : (l : Lease) → request p.renewal ≡ some l → is_draining_lease l ≡ true
  marked : (l : Lease) → p.phase ≡ marking l → is_draining_lease l ≡ true

settled_request : (r : Renewal) → request (settled r) ≡ none
settled_request idle = refl
settled_request (pending l) = refl
settled_request aborted = refl
settled_request (orphaned l) = refl

-- An abort does not recall the request under way.
abort_request : (r : Renewal) → request (abort r) ≡ request r
abort_request idle = refl
abort_request (pending l) = refl
abort_request aborted = refl
abort_request (orphaned l) = refl

-- What a run adds to the log.
abbrev pub Adds : (before after : List LeaseCall) → Type 0
Adds before after = (calls : List LeaseCall) × (after ≡ calls ++ before) × All Announces calls

install_sets_flag :
    (m : MembershipManager) (found : List Text × List Text)
    → (install_sets m found).replica_sets.local_draining ≡ m.replica_sets.local_draining
unfolding install_sets
install_sets_flag m (active, found) = ground arith

own_lease_label :
    (m : MembershipManager) (now : ℕ)
    → m.replica_sets.local_draining ≡ true
    → is_draining_lease (own_lease m now) ≡ true
own_lease_label m now h = own_lease_drains m now ∙ h

Step-IsDraining : {p q : Process} → Step p q → IsDraining p → IsDraining q × Adds p.log q.log
Step-IsDraining {p} (renews now e) d = (
  record {
    flag = d.flag;
    renewing = λ l f.
        let same : own_lease p.membership now ≡ l = ground arith in
        ap is_draining_lease (sym same) ∙ own_lease_label p.membership now d.flag;
    marked = d.marked;
  },
  ([], refl, tt),
)
Step-IsDraining {p} (lands l e) d = (
  record {
    flag = d.flag;
    renewing = λ k f. absurd (ground (arith, f, settled_request p.renewal));
    marked = d.marked;
  },
  (written l ∷ [], refl, (d.renewing l e, tt)),
)
Step-IsDraining {p} (fails l e) d = (
  record {
    flag = d.flag;
    renewing = λ k f. absurd (ground (arith, f, settled_request p.renewal));
    marked = d.marked;
  },
  ([], refl, tt),
)
Step-IsDraining {p} (discovers found e) d = (
  record {
    flag = install_sets_flag p.membership found ∙ d.flag;
    renewing = d.renewing;
    marked = d.marked;
  },
  ([], refl, tt),
)
Step-IsDraining {p} (sigterm now e) d = (
  record {
    flag = refl;
    renewing = d.renewing;
    marked = λ l f.
        let m = set_draining p.membership in
        let same : own_lease m now ≡ l = ground arith in
        ap is_draining_lease (sym same) ∙ own_lease_label m now refl;
  },
  ([], refl, tt),
)
Step-IsDraining {p} (marks l e) d = (
  record { flag = d.flag; renewing = d.renewing; marked = λ k f. ground arith },
  (written l ∷ [], refl, (d.marked l e, tt)),
)
Step-IsDraining {p} (marks_fails l e) d =
    (record { flag = d.flag; renewing = d.renewing; marked = λ k f. ground arith }, ([], refl, tt))
Step-IsDraining {p} (drained e) d = (
  record {
    flag = d.flag;
    renewing = λ k f. d.renewing k (sym (abort_request p.renewal) ∙ f);
    marked = λ k f. ground arith;
  },
  ([], refl, tt),
)
Step-IsDraining {p} (sigint e) d = (
  record {
    flag = d.flag;
    renewing = λ k f. d.renewing k (sym (abort_request p.renewal) ∙ f);
    marked = λ k f. ground arith;
  },
  ([], refl, tt),
)
Step-IsDraining {p} (deletes e) d = (
  record { flag = refl; renewing = d.renewing; marked = λ k f. ground arith },
  (deleted ∷ [], refl, (tt, tt)),
)
Step-IsDraining {p} (deletes_fails e) d =
    (record { flag = refl; renewing = d.renewing; marked = λ k f. ground arith }, ([], refl, tt))
Step-IsDraining {p} (component_ends e) d = (
  record {
    flag = d.flag;
    renewing = λ k f. d.renewing k (sym (abort_request p.renewal) ∙ f);
    marked = λ k f. ground arith;
  },
  ([], refl, tt),
)

All-append :
    (xs ys : List LeaseCall) → All Announces xs → All Announces ys → All Announces (xs ++ ys)
All-append [] ys h k = k
All-append (x ∷ xs) ys (h, hs) k = (h, All-append xs ys hs k)

Adds-trans : (a b c : List LeaseCall) → Adds a b → Adds b c → Adds a c
Adds-trans a b c (xs, e, h) (ys, f, k) =
    (ys ++ xs, f ∙ ap (λ t. ys ++ t) e ∙ sym (append_assoc ys xs a), All-append ys xs k h)

Steps-IsDraining : {p q : Process} → Steps p q → IsDraining p → IsDraining q × Adds p.log q.log
Steps-IsDraining here d = (d, ([], refl, tt))
Steps-IsDraining {p} (next {q} {r} steps step) d =
    let (d', added) = Steps-IsDraining steps d in
    let (d'', more) = Step-IsDraining step d' in (d'', Adds-trans p.log q.log r.log added more)

-- `sigterm`, the first step of the drain.
abbrev pub terminated : Process → (now : ℕ) → Process
terminated p now = record p {
  membership = set_draining p.membership;
  phase = marking (own_lease (set_draining p.membership) now);
}

-- The drain is announced: if no renewal is under way when SIGTERM arrives, each lease that is
-- written after it carries the label that marks it as draining, whatever the order of the steps of
-- the two tasks and up to the end of the process.
pub drain_is_announced :
    (p : Process) (now : ℕ) {q : Process}
    → p.renewal ≡ idle
    → Steps (terminated p now) q
    → Adds p.log q.log
drain_is_announced p now e steps =
    let m = set_draining p.membership in
    (Steps-IsDraining steps (record {
      flag = refl;
      renewing = λ l f. absurd (ground (arith, f, ap request e));
      marked = λ l f.
          let same : own_lease m now ≡ l = ground arith in
          ap is_draining_lease (sym same) ∙ own_lease_label m now refl;
    })).1

-- ===== src/Tests/Process.antt =====
-- Examples of the shutdown.
use external_pod_autoscaler.Prelude.{Bool, ◌≤◌, ◌≡◌, refl, true, false, List, [], ◌∷◌, ◌++◌, map}
use external_pod_autoscaler.Text.{codes}
use external_pod_autoscaler.Membership.Manager.{
  MembershipManager, Lease, own_lease, set_draining, new, is_draining_lease,
}
use external_pod_autoscaler.Process.{
  Process, LeaseCall, draining, deleting, ended, idle, pending, aborted, orphaned, written, deleted,
  started, Steps, here, next, renews, lands, sigterm, marks, drained, deletes,
}
use external_pod_autoscaler.Process.Shutdown.{
  all_written, writes, deletions, in_flight, writes_after_abort,
}
use external_pod_autoscaler.Process.Announcement.{Adds, terminated, drain_is_announced}
use external_pod_autoscaler.Tests.{alpha, ns, seconds}

abbrev manager : MembershipManager
manager = new alpha (codes "10.0.0.1") (codes "pod") ns 8443

abbrev carries : LeaseCall → Bool
carries (written l) = is_draining_lease l
carries deleted = true

abbrev registered : Process
registered = started manager (seconds 1)

abbrev plain : Lease
plain = own_lease manager (seconds 11)

abbrev marked : Lease
marked = own_lease (set_draining manager) (seconds 12)

-- A renewal begins, SIGTERM arrives, and the drain runs to its end.
abbrev renewing : Process
renewing = record registered { renewal = pending plain }

abbrev drained_late : Process
drained_late = record registered {
  phase = draining;
  membership = set_draining manager;
  log = written plain ∷ written marked ∷ registered.log;
}

abbrev gone : Process
gone = record drained_late { phase = ended; renewal = aborted; log = deleted ∷ drained_late.log }

-- The renewal that began before SIGTERM lands after `mark_draining`, and for a while the lease
-- does not carry the label.
late_renewal : Steps registered drained_late
unfolding started own_lease
late_renewal =
    next
      (next (next (next here (renews (seconds 11) refl)) (sigterm (seconds 12) refl))
        (marks marked refl))
      (lands plain refl)

late_renewal_plain : map carries drained_late.log ≡ false ∷ true ∷ false ∷ []
unfolding started own_lease is_draining_lease new
late_renewal_plain = refl

to_end : Steps registered gone
unfolding started own_lease
to_end = next (next late_renewal (drained refl)) (deletes refl)

-- At the end of the drain another renewal is under way. It is not recalled by the abort and lands
-- after the deletion.
abbrev in_front : Process
in_front = record drained_late { phase = deleting; renewal = orphaned marked }

abbrev back_again : Process
back_again = record in_front {
  phase = ended;
  renewal = aborted;
  log = written marked ∷ deleted ∷ drained_late.log;
}

to_front : Steps registered in_front
unfolding started own_lease
to_front = next (next late_renewal (renews (seconds 12) refl)) (drained refl)

lands_late : Steps in_front back_again
unfolding started own_lease
lands_late = next (next here (deletes refl)) (lands marked refl)

writes_after_abort_example :
    (calls : List LeaseCall) × (back_again.log ≡ calls ++ in_front.log)
    × (all_written in_front.log ≡ true)
    × (writes calls ≤ in_flight in_front.renewal)
    × (deletions calls ≤ 1)
writes_after_abort_example = writes_after_abort manager (seconds 1) to_front refl lands_late

-- A drain with no renewal under way.
abbrev announced : Process
announced = record (terminated registered (seconds 12)) {
  phase = draining;
  log = written marked ∷ registered.log;
}

announces : Steps (terminated registered (seconds 12)) announced
unfolding started own_lease
announces = next here (marks marked refl)

at_rest : registered.renewal ≡ idle
unfolding started
at_rest = refl

drain_is_announced_example : Adds registered.log announced.log
drain_is_announced_example = drain_is_announced registered (seconds 12) at_rest announces

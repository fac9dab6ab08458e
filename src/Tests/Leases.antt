-- ===== src/Tests/Leases.antt =====
-- Examples of the manager: `a` renews its lease and `b` reads it.
use external_pod_autoscaler.Prelude.{
  ◌+◌, ◌≡◌, ◌≢◌, refl, true, not, ◌&&◌, List, [], ◌∷◌, arith, contains, ltb,
}
use external_pod_autoscaler.Text.{Text, codes, text_Eq}
use external_pod_autoscaler.Membership.Manager.{
  Lease, MembershipManager, ok, new, own_lease, is_draining_lease, register_and_renew,
  update_active_replicas, mark_draining,
}
use external_pod_autoscaler.Membership.Manager.Sets.{
  DistinctNames, in_active, in_draining, update_active_replicas-classifies,
}
use external_pod_autoscaler.Membership.Manager.Renewal.{lease_nanos, renewal_seen}
use external_pod_autoscaler.Membership.Manager.Draining.{updated, here, next, mark_draining_sticks}
use external_pod_autoscaler.Tests.{alpha, beta, ns, seconds, leases_api, leases_laws}

abbrev manager : Text → MembershipManager
manager id = new id (codes "10.0.0.1") (codes "pod") ns 8443

abbrev leases : List Lease
leases = own_lease (manager alpha) (seconds 5) ∷ []

one_name : DistinctNames leases
one_name = (λ n e. refl, tt)

update_active_replicas-classifies_example :
    ((update_active_replicas leases_api (manager beta) (seconds 10) leases).0 ≡ ok tt)
    × ((r : Text)
        → contains
            (update_active_replicas leases_api
              (manager beta)
              (seconds 10)
              leases).1.replica_sets.active
            r
          ≡ in_active (manager beta) (seconds 10) leases r)
    × ((r : Text)
        → contains
            (update_active_replicas leases_api
              (manager beta)
              (seconds 10)
              leases).1.replica_sets.draining
            r
          ≡ in_draining (manager beta) (seconds 10) leases r)
    × ((update_active_replicas leases_api
          (manager beta)
          (seconds 10)
          leases).1.replica_sets.local_draining
        ≡ (manager beta).replica_sets.local_draining)
update_active_replicas-classifies_example =
    update_active_replicas-classifies leases_api (manager beta) (seconds 10) leases leases refl

renewed : register_and_renew leases_api (manager alpha) (seconds 5) [] ≡ (ok tt, leases)
unfolding register_and_renew
renewed = refl

others : (manager beta).my_replica_id ≢ (manager alpha).my_replica_id
unfolding new
others e = ground arith

renewal_seen_example :
    let sets =
      (update_active_replicas leases_api (manager beta) (seconds 10) leases).1.replica_sets in
    (contains sets.active (manager alpha).my_replica_id ≡ (
      ltb (seconds 10) (seconds 5 + lease_nanos)
      && not (manager alpha).replica_sets.local_draining))
    × (contains sets.draining (manager alpha).my_replica_id ≡ (
        ltb (seconds 10) (seconds 5 + lease_nanos) && (manager alpha).replica_sets.local_draining))
renewal_seen_example =
    renewal_seen leases_api leases_laws (manager alpha) (manager beta) (seconds 5) (seconds 10) []
      leases leases renewed refl one_name others

abbrev draining : MembershipManager
draining = (mark_draining leases_api (manager alpha) (seconds 5) leases).0

abbrev later : MembershipManager
later = (update_active_replicas leases_api draining (seconds 7) leases).1

mark_draining_sticks_example :
    (is_draining_lease (own_lease later (seconds 9)) ≡ true)
    × ((own_lease later (seconds 9)).name ≡ (own_lease (manager alpha) (seconds 9)).name)
mark_draining_sticks_example =
    mark_draining_sticks leases_api (manager alpha) (seconds 5) leases {m' = later}
      (next here (updated draining (seconds 7) leases)) (seconds 9)

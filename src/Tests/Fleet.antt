-- ===== src/Tests/Fleet.antt =====
-- Two replicas that have renewed their leases, and read them.
use external_pod_autoscaler.Prelude.{
  ◌≡◌, ◌⊎◌, refl, true, false, List, [], ◌∷◌, some, arith, inl, inr, ◌==◌, contains, Member, sym,
  ap, ◌∙◌, Bool-cases,
}
use mathlib.Core.Path.{subst}
use mathlib.Core.Option.{some_inj}
use external_pod_autoscaler.Text.{Text, codes, text_Eq, text_beq_iff}
use external_pod_autoscaler.Membership.Manager.{
  Lease, MembershipManager, new, own_lease, replica_of, lease_prefix, update_active_replicas,
}
use external_pod_autoscaler.Membership.Manager.Sets.{DistinctNames}
use external_pod_autoscaler.Membership.Manager.Renewal.{own_lease_replica}
use external_pod_autoscaler.Membership.Ownership.{is_epa_owner}
use external_pod_autoscaler.Membership.Ownership.Fleet.{IsSteady, update_active_replicas-elects_one}
use external_pod_autoscaler.Tests.{alpha, beta, ns, epa_name, seconds, hasher, leases_api}
use external_pod_autoscaler.Tests.Election.{weights_differ, distinct}

abbrev manager : Text → MembershipManager
manager id = new id (codes "10.0.0.1") (codes "pod") ns 8443

abbrev live : List Text
live = alpha ∷ beta ∷ []

abbrev leases : List Lease
leases = own_lease (manager alpha) (seconds 5) ∷ own_lease (manager beta) (seconds 5) ∷ []

two_names : DistinctNames leases
unfolding own_lease new lease_prefix
two_names = (λ n e. ground (arith, text_beq_iff (codes "epa-replica-b") n), (λ n e. refl, tt))

live_cases : (r : Text) → contains live r ≡ true → (r ≡ alpha) ⊎ (r ≡ beta)
live_cases r h = elim (Bool-cases (alpha == r)) [
  | inl e ↦ inl (sym ((text_beq_iff alpha r).0 e))
  | inr e ↦ inr (sym ((text_beq_iff beta r).0 (ground arith)))
]

stands_alpha : Member (own_lease (manager alpha) (seconds 5)) leases
stands_alpha = inl refl

stands_beta : Member (own_lease (manager beta) (seconds 5)) leases
stands_beta = inr (inl refl)

stands : (r : Text) → contains live r ≡ true → Member (own_lease (manager r) (seconds 5)) leases
stands r h = elim (live_cases r h) [
  | inl e ↦ subst (λ i. Member (own_lease (manager i) (seconds 5)) leases) (sym e) stands_alpha
  | inr e ↦ subst (λ i. Member (own_lease (manager i) (seconds 5)) leases) (sym e) stands_beta
]

only :
    (id q : Text) (lease : Lease)
    → lease ≡ own_lease (manager id) (seconds 5)
    → replica_of lease ≡ some q
    → id ≡ q
unfolding new
only id q lease e h =
    some_inj.0 (sym (own_lease_replica (manager id) (seconds 5)) ∙ ap replica_of (sym e) ∙ h)

gone :
    (q : Text) (lease : Lease)
    → contains live q ≡ false
    → Member lease leases
    → replica_of lease ≡ some q
    → ⊥
gone q lease h (inl e) f = let same = only alpha q lease e f in ground (arith, text_beq_iff alpha q)
gone q lease h (inr (inl e)) f =
    let same = only beta q lease e f in ground (arith, text_beq_iff beta q)
gone q lease h (inr (inr m)) f = m

steady : IsSteady leases live manager (λ r. seconds 5) (λ r. seconds 10)
unfolding new
steady = record {
  own_id = λ r. refl;
  serving = λ r. refl;
  stands = stands;
  lasts = λ r q h. omega arith;
  gone = λ r q lease h m e. absurd (gone q lease h m e);
}

update_active_replicas-elects_one_example :
    let view = λ (r : Text).
      (update_active_replicas leases_api (manager r) (seconds 10) leases).1.replica_sets in
    (w : Text) × (contains live w ≡ true)
    × ((r : Text) → is_epa_owner hasher (view r) r ns epa_name ≡ (w == r))
update_active_replicas-elects_one_example =
    update_active_replicas-elects_one hasher ns epa_name leases_api leases leases live manager
      (λ r. seconds 5) (λ r. seconds 10) refl two_names steady (λ e. ground arith)
      (distinct alpha beta weights_differ)

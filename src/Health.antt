-- ===== src/Health.antt =====
-- `Readiness` of src/health/server.rs: three flags that the start-up sets, and the answer of
-- `/readyz`. The metrics page and the listener are left out.
use external_pod_autoscaler.Prelude.{
  ℕ, ◌≡◌, refl, Bool, true, false, List, [], ◌∷◌, ◌++◌, arith, if◌then◌else◌, is_empty,
}
use external_pod_autoscaler.Text.{Text, codes, join}

pub record Readiness : Type 0 where
  pub tls_loaded : Bool
  pub lease_registered : Bool
  pub membership_populated : Bool

-- `Readiness::default`.
abbrev pub not_ready : Readiness
not_ready = record { tls_loaded = false; lease_registered = false; membership_populated = false }

unfoldable pub mark_tls_loaded : Readiness → Readiness
mark_tls_loaded r = record r { tls_loaded = true }

unfoldable pub mark_lease_registered : Readiness → Readiness
mark_lease_registered r = record r { lease_registered = true }

unfoldable pub mark_membership_populated : Readiness → Readiness
mark_membership_populated r = record r { membership_populated = true }

abbrev pub unmet : Bool → Text → List Text → List Text
unmet met name rest = if met then rest else name ∷ rest

unfoldable pub pending : Readiness → List Text
pending r = unmet r.tls_loaded (codes "tls") (
    unmet r.lease_registered (codes "lease") (unmet r.membership_populated (codes "membership") []))

-- The status and the body of `/readyz`.
unfoldable pub readyz : Readiness → ℕ × Text
readyz r =
    if is_empty (pending r)
    then (200, codes "ok")
    else (503, codes "not ready: " ++ join (pending r) (codes ", "))

-- The three steps of the start-up, and runs of them in any order and number.
pub data Mark : Type 0 where
  tls lease membership : Mark

abbrev pub mark : Mark → Readiness → Readiness
mark tls r = mark_tls_loaded r
mark lease r = mark_lease_registered r
mark membership r = mark_membership_populated r

abbrev pub mark_all : List Mark → Readiness → Readiness
mark_all [] r = r
mark_all (m ∷ marks) r = mark_all marks (mark m r)

ready_again : (m : Mark) (r : Readiness) → pending r ≡ [] → pending (mark m r) ≡ []
unfolding pending mark_tls_loaded mark_lease_registered mark_membership_populated
ready_again tls r h = ground arith
ready_again lease r h = ground arith
ready_again membership r h = ground arith

-- A replica that is ready stays ready, whatever is marked after that, and answers so.
pub readyz_stays :
    (marks : List Mark) (r : Readiness)
    → pending r ≡ []
    → readyz (mark_all marks r) ≡ (200, codes "ok")
unfolding readyz
readyz_stays [] r h = rw h refl
readyz_stays (m ∷ marks) r h = readyz_stays marks (mark m r) (ready_again m r h)

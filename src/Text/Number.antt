-- ===== src/Text/Number.antt =====
-- `Display` of numbers: `format!("{}", n)`.
use external_pod_autoscaler.Prelude.{
  ℕ, zero, suc, ◌+◌, ◌/◌, ◌%◌, ◌≡◌, refl, [], ◌∷◌, ltb, if◌then◌else◌,
}
use external_pod_autoscaler.Prelude.Int.{ℤ, pos, negsuc}
use external_pod_autoscaler.Text.{Text, codes}

-- The digits of `n` in front of `s`. A number has fewer digits than its successor counts.
show_from : ℕ → ℕ → Text → Text
show_from zero n s = s
show_from (suc fuel) n s =
    let more = show_from fuel (n / 10) ((b'0' + n % 10) ∷ s) in
    if ltb n 10 then (b'0' + n) ∷ s else more

unfoldable pub show_ℕ : ℕ → Text
unfolding show_from
show_ℕ n = show_from (suc n) n []

unfoldable pub show_ℤ : ℤ → Text
unfolding show_ℕ
show_ℤ (pos n) = show_ℕ n
show_ℤ (negsuc n) = b'-' ∷ show_ℕ (suc n)

show_port : show_ℕ 8443 ≡ codes "8443"
unfolding show_ℕ
show_port = refl

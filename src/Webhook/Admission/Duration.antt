-- ===== src/Webhook/Admission/Duration.antt =====
-- `validate_duration`: the texts that it accepts, and those on which it panics.
use external_pod_autoscaler.Prelude.{
  ℕ, ◌+◌, ◌*◌, ◌-◌, ◌≡◌, ◌≢◌, ◌≤◌, ◌<◌, ◌⊎◌, ◌↔◌, refl, Bool, true, false, [], ◌∷◌, ◌++◌, none,
  some, arith, inl, inr, ap, sym, ◌∙◌, ltb, if◌then◌else◌, Bool-cases, Option-cases, length,
  length-append,
}
use mathlib.Core.List.{append_assoc}
use external_pod_autoscaler.Text.{
  Text, codes, text_Eq, text_beq, text_beq_iff, byte_len, char_len, strip_suffix, trim, parse_u64,
  parse_digits, digits_from, is_some,
}
use external_pod_autoscaler.Text.Laws.{strip_suffix-append, strip_suffix_sound}
use external_pod_autoscaler.Webhook.Admission.{
  Checked, passed, rejected, panicked, cut_last_byte, is_unit, check_parts, check_trimmed,
  validate_duration,
}

cut-append : (u : Text) (c : ℕ) → c < 0x80 → cut_last_byte (u ++ c ∷ []) ≡ some (u, c ∷ [])
cut-append [] c h = ground arith
cut-append (a ∷ []) c h = ground arith
cut-append (a ∷ b ∷ u) c h = rw (cut-append (b ∷ u) c h) refl

cut_wide : (u : Text) (c : ℕ) → 0x80 ≤ c → cut_last_byte (u ++ c ∷ []) ≡ none
cut_wide [] c h = ground arith
cut_wide (a ∷ []) c h = ground arith
cut_wide (a ∷ b ∷ u) c h = rw (cut_wide (b ∷ u) c h) refl

cut_sound : (s u v : Text) → cut_last_byte s ≡ some (u, v) → s ≡ u ++ v
cut_sound [] u v h = ground arith
cut_sound (a ∷ []) u v h = ground arith
cut_sound (a ∷ b ∷ s) u v h = elim (Option-cases (cut_last_byte (b ∷ s))) [
  | inl e ↦ ground arith
  | inr (w, e) ↦ ground (arith, cut_sound (b ∷ s) w.0 w.1 e)
]

cut_none :
    (s : Text)
    → s ≢ []
    → cut_last_byte s ≡ none
    → (u : Text) × (c : ℕ) × (s ≡ u ++ c ∷ []) × (0x80 ≤ c)
cut_none [] ne h = absurd (ne refl)
cut_none (a ∷ []) ne h = ([], a, refl, ground arith)
cut_none (a ∷ b ∷ s) ne h = elim (Option-cases (cut_last_byte (b ∷ s))) [
  | inl e ↦
      let (u, c, whole, wide) = cut_none (b ∷ s) (λ p. ground arith) e in
      (a ∷ u, c, ap (λ t. a ∷ t) whole, wide)
  | inr (w, e) ↦ ground arith
]

digits_from-snoc_m : (n : ℕ) (s : Text) → digits_from n (s ++ b'm' ∷ []) ≡ none
digits_from-snoc_m n [] = refl
digits_from-snoc_m n (a ∷ s) = ground (arith, digits_from-snoc_m (n * 10 + (a - b'0')) s)

parse_digits-snoc_m : (s : Text) → parse_digits (s ++ b'm' ∷ []) ≡ none
parse_digits-snoc_m [] = refl
parse_digits-snoc_m (a ∷ s) = digits_from-snoc_m 0 (a ∷ s)

parse_u64-snoc_m : (s : Text) → parse_u64 (s ++ b'm' ∷ []) ≡ none
parse_u64-snoc_m [] = refl
parse_u64-snoc_m (a ∷ s) = ground (arith, parse_digits-snoc_m s, parse_digits-snoc_m (a ∷ s))

byte_len-snoc : (u : Text) (c : ℕ) → byte_len (u ++ c ∷ []) ≡ byte_len u + char_len c
byte_len-snoc [] c = omega arith
byte_len-snoc (a ∷ u) c = omega (arith, byte_len-snoc u c)

byte_len-pos : (a : ℕ) (u : Text) → 0 < byte_len (a ∷ u)
byte_len-pos a u = ground arith

-- A number that fits into a `u64`, then one of the units.
abbrev pub IsDuration : Text → Type 0
IsDuration d =
    (num : Text) × (unit : Text) × (d ≡ num ++ unit)
    × (is_some (parse_u64 num) ≡ true)
    × (is_unit unit ≡ true)

parts_sound :
    (d field num unit : Text)
    → check_parts d field num unit ≡ passed
    → (is_some (parse_u64 num) ≡ true) × (is_unit unit ≡ true)
parts_sound d field num unit h = ground arith

parts_complete :
    (d field num unit : Text)
    → is_some (parse_u64 num) ≡ true
    → is_unit unit ≡ true
    → check_parts d field num unit ≡ passed
parts_complete d field num unit n u = rw (n, u) refl

parts_return : (d field num unit : Text) → check_parts d field num unit ≢ panicked
parts_return d field num unit h = ground arith

-- Which branch is taken.
trimmed_ms :
    (d field s : Text)
    → strip_suffix d (codes "ms") ≡ some s
    → check_trimmed d field ≡ check_parts d field s (codes "ms")
unfolding check_trimmed
trimmed_ms [] field s e = ground arith
trimmed_ms (a ∷ d) field s e = rw e refl

trimmed_cut :
    (d field u v : Text)
    → strip_suffix d (codes "ms") ≡ none
    → cut_last_byte d ≡ some (u, v)
    → check_trimmed d field ≡ (
        if ltb 1 (byte_len d)
        then check_parts d field u v
        else rejected (field ++ (codes " has invalid format: " ++ d)))
unfolding check_trimmed
trimmed_cut [] field u v e f = ground arith
trimmed_cut (a ∷ d) field u v e f = rw (e, f) refl

trimmed_wide :
    (d field : Text)
    → strip_suffix d (codes "ms") ≡ none
    → cut_last_byte d ≡ none
    → d ≢ []
    → ltb 1 (byte_len d) ≡ true
    → check_trimmed d field ≡ panicked
unfolding check_trimmed
trimmed_wide [] field e f ne l = absurd (ne refl)
trimmed_wide (a ∷ d) field e f ne l = rw (e, f, l) refl

wide_len : (u : Text) (c : ℕ) → 0x80 ≤ c → ltb 1 (byte_len (u ++ c ∷ [])) ≡ true
wide_len u c h = ground (arith, byte_len-snoc u c)

guarded : (b : Bool) (x : Checked) (m : Text) → (if b then x else rejected m) ≡ passed → x ≡ passed
guarded true x m h = h
guarded false x m h = ground arith

guarded_return :
    (b : Bool) (x : Checked) (m : Text) → x ≢ panicked → (if b then x else rejected m) ≢ panicked
guarded_return true x m ne h = ne h
guarded_return false x m ne h = ground arith

check_empty :
    (field : Text) → check_trimmed [] field ≡ rejected (field ++ codes " must not be empty")
unfolding check_trimmed
check_empty field = refl

non_empty :
    (d field : Text) (c : Checked)
    → check_trimmed d field ≡ c
    → (c ≡ passed) ⊎ (c ≡ panicked)
    → d ≢ []
non_empty d field c h e p =
    let no = sym (check_empty field) ∙ ap (λ t. check_trimmed t field) (sym p) ∙ h in ground arith

accepts_sound : (d field : Text) → check_trimmed d field ≡ passed → IsDuration d
accepts_sound d field h = elim (Option-cases (strip_suffix d (codes "ms"))) [
  | inr (s, e) ↦
      let (n, u) = parts_sound d field s (codes "ms") (sym (trimmed_ms d field s e) ∙ h) in
      (s, codes "ms", strip_suffix_sound d (codes "ms") s e, n, u)
  | inl e ↦ elim (Option-cases (cut_last_byte d)) [
    | inl f ↦
        let ne = non_empty d field passed h (inl refl) in
        let (u, c, whole, wide) = cut_none d ne f in
        let l = ap (λ t. ltb 1 (byte_len t)) whole ∙ wide_len u c wide in
        let no = trimmed_wide d field e f ne l in ground arith
    | inr (w, f) ↦
        let (n, u) =
          parts_sound d field w.0 w.1
            (guarded (ltb 1 (byte_len d)) _ _ (sym (trimmed_cut d field w.0 w.1 e f) ∙ h)) in
        (w.0, w.1, cut_sound d w.0 w.1 f, n, u)
  ]
]

single :
    (unit : Text)
    → is_unit unit ≡ true
    → (unit ≡ codes "ms") ⊎ ((c : ℕ) × (unit ≡ c ∷ []) × (c < 0x80))
single unit h = elim (Bool-cases (text_beq unit (codes "ms"))) [
  | inl e ↦ inl ((text_beq_iff unit (codes "ms")).0 e)
  | inr e ↦ elim (Bool-cases (text_beq unit (codes "s"))) [
    | inl f ↦ inr (b's', (text_beq_iff unit (codes "s")).0 f, omega arith)
    | inr f ↦ elim (Bool-cases (text_beq unit (codes "m"))) [
      | inl g ↦ inr (b'm', (text_beq_iff unit (codes "m")).0 g, omega arith)
      | inr g ↦ inr (b'h', (text_beq_iff unit (codes "h")).0 (ground arith), omega arith)
    ]
  ]
]

-- A number does not end in the first letter of `ms`.
not_ms :
    (num s : Text) (c : ℕ)
    → c < 0x80
    → is_some (parse_u64 num) ≡ true
    → strip_suffix (num ++ c ∷ []) (codes "ms") ≢ some s
not_ms num s c small n e =
    let whole = strip_suffix_sound (num ++ c ∷ []) (codes "ms") s e in
    let cuts =
      sym (cut-append num c small)
      ∙ ap cut_last_byte (whole ∙ sym (append_assoc s (codes "m") (codes "s")))
      ∙ cut-append (s ++ codes "m") b's' (omega arith) in
    let same : num ≡ s ++ codes "m" = ground arith in
    let none_there =
      sym n ∙ ap (λ t. is_some (parse_u64 t)) same ∙ ap is_some (parse_u64-snoc_m s) in
    ground arith

longer :
    (num : Text) (c : ℕ) → is_some (parse_u64 num) ≡ true → ltb 1 (byte_len (num ++ c ∷ [])) ≡ true
longer [] c n = ground arith
longer (a ∷ num) c n = ground (arith, byte_len-snoc (a ∷ num) c, byte_len-pos a num)

accepts_short :
    (field num : Text) (c : ℕ)
    → c < 0x80
    → is_some (parse_u64 num) ≡ true
    → is_unit (c ∷ []) ≡ true
    → check_trimmed (num ++ c ∷ []) field ≡ passed
accepts_short field num c small n u =
    let e =
      elim (Option-cases (strip_suffix (num ++ c ∷ []) (codes "ms")))
        as (λ _. strip_suffix (num ++ c ∷ []) (codes "ms") ≡ none) [
          | inl e ↦ e
          | inr (s, e) ↦ absurd (not_ms num s c small n e)
        ] in
    trimmed_cut (num ++ c ∷ []) field num (c ∷ []) e (cut-append num c small)
    ∙ rw (longer num c n) (parts_complete (num ++ c ∷ []) field num (c ∷ []) n u)

accepts_complete : (d field : Text) → IsDuration d → check_trimmed d field ≡ passed
accepts_complete d field (num, unit, whole, n, u) = elim (single unit u) [
  | inl ms ↦
      trimmed_ms d field num (
        ap (λ t. strip_suffix t (codes "ms")) (whole ∙ ap (λ t. num ++ t) ms)
        ∙ strip_suffix-append num (codes "ms"))
      ∙ parts_complete d field num (codes "ms") n refl
  | inr (c, one, small) ↦
      ap (λ t. check_trimmed t field) (whole ∙ ap (λ t. num ++ t) one)
      ∙ accepts_short field num c small n (ap is_unit (sym one) ∙ u)
]

-- A duration is accepted exactly if, without the white space around it, it is a number that fits
-- into a `u64` followed by one of the units `ms`, `s`, `m` and `h`.
pub validate_duration_accepts :
    (duration field : Text)
    → (validate_duration duration field ≡ passed) ↔ IsDuration (trim duration)
unfolding validate_duration
validate_duration_accepts duration field =
    (accepts_sound (trim duration) field, accepts_complete (trim duration) field)

panics_sound :
    (d field : Text)
    → check_trimmed d field ≡ panicked
    → (u : Text) × (c : ℕ) × (d ≡ u ++ c ∷ []) × (0x80 ≤ c)
panics_sound d field h = elim (Option-cases (strip_suffix d (codes "ms"))) [
  | inr (s, e) ↦ absurd (parts_return d field s (codes "ms") (sym (trimmed_ms d field s e) ∙ h))
  | inl e ↦ elim (Option-cases (cut_last_byte d)) [
    | inl f ↦ cut_none d (non_empty d field panicked h (inr refl)) f
    | inr (w, f) ↦ absurd (
        guarded_return (ltb 1 (byte_len d)) _ _ (parts_return d field w.0 w.1)
          (sym (trimmed_cut d field w.0 w.1 e f) ∙ h))
  ]
]

panics_complete : (field u : Text) (c : ℕ) → 0x80 ≤ c → check_trimmed (u ++ c ∷ []) field ≡ panicked
panics_complete field u c wide =
    let e =
      elim (Option-cases (strip_suffix (u ++ c ∷ []) (codes "ms")))
        as (λ _. strip_suffix (u ++ c ∷ []) (codes "ms") ≡ none) [
          | inl e ↦ e
          | inr (s, e) ↦
              let cuts =
                sym (cut_wide u c wide)
                ∙ ap cut_last_byte (
                    strip_suffix_sound (u ++ c ∷ []) (codes "ms") s e
                    ∙ sym (append_assoc s (codes "m") (codes "s")))
                ∙ cut-append (s ++ codes "m") b's' (omega arith) in
              ground arith
        ] in
    trimmed_wide (u ++ c ∷ []) field e (cut_wide u c wide)
      (λ p. ground (arith, ap length p, length-append u (c ∷ []))) (wide_len u c wide)

-- The check of a duration panics exactly if, without the white space around it, the text ends in a
-- character that is not ASCII: the slice before its last byte cuts that character.
pub validate_duration_panics :
    (duration field : Text)
    → (validate_duration duration field ≡ panicked)
      ↔ ((u : Text) × (c : ℕ) × (trim duration ≡ u ++ c ∷ []) × (0x80 ≤ c))
unfolding validate_duration
validate_duration_panics duration field = (
  panics_sound (trim duration) field,
  λ (u, c, whole, wide). ap (λ t. check_trimmed t field) whole ∙ panics_complete field u c wide,
)

-- ===== src/Text/Laws.antt =====
-- Laws of the text operations: where a text is cut, and what is put together again.
use external_pod_autoscaler.Prelude.{
  ℕ, ◌≡◌, refl, inl, inr, false, [], ◌∷◌, ◌++◌, none, some, arith, Bool-cases, Option-cases, ap,
  length, length-append,
}
use external_pod_autoscaler.Text.{
  Text, text_beq, text_beq_iff, text_beq_refl, strip_prefix, strip_suffix, contains_char,
  rsplit_once,
}

pub strip_prefix-append : (p s : Text) → strip_prefix (p ++ s) p ≡ some s
strip_prefix-append [] s = refl
strip_prefix-append (a ∷ p) s = ground (arith, strip_prefix-append p s)

pub strip_prefix_sound : (s p r : Text) → strip_prefix s p ≡ some r → s ≡ p ++ r
strip_prefix_sound s [] r h = ground arith
strip_prefix_sound [] (b ∷ p) r h = ground arith
strip_prefix_sound (a ∷ s) (b ∷ p) r h = ground (arith, strip_prefix_sound s p r)

pub rsplit_once-none : (s : Text) (c : ℕ) → contains_char s c ≡ false → rsplit_once s c ≡ none
rsplit_once-none [] c h = refl
rsplit_once-none (a ∷ s) c h = ground (arith, rsplit_once-none s c)

-- The last occurrence is the one after which the character does not stand.
pub rsplit_once-append :
    (u v : Text) (c : ℕ) → contains_char v c ≡ false → rsplit_once (u ++ c ∷ v) c ≡ some (u, v)
rsplit_once-append [] v c h = ground (arith, rsplit_once-none v c)
rsplit_once-append (a ∷ u) v c h = ground (arith, rsplit_once-append u v c)

contains_of_rsplit_once-none :
    (s : Text) (c : ℕ) → rsplit_once s c ≡ none → contains_char s c ≡ false
contains_of_rsplit_once-none [] c h = refl
contains_of_rsplit_once-none (a ∷ s) c h = elim (Option-cases (rsplit_once s c)) [
  | inl e ↦ ground (arith, contains_of_rsplit_once-none s c e)
  | inr (w, e) ↦ ground arith
]

pub rsplit_once_sound :
    (s u v : Text) (c : ℕ)
    → rsplit_once s c ≡ some (u, v)
    → (s ≡ u ++ c ∷ v) × (contains_char v c ≡ false)
rsplit_once_sound [] u v c h = ground arith
rsplit_once_sound (a ∷ s) u v c h = elim (Option-cases (rsplit_once s c)) [
  | inl e ↦ ground (arith, contains_of_rsplit_once-none s c e)
  | inr (w, e) ↦ ground (arith, rsplit_once_sound s w.0 w.1 c)
]

-- The suffix that is stripped is the only one: what remains is what stood in front.
pub strip_suffix_sound : (s p r : Text) → strip_suffix s p ≡ some r → s ≡ r ++ p
strip_suffix_sound [] p r h = ground (arith, text_beq_iff [] p)
strip_suffix_sound (a ∷ s) p r h = elim (Option-cases (strip_suffix s p)) [
  | inl e ↦ ground (arith, text_beq_iff (a ∷ s) p)
  | inr (w, e) ↦ ground (arith, text_beq_iff (a ∷ s) p, strip_suffix_sound s p w e)
]

length-ne : (u p : Text) (a : ℕ) → text_beq (a ∷ u ++ p) p ≡ false
length-ne u p a = elim (Bool-cases (text_beq (a ∷ u ++ p) p)) [
  | inl e ↦ absurd (omega (arith, ap length ((text_beq_iff (a ∷ u ++ p) p).0 e), length-append u p))
  | inr e ↦ e
]

pub strip_suffix-append : (u p : Text) → strip_suffix (u ++ p) p ≡ some u
strip_suffix-append [] [] = refl
strip_suffix-append [] (b ∷ p) = rw text_beq_refl
strip_suffix-append (a ∷ u) p = rw (length-ne u p a, strip_suffix-append u p)

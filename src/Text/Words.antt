-- ===== src/Text/Words.antt =====
-- Words, and what a cut at white space, a trim and a cut at line ends make of them.
use external_pod_autoscaler.Prelude.{
  ℕ, ◌≡◌, refl, Bool, true, false, [], ◌∷◌, ◌++◌, none, arith, All, Bool-cases, inl, inr, sym, ap,
  ◌∙◌, is_empty, nat_eq, nat_eq_iff,
}
use mathlib.Core.List.{append_assoc, append-nil}
use mathlib.Core.Path.{subst}
use external_pod_autoscaler.Text.{
  Text, contains_char, is_whitespace, trim, trim_start, trim_end, words_from, close_word,
  strip_suffix,
}

-- No character passes the test.
abbrev pub Lacks : (ℕ → Bool) → Text → Type 0
Lacks p s = All (λ a. p a ≡ false) s

abbrev pub IsPlain : Text → Type 0
IsPlain s = Lacks is_whitespace s

pub Lacks-append : (p : ℕ → Bool) (u v : Text) → Lacks p u → Lacks p v → Lacks p (u ++ v)
Lacks-append p [] v h k = k
Lacks-append p (a ∷ u) v (h, hs) k = (h, Lacks-append p u v hs k)

pub contains_char_of_Lacks :
    (p : ℕ → Bool) (s : Text) (c : ℕ) → p c ≡ true → Lacks p s → contains_char s c ≡ false
contains_char_of_Lacks p [] c e h = refl
contains_char_of_Lacks p (a ∷ s) c e (h, hs) = elim (Bool-cases (nat_eq a c)) [
  | inl same ↦
      let other : p c ≡ false = subst (λ x. p x ≡ false) ((nat_eq_iff a c).0 same) h in
      absurd (ground (arith, e, other))
  | inr ne ↦ rw ne (contains_char_of_Lacks p s c e hs)
]

-- The word that is being read, up to the end or to a space.
pub words_from_word : (w u : Text) → IsPlain u → words_from w u ≡ close_word (w ++ u) []
words_from_word w [] h = ap (λ t. close_word t []) (sym (append-nil w))
words_from_word w (a ∷ u) (h, hs) =
    rw h
      (words_from_word (w ++ a ∷ []) u hs ∙ ap (λ t. close_word t []) (append_assoc w (a ∷ []) u))

pub words_from-append :
    (w u s : Text) (b : ℕ)
    → IsPlain u
    → is_whitespace b ≡ true
    → words_from w (u ++ b ∷ s) ≡ close_word (w ++ u) (words_from [] s)
words_from-append w [] s b h e =
    rw e (ap (λ t. close_word t (words_from [] s)) (sym (append-nil w)))
words_from-append w (a ∷ u) s b (h, hs) e = rw h (
    words_from-append (w ++ a ∷ []) u s b hs e
    ∙ ap (λ t. close_word t (words_from [] s)) (append_assoc w (a ∷ []) u))

trim_end_plain : (p : ℕ → Bool) (s : Text) → Lacks p s → trim_end p s ≡ s
trim_end_plain p [] h = refl
trim_end_plain p (a ∷ s) (h, hs) = ground (arith, trim_end_plain p s hs)

trim_end_cons :
    (p : ℕ → Bool) (a : ℕ) (s : Text)
    → is_empty s ≡ false
    → trim_end p s ≡ s
    → trim_end p (a ∷ s) ≡ a ∷ s
trim_end_cons p a s h e = ground (arith, ap is_empty e)

is_empty-append : (u v : Text) → is_empty v ≡ false → is_empty (u ++ v) ≡ false
is_empty-append [] v h = h
is_empty-append (a ∷ u) v h = refl

-- A text that ends in a word stays when its end is trimmed.
trim_end-append :
    (p : ℕ → Bool) (u v : Text) → is_empty v ≡ false → Lacks p v → trim_end p (u ++ v) ≡ u ++ v
trim_end-append p [] v h k = trim_end_plain p v k
trim_end-append p (a ∷ u) v h k =
    trim_end_cons p a (u ++ v) (is_empty-append u v h) (trim_end-append p u v h k)

-- A text between a character and a word that both stay.
pub trim-append :
    (a : ℕ) (u v : Text)
    → is_whitespace a ≡ false
    → is_empty v ≡ false
    → IsPlain v
    → trim (a ∷ u ++ v) ≡ a ∷ u ++ v
trim-append a u v h e k = rw h (trim_end-append is_whitespace (a ∷ u) v e k)

pub trim_matches_plain : (p : ℕ → Bool) (s : Text) → Lacks p s → trim_end p (trim_start p s) ≡ s
trim_matches_plain p [] h = refl
trim_matches_plain p (a ∷ s) (h, hs) = rw h (trim_end_plain p (a ∷ s) (h, hs))

pub strip_suffix-none :
    (s : Text) (c : ℕ) → contains_char s c ≡ false → strip_suffix s (c ∷ []) ≡ none
strip_suffix-none [] c h = refl
strip_suffix-none (a ∷ s) c h = ground (arith, strip_suffix-none s c)

trim_end_keep :
    (p : ℕ → Bool) (a : ℕ) (s : Text) → p a ≡ false → trim_end p (a ∷ s) ≡ a ∷ trim_end p s
trim_end_keep p a s h = ground arith

trim_end_next :
    (p : ℕ → Bool) (a : ℕ) (s : Text)
    → is_empty (trim_end p s) ≡ false
    → trim_end p (a ∷ s) ≡ a ∷ trim_end p s
trim_end_next p a s h = ground arith

trim_end_head :
    (p : ℕ → Bool) (a b c : ℕ) (s : Text)
    → p a ≡ false
    → p c ≡ false
    → trim_end p (a ∷ b ∷ c ∷ s) ≡ a ∷ b ∷ c ∷ trim_end p s
trim_end_head p a b c s h k =
    let third = trim_end_keep p c s k in
    trim_end_keep p a (b ∷ c ∷ s) h
    ∙ ap (λ t. a ∷ t) (trim_end_next p b (c ∷ s) (ap is_empty third) ∙ ap (λ t. b ∷ t) third)

-- What stands in front of a character that stays is not trimmed.
pub trim_head :
    (a b c : ℕ) (s : Text)
    → is_whitespace a ≡ false
    → is_whitespace c ≡ false
    → (r : Text) × (trim (a ∷ b ∷ c ∷ s) ≡ a ∷ b ∷ c ∷ r)
trim_head a b c s h k = (trim_end is_whitespace s, rw h (trim_end_head is_whitespace a b c s h k))

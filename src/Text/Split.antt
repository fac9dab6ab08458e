-- ===== src/Text/Split.antt =====
-- Texts that are cut at the first or at every occurrence of a character.
use external_pod_autoscaler.Prelude.{
  ℕ, ◌≡◌, refl, false, List, [], ◌∷◌, ◌++◌, some, nat_eq_iff, arith, ap, ◌∙◌, All,
}
use external_pod_autoscaler.Text.{Text, split, split_once, join, contains_char}

pub split_whole : (w : Text) (c : ℕ) → contains_char w c ≡ false → split w c ≡ w ∷ []
split_whole [] c h = refl
split_whole (a ∷ w) c h = ground (arith, split_whole w c)

pub split-append :
    (w r : Text) (c : ℕ) → contains_char w c ≡ false → split (w ++ c ∷ r) c ≡ w ∷ split r c
split-append [] r c h = ground (arith, nat_eq_iff c c)
split-append (a ∷ w) r c h = ground (arith, split-append w r c)

pub split-join :
    (w : Text) (ws : List Text) (c : ℕ)
    → All (λ v. contains_char v c ≡ false) (w ∷ ws)
    → split (join (w ∷ ws) (c ∷ [])) c ≡ w ∷ ws
split-join w [] c (h, rest) = split_whole w c h
split-join w (v ∷ ws) c (h, rest) =
    split-append w (join (v ∷ ws) (c ∷ [])) c h ∙ ap (λ t. w ∷ t) (split-join v ws c rest)

pub split_once-append :
    (k v : Text) (c : ℕ) → contains_char k c ≡ false → split_once (k ++ c ∷ v) c ≡ some (k, v)
split_once-append [] v c h = ground (arith, nat_eq_iff c c)
split_once-append (a ∷ k) v c h = ground (arith, split_once-append k v c)

pub contains_char-append :
    (u v : Text) (c : ℕ)
    → contains_char u c ≡ false
    → contains_char v c ≡ false
    → contains_char (u ++ v) c ≡ false
contains_char-append [] v c h i = i
contains_char-append (a ∷ u) v c h i = ground (arith, contains_char-append u v c)

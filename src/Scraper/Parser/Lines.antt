-- ===== src/Scraper/Parser/Lines.antt =====
-- The lines of a printed text, one by one.
use external_pod_autoscaler.Prelude.{
  ℕ, ◌≡◌, refl, true, false, List, [], ◌∷◌, ◌++◌, map, arith, ap, sym, ◌∙◌, All, is_empty, nat_eq,
  Bool-cases, inl, inr,
}
use mathlib.Core.List.{append_assoc}
use mathlib.Core.Path.{subst}
use external_pod_autoscaler.Text.{
  Text, split, contains_char, is_whitespace, trim, starts_with, split_whitespace,
}
use external_pod_autoscaler.Text.Split.{split-append, contains_char-append}
use external_pod_autoscaler.Text.Words.{
  IsPlain, Lacks-append, contains_char_of_Lacks, words_from_word, words_from-append, trim-append,
  strip_suffix-none,
}
use external_pod_autoscaler.Float.{F64}
use external_pod_autoscaler.Scraper.Parser.{without_return, cut_lines, lines}
use external_pod_autoscaler.Scraper.Parser.Printed.{
  print_series, print_pairs, IsCleanLabel, Line, series, type_line, help_line, print_line,
  print_lines, IsClean,
}
use external_pod_autoscaler.Scraper.Parser.Labels.{print_pairs-IsPlain}

pub print_series-IsPlain :
    (name : Text) (labels : List (Text × Text))
    → IsPlain name
    → All IsCleanLabel labels
    → IsPlain (print_series name labels)
print_series-IsPlain name [] h c = h
print_series-IsPlain name (label ∷ labels) h c =
    let pairs = print_pairs (label ∷ labels) in
    Lacks-append is_whitespace name (b'{' ∷ (pairs ++ b'}' ∷ [])) h (
      refl,
      Lacks-append is_whitespace pairs (b'}' ∷ []) (print_pairs-IsPlain (label ∷ labels) c)
          (refl, tt),
    )

-- Two words with a space between them.
pub words_two :
    (u v : Text)
    → IsPlain u
    → is_empty u ≡ false
    → IsPlain v
    → is_empty v ≡ false
    → split_whitespace (u ++ b' ' ∷ v) ≡ u ∷ v ∷ []
words_two [] v h e k f = absurd (ground arith)
words_two (a ∷ u) [] h e k f = absurd (ground arith)
words_two (a ∷ u) (b ∷ v) h e k f =
    words_from-append [] (a ∷ u) (b ∷ v) b' ' h refl
    ∙ ap (λ ws. (a ∷ u) ∷ ws) (words_from_word [] (b ∷ v) k)

pub trim_two :
    (u v : Text)
    → IsPlain u
    → is_empty u ≡ false
    → IsPlain v
    → is_empty v ≡ false
    → trim (u ++ b' ' ∷ v) ≡ u ++ b' ' ∷ v
trim_two [] v h e k f = absurd (ground arith)
trim_two (a ∷ u) v (h, hs) e k f =
    let moved : a ∷ ((u ++ b' ' ∷ []) ++ v) ≡ a ∷ (u ++ b' ' ∷ v) =
      ap (λ t. a ∷ t) (append_assoc u (b' ' ∷ []) v) in
    subst (λ t. trim t ≡ t) moved (trim-append a (u ++ b' ' ∷ []) v h f k)

pub trim_shape :
    (w : Text) (a : ℕ) (u v : Text)
    → w ≡ a ∷ u ++ v
    → is_whitespace a ≡ false
    → is_empty v ≡ false
    → IsPlain v
    → trim w ≡ w
trim_shape w a u v e h f k = subst (λ t. trim t ≡ t) (sym e) (trim-append a u v h f k)

-- A printed series is not taken for a comment.
pub no_hash :
    (name : Text) (labels : List (Text × Text)) (rest p : Text)
    → is_empty name ≡ false
    → contains_char name b'#' ≡ false
    → starts_with (print_series name labels ++ rest) (b'#' ∷ p) ≡ false
no_hash [] labels rest p e h = absurd (ground arith)
no_hash (a ∷ name) [] rest p e h = ground arith
no_hash (a ∷ name) (label ∷ labels) rest p e h = ground arith

pub nonempty_series :
    (name : Text) (labels : List (Text × Text))
    → is_empty name ≡ false
    → is_empty (print_series name labels) ≡ false
nonempty_series [] labels e = absurd (ground arith)
nonempty_series (a ∷ name) [] e = refl
nonempty_series (a ∷ name) (label ∷ labels) e = refl

pub nonempty_line : (u v : Text) (b : ℕ) → is_empty (u ++ b ∷ v) ≡ false
nonempty_line [] v b = refl
nonempty_line (a ∷ u) v b = refl

-- A line is its text up to the line feed.
split_rest : (s : Text) (c : ℕ) → (w : Text) × (ws : List Text) × (split s c ≡ w ∷ ws)
split_rest [] c = ([], [], refl)
split_rest (a ∷ s) c = elim (Bool-cases (nat_eq a c)) [
  | inl e ↦ ([], split s c, rw e refl)
  | inr e ↦ let (w, ws, q) = split_rest s c in (a ∷ w, ws, rw (e, q) refl)
]

cut_lines-cons :
    (line s : Text)
    → without_return line ≡ line
    → cut_lines (line ∷ split s 10) ≡ line ∷ cut_lines (split s 10)
cut_lines-cons line s h =
    let (w, ws, q) = split_rest s 10 in rw q (ap (λ t. t ∷ cut_lines (w ∷ ws)) h)

module _ (f64 : F64) where
  open f64 use {Float}

  abbrev NoBreaks : Line f64 → Type 0
  NoBreaks line =
      (contains_char (print_line f64 line) 10 ≡ false)
      × (contains_char (print_line f64 line) 13 ≡ false)

  breaks :
      (u v : Text) (b : ℕ) (c : ℕ)
      → is_whitespace c ≡ true
      → nat_eq b c ≡ false
      → IsPlain u
      → IsPlain v
      → contains_char (u ++ b ∷ v) c ≡ false
  breaks u v b c e f h k =
      contains_char-append u (b ∷ v) c (contains_char_of_Lacks is_whitespace u c e h)
        (rw f (contains_char_of_Lacks is_whitespace v c e k))

  print_line-NoBreaks : (line : Line f64) → IsClean f64 line → NoBreaks line
  print_line-NoBreaks (series name labels text value) c =
      let plain = print_series-IsPlain name labels c.name_word.0 c.labels_clean in
      (
        breaks (print_series name labels) text b' ' 10 refl refl plain c.text_word.0,
        breaks (print_series name labels) text b' ' 13 refl refl plain c.text_word.0,
      )
  print_line-NoBreaks (type_line name type) (n, t) =
      (breaks name type b' ' 10 refl refl n.0 t.0, breaks name type b' ' 13 refl refl n.0 t.0)
  print_line-NoBreaks (help_line text) (h, k) = (h, k)

  pub lines-print :
      (ls : List (Line f64))
      → All (IsClean f64) ls
      → lines (print_lines f64 ls) ≡ map (print_line f64) ls
  lines-print [] c = refl
  lines-print (line ∷ ls) (c, cs) =
      let (feed, return) = print_line-NoBreaks line c in
      ap cut_lines (split-append (print_line f64 line) (print_lines f64 ls) 10 feed)
      ∙ cut_lines-cons (print_line f64 line) (print_lines f64 ls)
          (rw (without_return, strip_suffix-none (print_line f64 line) 13 return) refl)
      ∙ ap (λ t. print_line f64 line ∷ t) (lines-print ls cs)

-- ===== src/Scraper/Parser/Labels.antt =====
-- The labels of a printed series are read back.
use external_pod_autoscaler.Prelude.{
  ℕ, ◌+◌, ◌≡◌, refl, Bool, true, false, List, [], ◌∷◌, ◌++◌, none, some, map, arith, ap, sym, ◌∙◌,
  All, length, drop, length-append, ◌==◌, is_empty, suc,
}
use mathlib.Core.List.{append_assoc, append-nil}
use mathlib.Core.Path.{subst}
use external_pod_autoscaler.Text.{
  Text, text_Eq, text_beq_iff, split_once, contains_char, trim, trim_end, trim_matches,
  is_whitespace, rsplit_once,
}
use external_pod_autoscaler.Text.Laws.{rsplit_once-append}
use external_pod_autoscaler.Text.Split.{split-join, split_once-append, contains_char-append}
use external_pod_autoscaler.Text.Words.{IsPlain, Lacks, Lacks-append, trim_matches_plain}
use external_pod_autoscaler.Assoc.{insert, contains_key, Unique}
use external_pod_autoscaler.Scraper.Parser.{
  ok, is_quote, insert_pair, collect_labels, parse_labels, slice_between, parse_series,
}
use external_pod_autoscaler.Scraper.Parser.Printed.{
  print_pair, print_pairs, print_series, IsCleanLabel,
}

trim_end_last :
    (p : ℕ → Bool) (v : Text) (b : ℕ) → p b ≡ true → Lacks p v → trim_end p (v ++ b ∷ []) ≡ v
trim_end_last p [] b e h = rw e refl
trim_end_last p (a ∷ v) b e (h, hs) = ground (arith, trim_end_last p v b e hs)

trim_quoted : (v : Text) → Lacks is_quote v → trim_matches is_quote (b'"' ∷ (v ++ b'"' ∷ [])) ≡ v
trim_quoted [] h = refl
trim_quoted (a ∷ v) (h, hs) = rw h (trim_end_last is_quote (a ∷ v) b'"' refl (h, hs))

print_pair-IsPlain : (label : Text × Text) → IsCleanLabel label → IsPlain (print_pair label)
print_pair-IsPlain (key, v) c =
    Lacks-append is_whitespace key (b'=' ∷ (b'"' ∷ (v ++ b'"' ∷ []))) c.key_plain
      (refl, (refl, Lacks-append is_whitespace v (b'"' ∷ []) c.value_plain (refl, tt)))

quoted-IsPlain : (v : Text) → IsPlain v → IsPlain (b'"' ∷ (v ++ b'"' ∷ []))
quoted-IsPlain v h = (refl, Lacks-append is_whitespace v (b'"' ∷ []) h (refl, tt))

-- One pair, at the end of the labels found so far.
insert-append :
    (k v : Text) (m : List (Text × Text))
    → contains_key k m ≡ false
    → insert k v m ≡ m ++ (k, v) ∷ []
insert-append k v [] h = refl
insert-append k v ((j, w) ∷ m) h = ground (arith, insert-append k v m)

insert_pair-print :
    (label : Text × Text) (m : List (Text × Text))
    → IsCleanLabel label
    → contains_key label.0 m ≡ false
    → insert_pair (split_once (trim (print_pair label)) b'=') m ≡ m ++ label ∷ []
insert_pair-print (key, v) m c fresh =
    let quoted = b'"' ∷ (v ++ b'"' ∷ []) in
    rw
      (
        trim_matches_plain is_whitespace (print_pair (key, v)) (print_pair-IsPlain (key, v) c),
        split_once-append key quoted b'=' c.key_no_equals,
        trim_matches_plain is_whitespace key c.key_plain,
        trim_matches_plain is_whitespace quoted (quoted-IsPlain v c.value_plain),
        trim_quoted v c.value_no_quote,
      )
      (insert-append key v m fresh)

contains_key-append :
    (k : Text) (m : List (Text × Text)) (label : Text × Text) (rest : List (Text × Text))
    → contains_key k (m ++ label ∷ rest) ≡ false
    → (label.0 == k) ≡ false
contains_key-append k [] label rest h = ground arith
contains_key-append k ((j, w) ∷ m) label rest h = contains_key-append k m label rest (ground arith)

-- A key is not among those in front of it.
fresh_key :
    (m : List (Text × Text)) (label : Text × Text) (rest : List (Text × Text))
    → Unique (m ++ label ∷ rest)
    → contains_key label.0 m ≡ false
fresh_key [] label rest u = refl
fresh_key ((j, w) ∷ m) label rest (h, u) = ground (
  arith,
  fresh_key m label rest u,
  contains_key-append j m label rest h,
  text_beq_iff j label.0,
  text_beq_iff label.0 j,
)

collect_labels-print :
    (labels m : List (Text × Text))
    → All IsCleanLabel labels
    → Unique (m ++ labels)
    → collect_labels (map print_pair labels) m ≡ m ++ labels
collect_labels-print [] m c u = sym (append-nil m)
collect_labels-print (label ∷ labels) m (c, cs) u =
    let moved : (m ++ label ∷ []) ++ labels ≡ m ++ label ∷ labels =
      append_assoc m (label ∷ []) labels in
    ap (collect_labels (map print_pair labels))
      (insert_pair-print label m c (fresh_key m label labels u))
    ∙ collect_labels-print labels (m ++ label ∷ []) cs (subst Unique (sym moved) u)
    ∙ moved

print_pair-no_comma :
    (label : Text × Text) → IsCleanLabel label → contains_char (print_pair label) b',' ≡ false
print_pair-no_comma (key, v) c =
    contains_char-append key (b'=' ∷ (b'"' ∷ (v ++ b'"' ∷ []))) b',' c.key_no_comma
      (contains_char-append v (b'"' ∷ []) b',' c.value_no_comma refl)

no_commas :
    (labels : List (Text × Text))
    → All IsCleanLabel labels
    → All (λ v. contains_char v b',' ≡ false) (map print_pair labels)
no_commas [] c = tt
no_commas (label ∷ labels) (c, cs) = (print_pair-no_comma label c, no_commas labels cs)

join_nonempty :
    (label : Text × Text) (labels : List (Text × Text))
    → is_empty (print_pairs (label ∷ labels)) ≡ false
join_nonempty ([], v) [] = refl
join_nonempty (a ∷ key, v) [] = refl
join_nonempty ([], v) (next ∷ labels) = refl
join_nonempty (a ∷ key, v) (next ∷ labels) = refl

parse_labels-print :
    (label : Text × Text) (labels : List (Text × Text))
    → All IsCleanLabel (label ∷ labels)
    → Unique (label ∷ labels)
    → parse_labels (print_pairs (label ∷ labels)) ≡ label ∷ labels
unfolding parse_labels
parse_labels-print label labels c u =
    rw
      (
        join_nonempty label labels,
        split-join (print_pair label) (map print_pair labels) b',' (no_commas (label ∷ labels) c),
      )
      (collect_labels-print (label ∷ labels) [] c u)

drop-append : (u v : Text) (a : ℕ) → drop (length u + 1) (u ++ a ∷ v) ≡ v
drop-append [] v a = refl
drop-append (b ∷ u) v a =
    let one_more : length (b ∷ u) + 1 ≡ suc (length u + 1) = omega arith in
    rw one_more (drop-append u v a)

slice_between-append : (u v : Text) (a : ℕ) → slice_between u (u ++ a ∷ v) ≡ ok v
slice_between-append u v a = ground (arith, drop-append u v a, length-append u (a ∷ v))

pub print_pairs-IsPlain :
    (labels : List (Text × Text)) → All IsCleanLabel labels → IsPlain (print_pairs labels)
print_pairs-IsPlain [] c = tt
print_pairs-IsPlain (label ∷ []) (c, cs) = print_pair-IsPlain label c
print_pairs-IsPlain (label ∷ next ∷ labels) (c, cs) =
    Lacks-append is_whitespace (print_pair label) (b',' ∷ print_pairs (next ∷ labels))
      (print_pair-IsPlain label c) (refl, print_pairs-IsPlain (next ∷ labels) cs)

split_once-none : (s : Text) (c : ℕ) → contains_char s c ≡ false → split_once s c ≡ none
split_once-none [] c h = refl
split_once-none (a ∷ s) c h = ground (arith, split_once-none s c)

parse_series-append :
    (name pairs : Text)
    → contains_char name b'{' ≡ false
    → parse_series (name ++ b'{' ∷ (pairs ++ b'}' ∷ [])) ≡ ok (name, parse_labels pairs)
unfolding parse_series
parse_series-append name pairs h =
    let inner : (name ++ b'{' ∷ pairs) ++ b'}' ∷ [] ≡ name ++ b'{' ∷ (pairs ++ b'}' ∷ []) =
      append_assoc name (b'{' ∷ pairs) (b'}' ∷ []) in
    let cut : rsplit_once (name ++ b'{' ∷ (pairs ++ b'}' ∷ [])) b'}'
        ≡ some (name ++ b'{' ∷ pairs, []) =
      ap (λ t. rsplit_once t b'}') (sym inner)
      ∙ rsplit_once-append (name ++ b'{' ∷ pairs) [] b'}' refl in
    rw
      (
        parse_series,
        split_once-append name (pairs ++ b'}' ∷ []) b'{' h,
        cut,
        slice_between-append name pairs b'{',
      )
      refl

-- The name and the labels of a printed series.
pub parse_series-print :
    (name : Text) (labels : List (Text × Text))
    → contains_char name b'{' ≡ false
    → All IsCleanLabel labels
    → Unique labels
    → parse_series (print_series name labels) ≡ ok (name, labels)
unfolding parse_series
parse_series-print name [] h c u = rw (parse_series, split_once-none name b'{' h) refl
parse_series-print name (label ∷ labels) h c u =
    parse_series-append name (print_pairs (label ∷ labels)) h
    ∙ ap (λ t. ok (name, t)) (parse_labels-print label labels c u)

-- ===== src/Scraper/Pods/Selection.antt =====
-- The selector of a workload, on its way through a text to the filter of the pods.
use external_pod_autoscaler.Prelude.{
  ◌≡◌, ◌≢◌, ◌↔◌, ◌⊎◌, refl, true, false, List, [], ◌∷◌, ◌++◌, Option, none, some, if◌then◌else◌,
  ◌==◌, is_empty, all, map, arith, ap, sym, ◌∙◌, All, Option-cases, Bool-cases, inl, inr,
}
use mathlib.Core.Path.{subst}
use mathlib.Core.List.{map-append}
use external_pod_autoscaler.Text.{
  Text, codes, text_Eq, text_beq_iff, text_beq_refl, split, split_once, trim, join, contains_char,
}
use external_pod_autoscaler.Text.Split.{split-join, split_once-append, contains_char-append}
use external_pod_autoscaler.Assoc.{lookup}
use external_pod_autoscaler.Scraper.Pods.{
  Pod, pod_matches_selector, label_is, parse_pair, parse_pairs, parse_label_selector, Expression,
  WorkloadSelector, SelectorError, SelectorResult, ok, err, equality, label_parts, the_value,
  expression_part, expression_parts, optional_parts, joined, build_label_selector_string,
}

-- A label that survives the text: a key without a comma and an equals sign, a value without a
-- comma, and no white space around them. The labels of Kubernetes are such.
abbrev pub IsCleanLabel : Text × Text → Type 0
IsCleanLabel (k, v) =
    (is_empty k ≡ false)
    × (contains_char k b',' ≡ false)
    × (contains_char k b'=' ≡ false)
    × (trim k ≡ k)
    × (contains_char v b',' ≡ false)
    × (trim v ≡ v)

parse_pair-split :
    (pair k v : Text) (rest : List (Text × Text))
    → split_once pair b'=' ≡ some (k, v)
    → parse_pair pair rest ≡ (if is_empty (trim k) then rest else (trim k, trim v) ∷ rest)
parse_pair-split pair k v rest e = rw (e, parse_pair) refl

parse_pair-equality :
    (label : Text × Text) (rest : List (Text × Text))
    → IsCleanLabel label
    → parse_pair (equality label) rest ≡ label ∷ rest
parse_pair-equality (k, v) rest (some_key, no_comma, no_equals, key, comma, value) =
    parse_pair-split (k ++ b'=' ∷ v) k v rest (split_once-append k v b'=' no_equals)
    ∙ rw (key, value, some_key) refl

parse_pairs-equality :
    (labels : List (Text × Text))
    → All IsCleanLabel labels
    → parse_pairs (map equality labels) ≡ labels
parse_pairs-equality [] clean = refl
parse_pairs-equality (label ∷ labels) (clean, rest) =
    parse_pair-equality label (parse_pairs (map equality labels)) clean
    ∙ ap (λ t. label ∷ t) (parse_pairs-equality labels rest)

no_commas :
    (labels : List (Text × Text))
    → All IsCleanLabel labels
    → All (λ v. contains_char v b',' ≡ false) (map equality labels)
no_commas [] clean = tt
no_commas ((k, v) ∷ labels) ((some_key, no_comma, no_equals, key, comma, value), rest) =
    (contains_char-append k (b'=' ∷ v) b',' no_comma comma, no_commas labels rest)

parse_split : (s : Text) → parse_label_selector s ≡ parse_pairs (split s b',')
unfolding parse_label_selector
parse_split [] = refl
parse_split (a ∷ s) = refl

-- Labels that are joined to a text are parsed back.
parse_label_selector-join :
    (labels : List (Text × Text))
    → labels ≢ []
    → All IsCleanLabel labels
    → parse_label_selector (join (map equality labels) (codes ",")) ≡ labels
parse_label_selector-join [] ne clean = absurd (ne refl)
parse_label_selector-join (label ∷ labels) ne clean =
    parse_split (join (map equality (label ∷ labels)) (codes ","))
    ∙ ap parse_pairs
        (split-join (equality label) (map equality labels) b',' (no_commas (label ∷ labels) clean))
    ∙ parse_pairs-equality (label ∷ labels) clean

-- The labels that a workload's selector asks for.
abbrev pub asked_value : Text → Option (List Text) → List (Text × Text) → List (Text × Text)
asked_value key (some (v ∷ [])) rest = (key, v) ∷ rest
asked_value key _ rest = rest

abbrev pub asked_values : List Expression → List (Text × Text)
asked_values [] = []
asked_values (expr ∷ expressions) = asked_value expr.key expr.values (asked_values expressions)

abbrev pub or_none : {A : Type 0} → Option (List A) → List A
or_none none = []
or_none (some xs) = xs

abbrev pub asked_labels : WorkloadSelector → List (Text × Text)
asked_labels selector =
    or_none selector.match_labels ++ asked_values (or_none selector.match_expressions)

SelectorResult-cases :
    {A : Type 0} (r : SelectorResult A)
    → ((a : A) × (r ≡ ok a)) ⊎ ((e : SelectorError) × (r ≡ err e))
SelectorResult-cases (ok a) = inl (a, refl)
SelectorResult-cases (err e) = inr (e, refl)

the_value_sound :
    (key : Text) (values : Option (List Text)) (part : Text) (rest : List (Text × Text))
    → the_value key values ≡ ok part
    → map equality (asked_value key values rest) ≡ part ∷ map equality rest
the_value_sound key none part rest h = ground arith
the_value_sound key (some []) part rest h = ground arith
the_value_sound key (some (v ∷ [])) part rest h = ground arith
the_value_sound key (some (v ∷ w ∷ vs)) part rest h = ground arith

expression_part_sound :
    (expr : Expression) (part : Text) (rest : List (Text × Text))
    → expression_part expr ≡ ok part
    → map equality (asked_value expr.key expr.values rest) ≡ part ∷ map equality rest
expression_part_sound expr part rest h = elim (Bool-cases (expr.operator == codes "In")) [
  | inl e ↦ the_value_sound expr.key expr.values part rest (ground arith)
  | inr e ↦ ground arith
]

expression_parts_sound :
    (expressions : List Expression) (parts : List Text)
    → expression_parts expressions ≡ ok parts
    → parts ≡ map equality (asked_values expressions)
expression_parts_sound [] parts h = ground arith
expression_parts_sound (expr ∷ expressions) parts h =
    elim (SelectorResult-cases (expression_part expr)) [
      | inr (e, p) ↦ ground arith
      | inl (part, p) ↦ elim (SelectorResult-cases (expression_parts expressions)) [
        | inr (e, q) ↦ ground arith
        | inl (ps, q) ↦
            let all_parts : part ∷ ps ≡ parts = ground arith in
            sym all_parts
            ∙ ap (λ t. part ∷ t) (expression_parts_sound expressions ps q)
            ∙ sym (expression_part_sound expr part (asked_values expressions) p)
      ]
    ]

optional_parts_sound :
    (expressions : Option (List Expression)) (parts : List Text)
    → optional_parts expressions ≡ ok parts
    → parts ≡ map equality (asked_values (or_none expressions))
optional_parts_sound none parts h = ground arith
optional_parts_sound (some expressions) parts h = expression_parts_sound expressions parts h

label_parts_lem :
    (labels : Option (List (Text × Text))) → label_parts labels ≡ map equality (or_none labels)
label_parts_lem none = refl
label_parts_lem (some labels) = refl

joined_sound :
    (labels : List (Text × Text)) (s : Text)
    → joined (map equality labels) ≡ ok s
    → (labels ≢ []) × (s ≡ join (map equality labels) (codes ","))
joined_sound [] s h = ground arith
joined_sound (label ∷ labels) s h = (λ e. ground arith, ground arith)

built :
    (selector : WorkloadSelector) (s : Text)
    → build_label_selector_string selector ≡ ok s
    → (asked_labels selector ≢ []) × (s ≡ join (map equality (asked_labels selector)) (codes ","))
unfolding build_label_selector_string
built selector s h = elim (SelectorResult-cases (optional_parts selector.match_expressions)) [
  | inr (e, p) ↦ ground arith
  | inl (parts, p) ↦
      let all_parts : label_parts selector.match_labels ++ parts
          ≡ map equality (asked_labels selector) =
        ap (λ t. t ++ parts) (label_parts_lem selector.match_labels)
        ∙ ap (λ t. map equality (or_none selector.match_labels) ++ t)
            (optional_parts_sound selector.match_expressions parts p)
        ∙ sym (
            map-append equality (or_none selector.match_labels)
              (asked_values (or_none selector.match_expressions))) in
      joined_sound (asked_labels selector) s (ap joined (sym all_parts) ∙ (ground arith))
]

label_is_iff :
    (pod_labels : List (Text × Text)) (k v : Text)
    → (label_is pod_labels (k, v) ≡ true) ↔ (lookup k pod_labels ≡ some v)
label_is_iff pod_labels k v = elim (Option-cases (lookup k pod_labels)) [
  | inl e ↦ (ground arith, ground arith)
  | inr (w, e) ↦ (ground (arith, text_beq_iff w v), ground (arith, text_beq_refl v))
]

-- A pod with such labels.
abbrev pub Carries : Pod → List (Text × Text) → Type 0
Carries pod labels =
    (pod_labels : List (Text × Text)) × (pod.labels ≡ some pod_labels)
    × All (λ (label : Text × Text). lookup label.0 pod_labels ≡ some label.1) labels

all_sound :
    (pod_labels labels : List (Text × Text))
    → all (label_is pod_labels) labels ≡ true
    → All (λ (label : Text × Text). lookup label.0 pod_labels ≡ some label.1) labels
all_sound pod_labels [] h = tt
all_sound pod_labels ((k, v) ∷ labels) h =
    ((label_is_iff pod_labels k v).0 (ground arith), all_sound pod_labels labels (ground arith))

all_complete :
    (pod_labels labels : List (Text × Text))
    → All (λ (label : Text × Text). lookup label.0 pod_labels ≡ some label.1) labels
    → all (label_is pod_labels) labels ≡ true
all_complete pod_labels [] h = refl
all_complete pod_labels ((k, v) ∷ labels) (h, rest) =
    rw ((label_is_iff pod_labels k v).1 h) (all_complete pod_labels labels rest)

matches_iff :
    (pod : Pod) (labels : List (Text × Text))
    → labels ≢ []
    → (pod_matches_selector pod labels ≡ true) ↔ Carries pod labels
unfolding pod_matches_selector
matches_iff pod [] ne = absurd (ne refl)
matches_iff pod (label ∷ labels) ne = elim (Option-cases pod.labels) [
  | inl e ↦ (λ h. ground arith, λ (pod_labels, p, q). ground arith)
  | inr (found, e) ↦ (
    λ h. (found, e, all_sound found (label ∷ labels) (ground arith)),
    λ (pod_labels, p, q). rw p (all_complete pod_labels (label ∷ labels) q),
  )
]

-- The text that the selector of a workload becomes asks for the same pods: where the selector
-- becomes a text and its labels are clean, the filter accepts exactly the pods that carry every
-- label of `matchLabels` and, for every expression, its key with its one value.
pub pod_matches_selector-build :
    (pod : Pod) (selector : WorkloadSelector) (s : Text)
    → build_label_selector_string selector ≡ ok s
    → All IsCleanLabel (asked_labels selector)
    → (pod_matches_selector pod (parse_label_selector s) ≡ true)
      ↔ Carries pod (asked_labels selector)
pod_matches_selector-build pod selector s h clean =
    let (some_label, text) = built selector s h in
    subst (λ parsed. (pod_matches_selector pod parsed ≡ true) ↔ Carries pod (asked_labels selector))
      (sym (
        ap parse_label_selector text
        ∙ parse_label_selector-join (asked_labels selector) some_label clean))
      (matches_iff pod (asked_labels selector) some_label)

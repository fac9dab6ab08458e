-- ===== src/Scraper/Pods.antt =====
-- Which pods are scraped: `parse_label_selector`, `is_pod_ready` and `pod_matches_selector` of
-- src/scraper/pod_cache.rs with the filter of `get_ready_pods`, and `build_label_selector_string`
-- and `matches_label_selector` of src/scraper/worker.rs. Pods and label selectors are records with
-- the fields that are read; the maps of labels are association lists.
pub mod Selection
pub mod Workload
use external_pod_autoscaler.Prelude.{
  ℕ, Bool, true, false, not, ◌&&◌, ◌||◌, List, [], ◌∷◌, ◌++◌, Option, none, some, if◌then◌else◌,
  ◌==◌, is_empty, filter, all, contains, map,
}
use external_pod_autoscaler.Text.{Text, codes, text_Eq, split, split_once, trim, join, is_some}
use external_pod_autoscaler.Assoc.{lookup}
use external_pod_autoscaler.Api.{
  LabelSelector, LabelSelectorRequirement, LabelSelectorOperator, in_values, not_in, exists,
  does_not_exist,
}

-- Of a Kubernetes `Pod`.
pub record PodCondition : Type 0 where
  pub type_ : Text
  pub status : Text

pub record PodStatus : Type 0 where
  pub phase : Option Text
  pub pod_ip : Option Text
  pub conditions : Option (List PodCondition)

-- `name` is what `name_any` gives.
pub record Pod : Type 0 where
  pub name : Text
  pub namespace : Option Text
  pub deletion_timestamp : Bool
  pub labels : Option (List (Text × Text))
  pub status : Option PodStatus

-- `find` of the condition, then its status.
unfoldable pub ready_condition : List PodCondition → Bool
ready_condition [] = false
ready_condition (c ∷ conds) =
    if c.type_ == codes "Ready" then c.status == codes "True" else ready_condition conds

abbrev pub ready_conditions : Option (List PodCondition) → Bool
ready_conditions none = false
ready_conditions (some conds) = ready_condition conds

abbrev pub is_running : Option Text → Bool
is_running none = false
is_running (some p) = p == codes "Running"

abbrev pub ready_status : Option PodStatus → Bool
ready_status none = false
ready_status (some status) =
    if not (is_running status.phase)
    then false
    else if not (is_some status.pod_ip)
    then false
    else ready_conditions status.conditions

unfoldable pub is_pod_ready : Pod → Bool
is_pod_ready pod = if pod.deletion_timestamp then false else ready_status pod.status

abbrev pub label_is : List (Text × Text) → Text × Text → Bool
label_is labels (k, v) = elim (lookup k labels) [ none ↦ false | some pv ↦ pv == v ]

abbrev pub labels_match : Option (List (Text × Text)) → List (Text × Text) → Bool
labels_match none selector_pairs = false
labels_match (some labels) selector_pairs = all (label_is labels) selector_pairs

unfoldable pub pod_matches_selector : Pod → List (Text × Text) → Bool
pod_matches_selector pod selector_pairs =
    if is_empty selector_pairs then true else labels_match pod.labels selector_pairs

-- The closure of `filter_map`: an entry without `=` or without a key is left out.
abbrev pub parse_pair : Text → List (Text × Text) → List (Text × Text)
parse_pair pair rest = elim (split_once pair b'=') [
  | none ↦ rest
  | some (k, v) ↦ if is_empty (trim k) then rest else (trim k, trim v) ∷ rest
]

abbrev pub parse_pairs : List Text → List (Text × Text)
parse_pairs [] = []
parse_pairs (pair ∷ pairs) = parse_pair pair (parse_pairs pairs)

unfoldable pub parse_label_selector : Text → List (Text × Text)
parse_label_selector selector = if is_empty selector then [] else parse_pairs (split selector b',')

-- `get_ready_pods`, of the pods in the reflector's store.
unfoldable pub get_ready_pods : List Pod → (selector : Text) → List Pod
get_ready_pods pods selector =
    filter (λ pod. is_pod_ready pod && pod_matches_selector pod (parse_label_selector selector))
      pods

-- A selector of a workload, whose operators are text.
pub record Expression : Type 0 where
  pub key : Text
  pub operator : Text
  pub values : Option (List Text)

pub record WorkloadSelector : Type 0 where
  pub match_labels : Option (List (Text × Text))
  pub match_expressions : Option (List Expression)

pub data SelectorError : Type 0 where
  not_one_value : (key : Text) → SelectorError
  unsupported_operator : (operator key : Text) → SelectorError
  no_constraints : SelectorError

pub data SelectorResult (A : Type 0) : Type 0 where
  ok : A → SelectorResult A
  err : SelectorError → SelectorResult A

abbrev pub equality : Text × Text → Text
equality (k, v) = k ++ b'=' ∷ v

abbrev pub label_parts : Option (List (Text × Text)) → List Text
label_parts none = []
label_parts (some labels) = map equality labels

abbrev pub the_value : Text → Option (List Text) → SelectorResult Text
the_value key (some (v ∷ [])) = ok (equality (key, v))
the_value key _ = err (not_one_value key)

abbrev pub expression_part : Expression → SelectorResult Text
expression_part expr =
    if expr.operator == codes "In"
    then the_value expr.key expr.values
    else err (unsupported_operator expr.operator expr.key)

abbrev pub prepend : Text → SelectorResult (List Text) → SelectorResult (List Text)
prepend part (ok parts) = ok (part ∷ parts)
prepend part (err e) = err e

abbrev pub expression_parts : List Expression → SelectorResult (List Text)
expression_parts [] = ok []
expression_parts (expr ∷ expressions) = elim (expression_part expr) [
  | err e ↦ err e
  | ok part ↦ prepend part (expression_parts expressions)
]

abbrev pub optional_parts : Option (List Expression) → SelectorResult (List Text)
optional_parts none = ok []
optional_parts (some expressions) = expression_parts expressions

abbrev pub joined : List Text → SelectorResult Text
joined parts = if is_empty parts then err no_constraints else ok (join parts (codes ","))

unfoldable pub build_label_selector_string : WorkloadSelector → SelectorResult Text
build_label_selector_string selector = elim (optional_parts selector.match_expressions) [
  | err e ↦ err e
  | ok parts ↦ joined (label_parts selector.match_labels ++ parts)
]

-- `matches_label_selector`, one requirement of a metric's selector at a time.
abbrev pub value_in : Option (List Text) → Option Text → Bool
value_in none label_value = true
value_in (some values) none = false
value_in (some values) (some v) = contains values v

abbrev pub value_not_in : Option (List Text) → Option Text → Bool
value_not_in none label_value = true
value_not_in (some values) none = true
value_not_in (some values) (some v) = not (contains values v)

abbrev pub meets : LabelSelectorOperator → Option (List Text) → Option Text → Bool
meets in_values values label_value = value_in values label_value
meets not_in values label_value = value_not_in values label_value
meets exists values label_value = is_some label_value
meets does_not_exist values label_value = not (is_some label_value)

abbrev pub meets_label : List (Text × Text) → Text × Text → Bool
meets_label labels (key, v) = elim (lookup key labels) [ none ↦ false | some w ↦ w == v ]

abbrev pub meets_labels : List (Text × Text) → Option (List (Text × Text)) → Bool
meets_labels labels none = true
meets_labels labels (some match_labels) = all (meets_label labels) match_labels

abbrev pub meets_expressions : List (Text × Text) → Option (List LabelSelectorRequirement) → Bool
meets_expressions labels none = true
meets_expressions labels (some match_expressions) =
    all (λ expr. meets expr.operator expr.values (lookup expr.key labels)) match_expressions

unfoldable pub matches_label_selector : List (Text × Text) → LabelSelector → Bool
matches_label_selector labels selector =
    if meets_labels labels selector.match_labels
    then meets_expressions labels selector.match_expressions
    else false

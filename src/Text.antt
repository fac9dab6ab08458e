-- ===== src/Text.antt =====
-- Rust's `String` and `&str` as lists of code points, with the operations of `str` that the
-- program calls. An index that `find` or a suffix gives stands beside an ASCII character, so a
-- position counted in characters cuts at the same place as one counted in bytes; where the program
-- cuts one byte from the end, the model says what happens inside a longer character.
pub mod Laws
pub mod Number
pub mod Split
pub mod Words
use Prim.Native.Char.{code}
use Prim.Native.String.{String}
use external_pod_autoscaler.Prelude.{
  ℕ, zero, suc, ◌+◌, ◌-◌, ◌*◌, ◌/◌, ◌%◌, ◌^◌, ◌≡◌, refl, ◌↔◌, Bool, true, false, not, ◌&&◌, ◌||◌,
  List, [], ◌∷◌, ◌++◌, Option, none, some, arith, ltb, leb, nat_eq, if◌then◌else◌, Eq, length,
  is_empty,
}

abbrev pub Text : Type 0
Text = List ℕ

-- The code points of a literal.
abbrev pub codes : String → Text
codes String.[] = []
codes (String.◌∷◌ c s) = code c ∷ codes s

abbrev pub text_beq : Text → Text → Bool
text_beq [] [] = true
text_beq (a ∷ s) (b ∷ t) = nat_eq a b && text_beq s t
text_beq _ _ = false

text_beq_sound : (s t : Text) → text_beq s t ≡ true → s ≡ t
text_beq_sound [] [] h = refl
text_beq_sound [] (b ∷ t) h = ground arith
text_beq_sound (a ∷ s) [] h = ground arith
text_beq_sound (a ∷ s) (b ∷ t) h = ground (arith, text_beq_sound s t)

pub text_beq_refl : (s : Text) → text_beq s s ≡ true
text_beq_refl [] = refl
text_beq_refl (a ∷ s) = ground (arith, text_beq_refl s)

pub text_beq_iff : (s t : Text) → (text_beq s t ≡ true) ↔ (s ≡ t)
text_beq_iff s t = (text_beq_sound s t, λ e. ground (arith, text_beq_refl s))

instance abbrev pub text_Eq : Eq Text
text_Eq = record { beq = text_beq; beq_iff = text_beq_iff }

-- `str::len`: the bytes of the UTF-8 encoding.
abbrev pub char_len : ℕ → ℕ
char_len c = if ltb c 0x80 then 1 else if ltb c 0x800 then 2 else if ltb c 0x10000 then 3 else 4

abbrev pub byte_len : Text → ℕ
byte_len [] = 0
byte_len (c ∷ s) = char_len c + byte_len s

-- `str::as_bytes`.
abbrev pub char_bytes : ℕ → List ℕ
char_bytes c =
    if ltb c 0x80
    then c ∷ []
    else if ltb c 0x800
    then (0xc0 + c / 2 ^ 6) ∷ (0x80 + c % 2 ^ 6) ∷ []
    else if ltb c 0x10000
    then (0xe0 + c / 2 ^ 12) ∷ (0x80 + c / 2 ^ 6 % 2 ^ 6) ∷ (0x80 + c % 2 ^ 6) ∷ []
    else (0xf0 + c / 2 ^ 18)
      ∷ (0x80 + c / 2 ^ 12 % 2 ^ 6)
      ∷ (0x80 + c / 2 ^ 6 % 2 ^ 6)
      ∷ (0x80 + c % 2 ^ 6)
      ∷ []

abbrev pub as_bytes : Text → List ℕ
as_bytes [] = []
as_bytes (c ∷ s) = char_bytes c ++ as_bytes s

-- `strip_prefix`, and `starts_with`.
abbrev pub strip_prefix : Text → Text → Option Text
strip_prefix s [] = some s
strip_prefix [] (b ∷ p) = none
strip_prefix (a ∷ s) (b ∷ p) = if nat_eq a b then strip_prefix s p else none

abbrev pub is_some {ℓ} : {A : Type ℓ} → Option A → Bool
is_some none = false
is_some (some a) = true

abbrev pub starts_with : Text → Text → Bool
starts_with s p = is_some (strip_prefix s p)

-- `strip_suffix`, and `ends_with`: what stands in front of the suffix.
abbrev pub strip_suffix : Text → Text → Option Text
strip_suffix [] p = if text_beq [] p then some [] else none
strip_suffix (a ∷ s) p =
    if text_beq (a ∷ s) p
    then some []
    else elim (strip_suffix s p) [ none ↦ none | some r ↦ some (a ∷ r) ]

-- `contains` of a text.
abbrev pub contains_text : Text → Text → Bool
contains_text [] p = starts_with [] p
contains_text (a ∷ s) p = starts_with (a ∷ s) p || contains_text s p

-- `contains` of a character.
abbrev pub contains_char : Text → ℕ → Bool
contains_char [] c = false
contains_char (a ∷ s) c = nat_eq a c || contains_char s c

-- `find`, with the two slices beside the character: the texts before and after its first
-- occurrence.
abbrev pub split_once : Text → ℕ → Option (Text × Text)
split_once [] c = none
split_once (a ∷ s) c =
    if nat_eq a c
    then some ([], s)
    else elim (split_once s c) [ none ↦ none | some (u, v) ↦ some (a ∷ u, v) ]

-- `rfind`, with the two slices beside the character: the texts before and after its last
-- occurrence.
abbrev pub rsplit_once : Text → ℕ → Option (Text × Text)
rsplit_once [] c = none
rsplit_once (a ∷ s) c = elim (rsplit_once s c) [
  | none ↦ if nat_eq a c then some ([], s) else none
  | some (u, v) ↦ some (a ∷ u, v)
]

-- `split` at every occurrence of a character: never empty.
abbrev put_first : ℕ → List Text → List Text
put_first a [] = (a ∷ []) ∷ []
put_first a (w ∷ ws) = (a ∷ w) ∷ ws

abbrev pub split : Text → ℕ → List Text
split [] c = [] ∷ []
split (a ∷ s) c = let rest = split s c in if nat_eq a c then [] ∷ rest else put_first a rest

-- `join` with a separator.
abbrev pub join : List Text → Text → Text
join [] sep = []
join (w ∷ []) sep = w
join (w ∷ v ∷ ws) sep = w ++ (sep ++ join (v ∷ ws) sep)

-- `char::is_whitespace`.
abbrev pub is_whitespace : ℕ → Bool
is_whitespace c =
    (leb 9 c && leb c 13)
    || nat_eq c 0x20
    || nat_eq c 0x85
    || nat_eq c 0xa0
    || nat_eq c 0x1680
    || (leb 0x2000 c && leb c 0x200a)
    || nat_eq c 0x2028
    || nat_eq c 0x2029
    || nat_eq c 0x202f
    || nat_eq c 0x205f
    || nat_eq c 0x3000

-- `trim_start_matches` and `trim_end_matches` with a test of characters.
abbrev pub trim_start : (ℕ → Bool) → Text → Text
trim_start p [] = []
trim_start p (a ∷ s) = if p a then trim_start p s else a ∷ s

abbrev pub trim_end : (ℕ → Bool) → Text → Text
trim_end p [] = []
trim_end p (a ∷ s) = let rest = trim_end p s in if is_empty rest && p a then [] else a ∷ rest

abbrev pub trim_matches : (ℕ → Bool) → Text → Text
trim_matches p s = trim_end p (trim_start p s)

abbrev pub trim : Text → Text
trim = trim_matches is_whitespace

-- The words between runs of white space; the first argument is the word that is being read.
abbrev pub close_word : Text → List Text → List Text
close_word [] ws = ws
close_word (a ∷ w) ws = (a ∷ w) ∷ ws

abbrev pub words_from : Text → Text → List Text
words_from w [] = close_word w []
words_from w (a ∷ s) =
    let closed = close_word w (words_from [] s) in
    let longer = words_from (w ++ a ∷ []) s in if is_whitespace a then closed else longer

-- `split_whitespace`.
abbrev pub split_whitespace : Text → List Text
split_whitespace s = words_from [] s

-- `parse::<u64>`: an optional plus sign, then digits, below 2 ^ 64.
abbrev pub digits_from : ℕ → Text → Option ℕ
digits_from n [] = some n
digits_from n (a ∷ s) =
    let next = digits_from (n * 10 + (a - b'0')) s in
    if leb b'0' a && leb a b'9' then next else none

abbrev pub parse_digits : Text → Option ℕ
parse_digits [] = none
parse_digits (a ∷ s) = digits_from 0 (a ∷ s)

abbrev pub below_u64 : Option ℕ → Option ℕ
below_u64 none = none
below_u64 (some n) = if ltb n (2 ^ 64) then some n else none

abbrev pub parse_u64 : Text → Option ℕ
parse_u64 [] = none
parse_u64 (a ∷ s) =
    if nat_eq a b'+' then below_u64 (parse_digits s) else below_u64 (parse_digits (a ∷ s))

-- `parse::<u16>`, in the same way.
abbrev pub below_u16 : Option ℕ → Option ℕ
below_u16 none = none
below_u16 (some n) = if ltb n (2 ^ 16) then some n else none

abbrev pub parse_u16 : Text → Option ℕ
parse_u16 [] = none
parse_u16 (a ∷ s) =
    if nat_eq a b'+' then below_u16 (parse_digits s) else below_u16 (parse_digits (a ∷ s))

-- `parse::<bool>`.
abbrev pub parse_bool : Text → Option Bool
parse_bool s =
    if text_beq s (codes "true")
    then some true
    else if text_beq s (codes "false")
    then some false
    else none

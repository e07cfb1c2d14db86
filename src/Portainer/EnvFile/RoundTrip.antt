-- ===== src/Portainer/EnvFile/RoundTrip.antt =====
-- Variables that are written and parsed again.
use ui_for_docker.Prelude.{
  ℕ, ◌≡◌, refl, ap, true, false, not, Option, none, some, List, [], ◌∷◌, ◌++◌, all, All, nat_eq,
  arith, Text, has_unit, eq_nat,
}
use ui_for_docker.Prelude.Decimal.{is_space, is_line_break}
use ui_for_docker.Prelude.Trim.{trim_start, trim_end_step, trim_end, trim}
use ui_for_docker.Portainer.EnvFile.{
  Variable, is_letter, is_alphanumeric, is_key_unit, ends_key, is_key, before_equals, after_equals,
  match_key_value, parse_string, with_variable, parse_array_of_strings, is_filled, string_of,
  convert_to_array_of_strings,
}

-- A value that a line can hold: no space at its end and no line break.
abbrev pub IsValue : Option Text → Type 0
IsValue none = Unit {0}
IsValue (some value) = (trim_end value ≡ value) × (all (λ c. not (is_line_break c)) value ≡ true)

abbrev pub IsVariable : Variable → Type 0
IsVariable v = (is_key v.name ≡ true) × IsValue v.value

pub is_key_unit-not_equals :
    (c : ℕ) → is_key_unit c ≡ true → (nat_eq c b'=' ≡ false) × (is_space c ≡ false)
unfolding is_key_unit is_alphanumeric is_letter is_space
is_key_unit-not_equals c h = ground arith

alphanumeric-key_unit : (c : ℕ) → is_alphanumeric c ≡ true → is_key_unit c ≡ true
unfolding is_key_unit
alphanumeric-key_unit c h = ground arith

letter-alphanumeric : (c : ℕ) → is_letter c ≡ true → is_alphanumeric c ≡ true
unfolding is_alphanumeric
letter-alphanumeric c h = ground arith

-- What a key's end shares with all its parts.
abbrev pub KeyLike : Text → Type 0
KeyLike = All (λ c. is_key_unit c ≡ true)

ends_key-KeyLike : (c : ℕ) (s : Text) → ends_key c s ≡ true → KeyLike (c ∷ s)
unfolding ends_key
ends_key-KeyLike c [] h = (alphanumeric-key_unit c h, tt)
ends_key-KeyLike c (d ∷ s) h = (ground arith, ends_key-KeyLike d s (ground arith))

pub is_key-KeyLike : (s : Text) → is_key s ≡ true → KeyLike s
unfolding is_key
is_key-KeyLike [] h = tt
is_key-KeyLike (c ∷ []) h = (alphanumeric-key_unit c (letter-alphanumeric c h), tt)
is_key-KeyLike (c ∷ d ∷ s) h = (
  alphanumeric-key_unit c (letter-alphanumeric c (ground arith)),
  ends_key-KeyLike d s (ground arith),
)

KeyLike-lacks_equals : (s : Text) → KeyLike s → has_unit b'=' s ≡ false
unfolding has_unit
KeyLike-lacks_equals [] h = refl
KeyLike-lacks_equals (c ∷ s) (p, h) =
    ground (arith, KeyLike-lacks_equals s h, is_key_unit-not_equals c p)

has_equals : (s rest : Text) → has_unit b'=' (s ++ b'=' ∷ rest) ≡ true
unfolding has_unit
has_equals [] rest = refl
has_equals (c ∷ s) rest = ground (arith, has_equals s rest)

cut-KeyLike :
    (s rest : Text)
    → KeyLike s
    → (before_equals (s ++ b'=' ∷ rest) ≡ s) × (after_equals (s ++ b'=' ∷ rest) ≡ rest)
unfolding before_equals after_equals
cut-KeyLike [] rest h = (refl, refl)
cut-KeyLike (c ∷ s) rest (p, h) = ground (arith, cut-KeyLike s rest h, is_key_unit-not_equals c p)

pub trim_end-KeyLike : (s : Text) → KeyLike s → trim_end s ≡ s
unfolding trim_end trim_end_step
trim_end-KeyLike [] h = refl
trim_end-KeyLike (c ∷ []) (p, h) = ground (arith, is_key_unit-not_equals c p)
trim_end-KeyLike (c ∷ d ∷ s) (p, h) = ap (trim_end_step c) (trim_end-KeyLike (d ∷ s) h)

trim_end-value :
    (c : ℕ) (value : Text)
    → is_space c ≡ false
    → trim_end value ≡ value
    → trim_end (c ∷ value) ≡ c ∷ value
unfolding trim_end trim_end_step
trim_end-value c [] h e = ground arith
trim_end-value c (d ∷ value) h e = ap (trim_end_step c) e

trim_end-string :
    (s value : Text)
    → KeyLike s
    → trim_end value ≡ value
    → trim_end (s ++ b'=' ∷ value) ≡ s ++ b'=' ∷ value
unfolding is_space
trim_end-string [] value h e = trim_end-value b'=' value refl e
trim_end-string (c ∷ s) value (p, h) e =
    trim_end-value c (s ++ b'=' ∷ value) (is_key_unit-not_equals c p).1
      (trim_end-string s value h e)

pub trim-string :
    (s value : Text)
    → KeyLike s
    → trim_end value ≡ value
    → trim (s ++ b'=' ∷ value) ≡ s ++ b'=' ∷ value
unfolding trim trim_start is_space
trim-string [] value h e = trim_end-string [] value h e
trim-string (c ∷ s) value (p, h) e =
    ground (arith, is_key_unit-not_equals c p, trim_end-string (c ∷ s) value (p, h) e)

match-string :
    (name value : Text)
    → is_key name ≡ true
    → all (λ c. not (is_line_break c)) value ≡ true
    → match_key_value (name ++ b'=' ∷ value) ≡ some (record { name = name; value = some value })
unfolding match_key_value
match-string name value k h =
    let like = is_key-KeyLike name k in
    ground (arith, cut-KeyLike name value like, trim_end-KeyLike name like)

parse_string-string_of :
    (name : Text) (value : Option Text)
    → is_key name ≡ true
    → IsValue value
    → parse_string (string_of name value) ≡ some (record { name = name; value = value })
unfolding parse_string string_of
parse_string-string_of name none k h =
    ground (arith, KeyLike-lacks_equals name (is_key-KeyLike name k))
parse_string-string_of name (some value) k (e, h) = ground (
  arith,
  has_equals name value,
  trim-string name value (is_key-KeyLike name k) e,
  match-string name value k h,
)

pub key-is_filled : (name : Text) → is_key name ≡ true → is_filled name ≡ true
unfolding is_key is_filled
key-is_filled [] h = cc
key-is_filled (c ∷ s) h = refl

-- Variables whose names are keys and whose values end neither in space nor hold a line break are
-- parsed again from the strings they are converted to, in their order.
pub parse_array_of_strings-convert :
    (variables : List Variable)
    → All IsVariable variables
    → parse_array_of_strings (convert_to_array_of_strings variables) ≡ variables
unfolding parse_array_of_strings convert_to_array_of_strings with_variable
parse_array_of_strings-convert [] h = refl
parse_array_of_strings-convert (v ∷ variables) ((k, h), hs) = ground (
  arith,
  key-is_filled v.name k,
  parse_string-string_of v.name v.value k h,
  parse_array_of_strings-convert variables hs,
)

-- ===== src/Portainer/EnvFile.antt =====
-- Environment variables as text: app/portainer/helpers/env-vars.js.
pub mod RoundTrip
pub mod Files
use ui_for_docker.Prelude.{
  ℕ, Bool, true, false, ◌&&◌, ◌||◌, not, Option, none, some, List, [], ◌∷◌, ◌++◌, map, keep, all,
  nat_eq, leb, if◌then◌else◌, Text, is_digit, has_unit, cut_at, split_where, is_some, eq_nat,
}
use ui_for_docker.Prelude.Trim.{trim_start, trim_end_step, trim_end, trim}
use ui_for_docker.Prelude.Decimal.{is_space, is_line_break}

pub record Variable : Type 0 where
  pub name : Text
  pub value : Option Text

unfoldable pub is_letter : ℕ → Bool
is_letter c = (leb b'a' c && leb c b'z') || (leb b'A' c && leb c b'Z')

unfoldable pub is_alphanumeric : ℕ → Bool
unfolding is_letter
is_alphanumeric c = is_letter c || is_digit c

unfoldable pub is_key_unit : ℕ → Bool
unfolding is_alphanumeric
is_key_unit c = nat_eq c b'-' || (nat_eq c b'_' || is_alphanumeric c)

-- `[-_a-zA-Z0-9]*[a-zA-Z0-9]`, of at least one unit
unfoldable pub ends_key : ℕ → Text → Bool
unfolding is_key_unit
ends_key c [] = is_alphanumeric c
ends_key c (d ∷ s) = is_key_unit c && ends_key d s

-- `KEY_REGEX`
unfoldable pub is_key : Text → Bool
unfolding ends_key
is_key [] = false
is_key (c ∷ []) = is_letter c
is_key (c ∷ d ∷ s) = is_letter c && ends_key d s

-- The units before the first `=`, and those after it.
unfoldable pub before_equals : Text → Text
before_equals [] = []
before_equals (c ∷ s) = if nat_eq c b'=' then [] else c ∷ before_equals s

unfoldable pub after_equals : Text → Text
after_equals [] = []
after_equals (c ∷ s) = if nat_eq c b'=' then s else after_equals s

-- `KEY_VALUE_REGEX`: neither a key nor the space behind it has a `=`, a key does not end in space,
-- and `.` is no line break.
unfoldable pub match_key_value : Text → Option Variable
unfolding trim_end is_key before_equals after_equals
match_key_value s =
    let key = trim_end (before_equals s) in
    let value = after_equals s in
    if is_key key && all (λ c. not (is_line_break c)) value
    then some (record { name = key; value = some value })
    else none

unfoldable pub parse_string : Text → Option Variable
unfolding trim match_key_value
parse_string s =
    if has_unit b'=' s then match_key_value (trim s) else some (record { name = s; value = none })

unfoldable pub with_variable : Option Variable → List Variable → List Variable
with_variable none variables = variables
with_variable (some v) variables = v ∷ variables

unfoldable pub parse_array_of_strings : List Text → List Variable
unfolding parse_string with_variable
parse_array_of_strings [] = []
parse_array_of_strings (s ∷ strings) =
    with_variable (parse_string s) (parse_array_of_strings strings)

unfoldable pub is_newline : ℕ → Bool
is_newline c = nat_eq c 10 || nat_eq c 13

unfoldable pub is_filled : Text → Bool
is_filled [] = false
is_filled (c ∷ s) = true

unfoldable pub is_no_comment : Text → Bool
is_no_comment [] = true
is_no_comment (c ∷ s) = not (nat_eq c b'#')

unfoldable pub split_lines : Text → Text × List Text
unfolding is_newline
split_lines [] = ([], [])
split_lines (c ∷ s) =
    let (line, lines) = split_lines s in
    if is_newline c then ([], line ∷ lines) else (c ∷ line, lines)

unfoldable pub parse_dot_env_file : Text → List Variable
unfolding split_lines is_filled is_no_comment trim
parse_dot_env_file src =
    let (line, lines) = split_lines src in
    parse_array_of_strings (keep is_no_comment (map trim (keep is_filled (line ∷ lines))))

unfoldable pub string_of : Text → Option Text → Text
string_of name none = name
string_of name (some value) = name ++ b'=' ∷ value

unfoldable pub convert_to_array_of_strings : List Variable → List Text
unfolding string_of is_filled
convert_to_array_of_strings [] = []
convert_to_array_of_strings (v ∷ variables) =
    let rest = convert_to_array_of_strings variables in
    if is_filled v.name then string_of v.name v.value ∷ rest else rest

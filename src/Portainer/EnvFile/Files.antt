-- ===== src/Portainer/EnvFile/Files.antt =====
-- Variables that are written to a file of environment variables and read again.
use ui_for_docker.Prelude.{
  ℕ, ◌≡◌, refl, ap, ◌∙◌, true, false, not, Option, none, some, List, [], ◌∷◌, ◌++◌, map, keep, all,
  All, All-append, All-map, arith, Text, eq_nat,
}
use ui_for_docker.Prelude.Decimal.{is_line_break}
use ui_for_docker.Prelude.Trim.{trim_start, trim_end, trim}
use ui_for_docker.Portainer.EnvFile.{
  Variable, is_letter, is_alphanumeric, is_key_unit, is_key, parse_array_of_strings, is_newline,
  is_filled, is_no_comment, split_lines, parse_dot_env_file, string_of, convert_to_array_of_strings,
}
use ui_for_docker.Portainer.EnvFile.RoundTrip.{
  IsValue, IsVariable, is_key_unit-not_equals, KeyLike, is_key-KeyLike, trim_end-KeyLike,
  trim-string, key-is_filled, parse_array_of_strings-convert,
}

-- The strings as the lines of a file.
pub file_of : List Text → Text
file_of [] = []
file_of (s ∷ strings) = s ++ 10 ∷ file_of strings

abbrev IsLine : Text → Type 0
IsLine s =
    All (λ c. is_newline c ≡ false) s
    × (trim s ≡ s)
    × (is_filled s ≡ true)
    × (is_no_comment s ≡ true)

split_lines-line :
    (s rest : Text)
    → All (λ c. is_newline c ≡ false) s
    → split_lines (s ++ 10 ∷ rest) ≡ (s, (split_lines rest).0 ∷ (split_lines rest).1)
unfolding split_lines is_newline
split_lines-line [] rest h = refl
split_lines-line (c ∷ s) rest (p, h) = ground (arith, split_lines-line s rest h)

lines_of : Text → List Text
lines_of src = (split_lines src).0 ∷ (split_lines src).1

file-lines :
    (strings : List Text)
    → All IsLine strings
    → keep is_no_comment (map trim (keep is_filled (lines_of (file_of strings)))) ≡ strings
unfolding keep is_filled lines_of file_of split_lines
file-lines [] h = refl
file-lines (s ∷ strings) ((n, t, f, c), hs) =
    ground (arith, split_lines-line s (file_of strings) n, file-lines strings hs)

abbrev NoNewline : Text → Type 0
NoNewline = All (λ c. is_newline c ≡ false)

key_unit-newline : (c : ℕ) → is_key_unit c ≡ true → is_newline c ≡ false
unfolding is_key_unit is_alphanumeric is_letter is_newline
key_unit-newline c h = ground arith

value-NoNewline : (value : Text) → all (λ c. not (is_line_break c)) value ≡ true → NoNewline value
unfolding all is_line_break is_newline
value-NoNewline [] h = tt
value-NoNewline (c ∷ value) h = (ground arith, value-NoNewline value (ground arith))

string_of-NoNewline :
    (name : Text) (value : Option Text)
    → KeyLike name
    → IsValue value
    → NoNewline (string_of name value)
unfolding string_of is_newline
string_of-NoNewline name none k h =
    All-map (λ c. is_key_unit c ≡ true) (λ c. is_newline c ≡ false) name key_unit-newline k
string_of-NoNewline name (some value) k (e, h) =
    All-append (λ c. is_newline c ≡ false) name (b'=' ∷ value)
      (All-map (λ c. is_key_unit c ≡ true) (λ c. is_newline c ≡ false) name key_unit-newline k)
      (refl, value-NoNewline value h)

trim-KeyLike : (name : Text) → KeyLike name → trim name ≡ name
unfolding trim trim_start trim_end
trim-KeyLike [] h = refl
trim-KeyLike (c ∷ name) (p, h) =
    ground (arith, is_key_unit-not_equals c p, trim_end-KeyLike (c ∷ name) (p, h))

string_of-trim :
    (name : Text) (value : Option Text)
    → KeyLike name
    → IsValue value
    → trim (string_of name value) ≡ string_of name value
unfolding string_of
string_of-trim name none k h = trim-KeyLike name k
string_of-trim name (some value) k (e, h) = trim-string name value k e

string_of-filled :
    (name : Text) (value : Option Text)
    → is_key name ≡ true
    → (is_filled (string_of name value) ≡ true) × (is_no_comment (string_of name value) ≡ true)
unfolding string_of is_filled is_no_comment is_key is_letter
string_of-filled [] value h = cc
string_of-filled (c ∷ []) none h = ground arith
string_of-filled (c ∷ []) (some value) h = ground arith
string_of-filled (c ∷ d ∷ s) none h = ground arith
string_of-filled (c ∷ d ∷ s) (some value) h = ground arith

strings-IsLine :
    (variables : List Variable)
    → All IsVariable variables
    → All IsLine (convert_to_array_of_strings variables)
unfolding convert_to_array_of_strings
strings-IsLine [] h = tt
strings-IsLine (v ∷ variables) ((k, h), hs) =
    let like = is_key-KeyLike v.name k in
    rw (key-is_filled v.name k) (
      (
        string_of-NoNewline v.name v.value like h,
        string_of-trim v.name v.value like h,
        (string_of-filled v.name v.value k).0,
        (string_of-filled v.name v.value k).1,
      ),
      strings-IsLine variables hs,
    )

-- Such variables are also read from the file that has their strings as its lines.
pub parse_dot_env_file-file_of :
    (variables : List Variable)
    → All IsVariable variables
    → parse_dot_env_file (file_of (convert_to_array_of_strings variables)) ≡ variables
unfolding parse_dot_env_file lines_of
parse_dot_env_file-file_of variables h =
    ap parse_array_of_strings
      (file-lines (convert_to_array_of_strings variables) (strings-IsLine variables h))
    ∙ parse_array_of_strings-convert variables h

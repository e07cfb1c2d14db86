-- ===== src/Docker/Logs.antt =====
-- app/docker/helpers/logHelper.js: container logs as lines of coloured spans. The tokenizer of ANSI
-- sequences is a third-party package, which gives the tokens; so is x256, which gives its table of
-- colours.
pub mod Codes
pub mod Escapes
pub mod Headers
pub mod Lines
use ui_for_docker.Prelude.{
  ℕ, zero, suc, ◌-◌, Bool, true, false, Option, none, some, List, [], ◌∷◌, ◌++◌, map, drop,
  get_elem?, String, nat_eq, leb, ◌&&◌, ◌||◌, is_digit, Text, codes, split_at, if◌then◌else◌, ◌==◌,
  eq_string,
}
use ui_for_docker.Prelude.Decimal.{show, is_line_break}
use ui_for_docker.Prelude.Dict.{Dict, lookup}

-- A token: its type, the text of one that is text, and the numbers that follow the type.
pub record Token : Type 0 where
  pub kind : String
  pub content : Text
  pub arguments : List ℕ

pub record Span : Type 0 where
  pub foreground_color : Option Text
  pub background_color : Option Text
  pub text : Text

pub record Log : Type 0 where
  pub line : Text
  pub spans : List Span

-- `/\n(.{8})/`: the text behind eight units that do not end a line.
unfoldable pub after_units : ℕ → Text → Option Text
unfolding is_line_break
after_units zero s = some s
after_units (suc n) [] = none
after_units (suc n) (c ∷ s) = let rest = after_units n s in if is_line_break c then none else rest

-- `replace(/\n(.{8})/g, '\n\r')`, with more fuel than the text has units
unfoldable pub replace_headers : ℕ → Text → Text
unfolding after_units
replace_headers zero s = s
replace_headers (suc f) [] = []
replace_headers (suc f) (c ∷ s) =
    if nat_eq c 10
    then elim (after_units 8 s) [
      | some rest ↦ 10 ∷ 13 ∷ replace_headers f rest
      | none ↦ c ∷ replace_headers f s
    ]
    else c ∷ replace_headers f s

unfoldable pub units : Text → ℕ
units [] = 0
units (c ∷ s) = suc (units s)

unfoldable pub strip_headers : Text → Text
unfolding replace_headers units
strip_headers logs = let body = drop 8 logs in replace_headers (suc (units body)) body

-- The pattern of escape sequences: what starts one, what may follow, what ends one.
abbrev pub is_escape : ℕ → Bool
is_escape c = nat_eq c 0x1b || nat_eq c 0x9b

abbrev pub is_intermediate : ℕ → Bool
is_intermediate c =
    nat_eq c b'['
    || nat_eq c b'('
    || nat_eq c b')'
    || nat_eq c b'#'
    || nat_eq c b';'
    || nat_eq c b'?'

abbrev pub is_final : ℕ → Bool
is_final c =
    is_digit c
    || (leb b'A' c && leb c b'O')
    || nat_eq c b'R'
    || nat_eq c b'Z'
    || nat_eq c b'c'
    || (leb b'f' c && leb c b'n')
    || nat_eq c b'q'
    || nat_eq c b'r'
    || nat_eq c b'y'
    || nat_eq c b'='
    || nat_eq c b'>'
    || nat_eq c b'<'

abbrev pub first_match : Option Text → Option Text → Option Text
first_match none other = other
first_match (some rest) other = some rest

unfoldable pub match_final : Text → Option Text
match_final [] = none
match_final (c ∷ s) = if is_final c then some s else none

-- `{0,n}` digits, then `(?:;[0-9]{0,4})*`, then the final unit; the longest repetition is tried
-- first.
unfoldable pub match_numbers : ℕ → Text → Option Text
unfolding match_final
match_numbers n [] = none
match_numbers n (c ∷ s) =
    let fewer = match_numbers (n - 1) s in
    let group = match_numbers 4 s in
    let end = match_final (c ∷ s) in
    if is_digit c && leb 1 n
    then first_match fewer end
    else if nat_eq c b';'
    then first_match group end
    else end

-- `(?:[0-9]{1,4}(?:;[0-9]{0,4})*)?` and the final unit
unfoldable pub match_parameters : Text → Option Text
unfolding match_numbers match_final
match_parameters [] = none
match_parameters (c ∷ s) =
    if is_digit c
    then first_match (match_numbers 3 s) (match_final (c ∷ s))
    else match_final (c ∷ s)

-- `[[()#;?]*` and the rest
unfoldable pub match_intermediates : Text → Option Text
unfolding match_parameters
match_intermediates [] = none
match_intermediates (c ∷ s) =
    let more = match_intermediates s in
    if is_intermediate c
    then first_match more (match_parameters (c ∷ s))
    else match_parameters (c ∷ s)

-- `replace(pattern, '')`, with more fuel than the text has units
unfoldable pub strip_with : ℕ → Text → Text
unfolding match_intermediates
strip_with zero s = s
strip_with (suc f) [] = []
strip_with (suc f) (c ∷ s) =
    if is_escape c
    then elim (match_intermediates s) [ some rest ↦ strip_with f rest | none ↦ c ∷ strip_with f s ]
    else c ∷ strip_with f s

unfoldable pub strip_escape_codes : Text → Text
unfolding strip_with units
strip_escape_codes logs = strip_with (suc (units logs)) logs

-- A number in a template literal, where there may be none.
component : Option ℕ → Text
component none = codes "undefined"
component (some n) = show n

unfoldable pub css_color_from_rgb : List ℕ → Text
unfolding component
css_color_from_rgb rgb =
    codes "rgb("
    ++ component (get_elem? rgb 0)
    ++ codes ", "
    ++ component (get_elem? rgb 1)
    ++ codes ", "
    ++ component (get_elem? rgb 2)
    ++ codes ")"

unfoldable pub foreground_colors : Dict String ℕ
foreground_colors =
    ("black", 0)
    ∷ ("red", 1)
    ∷ ("green", 2)
    ∷ ("yellow", 3)
    ∷ ("blue", 4)
    ∷ ("magenta", 5)
    ∷ ("cyan", 6)
    ∷ ("white", 7)
    ∷ ("brightBlack", 8)
    ∷ ("brightRed", 9)
    ∷ ("brightGreen", 10)
    ∷ ("brightYellow", 11)
    ∷ ("brightBlue", 12)
    ∷ ("brightMagenta", 13)
    ∷ ("brightCyan", 14)
    ∷ ("brightWhite", 15)
    ∷ []

unfoldable pub background_colors : Dict String ℕ
background_colors =
    ("bgBlack", 0)
    ∷ ("bgRed", 1)
    ∷ ("bgGreen", 2)
    ∷ ("bgYellow", 3)
    ∷ ("bgBlue", 4)
    ∷ ("bgMagenta", 5)
    ∷ ("bgCyan", 6)
    ∷ ("bgWhite", 7)
    ∷ ("bgBrightBlack", 8)
    ∷ ("bgBrightRed", 9)
    ∷ ("bgBrightGreen", 10)
    ∷ ("bgBrightYellow", 11)
    ∷ ("bgBrightBlue", 12)
    ∷ ("bgBrightMagenta", 13)
    ∷ ("bgBrightCyan", 14)
    ∷ ("bgBrightWhite", 15)
    ∷ []

-- What the loop keeps: the lines so far, the current one, and the colours.
pub record Progress : Type 0 where
  pub formatted_logs : List Log
  pub line : Text
  pub spans : List Span
  pub foreground : Option Text
  pub background : Option Text

module _ (colors : ℕ → Option (List ℕ)) where
  -- A colour of the table by the type of a token.
  unfoldable pub named_color : Dict String ℕ → String → Option Text
  unfolding lookup css_color_from_rgb
  named_color names kind = elim (lookup kind names) [
    | some index ↦ elim (colors index) [ some rgb ↦ some (css_color_from_rgb rgb) | none ↦ none ]
    | none ↦ none
  ]

  -- `token[1]` is the first of the arguments.
  unfoldable pub extended_color_for_token : List ℕ → Text
  unfolding css_color_from_rgb
  extended_color_for_token [] = []
  extended_color_for_token (mode ∷ rest) =
      if nat_eq mode 2
      then css_color_from_rgb rest
      else if nat_eq mode 5
      then elim (get_elem? rest 0) [
        | some index ↦ elim (colors index) [ some rgb ↦ css_color_from_rgb rgb | none ↦ [] ]
        | none ↦ []
      ]
      else []

  -- The body of the loop over the lines of a text: behind the first, a line is finished.
  unfoldable pub add_text : Progress → Text → Progress
  unfolding strip_escape_codes
  add_text p part =
      let text = strip_escape_codes part in
      record p {
        line = p.line ++ text;
        spans =
            p.spans
            ++ record {
              foreground_color = p.foreground;
              background_color = p.background;
              text = text;
            }
              ∷ [];
      }

  unfoldable pub finish_line : Progress → Progress
  finish_line p = record p {
    formatted_logs = p.formatted_logs ++ record { line = p.line; spans = p.spans } ∷ [];
    line = [];
    spans = [];
  }

  unfoldable pub add_lines : Progress → List Text → Progress
  unfolding add_text finish_line
  add_lines p [] = p
  add_lines p (part ∷ parts) = add_lines (add_text (finish_line p) part) parts

  -- The tests behind those of the colours' names.
  unfoldable pub add_other : Progress → Token → Progress
  unfolding extended_color_for_token add_lines add_text split_at
  add_other p token =
      if token.kind == "bgMoreColor"
      then record p { background = some (extended_color_for_token token.arguments) }
      else if token.kind == "bgDefault"
      then record p { background = none }
      else if token.kind == "reset"
      then record p { foreground = none; background = none }
      else if token.kind == "text"
      then add_lines (add_text p (split_at 10 token.content).0) (split_at 10 token.content).1
      else p

  unfoldable pub add_background : Progress → Token → Progress
  unfolding named_color background_colors extended_color_for_token add_other
  add_background p token =
      if token.kind == "moreColor"
      then record p { foreground = some (extended_color_for_token token.arguments) }
      else if token.kind == "fgDefault"
      then record p { foreground = none }
      else elim (named_color background_colors token.kind) [
        | some color ↦ record p { background = some color }
        | none ↦ add_other p token
      ]

  unfoldable pub add_token : Progress → Token → Progress
  unfolding named_color foreground_colors add_background
  add_token p token = elim (named_color foreground_colors token.kind) [
    | some color ↦ record p { foreground = some color }
    | none ↦ add_background p token
  ]

  unfoldable pub add_tokens : Progress → List Token → Progress
  unfolding add_token
  add_tokens p [] = p
  add_tokens p (token ∷ tokens) = add_tokens (add_token p token) tokens

  -- `if (line) …`
  unfoldable pub finish_logs : Progress → List Log
  finish_logs p = elim p.line [
    | [] ↦ p.formatted_logs
    | c ∷ s ↦ p.formatted_logs ++ record { line = p.line; spans = p.spans } ∷ []
  ]

  abbrev pub no_logs : Progress
  no_logs = record {
    formatted_logs = [];
    line = [];
    spans = [];
    foreground = none;
    background = none;
  }

  unfoldable pub format_logs : (Text → List Token) → Text → Bool → List Log
  unfolding strip_headers add_tokens finish_logs
  format_logs tokenize logs skip_headers =
      finish_logs
        (add_tokens no_logs (tokenize (if skip_headers then strip_headers logs else logs)))

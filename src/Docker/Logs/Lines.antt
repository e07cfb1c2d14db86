-- ===== src/Docker/Logs/Lines.antt =====
-- The lines of formatted logs are the lines of the text, whatever the colours are.
use mathlib.Core.Path.{ap₂}
use ui_for_docker.Prelude.{
  ℕ, ◌≡◌, refl, sym, ap, ◌∙◌, Bool, false, Option, List, [], ◌∷◌, ◌++◌, map, arith, Text,
  Option-cases, Bool-cases, inl, inr, split_at, if◌then◌else◌, ◌==◌, ==_iff, eq_string,
  append_assoc, append-nil,
}
use ui_for_docker.Docker.Logs.{
  Token, Span, Log, Progress, strip_escape_codes, add_text, finish_line, add_lines, add_token,
  add_other, add_background, add_tokens, finish_logs, no_logs, format_logs, strip_headers,
  named_color, foreground_colors, background_colors,
}

-- A text as lines: the first one, and the others. What is joined continues the last line.
unfoldable pub join_lines : Text → List Text → Text × List Text → Text × List Text
join_lines line [] more = (line ++ more.0, more.1)
join_lines line (next ∷ lines) more =
    let joined = join_lines next lines more in (line, joined.0 ∷ joined.1)

-- The lines of the texts of tokens, without their escape codes.
unfoldable pub text_lines : List Token → Text × List Text
unfolding join_lines split_at strip_escape_codes
text_lines [] = ([], [])
text_lines (token ∷ tokens) =
    let more = text_lines tokens in
    let parts = split_at 10 token.content in
    if token.kind == "text"
    then join_lines (strip_escape_codes parts.0) (map strip_escape_codes parts.1) more
    else more

-- The lines but an empty last one.
unfoldable pub ended_lines : Text → List Text → List Text
ended_lines [] [] = []
ended_lines (c ∷ s) [] = (c ∷ s) ∷ []
ended_lines line (next ∷ lines) = line ∷ ended_lines next lines

unfoldable pub line_of : Log → Text
line_of log = log.line

ended_lines-next :
    (line next : Text) (lines : List Text)
    → ended_lines line (next ∷ lines) ≡ line ∷ ended_lines next lines
unfolding ended_lines
ended_lines-next [] next lines = refl
ended_lines-next (c ∷ s) next lines = refl

map-append :
    (logs more : List Log) → map line_of (logs ++ more) ≡ map line_of logs ++ map line_of more
map-append [] more = refl
map-append (log ∷ logs) more = ap (λ rest. line_of log ∷ rest) (map-append logs more)

-- The lines so far, with those to come.
lines_with : Progress → Text × List Text → List Text
unfolding ended_lines
lines_with p more = map line_of p.formatted_logs ++ ended_lines (p.line ++ more.0) more.1

module _ (colors : ℕ → Option (List ℕ)) where
  lines_with-finish_line :
      (p : Progress) (part : Text) (more : Text × List Text)
      → lines_with (finish_line colors (add_text colors p part)) more
        ≡ lines_with p (strip_escape_codes part, more.0 ∷ more.1)
  unfolding lines_with add_text finish_line ended_lines line_of
  lines_with-finish_line p part more =
      let line = p.line ++ strip_escape_codes part in
      let ended = ended_lines more.0 more.1 in
      ap (λ lines. lines ++ ended)
        (map-append p.formatted_logs (record { line = line; spans = _ } ∷ []))
      ∙ append_assoc (map line_of p.formatted_logs) (line ∷ []) ended
      ∙ ap (λ lines. map line_of p.formatted_logs ++ lines)
          (sym (ended_lines-next line more.0 more.1))

  lines_with-add_lines :
      (p : Progress) (part : Text) (parts : List Text) (more : Text × List Text)
      → lines_with (add_lines colors (add_text colors p part) parts) more
        ≡ lines_with p (join_lines (strip_escape_codes part) (map strip_escape_codes parts) more)
  unfolding lines_with add_lines add_text finish_line join_lines ended_lines line_of
  lines_with-add_lines p part [] more =
      ap (λ line. map line_of p.formatted_logs ++ ended_lines line more.1)
        (append_assoc p.line (strip_escape_codes part) more.0)
  lines_with-add_lines p part (next ∷ parts) more =
      let line = p.line ++ strip_escape_codes part in
      lines_with-add_lines (finish_line colors (add_text colors p part)) next parts more
      ∙ lines_with-finish_line p part
          (join_lines (strip_escape_codes next) (map strip_escape_codes parts) more)

  add_token-text :
      (p : Progress) (token : Token)
      → token.kind ≡ "text"
      → add_token colors p token
        ≡ add_lines colors
            (add_text colors p (split_at 10 token.content).0)
            (split_at 10 token.content).1
  unfolding add_token
  add_token-text p token h = rw h refl

  abbrev IsKept : Progress → Progress → Type 0
  IsKept p q = (q.formatted_logs ≡ p.formatted_logs) × (q.line ≡ p.line)

  add_other-IsKept :
      (p : Progress) (token : Token)
      → (token.kind == "text") ≡ false
      → IsKept p (add_other colors p token)
  unfolding add_other
  add_other-IsKept p token h = rw h (ground arith)

  add_background-IsKept :
      (p : Progress) (token : Token)
      → (token.kind == "text") ≡ false
      → IsKept p (add_background colors p token)
  unfolding add_background
  add_background-IsKept p token h = elim (Bool-cases (token.kind == "moreColor")) [
    | inl m ↦ rw (add_background, m) (refl, refl)
    | inr m ↦ elim (Bool-cases (token.kind == "fgDefault")) [
      | inl f ↦ rw (add_background, m, f) (refl, refl)
      | inr f ↦ elim (Option-cases (named_color colors background_colors token.kind)) [
        | inl e ↦ rw (add_background, m, f, e) (add_other-IsKept p token h)
        | inr (color, e) ↦ rw (add_background, m, f, e) (refl, refl)
      ]
    ]
  ]

  add_token-IsKept :
      (p : Progress) (token : Token)
      → (token.kind == "text") ≡ false
      → IsKept p (add_token colors p token)
  unfolding add_token
  add_token-IsKept p token h =
      elim (Option-cases (named_color colors foreground_colors token.kind)) [
        | inl e ↦ rw (add_token, e) (add_background-IsKept p token h)
        | inr (color, e) ↦ rw (add_token, e) (refl, refl)
      ]

  lines_with-IsKept :
      (p q : Progress) (more : Text × List Text)
      → IsKept p q
      → lines_with q more ≡ lines_with p more
  unfolding lines_with
  lines_with-IsKept p q more (h, k) =
      ap₂ (λ logs line. map line_of logs ++ ended_lines (line ++ more.0) more.1) h k

  lines_with-add_token :
      (p : Progress) (token : Token) (tokens : List Token)
      → lines_with (add_token colors p token) (text_lines tokens)
        ≡ lines_with p (text_lines (token ∷ tokens))
  unfolding text_lines
  lines_with-add_token p token tokens = elim (Bool-cases (token.kind == "text")) [
    | inl e ↦
        rw (e, add_token-text p token ((==_iff token.kind "text").0 e))
          (lines_with-add_lines p (split_at 10 token.content).0 (split_at 10 token.content).1
            (text_lines tokens))
    | inr e ↦ rw e (lines_with-IsKept p _ (text_lines tokens) (add_token-IsKept p token e))
  ]

  lines_with-finish_line_last :
      (logs : List Log) (line : Text) (spans : List Span) (foreground background : Option Text)
      → map line_of (
          finish_logs colors (record {
            formatted_logs = logs;
            line = line;
            spans = spans;
            foreground = foreground;
            background = background;
          }))
        ≡ map line_of logs ++ ended_lines line []
  unfolding finish_logs ended_lines line_of
  lines_with-finish_line_last logs [] spans foreground background =
      sym (append-nil (map line_of logs))
  lines_with-finish_line_last logs (c ∷ s) spans foreground background =
      map-append logs (record { line = c ∷ s; spans = spans } ∷ [])

  lines_with-finish_logs :
      (p : Progress) → map line_of (finish_logs colors p) ≡ lines_with p ([], [])
  unfolding lines_with finish_logs ended_lines
  lines_with-finish_logs p =
      lines_with-finish_line_last p.formatted_logs p.line p.spans p.foreground p.background
      ∙ ap (λ line. map line_of p.formatted_logs ++ ended_lines line []) (sym (append-nil p.line))

  lines_with-add_tokens :
      (p : Progress) (tokens : List Token)
      → map line_of (finish_logs colors (add_tokens colors p tokens))
        ≡ lines_with p (text_lines tokens)
  unfolding add_tokens text_lines
  lines_with-add_tokens p [] = lines_with-finish_logs p
  lines_with-add_tokens p (token ∷ tokens) =
      lines_with-add_tokens (add_token colors p token) tokens ∙ lines_with-add_token p token tokens

  -- The lines of formatted logs are the lines of the texts of the tokens without their escape
  -- codes, an empty last line left out; colours and other tokens change no line.
  pub format_logs-lines :
      (tokenize : Text → List Token) (logs : Text) (skip_headers : Bool)
      → let lines = text_lines (tokenize (if skip_headers then strip_headers logs else logs)) in
        map line_of (format_logs colors tokenize logs skip_headers) ≡ ended_lines lines.0 lines.1
  unfolding format_logs lines_with
  format_logs-lines tokenize logs skip_headers = lines_with-add_tokens (no_logs colors) _

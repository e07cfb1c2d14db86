-- ===== src/Tests/Logs.antt =====
-- Container logs at concrete inputs. A tokenizer that gives the text as one token stands for the
-- package.
use ui_for_docker.Prelude.{
  ℕ, ◌≡◌, refl, All, true, false, Option, some, List, [], ◌∷◌, ◌++◌, map, Text, codes, arith,
  split_at,
}
use ui_for_docker.Docker.Logs.{
  Token, format_logs, add_tokens, add_token, add_background, add_other, add_lines, add_text,
  finish_line, finish_logs, named_color, foreground_colors, background_colors, strip_escape_codes,
  strip_with, match_intermediates, match_parameters, match_numbers, match_final, strip_headers,
  units,
}
use ui_for_docker.Docker.Logs.Codes.{
  Piece, plain, code, plain_code, long_code, IsPiece, is_letter, spelled, plain_text,
  strip_escape_codes-spelled,
}
use ui_for_docker.Docker.Logs.Headers.{framed, bare, strip_headers-framed, strip_headers-broken}
use ui_for_docker.Docker.Logs.Lines.{text_lines, ended_lines, line_of, format_logs-lines}
use ui_for_docker.Prelude.Dict.{lookup}
use ui_for_docker.Prelude.Decimal.{is_line_break}

abbrev one_token : Text → List Token
one_token logs =
    record { kind = "red"; content = []; arguments = [] }
    ∷ record { kind = "text"; content = logs; arguments = [] }
    ∷ []

abbrev reds : ℕ → Option (List ℕ)
reds index = some (index ∷ 0 ∷ 0 ∷ [])

format_logs-lines_example :
    map line_of (format_logs reds one_token (codes "a" ++ 10 ∷ codes "b") false)
    ≡ ended_lines
        (text_lines (one_token (codes "a" ++ 10 ∷ codes "b"))).0
        (text_lines (one_token (codes "a" ++ 10 ∷ codes "b"))).1
format_logs-lines_example = format_logs-lines reds one_token (codes "a" ++ 10 ∷ codes "b") false

format_logs_runs :
    map line_of (format_logs reds one_token (codes "a" ++ 10 ∷ codes "b") false)
    ≡ codes "a" ∷ codes "b" ∷ []
unfolding format_logs add_tokens add_token add_background add_other add_lines add_text finish_line
    finish_logs named_color foreground_colors background_colors strip_escape_codes strip_with units
    line_of lookup split_at
format_logs_runs = refl

abbrev red_word : Text
red_word = 0x1b ∷ codes "[31mred" ++ 0x1b ∷ codes "[0m"

-- A red word, and a code for the end of the line
abbrev red_pieces : List Piece
red_pieces =
    code (long_code true b'3' (codes "1") (codes "1" ∷ []) b'm')
    ∷ plain b'r'
    ∷ plain b'e'
    ∷ code (plain_code false b'K')
    ∷ plain b'd'
    ∷ []

red_pieces-ArePieces : All IsPiece red_pieces
unfolding units is_letter
red_pieces-ArePieces = (
  (refl, ((refl, tt), omega arith), (((refl, tt), omega arith), tt), refl),
  ((refl, refl), ((refl, refl), (refl, ((refl, refl), tt)))),
)

strip_escape_codes-spelled_example : strip_escape_codes (spelled red_pieces) ≡ codes "red"
unfolding plain_text
strip_escape_codes-spelled_example = strip_escape_codes-spelled red_pieces red_pieces-ArePieces

strip_escape_codes_runs : strip_escape_codes red_word ≡ codes "red"
unfolding strip_escape_codes strip_with units match_intermediates match_parameters match_numbers
    match_final
strip_escape_codes_runs = refl

abbrev header : Text
header = 1 ∷ 0 ∷ 0 ∷ 0 ∷ 0 ∷ 0 ∷ 0 ∷ 3 ∷ []

header-unbroken : All (λ c. is_line_break c ≡ false) header
unfolding is_line_break
header-unbroken = (refl, (refl, (refl, (refl, (refl, (refl, (refl, (refl, tt))))))))

strip_headers-framed_example :
    strip_headers (header ++ (codes "ab" ++ framed ((header, codes "cd") ∷ [])))
    ≡ codes "ab" ++ bare ((header, codes "cd") ∷ [])
strip_headers-framed_example =
    strip_headers-framed header (codes "ab") ((header, codes "cd") ∷ [])
      (refl, header-unbroken, ((λ e. omega arith), ((λ e. omega arith), tt)))
      ((refl, header-unbroken, ((λ e. omega arith), ((λ e. omega arith), tt))), tt)

-- The first seven units of the header of a line of ten units.
abbrev short_header : Text
short_header = 1 ∷ 0 ∷ 0 ∷ 0 ∷ 0 ∷ 0 ∷ 0 ∷ []

short_header-unbroken : All (λ c. is_line_break c ≡ false) short_header
unfolding is_line_break
short_header-unbroken = (refl, (refl, (refl, (refl, (refl, (refl, (refl, tt)))))))

part-unbroken : All (λ c. is_line_break c ≡ false) (codes "request ")
unfolding is_line_break
part-unbroken = (refl, (refl, (refl, (refl, (refl, (refl, (refl, (refl, tt))))))))

strip_headers-broken_example :
    strip_headers (header ++ 10 ∷ (short_header ++ 10 ∷ (codes "request " ++ codes "9")))
    ≡ 10 ∷ (short_header ++ 10 ∷ 13 ∷ codes "9")
strip_headers-broken_example =
    strip_headers-broken header short_header (codes "request ") (codes "9") refl refl
      short_header-unbroken refl part-unbroken ((λ e. omega arith), tt)

-- ===== src/Docker/Ports/Parsing.antt =====
-- What port texts are read as.
use native.Mathlib.Decide.{dec_lt}
use ui_for_docker.Prelude.{
  ℕ, ◌+◌, ◌/◌, ◌%◌, ◌≤◌, ◌<◌, ◌≡◌, true, false, [], ◌∷◌, arith, Text, any, split_where-none, All,
  ◌≢◌, Bool-cases, inl, inr,
}
use ui_for_docker.Prelude.Decimal.{
  natural, is_line_break, value, IsDigit, parse_int-digits, show, show_step, show_digit,
  parse_int-show, show-IsDigit,
}
use ui_for_docker.Docker.Ports.{five_digits, matches_line, port_pattern, parse_port}

-- A text without line breaks, as a form field and the Docker API give it.
abbrev pub IsOneLine : Text → Type 0
IsOneLine = All (λ c. is_line_break c ≡ false)

pub port_pattern-one_line : (s : Text) → IsOneLine s → port_pattern s ≡ matches_line s
unfolding port_pattern any
port_pattern-one_line s h = ground (arith, split_where-none is_line_break s h)

pub matches_line-digits : (s : Text) → matches_line s ≡ true → All IsDigit s × (s ≢ [])
unfolding matches_line
matches_line-digits [] h = cc
matches_line-digits (a ∷ []) h = ground arith
matches_line-digits (a ∷ b ∷ []) h = ground arith
matches_line-digits (a ∷ b ∷ c ∷ []) h = ground arith
matches_line-digits (a ∷ b ∷ c ∷ d ∷ []) h = ground arith
matches_line-digits (a ∷ b ∷ c ∷ d ∷ e ∷ []) h = ground arith
matches_line-digits (a ∷ b ∷ c ∷ d ∷ e ∷ f ∷ s) h = cc

five_digits-value :
    (a b c d e : ℕ)
    → All IsDigit (a ∷ b ∷ c ∷ d ∷ e ∷ [])
    → five_digits a b c d e ≡ true
    → value 0 (a ∷ b ∷ c ∷ d ∷ e ∷ []) ≤ 65535
unfolding five_digits value
five_digits-value a b c d e p h = ground arith

matches_line-value : (s : Text) → matches_line s ≡ true → value 0 s ≤ 65535
unfolding matches_line value
matches_line-value [] h = cc
matches_line-value (a ∷ []) h = ground arith
matches_line-value (a ∷ b ∷ []) h = ground arith
matches_line-value (a ∷ b ∷ c ∷ []) h = ground arith
matches_line-value (a ∷ b ∷ c ∷ d ∷ []) h = ground arith
matches_line-value (a ∷ b ∷ c ∷ d ∷ e ∷ []) h =
    five_digits-value a b c d e (matches_line-digits (a ∷ b ∷ c ∷ d ∷ e ∷ []) h).0 (ground arith)
matches_line-value (a ∷ b ∷ c ∷ d ∷ e ∷ f ∷ s) h = cc

-- A text of one line is read as a port number from 0 to 65535, whatever stands in it.
pub parse_port-bounds :
    (s : Text) → IsOneLine s → (n : ℕ) × (parse_port s ≡ natural n) × (n ≤ 65535)
unfolding parse_port
parse_port-bounds s h = elim (Bool-cases (matches_line s)) [
  | inl e ↦
      let (digits, nonempty) = matches_line-digits s e in
      (
        value 0 s,
        ground (arith, port_pattern-one_line s h, parse_int-digits s nonempty digits),
        matches_line-value s e,
      )
  | inr e ↦ (0, ground (arith, port_pattern-one_line s h), omega arith)
]

pub IsDigit-not_break : (c : ℕ) → IsDigit c → is_line_break c ≡ false
unfolding is_line_break
IsDigit-not_break c h = ground arith

pub digits-IsOneLine : (s : Text) → All IsDigit s → IsOneLine s
digits-IsOneLine [] h = tt
digits-IsOneLine (c ∷ s) (p, h) = (IsDigit-not_break c p, digits-IsOneLine s h)

show_two : (n : ℕ) → 10 ≤ n → n < 100 → show n ≡ (b'0' + n / 10) ∷ (b'0' + n % 10) ∷ []
show_two n h k = ground (arith, show_step n h, show_digit (n / 10) (omega arith))

show_three :
    (n : ℕ)
    → 100 ≤ n
    → n < 1000
    → show n ≡ (b'0' + n / 100) ∷ (b'0' + n / 10 % 10) ∷ (b'0' + n % 10) ∷ []
show_three n h k =
    rw (show_step n (omega arith), show_two (n / 10) (omega arith) (omega arith)) (ground arith)

show_four :
    (n : ℕ)
    → 1000 ≤ n
    → n < 10000
    → show n
      ≡ (b'0' + n / 1000) ∷ (b'0' + n / 100 % 10) ∷ (b'0' + n / 10 % 10) ∷ (b'0' + n % 10) ∷ []
show_four n h k =
    rw (show_step n (omega arith), show_three (n / 10) (omega arith) (omega arith)) (ground arith)

show_five :
    (n : ℕ)
    → 10000 ≤ n
    → n < 100000
    → show n
      ≡ (b'0' + n / 10000)
        ∷ (b'0' + n / 1000 % 10)
        ∷ (b'0' + n / 100 % 10)
        ∷ (b'0' + n / 10 % 10)
        ∷ (b'0' + n % 10)
        ∷ []
show_five n h k =
    rw (show_step n (omega arith), show_four (n / 10) (omega arith) (omega arith)) (ground arith)

five_digits-parts :
    (n : ℕ)
    → 10000 ≤ n
    → n ≤ 65535
    → five_digits
        (b'0' + n / 10000)
        (b'0' + n / 1000 % 10)
        (b'0' + n / 100 % 10)
        (b'0' + n / 10 % 10)
        (b'0' + n % 10)
      ≡ true
unfolding five_digits
five_digits-parts n h k = ground arith

matches_line-show : (n : ℕ) → 1 ≤ n → n ≤ 65535 → matches_line (show n) ≡ true
unfolding matches_line
matches_line-show n h k = elim (dec_lt n 10) [
  | yes a ↦ rw (show_digit n a) (ground arith)
  | no a ↦ elim (dec_lt n 100) [
    | yes b ↦ rw (show_two n (omega arith) b) (ground arith)
    | no b ↦ elim (dec_lt n 1000) [
      | yes c ↦ rw (show_three n (omega arith) c) (ground arith)
      | no c ↦ elim (dec_lt n 10000) [
        | yes d ↦ rw (show_four n (omega arith) d) (ground arith)
        | no d ↦
            rw (show_five n (omega arith) (omega arith), five_digits-parts n (omega arith) k)
              (ground arith)
      ]
    ]
  ]
]

-- A port number from 1 to 65535 that was printed is read back.
pub parse_port-show : (n : ℕ) → 1 ≤ n → n ≤ 65535 → parse_port (show n) ≡ natural n
unfolding parse_port
parse_port-show n h k = ground (
  arith,
  port_pattern-one_line (show n) (digits-IsOneLine (show n) (show-IsDigit n)),
  matches_line-show n h k,
  parse_int-show n,
)

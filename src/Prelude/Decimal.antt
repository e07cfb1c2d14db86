-- ===== src/Prelude/Decimal.antt =====
-- Decimal numbers: `n.toString()`, `parseInt(text, 10)`, and the numbers that these give.
use mathlib.Core.List.{concat-ne-nil}
use ui_for_docker.Prelude.{
  ◌∙◌, ℕ, zero, suc, ◌+◌, ◌-◌, ◌*◌, ◌/◌, ◌%◌, ◌≤◌, ◌<◌, ◌≡◌, ◌≢◌, refl, ap, Bool, ◌&&◌, ◌||◌, [],
  ◌∷◌, ◌++◌, arith, ltb, leb, nat_eq, if◌then◌else◌, Text, codes, is_digit, All, All-append,
}

-- The value of `n` digits of a text behind the number `acc`.
unfoldable pub value : ℕ → Text → ℕ
value acc [] = acc
value acc (c ∷ s) = value (acc * 10 + (c - b'0')) s

-- The digits of `n`, with more fuel than `n`.
unfoldable pub digits : ℕ → ℕ → Text
digits zero n = []
digits (suc f) n =
    let rest = digits f (n / 10) in
    if ltb n 10 then (b'0' + n) ∷ [] else rest ++ (b'0' + n % 10) ∷ []

unfoldable pub show : ℕ → Text
unfolding digits
show n = digits (suc n) n

abbrev pub IsDigit : ℕ → Type 0
IsDigit c = (b'0' ≤ c) × (c ≤ b'9')

pub digits_fuel : (f g n : ℕ) → n < f → n < g → digits f n ≡ digits g n
unfolding digits
digits_fuel zero g n h k = absurd (omega arith)
digits_fuel (suc f) zero n h k = absurd (omega arith)
digits_fuel (suc f) (suc g) n h k = ground (arith, digits_fuel f g (n / 10))

pub show_digit : (n : ℕ) → n < 10 → show n ≡ (b'0' + n) ∷ []
unfolding show
show_digit n h = ground arith

pub show_step : (n : ℕ) → 10 ≤ n → show n ≡ show (n / 10) ++ (b'0' + n % 10) ∷ []
unfolding show
show_step n h = ground (arith, digits_fuel n (suc (n / 10)) (n / 10))

pub digits-IsDigit : (f n : ℕ) → All IsDigit (digits f n)
unfolding digits
digits-IsDigit zero n = tt
digits-IsDigit (suc f) n = ground (
  arith,
  digits-IsDigit f (n / 10),
  All-append IsDigit (digits f (n / 10)) ((b'0' + n % 10) ∷ []) (digits-IsDigit f (n / 10))
      (omega arith),
)

pub show-IsDigit : (n : ℕ) → All IsDigit (show n)
unfolding show
show-IsDigit n = digits-IsDigit (suc n) n

pub value-append :
    (acc : ℕ) (s : Text) (c : ℕ) → value acc (s ++ c ∷ []) ≡ value acc s * 10 + (c - b'0')
unfolding value
value-append acc [] c = refl
value-append acc (d ∷ s) c = value-append (acc * 10 + (d - b'0')) s c

value-digits : (f n : ℕ) → n < f → value 0 (digits f n) ≡ n
unfolding digits value
value-digits zero n h = absurd (omega arith)
value-digits (suc f) n h =
    ground (arith, value-digits f (n / 10), value-append 0 (digits f (n / 10)) (b'0' + n % 10))

-- Reading what was printed.
pub value-show : (n : ℕ) → value 0 (show n) ≡ n
unfolding show
value-show n = value-digits (suc n) n (omega arith)

pub show-ne-nil : (n : ℕ) → show n ≢ []
unfolding show digits
show-ne-nil n = ground (arith, concat-ne-nil (b'0' + n % 10) (digits n (n / 10)))

-- The whole numbers that `parseInt` gives, and NaN. `negative n` is -(n + 1).
pub data Number : Type 0 where
  nan : Number
  natural : ℕ → Number
  negative : ℕ → Number

-- What JavaScript skips at the start of a number, and trims.
unfoldable pub is_space : ℕ → Bool
is_space c =
    leb 9 c && leb c 13
    || nat_eq c 32
    || nat_eq c 160
    || nat_eq c 0x1680
    || leb 0x2000 c && leb c 0x200a
    || nat_eq c 0x2028
    || nat_eq c 0x2029
    || nat_eq c 0x202f
    || nat_eq c 0x205f
    || nat_eq c 0x3000
    || nat_eq c 0xfeff

-- What ends a line for the anchors of a regular expression.
unfoldable pub is_line_break : ℕ → Bool
is_line_break c = nat_eq c 10 || nat_eq c 13 || nat_eq c 0x2028 || nat_eq c 0x2029

-- The longest prefix of digits.
unfoldable pub digit_prefix : Text → Text
digit_prefix [] = []
digit_prefix (c ∷ s) = if is_digit c then c ∷ digit_prefix s else []

unfoldable pub unsigned : Text → Number
unsigned [] = nan
unsigned (c ∷ s) = natural (value 0 (c ∷ s))

negated : Text → Number
negated [] = nan
negated (c ∷ s) = if nat_eq (value 0 (c ∷ s)) 0 then natural 0 else negative (value 0 (c ∷ s) - 1)

-- `parseInt(text, 10)`
unfoldable pub parse_int : Text → Number
unfolding is_space digit_prefix value unsigned negated
parse_int [] = nan
parse_int (c ∷ s) =
    if is_space c
    then parse_int s
    else if nat_eq c b'-'
    then negated (digit_prefix s)
    else if nat_eq c b'+'
    then unsigned (digit_prefix s)
    else unsigned (digit_prefix (c ∷ s))

pub digit_prefix-All : (s : Text) → All IsDigit s → digit_prefix s ≡ s
unfolding digit_prefix
digit_prefix-All [] h = refl
digit_prefix-All (c ∷ s) (p, h) = ground (arith, digit_prefix-All s h)

pub parse_int-digits : (s : Text) → s ≢ [] → All IsDigit s → parse_int s ≡ natural (value 0 s)
unfolding parse_int
parse_int-digits [] n h = absurd (n refl)
parse_int-digits (c ∷ s) n h = ground (arith, digit_prefix-All (c ∷ s) h)

pub parse_int-show : (n : ℕ) → parse_int (show n) ≡ natural n
parse_int-show n =
    parse_int-digits (show n) (show-ne-nil n) (show-IsDigit n) ∙ ap natural (value-show n)

-- `number.toString()`
unfoldable pub show_number : Number → Text
show_number nan = codes "NaN"
show_number (natural n) = show n
show_number (negative n) = b'-' ∷ show (n + 1)

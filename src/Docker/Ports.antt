-- ===== src/Docker/Ports.antt =====
-- Port numbers and port ranges of app/docker/helpers/containerHelper.js.
pub mod Parsing
pub mod Bindings
pub mod Combining
use ui_for_docker.Prelude.{
  ℕ, zero, suc, ◌-◌, Bool, true, false, ◌&&◌, ◌||◌, Option, none, some, List, [], ◌∷◌, ◌++◌, ltb,
  leb, nat_eq, if◌then◌else◌, Text, codes, is_digit, any, split_at, split_where, cut_at,
}
use ui_for_docker.Prelude.Decimal.{
  Number, nan, natural, negative, parse_int, show_number, is_line_break,
}

unfoldable pub five_digits : ℕ → ℕ → ℕ → ℕ → ℕ → Bool
five_digits a b c d e =
    leb b'1' a && leb a b'5'
    || nat_eq a b'6'
      && (leb b b'4'
          || nat_eq b b'5'
            && (leb c b'4' || nat_eq c b'5' && (leb d b'2' || nat_eq d b'3' && leb e b'5')))

-- One line of the text against `portPattern`.
unfoldable pub matches_line : Text → Bool
matches_line [] = false
matches_line (a ∷ []) = leb b'1' a && leb a b'9'
matches_line (a ∷ b ∷ []) = is_digit a && is_digit b
matches_line (a ∷ b ∷ c ∷ []) = is_digit a && is_digit b && is_digit c
matches_line (a ∷ b ∷ c ∷ d ∷ []) = is_digit a && is_digit b && is_digit c && is_digit d
matches_line (a ∷ b ∷ c ∷ d ∷ e ∷ []) =
    is_digit a && is_digit b && is_digit c && is_digit d && is_digit e && five_digits a b c d e
matches_line (a ∷ b ∷ c ∷ d ∷ e ∷ f ∷ s) = false

-- `portPattern.test(port)`: the flag `m` lets any line of the text match.
unfoldable pub port_pattern : Text → Bool
port_pattern s =
    let (line, lines) = split_where is_line_break s in matches_line line || any matches_line lines

unfoldable pub parse_port : Text → Number
parse_port port = if port_pattern port then parse_int port else natural 0

-- The second part of a split with limit 2, or the first once more.
unfoldable pub second_or : Text → List Text → Text
second_or first [] = first
second_or first (second ∷ parts) = second

unfoldable pub parse_port_range : Text → Number × Number
unfolding second_or
parse_port_range range =
    let (first, parts) = split_at b'-' range in
    (parse_port first, parse_port (second_or first parts))

-- `n > 0` and `a >= b` between the numbers of JavaScript.
abbrev pub is_positive : Number → Bool
is_positive nan = false
is_positive (natural n) = ltb 0 n
is_positive (negative n) = false

abbrev pub num_le : Number → Number → Bool
num_le nan b = false
num_le (natural m) nan = false
num_le (natural m) (natural n) = leb m n
num_le (natural m) (negative n) = false
num_le (negative m) nan = false
num_le (negative m) (natural n) = true
num_le (negative m) (negative n) = leb n m

-- `isValidPortRange` at the arrays that its two callers pass.
unfoldable pub is_valid_port_range : Number × Number → Bool
is_valid_port_range (start, end) = is_positive start && num_le start end

-- `Math.min` and `Math.max`
abbrev pub num_min : Number → Number → Number
num_min nan b = nan
num_min (natural m) nan = nan
num_min (negative m) nan = nan
num_min (natural m) (natural n) = if leb m n then natural m else natural n
num_min (natural m) (negative n) = negative n
num_min (negative m) (natural n) = negative m
num_min (negative m) (negative n) = if leb n m then negative m else negative n

abbrev pub num_max : Number → Number → Number
num_max nan b = nan
num_max (natural m) nan = nan
num_max (negative m) nan = nan
num_max (natural m) (natural n) = if leb m n then natural n else natural m
num_max (natural m) (negative n) = natural m
num_max (negative m) (natural n) = natural n
num_max (negative m) (negative n) = if leb n m then negative n else negative m

-- The host in front of the first colon, where that is not empty, and the rest.
host_and_range : Text → Option (Text × Text) → Text × Text
host_and_range text none = ([], text)
host_and_range text (some (host, rest)) = (host, rest)

unfoldable pub with_host : Text → Text → Text
with_host [] range = range
with_host (c ∷ host) range = (c ∷ host) ++ b':' ∷ range

-- `createPortRange`, at a port that is a number.
unfoldable pub create_port_range : Text → Number → Text
unfolding host_and_range with_host
create_port_range text port =
    let (host, range) = host_and_range text (cut_at b':' text) in
    let (start, end) = parse_port_range range in
    with_host host (show_number (num_min start port) ++ b'-' ∷ show_number (num_max end port))

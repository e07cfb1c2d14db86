-- ===== src/Docker/Durations.antt =====
-- The durations of a service's configuration: `translateHumanDurationToNanos` and
-- `translateNanosToHumanDuration` of app/docker/helpers/serviceHelper.js.
pub mod RoundTrip
use ui_for_docker.Prelude.{
  ℕ, zero, suc, ◌*◌, ◌/◌, ◌%◌, ◌<◌, ◌≡◌, Bool, true, false, ◌&&◌, Option, none, some, List, [], ◌∷◌,
  ◌++◌, ltb, leb, nat_eq, if◌then◌else◌, Text, codes, ◌==◌, eq_list, eq_nat, includes, ◌+◌, map,
  is_digit,
}
use ui_for_docker.Prelude.Decimal.{value, show, digit_prefix}

-- Moment.js: `moment.duration(duration, unit).asMilliseconds()`, with what its documentation says
-- of the units that this program prints.
pub record Moment : Type 0 where
  pub as_milliseconds : ℕ → Text → ℕ
  pub of_milliseconds : (n : ℕ) → as_milliseconds n (codes "ms") ≡ n
  pub of_seconds : (n : ℕ) → as_milliseconds n (codes "s") ≡ n * 1000
  pub of_minutes : (n : ℕ) → as_milliseconds n (codes "m") ≡ n * 60000
  pub of_hours : (n : ℕ) → as_milliseconds n (codes "h") ≡ n * 3600000

-- `conversionFromNano`, in the order of its keys.
abbrev pub conversion_from_nano : List (Text × ℕ)
conversion_from_nano =
    (codes "ns", 1)
    ∷ (codes "us", 1000)
    ∷ (codes "ms", 1000000)
    ∷ (codes "s", 1000000000)
    ∷ (codes "m", 60000000000)
    ∷ (codes "h", 3600000000000)
    ∷ []

-- The `forEach` over the units.
unfoldable pub pick_unit : ℕ → List (Text × ℕ) → Text → Text
pick_unit nanos [] human = human
pick_unit nanos ((unit, size) ∷ units) human =
    pick_unit nanos units (
      if nat_eq (nanos % size) 0 && ltb 0 (nanos / size)
      then show (nanos / size) ++ unit
      else human)

unfoldable pub translate_nanos_to_human_duration : ℕ → Text
translate_nanos_to_human_duration nanos = pick_unit nanos conversion_from_nano (codes "0s")

-- A letter as the flag `i` compares it.
abbrev pub lower : ℕ → ℕ
lower c = if leb b'A' c && leb c b'Z' then c + 32 else c

unfoldable pub is_unit : Text → Bool
is_unit unit =
    includes (codes "h" ∷ codes "m" ∷ codes "s" ∷ codes "ms" ∷ codes "us" ∷ codes "ns" ∷ [])
      (map lower unit)

-- The text behind its leading digits.
unfoldable pub behind_digits : Text → Text
behind_digits [] = []
behind_digits (c ∷ s) = if is_digit c then behind_digits s else c ∷ s

module _ (moment : Moment) where
  unfoldable pub nanos_of : ℕ → Text → ℕ
  nanos_of duration unit =
      if unit == codes "ns"
      then duration
      else if unit == codes "us"
      then duration * 1000
      else moment.as_milliseconds duration unit * 1000000

  matched : Text → Text → Option ℕ
  matched [] unit = none
  matched (d ∷ ds) unit = if is_unit unit then some (nanos_of (value 0 (d ∷ ds)) unit) else none

  -- `none` is `undefined`, for a text that the expression does not match.
  unfoldable pub translate_human_duration_to_nanos : Text → Option ℕ
  unfolding matched
  translate_human_duration_to_nanos human = matched (digit_prefix human) (behind_digits human)

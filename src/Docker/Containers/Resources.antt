-- ===== src/Docker/Containers/Resources.antt =====
-- The memory limits of `prepareResources` and `loadFromContainerResources`. A limit of the form is a
-- number of MB with a fraction, which JavaScript holds exactly: it is divided by powers of two. The
-- CPU limit is left out: it is a number of CPUs that is rounded in binary.
use ui_for_docker.Prelude.{
  ℕ, ◌+◌, ◌*◌, ◌/◌, ◌%◌, ◌≤◌, ◌≡◌, ◌↔◌, ap, ◌∙◌, arith, nat_eq, if◌then◌else◌,
}

-- A quotient of natural numbers; the denominator is not 0.
pub record Quotient : Type 0 where
  pub numerator : ℕ
  pub denominator : ℕ

unfoldable pub number : ℕ → Quotient
number n = record { numerator = n; denominator = 1 }

unfoldable pub times : Quotient → ℕ → Quotient
times x n = record x { numerator = x.numerator * n }

unfoldable pub divided_by : Quotient → ℕ → Quotient
divided_by x n = record x { denominator = x.denominator * n }

-- `Math.round`, which rounds a half up
unfoldable pub round : Quotient → ℕ
round x = (2 * x.numerator + x.denominator) / (2 * x.denominator)

-- `toFixed(3)`, as its number of thousandths
unfoldable pub to_fixed_3 : Quotient → ℕ
unfolding round times
to_fixed_3 x = round (times x 1000)

-- A whole number of bytes: the text of thousandths, read as a number, times 1024 * 1024.
unfoldable pub bytes_of : ℕ → ℕ
bytes_of thousandths = thousandths * (1024 * 1024) / 1000

unfoldable pub prepare_memory : Quotient → ℕ
unfolding bytes_of to_fixed_3 divided_by number round times
prepare_memory limit = bytes_of (to_fixed_3 (divided_by (number (round (times limit 8))) 8))

-- `if (memory) limit = memory / 1024 / 1024`, where the form has the limit 0 before.
unfoldable pub load_memory : ℕ → Quotient
unfolding divided_by number
load_memory memory =
    if nat_eq memory 0 then number 0 else divided_by (divided_by (number memory) 1024) 1024

-- Rounding an eighth of a MB to thousandths loses nothing.
bytes_of_eighths : (r : ℕ) → bytes_of (to_fixed_3 (divided_by (number r) 8)) ≡ 131072 * r
unfolding bytes_of to_fixed_3 divided_by number round times
bytes_of_eighths r = omega arith

round_load : (memory : ℕ) → round (times (load_memory memory) 8) ≡ (memory + 65536) / 131072
unfolding round times load_memory divided_by number
round_load memory = ground arith

prepare_memory-load_memory :
    (memory : ℕ) → prepare_memory (load_memory memory) ≡ 131072 * ((memory + 65536) / 131072)
unfolding prepare_memory
prepare_memory-load_memory memory =
    bytes_of_eighths (round (times (load_memory memory) 8))
    ∙ ap (λ r. 131072 * r) (round_load memory)

-- The memory limit of a duplicated container is a multiple of 128 KiB, and differs from that of the
-- container by at most 64 KiB.
pub prepare_memory-load_bounds :
    (memory : ℕ)
    → (prepare_memory (load_memory memory) % 131072 ≡ 0)
      × (prepare_memory (load_memory memory) ≤ memory + 65536)
      × (memory ≤ prepare_memory (load_memory memory) + 65536)
prepare_memory-load_bounds memory = ground (arith, prepare_memory-load_memory memory)

-- It is the same exactly if it is a multiple of 128 KiB.
pub prepare_memory-load :
    (memory : ℕ) → (prepare_memory (load_memory memory) ≡ memory) ↔ (memory % 131072 ≡ 0)
prepare_memory-load memory = ground (arith, prepare_memory-load_memory memory)

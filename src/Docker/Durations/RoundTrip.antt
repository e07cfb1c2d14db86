-- ===== src/Docker/Durations/RoundTrip.antt =====
-- A printed duration is read back, and is printed in the largest unit that divides it.
use native.Mathlib.Decide.{dec_lt}
use native.Mathlib.Nat.{div-add-mod, zero-div, zero-mul}
use ui_for_docker.Prelude.{
  ◌&&◌, ltb, ◌⊎◌, ℕ, ◌*◌, ◌/◌, ◌%◌, ◌<◌, ◌≡◌, ◌≢◌, refl, ap, ◌∙◌, true, false, some, List, [], ◌∷◌,
  ◌++◌, arith, nat_eq, Text, codes, All, is_digit, list_eq, eq_list, eq_nat, includes, Bool-cases,
  inl, inr, drop,
}
use ui_for_docker.Prelude.Decimal.{
  value, show, digit_prefix, IsDigit, show-IsDigit, value-show, show-ne-nil,
}
use ui_for_docker.Docker.Durations.{
  Moment, conversion_from_nano, pick_unit, translate_nanos_to_human_duration, is_unit,
  behind_digits, nanos_of, matched, translate_human_duration_to_nanos,
}

digit_prefix-append :
    (s : Text) (c : ℕ) (rest : Text)
    → All IsDigit s
    → is_digit c ≡ false
    → digit_prefix (s ++ c ∷ rest) ≡ s
unfolding digit_prefix
digit_prefix-append [] c rest h k = ground arith
digit_prefix-append (d ∷ s) c rest (p, h) k = ground (arith, digit_prefix-append s c rest h k)

behind_digits-append :
    (s : Text) (c : ℕ) (rest : Text)
    → All IsDigit s
    → is_digit c ≡ false
    → behind_digits (s ++ c ∷ rest) ≡ c ∷ rest
unfolding behind_digits
behind_digits-append [] c rest h k = ground arith
behind_digits-append (d ∷ s) c rest (p, h) k = ground (arith, behind_digits-append s c rest h k)

div_exact : (n k : ℕ) → n % k ≡ 0 → n / k * k ≡ n
div_exact n k h = grind (arith, div-add-mod n k)

pick_unit-zero :
    (nanos : ℕ) (units : List (Text × ℕ)) (human : Text)
    → nanos ≡ 0
    → pick_unit nanos units human ≡ human
unfolding pick_unit
pick_unit-zero nanos [] human h = refl
pick_unit-zero nanos ((unit, size) ∷ units) human h =
    ground (arith, zero-div size, pick_unit-zero nanos units human h)

pick_unit-exact :
    (nanos : ℕ) (unit : Text) (size : ℕ) (units : List (Text × ℕ)) (human : Text)
    → nanos % size ≡ 0
    → 0 < nanos / size
    → pick_unit nanos ((unit, size) ∷ units) human
      ≡ pick_unit nanos units (show (nanos / size) ++ unit)
unfolding pick_unit
pick_unit-exact nanos unit size units human h k = ground arith

pick_unit-nanoseconds :
    (nanos : ℕ)
    → 0 < nanos
    → pick_unit nanos conversion_from_nano (codes "0s")
      ≡ pick_unit nanos (drop 1 conversion_from_nano) (show nanos ++ codes "ns")
pick_unit-nanoseconds nanos h =
    let rest = drop 1 conversion_from_nano in
    pick_unit-exact nanos (codes "ns") 1 rest (codes "0s") (omega arith) (omega arith)
    ∙ ap (λ (n : ℕ). pick_unit nanos rest (show n ++ codes "ns")) (omega arith)

module _ (moment : Moment) where
  matched-digits :
      (s unit : Text)
      → s ≢ []
      → is_unit unit ≡ true
      → matched moment s unit ≡ some (nanos_of moment (value 0 s) unit)
  unfolding matched
  matched-digits [] unit h k = absurd (h refl)
  matched-digits (d ∷ ds) unit h k = rw k refl

  -- A number in front of a unit is read as that many units.
  human-show :
      (n c : ℕ) (rest : Text)
      → is_digit c ≡ false
      → is_unit (c ∷ rest) ≡ true
      → translate_human_duration_to_nanos moment (show n ++ c ∷ rest)
        ≡ some (nanos_of moment n (c ∷ rest))
  unfolding translate_human_duration_to_nanos
  human-show n c rest h k =
      rw
        (
          digit_prefix-append (show n) c rest (show-IsDigit n) h,
          behind_digits-append (show n) c rest (show-IsDigit n) h,
          matched-digits (show n) (c ∷ rest) (show-ne-nil n) k,
          value-show n,
        )
        refl

  -- The entry of a unit says how it is read.
  IsRead : Text × ℕ → Type 0
  IsRead (unit, size) =
      (n : ℕ) → translate_human_duration_to_nanos moment (show n ++ unit) ≡ some (n * size)

  conversions-IsRead : All IsRead conversion_from_nano
  unfolding IsRead is_unit includes list_eq nanos_of
  conversions-IsRead = (
    (λ n. human-show n b'n' (codes "s") refl refl ∙ ap some (omega arith)),
    (
      (λ n. human-show n b'u' (codes "s") refl refl),
      (
        (λ n.
            human-show n b'm' (codes "s") refl refl
            ∙ ap some (omega (arith, moment.of_milliseconds n))),
        (
          (λ n. human-show n b's' [] refl refl ∙ ap some (omega (arith, moment.of_seconds n))),
          (
            (λ n. human-show n b'm' [] refl refl ∙ ap some (omega (arith, moment.of_minutes n))),
            (
              (λ n. human-show n b'h' [] refl refl ∙ ap some (omega (arith, moment.of_hours n))),
              tt,
            ),
          ),
        ),
      ),
    ),
  )

  pick_unit-IsRead :
      (nanos : ℕ) (units : List (Text × ℕ)) (human : Text)
      → All IsRead units
      → translate_human_duration_to_nanos moment human ≡ some nanos
      → translate_human_duration_to_nanos moment (pick_unit nanos units human) ≡ some nanos
  unfolding pick_unit IsRead
  pick_unit-IsRead nanos [] human read h = h
  pick_unit-IsRead nanos ((unit, size) ∷ units) human (read, more) h =
      elim (Bool-cases (nat_eq (nanos % size) 0 && ltb 0 (nanos / size))) [
        | inl e ↦ rw e (
            pick_unit-IsRead nanos units (show (nanos / size) ++ unit) more
              (read (nanos / size) ∙ ap some (div_exact nanos size (ground arith))))
        | inr e ↦ rw e (pick_unit-IsRead nanos units human more h)
      ]

  -- Every number of nanoseconds is read back from the duration that is printed for it, if Moment
  -- converts hours, minutes, seconds and milliseconds as it says.
  pub translate_human_duration_to_nanos-print :
      (nanos : ℕ)
      → translate_human_duration_to_nanos moment (translate_nanos_to_human_duration nanos)
        ≡ some nanos
  unfolding translate_nanos_to_human_duration IsRead show translate_human_duration_to_nanos
  translate_human_duration_to_nanos-print nanos = elim (dec_lt 0 nanos) [
    | yes h ↦ rw (pick_unit-nanoseconds nanos h) (
        pick_unit-IsRead nanos (drop 1 conversion_from_nano) (show nanos ++ codes "ns")
          conversions-IsRead.1 (conversions-IsRead.0 nanos ∙ ap some (omega arith)))
    | no h ↦
        rw (pick_unit-zero nanos conversion_from_nano (codes "0s") (omega arith))
          (conversions-IsRead.1.1.1.0 0 ∙ ap some (omega arith))
  ]

-- One unit of the table is picked: the printed number counts it exactly, and no larger unit of
-- the table divides the duration.
abbrev pub IsLargestUnit : ℕ → List (Text × ℕ) → Text → Type 0
IsLargestUnit nanos units human =
    (smaller larger : List (Text × ℕ)) × (unit : Text) × (size : ℕ) × (units
      ≡ smaller ++ (unit, size) ∷ larger)
    × (human ≡ show (nanos / size) ++ unit)
    × (nanos / size * size ≡ nanos)
    × All (λ entry. nanos % entry.1 ≢ 0) larger

not_divided :
    (nanos size : ℕ)
    → 0 < nanos
    → 0 < size
    → (nat_eq (nanos % size) 0 && ltb 0 (nanos / size)) ≡ false
    → nanos % size ≢ 0
not_divided nanos size pos p e z = absurd (ground (arith, div_exact nanos size z, zero-mul size))

IsLargestUnit-cons :
    (nanos : ℕ) (entry : Text × ℕ) (units : List (Text × ℕ)) (human : Text)
    → IsLargestUnit nanos units human
    → IsLargestUnit nanos (entry ∷ units) human
IsLargestUnit-cons nanos entry units human (smaller, larger, unit, size, split, same, exact, rest) =
    (
      entry ∷ smaller,
      larger,
      unit,
      size,
      ap (λ (l : List (Text × ℕ)). entry ∷ l) split,
      same,
      exact,
      rest,
    )

pick_unit-cases :
    (nanos : ℕ) (units : List (Text × ℕ)) (human : Text)
    → 0 < nanos
    → All (λ entry. 0 < entry.1) units
    → (All (λ entry. nanos % entry.1 ≢ 0) units × (pick_unit nanos units human ≡ human))
      ⊎ IsLargestUnit nanos units (pick_unit nanos units human)
unfolding pick_unit
pick_unit-cases nanos [] human pos h = inl (tt, refl)
pick_unit-cases nanos ((unit, size) ∷ units) human pos (p, h) =
    elim (Bool-cases (nat_eq (nanos % size) 0 && ltb 0 (nanos / size))) [
      | inl e ↦ rw e (elim (pick_unit-cases nanos units (show (nanos / size) ++ unit) pos h) [
        | inl (none_larger, same) ↦
            inr
              ([], units, unit, size, refl, same, div_exact nanos size (ground arith), none_larger)
        | inr large ↦ inr (IsLargestUnit-cons nanos (unit, size) units _ large)
      ])
      | inr e ↦ rw e (elim (pick_unit-cases nanos units human pos h) [
        | inl (none_larger, same) ↦ inl ((not_divided nanos size pos p e, none_larger), same)
        | inr large ↦ inr (IsLargestUnit-cons nanos (unit, size) units _ large)
      ])
    ]

-- A duration that is not 0 is printed in the largest of the units ns, us, ms, s, m and h that
-- divides it.
pub translate_nanos_to_human_duration-IsLargestUnit :
    (nanos : ℕ)
    → 0 < nanos
    → IsLargestUnit nanos conversion_from_nano (translate_nanos_to_human_duration nanos)
unfolding translate_nanos_to_human_duration
translate_nanos_to_human_duration-IsLargestUnit nanos pos =
    elim (pick_unit-cases nanos conversion_from_nano (codes "0s") pos (omega arith)) [
      | inl ((undivided, _), _) ↦ absurd (undivided (omega arith))
      | inr largest ↦ largest
    ]

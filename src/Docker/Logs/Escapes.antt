-- ===== src/Docker/Logs/Escapes.antt =====
-- Stripping escape codes removes units and adds none; a text without them is kept.
use mathlib.Core.Path.{subst}
use ui_for_docker.Prelude.{
  ℕ, zero, suc, ◌-◌, ◌<◌, ◌≤◌, ap, ◌≡◌, refl, Bool, true, false, Option, none, some, [], ◌∷◌, arith,
  All, Text, Option-cases, Bool-cases, inl, inr, is_digit, nat_eq, leb, ◌&&◌, if◌then◌else◌,
}
use ui_for_docker.Docker.Logs.{
  first_match, is_escape, is_intermediate, is_final, match_final, match_numbers, match_parameters,
  match_intermediates, units, strip_with, strip_escape_codes,
}

module _ (Q : Text → Type 0) (behind : (c : ℕ) (s : Text) → Q (c ∷ s) → Q s) where
  -- What is left of a match is an end of the text.
  abbrev IsRest : Option Text → Type 0
  IsRest none = Unit {0}
  IsRest (some rest) = Q rest

  first_match-IsRest : (o p : Option Text) → IsRest o → IsRest p → IsRest (first_match o p)
  first_match-IsRest none p h k = k
  first_match-IsRest (some r) p h k = h

  if-IsRest : (b : Bool) (o p : Option Text) → IsRest o → IsRest p → IsRest (if b then o else p)
  if-IsRest true o p h k = h
  if-IsRest false o p h k = k

  match_final-IsRest : (s : Text) → Q s → IsRest (match_final s)
  unfolding match_final
  match_final-IsRest [] h = tt
  match_final-IsRest (c ∷ s) h = if-IsRest (is_final c) (some s) none (behind c s h) tt

  match_numbers-IsRest : (n : ℕ) (s : Text) → Q s → IsRest (match_numbers n s)
  unfolding match_numbers
  match_numbers-IsRest n [] h = tt
  match_numbers-IsRest n (c ∷ s) h =
      let end = match_final-IsRest (c ∷ s) h in
      let fewer = match_numbers-IsRest (n - 1) s (behind c s h) in
      let group = match_numbers-IsRest 4 s (behind c s h) in
      if-IsRest (is_digit c && leb 1 n)
        (first_match (match_numbers (n - 1) s) (match_final (c ∷ s)))
        (if nat_eq c b';'
          then first_match (match_numbers 4 s) (match_final (c ∷ s))
          else match_final (c ∷ s))
        (first_match-IsRest _ _ fewer end)
        (if-IsRest (nat_eq c b';') _ _ (first_match-IsRest _ _ group end) end)

  match_parameters-IsRest : (s : Text) → Q s → IsRest (match_parameters s)
  unfolding match_parameters
  match_parameters-IsRest [] h = tt
  match_parameters-IsRest (c ∷ s) h =
      let end = match_final-IsRest (c ∷ s) h in
      let numbers = match_numbers-IsRest 3 s (behind c s h) in
      if-IsRest (is_digit c) _ _ (first_match-IsRest _ _ numbers end) end

  match_intermediates-IsRest : (s : Text) → Q s → IsRest (match_intermediates s)
  unfolding match_intermediates
  match_intermediates-IsRest [] h = tt
  match_intermediates-IsRest (c ∷ s) h =
      let end = match_parameters-IsRest (c ∷ s) h in
      let more = match_intermediates-IsRest s (behind c s h) in
      if-IsRest (is_intermediate c) _ _ (first_match-IsRest _ _ more end) end

  matched : (s : Text) (r : Text) → Q s → match_intermediates s ≡ some r → Q r
  matched s r h e = subst IsRest e (match_intermediates-IsRest s h)

strip_with-All : (P : ℕ → Type 0) (f : ℕ) (s : Text) → All P s → All P (strip_with f s)
unfolding strip_with
strip_with-All P zero s h = h
strip_with-All P (suc f) [] h = tt
strip_with-All P (suc f) (c ∷ s) (p, h) = elim (Bool-cases (is_escape c)) [
  | inl e ↦ rw e (elim (Option-cases (match_intermediates s)) [
    | inl n ↦ rw n (p, strip_with-All P f s h)
    | inr (r, m) ↦ rw m (strip_with-All P f r (matched (All P) (λ c s (p, h). h) s r h m))
  ])
  | inr e ↦ rw e (p, strip_with-All P f s h)
]

-- What holds of every unit of a text holds of every unit that is left.
pub strip_escape_codes-All : (P : ℕ → Type 0) (s : Text) → All P s → All P (strip_escape_codes s)
unfolding strip_escape_codes
strip_escape_codes-All P s h = strip_with-All P (suc (units s)) s h

matched-units : (s r : Text) → match_intermediates s ≡ some r → units r ≤ units s
unfolding units
matched-units s r m = matched (λ t. units t ≤ units s) (λ c t h. omega arith) s r (omega arith) m

strip_with-fuel : (f g : ℕ) (s : Text) → units s < f → units s < g → strip_with f s ≡ strip_with g s
unfolding strip_with units
strip_with-fuel zero g s h k = absurd (omega arith)
strip_with-fuel (suc f) zero s h k = absurd (omega arith)
strip_with-fuel (suc f) (suc g) [] h k = refl
strip_with-fuel (suc f) (suc g) (c ∷ s) h k =
    let rest = strip_with-fuel f g s (omega arith) (omega arith) in
    elim (Bool-cases (is_escape c)) [
      | inl e ↦ rw e (elim (Option-cases (match_intermediates s)) [
        | inl n ↦ rw n (ap (λ t. c ∷ t) rest)
        | inr (r, m) ↦ rw m (
            strip_with-fuel f g r (omega (arith, matched-units s r m))
              (omega (arith, matched-units s r m)))
      ])
      | inr e ↦ rw e (ap (λ t. c ∷ t) rest)
    ]

-- The search for escape codes ends: any number of rounds above the number of units gives the text
-- that is printed.
pub strip_escape_codes-rounds :
    (f : ℕ) (s : Text) → units s < f → strip_with f s ≡ strip_escape_codes s
unfolding strip_escape_codes
strip_escape_codes-rounds f s h = strip_with-fuel f (suc (units s)) s h (omega arith)

strip_with-plain : (f : ℕ) (s : Text) → All (λ c. is_escape c ≡ false) s → strip_with f s ≡ s
unfolding strip_with
strip_with-plain zero s h = refl
strip_with-plain (suc f) [] h = refl
strip_with-plain (suc f) (c ∷ s) (p, h) = ground (arith, strip_with-plain f s h)

-- A text without the units that start an escape code is kept.
pub strip_escape_codes-plain :
    (s : Text) → All (λ c. is_escape c ≡ false) s → strip_escape_codes s ≡ s
unfolding strip_escape_codes
strip_escape_codes-plain s h = strip_with-plain (suc (units s)) s h

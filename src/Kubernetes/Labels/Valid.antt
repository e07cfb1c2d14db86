-- ===== src/Kubernetes/Labels/Valid.antt =====
-- The label of an owner is a value that Kubernetes accepts.
use ui_for_docker.Prelude.{
  ℕ, zero, suc, ◌≤◌, ◌≡◌, refl, ap, true, false, ◌||◌, [], ◌∷◌, arith, Text, take, map, All, length,
  length-take_le, Bool-cases, inl, inr,
}
use ui_for_docker.Kubernetes.Labels.{
  is_alphanumeric, is_separator, replace_unit, strip_start, strip_last, strip_end, owner_to_label,
}

abbrev IsAllowed : ℕ → Type 0
IsAllowed c = (is_alphanumeric c || is_separator c) ≡ true

-- The first unit, if there is one, is a letter or a digit.
abbrev Starts : Text → Type 0
Starts [] = Unit {0}
Starts (c ∷ s) = is_alphanumeric c ≡ true

-- So is the last one.
abbrev Ends : Text → Type 0
Ends [] = Unit {0}
Ends (c ∷ []) = is_alphanumeric c ≡ true
Ends (c ∷ d ∷ s) = Ends (d ∷ s)

-- What Kubernetes asks of the value of a label: at most 63 letters, digits, `-`, `_` and `.`, and a
-- letter or digit at each end of a value that is not empty.
pub record IsLabelValue (s : Text) : Type 0 where
  pub is_short : length s ≤ 63
  pub is_allowed : All (λ c. (is_alphanumeric c || is_separator c) ≡ true) s
  pub starts : Starts s
  pub ends : Ends s

replace_unit-IsAllowed : (c : ℕ) → IsAllowed (replace_unit c)
unfolding replace_unit is_alphanumeric is_separator
replace_unit-IsAllowed c = ground arith

map-replace_unit-IsAllowed : (s : Text) → All IsAllowed (map replace_unit s)
map-replace_unit-IsAllowed [] = tt
map-replace_unit-IsAllowed (c ∷ s) = (replace_unit-IsAllowed c, map-replace_unit-IsAllowed s)

take-All : (n : ℕ) (s : Text) → All IsAllowed s → All IsAllowed (take n s)
take-All zero s h = tt
take-All (suc n) [] h = tt
take-All (suc n) (c ∷ s) (p, h) = (p, take-All n s h)

strip_start-IsAllowed :
    (s : Text) → All IsAllowed s → All IsAllowed (strip_start s) × Starts (strip_start s)
unfolding strip_start
strip_start-IsAllowed [] h = (tt, tt)
strip_start-IsAllowed (c ∷ s) (p, h) = elim (Bool-cases (is_separator c)) [
  | inl e ↦ rw e (strip_start-IsAllowed s h)
  | inr e ↦ rw e ((p, h), ground arith)
]

strip_start-length : (s : Text) → length (strip_start s) ≤ length s
unfolding strip_start
strip_start-length [] = omega arith
strip_start-length (c ∷ s) = ground (arith, strip_start-length s)

strip_last-lem :
    (c : ℕ) (s : Text)
    → IsAllowed c
    → All IsAllowed s
    → Ends s
    → All IsAllowed (strip_last c s) × Ends (strip_last c s)
unfolding strip_last
strip_last-lem c [] p h e = elim (Bool-cases (is_separator c)) [
  | inl k ↦ rw k (tt, tt)
  | inr k ↦ rw k ((p, tt), ground arith)
]
strip_last-lem c (d ∷ s) p h e = ((p, h), e)

strip_end-IsAllowed :
    (s : Text) → All IsAllowed s → All IsAllowed (strip_end s) × Ends (strip_end s)
unfolding strip_end
strip_end-IsAllowed [] h = (tt, tt)
strip_end-IsAllowed (c ∷ s) (p, h) =
    let (all, end) = strip_end-IsAllowed s h in strip_last-lem c (strip_end s) p all end

length-strip_last : (c : ℕ) (s : Text) → length (strip_last c s) ≤ suc (length s)
unfolding strip_last
length-strip_last c [] = ground arith
length-strip_last c (d ∷ s) = omega arith

strip_end-length : (s : Text) → length (strip_end s) ≤ length s
unfolding strip_end
strip_end-length [] = omega arith
strip_end-length (c ∷ s) = omega (arith, length-strip_last c (strip_end s), strip_end-length s)

alphanumeric-not_separator : (c : ℕ) → is_alphanumeric c ≡ true → is_separator c ≡ false
unfolding is_alphanumeric is_separator
alphanumeric-not_separator c h = ground arith

-- Only a separator disappears from in front of nothing.
strip_last-Starts : (c : ℕ) (s : Text) → is_alphanumeric c ≡ true → Starts (strip_last c s)
unfolding strip_last
strip_last-Starts c [] h = rw (alphanumeric-not_separator c h) h
strip_last-Starts c (d ∷ s) h = h

strip_end-Starts : (s : Text) → Starts s → Starts (strip_end s)
unfolding strip_end
strip_end-Starts [] h = tt
strip_end-Starts (c ∷ s) h = strip_last-Starts c (strip_end s) h

-- Whatever the name of the owner, the label is a value that Kubernetes accepts.
pub owner_to_label-IsLabelValue : (owner : Text) → IsLabelValue (owner_to_label owner)
unfolding owner_to_label
owner_to_label-IsLabelValue owner =
    let shortened = take 63 (map replace_unit owner) in
    let (all, start) =
      strip_start-IsAllowed shortened
        (take-All 63 (map replace_unit owner) (map-replace_unit-IsAllowed owner)) in
    let (all', end) = strip_end-IsAllowed (strip_start shortened) all in
    record {
      is_short = omega (
        arith,
        strip_end-length (strip_start shortened),
        strip_start-length shortened,
        length-take_le 63 (map replace_unit owner),
      );
      is_allowed = all';
      starts = strip_end-Starts (strip_start shortened) start;
      ends = end;
    }

map-replace_unit_id : (s : Text) → All IsAllowed s → map replace_unit s ≡ s
unfolding replace_unit
map-replace_unit_id [] h = refl
map-replace_unit_id (c ∷ s) (p, h) = rw p (ap (λ (l : Text). c ∷ l) (map-replace_unit_id s h))

take-short : (n : ℕ) (s : Text) → length s ≤ n → take n s ≡ s
take-short zero [] h = refl
take-short zero (c ∷ s) h = absurd (omega arith)
take-short (suc n) [] h = refl
take-short (suc n) (c ∷ s) h = ap (λ (l : Text). c ∷ l) (take-short n s (omega arith))

strip_start_id : (s : Text) → Starts s → strip_start s ≡ s
unfolding strip_start
strip_start_id [] h = refl
strip_start_id (c ∷ s) h = rw (alphanumeric-not_separator c h) refl

strip_end_id : (s : Text) → Ends s → strip_end s ≡ s
unfolding strip_end strip_last
strip_end_id [] h = refl
strip_end_id (c ∷ []) h = rw (alphanumeric-not_separator c h) refl
strip_end_id (c ∷ d ∷ s) h = rw (strip_end_id (d ∷ s) h) refl

-- A name that is such a value already is its own label.
pub owner_to_label_id : (owner : Text) → IsLabelValue owner → owner_to_label owner ≡ owner
unfolding owner_to_label
owner_to_label_id owner h =
    rw
      (
        map-replace_unit_id owner h.is_allowed,
        take-short 63 owner h.is_short,
        strip_start_id owner h.starts,
      )
      (strip_end_id owner h.ends)

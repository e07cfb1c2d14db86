-- ===== src/Docker/KeyValues/Constraints.antt =====
-- Placement constraints and preferences, printed and read back.
use ui_for_docker.Prelude.{
  ℕ, ◌≡◌, ◌≢◌, refl, ap, true, some, List, [], ◌∷◌, ◌++◌, arith, Text, codes, Lacks, All, cut_text,
  map, eq_list, eq_nat, list_eq, ◌⊎◌,
}
use ui_for_docker.Docker.KeyValues.{
  is_filled, Constraint, parse_constraint, at_equals, translate_key_value_to_placement_preferences,
  translate_preferences_to_key_value, is_spread,
}

-- A text of two units is found at the end of a text that lacks its first unit.
cut_text-append :
    (c d : ℕ) (s rest : Text)
    → Lacks c s
    → cut_text (c ∷ d ∷ []) (s ++ c ∷ d ∷ rest) ≡ some (s, rest)
unfolding cut_text
cut_text-append c d [] rest h = ground arith
cut_text-append c d (x ∷ s) rest (p, h) = ground (arith, cut_text-append c d s rest h)

-- A constraint as the form makes it: a key with no `=` and no `!`, and a value, which after `!=`
-- holds no `=`.
pub record IsPlain (constraint : Constraint) : Type 0 where
  pub key_filled : is_filled constraint.key ≡ true
  pub value_filled : is_filled constraint.value ≡ true
  pub key_lacks_equals : Lacks b'=' constraint.key
  pub key_lacks_bang : Lacks b'!' constraint.key
  pub is_operator :
      (constraint.operator ≡ codes "==")
      ⊎ ((constraint.operator ≡ codes "!=") × Lacks b'=' constraint.value)

equals_behind_not_equals :
    (key before behind : Text)
    → Lacks b'=' key
    → Lacks b'=' before
    → before ≢ []
    → cut_text (codes "==") (key ++ b'!' ∷ b'=' ∷ (before ++ b'=' ∷ b'=' ∷ behind))
      ≡ some (key ++ b'!' ∷ b'=' ∷ before, behind)
unfolding cut_text
equals_behind_not_equals [] [] behind h k ne = absurd (ne refl)
equals_behind_not_equals [] (x ∷ before) behind h (q, k) ne =
    ground (arith, cut_text-append b'=' b'=' before behind k)
equals_behind_not_equals (x ∷ key) before behind (p, h) k ne =
    ground (arith, equals_behind_not_equals key before behind h k ne)

-- A value behind `!=` that holds `==` is not read back: the text is cut at the `==`.
pub parse_constraint-inner_equals :
    (key before behind : Text)
    → Lacks b'=' key
    → Lacks b'=' before
    → before ≢ []
    → parse_constraint (key ++ b'!' ∷ b'=' ∷ (before ++ b'=' ∷ b'=' ∷ behind))
      ≡ record { key = key ++ b'!' ∷ b'=' ∷ before; operator = codes "=="; value = behind }
unfolding parse_constraint at_equals
parse_constraint-inner_equals key before behind h k ne =
    rw (equals_behind_not_equals key before behind h k ne) refl

-- The descriptors that are sent are those that the form shows, under the strategy `Spread`.
pub translate_preferences-round_trip :
    (descriptors : List Text)
    → All (λ descriptor. is_filled descriptor ≡ true) descriptors
    → translate_key_value_to_placement_preferences
        (translate_preferences_to_key_value (map some descriptors))
      ≡ descriptors
unfolding translate_key_value_to_placement_preferences translate_preferences_to_key_value is_spread
    list_eq
translate_preferences-round_trip [] h = refl
translate_preferences-round_trip (descriptor ∷ descriptors) (p, h) =
    rw p (ap (λ (l : List Text). descriptor ∷ l) (translate_preferences-round_trip descriptors h))

-- ===== src/Docker/KeyValues/Objects.antt =====
-- Labels and log driver options as objects and as lists of pairs.
use ui_for_docker.Prelude.{
  ◌≡◌, refl, sym, true, ◌&&◌, Option, none, some, List, [], ◌∷◌, ◌++◌, append_assoc, append-nil,
  arith, Text, All, if◌then◌else◌, eq_list, eq_nat, ◌==◌, map,
}
use ui_for_docker.Prelude.Dict.{
  Dict, lookup, insert, lookup-insert, insert-absent, HasDistinctKeys, HasDistinctKeys-absent,
}
use ui_for_docker.Docker.KeyValues.{
  is_filled, KeyValue, loaded, from_label_hash_to_key_value, from_key_value_to_label_hash,
  assign_labels, assign_options, translate_key_value_to_log_driver_opts,
}

abbrev IsFilled : Dict Text Text → Type 0
IsFilled = All (λ entry. is_filled entry.0 ≡ true)

assign_labels-loaded :
    (rest d : Dict Text Text)
    → HasDistinctKeys (d ++ rest)
    → IsFilled rest
    → assign_labels (map loaded rest) d ≡ d ++ rest
unfolding assign_labels loaded
assign_labels-loaded [] d h f = sym (append-nil d)
assign_labels-loaded ((k, v) ∷ rest) d h (p, f) = ground (
  arith,
  insert-absent k v d (HasDistinctKeys-absent d k v rest h),
  assign_labels-loaded rest (d ++ (k, v) ∷ []) (rw append_assoc h) f,
  append_assoc d ((k, v) ∷ []) rest,
)

-- The labels of an object are read back from the form, if their keys are distinct and not empty.
pub from_key_value_to_label_hash-load :
    (labels : Dict Text Text)
    → HasDistinctKeys labels
    → All (λ entry. is_filled entry.0 ≡ true) labels
    → from_key_value_to_label_hash (from_label_hash_to_key_value labels) ≡ labels
unfolding from_key_value_to_label_hash from_label_hash_to_key_value
from_key_value_to_label_hash-load labels h f = assign_labels-loaded labels [] h f

-- The value of the last pair of the form with the key `k`.
pub last_value : Text → List KeyValue → Option Text
last_value k [] = none
last_value k (label ∷ labels) = elim (last_value k labels) [
  | some value ↦ some value
  | none ↦ if is_filled label.key && label.key == k then some label.value else none
]

lookup-assign_labels :
    (k : Text) (labels : List KeyValue) (d : Dict Text Text)
    → lookup k (assign_labels labels d)
      ≡ (elim (last_value k labels) [ some value ↦ some value | none ↦ lookup k d ])
unfolding assign_labels last_value
lookup-assign_labels k [] d = refl
lookup-assign_labels k (label ∷ labels) d = ground (
  arith,
  lookup-assign_labels k labels d,
  lookup-assign_labels k labels (insert label.key label.value d),
  lookup-insert label.key k label.value d,
)

-- Whatever was edited in the form, a key of the object has the value of the last pair with that
-- key, a pair with an empty key counting for nothing, and no other key is there.
pub lookup-from_key_value_to_label_hash :
    (k : Text) (labels : List KeyValue)
    → lookup k (from_key_value_to_label_hash labels) ≡ last_value k labels
unfolding from_key_value_to_label_hash lookup
lookup-from_key_value_to_label_hash k labels = ground (arith, lookup-assign_labels k labels [])

assign_options-loaded :
    (rest d : Dict Text Text)
    → HasDistinctKeys (d ++ rest)
    → All (λ entry. (is_filled entry.0 ≡ true) × (is_filled entry.1 ≡ true)) rest
    → assign_options (map loaded rest) d ≡ d ++ rest
unfolding assign_options loaded
assign_options-loaded [] d h f = sym (append-nil d)
assign_options-loaded ((k, v) ∷ rest) d h ((p, q), f) = ground (
  arith,
  insert-absent k v d (HasDistinctKeys-absent d k v rest h),
  assign_options-loaded rest (d ++ (k, v) ∷ []) (rw append_assoc h) f,
  append_assoc d ((k, v) ∷ []) rest,
)

-- Log driver options are read back from the form, if their keys are distinct and no key and no
-- value is empty.
pub translate_key_value_to_log_driver_opts-load :
    (options : Dict Text Text)
    → HasDistinctKeys options
    → All (λ entry. (is_filled entry.0 ≡ true) × (is_filled entry.1 ≡ true)) options
    → translate_key_value_to_log_driver_opts (from_label_hash_to_key_value options) ≡ options
unfolding translate_key_value_to_log_driver_opts from_label_hash_to_key_value
translate_key_value_to_log_driver_opts-load options h f = assign_options-loaded options [] h f

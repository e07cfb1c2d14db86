-- ===== src/Kubernetes/FormValidation.antt =====
-- app/kubernetes/helpers/formValidationHelper.js. A name that is empty or undefined is the empty
-- text. A result is the object from the indices that are marked to what they are marked with.
pub mod Laws
use ui_for_docker.Prelude.{
  ℕ, ◌+◌, Bool, true, false, ◌&&◌, ◌||◌, Option, none, some, List, [], ◌∷◌, ◌++◌, leb, ltb, nat_eq,
  if◌then◌else◌, Text, length, eq_list, eq_nat, all,
}
use ui_for_docker.Prelude.Dict.{Dict, lookup, insert}

-- `/^[-._a-zA-Z0-9]+$/`
unfoldable pub is_valid_key : Text → Bool
is_valid_key [] = false
is_valid_key (c ∷ s) =
    all
      (λ c.
        nat_eq c b'-'
        || (nat_eq c b'.'
            || (nat_eq c b'_'
                || (leb b'a' c && leb c b'z'
                    || (leb b'A' c && leb c b'Z' || leb b'0' c && leb c b'9')))))
      (c ∷ s)

unfoldable pub invalid_from : ℕ → List Text → Dict ℕ Bool
invalid_from index [] = []
invalid_from index (name ∷ names) =
    let rest = invalid_from (index + 1) names in
    if is_valid_key name then rest else (index, true) ∷ rest

unfoldable pub get_invalid_keys : List Text → Dict ℕ Bool
unfolding invalid_from
get_invalid_keys names = invalid_from 0 names

unfoldable pub grouped : Option (List Text) → Text → List Text
grouped none name = name ∷ []
grouped (some names) name = names ++ name ∷ []

-- `_.groupBy(names)`
unfoldable pub group_by : List Text → Dict Text (List Text) → Dict Text (List Text)
unfolding grouped
group_by [] groups = groups
group_by (name ∷ names) groups =
    group_by names (insert name (grouped (lookup name groups) name) groups)

unfoldable pub group_size : Option (List Text) → ℕ
group_size none = 0
group_size (some names) = length names

unfoldable pub is_duplicate : Dict Text (List Text) → Text → Bool
unfolding group_size
is_duplicate groups [] = false
is_duplicate groups (c ∷ name) = ltb 1 (group_size (lookup (c ∷ name) groups))

unfoldable pub duplicates_from : Dict Text (List Text) → ℕ → List Text → Dict ℕ Text
duplicates_from groups index [] = []
duplicates_from groups index (name ∷ names) =
    let rest = duplicates_from groups (index + 1) names in
    if is_duplicate groups name then (index, name) ∷ rest else rest

unfoldable pub get_duplicates : List Text → Dict ℕ Text
unfolding duplicates_from
get_duplicates names = duplicates_from (group_by names []) 0 names

-- ===== src/Kubernetes/FormValidation/Laws.antt =====
-- Which names of a form are marked.
use ui_for_docker.Prelude.{
  ℕ, zero, suc, ◌+◌, ◌<◌, ◌≤◌, ◌≡◌, ◌≢◌, ◌↔◌, Option-cases, list_eq, refl, sym, ap, ◌∙◌, Bool, true,
  false, ◌&&◌, not, Option, none, some, List, [], ◌∷◌, ◌++◌, arith, ltb, if◌then◌else◌, Text,
  length-append, get_elem?, eq_list, eq_nat, ◌==◌, ==_iff, inl, inr,
}
use ui_for_docker.Prelude.Dict.{Dict, lookup, lookup-insert}
use ui_for_docker.Kubernetes.FormValidation.{
  is_valid_key, invalid_from, get_invalid_keys, grouped, group_by, group_size, is_duplicate,
  duplicates_from, get_duplicates,
}

-- How often a name occurs.
pub count : Text → List Text → ℕ
count name [] = 0
count name (n ∷ names) = if n == name then suc (count name names) else count name names

group_size-grouped :
    (o : Option (List Text)) (name : Text) → group_size (some (grouped o name)) ≡ suc (group_size o)
unfolding group_size grouped
group_size-grouped none name = refl
group_size-grouped (some names) name = omega (arith, length-append names (name ∷ []))

group_size-group_by :
    (name : Text) (names : List Text) (groups : Dict Text (List Text))
    → group_size (lookup name (group_by names groups))
      ≡ group_size (lookup name groups) + count name names
unfolding group_by count
group_size-group_by name [] groups = omega arith
group_size-group_by name (n ∷ names) groups =
    group_size-group_by name names _
    ∙ ground (
      arith,
      lookup-insert n name (grouped (lookup n groups) n) groups,
      group_size-grouped (lookup n groups) n,
      ==_iff n name,
    )

-- What the entry of a name is, by the name itself.
zero_plus : (i : ℕ) → 0 + i ≡ i
zero_plus i = omega arith

shift : (a i : ℕ) → a + 1 + i ≡ a + suc i
shift a i = omega arith

mark : (Text → Bool) → Option Text → Option Text
mark p none = none
mark p (some name) = if p name then some name else none

lookup-duplicates_from_before :
    (groups : Dict Text (List Text)) (index i : ℕ) (names : List Text)
    → i < index
    → lookup i (duplicates_from groups index names) ≡ none
unfolding duplicates_from lookup
lookup-duplicates_from_before groups index i [] h = refl
lookup-duplicates_from_before groups index i (name ∷ names) h =
    ground (arith, lookup-duplicates_from_before groups (index + 1) i names)

lookup-duplicates_from :
    (groups : Dict Text (List Text)) (index i : ℕ) (names : List Text)
    → lookup (index + i) (duplicates_from groups index names)
      ≡ mark (is_duplicate groups) (get_elem? names i)
unfolding duplicates_from lookup mark
lookup-duplicates_from groups index i [] = refl
lookup-duplicates_from groups index zero (name ∷ names) =
    ground (arith, lookup-duplicates_from_before groups (index + 1) index names)
lookup-duplicates_from groups index (suc i) (name ∷ names) =
    ground (arith, lookup-duplicates_from groups (index + 1) i names, shift index i)

group_size-groups :
    (name : Text) (names : List Text)
    → group_size (lookup name (group_by names [])) ≡ count name names
unfolding lookup group_size
group_size-groups name names = group_size-group_by name names [] ∙ zero_plus (count name names)

is_duplicate-count :
    (names : List Text) (name : Text)
    → is_duplicate (group_by names []) name ≡ (not (name == []) && ltb 1 (count name names))
unfolding is_duplicate list_eq
is_duplicate-count names [] = refl
is_duplicate-count names (c ∷ name) = ap (λ n. ltb 1 n) (group_size-groups (c ∷ name) names)

-- An index is marked exactly if a name that is not empty stands there and occurs at least twice
-- among the names; it is marked with that name.
pub lookup-get_duplicates :
    (names : List Text) (i : ℕ) (name : Text)
    → (lookup i (get_duplicates names) ≡ some name)
      ↔ ((get_elem? names i ≡ some name) × (name ≢ []) × (2 ≤ count name names))
unfolding get_duplicates mark
lookup-get_duplicates names i name = elim (Option-cases (get_elem? names i)) [
  | inl e ↦ ground (arith, e, zero_plus i, lookup-duplicates_from (group_by names []) 0 i names)
  | inr (n, e) ↦ ground (
    arith,
    e,
    zero_plus i,
    lookup-duplicates_from (group_by names []) 0 i names,
    is_duplicate-count names n,
    ==_iff n [],
  )
]

lookup-invalid_from_before :
    (index i : ℕ) (names : List Text) → i < index → lookup i (invalid_from index names) ≡ none
unfolding invalid_from lookup
lookup-invalid_from_before index i [] h = refl
lookup-invalid_from_before index i (name ∷ names) h =
    ground (arith, lookup-invalid_from_before (index + 1) i names)

invalid_mark : Option Text → Option Bool
invalid_mark none = none
invalid_mark (some name) = if is_valid_key name then none else some true

lookup-invalid_from :
    (index i : ℕ) (names : List Text)
    → lookup (index + i) (invalid_from index names) ≡ invalid_mark (get_elem? names i)
unfolding invalid_from lookup invalid_mark
lookup-invalid_from index i [] = refl
lookup-invalid_from index zero (name ∷ names) =
    ground (arith, lookup-invalid_from_before (index + 1) index names)
lookup-invalid_from index (suc i) (name ∷ names) =
    ground (arith, lookup-invalid_from (index + 1) i names, shift index i)

-- An index is marked exactly if the name that stands there is no valid key.
pub lookup-get_invalid_keys :
    (names : List Text) (i : ℕ) (name : Text)
    → get_elem? names i ≡ some name
    → (lookup i (get_invalid_keys names) ≡ some true) ↔ (is_valid_key name ≡ false)
unfolding get_invalid_keys invalid_mark
lookup-get_invalid_keys names i name e = ground (arith, zero_plus i, lookup-invalid_from 0 i names)

count-append_empty :
    (c : ℕ) (s : Text) (names : List Text) → count (c ∷ s) (names ++ [] ∷ []) ≡ count (c ∷ s) names
unfolding count list_eq
count-append_empty c s [] = refl
count-append_empty c s (name ∷ names) = ground (arith, count-append_empty c s names)

is_duplicate-append_empty :
    (names : List Text) (name : Text)
    → is_duplicate (group_by (names ++ [] ∷ []) []) name ≡ is_duplicate (group_by names []) name
unfolding is_duplicate
is_duplicate-append_empty names [] = refl
is_duplicate-append_empty names (c ∷ s) = ap (ltb 1) (
    group_size-groups (c ∷ s) (names ++ [] ∷ [])
    ∙ count-append_empty c s names
    ∙ sym (group_size-groups (c ∷ s) names))

duplicates_from-append_empty :
    (g h : Dict Text (List Text)) (i : ℕ) (names : List Text)
    → ((name : Text) → is_duplicate g name ≡ is_duplicate h name)
    → duplicates_from g i (names ++ [] ∷ []) ≡ duplicates_from h i names
unfolding duplicates_from is_duplicate
duplicates_from-append_empty g h i [] same = refl
duplicates_from-append_empty g h i (name ∷ names) same =
    rw (same name, duplicates_from-append_empty g h (i + 1) names same) refl

-- A name that is empty is never marked, nor does it change what is.
pub get_duplicates-append_empty :
    (names : List Text) → get_duplicates (names ++ [] ∷ []) ≡ get_duplicates names
unfolding get_duplicates
get_duplicates-append_empty names =
    duplicates_from-append_empty (group_by (names ++ [] ∷ []) []) (group_by names []) 0 names
      (is_duplicate-append_empty names)

-- What an index is marked with, by the name that stands there.
pub lookup-get_duplicates_at :
    (names : List Text) (i : ℕ) (name : Text)
    → get_elem? names i ≡ some name
    → lookup i (get_duplicates names)
      ≡ (if not (name == []) && ltb 1 (count name names) then some name else none)
unfolding get_duplicates mark
lookup-get_duplicates_at names i name e =
    ap (λ j. lookup j (get_duplicates names)) (sym (zero_plus i))
    ∙ lookup-duplicates_from (group_by names []) 0 i names
    ∙ ap (mark (is_duplicate (group_by names []))) e
    ∙ ap (λ b. if b then some name else none) (is_duplicate-count names name)

-- ===== src/Kubernetes/Applications/Configurations/Overriding.antt =====
-- Where reading a configuration that is overridden throws.
use ui_for_docker.Prelude.{
  ℕ, zero, suc, ◌-◌, ◌≡◌, refl, Bool, ◌||◌, List, [], ◌∷◌, length, get_elem?, all, is_some, arith,
  ltb, leb,
}
use ui_for_docker.Kubernetes.Applications.Configurations.{
  KeyCount, count_of, overriden_key, with_first, overriden_keys_at,
}

get_elem?-is_some :
    {A : Type 0} (xs : List A) (i : ℕ) → is_some (get_elem? xs i) ≡ ltb i (length xs)
get_elem?-is_some [] i = ground arith
get_elem?-is_some (x ∷ xs) zero = ground arith
get_elem?-is_some (x ∷ xs) (suc i) = ground (arith, get_elem?-is_some xs i)

-- A key that is in no volume and no environment, or in more of them than the index.
unfoldable pub is_readable : ℕ → KeyCount → Bool
unfolding count_of
is_readable index k = leb (count_of k) 0 || ltb index (count_of k)

overriden_key-is_some :
    (index : ℕ) (k : KeyCount) → is_some (overriden_key index k) ≡ is_readable index k
unfolding overriden_key is_readable count_of
overriden_key-is_some index k = ground (arith, get_elem?-is_some k.paths (index - k.env_count))

-- The keys of an overridden configuration are read without an error exactly if each of them is used
-- nowhere or more often than the index of the form value.
pub overriden_keys_at-is_some :
    (index : ℕ) (keys : List KeyCount)
    → is_some (overriden_keys_at index keys) ≡ all (is_readable index) keys
unfolding overriden_keys_at with_first all
overriden_keys_at-is_some index [] = refl
overriden_keys_at-is_some index (k ∷ keys) =
    ground (arith, overriden_key-is_some index k, overriden_keys_at-is_some index keys)

-- ===== src/Kubernetes/Applications/Configurations/Counts.antt =====
-- How often the keys of a configuration are counted in its own environment.
use mathlib.Core.Path.{subst, ap₂}
use ui_for_docker.Prelude.{
  ◌≡◌, refl, String, true, some, List, [], ◌∷◌, ◌++◌, map, keep, length, if◌then◌else◌, ◌==◌,
  ==_iff, ==_self, eq_string, arith, append_assoc, includes, includes-append, IsUnique, All,
}
use ui_for_docker.Kubernetes.Applications.Environment.{EnvEntry}
use ui_for_docker.Kubernetes.Applications.Configurations.{
  Configuration, KeyCount, env_of_key, count_key, count_of, vol_count, max_of, not_overriden,
  form_value_at, form_values_from, form_values_of, with_first,
}

-- The environment of a configuration
unfoldable pub env_of : Configuration → List EnvEntry
env_of c = map (env_of_key c) c.keys

-- What is counted of a key: one entry of the environment.
unfoldable pub once : String → KeyCount
once key = record { key = key; env_count = 1; paths = [] }

count-env_of_keys :
    (c : Configuration) (keys : List String) (key : String)
    → IsUnique keys
    → length (keep (λ item. item.name == key) (map (env_of_key c) keys))
      ≡ (if includes keys key then 1 else 0)
unfolding keep env_of_key includes
count-env_of_keys c [] key h = refl
count-env_of_keys c (other ∷ keys) key (p, h) =
    ground (arith, count-env_of_keys c keys key h, ==_iff other key)

count_key-included :
    (c : Configuration) (key : String)
    → IsUnique c.keys
    → includes c.keys key ≡ true
    → count_key (env_of c) [] key ≡ once key
unfolding count_key env_of once
count_key-included c key h i = ground (arith, count-env_of_keys c c.keys key h, i)

pub map-count_key :
    (c : Configuration) (keys : List String)
    → IsUnique c.keys
    → All (λ key. includes c.keys key ≡ true) keys
    → map (count_key (env_of c) []) keys ≡ map once keys
map-count_key c [] h i = refl
map-count_key c (key ∷ keys) h (p, i) =
    ap₂ (λ k ks. k ∷ ks) (count_key-included c key h p) (map-count_key c keys h i)

includes-head : (key : String) (keys : List String) → includes (key ∷ keys) key ≡ true
unfolding includes
includes-head key keys = ground (arith, ==_self key)

pub includes-All :
    (before keys : List String) → All (λ key. includes (before ++ keys) key ≡ true) keys
includes-All before [] = tt
includes-All before (key ∷ keys) = (
  ground (arith, includes-append before (key ∷ keys) key, includes-head key keys),
  subst (λ all. All (λ k. includes all k ≡ true) keys) (append_assoc before (key ∷ []) keys)
      (includes-All (before ++ key ∷ []) keys),
)

max_of-once :
    (key : String) (keys : List String) → max_of (map count_of (map once (key ∷ keys))) ≡ 1
unfolding max_of count_of once
max_of-once key [] = refl
max_of-once key (next ∷ keys) = ground (arith, max_of-once next keys)

max_of-no_volume : (keys : List String) → max_of (map vol_count (map once keys)) ≡ 0
unfolding max_of vol_count once
max_of-no_volume [] = refl
max_of-no_volume (key ∷ keys) = ground (arith, max_of-no_volume keys)

pub form_values_of-once :
    (c : Configuration) (key : String) (keys : List String)
    → form_values_of c (map once (key ∷ keys)) ≡ some (not_overriden c ∷ [])
unfolding form_values_of form_values_from form_value_at with_first
form_values_of-once c key keys = rw (max_of-once key keys, max_of-no_volume (key ∷ keys)) refl

-- ===== src/Kubernetes/Applications/Configurations/Environment.antt =====
-- Configurations that an application uses as environment variables only.
use mathlib.Core.Path.{subst, ap₂}
use ui_for_docker.Prelude.{
  ℕ, ◌+◌, ◌≡◌, refl, sym, ap, ◌∙◌, String, Bool, true, false, ◌&&◌, Option, none, some, List, [],
  ◌∷◌, ◌++◌, map, keep, any, keep-append, length, leb, if◌then◌else◌, ◌==◌, ==_iff, ==_self,
  eq_string, Bool-cases, inl, inr, arith, append_assoc, append-nil, IsUnique, All,
}
use ui_for_docker.Kubernetes.Applications.Environment.{EnvEntry}
use ui_for_docker.Kubernetes.Applications.Configurations.Counts.{
  env_of, once, map-count_key, includes-All, form_values_of-once,
}
use ui_for_docker.Kubernetes.Applications.Configurations.{
  Configuration, ConfigurationType, config_map, secret, ConfigurationFormValue, Written, env_of_key,
  reference, add_configuration, generate_env_or_volumes_from_configurations, refers_to, count_key,
  not_overriden, form_values_of, read_configuration, joined,
  generate_configuration_form_values_from_env_and_volumes,
}

abbrev same_type : ConfigurationType → ConfigurationType → Bool
same_type config_map config_map = true
same_type config_map secret = false
same_type secret config_map = false
same_type secret secret = true

-- Configurations of one type and one name
unfoldable pub is_same : Configuration → Configuration → Bool
is_same c d = same_type c.kind d.kind && c.name == d.name

-- No two have the type and the name in common.
abbrev pub IsDistinct : List Configuration → Type 0
IsDistinct [] = Unit {0}
IsDistinct (c ∷ cs) = (any (is_same c) cs ≡ false) × IsDistinct cs

-- The environment of configurations
envs_of : List Configuration → List EnvEntry
envs_of [] = []
envs_of (c ∷ cs) = env_of c ++ envs_of cs

env-generate :
    (volume_name : ℕ → String) (cs : List Configuration) (w : Written)
    → (generate_env_or_volumes_from_configurations volume_name (map not_overriden cs) w).env
      ≡ w.env ++ envs_of cs
unfolding generate_env_or_volumes_from_configurations add_configuration not_overriden envs_of env_of
env-generate volume_name [] w = sym (append-nil w.env)
env-generate volume_name (c ∷ cs) w =
    env-generate volume_name cs (record w { env = w.env ++ env_of c })
    ∙ append_assoc w.env (env_of c) (envs_of cs)

refers_to-env_of_key :
    (c d : Configuration) (key : String) → refers_to c (env_of_key d key) ≡ is_same d c
unfolding refers_to env_of_key reference is_same
refers_to-env_of_key c d key = ground arith

is_same-sym : (c d : Configuration) → is_same c d ≡ is_same d c
unfolding is_same
is_same-sym c d = ground (arith, ==_iff c.name d.name, ==_iff d.name c.name)

is_same_self : (c : Configuration) → is_same c c ≡ true
unfolding is_same
is_same_self c = ground (arith, ==_self c.name)

keep-env_of_keys :
    (c d : Configuration) (keys : List String)
    → keep (refers_to c) (map (env_of_key d) keys)
      ≡ (if is_same d c then map (env_of_key d) keys else [])
unfolding keep
keep-env_of_keys c d [] = ground arith
keep-env_of_keys c d (key ∷ keys) =
    ground (arith, keep-env_of_keys c d keys, refers_to-env_of_key c d key)

keep-env_of :
    (c d : Configuration) (b : Bool)
    → is_same d c ≡ b
    → keep (refers_to c) (env_of d) ≡ (if b then env_of d else [])
unfolding env_of
keep-env_of c d b e =
    keep-env_of_keys c d d.keys ∙ ap (λ x. if x then map (env_of_key d) d.keys else []) e

keep-envs_other :
    (c : Configuration) (cs : List Configuration)
    → All (λ d. is_same d c ≡ false) cs
    → keep (refers_to c) (envs_of cs) ≡ []
unfolding envs_of keep
keep-envs_other c [] h = refl
keep-envs_other c (d ∷ cs) (p, h) =
    keep-append (refers_to c) (env_of d) (envs_of cs)
    ∙ ap₂ ◌++◌ (keep-env_of c d false p) (keep-envs_other c cs h)

any-middle :
    (p : Configuration → Bool) (before : List Configuration) (c : Configuration)
    (after : List Configuration)
    → any p (before ++ c ∷ after) ≡ false
    → p c ≡ false
unfolding any
any-middle p [] c after h = ground arith
any-middle p (b ∷ before) c after h = any-middle p before c after (ground arith)

any-others :
    (used : Configuration → Bool) (c : Configuration) (cs : List Configuration)
    → any (is_same c) cs ≡ false
    → All (λ d. is_same d c ≡ false) (keep used cs)
unfolding any keep
any-others used c [] h = tt
any-others used c (d ∷ cs) h =
    let rest = any-others used c cs (ground arith) in
    elim (Bool-cases (used d)) [
      | inl u ↦ rw u (ground (arith, is_same-sym d c), rest)
      | inr u ↦ rw u rest
    ]

env_of_used : (Configuration → Bool) → Configuration → List EnvEntry
env_of_used used c = if used c then env_of c else []

keep-envs_of :
    (used : Configuration → Bool) (before : List Configuration) (c : Configuration)
    (after : List Configuration)
    → IsDistinct (before ++ c ∷ after)
    → keep (refers_to c) (envs_of (keep used (before ++ c ∷ after))) ≡ env_of_used used c
unfolding keep envs_of env_of_used
keep-envs_of used [] c after (p, h) =
    let others = keep-envs_other c (keep used after) (any-others used c after p) in
    elim (Bool-cases (used c)) [
      | inl u ↦
          rw (keep, u)
            (keep-append (refers_to c) (env_of c) (envs_of (keep used after))
              ∙ ap₂ ◌++◌ (keep-env_of c c true (is_same_self c)) others
              ∙ append-nil (env_of c))
      | inr u ↦ rw (keep, u) others
    ]
keep-envs_of used (b ∷ before) c after (p, h) =
    let rest = keep-envs_of used before c after h in
    elim (Bool-cases (used b)) [
      | inl u ↦ rw u (
          keep-append (refers_to c) (env_of b) (envs_of (keep used (before ++ c ∷ after)))
          ∙ ap₂ ◌++◌ (keep-env_of c b false (any-middle (is_same b) before c after p)) rest)
      | inr u ↦ rw u rest
    ]

read_own : Configuration → List EnvEntry → Option (List ConfigurationFormValue)
read_own c own =
    if leb (length own + 0) 0 then some [] else form_values_of c (map (count_key own []) c.keys)

read_own-some :
    (c : Configuration) (values : Option (List ConfigurationFormValue)) (key : String)
    (keys : List String)
    → c.keys ≡ key ∷ keys
    → (if leb (length (env_of c) + 0) 0 then some [] else values) ≡ values
unfolding env_of
read_own-some c values key keys k = rw k (ground arith)

read-used :
    (env : List EnvEntry) (c : Configuration) (key : String) (keys : List String)
    → keep (refers_to c) env ≡ env_of c
    → c.keys ≡ key ∷ keys
    → IsUnique c.keys
    → read_configuration env [] c ≡ some (not_overriden c ∷ [])
unfolding read_configuration keep read_own
read-used env c key keys e k u =
    ap (read_own c) e
    ∙ read_own-some c (form_values_of c (map (count_key (env_of c) []) c.keys)) key keys k
    ∙ ap (form_values_of c) (map-count_key c c.keys u (includes-All [] c.keys))
    ∙ ap (λ all. form_values_of c (map once all)) k
    ∙ form_values_of-once c key keys

read-unused :
    (env : List EnvEntry) (c : Configuration)
    → keep (refers_to c) env ≡ []
    → read_configuration env [] c ≡ some []
unfolding read_configuration keep
read-unused env c e = rw e refl

-- A configuration of the list that is used, or that is not
read-envs_of :
    (used : Configuration → Bool) (env : List EnvEntry) (c : Configuration) (key : String)
    (keys : List String) (b : Bool)
    → used c ≡ b
    → keep (refers_to c) env ≡ (if b then env_of c else [])
    → c.keys ≡ key ∷ keys
    → IsUnique c.keys
    → read_configuration env [] c ≡ some (map not_overriden (if b then c ∷ [] else []))
read-envs_of used env c key keys true e r k u = read-used env c key keys r k u
read-envs_of used env c key keys false e r k u = read-unused env c r

-- A configuration with data whose keys are distinct
abbrev pub HasKeys : Configuration → Type 0
HasKeys c = ((key : String) × (keys : List String) × (c.keys ≡ key ∷ keys)) × IsUnique c.keys

joined-keep :
    (used : Configuration → Bool) (c : Configuration) (cs : List Configuration)
    → joined
        (some (map not_overriden (if used c then c ∷ [] else [])))
        (some (map not_overriden (keep used cs)))
      ≡ some (map not_overriden (keep used (c ∷ cs)))
unfolding joined keep
joined-keep used c cs = ground arith

generate-after :
    (used : Configuration → Bool) (before cs : List Configuration)
    → IsDistinct (before ++ cs)
    → All HasKeys cs
    → generate_configuration_form_values_from_env_and_volumes
        (envs_of (keep used (before ++ cs)))
        []
        cs
      ≡ some (map not_overriden (keep used cs))
unfolding generate_configuration_form_values_from_env_and_volumes keep env_of_used
generate-after used before [] h d = refl
generate-after used before (c ∷ cs) h (((key, keys, k), u), d) =
    let env = envs_of (keep used (before ++ c ∷ cs)) in
    ap₂ joined
      (read-envs_of used env c key keys (used c) refl (keep-envs_of used before c cs h) k u)
      (subst
        (λ all.
          generate_configuration_form_values_from_env_and_volumes (envs_of (keep used all)) [] cs
          ≡ some (map not_overriden (keep used cs)))
        (append_assoc before (c ∷ []) cs)
        (generate-after used (before ++ c ∷ []) cs
          (subst IsDistinct (sym (append_assoc before (c ∷ []) cs)) h) d))
    ∙ joined-keep used c cs

read_configuration-own :
    (env : List EnvEntry) (c : Configuration)
    → read_configuration env [] c ≡ read_own c (keep (refers_to c) env)
unfolding read_configuration keep read_own
read_configuration-own env c = refl

generate-same :
    (env other : List EnvEntry) (cs : List Configuration)
    → ((c : Configuration) → keep (refers_to c) env ≡ keep (refers_to c) other)
    → generate_configuration_form_values_from_env_and_volumes env [] cs
      ≡ generate_configuration_form_values_from_env_and_volumes other [] cs
unfolding generate_configuration_form_values_from_env_and_volumes
generate-same env other [] h = refl
generate-same env other (c ∷ cs) h =
    ap₂ joined
      (read_configuration-own env c ∙ ap (read_own c) (h c) ∙ sym (read_configuration-own other c))
      (generate-same env other cs h)

keep-variables :
    (c : Configuration) (env : List EnvEntry)
    → All (λ item. item.value_from ≡ none) env
    → keep (refers_to c) env ≡ []
unfolding keep refers_to
keep-variables c [] h = refl
keep-variables c (item ∷ env) (p, h) = rw (refers_to, p) (keep-variables c env h)

-- The form of an application whose environment was written for some of the configurations of its
-- namespace, none overridden, has exactly these, if no two configurations have type and name in
-- common and each has data with distinct keys; its own variables do not matter.
pub env_and_volumes-generate :
    (volume_name : ℕ → String) (used : Configuration → Bool) (cs : List Configuration) (w : Written)
    → IsDistinct cs
    → All HasKeys cs
    → All (λ item. item.value_from ≡ none) w.env
    → generate_configuration_form_values_from_env_and_volumes
        (generate_env_or_volumes_from_configurations volume_name
          (map not_overriden (keep used cs))
          w).env
        []
        cs
      ≡ some (map not_overriden (keep used cs))
env_and_volumes-generate volume_name used cs w h d v =
    let env = envs_of (keep used cs) in
    ap (λ all. generate_configuration_form_values_from_env_and_volumes all [] cs)
      (env-generate volume_name (keep used cs) w)
    ∙ generate-same (w.env ++ env) env cs (λ c.
      keep-append (refers_to c) w.env env
      ∙ ap (λ own. own ++ keep (refers_to c) env) (keep-variables c w.env v))
    ∙ generate-after used [] cs h d

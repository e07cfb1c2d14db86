-- ===== src/Kubernetes/Applications/Environment/RoundTrip.antt =====
-- The form's environment variables and the container's, there and back.
use ui_for_docker.Prelude.{
  ◌≡◌, refl, sym, ap, Bool, false, not, Option, none, some, List, [], ◌∷◌, map, keep, arith,
}
use ui_for_docker.Kubernetes.Applications.Environment.{
  EnvVariable, EnvEntry, ValueFrom, is_kept, env_payload, generate_env_from_env_variables,
  env_variable, has_value_from, generate_env_variables_from_env,
}

-- A variable as it is read back: neither new nor secret.
pub stored : EnvVariable → EnvVariable
stored item = record {
  name = item.name;
  value = item.value;
  is_secret = false;
  needs_deletion = false;
  is_new = false;
  name_index = item.name;
}

pub is_plain : EnvEntry → Bool
unfolding has_value_from
is_plain item = not (has_value_from item.value_from)

variables-entries :
    (variables : List EnvVariable)
    → generate_env_variables_from_env (map env_payload (keep is_kept variables))
      ≡ map stored (keep is_kept variables)
unfolding generate_env_variables_from_env has_value_from env_payload env_variable stored is_kept
    keep
variables-entries [] = refl
variables-entries (item ∷ variables) = ground (arith, variables-entries variables)

no_value_from : (o : Option ValueFrom) → has_value_from o ≡ false → o ≡ none
unfolding has_value_from
no_value_from none h = refl
no_value_from (some from) h = cc

plain_entry :
    (item : EnvEntry)
    → has_value_from item.value_from ≡ false
    → env_payload (env_variable item) ≡ item
unfolding env_payload env_variable
plain_entry item h =
    ap (λ from. record { name = item.name; value = item.value; value_from = from })
      (sym (no_value_from item.value_from h))

entries-variables :
    (env : List EnvEntry)
    → map env_payload (keep is_kept (generate_env_variables_from_env env)) ≡ keep is_plain env
unfolding generate_env_variables_from_env is_kept keep is_plain env_variable
entries-variables [] = refl
entries-variables (item ∷ env) = ground (arith, entries-variables env, plain_entry item)

-- Variables that are written to a container and read back are those that the form does not
-- delete, in their order, with their names and values, no longer new or secret. The entries of a
-- container that are read into a form and written again are those without a `valueFrom`,
-- unchanged and in their order.
pub generate_env-round_trip :
    ((variables : List EnvVariable)
      → generate_env_variables_from_env (generate_env_from_env_variables variables)
        ≡ map stored (keep is_kept variables))
    × ((env : List EnvEntry)
        → generate_env_from_env_variables (generate_env_variables_from_env env) ≡ keep is_plain env)
unfolding generate_env_from_env_variables
generate_env-round_trip = (variables-entries, entries-variables)

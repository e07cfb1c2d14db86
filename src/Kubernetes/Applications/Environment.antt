-- ===== src/Kubernetes/Applications/Environment.antt =====
-- Environment variables of a form and of a container
-- (app/kubernetes/helpers/application/index.js). A value that is undefined is none.
pub mod RoundTrip
use ui_for_docker.Prelude.{
  String, Bool, true, false, not, Option, none, some, List, [], ◌∷◌, map, keep, if◌then◌else◌,
}

-- KubernetesApplicationEnvironmentVariableFormValue
pub record EnvVariable : Type 0 where
  pub name : String
  pub value : Option String
  pub is_secret : Bool
  pub needs_deletion : Bool
  pub is_new : Bool
  pub name_index : String

-- `valueFrom`, with the name of the configuration and the key in it
pub data ValueFrom : Type 0 where
  config_map_key_ref : String → String → ValueFrom
  secret_key_ref : String → String → ValueFrom

-- What the code reads and writes of an entry of `env`.
pub record EnvEntry : Type 0 where
  pub name : String
  pub value : Option String
  pub value_from : Option ValueFrom

unfoldable pub is_kept : EnvVariable → Bool
is_kept item = not item.needs_deletion

unfoldable pub env_payload : EnvVariable → EnvEntry
env_payload item = record { name = item.name; value = item.value; value_from = none }

unfoldable pub generate_env_from_env_variables : List EnvVariable → List EnvEntry
unfolding is_kept env_payload
generate_env_from_env_variables variables = map env_payload (keep is_kept variables)

unfoldable pub env_variable : EnvEntry → EnvVariable
env_variable item = record {
  name = item.name;
  value = item.value;
  is_secret = false;
  needs_deletion = false;
  is_new = false;
  name_index = item.name;
}

unfoldable pub has_value_from : Option ValueFrom → Bool
has_value_from none = false
has_value_from (some from) = true

-- `_.map`, with undefined for an entry that has a `valueFrom`, and `_.without(…, undefined)`
unfoldable pub generate_env_variables_from_env : List EnvEntry → List EnvVariable
unfolding has_value_from env_variable
generate_env_variables_from_env [] = []
generate_env_variables_from_env (item ∷ env) =
    let rest = generate_env_variables_from_env env in
    if has_value_from item.value_from then rest else env_variable item ∷ rest

-- ===== src/Kubernetes/Applications/Configurations.antt =====
-- Configurations of an application as its environment and volumes, in both directions
-- (app/kubernetes/helpers/application/index.js, app/kubernetes/converters/application.js). The names
-- that are made for volumes hold a third party's UUID: the n-th of them is an argument.
pub mod Counts
pub mod Environment
pub mod Overriding
use ui_for_docker.Prelude.{
  ℕ, suc, zero, ◌+◌, ◌-◌, max, String, Bool, true, false, not, ◌&&◌, Option, none, some, List, [],
  ◌∷◌, ◌++◌, map, keep, length, get_elem?, ltb, leb, if◌then◌else◌, ◌==◌, eq_string, find,
}
use ui_for_docker.Prelude.Dict.{Dict, lookup, insert}
use ui_for_docker.Kubernetes.Applications.Environment.{
  EnvEntry, ValueFrom, config_map_key_ref, secret_key_ref,
}

pub data ConfigurationType : Type 0 where
  config_map secret : ConfigurationType

-- KubernetesConfiguration, with the keys of its Data
pub record Configuration : Type 0 where
  pub name : String
  pub kind : ConfigurationType
  pub keys : List String

pub data KeyType : Type 0 where
  no_type environment filesystem : KeyType

pub record OverridenKey : Type 0 where
  pub key : String
  pub path : String
  pub kind : KeyType

pub record ConfigurationFormValue : Type 0 where
  pub selected : Configuration
  pub overriden : Bool
  pub overriden_keys : List OverridenKey

-- A volume of a configuration, with the keys of its items, if they are given, and a mount.
pub record Volume : Type 0 where
  pub name : String
  pub kind : ConfigurationType
  pub configuration_name : String
  pub items : Option (List String)

pub record Mount : Type 0 where
  pub name : String
  pub mount_path : String

-- KubernetesApplicationConfigurationVolume; its file path is not read again.
pub record ConfigurationVolume : Type 0 where
  pub root_mount_path : String
  pub configuration_key : String
  pub configuration_name : String

-- What is written: how many names of volumes were made, and the lists.
pub record Written : Type 0 where
  pub made : ℕ
  pub env : List EnvEntry
  pub volumes : List Volume
  pub mounts : List Mount

unfoldable pub reference : ConfigurationType → String → String → ValueFrom
reference config_map name key = config_map_key_ref name key
reference secret name key = secret_key_ref name key

unfoldable pub env_of_key : Configuration → String → EnvEntry
unfolding reference
env_of_key configuration key = record {
  name = key;
  value = none;
  value_from = some (reference configuration.kind configuration.name key);
}

unfoldable pub is_environment : OverridenKey → Bool
is_environment item = elim item.kind [ no_type ↦ false | environment ↦ true | filesystem ↦ false ]

unfoldable pub is_filesystem : OverridenKey → Bool
is_filesystem item = elim item.kind [ no_type ↦ false | environment ↦ false | filesystem ↦ true ]

unfoldable pub grouped : Option (List String) → String → List String
grouped none key = key ∷ []
grouped (some keys) key = keys ++ key ∷ []

-- `_.groupBy(volKeys, 'Path')`, with the keys of each group
unfoldable pub group_by_path :
    List OverridenKey → Dict String (List String) → Dict String (List String)
unfolding grouped lookup insert
group_by_path [] groups = groups
group_by_path (item ∷ items) groups =
    group_by_path items (insert item.path (grouped (lookup item.path groups) item.key) groups)

unfoldable pub add_groups :
    (ℕ → String) → Configuration → Dict String (List String) → Written → Written
add_groups volume_name configuration [] w = w
add_groups volume_name configuration ((path, keys) ∷ groups) w =
    let name = volume_name w.made in
    add_groups volume_name configuration groups (record w {
      made = suc w.made;
      volumes =
          w.volumes
          ++ record {
            name = name;
            kind = configuration.kind;
            configuration_name = configuration.name;
            items = some keys;
          }
            ∷ [];
      mounts = w.mounts ++ record { name = name; mount_path = path } ∷ [];
    })

unfoldable pub key_name : OverridenKey → String
key_name item = item.key

unfoldable pub add_configuration : (ℕ → String) → ConfigurationFormValue → Written → Written
unfolding env_of_key is_environment is_filesystem group_by_path add_groups key_name keep
add_configuration volume_name config w =
    let keys = config.overriden_keys in
    if config.overriden
    then add_groups volume_name config.selected (group_by_path (keep is_filesystem keys) [])
        (record w {
          env = w.env ++ map (env_of_key config.selected) (map key_name (keep is_environment keys));
        })
    else record w { env = w.env ++ map (env_of_key config.selected) config.selected.keys }

-- The application with what was there before.
unfoldable pub generate_env_or_volumes_from_configurations :
    (ℕ → String) → List ConfigurationFormValue → Written → Written
unfolding add_configuration
generate_env_or_volumes_from_configurations volume_name [] w = w
generate_env_or_volumes_from_configurations volume_name (config ∷ configurations) w =
    generate_env_or_volumes_from_configurations volume_name configurations
      (add_configuration volume_name config w)

unfoldable pub volumes_of_items : String → String → List String → List ConfigurationVolume
volumes_of_items path name [] = []
volumes_of_items path name (key ∷ keys) =
    record { root_mount_path = path; configuration_key = key; configuration_name = name }
    ∷ volumes_of_items path name keys

unfoldable pub volumes_at : String → String → Option (List String) → List ConfigurationVolume
unfolding volumes_of_items
volumes_at path name none =
    record { root_mount_path = path; configuration_key = ""; configuration_name = name } ∷ []
volumes_at path name (some keys) = volumes_of_items path name keys

-- The configuration volumes of the converter; a volume without a mount has none.
unfoldable pub configuration_volumes : List Mount → List Volume → List ConfigurationVolume
unfolding volumes_at find
configuration_volumes mounts [] = []
configuration_volumes mounts (volume ∷ volumes) =
    let rest = configuration_volumes mounts volumes in
    elim (find (λ mount. mount.name == volume.name) mounts) [
      | none ↦ rest
      | some mount ↦ volumes_at mount.mount_path volume.configuration_name volume.items ++ rest
    ]

-- `_.filter(env, [filterCondition, cfg.Name])`
unfoldable pub refers_to : Configuration → EnvEntry → Bool
refers_to configuration item = elim item.value_from [
  | none ↦ false
  | some from ↦ elim from [
    | config_map_key_ref name key ↦ elim configuration.kind [
      | config_map ↦ name == configuration.name
      | secret ↦ false
    ]
    | secret_key_ref name key ↦ elim configuration.kind [
      | config_map ↦ false
      | secret ↦ name == configuration.name
    ]
  ]
]

-- What is counted for a key: the entries, and the paths of the volumes.
pub record KeyCount : Type 0 where
  pub key : String
  pub env_count : ℕ
  pub paths : List String

unfoldable pub root_path : ConfigurationVolume → String
root_path volume = volume.root_mount_path

unfoldable pub count_key : List EnvEntry → List ConfigurationVolume → String → KeyCount
unfolding keep root_path
count_key env volumes key = record {
  key = key;
  env_count = length (keep (λ item. item.name == key) env);
  paths = map root_path (keep (λ volume. volume.configuration_key == key) volumes);
}

unfoldable pub count_of : KeyCount → ℕ
count_of k = k.env_count + length k.paths

unfoldable pub vol_count : KeyCount → ℕ
vol_count k = length k.paths

-- `_.max` of a list that is not empty
unfoldable pub max_of : List ℕ → ℕ
max_of [] = 0
max_of (n ∷ ns) = max n (max_of ns)

-- A key of the form value at `index`; none where the code reads a property of undefined.
unfoldable pub overriden_key : ℕ → KeyCount → Option OverridenKey
unfolding count_of
overriden_key index k =
    if leb (count_of k) 0
    then some (record { key = k.key; path = ""; kind = no_type })
    else if ltb index k.env_count
    then some (record { key = k.key; path = ""; kind = environment })
    else elim (get_elem? k.paths (index - k.env_count)) [
      | none ↦ none
      | some path ↦ some (record { key = k.key; path = path; kind = filesystem })
    ]

unfoldable pub with_first : {A : Type 0} → Option A → Option (List A) → Option (List A)
with_first none rest = none
with_first (some a) none = none
with_first (some a) (some rest) = some (a ∷ rest)

unfoldable pub overriden_keys_at : ℕ → List KeyCount → Option (List OverridenKey)
unfolding overriden_key with_first
overriden_keys_at index [] = some []
overriden_keys_at index (k ∷ keys) =
    with_first (overriden_key index k) (overriden_keys_at index keys)

unfoldable pub not_overriden : Configuration → ConfigurationFormValue
not_overriden configuration = record {
  selected = configuration;
  overriden = false;
  overriden_keys = [];
}

unfoldable pub form_value_at : Configuration → ℕ → List KeyCount → ℕ → Option ConfigurationFormValue
unfolding not_overriden overriden_keys_at
form_value_at configuration threshold keys index =
    if leb threshold index
    then elim (overriden_keys_at index keys) [
      | none ↦ none
      | some items ↦
          some (record { selected = configuration; overriden = true; overriden_keys = items })
    ]
    else some (not_overriden configuration)

-- The form values at `count` indices from `index` on
unfoldable pub form_values_from :
    Configuration → ℕ → List KeyCount → ℕ → ℕ → Option (List ConfigurationFormValue)
unfolding form_value_at with_first
form_values_from configuration threshold keys zero index = some []
form_values_from configuration threshold keys (suc count) index =
    with_first (form_value_at configuration threshold keys index)
      (form_values_from configuration threshold keys count (suc index))

-- Without a key, `new Array(undefined)` has one element, and no index reaches the threshold NaN.
unfoldable pub form_values_of : Configuration → List KeyCount → Option (List ConfigurationFormValue)
unfolding form_values_from not_overriden max_of count_of vol_count
form_values_of configuration [] = some (not_overriden configuration ∷ [])
form_values_of configuration (k ∷ keys) =
    let all_keys = k ∷ keys in
    let most = max_of (map count_of all_keys) in
    form_values_from configuration (most - max_of (map vol_count all_keys)) all_keys most 0

unfoldable pub is_volume_of : Configuration → ConfigurationVolume → Bool
is_volume_of configuration volume = volume.configuration_name == configuration.name

unfoldable pub read_configuration :
    List EnvEntry → List ConfigurationVolume → Configuration → Option (List ConfigurationFormValue)
unfolding refers_to is_volume_of count_key form_values_of keep
read_configuration env volumes configuration =
    let own_env = keep (refers_to configuration) env in
    let own_volumes = keep (is_volume_of configuration) volumes in
    let values =
      form_values_of configuration (map (count_key own_env own_volumes) configuration.keys) in
    if leb (length own_env + length own_volumes) 0 then some [] else values

unfoldable pub joined : {A : Type 0} → Option (List A) → Option (List A) → Option (List A)
joined none rest = none
joined (some values) none = none
joined (some values) (some rest) = some (values ++ rest)

-- None where the code throws.
unfoldable pub generate_configuration_form_values_from_env_and_volumes :
    List EnvEntry
    → List ConfigurationVolume
    → List Configuration
    → Option (List ConfigurationFormValue)
unfolding read_configuration joined
generate_configuration_form_values_from_env_and_volumes env volumes [] = some []
generate_configuration_form_values_from_env_and_volumes env volumes (configuration ∷ rest) =
    joined (read_configuration env volumes configuration)
      (generate_configuration_form_values_from_env_and_volumes env volumes rest)

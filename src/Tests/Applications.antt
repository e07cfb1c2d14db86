-- ===== src/Tests/Applications.antt =====
-- Configurations and persisted folders of applications at concrete inputs.
use ui_for_docker.Prelude.{
  ℕ, zero, suc, ◌≡◌, refl, String, Bool, true, false, none, some, List, [], ◌∷◌, map, keep, all,
  any, find, is_some, eq_string, includes, All,
}
use ui_for_docker.Prelude.Dict.{lookup, insert}
use ui_for_docker.Kubernetes.Applications.Configurations.{
  Configuration, config_map, secret, no_type, filesystem, ConfigurationFormValue, Written, KeyCount,
  not_overriden, generate_env_or_volumes_from_configurations,
  generate_configuration_form_values_from_env_and_volumes, configuration_volumes, overriden_keys_at,
  add_configuration, env_of_key, reference, is_environment, is_filesystem, grouped, group_by_path,
  add_groups, key_name, volumes_of_items, volumes_at, refers_to, root_path, count_key, count_of,
  vol_count, max_of, overriden_key, with_first, form_value_at, form_values_from, form_values_of,
  is_volume_of, read_configuration, joined,
}
use ui_for_docker.Kubernetes.Applications.Configurations.Environment.{
  IsDistinct, HasKeys, is_same, env_and_volumes-generate,
}
use ui_for_docker.Kubernetes.Applications.Configurations.Overriding.{
  is_readable, overriden_keys_at-is_some,
}
use ui_for_docker.Prelude.{codes}
use ui_for_docker.Prelude.Decimal.{show, digits}
use ui_for_docker.Kubernetes.Applications.Folders.{
  ApiClaim, FormValues, PersistedFolder, api_to_persistent_volume_claim,
}
use ui_for_docker.Kubernetes.Applications.Folders.Sizes.{saved_storage, saved_storage-claim}

abbrev settings : Configuration
settings = record { name = "settings"; kind = config_map; keys = "host" ∷ "port" ∷ [] }

abbrev login : Configuration
login = record { name = "settings"; kind = secret; keys = "password" ∷ [] }

abbrev is_config_map : Configuration → Bool
is_config_map c = elim c.kind [ config_map ↦ true | secret ↦ false ]

abbrev volume_name : ℕ → String
volume_name zero = "config-app-0"
volume_name (suc zero) = "config-app-1"
volume_name (suc (suc n)) = "config-app-2"

abbrev nothing_written : Written
nothing_written = record {
  made = 0;
  env = record { name = "TZ"; value = some "UTC"; value_from = none } ∷ [];
  volumes = [];
  mounts = [];
}

configurations-IsDistinct : IsDistinct (settings ∷ login ∷ [])
unfolding is_same any
configurations-IsDistinct = (refl, (refl, tt))

configurations-HasKeys : All HasKeys (settings ∷ login ∷ [])
unfolding includes
configurations-HasKeys =
    ((("host", "port" ∷ [], refl), (refl, (refl, tt))), ((("password", [], refl), (refl, tt)), tt))

env_and_volumes-generate_example :
    generate_configuration_form_values_from_env_and_volumes
      (generate_env_or_volumes_from_configurations volume_name
        (map not_overriden (keep is_config_map (settings ∷ login ∷ [])))
        nothing_written).env
      []
      (settings ∷ login ∷ [])
    ≡ some (map not_overriden (keep is_config_map (settings ∷ login ∷ [])))
env_and_volumes-generate_example =
    env_and_volumes-generate volume_name is_config_map (settings ∷ login ∷ []) nothing_written
      configurations-IsDistinct configurations-HasKeys (refl, tt)

abbrev counts : List KeyCount
counts =
    record { key = "host"; env_count = 1; paths = "/etc" ∷ [] }
    ∷ record { key = "port"; env_count = 1; paths = [] }
    ∷ []

overriden_keys_at-is_some_example :
    is_some (overriden_keys_at 1 counts) ≡ all (is_readable 1) counts
overriden_keys_at-is_some_example = overriden_keys_at-is_some 1 counts

-- A configuration that is used twice, the second time with one key in a file and the other nowhere,
-- cannot be read back.
abbrev overriden_settings : ConfigurationFormValue
overriden_settings = record {
  selected = settings;
  overriden = true;
  overriden_keys =
      record { key = "host"; path = "/etc"; kind = filesystem }
      ∷ record { key = "port"; path = ""; kind = no_type }
      ∷ [];
}

abbrev twice : Written
twice =
    generate_env_or_volumes_from_configurations volume_name
      (not_overriden settings ∷ overriden_settings ∷ []) nothing_written

used_twice_throws :
    generate_configuration_form_values_from_env_and_volumes twice.env
      (configuration_volumes twice.mounts twice.volumes)
      (settings ∷ [])
    ≡ none
unfolding generate_configuration_form_values_from_env_and_volumes
    generate_env_or_volumes_from_configurations configuration_volumes add_configuration env_of_key
    reference is_environment is_filesystem grouped group_by_path add_groups key_name
    volumes_of_items volumes_at refers_to root_path count_key count_of vol_count max_of
    overriden_key with_first form_value_at form_values_from form_values_of is_volume_of
    read_configuration joined lookup insert keep not_overriden overriden_keys_at find
used_twice_throws = refl

abbrev data_claim : ApiClaim
data_claim = record {
  uid = codes "7";
  name = codes "web-data";
  namespace = codes "shop";
  creation_timestamp = [];
  storage = codes "10G";
  storage_class_name = [];
  labels = none;
}

abbrev data_folder : PersistedFolder
data_folder = record { mount_path = codes "/data"; persistent_volume_claim_name = codes "web-data" }

abbrev web_form : FormValues
web_form = record {
  name = codes "web";
  namespace = codes "shop";
  application_owner = codes "ann";
  persisted_folders = [];
}

saved_storage-claim_example :
    saved_storage web_form [] data_folder (some (api_to_persistent_volume_claim data_claim []))
    ≡ some (codes "10G")
unfolding show digits
saved_storage-claim_example =
    saved_storage-claim data_claim [] data_folder web_form [] 10 [] b'G' refl refl

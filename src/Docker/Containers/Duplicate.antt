-- ===== src/Docker/Containers/Duplicate.antt =====
-- `prepareConfiguration` and `loadFromContainerSpec` of createContainerController.js, with
-- `commandArrayToString` of containerHelper.js: all parts of a container but its image, its name and
-- its CPU limit. The third-party package that splits a command is a parameter.
pub mod Unedited
use ui_for_docker.Prelude.{
  ℕ, Bool, true, false, ◌&&◌, ◌||◌, Option, none, some, List, [], ◌∷◌, ◌++◌, map, Text, codes,
  String, ◌==◌, eq_string, if◌then◌else◌,
}
use ui_for_docker.Prelude.Dict.{Dict}
use ui_for_docker.Portainer.EnvFile.{Variable, parse_array_of_strings, convert_to_array_of_strings}
use ui_for_docker.Docker.Ports.Bindings.{
  PortBinding, Bindings, Result, ok, invalid, ◌>>=◌, prepare_port_bindings,
}
use ui_for_docker.Docker.Ports.Combining.{Combined, keys_of, sort_and_combine_ports}
use ui_for_docker.Docker.Containers.{
  is_filled, NameValue, Volume, Mount, Device, PathSet, LogConfig, prepare_volumes,
  load_from_container_volumes, prepare_console, load_from_container_console, prepare_labels,
  load_pairs, prepare_sysctls, prepare_log_driver, filled_config, prepare_devices,
  load_from_container_devices,
}
use ui_for_docker.Docker.Containers.Resources.{Quotient, prepare_memory, load_memory}
use ui_for_docker.Docker.Containers.Capabilities.{
  Capability, prepare_capabilities, load_from_container_capabilities,
}
use ui_for_docker.Docker.Containers.Networks.{
  NetworkConfig, NetworkForm, SentNetwork, Container, Details, prepare_network_config,
  load_from_container_network_config,
}

-- The value of Entrypoint: that of an input is a text, that of a container an array.
pub data Entrypoint : Type 0 where
  null : Entrypoint
  text : Text → Entrypoint
  parts : List Text → Entrypoint

-- `$scope.config`
pub record Draft : Type 0 where
  pub cmd : Text
  pub entrypoint : Entrypoint
  pub network : NetworkConfig
  pub port_bindings : List PortBinding
  pub devices : List Device
  pub log_config : Option LogConfig

-- `$scope.formValues`
pub record Form : Type 0 where
  pub cmd_mode : String
  pub entrypoint_mode : String
  pub network : NetworkForm
  pub console : String
  pub env : List Variable
  pub volumes : List Volume
  pub labels : List NameValue
  pub memory_limit : Quotient
  pub memory_reservation : Quotient
  pub log_driver_name : Text
  pub log_driver_opts : List NameValue
  pub capabilities : List Capability
  pub sysctls : List NameValue

-- What is sent. `cmd` may be deleted.
pub record Config : Type 0 where
  pub cmd : Option (List Text)
  pub entrypoint : Entrypoint
  pub network : SentNetwork
  pub exposed_ports : List Text
  pub port_bindings : Bindings
  pub console : Bool × Bool
  pub env : List Text
  pub volumes : List Text × PathSet
  pub labels : Dict Text Text
  pub devices : List (Device × Text)
  pub memory : ℕ
  pub memory_reservation : ℕ
  pub log_config : Option LogConfig
  pub capabilities : List Text × List Text
  pub sysctls : Dict Text Text

-- A container of the API
pub record Model : Type 0 where
  pub id : Text
  pub cmd : Option (List Text)
  pub entrypoint : Option (List Text)
  pub network : Details
  pub port_bindings : Bindings
  pub console : Bool × Bool
  pub env : List Text
  pub mounts : List Mount
  pub labels : Dict Text Text
  pub devices : List (Device × Text)
  pub memory : ℕ
  pub memory_reservation : ℕ
  pub log_driver : Text
  pub log_opts : Dict Text Text
  pub cap_add : Option (List Text)
  pub cap_drop : Option (List Text)
  pub sysctls : Dict Text Text

-- `_.isEmpty` of a command and of an entry point
unfoldable pub no_parts : Option (List Text) → Bool
no_parts none = true
no_parts (some []) = true
no_parts (some (part ∷ rest)) = false

unfoldable pub no_entrypoint : Entrypoint → Bool
no_entrypoint null = true
no_entrypoint (text []) = true
no_entrypoint (text (c ∷ s)) = false
no_entrypoint (parts []) = true
no_entrypoint (parts (part ∷ rest)) = false

unfoldable pub quoted : Text → Text
quoted part = b'\'' ∷ part ++ b'\'' ∷ []

unfoldable pub joined : Text → List Text → Text
joined first [] = first
joined first (next ∷ rest) = first ++ b' ' ∷ joined next rest

unfoldable pub command_array_to_string : List Text → Text
unfolding quoted joined
command_array_to_string [] = []
command_array_to_string (part ∷ rest) = joined (quoted part) (map quoted rest)

-- A log driver that is not assigned is that of the draft.
unfoldable pub log_config_or : Option LogConfig → Option LogConfig → Option LogConfig
log_config_or none before = before
log_config_or (some config) before = some config

unfoldable pub row_of : Combined → PortBinding
row_of row = record {
  host_port = some row.host_port;
  container_port = some row.container_port;
  protocol = row.protocol;
}

module _ (split_args : Text → List Text) where
  unfoldable pub prepare_cmd : String → Text → Option (List Text)
  unfolding is_filled
  prepare_cmd mode cmd =
      if is_filled cmd then (if mode == "default" then none else some (split_args cmd)) else none

  -- The command is the one that was prepared before.
  unfoldable pub prepare_entrypoint : String → Option (List Text) → Entrypoint → Entrypoint
  unfolding no_parts no_entrypoint
  prepare_entrypoint mode cmd entrypoint =
      if mode == "default" || (no_parts cmd && no_entrypoint entrypoint) then null else entrypoint

  -- What the functions behind `preparePortBindings` and before it make of the configuration.
  unfoldable pub config_of : Text → Bindings → Draft → Form → Config
  unfolding prepare_cmd prepare_entrypoint prepare_network_config keys_of prepare_console
      convert_to_array_of_strings prepare_volumes prepare_labels prepare_devices prepare_memory
      prepare_log_driver log_config_or prepare_capabilities prepare_sysctls
  config_of from_id bindings draft form =
      let cmd = prepare_cmd form.cmd_mode draft.cmd in
      record {
        cmd = cmd;
        entrypoint = prepare_entrypoint form.entrypoint_mode cmd draft.entrypoint;
        network = prepare_network_config from_id draft.network form.network;
        exposed_ports = keys_of bindings;
        port_bindings = bindings;
        console = prepare_console form.console;
        env = convert_to_array_of_strings form.env;
        volumes = prepare_volumes form.volumes;
        labels = prepare_labels form.labels;
        devices = prepare_devices draft.devices;
        memory = prepare_memory form.memory_limit;
        memory_reservation = prepare_memory form.memory_reservation;
        log_config =
            log_config_or (prepare_log_driver form.log_driver_name form.log_driver_opts)
              draft.log_config;
        capabilities = prepare_capabilities form.capabilities;
        sysctls = prepare_sysctls form.sysctls;
      }

  unfoldable pub prepare_configuration : Text → Draft → Form → Result Config
  unfolding config_of
  prepare_configuration from_id draft form = do
    bindings ← prepare_port_bindings draft.port_bindings
    ok (config_of from_id bindings draft form)

unfoldable pub load_cmd : Option (List Text) → Text × String
unfolding command_array_to_string
load_cmd none = ([], "default")
load_cmd (some cmd) = (command_array_to_string cmd, "override")

-- The container has the key Entrypoint, whatever its value is.
unfoldable pub load_entrypoint : Option (List Text) → Entrypoint
load_entrypoint none = text []
load_entrypoint (some entrypoint) = parts entrypoint

unfoldable pub draft_of : NetworkConfig → List Combined → Model → Draft
unfolding load_cmd load_entrypoint row_of load_from_container_devices filled_config
draft_of network rows model = record {
  cmd = (load_cmd model.cmd).0;
  entrypoint = load_entrypoint model.entrypoint;
  network = network;
  port_bindings = map row_of rows;
  devices = load_from_container_devices model.devices;
  log_config = some (record { kind = model.log_driver; config = filled_config model.log_opts });
}

unfoldable pub form_of : NetworkForm → Model → Form
unfolding load_cmd load_from_container_console parse_array_of_strings load_from_container_volumes
    load_pairs load_memory load_from_container_capabilities
form_of network model = record {
  cmd_mode = (load_cmd model.cmd).1;
  entrypoint_mode = "override";
  network = network;
  console = load_from_container_console model.console.0 model.console.1;
  env = parse_array_of_strings model.env;
  volumes = load_from_container_volumes model.mounts;
  labels = load_pairs model.labels;
  memory_limit = load_memory model.memory;
  memory_reservation = load_memory model.memory_reservation;
  log_driver_name = model.log_driver;
  log_driver_opts = load_pairs model.log_opts;
  capabilities = load_from_container_capabilities model.cap_add model.cap_drop;
  sysctls = load_pairs model.sysctls;
}

-- None where sorting and combining the ports throws.
unfoldable pub load_from_container_spec : List Text → List Container → Model → Option (Draft × Form)
unfolding load_from_container_network_config draft_of form_of
load_from_container_spec available containers model =
    elim (sort_and_combine_ports model.port_bindings) [
      | none ↦ none
      | some rows ↦
          let network = load_from_container_network_config available containers model.network in
          some (draft_of network.config rows model, form_of network.form model)
    ]

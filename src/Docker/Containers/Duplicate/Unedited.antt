-- ===== src/Docker/Containers/Duplicate/Unedited.antt =====
-- A container that is duplicated without an edit of its form.
use ui_for_docker.Prelude.{
  ◌≡◌, ◌≢◌, refl, sym, ap, ◌∙◌, true, false, ◌&&◌, Option, none, some, List, [], ◌∷◌, map, keep,
  Text, codes, All, eq_string, eq_list, eq_nat,
}
use ui_for_docker.Prelude.Dict.{HasDistinctKeys}
use ui_for_docker.Portainer.EnvFile.{Variable, convert_to_array_of_strings, parse_array_of_strings}
use ui_for_docker.Portainer.EnvFile.RoundTrip.{IsVariable, parse_array_of_strings-convert}
use ui_for_docker.Docker.Ports.Bindings.{Bindings, Result, ok, ◌>>=◌, prepare_port_bindings}
use ui_for_docker.Docker.Ports.Combining.{Combined, keys_of, sort_and_combine_ports}
use ui_for_docker.Docker.Containers.{is_filled, is_empty_path, mounted, filled_config}
use ui_for_docker.Docker.Containers.Options.{
  prepare_console-load, prepare_labels-load, prepare_sysctls-load, prepare_log_driver-load,
  prepare_devices-load,
}
use ui_for_docker.Docker.Containers.Mounts.{prepare_volumes-load}
use ui_for_docker.Docker.Containers.Resources.{prepare_memory, load_memory}
use ui_for_docker.Docker.Containers.Capabilities.{
  prepare_capabilities, load_from_container_capabilities,
}
use ui_for_docker.Docker.Containers.Networks.{Container, load_from_container_network_config}
use ui_for_docker.Docker.Containers.Networks.Modes.{duplicated_network}
use ui_for_docker.Docker.Containers.Duplicate.{
  Draft, Form, Config, Model, command_array_to_string, load_entrypoint, row_of, prepare_cmd,
  prepare_entrypoint, prepare_configuration, load_from_container_spec, log_config_or, load_cmd,
  quoted, joined, no_parts, config_of, draft_of, form_of,
}

-- Labels, kernel parameters, devices and log options that a form can hold.
abbrev pub IsLoadable : Model → Type 0
IsLoadable model =
    HasDistinctKeys model.labels
    × All (λ entry. is_filled entry.0 ≡ true) model.labels
    × HasDistinctKeys model.sysctls
    × All
        (λ entry.
          (is_filled entry.0.path_on_host ≡ true)
          × (is_empty_path entry.0.path_in_container ≡ false)
          × (entry.1 ≡ codes "rwm"))
        model.devices
    × (is_filled model.log_driver ≡ true)
    × (model.log_driver ≢ codes "none")
    × HasDistinctKeys model.log_opts
    × All (λ entry. is_filled entry.0 ≡ true) model.log_opts

-- What is sent for a container, with the command and the bindings that are sent.
unfoldable pub copy_of : List Text → List Container → List Text → Bindings → Model → Config
unfolding load_entrypoint duplicated_network keys_of mounted prepare_memory load_memory
    filled_config prepare_capabilities load_from_container_capabilities keep
copy_of available containers cmd bindings model = record {
  cmd = some cmd;
  entrypoint = load_entrypoint model.entrypoint;
  network = duplicated_network model.id available containers model.network;
  exposed_ports = keys_of bindings;
  port_bindings = bindings;
  console = model.console;
  env = model.env;
  volumes = mounted model.mounts;
  labels = model.labels;
  devices = model.devices;
  memory = prepare_memory (load_memory model.memory);
  memory_reservation = prepare_memory (load_memory model.memory_reservation);
  log_config = some (record { kind = model.log_driver; config = filled_config model.log_opts });
  capabilities =
      prepare_capabilities (load_from_container_capabilities model.cap_add model.cap_drop);
  sysctls = keep (λ entry. is_filled entry.0 && is_filled entry.1) model.sysctls;
}

unfoldable pub prepare_loaded :
    (Text → List Text) → Text → Option (Draft × Form) → Option (Result Config)
unfolding prepare_configuration
prepare_loaded split_args from_id none = none
prepare_loaded split_args from_id (some (draft, form)) =
    some (prepare_configuration split_args from_id draft form)

-- The configuration that is sent for a form that was just filled, if it could be.
unfoldable pub duplicate :
    (Text → List Text) → List Text → List Container → Model → Option (Result Config)
unfolding load_from_container_spec prepare_loaded
duplicate split_args available containers model =
    prepare_loaded split_args model.id (load_from_container_spec available containers model)

command-is_filled :
    (part : Text) (rest : List Text) → is_filled (command_array_to_string (part ∷ rest)) ≡ true
unfolding command_array_to_string joined quoted is_filled
command-is_filled part [] = refl
command-is_filled part (next ∷ rest) = refl

prepare_cmd-load :
    (split_args : Text → List Text) (part : Text) (rest : List Text)
    → prepare_cmd split_args "override" (command_array_to_string (part ∷ rest))
      ≡ some (split_args (command_array_to_string (part ∷ rest)))
unfolding prepare_cmd
prepare_cmd-load split_args part rest = rw (command-is_filled part rest) refl

load-rows :
    (available : List Text) (containers : List Container) (model : Model) (rows : List Combined)
    → sort_and_combine_ports model.port_bindings ≡ some rows
    → let network = load_from_container_network_config available containers model.network in
      load_from_container_spec available containers model
      ≡ some (draft_of network.config rows model, form_of network.form model)
unfolding load_from_container_spec
load-rows available containers model rows r = rw (load_from_container_spec, r) refl

config_of-loaded :
    (split_args : Text → List Text) (available : List Text) (containers : List Container)
    (model : Model) (part : Text) (rest : List Text) (variables : List Variable)
    (rows : List Combined) (bindings : Bindings)
    → model.cmd ≡ some (part ∷ rest)
    → no_parts (some (split_args (command_array_to_string (part ∷ rest)))) ≡ false
    → model.env ≡ convert_to_array_of_strings variables
    → All IsVariable variables
    → IsLoadable model
    → let network = load_from_container_network_config available containers model.network in
      config_of split_args model.id bindings
        (draft_of network.config rows model)
        (form_of network.form model)
      ≡ copy_of available containers
          (split_args (command_array_to_string (part ∷ rest)))
          bindings
          model
unfolding config_of draft_of form_of copy_of duplicated_network load_cmd log_config_or
    prepare_entrypoint no_parts
config_of-loaded split_args available containers model part rest variables rows bindings c split e v
      (l, fl, s, d, g, n, o, fo) =
    rw
      (
        c,
        prepare_cmd-load split_args part rest,
        split,
        prepare_console-load model.console.0 model.console.1,
        ap parse_array_of_strings e ∙ parse_array_of_strings-convert variables v,
        sym e,
        prepare_volumes-load model.mounts,
        prepare_labels-load model.labels l fl,
        prepare_devices-load model.devices d,
        prepare_log_driver-load model.log_driver model.log_opts g n o fo,
        prepare_sysctls-load model.sysctls s,
      )
      refl

copied :
    (split_args : Text → List Text) (from_id : Text) (draft : Draft) (form : Form)
    (copy : Bindings → Config)
    → ((bindings : Bindings) → config_of split_args from_id bindings draft form ≡ copy bindings)
    → prepare_configuration split_args from_id draft form
      ≡ (prepare_port_bindings draft.port_bindings >>= λ bindings. ok (copy bindings))
unfolding prepare_configuration
copied split_args from_id draft form copy h =
    ap (λ f. prepare_port_bindings draft.port_bindings >>= f) (λ i bindings. ok (h bindings i))

-- What is sent for a container that is duplicated without an edit has the entry point, the console,
-- the environment, the mounts, the labels, the devices and the log driver of the container. Its
-- command is what the third-party package splits the quoted and joined parts into; its ports, or the
-- error, are what the rows that are shown for them stand for; its memory is rounded, kernel
-- parameters without a value are left out, and the network and the capabilities are those of their
-- own functions. The conditions: the container has a command, and splitting it gives some part; its
-- environment holds variables, each with a name that is a key and a value, if any, that neither ends
-- in a space nor has a line break; the names of its labels, kernel
-- parameters and log options differ, those of labels and log options are not empty; the paths of its
-- devices are not empty and their permissions are rwm; its log driver is neither empty nor none; and
-- making the rows of its ports does not throw.
pub duplicate-copy_of :
    (split_args : Text → List Text) (available : List Text) (containers : List Container)
    (model : Model) (part : Text) (rest : List Text) (variables : List Variable)
    (rows : List Combined)
    → model.cmd ≡ some (part ∷ rest)
    → no_parts (some (split_args (command_array_to_string (part ∷ rest)))) ≡ false
    → model.env ≡ convert_to_array_of_strings variables
    → All IsVariable variables
    → sort_and_combine_ports model.port_bindings ≡ some rows
    → IsLoadable model
    → duplicate split_args available containers model
      ≡ some (
          prepare_port_bindings (map row_of rows) >>= λ bindings. ok (
            copy_of available containers
              (split_args (command_array_to_string (part ∷ rest)))
              bindings
              model))
unfolding duplicate draft_of prepare_loaded
duplicate-copy_of split_args available containers model part rest variables rows c split e v r h =
    let network = load_from_container_network_config available containers model.network in
    ap (prepare_loaded split_args model.id) (load-rows available containers model rows r)
    ∙ ap some (
        copied split_args model.id (draft_of network.config rows model) (form_of network.form model)
          _
          (λ bindings.
            config_of-loaded split_args available containers model part rest variables rows bindings
              c split e v h))

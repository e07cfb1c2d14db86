-- ===== src/Tests/Containers.antt =====
-- The form of a container at concrete inputs.
use ui_for_docker.Prelude.{
  ◌≡◌, ◌≤◌, ◌+◌, ◌%◌, refl, true, false, not, ◌&&◌, ◌||◌, none, some, List, [], ◌∷◌, map, keep, any,
  all, take, includes, Text, codes, eq_list, eq_nat, list_eq, after_prefix, starts_with, All,
  nat_eq, ◌++◌, Bool, if◌then◌else◌, split_at, has_unit, cut_text, split_where,
}
use ui_for_docker.Portainer.EnvFile.{
  Variable, convert_to_array_of_strings, string_of, is_key, ends_key, is_letter, is_key_unit,
  is_alphanumeric, is_filled as env_filled,
}
use ui_for_docker.Prelude.Trim.{trim_end, trim_end_step}
use ui_for_docker.Prelude.Decimal.{
  is_space, is_line_break, parse_int, digit_prefix, value, show, show_number, digits, unsigned,
}
use ui_for_docker.Portainer.EnvFile.RoundTrip.{IsVariable}
use ui_for_docker.Prelude.Dict.{lookup, insert}
use ui_for_docker.Docker.Ports.Bindings.{ok, ◌>>=◌, prepare_port_bindings}
use ui_for_docker.Docker.Ports.{parse_port, port_pattern, matches_line}
use ui_for_docker.Docker.Ports.Combining.{
  Combined, sort_and_combine_ports, keys_of, group_by_protocol, group_from, combine_protocols,
  push_key, add_key, second_part, bindings_at, push_hosts, group_by_host, container_port_of,
  order_by_port, insert_sorted, combine_hosts, combine_keys, take_binding, combine_step, add_single,
  add_row, new_row, labelled,
}
use ui_for_docker.Docker.Containers.{
  is_filled, Mount, prepare_volumes, load_from_container_volumes, mounted,
}
use ui_for_docker.Docker.Containers.Mounts.{prepare_volumes-load}
use ui_for_docker.Docker.Containers.Resources.{
  prepare_memory, load_memory, prepare_memory-load_bounds,
}
use ui_for_docker.Docker.Containers.Capabilities.{
  allowed_by_default, denied_by_default, names_of, prepare_capabilities,
  load_from_container_capabilities,
}
use ui_for_docker.Docker.Containers.Capabilities.Duplicated.{prepare_capabilities-load}
use ui_for_docker.Docker.Containers.Networks.{Container, Details}
use ui_for_docker.Docker.Containers.Networks.Modes.{
  duplicated_network, duplicated_network-own, duplicated_network-running,
  duplicated_network-stopped, own_details,
}
use ui_for_docker.Docker.Containers.Duplicate.{
  Model, row_of, command_array_to_string, quoted, joined, no_parts,
}
use ui_for_docker.Docker.Containers.Duplicate.Unedited.{duplicate, copy_of, duplicate-copy_of}

abbrev data_mount : Mount
data_mount = record {
  kind = codes "bind";
  name = [];
  source = codes "/srv";
  destination = codes "/data";
  rw = false;
}

prepare_volumes-load_example :
    prepare_volumes (load_from_container_volumes (data_mount ∷ [])) ≡ mounted (data_mount ∷ [])
prepare_volumes-load_example = prepare_volumes-load (data_mount ∷ [])

prepare_memory-load_bounds_example :
    (prepare_memory (load_memory 200000) % 131072 ≡ 0)
    × (prepare_memory (load_memory 200000) ≤ 265536)
    × (200000 ≤ prepare_memory (load_memory 200000) + 65536)
prepare_memory-load_bounds_example = prepare_memory-load_bounds 200000

-- A container without any capability is given one that is allowed by default.
prepare_capabilities-load_example :
    (includes
        (prepare_capabilities (load_from_container_capabilities none (some (codes "ALL" ∷ [])))).0
        (codes "CHOWN")
      ≡ (includes (names_of none) (codes "CHOWN")
          || (not (
                includes (names_of none) (codes "CHOWN")
                || includes (names_of (some (codes "ALL" ∷ []))) (codes "CHOWN"))
              && includes (map codes allowed_by_default) (codes "CHOWN"))))
    × (includes
          (prepare_capabilities (load_from_container_capabilities none (some (codes "ALL" ∷ [])))).1
          (codes "CHOWN")
        ≡ (includes (names_of (some (codes "ALL" ∷ []))) (codes "CHOWN")
            || (not (
                  includes (names_of none) (codes "CHOWN")
                  || includes (names_of (some (codes "ALL" ∷ []))) (codes "CHOWN"))
                && includes (map codes denied_by_default) (codes "CHOWN"))))
prepare_capabilities-load_example =
    prepare_capabilities-load (codes "CHOWN") none (some (codes "ALL" ∷ []))

abbrev db : Container
db = record { id = codes "4f"; names = codes "/db" ∷ [] }

abbrev details_at : Text → Details
details_at mode = record {
  network_mode = mode;
  networks = [];
  mac_address = [];
  dns = [];
  extra_hosts = none;
}

duplicated_network-running_example :
    ((duplicated_network (codes "77") [] (db ∷ []) (details_at (codes "container:4f"))).network_mode
      ≡ codes "container:db")
    × ((duplicated_network
          (codes "77")
          []
          (db ∷ [])
          (details_at (codes "container:4f"))).hostname_cleared
        ≡ true)
unfolding any is_filled
duplicated_network-running_example =
    duplicated_network-running (codes "77") [] (details_at (codes "container:4f")) [] db []
      (codes "db") [] refl refl refl refl

duplicated_network-stopped_example :
    (duplicated_network (codes "77") [] (db ∷ []) (details_at (codes "container:5a"))).network_mode
    ≡ codes "container"
unfolding any list_eq
duplicated_network-stopped_example =
    duplicated_network-stopped (codes "77") [] (details_at (codes "container:5a")) (db ∷ [])
      (codes "5a") refl refl

abbrev addresses : Text × Text
addresses = (codes "10.0.0.2", [])

-- The alias 77 is a prefix of the id of the container, and web is none; the third server is lost.
duplicated_network-own_example :
    duplicated_network (codes "77ab") [] [] (
      own_details
        (codes "net")
        (codes "02:42")
        (codes "1.1.1.1" ∷ codes "8.8.8.8" ∷ codes "9.9.9.9" ∷ [])
        addresses
        (codes "77" ∷ codes "web" ∷ [])
        (codes "h:1" ∷ []))
    ≡ record {
      network_mode = codes "net";
      hostname_cleared = false;
      mac_address = codes "02:42";
      endpoints =
          (
            codes "net",
            some (record {
              ipam_config = some addresses;
              aliases = some (
                  keep
                    (λ alias. not (starts_with (codes "77ab") alias))
                    (codes "77" ∷ codes "web" ∷ []));
            }),
          )
          ∷ [];
      dns = take 2 (codes "1.1.1.1" ∷ codes "8.8.8.8" ∷ codes "9.9.9.9" ∷ []);
      extra_hosts = keep is_filled (codes "h:1" ∷ []);
    }
unfolding is_filled after_prefix
duplicated_network-own_example =
    duplicated_network-own (codes "77ab") [] [] (codes "net") (codes "02:42")
      (codes "1.1.1.1" ∷ codes "8.8.8.8" ∷ codes "9.9.9.9" ∷ []) addresses
      (codes "77" ∷ codes "web" ∷ []) (codes "h:1" ∷ []) (λ e. cc e) refl refl
      (refl, (refl, (refl, tt)))

abbrev variables : List Variable
variables = record { name = codes "TZ"; value = some (codes "UTC") } ∷ []

abbrev model : Model
model = record {
  id = codes "77ab";
  cmd = some (codes "run" ∷ codes "-v" ∷ []);
  entrypoint = none;
  network = details_at (codes "bridge");
  port_bindings =
      (codes "80/tcp", record { host_ip = some []; host_port = some (codes "8080") } ∷ []) ∷ [];
  console = (true, false);
  env = codes "TZ=UTC" ∷ [];
  mounts = data_mount ∷ [];
  labels = (codes "app", codes "web") ∷ [];
  devices = [];
  memory = 200000;
  memory_reservation = 0;
  log_driver = codes "json-file";
  log_opts = [];
  cap_add = none;
  cap_drop = none;
  sysctls = [];
}

variables-IsVariable : All IsVariable variables
unfolding is_key ends_key is_letter is_key_unit is_alphanumeric trim_end trim_end_step is_space all
    is_line_break
variables-IsVariable = ((refl, (refl, refl)), tt)

abbrev web_rows : List Combined
web_rows =
    record { host_port = codes "8080"; container_port = codes "80"; protocol = codes "tcp" } ∷ []

web_rows-combined : sort_and_combine_ports model.port_bindings ≡ some web_rows
unfolding sort_and_combine_ports keys_of group_by_protocol group_from combine_protocols push_key
    add_key second_part split_at bindings_at push_hosts group_by_host container_port_of
    order_by_port insert_sorted combine_hosts combine_keys take_binding combine_step add_single
    add_row new_row labelled lookup insert list_eq parse_port port_pattern matches_line split_where
    parse_int digit_prefix is_space value show show_number digits unsigned has_unit any after_prefix
    cut_text is_line_break
web_rows-combined = refl

-- The parts between single quotes
quoted_parts : Text → Bool → Text → List Text
quoted_parts part inside [] = []
quoted_parts part inside (c ∷ s) =
    let ended = quoted_parts [] (not inside) s in
    let longer = quoted_parts (part ++ c ∷ []) inside s in
    let skipped = quoted_parts part inside s in
    if nat_eq c b'\''
    then (if inside then part ∷ ended else ended)
    else if inside
    then longer
    else skipped

duplicate-copy_of_example :
    duplicate (quoted_parts [] false) [] [] model
    ≡ some (
        prepare_port_bindings (map row_of web_rows) >>= λ bindings.
        ok (copy_of [] [] (quoted_parts [] false (codes "'run' '-v'")) bindings model))
unfolding is_filled lookup convert_to_array_of_strings string_of env_filled command_array_to_string
    quoted joined no_parts quoted_parts
duplicate-copy_of_example =
    duplicate-copy_of (quoted_parts [] false) [] [] model (codes "run") (codes "-v" ∷ []) variables
      web_rows refl refl refl variables-IsVariable web_rows-combined
      ((refl, tt), (refl, tt), tt, tt, refl, (λ e. cc e), tt, tt)

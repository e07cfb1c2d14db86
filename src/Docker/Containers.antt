-- ===== src/Docker/Containers.antt =====
-- app/docker/views/containers/create/createContainerController.js, with what
-- app/docker/helpers/containerHelper.js gives it: what is sent for the form of a container, and the
-- form that is filled from a container that is duplicated. A text that is missing is empty: the code
-- tests both alike.
pub mod Resources
pub mod Capabilities
pub mod Networks
pub mod Options
pub mod Mounts
pub mod Duplicate
use ui_for_docker.Prelude.{
  Bool, true, false, ◌&&◌, not, Option, none, some, List, [], ◌∷◌, ◌++◌, map, keep, String, Text,
  codes, if◌then◌else◌, ◌==◌, eq_string, eq_list, eq_nat,
}
use ui_for_docker.Prelude.Dict.{Dict, insert}

unfoldable pub is_filled : Text → Bool
is_filled [] = false
is_filled (c ∷ s) = true

-- `a || b`
unfoldable pub first_filled : Text → Text → Text
first_filled [] other = other
first_filled (c ∷ s) other = c ∷ s

pub record NameValue : Type 0 where
  pub name : Text
  pub value : Text

pub record Volume : Type 0 where
  pub kind : Text
  pub name : Text
  pub container_path : Text
  pub read_only : Bool

-- A mount of the API. `rw` is whether RW is anything but false.
pub record Mount : Type 0 where
  pub kind : Text
  pub name : Text
  pub source : Text
  pub destination : Text
  pub rw : Bool

-- A device; a path in the container that is undefined is none.
pub record Device : Type 0 where
  pub path_on_host : Text
  pub path_in_container : Option Text

-- The keys of `Volumes`, each with an empty object.
abbrev pub PathSet : Type 0
PathSet = Dict Text (Unit {0})

pub record LogConfig : Type 0 where
  pub kind : Text
  pub config : Option (Dict Text Text)

unfoldable pub bind_of : Text → Text → Bool → Text
bind_of name container_path read_only =
    let bind = name ++ b':' ∷ container_path in if read_only then bind ++ codes ":ro" else bind

-- The binds and the paths so far, with those of the other volumes.
unfoldable pub prepare_volumes_from : List Volume → List Text × PathSet → List Text × PathSet
unfolding bind_of is_filled insert
prepare_volumes_from [] (binds, volumes) = (binds, volumes)
prepare_volumes_from (volume ∷ rest) (binds, volumes) = prepare_volumes_from rest (
    if is_filled volume.name && is_filled volume.container_path
    then (
      binds ++ bind_of volume.name volume.container_path volume.read_only ∷ [],
      insert volume.container_path tt volumes,
    )
    else (binds, volumes))

unfoldable pub prepare_volumes : List Volume → List Text × PathSet
unfolding prepare_volumes_from
prepare_volumes volumes = prepare_volumes_from volumes ([], [])

unfoldable pub volume_of : Mount → Volume
unfolding first_filled
volume_of mount = record {
  kind = mount.kind;
  name = first_filled mount.name mount.source;
  container_path = mount.destination;
  read_only = not mount.rw;
}

unfoldable pub load_from_container_volumes : List Mount → List Volume
unfolding volume_of
load_from_container_volumes mounts = map volume_of mounts

-- The loop over the mounts in `configFromContainer`
unfoldable pub mounted_from : List Mount → List Text × PathSet → List Text × PathSet
unfolding is_filled first_filled insert
mounted_from [] (binds, volumes) = (binds, volumes)
mounted_from (mount ∷ rest) (binds, volumes) =
    let name = first_filled mount.name mount.source in
    let container_path = mount.destination in
    let bind = name ++ b':' ∷ container_path in
    mounted_from rest (
      if is_filled name && is_filled container_path
      then (
        binds ++ (if mount.rw then bind else bind ++ codes ":ro") ∷ [],
        insert container_path tt volumes,
      )
      else (binds, volumes))

unfoldable pub mounted : List Mount → List Text × PathSet
unfolding mounted_from
mounted mounts = mounted_from mounts ([], [])

-- Whether stdin is opened and whether there is a terminal.
unfoldable pub prepare_console : String → Bool × Bool
prepare_console value =
    if value == "tty"
    then (false, true)
    else if value == "interactive"
    then (true, false)
    else if value == "none"
    then (false, false)
    else (true, true)

unfoldable pub load_from_container_console : Bool → Bool → String
load_from_container_console true true = "both"
load_from_container_console false true = "tty"
load_from_container_console true false = "interactive"
load_from_container_console false false = "none"

-- The loops of `prepareLabels`, `prepareSysctls` and `prepareLogDriver` over pairs, which differ in
-- the pairs that they keep.
unfoldable pub assign_pairs : (NameValue → Bool) → List NameValue → Dict Text Text → Dict Text Text
unfolding insert
assign_pairs keeps [] pairs = pairs
assign_pairs keeps (pair ∷ rest) pairs =
    assign_pairs keeps rest (if keeps pair then insert pair.name pair.value pairs else pairs)

unfoldable pub is_named : NameValue → Bool
unfolding is_filled
is_named pair = is_filled pair.name

unfoldable pub is_complete : NameValue → Bool
unfolding is_filled
is_complete pair = is_filled pair.name && is_filled pair.value

-- A label without a value has the empty one.
unfoldable pub prepare_labels : List NameValue → Dict Text Text
unfolding assign_pairs is_named
prepare_labels labels = assign_pairs is_named labels []

unfoldable pub name_value : Text × Text → NameValue
name_value (name, value) = record { name = name; value = value }

-- `loadFromContainerLabels`, `loadFromContainerSysctls` and the options of
-- `loadFromContainerLogging`
unfoldable pub load_pairs : Dict Text Text → List NameValue
unfolding name_value
load_pairs pairs = map name_value pairs

unfoldable pub prepare_sysctls : List NameValue → Dict Text Text
unfolding assign_pairs is_complete
prepare_sysctls sysctls = assign_pairs is_complete sysctls []

unfoldable pub filled_config : Dict Text Text → Option (Dict Text Text)
filled_config [] = none
filled_config (opt ∷ opts) = some (opt ∷ opts)

-- What is assigned to `LogConfig`, if anything.
unfoldable pub prepare_log_driver : Text → List NameValue → Option LogConfig
unfolding is_filled assign_pairs is_named filled_config
prepare_log_driver name opts =
    if is_filled name
    then some (record {
      kind = name;
      config = if name == codes "none" then none else filled_config (assign_pairs is_named opts []);
    })
    else none

-- `p.pathInContainer === ''`, which undefined is not
unfoldable pub is_empty_path : Option Text → Bool
is_empty_path none = false
is_empty_path (some []) = true
is_empty_path (some (c ∷ s)) = false

-- Devices with their permissions
unfoldable pub prepare_devices : List Device → List (Device × Text)
unfolding is_filled is_empty_path
prepare_devices [] = []
prepare_devices (device ∷ rest) =
    let others = prepare_devices rest in
    if is_filled device.path_on_host
    then (
      if is_empty_path device.path_in_container
          then record device { path_in_container = some device.path_on_host }
          else device,
      codes "rwm",
    )
      ∷ others
    else others

unfoldable pub load_from_container_devices : List (Device × Text) → List Device
load_from_container_devices devices = map (λ entry. entry.0) devices

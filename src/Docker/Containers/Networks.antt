-- ===== src/Docker/Containers/Networks.antt =====
-- The network of a container: `prepareNetworkConfig` and `loadFromContainerNetworkConfig`, with the
-- filter `trimcontainername` of app/docker/filters/filters.js. The configuration that is loaded
-- shares its HostConfig with the details of the container.
pub mod Modes
use ui_for_docker.Prelude.{
  ℕ, zero, suc, Bool, true, false, not, Option, none, some, List, [], ◌∷◌, ◌++◌, map, keep, find,
  Text, codes, length, leb, if◌then◌else◌, ◌==◌, eq_list, eq_nat, includes, starts_with,
  after_prefix, nat_eq,
}
use ui_for_docker.Prelude.Dict.{Dict, lookup, insert, remove}
use ui_for_docker.Docker.Containers.{is_filled}

pub record Endpoint : Type 0 where
  pub ipam_config : Option (Text × Text)
  pub aliases : Option (List Text)

-- `EndpointsConfig` and `Networks`: a network may be undefined under its key.
abbrev pub Endpoints : Type 0
Endpoints = Dict Text (Option Endpoint)

pub record Container : Type 0 where
  pub id : Text
  pub names : List Text

-- What the form has as the container whose network is used.
pub data NetworkContainer : Type 0 where
  no_container : NetworkContainer
  named : Text → NetworkContainer
  running : Container → NetworkContainer

-- The part of the configuration and the part of the form that are about the network
pub record NetworkConfig : Type 0 where
  pub network_mode : Text
  pub endpoints : Endpoints

pub record NetworkForm : Type 0 where
  pub network_container : NetworkContainer
  pub mac_address : Text
  pub ipv4 : Text
  pub ipv6 : Text
  pub dns_primary : Text
  pub dns_secondary : Text
  pub extra_hosts : List Text

-- What is sent. `hostname_cleared` is whether Hostname becomes the empty text.
pub record SentNetwork : Type 0 where
  pub network_mode : Text
  pub hostname_cleared : Bool
  pub mac_address : Text
  pub endpoints : Endpoints
  pub dns : List Text
  pub extra_hosts : List Text

-- The details of a container
pub record Details : Type 0 where
  pub network_mode : Text
  pub networks : Endpoints
  pub mac_address : Text
  pub dns : List Text
  pub extra_hosts : Option (List Text)

pub record LoadedNetwork : Type 0 where
  pub config : NetworkConfig
  pub form : NetworkForm
  pub extra_networks : Endpoints
  pub multiple_networks : Bool

unfoldable pub trim_container_name : Text → Text
trim_container_name [] = []
trim_container_name (c ∷ s) = if nat_eq c b'/' then s else c ∷ s

-- `container.Names[0]`, where a container has a name.
unfoldable pub container_name : NetworkContainer → Text
unfolding trim_container_name
container_name no_container = []
container_name (named name) = name
container_name (running container) = elim container.names [
  | [] ↦ []
  | name ∷ names ↦ trim_container_name name
]

unfoldable pub aliases_at : Text → Endpoints → Option (List Text)
unfolding lookup
aliases_at mode endpoints = elim (lookup mode endpoints) [
  | none ↦ none
  | some none ↦ none
  | some (some endpoint) ↦ endpoint.aliases
]

-- The aliases that are kept: a prefix of the id of the container is not.
unfoldable pub kept_aliases : Text → Text → Endpoints → Option (List Text)
unfolding aliases_at keep starts_with is_filled
kept_aliases from_id mode endpoints =
    if is_filled mode
    then elim (aliases_at mode endpoints) [
      | some aliases ↦ some (keep (λ alias. not (starts_with from_id alias)) aliases)
      | none ↦ none
    ]
    else none

unfoldable pub filled_only : List Text → List Text
unfolding keep is_filled
filled_only texts = keep is_filled texts

unfoldable pub dns_servers : Text → Text → List Text
unfolding filled_only keep is_filled
dns_servers primary secondary = filled_only (primary ∷ secondary ∷ [])

unfoldable pub prepare_network_config : Text → NetworkConfig → NetworkForm → SentNetwork
unfolding container_name is_filled insert kept_aliases dns_servers filled_only
prepare_network_config from_id config form =
    let name = container_name form.network_container in
    let mode = if is_filled name then config.network_mode ++ b':' ∷ name else config.network_mode in
    record {
      network_mode = mode;
      hostname_cleared = is_filled name;
      mac_address = form.mac_address;
      endpoints =
          insert mode
            (some (record {
              ipam_config = some (form.ipv4, form.ipv6);
              aliases = kept_aliases from_id mode config.endpoints;
            }))
            config.endpoints;
      dns = dns_servers form.dns_primary form.dns_secondary;
      extra_hosts = filled_only form.extra_hosts;
    }

-- The loop over the running containers: the last one with the id.
unfoldable pub last_running : Text → List Container → NetworkContainer → NetworkContainer
last_running id [] found = found
last_running id (container ∷ containers) found =
    last_running id containers (if container.id == id then running container else found)

unfoldable pub default_mode : Text → List Text → Text
unfolding includes
default_mode mode available =
    if mode == codes "default"
    then (if includes available (codes "bridge") then codes "bridge" else codes "nat")
    else mode

-- The mode of the configuration, and the container whose network is used.
unfoldable pub load_mode : List Container → Text → Text × NetworkContainer
unfolding after_prefix last_running
load_mode containers mode = elim (after_prefix (codes "container:") mode) [
  | some id ↦ (codes "container", last_running id containers no_container)
  | none ↦ (mode, no_container)
]

-- The addresses of the form, which are empty before.
unfoldable pub addresses_at : Text → Endpoints → Text × Text
unfolding lookup
addresses_at mode networks = elim (lookup mode networks) [
  | none ↦ ([], [])
  | some none ↦ ([], [])
  | some (some network) ↦ elim network.ipam_config [ none ↦ ([], []) | some addresses ↦ addresses ]
]

unfoldable pub network_at : Text → Endpoints → Option Endpoint
unfolding lookup
network_at mode networks = elim (lookup mode networks) [ none ↦ none | some network ↦ network ]

-- The networks of the configuration, and the others: if there are two or more, the first is used.
unfoldable pub load_endpoints : Text → Endpoints → Endpoints × Endpoints
unfolding network_at remove
load_endpoints mode [] = ((mode, none) ∷ [], [])
load_endpoints mode ((key, network) ∷ []) = ((mode, network_at mode ((key, network) ∷ [])) ∷ [], [])
load_endpoints mode ((key, network) ∷ other ∷ networks) =
    ((mode, network) ∷ [], remove key ((key, network) ∷ other ∷ networks))

-- The second server is only read behind a first.
unfoldable pub load_dns : List Text → Text × Text
unfolding is_filled
load_dns [] = ([], [])
load_dns (primary ∷ []) = (primary, [])
load_dns (primary ∷ secondary ∷ others) =
    if is_filled primary then (primary, secondary) else ([], [])

abbrev hosts_of : Option (List Text) → List Text
hosts_of none = []
hosts_of (some hosts) = hosts

unfoldable pub load_in_mode : Text × NetworkContainer → Details → LoadedNetwork
unfolding addresses_at load_endpoints load_dns
load_in_mode (mode, container) details =
    let (ipv4, ipv6) = addresses_at mode details.networks in
    let (endpoints, others) = load_endpoints mode details.networks in
    let (primary, secondary) = load_dns details.dns in
    record {
      config = record { network_mode = mode; endpoints = endpoints };
      form = record {
        network_container = container;
        mac_address = details.mac_address;
        ipv4 = ipv4;
        ipv6 = ipv6;
        dns_primary = primary;
        dns_secondary = secondary;
        extra_hosts = hosts_of details.extra_hosts;
      };
      extra_networks = others;
      multiple_networks = leb 2 (length details.networks);
    }

unfoldable pub load_from_container_network_config :
    List Text → List Container → Details → LoadedNetwork
unfolding default_mode load_mode load_in_mode
load_from_container_network_config available containers details =
    load_in_mode (load_mode containers (default_mode details.network_mode available)) details

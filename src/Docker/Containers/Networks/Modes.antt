-- ===== src/Docker/Containers/Networks/Modes.antt =====
-- The network that a duplicated container is given.
use ui_for_docker.Prelude.{
  ◌≡◌, ◌≢◌, refl, ap, ◌∙◌, true, false, not, Option, none, some, List, [], ◌∷◌, ◌++◌, keep, any,
  Text, codes, take, if◌then◌else◌, ◌==◌, ==_iff, ==_self, eq_list, eq_nat, list_eq, arith,
  after_prefix, starts_with, All, Bool-cases, inl, inr,
}
use ui_for_docker.Prelude.Dict.{lookup, insert}
use ui_for_docker.Docker.Containers.{is_filled}
use ui_for_docker.Docker.Containers.Networks.{
  Endpoint, Container, NetworkContainer, no_container, running, Details, trim_container_name,
  container_name, aliases_at, kept_aliases, filled_only, dns_servers, prepare_network_config,
  last_running, default_mode, load_mode, addresses_at, load_endpoints, load_dns,
  load_from_container_network_config, load_in_mode, network_at, LoadedNetwork, SentNetwork,
}

last_running-absent :
    (id : Text) (containers : List Container) (found : NetworkContainer)
    → any (λ c. c.id == id) containers ≡ false
    → last_running id containers found ≡ found
unfolding last_running any
last_running-absent id [] found h = refl
last_running-absent id (container ∷ containers) found h =
    ground (arith, last_running-absent id containers found)

last_running-middle :
    (id : Text) (before : List Container) (container : Container) (after : List Container)
    (found : NetworkContainer)
    → container.id ≡ id
    → any (λ c. c.id == id) after ≡ false
    → last_running id (before ++ container ∷ after) found ≡ running container
unfolding last_running
last_running-middle id [] container after found e h =
    ground (arith, last_running-absent id after (running container) h, ==_iff container.id id)
last_running-middle id (other ∷ before) container after found e h =
    last_running-middle id before container after (if other.id == id then running other else found)
      e h

-- What is sent for the container that was duplicated, where the form was not edited.
unfoldable pub duplicated_network : Text → List Text → List Container → Details → SentNetwork
unfolding prepare_network_config load_from_container_network_config
duplicated_network from_id available containers details =
    let network = load_from_container_network_config available containers details in
    prepare_network_config from_id network.config network.form

-- A container that uses the network of a running container is sent with its name for its id, without
-- the slash that the name begins with.
pub duplicated_network-running :
    (from_id : Text) (available : List Text) (details : Details) (before : List Container)
    (container : Container) (after : List Container) (name : Text) (names : List Text)
    → details.network_mode ≡ codes "container:" ++ container.id
    → any (λ c. c.id == container.id) after ≡ false
    → container.names ≡ (b'/' ∷ name) ∷ names
    → is_filled name ≡ true
    → ((duplicated_network from_id available (before ++ container ∷ after) details).network_mode
        ≡ codes "container:" ++ name)
      × ((duplicated_network from_id available
            (before ++ container ∷ after)
            details).hostname_cleared
          ≡ true)
unfolding duplicated_network prepare_network_config load_from_container_network_config default_mode
    list_eq load_mode after_prefix container_name trim_container_name
duplicated_network-running from_id available details before container after name names m h n f =
    rw (m, last_running-middle container.id before container after no_container refl h, n, f)
      (refl, refl)

-- If that container does not run, its id is lost: the mode is the word `container` alone.
pub duplicated_network-stopped :
    (from_id : Text) (available : List Text) (details : Details) (containers : List Container)
    (id : Text)
    → details.network_mode ≡ codes "container:" ++ id
    → any (λ c. c.id == id) containers ≡ false
    → (duplicated_network from_id available containers details).network_mode ≡ codes "container"
unfolding duplicated_network prepare_network_config load_from_container_network_config default_mode
    list_eq load_mode after_prefix container_name is_filled
duplicated_network-stopped from_id available details containers id m h =
    rw (m, last_running-absent id containers no_container h) refl

unequal : (s t : Text) → s ≢ t → (s == t) ≡ false
unequal s t h = elim (Bool-cases (s == t)) [ inl e ↦ absurd (h ((==_iff s t).0 e)) | inr e ↦ e ]

default_mode-other :
    (mode : Text) (available : List Text)
    → mode ≢ codes "default"
    → default_mode mode available ≡ mode
unfolding default_mode
default_mode-other mode available h = rw (unequal mode (codes "default") h) refl

load_mode-other :
    (containers : List Container) (mode : Text)
    → after_prefix (codes "container:") mode ≡ none
    → load_mode containers mode ≡ (mode, no_container)
unfolding load_mode
load_mode-other containers mode h = rw h refl

dns_servers-load :
    (dns : List Text)
    → All (λ server. is_filled server ≡ true) dns
    → dns_servers (load_dns dns).0 (load_dns dns).1 ≡ take 2 dns
unfolding dns_servers filled_only load_dns keep is_filled
dns_servers-load [] h = refl
dns_servers-load (primary ∷ []) (p, h) = ground arith
dns_servers-load (primary ∷ secondary ∷ others) (p, (q, h)) = ground arith

abbrev own_endpoint : Text × Text → List Text → Endpoint
own_endpoint addresses aliases = record { ipam_config = some addresses; aliases = some aliases }

-- What is loaded for a container in the network `mode` alone.
abbrev own_network : Text → Endpoint → Text × Text → Text → Text × Text → List Text → LoadedNetwork
own_network mode endpoint addresses mac_address dns hosts = record {
  config = record { network_mode = mode; endpoints = (mode, some endpoint) ∷ [] };
  form = record {
    network_container = no_container;
    mac_address = mac_address;
    ipv4 = addresses.0;
    ipv6 = addresses.1;
    dns_primary = dns.0;
    dns_secondary = dns.1;
    extra_hosts = hosts;
  };
  extra_networks = [];
  multiple_networks = false;
}

network_at-own :
    (mode : Text) (endpoint : Endpoint)
    → network_at mode ((mode, some endpoint) ∷ []) ≡ some endpoint
unfolding network_at lookup
network_at-own mode endpoint = ground (arith, ==_self mode)

addresses_at-own :
    (mode : Text) (addresses : Text × Text) (aliases : List Text)
    → addresses_at mode ((mode, some (own_endpoint addresses aliases)) ∷ []) ≡ addresses
unfolding addresses_at lookup
addresses_at-own mode addresses aliases = ground (arith, ==_self mode)

kept_aliases-own :
    (from_id mode : Text) (ipam_config : Option (Text × Text)) (aliases : List Text)
    → is_filled mode ≡ true
    → kept_aliases from_id mode
        ((mode, some (record { ipam_config = ipam_config; aliases = some aliases })) ∷ [])
      ≡ some (keep (λ alias. not (starts_with from_id alias)) aliases)
unfolding kept_aliases aliases_at lookup
kept_aliases-own from_id mode ipam_config aliases f = rw (f, ==_self mode) refl

insert-own :
    (mode : Text) (endpoint other : Option Endpoint)
    → insert mode other ((mode, endpoint) ∷ []) ≡ (mode, other) ∷ []
unfolding insert
insert-own mode endpoint other = rw (==_self mode) refl

-- A container in the network `mode` alone
abbrev pub own_details : Text → Text → List Text → Text × Text → List Text → List Text → Details
own_details mode mac_address dns addresses aliases hosts = record {
  network_mode = mode;
  networks = (mode, some (own_endpoint addresses aliases)) ∷ [];
  mac_address = mac_address;
  dns = dns;
  extra_hosts = some hosts;
}

load_in_mode-own :
    (mode mac_address : Text) (dns : List Text) (addresses : Text × Text)
    (aliases hosts : List Text)
    → load_in_mode (mode, no_container) (own_details mode mac_address dns addresses aliases hosts)
      ≡ own_network mode (own_endpoint addresses aliases) addresses mac_address (load_dns dns) hosts
unfolding load_in_mode load_endpoints
load_in_mode-own mode mac_address dns addresses aliases hosts =
    rw
      (
        network_at-own mode (own_endpoint addresses aliases),
        addresses_at-own mode addresses aliases,
      )
      refl

prepare-own :
    (from_id mode mac_address : Text) (dns : List Text) (addresses : Text × Text)
    (aliases hosts : List Text)
    → is_filled mode ≡ true
    → All (λ server. is_filled server ≡ true) dns
    → let network =
        own_network mode
          (own_endpoint addresses aliases)
          addresses
          mac_address
          (load_dns dns)
          hosts in
      prepare_network_config from_id network.config network.form ≡ record {
        network_mode = mode;
        hostname_cleared = false;
        mac_address = mac_address;
        endpoints =
            (
              mode,
              some (record {
                ipam_config = some addresses;
                aliases = some (keep (λ alias. not (starts_with from_id alias)) aliases);
              }),
            )
            ∷ [];
        dns = take 2 dns;
        extra_hosts = keep is_filled hosts;
      }
unfolding prepare_network_config container_name filled_only is_filled insert
prepare-own from_id mode mac_address dns addresses aliases hosts f s =
    rw
      (
        kept_aliases-own from_id mode (some addresses) aliases f,
        dns_servers-load dns s,
        ==_self mode,
      )
      refl

-- A container in one network of its own is sent with the mode, the addresses, the MAC address and
-- the first two DNS servers of the container, the hosts that are not empty, and the aliases that are
-- no prefix of its id; other DNS servers are lost.
pub duplicated_network-own :
    (from_id : Text) (available : List Text) (containers : List Container) (mode mac_address : Text)
    (dns : List Text) (addresses : Text × Text) (aliases hosts : List Text)
    → mode ≢ codes "default"
    → is_filled mode ≡ true
    → after_prefix (codes "container:") mode ≡ none
    → All (λ server. is_filled server ≡ true) dns
    → duplicated_network from_id available containers
        (own_details mode mac_address dns addresses aliases hosts)
      ≡ record {
        network_mode = mode;
        hostname_cleared = false;
        mac_address = mac_address;
        endpoints =
            (
              mode,
              some (record {
                ipam_config = some addresses;
                aliases = some (keep (λ alias. not (starts_with from_id alias)) aliases);
              }),
            )
            ∷ [];
        dns = take 2 dns;
        extra_hosts = keep is_filled hosts;
      }
unfolding duplicated_network load_from_container_network_config
duplicated_network-own from_id available containers mode mac_address dns addresses aliases hosts d f
      p s =
    let details = own_details mode mac_address dns addresses aliases hosts in
    ap
      (λ m.
        let given = load_in_mode m details in
        prepare_network_config from_id given.config given.form)
      (ap (load_mode containers) (default_mode-other mode available d)
        ∙ load_mode-other containers mode p)
    ∙ ap (λ given. prepare_network_config from_id given.config given.form)
        (load_in_mode-own mode mac_address dns addresses aliases hosts)
    ∙ prepare-own from_id mode mac_address dns addresses aliases hosts f s

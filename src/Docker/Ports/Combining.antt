-- ===== src/Docker/Ports/Combining.antt =====
-- `sortAndCombinePorts` of app/docker/helpers/containerHelper.js: from the port bindings of a
-- container to the rows of the form, consecutive ports as one range.
pub mod Grouping
pub mod Ranges
pub mod Hosts
use mathlib.Core.List.{reverse}
use ui_for_docker.Prelude.{
  ℕ, zero, suc, ◌+◌, ◌-◌, Bool, true, false, ◌&&◌, Option, none, some, List, [], ◌∷◌, ◌++◌, leb,
  ltb, nat_eq, if◌then◌else◌, Text, codes, split_at, eq_list, eq_nat, map,
}
use ui_for_docker.Prelude.Dict.{Dict, lookup, insert}
use ui_for_docker.Prelude.Decimal.{Number, nan, natural, negative, parse_int, show_number}
use ui_for_docker.Docker.Ports.{parse_port, create_port_range}
use ui_for_docker.Docker.Ports.Bindings.{HostBinding, Bindings}

-- A row of the result. The container port is a number, or a range once rows are combined.
pub record Combined : Type 0 where
  pub host_port : Text
  pub container_port : Text
  pub protocol : Text

-- `object[key] = object[key] || []; object[key].push(value)`
unfoldable pub add_key : Option (List Text) → Text → List Text
add_key none value = value ∷ []
add_key (some values) value = values ++ value ∷ []

unfoldable pub push_key : Text → Text → Dict Text (List Text) → Dict Text (List Text)
unfolding add_key
push_key key value groups = insert key (add_key (lookup key groups) value) groups

-- An undefined value as the key of an object.
abbrev pub key_of : Option Text → Text
key_of none = codes "undefined"
key_of (some text) = text

unfoldable pub second_part : Text × List Text → Text
second_part (first, []) = codes "undefined"
second_part (first, second ∷ parts) = second

-- `_.groupBy(keys, (portKey) => _.split(portKey, '/')[1])`
unfoldable pub group_from : List Text → Dict Text (List Text) → Dict Text (List Text)
group_from [] groups = groups
group_from (key ∷ keys) groups =
    group_from keys (push_key (second_part (split_at b'/' key)) key groups)

unfoldable pub group_by_protocol : List Text → Dict Text (List Text)
unfolding group_from
group_by_protocol keys = group_from keys []

-- `portBindings[portKey]`; iterating over undefined is an error that does not happen, since the
-- keys are those of the object.
unfoldable pub bindings_at : Text → Bindings → List HostBinding
bindings_at key bindings = elim (lookup key bindings) [ none ↦ [] | some found ↦ found ]

unfoldable pub push_hosts : Text → List HostBinding → Dict Text (List Text) → Dict Text (List Text)
push_hosts key [] groups = groups
push_hosts key (binding ∷ bindings) groups =
    push_hosts key bindings (push_key (key_of binding.host_ip) key groups)

-- The two nested loops that fill `portBindingKeysByHostIp`.
unfoldable pub group_by_host : List Text → Bindings → Dict Text (List Text) → Dict Text (List Text)
group_by_host [] bindings groups = groups
group_by_host (key ∷ keys) bindings groups =
    group_by_host keys bindings (push_hosts key (bindings_at key bindings) groups)

-- `parseInt(_.split(portKey, '/')[0], 10)`
unfoldable pub container_port_of : Text → Number
container_port_of key = parse_int (split_at b'/' key).0

-- lodash's ascending order: NaN comes last.
unfoldable pub ascends : Number → Number → Bool
ascends a nan = true
ascends nan (natural n) = false
ascends nan (negative n) = false
ascends (natural m) (natural n) = leb m n
ascends (natural m) (negative n) = false
ascends (negative m) (natural n) = true
ascends (negative m) (negative n) = leb n m

unfoldable pub insert_sorted : Text → List Text → List Text
unfolding ascends container_port_of
insert_sorted key [] = key ∷ []
insert_sorted key (k ∷ keys) =
    let rest = insert_sorted key keys in
    if ascends (container_port_of key) (container_port_of k) then key ∷ k ∷ keys else k ∷ rest

-- `_.orderBy`, which is stable.
unfoldable pub order_by_port : List Text → List Text
unfolding insert_sorted
order_by_port [] = []
order_by_port (key ∷ keys) = insert_sorted key (order_by_port keys)

-- The rows so far, newest first, with the ports of the last row, if it may be extended.
pub record Progress : Type 0 where
  pub rows : List Combined
  pub previous : Option (ℕ × Number)

-- `previousContainerPort === containerPort - 1`
unfoldable pub is_successor : Number → Number → Bool
is_successor nan n = false
is_successor (natural m) nan = false
is_successor (natural m) (natural n) = nat_eq n (m + 1)
is_successor (natural m) (negative n) = false
is_successor (negative m) nan = false
is_successor (negative m) (natural n) = nat_eq m 0 && nat_eq n 0
is_successor (negative m) (negative n) = nat_eq m (n + 1)

unfoldable pub is_consecutive : Option (ℕ × Number) → ℕ → Number → Bool
unfolding is_successor
is_consecutive none host container = false
is_consecutive (some (previous_host, previous_container)) host container =
    nat_eq host (previous_host + 1) && is_successor previous_container container

unfoldable pub extend_row : Combined → ℕ → Number → Combined
extend_row row host container = record row {
  host_port = create_port_range row.host_port (natural host);
  container_port = create_port_range row.container_port container;
}

-- The host port of a new row: `${ip}:${port}` where there is an address.
unfoldable pub labelled : Text → Text → Text
labelled [] port = port
labelled (c ∷ ip) port = (c ∷ ip) ++ b':' ∷ port

unfoldable pub new_row : Text → Text → Text → Number → Combined
unfolding labelled
new_row protocol ip host_port container = record {
  host_port = labelled ip host_port;
  container_port = show_number container;
  protocol = protocol;
}

unfoldable pub add_row : Combined → Option (ℕ × Number) → Progress → Progress
add_row row previous progress = record { rows = row ∷ progress.rows; previous = previous }

-- A single port: the last row is extended, or a new row is begun.
unfoldable pub add_single : List Combined → Option (ℕ × Number) → Combined → ℕ → Number → Progress
unfolding extend_row
add_single [] previous row host container = record {
  rows = row ∷ [];
  previous = some (host, container);
}
add_single (last ∷ rows) previous row host container =
    if is_consecutive previous host container
    then record { rows = extend_row last host container ∷ rows; previous = some (host, container) }
    else record { rows = row ∷ last ∷ rows; previous = some (host, container) }

-- One round of the innermost loop, by the number that the host port is read as.
unfoldable pub combine_step : Text → Text → Number → Text → Number → Progress → Progress
unfolding add_single add_row new_row
combine_step protocol ip nan host_port container progress =
    add_row (new_row protocol ip host_port container) none progress
combine_step protocol ip (negative n) host_port container progress =
    add_row (new_row protocol ip host_port container) none progress
combine_step protocol ip (natural zero) host_port container progress =
    add_row (new_row protocol ip host_port container) none progress
combine_step protocol ip (natural (suc n)) host_port container progress =
    add_single progress.rows progress.previous (new_row protocol ip host_port container) (suc n)
      container

-- `portBindings[portKey][0]` with the `shift` that follows it. `none` is the TypeError of a
-- missing binding or host port.
unfoldable pub take_binding : Text → List HostBinding → Bindings → Option (Text × Bindings)
take_binding key [] bindings = none
take_binding key (binding ∷ rest) bindings = elim binding.host_port [
  | none ↦ none
  | some port ↦ some (port, insert key rest bindings)
]

infixl 5 ◌>>=◌
abbrev pub ◌>>=◌ {ℓ κ} : {A : Type ℓ} {B : Type κ} → Option A → (A → Option B) → Option B
none >>= f = none
some a >>= f = f a

unfoldable pub combine_keys :
    Text → Text → List Text → Progress → Bindings → Option (Progress × Bindings)
combine_keys protocol ip [] progress bindings = some (progress, bindings)
combine_keys protocol ip (key ∷ keys) progress bindings = do
  (port, rest) ← take_binding key (bindings_at key bindings) bindings
  combine_keys protocol ip keys
      (combine_step protocol ip (parse_port port) port (container_port_of key) progress) rest

-- The loop over host addresses: the last ports are forgotten, the rows are kept.
unfoldable pub combine_hosts :
    Text → Dict Text (List Text) → List Combined → Bindings → Option (List Combined × Bindings)
combine_hosts protocol [] rows bindings = some (rows, bindings)
combine_hosts protocol ((ip, keys) ∷ hosts) rows bindings = do
  (progress, rest) ←
      combine_keys protocol ip (order_by_port keys) (record { rows = rows; previous = none })
        bindings
  combine_hosts protocol hosts progress.rows rest

unfoldable pub combine_protocols :
    Dict Text (List Text) → List Combined → Bindings → Option (List Combined)
combine_protocols [] rows bindings = some rows
combine_protocols ((protocol, keys) ∷ protocols) rows bindings = do
  (rows', rest) ← combine_hosts protocol (group_by_host keys bindings []) rows bindings
  combine_protocols protocols rows' rest

unfoldable pub keys_of : Bindings → List Text
keys_of [] = []
keys_of ((key, bindings) ∷ rest) = key ∷ keys_of rest

unfoldable pub sort_and_combine_ports : Bindings → Option (List Combined)
unfolding keys_of
sort_and_combine_ports bindings = do
  rows ← combine_protocols (group_by_protocol (keys_of bindings)) [] bindings
  some (reverse rows)

-- ===== src/Kubernetes/Ingresses/Payload.antt =====
-- `createPayload` of app/kubernetes/ingress/converter.js: an ingress as it is sent to the API. The
-- hosts of an ingress are texts where it was read from the API, and objects where it comes from the
-- form of a resource pool. A call that throws a TypeError has the result none.
pub mod Rules
use ui_for_docker.Prelude.{
  ℕ, Bool, true, false, ◌&&◌, ◌||◌, not, Option, none, some, List, [], ◌∷◌, ◌++◌, map, find,
  if◌then◌else◌, ◌==◌, eq_nat, eq_list, Text, codes, includes,
}
use ui_for_docker.Prelude.Dict.{Dict, lookup, insert}
use ui_for_docker.Kubernetes.Ingresses.{HostValue, Rule}

-- KubernetesResourcePoolIngressClassHostFormValue, with a number that tells objects apart
pub record HostFormValue : Type 0 where
  pub id : ℕ
  pub host : Text
  pub previous_host : Option Text
  pub needs_deletion : Bool

pub data Host : Type 0 where
  plain_host : Text → Host
  form_host : HostFormValue → Host

-- What is sent of a path.
pub record PathPayload : Type 0 where
  pub path : Option Text
  pub service_name : Text
  pub service_port : ℕ

-- `host` is none where it is unset or undefined, and may be an object that should have been a name.
pub record RulePayload : Type 0 where
  pub host : Option Host
  pub paths : Option (List PathPayload)

-- `p.Host === 'undefined' || p.Host === undefined`; as a key, the empty array is the empty text too.
unfoldable pub path_host : Option HostValue → Text
path_host none = []
path_host (some none) = []
path_host (some (some host)) = if host == codes "undefined" then [] else host

unfoldable pub grouped : Option (List Rule) → Rule → List Rule
grouped none p = p ∷ []
grouped (some paths) p = paths ++ p ∷ []

-- `_.groupBy(data.Paths, 'Host')`
unfoldable pub group_by_host : List Rule → Dict Text (List Rule) → Dict Text (List Rule)
unfolding path_host grouped
group_by_host [] groups = groups
group_by_host (p ∷ paths) groups =
    let host = path_host p.host in
    group_by_host paths (insert host (grouped (lookup host groups) p) groups)

-- `h === host || h.PreviousHost === host`
unfoldable pub is_host_of : Text → Host → Bool
is_host_of host (plain_host name) = name == host
is_host_of host (form_host h) = elim h.previous_host [
  | none ↦ false
  | some previous ↦ previous == host
]

-- `h.Host || h`
unfoldable pub host_name : Host → Host
host_name (plain_host name) = plain_host name
host_name (form_host h) = elim h.host [ [] ↦ form_host h | c ∷ host ↦ plain_host (c ∷ host) ]

unfoldable pub needs_deletion : Host → Bool
needs_deletion (plain_host name) = false
needs_deletion (form_host h) = h.needs_deletion

-- `assignOrDeleteIfEmpty(rule, 'host', host)`
unfoldable pub assigned_host : Host → Option Host
assigned_host (plain_host []) = none
assigned_host (plain_host (c ∷ name)) = some (plain_host (c ∷ name))
assigned_host (form_host h) = some (form_host h)

unfoldable pub path_payload : Rule → PathPayload
path_payload p = record { path = p.path; service_name = p.service_name; service_port = p.port }

-- The rules of the groups, and `hostsWithRules`
unfoldable pub add_rule :
    Option Host
    → List Rule
    → Option (List RulePayload × List Host)
    → Option (List RulePayload × List Host)
unfolding host_name needs_deletion assigned_host path_payload
add_rule none paths rest = none
add_rule (some h) paths none = none
add_rule (some h) paths (some (rules, hosts)) =
    if needs_deletion h
    then some (rules, hosts)
    else some (
      record { host = assigned_host (host_name h); paths = some (map path_payload paths) } ∷ rules,
      host_name h ∷ hosts,
    )

unfoldable pub rules_of : List Host → Dict Text (List Rule) → Option (List RulePayload × List Host)
unfolding is_host_of add_rule
rules_of hosts [] = some ([], [])
rules_of hosts ((host, paths) ∷ groups) =
    add_rule (find (is_host_of host) hosts) paths (rules_of hosts groups)

-- `===` on hosts: objects are equal if they are the same.
unfoldable pub same_host : Host → Host → Bool
same_host (plain_host a) (plain_host b) = a == b
same_host (plain_host a) (form_host h) = false
same_host (form_host h) (plain_host b) = false
same_host (form_host h) (form_host k) = h.id == k.id

unfoldable pub has_host : Host → List Host → Bool
unfolding same_host
has_host h [] = false
has_host h (k ∷ hosts) = same_host h k || has_host h hosts

-- `emptyRules`: the hosts that are kept and have no rule.
unfoldable pub empty_rules : List Host → List Host → List RulePayload
unfolding has_host host_name needs_deletion
empty_rules with_rules [] = []
empty_rules with_rules (h ∷ hosts) =
    let rest = empty_rules with_rules hosts in
    if needs_deletion h
    then rest
    else if has_host (host_name h) with_rules
    then rest
    else record { host = some (host_name h); paths = none } ∷ rest

-- `host.Host`, of a text undefined
unfoldable pub host_property : Host → Option Host
host_property (plain_host name) = none
host_property (form_host h) = some (plain_host h.host)

unfoldable pub bare_rules : List Host → List RulePayload
unfolding host_property needs_deletion
bare_rules [] = []
bare_rules (h ∷ hosts) =
    let rest = bare_rules hosts in
    if needs_deletion h then rest else record { host = host_property h; paths = none } ∷ rest

unfoldable pub with_empty_rules :
    List Host → Option (List RulePayload × List Host) → Option (List RulePayload)
unfolding empty_rules
with_empty_rules hosts none = none
with_empty_rules hosts (some (rules, with_rules)) = some (rules ++ empty_rules with_rules hosts)

-- `spec.rules`, which is unset if it is empty and there are paths.
unfoldable pub payload_rules : List Rule → List Host → Option (List RulePayload)
unfolding with_empty_rules rules_of group_by_host bare_rules
payload_rules [] hosts = some (bare_rules hosts)
payload_rules (p ∷ paths) hosts =
    with_empty_rules hosts (rules_of hosts (group_by_host (p ∷ paths) []))

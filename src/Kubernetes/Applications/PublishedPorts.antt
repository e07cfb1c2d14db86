-- ===== src/Kubernetes/Applications/PublishedPorts.antt =====
-- The published ports of an application as form values
-- (app/kubernetes/helpers/application/index.js). A call that throws a TypeError has the result none.
pub mod Untouched
use ui_for_docker.Prelude.{
  ℕ, Bool, true, false, Option, none, some, List, [], ◌∷◌, ◌++◌, find, ◌==◌, eq_list, eq_nat, Text,
}
use ui_for_docker.Kubernetes.Ingresses.{Rule, Ingress, PublishedPort}

pub data ServiceType : Type 0 where
  load_balancer node_port other : ServiceType

pub record ServicePort : Type 0 where
  pub port : ℕ
  pub target_port : ℕ
  pub node_port : Option ℕ
  pub protocol : Text
  pub ingress_rules : List Rule

unfoldable pub load_balancer_port : ServiceType → ServicePort → Option ℕ
load_balancer_port load_balancer port = some port.port
load_balancer_port node_port port = none
load_balancer_port other port = none

unfoldable pub load_balancer_node_port : ServiceType → ServicePort → Option ℕ
load_balancer_node_port load_balancer port = port.node_port
load_balancer_node_port node_port port = none
load_balancer_node_port other port = none

unfoldable pub node_port_of : ServiceType → ServicePort → Option ℕ
node_port_of load_balancer port = none
node_port_of node_port port = port.node_port
node_port_of other port = none

unfoldable pub plain_port : ServiceType → ServicePort → PublishedPort
unfolding load_balancer_port load_balancer_node_port node_port_of
plain_port type port = record {
  protocol = port.protocol;
  node_port = node_port_of type port;
  load_balancer_port = load_balancer_port type port;
  load_balancer_node_port = load_balancer_node_port type port;
  ingress_hosts = some [];
  container_port = port.target_port;
  ingress_name = none;
  ingress_route = none;
  ingress_host = none;
  needs_deletion = false;
  is_new = false;
}

-- `ingress && ingress.find(…).Hosts`
unfoldable pub hosts_of_found : Option Ingress → Option (Option (List Text))
hosts_of_found none = none
hosts_of_found (some ingress) = some (some ingress.hosts)

unfoldable pub rule_hosts : Option (List Ingress) → Rule → Option (Option (List Text))
unfolding hosts_of_found
rule_hosts none rule = some none
rule_hosts (some ingresses) rule =
    hosts_of_found (find (λ i. i.name == rule.ingress_name) ingresses)

unfoldable pub port_with :
    ServiceType → ServicePort → Rule → Option (Option (List Text)) → Option PublishedPort
unfolding plain_port
port_with type port rule none = none
port_with type port rule (some hosts) = some (record (plain_port type port) {
  ingress_name = some rule.ingress_name;
  ingress_route = rule.path;
  ingress_host = rule.host;
  ingress_hosts = hosts;
})

unfoldable pub cons_port :
    Option PublishedPort → Option (List PublishedPort) → Option (List PublishedPort)
cons_port none rest = none
cons_port (some port) none = none
cons_port (some port) (some rest) = some (port ∷ rest)

unfoldable pub rule_ports :
    ServiceType → ServicePort → Option (List Ingress) → List Rule → Option (List PublishedPort)
unfolding port_with rule_hosts cons_port
rule_ports type port ingresses [] = some []
rule_ports type port ingresses (rule ∷ rules) =
    cons_port (port_with type port rule (rule_hosts ingresses rule))
      (rule_ports type port ingresses rules)

unfoldable pub ports_of :
    ServiceType → ServicePort → Option (List Ingress) → List Rule → Option (List PublishedPort)
unfolding plain_port rule_ports
ports_of type port ingresses [] = some (plain_port type port ∷ [])
ports_of type port ingresses (rule ∷ rules) = rule_ports type port ingresses (rule ∷ rules)

unfoldable pub append_ports :
    Option (List PublishedPort) → Option (List PublishedPort) → Option (List PublishedPort)
append_ports none rest = none
append_ports (some ports) none = none
append_ports (some ports) (some rest) = some (ports ++ rest)

unfoldable pub generate_published_ports_form_values_from_published_ports :
    ServiceType → List ServicePort → Option (List Ingress) → Option (List PublishedPort)
unfolding ports_of append_ports
generate_published_ports_form_values_from_published_ports type [] ingresses = some []
generate_published_ports_form_values_from_published_ports type (port ∷ ports) ingresses =
    append_ports (ports_of type port ingresses port.ingress_rules)
      (generate_published_ports_form_values_from_published_ports type ports ingresses)

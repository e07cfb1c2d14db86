-- ===== src/Kubernetes/Applications/PublishedPorts/Untouched.antt =====
-- Published ports that are shown in a form and not edited.
use mathlib.Core.Path.{ap₂}
use ui_for_docker.Prelude.{
  ◌≡◌, refl, ap, true, Option, some, List, [], ◌∷◌, ◌++◌, All, All-append, find, ◌==◌, eq_list,
  eq_nat, Text,
}
use ui_for_docker.Kubernetes.Ingresses.{
  Rule, Ingress, PublishedPort, application_form_values_to_ingresses,
}
use ui_for_docker.Kubernetes.Ingresses.Paths.{
  is_untouched, application_form_values_to_ingresses-untouched,
}
use ui_for_docker.Kubernetes.Applications.PublishedPorts.{
  ServiceType, ServicePort, plain_port, hosts_of_found, rule_hosts, port_with, cons_port,
  rule_ports, ports_of, append_ports, generate_published_ports_form_values_from_published_ports,
}

-- The ingress of a rule is among the ingresses.
abbrev pub IsKnownRule : List Ingress → Rule → Type 0
IsKnownRule ingresses rule =
    (ingress : Ingress) × (find (λ i. i.name == rule.ingress_name) ingresses ≡ some ingress)

abbrev AreUntouched : Option (List PublishedPort) → Type 0
AreUntouched o =
    (ports : List PublishedPort) × (o ≡ some ports) × All (λ p. is_untouched p ≡ true) ports

port_with-untouched :
    (type : ServiceType) (port : ServicePort) (rule : Rule) (ingresses : List Ingress)
    → IsKnownRule ingresses rule
    → (p : PublishedPort) × (port_with type port rule (rule_hosts (some ingresses) rule) ≡ some p)
      × (is_untouched p ≡ true)
unfolding port_with rule_hosts hosts_of_found plain_port is_untouched
port_with-untouched type port rule ingresses (ingress, e) =
    (_, ap (λ found. port_with type port rule (hosts_of_found found)) e, refl)

rule_ports-untouched :
    (type : ServiceType) (port : ServicePort) (ingresses : List Ingress) (rules : List Rule)
    → All (IsKnownRule ingresses) rules
    → AreUntouched (rule_ports type port (some ingresses) rules)
unfolding rule_ports cons_port
rule_ports-untouched type port ingresses [] h = ([], refl, tt)
rule_ports-untouched type port ingresses (rule ∷ rules) (k, h) =
    let (p, e, u) = port_with-untouched type port rule ingresses k in
    let (ports, es, us) = rule_ports-untouched type port ingresses rules h in
    (p ∷ ports, ap₂ cons_port e es, (u, us))

ports_of-untouched :
    (type : ServiceType) (port : ServicePort) (ingresses : List Ingress) (rules : List Rule)
    → All (IsKnownRule ingresses) rules
    → AreUntouched (ports_of type port (some ingresses) rules)
unfolding ports_of plain_port is_untouched
ports_of-untouched type port ingresses [] h = (_, refl, (refl, tt))
ports_of-untouched type port ingresses (rule ∷ rules) h =
    rule_ports-untouched type port ingresses (rule ∷ rules) h

generated-untouched :
    (type : ServiceType) (ports : List ServicePort) (ingresses : List Ingress)
    → All (λ port. All (IsKnownRule ingresses) port.ingress_rules) ports
    → AreUntouched
        (generate_published_ports_form_values_from_published_ports type ports (some ingresses))
unfolding generate_published_ports_form_values_from_published_ports append_ports
generated-untouched type [] ingresses h = ([], refl, tt)
generated-untouched type (port ∷ ports) ingresses (k, h) =
    let (first, e, u) = ports_of-untouched type port ingresses port.ingress_rules k in
    let (rest, es, us) = generated-untouched type ports ingresses h in
    (first ++ rest, ap₂ append_ports e es, All-append (λ p. is_untouched p ≡ true) first rest u us)

-- The form of an application whose rules name ingresses that exist is made without an error, and
-- saving its ports as they are changes no ingress.
pub generate_published_ports-unedited :
    (type : ServiceType) (ports : List ServicePort) (ingresses : List Ingress) (service_name : Text)
    → All (λ port. All (IsKnownRule ingresses) port.ingress_rules) ports
    → (published : List PublishedPort) × (generate_published_ports_form_values_from_published_ports
          type ports
          (some ingresses)
        ≡ some published)
      × (application_form_values_to_ingresses published service_name ingresses ≡ ingresses)
generate_published_ports-unedited type ports ingresses service_name h =
    let (published, e, u) = generated-untouched type ports ingresses h in
    (
      published,
      e,
      application_form_values_to_ingresses-untouched published service_name ingresses u,
    )

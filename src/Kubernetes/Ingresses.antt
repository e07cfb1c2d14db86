-- ===== src/Kubernetes/Ingresses.antt =====
-- Ingresses (app/kubernetes/ingress/converter.js): what is read of the API, and the paths that the
-- published ports of an application add and remove. What is undefined is none.
pub mod Paths
pub mod Payload
use ui_for_docker.Prelude.{
  ℕ, Bool, true, false, ◌&&◌, ◌||◌, not, Option, none, some, List, [], ◌∷◌, ◌++◌, map, keep, find,
  if◌then◌else◌, ◌==◌, eq_nat, eq_list, eq_option, Text, codes, starts_with, includes, nat_eq,
}
use ui_for_docker.Prelude.Dict.{Dict, lookup}

-- The value of a host: a text, or none for the empty array, which the form of an application gives a
-- port of an ingress without hosts.
abbrev pub HostValue : Type 0
HostValue = Option Text

-- KubernetesIngressRule
pub record Rule : Type 0 where
  pub ingress_name : Text
  pub service_name : Text
  pub host : Option HostValue
  pub ip : Option Text
  pub port : ℕ
  pub path : Option Text

-- KubernetesIngress
pub record Ingress : Type 0 where
  pub name : Text
  pub namespace : Text
  pub annotations : Dict Text Text
  pub ingress_class_name : Option Text
  pub hosts : List Text
  pub paths : List Rule

-- What the API calls a path of a rule, and a rule.
pub record ApiPath : Type 0 where
  pub path : Option Text
  pub service_name : Text
  pub service_port : ℕ

pub record ApiRule : Type 0 where
  pub host : Option Text
  pub http_paths : Option (List ApiPath)

pub record ApiIngress : Type 0 where
  pub name : Text
  pub namespace : Text
  pub annotations : Option (Dict Text Text)
  pub ingress_class_name : Option Text
  pub rules : List ApiRule
  pub load_balancer_ip : Option Text

unfoldable pub text_or_empty : Option Text → Text
text_or_empty none = []
text_or_empty (some text) = text

unfoldable pub rule_paths : ApiIngress → Option Text → List ApiPath → List Rule
unfolding text_or_empty
rule_paths ingress host [] = []
rule_paths ingress host (path ∷ paths) =
    record {
      ingress_name = ingress.name;
      service_name = path.service_name;
      host = some (some (text_or_empty host));
      ip = ingress.load_balancer_ip;
      port = path.service_port;
      path = path.path;
    }
    ∷ rule_paths ingress host paths

unfoldable pub http_rule_paths : ApiIngress → ApiRule → Option (List ApiPath) → List Rule
http_rule_paths ingress rule none = []
http_rule_paths ingress rule (some paths) = rule_paths ingress rule.host paths

unfoldable pub api_paths : ApiIngress → List ApiRule → List Rule
unfolding http_rule_paths
api_paths ingress [] = []
api_paths ingress (rule ∷ rules) =
    http_rule_paths ingress rule rule.http_paths ++ api_paths ingress rules

-- `_.uniq`, which keeps the first of equal hosts, from the hosts that were seen
unfoldable pub uniq_from : List (Option Text) → List (Option Text) → List (Option Text)
uniq_from seen [] = []
uniq_from seen (host ∷ hosts) =
    let rest = uniq_from seen hosts in
    let fresh = uniq_from (host ∷ seen) hosts in if includes seen host then rest else host ∷ fresh

-- The host that is undefined, of which there is at most one, becomes the empty text.
unfoldable pub hosts_of : List ApiRule → List Text
unfolding uniq_from text_or_empty
hosts_of rules = map text_or_empty (uniq_from [] (map (λ rule. rule.host) rules))

abbrev pub class_annotation : Text
class_annotation = codes "kubernetes.io/ingress.class"

unfoldable pub annotations_or_empty : Option (Dict Text Text) → Dict Text Text
annotations_or_empty none = []
annotations_or_empty (some annotations) = annotations

-- The class of the annotation, if it is there and not empty, or that of the `spec`.
unfoldable pub class_name : Option Text → Option Text → Option Text
class_name none spec_class = spec_class
class_name (some []) spec_class = spec_class
class_name (some (c ∷ name)) spec_class = some (c ∷ name)

unfoldable pub api_to_model : ApiIngress → Ingress
unfolding class_name hosts_of annotations_or_empty api_paths
api_to_model ingress = record {
  name = ingress.name;
  namespace = ingress.namespace;
  annotations = annotations_or_empty ingress.annotations;
  ingress_class_name =
      class_name (lookup class_annotation (annotations_or_empty ingress.annotations))
        ingress.ingress_class_name;
  hosts = hosts_of ingress.rules;
  paths = api_paths ingress ingress.rules;
}

-- KubernetesApplicationPublishedPortFormValue. A number that is not filled in is none.
pub record PublishedPort : Type 0 where
  pub protocol : Text
  pub node_port : Option ℕ
  pub load_balancer_port : Option ℕ
  pub load_balancer_node_port : Option ℕ
  pub ingress_hosts : Option (List Text)
  pub container_port : ℕ
  pub ingress_name : Option Text
  pub ingress_route : Option Text
  pub ingress_host : Option HostValue
  pub needs_deletion : Bool
  pub is_new : Bool

unfoldable pub same_rule : Rule → Rule → Bool
same_rule r s =
    r.ingress_name == s.ingress_name
    && (r.service_name == s.service_name
        && (r.host == s.host && (r.ip == s.ip && (nat_eq r.port s.port && r.path == s.path))))

unfoldable pub is_path_of : PublishedPort → Text → Rule → Bool
is_path_of p service_name r =
    nat_eq r.port p.container_port && (r.service_name == service_name && r.path == p.ingress_route)

-- `_.remove(ingress.Paths, path)`: every path equal to `path`, and all paths if `path` is undefined,
-- since lodash then reads the predicate as the identity.
unfoldable pub remove_path : Option Rule → List Rule → List Rule
remove_path none paths = []
remove_path (some path) paths = keep (λ r. not (same_rule path r)) paths

-- The route with a slash in front; an empty route leaves the empty path of the model.
unfoldable pub route_path : Option Text → Text
route_path none = []
route_path (some []) = []
route_path (some (c ∷ route)) = if nat_eq c b'/' then c ∷ route else b'/' ∷ c ∷ route

unfoldable pub new_rule : Text → Text → PublishedPort → Rule
unfolding route_path
new_rule name service_name p = record {
  ingress_name = name;
  service_name = service_name;
  host = p.ingress_host;
  ip = some [];
  port = p.container_port;
  path = some (route_path p.ingress_route);
}

unfoldable pub apply_to_paths : PublishedPort → Text → Text → List Rule → List Rule
unfolding is_path_of remove_path new_rule
apply_to_paths p service_name name paths =
    if p.needs_deletion
    then remove_path (find (is_path_of p service_name) paths) paths
    else if p.is_new
    then paths ++ new_rule name service_name p ∷ []
    else paths

-- The first ingress with the name of the port is changed where it stands.
unfoldable pub apply_port : PublishedPort → Text → List Ingress → List Ingress
unfolding apply_to_paths
apply_port p service_name [] = []
apply_port p service_name (ingress ∷ ingresses) =
    let rest = apply_port p service_name ingresses in
    if some ingress.name == p.ingress_name
    then record ingress { paths = apply_to_paths p service_name ingress.name ingress.paths }
      ∷ ingresses
    else ingress ∷ rest

unfoldable pub application_form_values_to_ingresses :
    List PublishedPort → Text → List Ingress → List Ingress
unfolding apply_port
application_form_values_to_ingresses [] service_name ingresses = ingresses
application_form_values_to_ingresses (p ∷ ports) service_name ingresses =
    application_form_values_to_ingresses ports service_name (apply_port p service_name ingresses)

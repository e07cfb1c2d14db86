-- ===== src/Tests/Clusters.antt =====
-- Nodes, ingresses, stacks, placements, labels and forms of a Kubernetes cluster at concrete inputs.
use ui_for_docker.Prelude.{
  String, ◌≡◌, ◌≢◌, refl, none, some, List, [], ◌∷◌, ◌++◌, map, keep, all, find, Text, codes, true,
  false, All, eq_list, eq_nat, eq_string, eq_option, list_eq, option_eq, if◌then◌else◌,
}
use ui_for_docker.Prelude.Dict.{lookup, insert, HasDistinctKeys}
use ui_for_docker.Kubernetes.Labels.{owner_to_label}
use ui_for_docker.Kubernetes.Labels.Valid.{IsLabelValue, owner_to_label-IsLabelValue}
use ui_for_docker.Kubernetes.Stacks.{Application, stacks_from_applications}
use ui_for_docker.Kubernetes.Stacks.Laws.{
  AreDistinct, applications_of, in_stack, stacks_from_applications-partition,
}
use ui_for_docker.Kubernetes.Applications.Placements.{
  NodeLabel, Placement, preferred, mandatory, replicated, generate_affinity_from_placements,
  has_label_key,
}
use ui_for_docker.Kubernetes.Applications.Placements.RoundTrip.{
  is_kept, label_of, IsKnown, is_valued, as_read, read_back, generate_affinity-read_back,
}
use ui_for_docker.Kubernetes.Applications.PublishedPorts.{
  load_balancer, ServicePort, generate_published_ports_form_values_from_published_ports,
}
use ui_for_docker.Kubernetes.Applications.PublishedPorts.Untouched.{
  IsKnownRule, generate_published_ports-unedited,
}
use ui_for_docker.Kubernetes.Pods.{ApiPod, api_to_model}
use ui_for_docker.Kubernetes.Pods.Statuses.{Agrees, api_to_model-Agrees}
use ui_for_docker.Kubernetes.Nodes.{active, drain, master, ready, Node, NodeFormValues}
use ui_for_docker.Kubernetes.Ingresses.{
  Rule, Ingress, PublishedPort, is_path_of, application_form_values_to_ingresses,
}
use ui_for_docker.Kubernetes.Ingresses.Payload.{
  Host, plain_host, path_payload, payload_rules, with_empty_rules, rules_of, add_rule,
  group_by_host, path_host, grouped, is_host_of, empty_rules, has_host, same_host, host_name,
  needs_deletion, assigned_host,
}
use ui_for_docker.Kubernetes.Ingresses.Payload.Rules.{has_rule, payload_rules-host}
use ui_for_docker.Kubernetes.Ingresses.Paths.{
  is_untouched, deleted, paths_of, application_form_values_to_ingresses-add_delete,
}

owner_to_label-IsLabelValue_example : IsLabelValue (owner_to_label (codes "-jane doe@x"))
owner_to_label-IsLabelValue_example = owner_to_label-IsLabelValue (codes "-jane doe@x")

abbrev three_names : List Text
three_names = codes "a" ∷ codes "b c" ∷ codes "a" ∷ []

abbrev two_applications : List Application
two_applications =
    record { stack_name = "shop"; resource_pool = "prod"; id = 1 }
    ∷ record { stack_name = "-"; resource_pool = "prod"; id = 2 }
    ∷ []

stacks_from_applications-partition_example :
    AreDistinct (stacks_from_applications two_applications)
    × ((name pool : String)
        → applications_of name pool (stacks_from_applications two_applications)
          ≡ keep (in_stack name pool) two_applications)
stacks_from_applications-partition_example = stacks_from_applications-partition two_applications

abbrev zone : NodeLabel
zone = record { key = "zone"; values = "a" ∷ "b" ∷ [] }

abbrev in_zone : Placement
in_zone = record { label = some zone; value = some "a"; needs_deletion = false; is_new = true }

in_zone-IsKnown : IsKnown (zone ∷ []) in_zone
unfolding label_of find has_label_key
in_zone-IsKnown h = ((λ e. cc e), refl)

in_zone-kept : keep is_kept (in_zone ∷ []) ≢ []
unfolding keep is_kept
in_zone-kept e = cc e

generate_affinity-read_back_example :
    read_back preferred []
      (zone ∷ [])
      (generate_affinity_from_placements replicated mandatory (in_zone ∷ []) none)
    ≡ (if all is_valued (keep is_kept (in_zone ∷ []))
        then some (mandatory, [] ++ map as_read (keep is_kept (in_zone ∷ [])))
        else none)
generate_affinity-read_back_example =
    generate_affinity-read_back (zone ∷ []) preferred mandatory [] (in_zone ∷ []) none
      (in_zone-IsKnown, tt) in_zone-kept

abbrev master_node : Node
master_node = record {
  id = "1";
  name = some "m";
  labels = ("zone", "a") ∷ [];
  role = master;
  conditions = record {
    memory_pressure = false;
    pid_pressure = false;
    disk_pressure = false;
    network_unavailable = false;
  };
  availability = active;
  status = ready;
  memory = "1Ki";
  version = "v1";
  ip_address = "-";
  taints = [];
}

master_node-HasDistinctKeys : HasDistinctKeys master_node.labels
unfolding lookup
master_node-HasDistinctKeys = (refl, tt)

abbrev drained : NodeFormValues
drained = record { availability = drain; taints = []; labels = [] }

abbrev other_path : Rule
other_path = record {
  ingress_name = codes "in";
  service_name = codes "other";
  host = some (some (codes "h"));
  ip = none;
  port = 80;
  path = some (codes "/other");
}

abbrev one_ingress : List Ingress
one_ingress =
    record {
      name = codes "in";
      namespace = codes "prod";
      annotations = [];
      ingress_class_name = none;
      hosts = codes "h" ∷ [];
      paths = other_path ∷ [];
    }
    ∷ []

abbrev new_port : PublishedPort
new_port = record {
  protocol = codes "TCP";
  node_port = none;
  load_balancer_port = none;
  load_balancer_node_port = none;
  ingress_hosts = some [];
  container_port = 8080;
  ingress_name = some (codes "in");
  ingress_route = some (codes "web");
  ingress_host = some (some (codes "h"));
  needs_deletion = false;
  is_new = true;
}

abbrev old_port : PublishedPort
old_port = record new_port { is_new = false }

new_port-HasNoPath : find (is_path_of (deleted new_port) (codes "shop")) (other_path ∷ []) ≡ none
unfolding find is_path_of deleted
new_port-HasNoPath = refl

application_form_values_to_ingresses-add_delete_example :
    application_form_values_to_ingresses
      (new_port ∷ deleted new_port ∷ [])
      (codes "shop")
      one_ingress
    ≡ one_ingress
unfolding paths_of option_eq list_eq
application_form_values_to_ingresses-add_delete_example =
    application_form_values_to_ingresses-add_delete new_port (codes "shop") one_ingress refl refl
      new_port-HasNoPath

old_port-is_untouched : is_untouched old_port ≡ true
unfolding is_untouched
old_port-is_untouched = refl

abbrev own_rule : Rule
own_rule = record other_path { service_name = codes "shop"; path = some (codes "/web") }

abbrev web_port : ServicePort
web_port = record {
  port = 80;
  target_port = 8080;
  node_port = some 30080;
  protocol = codes "TCP";
  ingress_rules = own_rule ∷ [];
}

own_rule-IsKnownRule : IsKnownRule one_ingress own_rule
unfolding find list_eq
own_rule-IsKnownRule = (_, refl)

generate_published_ports-unedited_example :
    (published : List PublishedPort) × (generate_published_ports_form_values_from_published_ports
        load_balancer
        (web_port ∷ [])
        (some one_ingress)
      ≡ some published)
    × (application_form_values_to_ingresses published (codes "shop") one_ingress ≡ one_ingress)
generate_published_ports-unedited_example =
    generate_published_ports-unedited load_balancer (web_port ∷ []) one_ingress (codes "shop")
      ((own_rule-IsKnownRule, tt), tt)

abbrev web_pod : ApiPod
web_pod = record {
  uid = "1";
  name = "web";
  namespace = "prod";
  node_name = "n";
  start_time = "t";
  containers = record { name = "c"; image = "nginx"; image_pull_policy = none } ∷ [];
  init_containers = [];
  container_statuses =
      record { name = "c"; state = record { running = true; waiting = false }; restart_count = 0 }
      ∷ [];
  labels = [];
  tolerations = [];
}

api_to_model-Agrees_example :
    All (Agrees (api_to_model web_pod).status) (api_to_model web_pod).containers
api_to_model-Agrees_example = api_to_model-Agrees web_pod

abbrev read_host : Host
read_host = plain_host (codes "h")

read_host-kept : needs_deletion read_host ≡ false
unfolding needs_deletion
read_host-kept = refl

payload_rules-of_path :
    payload_rules (other_path ∷ []) ([] ++ read_host ∷ [])
    ≡ some (record { host = some read_host; paths = some (path_payload other_path ∷ []) } ∷ [])
unfolding payload_rules with_empty_rules rules_of add_rule group_by_host path_host grouped
    is_host_of empty_rules has_host same_host host_name needs_deletion assigned_host find insert
    lookup list_eq
payload_rules-of_path = refl

payload_rules-host_example :
    has_rule
      (host_name read_host)
      (record { host = some read_host; paths = some (path_payload other_path ∷ []) } ∷ [])
    ≡ true
payload_rules-host_example =
    payload_rules-host other_path [] [] [] read_host _ read_host-kept payload_rules-of_path

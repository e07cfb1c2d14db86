-- ===== src/Kubernetes/Applications/PortForm.antt =====
-- The published ports of the form of an application
-- (app/kubernetes/views/applications/create/createApplicationController.js). A number that is typed
-- is the text that it is printed as, undefined and an empty field are the empty text.
pub mod Marks
pub mod Changes
pub mod Editing
pub mod Kept
pub mod Routes
use ui_for_docker.Prelude.{
  ℕ, zero, suc, ◌+◌, Bool, true, false, not, ◌&&◌, ◌||◌, Option, none, some, List, [], ◌∷◌, ◌++◌,
  map, keep, find, Text, codes, includes, if◌then◌else◌, ◌==◌, eq_list, eq_nat, eq_option,
  get_elem?,
}
use ui_for_docker.Prelude.Dict.{Dict, insert}
use ui_for_docker.Kubernetes.FormValidation.{get_duplicates}

pub data PublishingType : Type 0 where
  internal cluster load_balancer ingress : PublishingType

-- The host of a port: undefined, the empty array that stands for the host of an ingress without
-- hosts, or a name.
pub data Host : Type 0 where
  no_host : Host
  empty_array : Host
  host_name : Text → Host

-- KubernetesApplicationPublishedPortFormValue
pub record Port : Type 0 where
  pub needs_deletion : Bool
  pub is_new : Bool
  pub container_port : Text
  pub node_port : Text
  pub load_balancer_port : Text
  pub protocol : Text
  pub ingress_name : Option Text
  pub ingress_route : Text
  pub ingress_host : Host
  pub ingress_hosts : List Text

pub record IngressPath : Type 0 where
  pub host : Text
  pub path : Text

pub record Ingress : Type 0 where
  pub name : Text
  pub namespace : Text
  pub hosts : List Text
  pub paths : List IngressPath

-- KubernetesFormValidationReferences
pub record References : Type 0 where
  pub refs : Dict ℕ Text
  pub has_refs : Bool

-- The part of the controller that the published ports use
pub record Form : Type 0 where
  pub is_edit : Bool
  pub publishing_type : PublishingType
  pub published_ports : List Port
  pub filtered_ingresses : List Ingress
  pub ingresses : List Ingress
  pub ingress_hostnames : List Text
  pub container_ports : References
  pub node_ports : References
  pub ingress_routes : References
  pub load_balancer_ports : References

unfoldable pub is_filled : {A : Type 0} → List A → Bool
is_filled [] = false
is_filled (a ∷ more) = true

unfoldable pub marked : Dict ℕ Text → References
unfolding is_filled
marked duplicates = record { refs = duplicates; has_refs = is_filled duplicates }

abbrev pub no_refs : References
no_refs = record { refs = []; has_refs = false }

unfoldable pub is_cluster : PublishingType → Bool
is_cluster internal = false
is_cluster cluster = true
is_cluster load_balancer = false
is_cluster ingress = false

unfoldable pub is_load_balancer : PublishingType → Bool
is_load_balancer internal = false
is_load_balancer cluster = false
is_load_balancer load_balancer = true
is_load_balancer ingress = false

unfoldable pub is_ingress : PublishingType → Bool
is_ingress internal = false
is_ingress cluster = false
is_ingress load_balancer = false
is_ingress ingress = true

-- `p.NeedsDeletion ? undefined : ...`
unfoldable pub unless_deleted : (Port → Text) → Port → Text
unless_deleted f p = if p.needs_deletion then [] else f p

unfoldable pub marks_of : (Port → Text) → List Port → References
unfolding unless_deleted marked
marks_of f ports = marked (get_duplicates (map (unless_deleted f) ports))

unfoldable pub port_and_protocol : Port → Text
port_and_protocol p = p.container_port ++ p.protocol

unfoldable pub node_port_of : Port → Text
node_port_of p = p.node_port

unfoldable pub load_balancer_port_of : Port → Text
load_balancer_port_of p = p.load_balancer_port

unfoldable pub container_refs : PublishingType → List Port → References
unfolding marks_of port_and_protocol is_ingress
container_refs type ports =
    if not (is_ingress type) then marks_of port_and_protocol ports else no_refs

unfoldable pub on_change_port_mapping_container_port : Form → Form
unfolding container_refs
on_change_port_mapping_container_port form = record form {
  container_ports = container_refs form.publishing_type form.published_ports;
}

unfoldable pub node_refs : PublishingType → List Port → References
unfolding marks_of node_port_of is_cluster
node_refs type ports = if is_cluster type then marks_of node_port_of ports else no_refs

unfoldable pub on_change_port_mapping_node_port : Form → Form
unfolding node_refs
on_change_port_mapping_node_port form = record form {
  node_ports = node_refs form.publishing_type form.published_ports;
}

unfoldable pub load_balancer_refs : PublishingType → List Port → References
unfolding marks_of load_balancer_port_of is_load_balancer
load_balancer_refs type ports =
    if is_load_balancer type then marks_of load_balancer_port_of ports else no_refs

unfoldable pub on_change_port_mapping_load_balancer : Form → Form
unfolding load_balancer_refs
on_change_port_mapping_load_balancer form = record form {
  load_balancer_ports = load_balancer_refs form.publishing_type form.published_ports;
}

unfoldable pub printed : Option Text → Text
printed none = codes "undefined"
printed (some name) = name

-- `${p.IngressHost || p.IngressName}`
unfoldable pub host_or_name : Host → Option Text → Text
unfolding printed
host_or_name no_host name = printed name
host_or_name empty_array name = []
host_or_name (host_name []) name = printed name
host_or_name (host_name (c ∷ host)) name = c ∷ host

unfoldable pub route_if : Bool → Port → Option Text
unfolding host_or_name is_filled
route_if b p =
    if b && is_filled p.ingress_route
    then some (host_or_name p.ingress_host p.ingress_name ++ p.ingress_route)
    else none

unfoldable pub new_route : Port → Option Text
unfolding route_if
new_route p = route_if p.is_new p

unfoldable pub deleted_route : Port → Option Text
unfolding route_if
deleted_route p = route_if p.needs_deletion p

unfoldable pub path_route : Text → IngressPath → Text
unfolding host_or_name
path_route name p = host_or_name (host_name p.host) (some name) ++ p.path

unfoldable pub all_routes : List Ingress → List Text
unfolding path_route
all_routes [] = []
all_routes (i ∷ ingresses) = map (path_route i.name) i.paths ++ all_routes ingresses

unfoldable pub or_empty : Option Text → Text
or_empty none = []
or_empty (some route) = route

unfoldable pub is_route : Text → Option Text → Bool
is_route route none = false
is_route route (some other) = other == route

unfoldable pub holds : Text → List (Option Text) → Bool
unfolding is_route
holds route [] = false
holds route (other ∷ others) = let rest = holds route others in is_route route other || rest

unfoldable pub is_taken : List Text → List (Option Text) → Option Text → Bool
unfolding holds includes
is_taken routes deleted none = false
is_taken routes deleted (some route) = includes routes route && not (holds route deleted)

unfoldable pub add_taken :
    List Text → List (Option Text) → ℕ → List (Option Text) → Dict ℕ Text → Dict ℕ Text
unfolding is_taken insert or_empty
add_taken routes deleted index [] duplicates = duplicates
add_taken routes deleted index (route ∷ rest) duplicates =
    add_taken routes deleted (suc index) rest (
      if is_taken routes deleted route
      then insert index (or_empty route) duplicates
      else duplicates)

unfoldable pub taken_routes : List Ingress → List Port → Dict ℕ Text
unfolding add_taken new_route deleted_route all_routes or_empty
taken_routes ingresses ports =
    let routes = map new_route ports in
    add_taken (all_routes ingresses) (map deleted_route ports) 0 routes
      (get_duplicates (map or_empty routes))

unfoldable pub route_refs : PublishingType → List Ingress → List Port → References
unfolding taken_routes is_ingress marked
route_refs type ingresses ports =
    if is_ingress type then marked (taken_routes ingresses ports) else no_refs

unfoldable pub on_change_port_mapping_ingress_route : Form → Form
unfolding route_refs
on_change_port_mapping_ingress_route form = record form {
  ingress_routes = route_refs form.publishing_type form.ingresses form.published_ports;
}

unfoldable pub protocol_of : Option Port → Option Text
protocol_of none = none
protocol_of (some p) = some p.protocol

unfoldable pub is_new_port : Port → Bool
is_new_port p = p.is_new

-- `index ? this.formValues.PublishedPorts[index].Protocol : newPorts[0].Protocol`, where undefined is
-- 0 too. The index is that of a row.
unfoldable pub chosen_protocol : ℕ → List Port → Option Text
unfolding protocol_of find is_new_port
chosen_protocol zero ports = protocol_of (find is_new_port ports)
chosen_protocol (suc index) ports = protocol_of (get_elem? ports (suc index))

unfoldable pub set_protocol : Option Text → Port → Port
set_protocol none p = p
set_protocol (some protocol) p = if p.is_new then record p { protocol = protocol } else p

unfoldable pub on_change_port_protocol : ℕ → Form → Form
unfolding chosen_protocol set_protocol is_load_balancer on_change_port_mapping_load_balancer
    on_change_port_mapping_container_port
on_change_port_protocol index form = on_change_port_mapping_container_port (
    if is_load_balancer form.publishing_type
    then on_change_port_mapping_load_balancer (record form {
      published_ports =
          map (set_protocol (chosen_protocol index form.published_ports)) form.published_ports;
    })
    else form)

unfoldable pub on_change_published_ports : Form → Form
unfolding on_change_port_mapping_container_port on_change_port_mapping_node_port
    on_change_port_mapping_ingress_route on_change_port_mapping_load_balancer
    on_change_port_protocol
on_change_published_ports form = on_change_port_protocol 0 (
    on_change_port_mapping_load_balancer (
      on_change_port_mapping_ingress_route
        (on_change_port_mapping_node_port (on_change_port_mapping_container_port form))))

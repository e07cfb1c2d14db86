-- ===== src/Kubernetes/Applications/PortForm/Editing.antt =====
-- What the buttons and fields of a published port do
-- (app/kubernetes/views/applications/create/createApplicationController.js).
use ui_for_docker.Prelude.{
  ℕ, zero, suc, Bool, true, false, not, ◌&&◌, Option, none, some, List, [], ◌∷◌, ◌++◌, find, keep,
  map, Text, codes, if◌then◌else◌, ◌==◌, eq_list, eq_nat, eq_option, get_elem?,
}
use ui_for_docker.Kubernetes.Applications.PortForm.{
  PublishingType, internal, Form, Host, Ingress, Port, on_change_published_ports, no_host,
  empty_array, host_name,
}

unfoldable pub update_at : ℕ → (Port → Port) → List Port → List Port
update_at index f [] = []
update_at zero f (p ∷ ports) = f p ∷ ports
update_at (suc index) f (p ∷ ports) = p ∷ update_at index f ports

-- `splice(index, 1)`
unfoldable pub remove_at : ℕ → List Port → List Port
remove_at index [] = []
remove_at zero (p ∷ ports) = ports
remove_at (suc index) (p ∷ ports) = p ∷ remove_at index ports

unfoldable pub first_name : List Ingress → Option Text
first_name [] = none
first_name (i ∷ ingresses) = some i.name

unfoldable pub host_of : List Text → Host
host_of [] = no_host
host_of (host ∷ hosts) = host_name host

unfoldable pub first_host : List Ingress → Host
unfolding host_of
first_host [] = no_host
first_host (i ∷ ingresses) = host_of i.hosts

unfoldable pub first_hosts : List Ingress → List Text
first_hosts [] = []
first_hosts (i ∷ ingresses) = i.hosts

unfoldable pub first_protocol : List Port → Text
first_protocol [] = codes "TCP"
first_protocol (p ∷ ports) = p.protocol

unfoldable pub new_port : List Ingress → List Port → Port
unfolding first_name first_host first_hosts first_protocol
new_port ingresses ports = record {
  needs_deletion = false;
  is_new = true;
  container_port = [];
  node_port = [];
  load_balancer_port = [];
  protocol = first_protocol ports;
  ingress_name = first_name ingresses;
  ingress_route = [];
  ingress_host = first_host ingresses;
  ingress_hosts = first_hosts ingresses;
}

unfoldable pub add_published_port : Form → Form
unfolding new_port
add_published_port form = record form {
  published_ports =
      form.published_ports ++ new_port form.filtered_ingresses form.published_ports ∷ [];
}

unfoldable pub set_needs_deletion : Bool → Port → Port
set_needs_deletion b p = record p { needs_deletion = b }

-- The index is that of a row.
unfoldable pub with_port : ℕ → (Port → Port) → Form → Form
unfolding update_at
with_port index f form = record form { published_ports = update_at index f form.published_ports }

unfoldable pub restore_published_port : ℕ → Form → Form
unfolding with_port on_change_published_ports set_needs_deletion
restore_published_port index form =
    on_change_published_ports (with_port index (set_needs_deletion false) form)

unfoldable pub is_new_at : Option Port → Bool
is_new_at none = true
is_new_at (some p) = p.is_new

unfoldable pub without_port : ℕ → Form → Form
unfolding update_at remove_at set_needs_deletion is_new_at
without_port index form =
    let ports = form.published_ports in
    record form {
      published_ports =
          if form.is_edit && not (is_new_at (get_elem? ports index))
          then update_at index (set_needs_deletion true) ports
          else remove_at index ports;
    }

unfoldable pub remove_published_port : ℕ → Form → Form
unfolding without_port on_change_published_ports
remove_published_port index form = on_change_published_ports (without_port index form)

unfoldable pub ingress_of : Option Port → List Ingress → Option Ingress
unfolding find
ingress_of none ingresses = none
ingress_of (some p) ingresses = find (λ i. some i.name == p.ingress_name) ingresses

unfoldable pub host_or_array : List Text → Host
host_or_array [] = empty_array
host_or_array (host ∷ hosts) = host_name host

unfoldable pub set_hosts : List Text → Port → Port
unfolding host_or_array
set_hosts hosts p = record p { ingress_host = host_or_array hosts; ingress_hosts = hosts }

unfoldable pub with_hosts : ℕ → Form → List Text → Form
unfolding set_hosts update_at
with_hosts index form hosts = record form {
  ingress_hostnames = hosts;
  published_ports = update_at index (set_hosts hosts) form.published_ports;
}

unfoldable pub with_hosts_of : ℕ → Form → Option Ingress → Option Form
unfolding with_hosts on_change_published_ports
with_hosts_of index form none = none
with_hosts_of index form (some i) = some (on_change_published_ports (with_hosts index form i.hosts))

-- None where the ingress is not found, whose hosts the code reads.
unfoldable pub on_change_port_mapping_ingress : ℕ → Form → Option Form
unfolding ingress_of with_hosts_of
on_change_port_mapping_ingress index form =
    with_hosts_of index form
      (ingress_of (get_elem? form.published_ports index) form.filtered_ingresses)

unfoldable pub with_first_ingress : List Ingress → Port → Port
unfolding first_name first_host
with_first_ingress ingresses p = record p {
  ingress_name = first_name ingresses;
  ingress_host = first_host ingresses;
}

unfoldable pub reset_published_ports : Form → Form
unfolding with_first_ingress
reset_published_ports form = record form {
  published_ports = map (with_first_ingress form.filtered_ingresses) form.published_ports;
}

unfoldable pub saved_or_internal : Option PublishingType → PublishingType
saved_or_internal none = internal
saved_or_internal (some type) = type

unfoldable pub publishing_type_of :
    List Ingress → Option PublishingType → PublishingType → PublishingType
unfolding saved_or_internal
publishing_type_of [] saved type = saved_or_internal saved
publishing_type_of (i ∷ ingresses) saved type = type

-- `saved` is the publishing type of `savedFormValues`, if there are any.
unfoldable pub refresh_ingresses : Option PublishingType → Text → Form → Form
unfolding first_hosts publishing_type_of keep
refresh_ingresses saved namespace form =
    let filtered = keep (λ i. i.namespace == namespace) form.ingresses in
    record form {
      filtered_ingresses = filtered;
      ingress_hostnames = first_hosts filtered;
      publishing_type = publishing_type_of filtered saved form.publishing_type;
    }

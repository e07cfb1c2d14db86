-- ===== src/Tests/PortForms.antt =====
-- The published ports of a form at concrete inputs.
use ui_for_docker.Prelude.{
  ◌≡◌, refl, true, false, not, ◌&&◌, ◌||◌, some, is_some, [], ◌∷◌, map, codes, ltb, includes,
  eq_list, eq_nat, list_eq,
}
use ui_for_docker.Prelude.Dict.{lookup, insert}
use ui_for_docker.Kubernetes.FormValidation.{
  get_duplicates, duplicates_from, group_by, grouped, group_size, is_duplicate,
}
use ui_for_docker.Kubernetes.FormValidation.Laws.{count}
use ui_for_docker.Kubernetes.Applications.PortForm.{
  cluster, host_name, Port, Ingress, Form, no_refs, new_route, deleted_route, all_routes, or_empty,
  holds, taken_routes, route_if, host_or_name, is_filled, node_refs, route_refs, load_balancer_refs,
  is_cluster, is_load_balancer, is_ingress, marks_of, marked, on_change_port_mapping_node_port,
}
use ui_for_docker.Kubernetes.Applications.PortForm.Editing.{add_published_port, with_port}
use ui_for_docker.Kubernetes.Applications.PortForm.Changes.{
  start, changed, added, node_port_typed, type_node_port, Reach-HasMarks,
}
use ui_for_docker.Kubernetes.Applications.PortForm.Changes.{reset, restored, checked}
use ui_for_docker.Kubernetes.Applications.PortForm.Editing.{
  reset_published_ports, restore_published_port, with_first_ingress, first_name, first_host,
  host_of,
}
use ui_for_docker.Kubernetes.Applications.PortForm.{is_taken, is_route, printed, ingress, add_taken}
use ui_for_docker.Kubernetes.Applications.PortForm.Marks.{HasMarks}
use ui_for_docker.Kubernetes.Applications.PortForm.Routes.{taken_routes-is_some}

abbrev http : Port
http = record {
  needs_deletion = false;
  is_new = true;
  container_port = codes "80";
  node_port = codes "30080";
  load_balancer_port = codes "80";
  protocol = codes "TCP";
  ingress_name = some (codes "public");
  ingress_route = codes "/shop";
  ingress_host = host_name (codes "example.com");
  ingress_hosts = codes "example.com" ∷ [];
}

abbrev public_ingress : Ingress
public_ingress = record {
  name = codes "public";
  namespace = codes "shop";
  hosts = codes "example.com" ∷ [];
  paths = record { host = codes "example.com"; path = codes "/shop" } ∷ [];
}

taken_routes-is_some_example :
    is_some (lookup 0 (taken_routes (public_ingress ∷ []) (http ∷ []))) ≡ (
      ltb 1 (count (codes "example.com/shop") (map or_empty (map new_route (http ∷ []))))
      || includes (all_routes (public_ingress ∷ [])) (codes "example.com/shop")
        && not (holds (codes "example.com/shop") (map deleted_route (http ∷ []))))
unfolding new_route route_if host_or_name is_filled
taken_routes-is_some_example =
    taken_routes-is_some (public_ingress ∷ []) (http ∷ []) 0 http (codes "example.com/shop") refl
      refl (λ e. cc e)

-- A port that is published once and has no conflict.
abbrev form : Form
form = record {
  is_edit = false;
  publishing_type = cluster;
  published_ports = http ∷ [];
  filtered_ingresses = public_ingress ∷ [];
  ingresses = public_ingress ∷ [];
  ingress_hostnames = [];
  container_ports = no_refs;
  node_ports = no_refs;
  ingress_routes = no_refs;
  load_balancer_ports = no_refs;
}

form-HasMarks : HasMarks form
unfolding node_refs route_refs load_balancer_refs marks_of marked is_cluster is_load_balancer
    is_ingress is_filled get_duplicates duplicates_from group_by grouped group_size is_duplicate
    lookup insert list_eq
form-HasMarks = (refl, refl, refl)

Reach-HasMarks_example : HasMarks (
    on_change_port_mapping_node_port (
      with_port 1
        (type_node_port (codes "30080"))
        (add_published_port (restore_published_port 0 (reset_published_ports form)))))
Reach-HasMarks_example =
    Reach-HasMarks
      (changed (added (checked (reset (start {form = form})) (restored 0)))
        (node_port_typed 1 (codes "30080")))
      form-HasMarks

-- Two ports with one route on two hosts have no conflict; a new resource pool gives both the first
-- host, and they are not marked.
abbrev two_hosts : Form
two_hosts = record form {
  publishing_type = ingress;
  ingresses = [];
  published_ports = http ∷ record http { ingress_host = host_name (codes "example.org") } ∷ [];
}

reset_leaves_conflict :
    ((reset_published_ports two_hosts).ingress_routes ≡ no_refs)
    × ((route_refs ingress [] (reset_published_ports two_hosts).published_ports).has_refs ≡ true)
unfolding reset_published_ports with_first_ingress first_name first_host host_of route_refs
    taken_routes marked is_ingress is_filled new_route deleted_route route_if host_or_name
    all_routes or_empty add_taken is_taken holds is_route get_duplicates duplicates_from group_by
    grouped group_size is_duplicate lookup insert list_eq printed
reset_leaves_conflict = (refl, refl)

-- Two new rows without a port are no conflict until one of them changes.
two_new_rows :
    (add_published_port (add_published_port (record form { published_ports = [] }))).container_ports
    ≡ no_refs
unfolding add_published_port
two_new_rows = refl

-- ===== src/Kubernetes/Applications/PortForm/Changes.antt =====
-- The changes that a user makes to the published ports, each with the check that the view calls
-- after it (app/kubernetes/views/applications/create/createApplication.html), and the steps of the
-- controller that change the ports without one.
use mathlib.Core.Path.{subst}
use ui_for_docker.Prelude.{
  ℕ, ◌≡◌, refl, sym, ap, ◌∙◌, Bool, true, false, Option, none, some, Text, if◌then◌else◌,
}
use ui_for_docker.Kubernetes.Applications.PortForm.{
  PublishingType, Host, Port, Ingress, Form, no_refs, unless_deleted, node_refs, load_balancer_refs,
  route_refs, node_port_of, load_balancer_port_of, port_and_protocol, is_cluster, is_load_balancer,
  on_change_port_mapping_container_port, on_change_port_mapping_node_port,
  on_change_port_mapping_ingress_route, on_change_port_mapping_load_balancer,
  on_change_port_protocol, on_change_published_ports, new_route, deleted_route, taken_routes,
  route_if,
}
use ui_for_docker.Kubernetes.Applications.PortForm.Editing.{
  add_published_port, new_port, restore_published_port, remove_published_port,
  on_change_port_mapping_ingress, with_hosts_of, with_hosts, with_port, without_port,
  reset_published_ports, refresh_ingresses, set_needs_deletion,
}
use ui_for_docker.Kubernetes.Applications.PortForm.Kept.{
  node_refs-same, load_balancer_refs-same, container_refs-same, route_refs-same, route_refs-append,
}
use ui_for_docker.Kubernetes.Applications.PortForm.Marks.{
  HasMarks, HasContainerMarks, on_change_port_protocol-HasMarks,
  on_change_port_protocol-HasContainerMarks, on_change_published_ports-HasMarks, marks_of-append,
}

abbrev pub type_container_port : Text → Port → Port
type_container_port text p = record p { container_port = text }

abbrev pub type_node_port : Text → Port → Port
type_node_port text p = record p { node_port = text }

abbrev pub type_load_balancer_port : Text → Port → Port
type_load_balancer_port text p = record p { load_balancer_port = text }

abbrev pub type_route : Text → Port → Port
type_route text p = record p { ingress_route = text }

abbrev pub choose_host : Host → Port → Port
choose_host host p = record p { ingress_host = host }

abbrev pub choose_ingress : Option Text → Port → Port
choose_ingress name p = record p { ingress_name = name }

abbrev pub choose_protocol : Text → Port → Port
choose_protocol text p = record p { protocol = text }

-- The changes behind which all marks are computed again
pub data Check : Form → Form → Type 0 where
  restored : {form : Form} (i : ℕ) → Check form (restore_published_port i form)
  removed : {form : Form} (i : ℕ) → Check form (remove_published_port i form)
  host_chosen :
      {form : Form} (i : ℕ) (host : Host)
      → Check form (on_change_published_ports (with_port i (choose_host host) form))
  ingress_chosen :
      {form next : Form} (i : ℕ) (name : Option Text)
      → on_change_port_mapping_ingress i (with_port i (choose_ingress name) form) ≡ some next
      → Check form next
  publishing_type_chosen :
      {form : Form} (type : PublishingType)
      → Check form (on_change_published_ports (record form { publishing_type = type }))

-- The changes behind which some marks are computed again
pub data Change : Form → Form → Type 0 where
  container_port_typed :
      {form : Form} (i : ℕ) (text : Text)
      → Change form
          (on_change_port_mapping_container_port (with_port i (type_container_port text) form))
  node_port_typed :
      {form : Form} (i : ℕ) (text : Text)
      → Change form (on_change_port_mapping_node_port (with_port i (type_node_port text) form))
  load_balancer_port_typed :
      {form : Form} (i : ℕ) (text : Text)
      → Change form
          (on_change_port_mapping_load_balancer (with_port i (type_load_balancer_port text) form))
  route_typed :
      {form : Form} (i : ℕ) (text : Text)
      → Change form (on_change_port_mapping_ingress_route (with_port i (type_route text) form))
  protocol_chosen :
      {form : Form} (i : ℕ) (text : Text)
      → Change form (on_change_port_protocol i (with_port i (choose_protocol text) form))

-- All that happens to published ports: changes, new rows, and the two steps that follow the choice
-- of a resource pool. The first index is whether all marks were computed again since the last of
-- these steps, if there was one.
pub data Reach : Bool → Form → Form → Type 0 where
  start : {form : Form} → Reach true form form
  checked :
      {b : Bool} {form now next : Form} → Reach b form now → Check now next → Reach true form next
  changed :
      {b : Bool} {form now next : Form} → Reach b form now → Change now next → Reach b form next
  added : {b : Bool} {form now : Form} → Reach b form now → Reach b form (add_published_port now)
  refreshed :
      {b : Bool} {form now : Form} (saved : Option PublishingType) (namespace : Text)
      → Reach b form now
      → Reach false form (refresh_ingresses saved namespace now)
  reset :
      {b : Bool} {form now : Form} → Reach b form now → Reach false form (reset_published_ports now)

some_injective : {a b : Form} → some a ≡ some b → a ≡ b
some_injective e = cc

with_hosts_of-HasMarks :
    (i : ℕ) (form next : Form) (found : Option Ingress)
    → with_hosts_of i form found ≡ some next
    → HasMarks next × HasContainerMarks next
unfolding with_hosts_of
with_hosts_of-HasMarks i form next none e = cc e
with_hosts_of-HasMarks i form next (some ingress) e =
    subst (λ f. HasMarks f × HasContainerMarks f) (some_injective e)
      (on_change_published_ports-HasMarks (with_hosts i form ingress.hosts))

on_change_port_mapping_ingress-HasMarks :
    (i : ℕ) (form next : Form)
    → on_change_port_mapping_ingress i form ≡ some next
    → HasMarks next × HasContainerMarks next
unfolding on_change_port_mapping_ingress
on_change_port_mapping_ingress-HasMarks i form next e = with_hosts_of-HasMarks i form next _ e

Check-HasMarks : {form next : Form} → Check form next → HasMarks next × HasContainerMarks next
unfolding restore_published_port remove_published_port
Check-HasMarks {form} (restored i) =
    on_change_published_ports-HasMarks (with_port i (set_needs_deletion false) form)
Check-HasMarks {form} (removed i) = on_change_published_ports-HasMarks (without_port i form)
Check-HasMarks {form} (host_chosen i host) =
    on_change_published_ports-HasMarks (with_port i (choose_host host) form)
Check-HasMarks (ingress_chosen i name e) = on_change_port_mapping_ingress-HasMarks i _ _ e
Check-HasMarks {form} (publishing_type_chosen type) =
    on_change_published_ports-HasMarks (record form { publishing_type = type })

Change-HasMarks : {form next : Form} → Change form next → HasMarks form → HasMarks next
unfolding on_change_port_mapping_container_port on_change_port_mapping_node_port
    on_change_port_mapping_ingress_route on_change_port_mapping_load_balancer with_port
    unless_deleted node_port_of load_balancer_port_of new_route deleted_route route_if
Change-HasMarks {form} (container_port_typed i text) (n, r, l) =
    let f = type_container_port text in
    (
      n ∙ node_refs-same form.publishing_type i f form.published_ports (λ p. refl),
      r
          ∙ route_refs-same form.publishing_type form.ingresses i f form.published_ports (λ p. refl)
              (λ p. refl),
      l ∙ load_balancer_refs-same form.publishing_type i f form.published_ports (λ p. refl),
    )
Change-HasMarks {form} (node_port_typed i text) (n, r, l) =
    let f = type_node_port text in
    (
      refl,
      r
          ∙ route_refs-same form.publishing_type form.ingresses i f form.published_ports (λ p. refl)
              (λ p. refl),
      l ∙ load_balancer_refs-same form.publishing_type i f form.published_ports (λ p. refl),
    )
Change-HasMarks {form} (load_balancer_port_typed i text) (n, r, l) =
    let f = type_load_balancer_port text in
    (
      n ∙ node_refs-same form.publishing_type i f form.published_ports (λ p. refl),
      r
          ∙ route_refs-same form.publishing_type form.ingresses i f form.published_ports (λ p. refl)
              (λ p. refl),
      refl,
    )
Change-HasMarks {form} (route_typed i text) (n, r, l) =
    let f = type_route text in
    (
      n ∙ node_refs-same form.publishing_type i f form.published_ports (λ p. refl),
      refl,
      l ∙ load_balancer_refs-same form.publishing_type i f form.published_ports (λ p. refl),
    )
Change-HasMarks {form} (protocol_chosen i text) (n, r, l) =
    let f = choose_protocol text in
    on_change_port_protocol-HasMarks i _ (
      n ∙ node_refs-same form.publishing_type i f form.published_ports (λ p. refl),
      r
          ∙ route_refs-same form.publishing_type form.ingresses i f form.published_ports (λ p. refl)
              (λ p. refl),
      l ∙ load_balancer_refs-same form.publishing_type i f form.published_ports (λ p. refl),
    )

added-HasMarks : (form : Form) → HasMarks form → HasMarks (add_published_port form)
unfolding add_published_port new_port node_refs load_balancer_refs route_refs taken_routes
    unless_deleted node_port_of load_balancer_port_of
added-HasMarks form (n, r, l) =
    let p = new_port form.filtered_ingresses form.published_ports in
    (
      n
          ∙ ap (λ refs. if is_cluster form.publishing_type then refs else no_refs)
              (sym (marks_of-append node_port_of form.published_ports p refl)),
      r
          ∙ sym (
              route_refs-append form.publishing_type form.ingresses form.published_ports p refl
                refl),
      l
          ∙ ap (λ refs. if is_load_balancer form.publishing_type then refs else no_refs)
              (sym (marks_of-append load_balancer_port_of form.published_ports p refl)),
    )

Reach-HasMarks_if :
    {b : Bool} {form next : Form} → Reach b form next → b ≡ true → HasMarks form → HasMarks next
Reach-HasMarks_if start e h = h
Reach-HasMarks_if (checked r c) e h = (Check-HasMarks c).0
Reach-HasMarks_if (changed r c) e h = Change-HasMarks c (Reach-HasMarks_if r e h)
Reach-HasMarks_if (added r) e h = added-HasMarks _ (Reach-HasMarks_if r e h)
Reach-HasMarks_if (refreshed saved namespace r) e h = cc e
Reach-HasMarks_if (reset r) e h = cc e

-- The marks of node ports, routes and load balancer ports are those of the ports as they are, if
-- they were at the start, whatever was done to the ports, new rows included. Only the choice of a
-- resource pool changes them without a check: behind it, the marks are right once a port was removed
-- or restored or a host, an ingress or a publishing type was chosen.
pub Reach-HasMarks : {form next : Form} → Reach true form next → HasMarks form → HasMarks next
Reach-HasMarks r h = Reach-HasMarks_if r refl h

-- A change of a field keeps the marks of the container ports as those of the ports.
pub Change-HasContainerMarks :
    {form next : Form} → Change form next → HasContainerMarks form → HasContainerMarks next
unfolding on_change_port_mapping_container_port on_change_port_mapping_node_port
    on_change_port_mapping_ingress_route on_change_port_mapping_load_balancer with_port
    unless_deleted port_and_protocol
Change-HasContainerMarks (container_port_typed i text) h = refl
Change-HasContainerMarks {form} (node_port_typed i text) h =
    h
    ∙ container_refs-same form.publishing_type i (type_node_port text) form.published_ports
        (λ p. refl)
Change-HasContainerMarks {form} (load_balancer_port_typed i text) h =
    h
    ∙ container_refs-same form.publishing_type i (type_load_balancer_port text) form.published_ports
        (λ p. refl)
Change-HasContainerMarks {form} (route_typed i text) h =
    h
    ∙ container_refs-same form.publishing_type i (type_route text) form.published_ports (λ p. refl)
Change-HasContainerMarks (protocol_chosen i text) h = on_change_port_protocol-HasContainerMarks i _

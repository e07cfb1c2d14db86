-- ===== src/Kubernetes/Applications/PortForm/Marks.antt =====
-- Which marks of the published ports a change keeps.
use ui_for_docker.Prelude.{
  ℕ, zero, suc, ◌≡◌, refl, ap, ◌∙◌, true, Option, none, some, List, [], ◌∷◌, ◌++◌, map, Text,
  Bool-cases, inl, inr, eq_list, eq_nat, eq_option,
}
use ui_for_docker.Prelude.Dict.{Dict}
use ui_for_docker.Kubernetes.FormValidation.{get_duplicates}
use ui_for_docker.Kubernetes.FormValidation.Laws.{get_duplicates-append_empty}
use ui_for_docker.Kubernetes.Applications.PortForm.{
  PublishingType, internal, cluster, load_balancer, ingress, Port, Form, marked, marks_of,
  unless_deleted, container_refs, node_refs, load_balancer_refs, route_refs, is_cluster,
  is_load_balancer, is_ingress, on_change_port_mapping_container_port,
  on_change_port_mapping_node_port, on_change_port_mapping_ingress_route,
  on_change_port_mapping_load_balancer, on_change_port_protocol, on_change_published_ports,
  add_taken, is_taken, is_route, holds, Ingress,
}
use ui_for_docker.Kubernetes.Applications.PortForm.Editing.{update_at}

-- The marks of the node ports, the routes and the load balancer ports are those of the ports.
abbrev pub HasMarks : Form → Type 0
HasMarks form =
    (form.node_ports ≡ node_refs form.publishing_type form.published_ports)
    × (form.ingress_routes ≡ route_refs form.publishing_type form.ingresses form.published_ports)
    × (form.load_balancer_ports ≡ load_balancer_refs form.publishing_type form.published_ports)

-- The marks of the container ports are those of the ports.
abbrev pub HasContainerMarks : Form → Type 0
HasContainerMarks form =
    form.container_ports ≡ container_refs form.publishing_type form.published_ports

pub node_refs-any :
    (type : PublishingType) (ports others : List Port)
    → is_load_balancer type ≡ true
    → node_refs type ports ≡ node_refs type others
unfolding node_refs is_load_balancer is_cluster
node_refs-any internal ports others h = refl
node_refs-any cluster ports others h = cc h
node_refs-any load_balancer ports others h = refl
node_refs-any ingress ports others h = refl

route_refs-any :
    (type : PublishingType) (ingresses : List Ingress) (ports others : List Port)
    → is_load_balancer type ≡ true
    → route_refs type ingresses ports ≡ route_refs type ingresses others
unfolding route_refs is_load_balancer is_ingress
route_refs-any internal ingresses ports others h = refl
route_refs-any cluster ingresses ports others h = refl
route_refs-any load_balancer ingresses ports others h = refl
route_refs-any ingress ingresses ports others h = cc h

pub on_change_port_protocol-HasMarks :
    (index : ℕ) (form : Form) → HasMarks form → HasMarks (on_change_port_protocol index form)
unfolding on_change_port_protocol on_change_port_mapping_container_port
    on_change_port_mapping_load_balancer
on_change_port_protocol-HasMarks index form (n, r, l) =
    elim (Bool-cases (is_load_balancer form.publishing_type)) [
      | inl e ↦ rw (e) (
        n ∙ node_refs-any form.publishing_type form.published_ports _ e,
        r ∙ route_refs-any form.publishing_type form.ingresses form.published_ports _ e,
        rw (e) refl,
      )
      | inr e ↦ rw (e) (n, r, l)
    ]

pub on_change_port_protocol-HasContainerMarks :
    (index : ℕ) (form : Form) → HasContainerMarks (on_change_port_protocol index form)
unfolding on_change_port_protocol on_change_port_mapping_container_port
on_change_port_protocol-HasContainerMarks index form = refl

pub on_change_published_ports-HasMarks :
    (form : Form)
    → HasMarks (on_change_published_ports form) × HasContainerMarks (on_change_published_ports form)
unfolding on_change_published_ports on_change_port_mapping_container_port
    on_change_port_mapping_load_balancer on_change_port_mapping_node_port
    on_change_port_mapping_ingress_route
on_change_published_ports-HasMarks form = (
  on_change_port_protocol-HasMarks 0 _ (refl, refl, refl),
  on_change_port_protocol-HasContainerMarks 0 _,
)

pub map-append :
    {A B : Type 0}
    → (f : A → B) (items : List A) (a : A) → map f (items ++ a ∷ []) ≡ map f items ++ f a ∷ []
map-append f [] a = refl
map-append f (b ∷ items) a = ap (λ rest. f b ∷ rest) (map-append f items a)

pub map-update_at :
    {B : Type 0}
    → (g : Port → B) (f : Port → Port) (index : ℕ) (ports : List Port)
    → ((p : Port) → g (f p) ≡ g p)
    → map g (update_at index f ports) ≡ map g ports
unfolding update_at
map-update_at g f index [] h = refl
map-update_at g f zero (p ∷ ports) h = ap (λ q. q ∷ map g ports) (h p)
map-update_at g f (suc index) (p ∷ ports) h =
    ap (λ rest. g p ∷ rest) (map-update_at g f index ports h)

pub marks_of-append :
    (f : Port → Text) (ports : List Port) (p : Port)
    → unless_deleted f p ≡ []
    → marks_of f (ports ++ p ∷ []) ≡ marks_of f ports
unfolding marks_of
marks_of-append f ports p h = ap marked (
    ap get_duplicates (
      map-append (unless_deleted f) ports p
      ∙ ap (λ name. map (unless_deleted f) ports ++ name ∷ []) h)
    ∙ get_duplicates-append_empty (map (unless_deleted f) ports))

holds-append_none :
    (route : Text) (others : List (Option Text))
    → holds route (others ++ none ∷ []) ≡ holds route others
unfolding holds is_route
holds-append_none route [] = refl
holds-append_none route (other ∷ others) = rw (holds-append_none route others) refl

is_taken-append_none :
    (routes : List Text) (deleted : List (Option Text)) (route : Option Text)
    → is_taken routes (deleted ++ none ∷ []) route ≡ is_taken routes deleted route
unfolding is_taken
is_taken-append_none routes deleted none = refl
is_taken-append_none routes deleted (some route) = rw (holds-append_none route deleted) refl

pub add_taken-append_none :
    (routes : List Text) (deleted : List (Option Text)) (index : ℕ) (rest : List (Option Text))
    (d : Dict ℕ Text)
    → add_taken routes (deleted ++ none ∷ []) index (rest ++ none ∷ []) d
      ≡ add_taken routes deleted index rest d
unfolding add_taken is_taken
add_taken-append_none routes deleted index [] d = refl
add_taken-append_none routes deleted index (route ∷ rest) d =
    rw (add_taken, is_taken-append_none routes deleted route)
      (add_taken-append_none routes deleted (suc index) rest _)

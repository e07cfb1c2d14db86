-- ===== src/Kubernetes/Applications/PortForm/Kept.antt =====
-- Marks that do not see what was changed in one row.
use mathlib.Core.Path.{ap₂}
use ui_for_docker.Prelude.{
  ℕ, ◌≡◌, sym, ap, ◌∙◌, not, Option, none, List, [], ◌∷◌, ◌++◌, map, Text, if◌then◌else◌,
}
use ui_for_docker.Kubernetes.FormValidation.{get_duplicates}
use ui_for_docker.Kubernetes.FormValidation.Laws.{get_duplicates-append_empty}
use ui_for_docker.Kubernetes.Applications.PortForm.{
  PublishingType, Port, Ingress, References, marked, no_refs, marks_of, unless_deleted,
  container_refs, node_refs, load_balancer_refs, route_refs, node_port_of, load_balancer_port_of,
  port_and_protocol, is_cluster, is_load_balancer, is_ingress, new_route, deleted_route,
  taken_routes, add_taken, or_empty, all_routes,
}
use ui_for_docker.Kubernetes.Applications.PortForm.Editing.{update_at}
use ui_for_docker.Kubernetes.Applications.PortForm.Marks.{
  map-append, map-update_at, add_taken-append_none,
}

pub node_refs-same :
    (type : PublishingType) (i : ℕ) (f : Port → Port) (ports : List Port)
    → ((p : Port) → unless_deleted node_port_of (f p) ≡ unless_deleted node_port_of p)
    → node_refs type ports ≡ node_refs type (update_at i f ports)
unfolding node_refs marks_of
node_refs-same type i f ports h =
    ap (λ names. if is_cluster type then marked (get_duplicates names) else no_refs)
      (sym (map-update_at (unless_deleted node_port_of) f i ports h))

pub load_balancer_refs-same :
    (type : PublishingType) (i : ℕ) (f : Port → Port) (ports : List Port)
    → ((p : Port)
        → unless_deleted load_balancer_port_of (f p) ≡ unless_deleted load_balancer_port_of p)
    → load_balancer_refs type ports ≡ load_balancer_refs type (update_at i f ports)
unfolding load_balancer_refs marks_of
load_balancer_refs-same type i f ports h =
    ap (λ names. if is_load_balancer type then marked (get_duplicates names) else no_refs)
      (sym (map-update_at (unless_deleted load_balancer_port_of) f i ports h))

pub container_refs-same :
    (type : PublishingType) (i : ℕ) (f : Port → Port) (ports : List Port)
    → ((p : Port) → unless_deleted port_and_protocol (f p) ≡ unless_deleted port_and_protocol p)
    → container_refs type ports ≡ container_refs type (update_at i f ports)
unfolding container_refs marks_of
container_refs-same type i f ports h =
    ap (λ names. if not (is_ingress type) then marked (get_duplicates names) else no_refs)
      (sym (map-update_at (unless_deleted port_and_protocol) f i ports h))

-- The routes, from the new ones and those to delete
refs_of_routes :
    PublishingType → List Ingress → List (Option Text) → List (Option Text) → References
refs_of_routes type ingresses routes deleted =
    if is_ingress type
    then marked
        (add_taken (all_routes ingresses) deleted 0 routes (get_duplicates (map or_empty routes)))
    else no_refs

pub route_refs-same :
    (type : PublishingType) (ingresses : List Ingress) (i : ℕ) (f : Port → Port) (ports : List Port)
    → ((p : Port) → new_route (f p) ≡ new_route p)
    → ((p : Port) → deleted_route (f p) ≡ deleted_route p)
    → route_refs type ingresses ports ≡ route_refs type ingresses (update_at i f ports)
unfolding route_refs taken_routes refs_of_routes
route_refs-same type ingresses i f ports h k =
    ap₂ (refs_of_routes type ingresses) (sym (map-update_at new_route f i ports h))
      (sym (map-update_at deleted_route f i ports k))

refs_of_routes-append :
    (type : PublishingType) (ingresses : List Ingress) (routes deleted : List (Option Text))
    → refs_of_routes type ingresses (routes ++ none ∷ []) (deleted ++ none ∷ [])
      ≡ refs_of_routes type ingresses routes deleted
unfolding refs_of_routes or_empty
refs_of_routes-append type ingresses routes deleted =
    ap (λ taken. if is_ingress type then marked taken else no_refs)
      (ap (add_taken (all_routes ingresses) (deleted ++ none ∷ []) 0 (routes ++ none ∷ [])) (
          ap get_duplicates (map-append or_empty routes none)
          ∙ get_duplicates-append_empty (map or_empty routes))
        ∙ add_taken-append_none (all_routes ingresses) deleted 0 routes
            (get_duplicates (map or_empty routes)))

pub route_refs-append :
    (type : PublishingType) (ingresses : List Ingress) (ports : List Port) (p : Port)
    → new_route p ≡ none
    → deleted_route p ≡ none
    → route_refs type ingresses (ports ++ p ∷ []) ≡ route_refs type ingresses ports
unfolding route_refs taken_routes refs_of_routes
route_refs-append type ingresses ports p h k =
    ap₂ (refs_of_routes type ingresses)
      (map-append new_route ports p ∙ ap (λ r. map new_route ports ++ r ∷ []) h)
      (map-append deleted_route ports p ∙ ap (λ r. map deleted_route ports ++ r ∷ []) k)
    ∙ refs_of_routes-append type ingresses (map new_route ports) (map deleted_route ports)

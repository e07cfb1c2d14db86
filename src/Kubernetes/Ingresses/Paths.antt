-- ===== src/Kubernetes/Ingresses/Paths.antt =====
-- The paths of the ingresses after the published ports of an application.
use mathlib.Core.Path.{subst}
use ui_for_docker.Prelude.{
  ◌≡◌, refl, ap, ◌∙◌, Bool, true, false, ◌&&◌, not, Option, none, some, List, [], ◌∷◌, ◌++◌,
  append-nil, keep, keep-append, find, find-append, arith, if◌then◌else◌, ◌==◌, ==_iff, ==_self,
  eq_nat, eq_list, eq_option, Text, All, Bool-cases, inl, inr,
}
use ui_for_docker.Kubernetes.Ingresses.{
  Rule, Ingress, PublishedPort, same_rule, is_path_of, remove_path, route_path, new_rule,
  apply_to_paths, apply_port, application_form_values_to_ingresses,
}

unfoldable pub is_untouched : PublishedPort → Bool
is_untouched p = not p.needs_deletion && not p.is_new

apply_port-untouched :
    (p : PublishedPort) (service_name : Text) (ingresses : List Ingress)
    → is_untouched p ≡ true
    → apply_port p service_name ingresses ≡ ingresses
unfolding is_untouched apply_port apply_to_paths
apply_port-untouched p service_name [] h = refl
apply_port-untouched p service_name (ingress ∷ ingresses) h =
    ground (arith, apply_port-untouched p service_name ingresses h)

-- The port as it is once it was published and is marked for deletion.
unfoldable pub deleted : PublishedPort → PublishedPort
deleted p = record p { needs_deletion = true; ingress_route = some (route_path p.ingress_route) }

-- The paths of the first ingress with a name.
unfoldable pub paths_of : Option Text → List Ingress → Option (List Rule)
paths_of name [] = none
paths_of name (ingress ∷ ingresses) =
    if some ingress.name == name then some ingress.paths else paths_of name ingresses

-- No path belongs to the port with this route.
abbrev pub HasNoPath : PublishedPort → Text → Option (List Rule) → Type 0
HasNoPath p service_name none = Unit {0}
HasNoPath p service_name (some paths) = find (is_path_of p service_name) paths ≡ none

same_rule_self : (r : Rule) → same_rule r r ≡ true
unfolding same_rule
same_rule_self r = ground (
  arith,
  ==_self r.ingress_name,
  ==_self r.service_name,
  ==_self r.host,
  ==_self r.ip,
  ==_self r.path,
)

keep-absent :
    (p : PublishedPort) (service_name : Text) (rule : Rule) (paths : List Rule)
    → is_path_of p service_name rule ≡ true
    → find (is_path_of p service_name) paths ≡ none
    → keep (λ r. not (same_rule rule r)) paths ≡ paths
unfolding keep find is_path_of same_rule
keep-absent p service_name rule [] e h = refl
keep-absent p service_name rule (r ∷ paths) e h = ground (
  arith,
  keep-absent p service_name rule paths e,
  ==_iff rule.service_name r.service_name,
  ==_iff rule.path r.path,
)

new_rule-is_path_of :
    (p : PublishedPort) (service_name name : Text)
    → is_path_of (deleted p) service_name (new_rule name service_name p) ≡ true
unfolding is_path_of new_rule deleted
new_rule-is_path_of p service_name name =
    ground (arith, ==_self service_name, ==_self (some (route_path p.ingress_route)))

find-added :
    (p : PublishedPort) (service_name name : Text) (paths : List Rule)
    → find (is_path_of (deleted p) service_name) paths ≡ none
    → find (is_path_of (deleted p) service_name) (paths ++ new_rule name service_name p ∷ [])
      ≡ some (new_rule name service_name p)
unfolding find
find-added p service_name name paths h =
    find-append (is_path_of (deleted p) service_name) paths (new_rule name service_name p ∷ []) h
    ∙ ground (arith, new_rule-is_path_of p service_name name)

remove-added :
    (p : PublishedPort) (service_name name : Text) (paths : List Rule)
    → find (is_path_of (deleted p) service_name) paths ≡ none
    → remove_path (some (new_rule name service_name p)) (paths ++ new_rule name service_name p ∷ [])
      ≡ paths
unfolding remove_path keep
remove-added p service_name name paths h =
    let rule = new_rule name service_name p in
    keep-append (λ r. not (same_rule rule r)) paths (rule ∷ [])
    ∙ ground (
      arith,
      same_rule_self rule,
      append-nil paths,
      keep-absent (deleted p) service_name rule paths (new_rule-is_path_of p service_name name) h,
    )

added :
    (p : PublishedPort) (service_name name : Text) (paths : List Rule)
    → p.is_new ≡ true
    → p.needs_deletion ≡ false
    → apply_to_paths p service_name name paths ≡ paths ++ new_rule name service_name p ∷ []
unfolding apply_to_paths
added p service_name name paths n d = ground arith

removed :
    (p : PublishedPort) (service_name name : Text) (paths : List Rule)
    → apply_to_paths (deleted p) service_name name paths
      ≡ remove_path (find (is_path_of (deleted p) service_name) paths) paths
unfolding apply_to_paths deleted
removed p service_name name paths = refl

paths-add_delete :
    (p : PublishedPort) (service_name name : Text) (paths : List Rule)
    → p.is_new ≡ true
    → p.needs_deletion ≡ false
    → find (is_path_of (deleted p) service_name) paths ≡ none
    → apply_to_paths (deleted p) service_name name (apply_to_paths p service_name name paths)
      ≡ paths
paths-add_delete p service_name name paths n d h =
    ap (apply_to_paths (deleted p) service_name name) (added p service_name name paths n d)
    ∙ removed p service_name name (paths ++ new_rule name service_name p ∷ [])
    ∙ ap (λ found. remove_path found (paths ++ new_rule name service_name p ∷ []))
        (find-added p service_name name paths h)
    ∙ remove-added p service_name name paths h

name_deleted :
    (p : PublishedPort) (name : Text)
    → (some name == (deleted p).ingress_name) ≡ (some name == p.ingress_name)
unfolding deleted
name_deleted p name = refl

ports-add_delete_here :
    (p : PublishedPort) (service_name : Text) (ingress : Ingress) (ingresses : List Ingress)
    → (some ingress.name == p.ingress_name) ≡ true
    → apply_to_paths
        (deleted p)
        service_name
        ingress.name
        (apply_to_paths p service_name ingress.name ingress.paths)
      ≡ ingress.paths
    → apply_port (deleted p) service_name (apply_port p service_name (ingress ∷ ingresses))
      ≡ ingress ∷ ingresses
unfolding apply_port
ports-add_delete_here p service_name ingress ingresses e k =
    rw (e, name_deleted p ingress.name, e)
      (ap (λ paths. record ingress { paths = paths } ∷ ingresses) k)

ports-add_delete_later :
    (p : PublishedPort) (service_name : Text) (ingress : Ingress) (ingresses : List Ingress)
    → (some ingress.name == p.ingress_name) ≡ false
    → apply_port (deleted p) service_name (apply_port p service_name ingresses) ≡ ingresses
    → apply_port (deleted p) service_name (apply_port p service_name (ingress ∷ ingresses))
      ≡ ingress ∷ ingresses
unfolding apply_port
ports-add_delete_later p service_name ingress ingresses e k =
    rw (e, name_deleted p ingress.name, e) (ap (λ rest. ingress ∷ rest) k)

ports-add_delete :
    (p : PublishedPort) (service_name : Text) (ingresses : List Ingress)
    → p.is_new ≡ true
    → p.needs_deletion ≡ false
    → HasNoPath (deleted p) service_name (paths_of p.ingress_name ingresses)
    → apply_port (deleted p) service_name (apply_port p service_name ingresses) ≡ ingresses
unfolding apply_port paths_of
ports-add_delete p service_name [] n d h = refl
ports-add_delete p service_name (ingress ∷ ingresses) n d h =
    let P = λ (b : Bool).
      HasNoPath (deleted p) service_name
        (if b then some ingress.paths else paths_of p.ingress_name ingresses) in
    elim (Bool-cases (some ingress.name == p.ingress_name)) [
      | inl e ↦
          ports-add_delete_here p service_name ingress ingresses e
            (paths-add_delete p service_name ingress.name ingress.paths n d (subst P e h))
      | inr e ↦
          ports-add_delete_later p service_name ingress ingresses e
            (ports-add_delete p service_name ingresses n d (subst P e h))
    ]

-- Publishing a new port on an ingress and deleting it again restores the ingresses, if the ingress
-- had no path of the port's service with its number and its route.
pub application_form_values_to_ingresses-add_delete :
    (p : PublishedPort) (service_name : Text) (ingresses : List Ingress)
    → p.is_new ≡ true
    → p.needs_deletion ≡ false
    → HasNoPath (deleted p) service_name (paths_of p.ingress_name ingresses)
    → application_form_values_to_ingresses (p ∷ deleted p ∷ []) service_name ingresses ≡ ingresses
unfolding application_form_values_to_ingresses
application_form_values_to_ingresses-add_delete p service_name ingresses n d h =
    ports-add_delete p service_name ingresses n d h

-- Ports of the form that are neither new nor to be deleted leave the ingresses as they are.
pub application_form_values_to_ingresses-untouched :
    (ports : List PublishedPort) (service_name : Text) (ingresses : List Ingress)
    → All (λ p. is_untouched p ≡ true) ports
    → application_form_values_to_ingresses ports service_name ingresses ≡ ingresses
unfolding application_form_values_to_ingresses
application_form_values_to_ingresses-untouched [] service_name ingresses h = refl
application_form_values_to_ingresses-untouched (p ∷ ports) service_name ingresses (u, h) =
    ap (application_form_values_to_ingresses ports service_name)
      (apply_port-untouched p service_name ingresses u)
    ∙ application_form_values_to_ingresses-untouched ports service_name ingresses h

-- ===== src/Kubernetes/Applications/PortForm/Routes.antt =====
-- Which routes of the published ports are marked.
use mathlib.Core.Path.{ap₂}
use ui_for_docker.Prelude.{
  ℕ, zero, suc, ◌+◌, ◌<◌, ◌≡◌, ◌≢◌, refl, sym, ap, ◌∙◌, Bool, false, not, ◌&&◌, ◌||◌, Option, none,
  some, is_some, List, [], ◌∷◌, map, Text, arith, if◌then◌else◌, get_elem?, includes, ltb, eq_list,
  eq_nat, ◌==◌, ==_iff, list_eq,
}
use ui_for_docker.Prelude.Dict.{Dict, lookup, insert, lookup-insert}
use ui_for_docker.Kubernetes.FormValidation.{get_duplicates}
use ui_for_docker.Kubernetes.FormValidation.Laws.{count, lookup-get_duplicates_at}
use ui_for_docker.Kubernetes.Applications.PortForm.{
  Port, Ingress, new_route, deleted_route, all_routes, or_empty, is_taken, holds, add_taken,
  taken_routes,
}

lookup-add_taken_before :
    (routes : List Text) (deleted : List (Option Text)) (j index : ℕ) (rest : List (Option Text))
    (d : Dict ℕ Text)
    → j < index
    → lookup j (add_taken routes deleted index rest d) ≡ lookup j d
unfolding add_taken
lookup-add_taken_before routes deleted j index [] d h = refl
lookup-add_taken_before routes deleted j index (route ∷ rest) d h = ground (
  arith,
  lookup-insert index j (or_empty route) d,
  ==_iff index j,
  lookup-add_taken_before routes deleted j (suc index) rest d,
  lookup-add_taken_before routes deleted j (suc index) rest (insert index (or_empty route) d),
)

-- The mark of an index, by the route that stands there and the mark before.
taken_at : List Text → List (Option Text) → Option (Option Text) → Option Text → Option Text
taken_at routes deleted none before = before
taken_at routes deleted (some route) before =
    if is_taken routes deleted route then some (or_empty route) else before

zero_plus : (i : ℕ) → 0 + i ≡ i
zero_plus i = omega arith

shift : (index i : ℕ) → suc index + i ≡ index + suc i
shift index i = omega arith

lookup-add_taken :
    (routes : List Text) (deleted : List (Option Text)) (i index : ℕ) (rest : List (Option Text))
    (d : Dict ℕ Text)
    → lookup (index + i) (add_taken routes deleted index rest d)
      ≡ taken_at routes deleted (get_elem? rest i) (lookup (index + i) d)
unfolding add_taken taken_at
lookup-add_taken routes deleted i index [] d = refl
lookup-add_taken routes deleted zero index (route ∷ rest) d = ground (
  arith,
  lookup-insert index (index + 0) (or_empty route) d,
  ==_iff index (index + 0),
  lookup-add_taken_before routes deleted (index + 0) (suc index) rest d,
  lookup-add_taken_before routes deleted (index + 0) (suc index) rest
      (insert index (or_empty route) d),
)
lookup-add_taken routes deleted (suc i) index (route ∷ rest) d = ground (
  arith,
  shift index i,
  lookup-insert index (index + suc i) (or_empty route) d,
  ==_iff index (index + suc i),
  lookup-add_taken routes deleted i (suc index) rest d,
  lookup-add_taken routes deleted i (suc index) rest (insert index (or_empty route) d),
)

get_elem?-map :
    {A B : Type 0}
    → (f : A → B) (items : List A) (i : ℕ) (a : A) → get_elem? items i ≡ some a
    → get_elem? (map f items) i ≡ some (f a)
get_elem?-map f [] i a e = cc e
get_elem?-map f (b ∷ items) zero a e = cc e
get_elem?-map f (b ∷ items) (suc i) a e = get_elem?-map f items i a e

is_some-marked :
    (a b filled : Bool) (x y : Text)
    → filled ≡ false
    → is_some (if a then some x else (if not filled && b then some y else none)) ≡ (b || a)
is_some-marked a b filled x y h = ground (arith, h)

is_empty-false : (route : Text) → route ≢ [] → (route == []) ≡ false
unfolding list_eq
is_empty-false route h = ground (arith, ==_iff route [])

-- A new port is marked exactly if another new port has its route, or a path of an ingress has it
-- that no port to delete has.
pub taken_routes-is_some :
    (ingresses : List Ingress) (ports : List Port) (i : ℕ) (p : Port) (route : Text)
    → get_elem? ports i ≡ some p
    → new_route p ≡ some route
    → route ≢ []
    → is_some (lookup i (taken_routes ingresses ports)) ≡ (
        ltb 1 (count route (map or_empty (map new_route ports)))
        || includes (all_routes ingresses) route && not (holds route (map deleted_route ports)))
unfolding taken_routes taken_at is_taken or_empty
taken_routes-is_some ingresses ports i p route at r filled =
    let routes = map new_route ports in
    let here = get_elem?-map new_route ports i p at ∙ ap some r in
    ap is_some (
      ap (λ j. lookup j (taken_routes ingresses ports)) (sym (zero_plus i))
      ∙ lookup-add_taken (all_routes ingresses) (map deleted_route ports) i 0 routes
          (get_duplicates (map or_empty routes))
      ∙ ap₂ (taken_at (all_routes ingresses) (map deleted_route ports)) here (
          ap (λ j. lookup j (get_duplicates (map or_empty routes))) (zero_plus i)
          ∙ lookup-get_duplicates_at (map or_empty routes) i route
              (get_elem?-map or_empty routes i (some route) here)))
    ∙ is_some-marked (is_taken (all_routes ingresses) (map deleted_route ports) (some route)) _
        (route == []) route route (is_empty-false route filled)

-- ===== src/Kubernetes/Applications/Placements.antt =====
-- Placements of a form and the node affinity of a pod
-- (app/kubernetes/helpers/application/index.js). A member that is undefined or deleted is none,
-- and so is the result of a call that throws a TypeError.
pub mod RoundTrip
use ui_for_docker.Prelude.{
  ℕ, String, Bool, true, false, not, Option, none, some, List, [], ◌∷◌, ◌++◌, find, if◌then◌else◌,
  ◌==◌, eq_string,
}

pub record NodeLabel : Type 0 where
  pub key : String
  pub values : List String

-- KubernetesApplicationPlacementFormValue
pub record Placement : Type 0 where
  pub label : Option NodeLabel
  pub value : Option String
  pub needs_deletion : Bool
  pub is_new : Bool

pub data PlacementType : Type 0 where
  preferred mandatory : PlacementType

pub data DeploymentType : Type 0 where
  replicated global : DeploymentType

pub data Operator : Type 0 where
  in_operator exists_operator other_operator : Operator

-- KubernetesNodeSelectorRequirementPayload
pub record Expression : Type 0 where
  pub key : String
  pub operator : Operator
  pub values : Option (List String)

-- KubernetesPreferredSchedulingTermPayload, with the expressions of its `preference`
pub record PreferredTerm : Type 0 where
  pub weight : ℕ
  pub preference : List Expression

-- KubernetesPodNodeAffinityPayload. A required term is its `matchExpressions`.
pub record NodeAffinity : Type 0 where
  pub required : Option (List (List Expression))
  pub preferred_terms : Option (List PreferredTerm)

-- `if (p.Value)`: the expression and the values it has
unfoldable pub requirement : String → Option String → Expression
requirement key none = record { key = key; operator = exists_operator; values = none }
requirement key (some value) =
    if value == ""
    then record { key = key; operator = exists_operator; values = none }
    else record { key = key; operator = in_operator; values = some (value ∷ []) }

unfoldable pub with_rest :
    Option NodeLabel → Option String → Option (List Expression) → Option (List Expression)
with_rest none value rest = none
with_rest (some label) value none = none
with_rest (some label) value (some rest) = some (requirement label.key value ∷ rest)

-- `_.map(placements, …)` and `_.without(expressions, undefined)`
unfoldable pub expressions_of : List Placement → Option (List Expression)
expressions_of [] = some []
expressions_of (p ∷ placements) =
    let rest = expressions_of placements in
    if p.needs_deletion then rest else with_rest p.label p.value rest

unfoldable pub node_affinity : PlacementType → List Expression → NodeAffinity
node_affinity mandatory expressions = record {
  required = some (expressions ∷ []);
  preferred_terms = none;
}
node_affinity preferred expressions = record {
  required = none;
  preferred_terms = some (record { weight = 1; preference = expressions } ∷ []);
}

-- `app.Affinity` is kept where there is no expression.
unfoldable pub affinity_of :
    Option NodeAffinity → PlacementType → Option (List Expression) → Option (Option NodeAffinity)
affinity_of affinity type none = none
affinity_of affinity type (some []) = some affinity
affinity_of affinity type (some (e ∷ expressions)) =
    some (some (node_affinity type (e ∷ expressions)))

unfoldable pub generate_affinity_from_placements :
    DeploymentType
    → PlacementType
    → List Placement
    → Option NodeAffinity
    → Option (Option NodeAffinity)
generate_affinity_from_placements replicated type placements affinity =
    affinity_of affinity type (expressions_of placements)
generate_affinity_from_placements global type placements affinity = some affinity

-- `exp.values[0]`
unfoldable pub first_value : Option (List String) → Option (Option String)
first_value none = none
first_value (some []) = some none
first_value (some (value ∷ values)) = some (some value)

unfoldable pub has_label_key : String → NodeLabel → Bool
has_label_key key label = label.key == key

unfoldable pub placement_of :
    Option NodeLabel → Option (Option String) → Option (List Placement) → Option (List Placement)
placement_of label none rest = none
placement_of label (some value) none = none
placement_of label (some value) (some rest) =
    some (record { label = label; value = value; needs_deletion = false; is_new = false } ∷ rest)

unfoldable pub placements_of : List NodeLabel → List Expression → Option (List Placement)
unfolding has_label_key placement_of first_value
placements_of labels [] = some []
placements_of labels (exp ∷ expressions) =
    placement_of (find (has_label_key exp.key) labels) (first_value exp.values)
      (placements_of labels expressions)

unfoldable pub joined : Option (List Placement) → Option (List Placement) → Option (List Placement)
joined none q = none
joined (some p) none = none
joined (some p) (some q) = some (p ++ q)

unfoldable pub placements_of_terms :
    List NodeLabel → List (List Expression) → Option (List Placement)
placements_of_terms labels [] = some []
placements_of_terms labels (term ∷ terms) =
    joined (placements_of labels term) (placements_of_terms labels terms)

unfoldable pub placements_of_preferred :
    List NodeLabel → List PreferredTerm → Option (List Placement)
placements_of_preferred labels [] = some []
placements_of_preferred labels (term ∷ terms) =
    joined (placements_of labels term.preference) (placements_of_preferred labels terms)

unfoldable pub typed :
    PlacementType
    → List Placement
    → Option (List Placement)
    → Option (PlacementType × List Placement)
typed type placements none = none
typed type placements (some read) = some (type, placements ++ read)

unfoldable pub placements_from :
    PlacementType
    → List Placement
    → Option (List (List Expression))
    → Option (List PreferredTerm)
    → List NodeLabel
    → Option (PlacementType × List Placement)
placements_from type placements (some terms) preferred_terms labels =
    typed mandatory placements (placements_of_terms labels terms)
placements_from type placements none (some terms) labels =
    typed preferred placements (placements_of_preferred labels terms)
placements_from type placements none none labels = some (type, placements)

-- The type and the placements of the form values afterwards.
unfoldable pub generate_placements_form_values_from_affinity :
    PlacementType
    → List Placement
    → Option NodeAffinity
    → List NodeLabel
    → Option (PlacementType × List Placement)
generate_placements_form_values_from_affinity type placements none labels = some (type, placements)
generate_placements_form_values_from_affinity type placements (some affinity) labels =
    placements_from type placements affinity.required affinity.preferred_terms labels

-- ===== src/Docker/Constraints.antt =====
-- Placement constraints of a service against a node: app/docker/helpers/constraintsHelper.js.
pub mod Single
use ui_for_docker.Prelude.{
  ℕ, Bool, true, false, ◌&&◌, ◌||◌, not, Option, none, some, List, [], ◌∷◌, ◌++◌, nat_eq, find,
  if◌then◌else◌, ◌==◌, eq_nat, eq_list, Text, codes, has_text, starts_with, after_prefix,
}
use ui_for_docker.Prelude.Trim.{trim}

pub data Operator : Type 0 where
  eq neq : Operator

-- ConstraintModel. `op` is none where the code has undefined.
pub record ConstraintModel : Type 0 where
  pub op : Option Operator
  pub key : Text
  pub value : Text

-- `transform`
pub record Constraints : Type 0 where
  pub node_id : Option ConstraintModel
  pub node_hostname : Option ConstraintModel
  pub node_role : Option ConstraintModel
  pub node_labels : Option ConstraintModel
  pub engine_labels : Option ConstraintModel

pub record Label : Type 0 where
  pub key : Text
  pub value : Text

pub record Node : Type 0 where
  pub id : Text
  pub hostname : Text
  pub role : Text
  pub labels : List Label
  pub engine_labels : List Label

unfoldable pub matches_op : Option Operator → Bool → Bool
matches_op none same = false
matches_op (some eq) same = same
matches_op (some neq) same = not same

unfoldable pub matches_constraint : Text → Option ConstraintModel → Bool
unfolding matches_op
matches_constraint value none = true
matches_constraint value (some constraint) = matches_op constraint.op (value == constraint.value)

unfoldable pub is_found : Option Label → Bool
is_found none = false
is_found (some label) = true

-- The operator of a label's constraint is not read.
unfoldable pub matches_label : List Label → Option ConstraintModel → Bool
unfolding is_found
matches_label labels none = true
matches_label labels (some constraint) =
    is_found (find (λ label. label.key == constraint.key && label.value == constraint.value) labels)

-- `constraint.split(op)` for an operator of the units `a` and `b`
unfoldable pub cons_unit : ℕ → Text × List Text → Text × List Text
cons_unit c (piece, pieces) = (c ∷ piece, pieces)

unfoldable pub split_pair : ℕ → ℕ → Text → Text × List Text
unfolding cons_unit
split_pair a b [] = ([], [])
split_pair a b (c ∷ []) = (c ∷ [], [])
split_pair a b (c ∷ d ∷ s) =
    let rest = split_pair a b s in
    let later = cons_unit c (split_pair a b (d ∷ s)) in
    if nat_eq c a && nat_eq d b then ([], rest.0 ∷ rest.1) else later

unfoldable pub split_op : Option Operator → Text → Text × List Text
unfolding split_pair
split_op none s = (s, [])
split_op (some eq) s = split_pair b'=' b'=' s
split_op (some neq) s = split_pair b'!' b'=' s

unfoldable pub last_of : Text → List Text → Text
last_of piece [] = piece
last_of piece (next ∷ pieces) = last_of next pieces

unfoldable pub extract_value : Text → Option Operator → Text
unfolding split_op last_of
extract_value constraint op =
    let (piece, pieces) = split_op op constraint in trim (last_of piece pieces)

-- `text.replace(part, '')`: the first occurrence is removed.
unfoldable pub remove_at : ℕ → Text → Option Text → Text → Text
remove_at c s (some behind) later = behind
remove_at c s none later = c ∷ later

unfoldable pub remove_first : Text → Text → Text
unfolding remove_at
remove_first part [] = []
remove_first part (c ∷ s) = remove_at c s (after_prefix part (c ∷ s)) (remove_first part s)

unfoldable pub extract_custom_label_key : Text → Option Operator → Text → Text
unfolding split_op remove_first
extract_custom_label_key constraint op base = remove_first base (trim (split_op op constraint).0)

-- `op` keeps the value of the round before where a constraint has no operator.
unfoldable pub operator_of : Text → Option Operator → Option Operator
operator_of constraint before =
    if has_text constraint (codes "==")
    then some eq
    else if has_text constraint (codes "!=")
    then some neq
    else before

-- The `switch`
unfoldable pub set_constraint : Text → Option Operator → Constraints → Constraints
unfolding extract_value extract_custom_label_key
set_constraint constraint op t =
    let value = extract_value constraint op in
    if has_text constraint (codes "node.id")
    then record t { node_id = some (record { op = op; key = []; value = value }) }
    else if has_text constraint (codes "node.hostname")
    then record t { node_hostname = some (record { op = op; key = []; value = value }) }
    else if has_text constraint (codes "node.role")
    then record t { node_role = some (record { op = op; key = []; value = value }) }
    else if has_text constraint (codes "node.labels.")
    then record t {
      node_labels = some (record {
        op = op;
        key = extract_custom_label_key constraint op (codes "node.labels.");
        value = value;
      });
    }
    else if has_text constraint (codes "engine.labels.")
    then record t {
      engine_labels = some (record {
        op = op;
        key = extract_custom_label_key constraint op (codes "engine.labels.");
        value = value;
      });
    }
    else t

abbrev pub no_constraints : Constraints
no_constraints = record {
  node_id = none;
  node_hostname = none;
  node_role = none;
  node_labels = none;
  engine_labels = none;
}

unfoldable pub transform_from : List Text → Option Operator → Constraints → Constraints
unfolding operator_of set_constraint
transform_from [] op t = t
transform_from (constraint ∷ constraints) op t =
    let op' = operator_of constraint op in
    transform_from constraints op' (set_constraint constraint op' t)

unfoldable pub transform_constraints : List Text → Constraints
unfolding transform_from
transform_constraints constraints = transform_from constraints none no_constraints

unfoldable pub matches_all : Node → Constraints → Bool
unfolding matches_constraint matches_label
matches_all node t =
    matches_constraint node.id t.node_id
    && (matches_constraint node.hostname t.node_hostname
        && (matches_constraint node.role t.node_role
            && (matches_label node.labels t.node_labels
                && matches_label node.engine_labels t.engine_labels)))

-- Constraints that are undefined are none.
unfoldable pub matches_service_constraints : Option (List Text) → Node → Bool
unfolding matches_all transform_constraints
matches_service_constraints none node = true
matches_service_constraints (some []) node = true
matches_service_constraints (some (c ∷ constraints)) node =
    matches_all node (transform_constraints (c ∷ constraints))

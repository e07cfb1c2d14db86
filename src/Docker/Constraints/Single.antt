-- ===== src/Docker/Constraints/Single.antt =====
-- A node against one constraint on its id, its hostname or its role.
use ui_for_docker.Prelude.{
  ℕ, ◌≡◌, refl, Bool, true, false, ◌&&◌, not, none, some, [], ◌∷◌, ◌++◌, arith, ◌==◌, eq_nat,
  eq_list, Text, codes, has_text, starts_with,
}
use ui_for_docker.Prelude.Trim.{trim}
use ui_for_docker.Docker.Constraints.{
  Operator, eq, neq, Node, matches_op, matches_constraint, matches_label, split_pair, split_op,
  last_of, cons_unit, extract_value, operator_of, set_constraint, transform_from,
  transform_constraints, matches_all, matches_service_constraints,
}

pub data Field : Type 0 where
  id hostname role : Field

pub field_name : Field → Text
field_name id = codes "node.id"
field_name hostname = codes "node.hostname"
field_name role = codes "node.role"

pub field_of : Field → Node → Text
field_of id node = node.id
field_of hostname node = node.hostname
field_of role node = node.role

pub sign : Operator → Text
sign eq = codes "=="
sign neq = codes "!="

pub holds : Operator → Text → Text → Bool
holds eq actual value = actual == value
holds neq actual value = not (actual == value)

-- A value with no space around it that does not begin with `=` and holds no operator, no `node.id`
-- and no `node.hostname`.
pub record IsPlainValue (value : Text) : Type 0 where
  pub is_trimmed : trim value ≡ value
  pub lacks_eq : has_text (b'=' ∷ value) (codes "==") ≡ false
  pub lacks_neq : has_text value (codes "!=") ≡ false
  pub lacks_id : has_text value (codes "node.id") ≡ false
  pub lacks_hostname : has_text value (codes "node.hostname") ≡ false

split_pair-none :
    (a b : ℕ) (s : Text) → has_text s (a ∷ b ∷ []) ≡ false → split_pair a b s ≡ (s, [])
unfolding split_pair has_text starts_with cons_unit
split_pair-none a b [] h = refl
split_pair-none a b (c ∷ []) h = refl
split_pair-none a b (c ∷ d ∷ s) h = ground (arith, split_pair-none a b (d ∷ s))

has_text-behind : (c : ℕ) (s part : Text) → has_text (c ∷ s) part ≡ false → has_text s part ≡ false
unfolding has_text
has_text-behind c s part h = ground arith

lacks_eq_behind : (value : Text) → IsPlainValue value → has_text value (codes "==") ≡ false
lacks_eq_behind value plain = has_text-behind b'=' value (codes "==") plain.lacks_eq

pub text_of : Field → Operator → Text → Text
text_of field op value = field_name field ++ (sign op ++ value)

extract_value-text_of :
    (field : Field) (op : Operator) (value : Text)
    → IsPlainValue value
    → extract_value (text_of field op value) (some op) ≡ value
unfolding extract_value split_op split_pair cons_unit last_of text_of field_name sign
extract_value-text_of id eq value plain =
    ground (arith, split_pair-none b'=' b'=' value (lacks_eq_behind value plain), plain.is_trimmed)
extract_value-text_of hostname eq value plain =
    ground (arith, split_pair-none b'=' b'=' value (lacks_eq_behind value plain), plain.is_trimmed)
extract_value-text_of role eq value plain =
    ground (arith, split_pair-none b'=' b'=' value (lacks_eq_behind value plain), plain.is_trimmed)
extract_value-text_of id neq value plain =
    ground (arith, split_pair-none b'!' b'=' value plain.lacks_neq, plain.is_trimmed)
extract_value-text_of hostname neq value plain =
    ground (arith, split_pair-none b'!' b'=' value plain.lacks_neq, plain.is_trimmed)
extract_value-text_of role neq value plain =
    ground (arith, split_pair-none b'!' b'=' value plain.lacks_neq, plain.is_trimmed)

operator_of-text_of :
    (field : Field) (op : Operator) (value : Text)
    → IsPlainValue value
    → operator_of (text_of field op value) none ≡ some op
unfolding operator_of text_of field_name sign has_text starts_with
operator_of-text_of id eq value plain = refl
operator_of-text_of hostname eq value plain = refl
operator_of-text_of role eq value plain = refl
operator_of-text_of id neq value plain = ground (arith, plain.lacks_eq)
operator_of-text_of hostname neq value plain = ground (arith, plain.lacks_eq)
operator_of-text_of role neq value plain = ground (arith, plain.lacks_eq)

names_id : Field → Bool
names_id id = true
names_id hostname = false
names_id role = false

names_hostname : Field → Bool
names_hostname id = false
names_hostname hostname = true
names_hostname role = false

has_id :
    (field : Field) (op : Operator) (value : Text)
    → IsPlainValue value
    → has_text (text_of field op value) (codes "node.id") ≡ names_id field
unfolding has_text starts_with text_of field_name sign names_id
has_id id eq value plain = refl
has_id id neq value plain = refl
has_id hostname eq value plain = plain.lacks_id
has_id hostname neq value plain = plain.lacks_id
has_id role eq value plain = plain.lacks_id
has_id role neq value plain = plain.lacks_id

has_hostname :
    (field : Field) (op : Operator) (value : Text)
    → IsPlainValue value
    → names_id field ≡ false
    → has_text (text_of field op value) (codes "node.hostname") ≡ names_hostname field
unfolding has_text starts_with text_of field_name sign names_hostname names_id
has_hostname id op value plain h = cc
has_hostname hostname eq value plain h = refl
has_hostname hostname neq value plain h = refl
has_hostname role eq value plain h = plain.lacks_hostname
has_hostname role neq value plain h = plain.lacks_hostname

has_role :
    (op : Operator) (value : Text) → has_text (text_of role op value) (codes "node.role") ≡ true
unfolding has_text starts_with text_of field_name sign
has_role eq value = refl
has_role neq value = refl

matches_op-holds :
    (op : Operator) (actual value : Text)
    → (matches_op (some op) (actual == value) && true) ≡ holds op actual value
unfolding matches_op holds
matches_op-holds eq actual value = ground arith
matches_op-holds neq actual value = ground arith

-- A service with one constraint on the id, the hostname or the role of a node runs on exactly the
-- nodes for which the constraint holds, `==` and `!=` being read as they are meant, if no space
-- stands around the operator or the value, and the value does not begin with = and holds no ==, no
-- !=, no node.id and no node.hostname.
pub matches_service_constraints-single :
    (field : Field) (op : Operator) (value : Text) (node : Node)
    → IsPlainValue value
    → matches_service_constraints (some (text_of field op value ∷ [])) node
      ≡ holds op (field_of field node) value
unfolding matches_service_constraints transform_constraints transform_from matches_all
    set_constraint matches_constraint matches_label field_of names_id names_hostname
matches_service_constraints-single id op value node plain = ground (
  arith,
  operator_of-text_of id op value plain,
  extract_value-text_of id op value plain,
  has_id id op value plain,
  matches_op-holds op node.id value,
)
matches_service_constraints-single hostname op value node plain = ground (
  arith,
  operator_of-text_of hostname op value plain,
  extract_value-text_of hostname op value plain,
  has_id hostname op value plain,
  has_hostname hostname op value plain refl,
  matches_op-holds op node.hostname value,
)
matches_service_constraints-single role op value node plain = ground (
  arith,
  operator_of-text_of role op value plain,
  extract_value-text_of role op value plain,
  has_id role op value plain,
  has_hostname role op value plain refl,
  has_role op value,
  matches_op-holds op node.role value,
)

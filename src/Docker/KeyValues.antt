-- ===== src/Docker/KeyValues.antt =====
-- The conversions between the lists of a form and what the Docker API takes: placement
-- constraints and preferences, log driver options and host entries of
-- app/docker/helpers/serviceHelper.js, and labels of app/docker/helpers/labelHelper.js. An empty
-- text stands for a field that is empty or undefined: the code tests both by the same condition.
pub mod Constraints
pub mod Hosts
pub mod Objects
use ui_for_docker.Prelude.{
  ℕ, Bool, true, false, ◌&&◌, not, Option, none, some, List, [], ◌∷◌, ◌++◌, if◌then◌else◌, Text,
  codes, cut_text, ◌+◌, split_at, eq_list, eq_nat, ◌==◌, leb, map, keep,
}
use ui_for_docker.Prelude.Dict.{Dict, insert}

-- Whether a text is truthy.
abbrev pub is_filled : Text → Bool
is_filled [] = false
is_filled (c ∷ s) = true

-- A placement constraint of the form.
pub record Constraint : Type 0 where
  pub key : Text
  pub operator : Text
  pub value : Text

unfoldable pub translate_key_value_to_placement_constraints : List Constraint → List Text
translate_key_value_to_placement_constraints [] = []
translate_key_value_to_placement_constraints (constraint ∷ constraints) =
    let rest = translate_key_value_to_placement_constraints constraints in
    if is_filled constraint.key && is_filled constraint.value
    then (constraint.key ++ (constraint.operator ++ constraint.value)) ∷ rest
    else rest

-- `constraint.slice(0, -1)` and `constraint.slice(1)`, for a constraint with no operator, where
-- the index is -1.
drop_last : Text → Text
drop_last [] = []
drop_last (c ∷ []) = []
drop_last (c ∷ d ∷ s) = c ∷ drop_last (d ∷ s)

drop_first : Text → Text
drop_first [] = []
drop_first (c ∷ s) = s

unfoldable pub at_not_equals : Text → Option (Text × Text) → Constraint
unfolding drop_last drop_first
at_not_equals text none = record {
  key = drop_last text;
  operator = codes "!=";
  value = drop_first text;
}
at_not_equals text (some (key, value)) = record { key = key; operator = codes "!="; value = value }

unfoldable pub at_equals : Text → Option (Text × Text) → Constraint
unfolding at_not_equals
at_equals text none = at_not_equals text (cut_text (codes "!=") text)
at_equals text (some (key, value)) = record { key = key; operator = codes "=="; value = value }

-- The text cut at its first `==`, or else at its first `!=`.
unfoldable pub parse_constraint : Text → Constraint
unfolding at_equals
parse_constraint text = at_equals text (cut_text (codes "==") text)

unfoldable pub translate_constraints_to_key_value : List Text → List Constraint
translate_constraints_to_key_value texts = map parse_constraint texts

-- A placement preference of the form, and the descriptor of a `Spread`.
pub record Preference : Type 0 where
  pub strategy : Text
  pub value : Text

abbrev lower : ℕ → ℕ
lower c = if leb b'A' c && leb c b'Z' then c + 32 else c

-- `toLowerCase`, on the letters that can make the text `spread`.
unfoldable pub is_spread : Text → Bool
is_spread strategy = map lower strategy == codes "spread"

unfoldable pub translate_key_value_to_placement_preferences : List Preference → List Text
translate_key_value_to_placement_preferences [] = []
translate_key_value_to_placement_preferences (preference ∷ preferences) =
    let rest = translate_key_value_to_placement_preferences preferences in
    if is_filled preference.strategy && is_filled preference.value && is_spread preference.strategy
    then preference.value ∷ rest
    else rest

-- The preferences that are a `Spread`, by their descriptors.
unfoldable pub translate_preferences_to_key_value : List (Option Text) → List Preference
translate_preferences_to_key_value [] = []
translate_preferences_to_key_value (none ∷ preferences) =
    translate_preferences_to_key_value preferences
translate_preferences_to_key_value (some descriptor ∷ preferences) =
    record { strategy = codes "Spread"; value = descriptor }
    ∷ translate_preferences_to_key_value preferences

-- A host entry of the form.
pub record HostEntry : Type 0 where
  pub hostname : Text
  pub ip : Text

-- `entry.indexOf(' ')` is not 0, and the entry has two parts.
unfoldable pub host_entry : Text × List Text → Option HostEntry
host_entry ([], parts) = none
host_entry (c ∷ ip, []) = none
host_entry (c ∷ ip, hostname ∷ []) = some (record { hostname = hostname; ip = c ∷ ip })
host_entry (c ∷ ip, hostname ∷ part ∷ parts) = none

unfoldable pub cons_some {ℓ} : {A : Type ℓ} → Option A → List A → List A
cons_some none xs = xs
cons_some (some x) xs = x ∷ xs

unfoldable pub translate_hosts_entries_to_hostname_ip : List Text → List HostEntry
unfolding host_entry cons_some
translate_hosts_entries_to_hostname_ip [] = []
translate_hosts_entries_to_hostname_ip (entry ∷ entries) =
    cons_some (host_entry (split_at b' ' entry)) (translate_hosts_entries_to_hostname_ip entries)

unfoldable pub translate_hostname_ip_to_hosts_entries : List HostEntry → List Text
translate_hostname_ip_to_hosts_entries [] = []
translate_hostname_ip_to_hosts_entries (entry ∷ entries) =
    let rest = translate_hostname_ip_to_hosts_entries entries in
    if is_filled entry.ip && is_filled entry.hostname
    then (entry.ip ++ b' ' ∷ entry.hostname) ∷ rest
    else rest

-- A pair of the form, with the key and the value that it was loaded with.
pub record KeyValue : Type 0 where
  pub key : Text
  pub value : Text
  pub original_key : Text
  pub original_value : Text
  pub added : Bool

unfoldable pub loaded : Text × Text → KeyValue
loaded (key, value) = record {
  key = key;
  value = value;
  original_key = key;
  original_value = value;
  added = true;
}

-- `fromLabelHashToKeyValue`, and `translateLogDriverOptsToKeyValue`, which is the same.
unfoldable pub from_label_hash_to_key_value : Dict Text Text → List KeyValue
unfolding loaded
from_label_hash_to_key_value labels = map loaded labels

unfoldable pub assign_labels : List KeyValue → Dict Text Text → Dict Text Text
assign_labels [] labels = labels
assign_labels (label ∷ rest) labels =
    assign_labels rest (if is_filled label.key then insert label.key label.value labels else labels)

unfoldable pub from_key_value_to_label_hash : List KeyValue → Dict Text Text
unfolding assign_labels
from_key_value_to_label_hash labels = assign_labels labels []

unfoldable pub assign_options : List KeyValue → Dict Text Text → Dict Text Text
assign_options [] options = options
assign_options (option ∷ rest) options = assign_options rest (
    if is_filled option.key && is_filled option.value
    then insert option.key option.value options
    else options)

unfoldable pub translate_key_value_to_log_driver_opts : List KeyValue → Dict Text Text
unfolding assign_options
translate_key_value_to_log_driver_opts options = assign_options options []

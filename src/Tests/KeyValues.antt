-- ===== src/Tests/KeyValues.antt =====
-- Placement constraints and preferences, host entries, labels and log driver options at concrete
-- inputs.
use ui_for_docker.Prelude.{
  ◌≡◌, refl, some, [], ◌∷◌, Text, codes, true, Lacks, has_unit, has_unit-Lacks, eq_list, eq_nat,
  list_eq, has_text, starts_with,
}
use ui_for_docker.Prelude.Dict.{Dict, lookup, HasDistinctKeys}
use ui_for_docker.Prelude.Decimal.{is_space}
use ui_for_docker.Prelude.Trim.{trim, trim_start, trim_end, trim_end_step}
use ui_for_docker.Docker.Constraints.{neq, Node, matches_service_constraints}
use ui_for_docker.Docker.Constraints.Single.{
  role, field_of, text_of, holds, IsPlainValue, matches_service_constraints-single,
}
use ui_for_docker.Docker.KeyValues.{Constraint, HostEntry, KeyValue}
use ui_for_docker.Docker.KeyValues.Constraints.{IsPlain}
use ui_for_docker.Docker.KeyValues.Hosts.{translate_hosts_entries-print}
use ui_for_docker.Docker.KeyValues.Hosts

abbrev role_constraint : Constraint
role_constraint = record { key = codes "node.role"; operator = codes "=="; value = codes "manager" }

before-lacks : Lacks b'=' (codes "a")
unfolding has_unit
before-lacks = has_unit-Lacks b'=' (codes "a") refl

abbrev database_entry : HostEntry
database_entry = record { hostname = codes "db"; ip = codes "10.0.0.2" }

database_entry-lacks : Lacks b' ' (codes "10.0.0.2") × Lacks b' ' (codes "db")
unfolding has_unit
database_entry-lacks =
    (has_unit-Lacks b' ' (codes "10.0.0.2") refl, has_unit-Lacks b' ' (codes "db") refl)

database_entry-IsPlain : Hosts.IsPlain database_entry
database_entry-IsPlain = record {
  ip_filled = refl;
  hostname_filled = refl;
  ip_lacks_space = database_entry-lacks.0;
  hostname_lacks_space = database_entry-lacks.1;
}

abbrev two_labels : Dict Text Text
two_labels = (codes "env", codes "prod") ∷ (codes "tier", codes "web") ∷ []

two_labels-HasDistinctKeys : HasDistinctKeys two_labels
unfolding lookup list_eq
two_labels-HasDistinctKeys = (refl, (refl, tt))

abbrev edited_label : KeyValue
edited_label = record {
  key = codes "env";
  value = codes "test";
  original_key = codes "env";
  original_value = codes "prod";
  added = true;
}

manager-IsPlainValue : IsPlainValue (codes "manager")
unfolding trim trim_start trim_end trim_end_step is_space has_text starts_with
manager-IsPlainValue = record {
  is_trimmed = refl;
  lacks_eq = refl;
  lacks_neq = refl;
  lacks_id = refl;
  lacks_hostname = refl;
}

abbrev worker_node : Node
worker_node = record {
  id = codes "n1";
  hostname = codes "host";
  role = codes "worker";
  labels = [];
  engine_labels = [];
}

matches_service_constraints-single_example :
    matches_service_constraints (some (text_of role neq (codes "manager") ∷ [])) worker_node
    ≡ holds neq (field_of role worker_node) (codes "manager")
matches_service_constraints-single_example =
    matches_service_constraints-single role neq (codes "manager") worker_node manager-IsPlainValue

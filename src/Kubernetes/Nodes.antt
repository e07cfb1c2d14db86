-- ===== src/Kubernetes/Nodes.antt =====
-- Nodes (app/kubernetes/node/converter.js), less their `CPU`, which is a fraction. The labels of a
-- node are an object; the conditions are read for whether they hold.
pub mod Laws
use ui_for_docker.Prelude.{
  ℕ, String, Bool, true, false, ◌&&◌, ◌||◌, not, Option, none, some, List, [], ◌∷◌, map, keep, find,
  if◌then◌else◌, ◌==◌, eq_string,
}
use ui_for_docker.Prelude.Dict.{Dict, lookup, insert, remove}

pub data Availability : Type 0 where
  active pause drain : Availability

pub data Status : Type 0 where
  unhealthy warning ready : Status

pub data Role : Type 0 where
  master worker : Role

-- KubernetesNodeTaint, and the taints of the API
pub record Taint : Type 0 where
  pub key : String
  pub value : String
  pub effect : String

pub record Address : Type 0 where
  pub type : String
  pub address : String

pub record Condition : Type 0 where
  pub type : String
  pub status : String

-- What is read of a node of the API. `capital_name` is `metadata.Name`, which the code reads.
pub record ApiNode : Type 0 where
  pub uid : String
  pub capital_name : Option String
  pub labels : Dict String String
  pub unschedulable : Bool
  pub addresses : List Address
  pub conditions : List Condition
  pub taints : List Taint
  pub memory : String
  pub kubelet_version : String

pub record Conditions : Type 0 where
  pub memory_pressure : Bool
  pub pid_pressure : Bool
  pub disk_pressure : Bool
  pub network_unavailable : Bool

pub record Node : Type 0 where
  pub id : String
  pub name : Option String
  pub labels : Dict String String
  pub role : Role
  pub conditions : Conditions
  pub availability : Availability
  pub status : Status
  pub memory : String
  pub version : String
  pub ip_address : String
  pub taints : List Taint

abbrev pub drain_label : String
drain_label = "io.portainer/node-status-drain"

abbrev pub master_label : String
master_label = "node-role.kubernetes.io/master"

-- `_.has(labels, key)`
unfoldable pub has_label : Option String → Bool
has_label none = false
has_label (some value) = true

unfoldable pub availability_of : Bool → Dict String String → Availability
unfolding has_label
availability_of unschedulable labels =
    if unschedulable
    then (if has_label (lookup drain_label labels) then drain else pause)
    else active

unfoldable pub status_of_condition : Option Condition → Option String
status_of_condition none = none
status_of_condition (some condition) = some condition.status

unfoldable pub condition_status : String → List Condition → Option String
unfolding status_of_condition
condition_status type conditions = status_of_condition (find (λ c. c.type == type) conditions)

unfoldable pub is_true : Option String → Bool
is_true none = false
is_true (some status) = status == "True"

unfoldable pub read_conditions : List Condition → Conditions
unfolding is_true condition_status
read_conditions conditions = record {
  memory_pressure = is_true (condition_status "MemoryPressure" conditions);
  pid_pressure = is_true (condition_status "PIDPressure" conditions);
  disk_pressure = is_true (condition_status "DiskPressure" conditions);
  network_unavailable = is_true (condition_status "NetworkUnavailable" conditions);
}

unfoldable pub is_pressed : Conditions → Bool
is_pressed c = c.memory_pressure || (c.pid_pressure || (c.disk_pressure || c.network_unavailable))

-- From the status of the condition `Ready`
unfoldable pub status_of : String → Conditions → Status
unfolding is_pressed
status_of ready_status conditions =
    if ready_status == "False"
    then unhealthy
    else if ready_status == "Unknown" || is_pressed conditions
    then warning
    else ready

unfoldable pub address_or : Option String → Option Address → Option String
address_or default none = default
address_or default (some a) = some a.address

unfoldable pub internal_ip : Option Address → String
internal_ip none = "-"
internal_ip (some a) = a.address

unfoldable pub node_with : ApiNode → String → Node
unfolding availability_of read_conditions status_of address_or internal_ip has_label
node_with node ready_status = record {
  id = node.uid;
  name = address_or node.capital_name (find (λ a. a.type == "Hostname") node.addresses);
  labels = node.labels;
  role = (if has_label (lookup master_label node.labels) then master else worker);
  conditions = read_conditions node.conditions;
  availability = availability_of node.unschedulable node.labels;
  status = status_of ready_status (read_conditions node.conditions);
  memory = node.memory;
  version = node.kubelet_version;
  ip_address = internal_ip (find (λ a. a.type == "InternalIP") node.addresses);
  taints = node.taints;
}

unfoldable pub node_if : ApiNode → Option String → Option Node
node_if node none = none
node_if node (some status) = some (node_with node status)

-- Without a condition `Ready` the code throws a TypeError.
unfoldable pub api_to_node : ApiNode → Option Node
unfolding node_if condition_status
api_to_node node = node_if node (condition_status "Ready" node.conditions)

-- KubernetesNodeTaintFormValues
pub record TaintFormValues : Type 0 where
  pub key : String
  pub value : String
  pub effect : String
  pub needs_deletion : Bool
  pub is_new : Bool

-- KubernetesNodeLabelFormValues
pub record LabelFormValues : Type 0 where
  pub key : String
  pub value : Option String
  pub needs_deletion : Bool
  pub is_new : Bool

pub record NodeFormValues : Type 0 where
  pub availability : Availability
  pub taints : List TaintFormValues
  pub labels : List LabelFormValues

unfoldable pub taint_form_values : Taint → TaintFormValues
taint_form_values t = record {
  key = t.key;
  value = t.value;
  effect = t.effect;
  needs_deletion = false;
  is_new = false;
}

unfoldable pub label_form_values : String × String → LabelFormValues
label_form_values (key, value) = record {
  key = key;
  value = some value;
  needs_deletion = false;
  is_new = false;
}

unfoldable pub node_to_form_values : Node → NodeFormValues
unfolding taint_form_values label_form_values
node_to_form_values node = record {
  availability = node.availability;
  taints = map taint_form_values node.taints;
  labels = map label_form_values node.labels;
}

unfoldable pub taint_of : TaintFormValues → Taint
taint_of t = record { key = t.key; value = t.value; effect = t.effect }

-- `item.Value ? item.Value : ''`
unfoldable pub text_of : Option String → String
text_of none = ""
text_of (some value) = value

unfoldable pub is_kept_taint : TaintFormValues → Bool
is_kept_taint t = not t.needs_deletion

unfoldable pub is_kept_label : LabelFormValues → Bool
is_kept_label label = not label.needs_deletion

-- `_.reduce(filteredLabels, …, {})`
unfoldable pub collect_labels : List LabelFormValues → Dict String String → Dict String String
unfolding text_of
collect_labels [] labels = labels
collect_labels (item ∷ items) labels =
    collect_labels items (insert item.key (text_of item.value) labels)

unfoldable pub form_values_to_node : Node → NodeFormValues → Node
unfolding taint_of is_kept_taint is_kept_label collect_labels
form_values_to_node node form_values = record node {
  availability = form_values.availability;
  taints = map taint_of (keep is_kept_taint form_values.taints);
  labels = collect_labels (keep is_kept_label form_values.labels) [];
}

-- KubernetesNodeCreatePayload. `taints` is none where it is undefined.
pub record NodePayload : Type 0 where
  pub name : Option String
  pub labels : Dict String String
  pub taints : Option (List Taint)
  pub unschedulable : Bool

unfoldable pub taints_payload : List Taint → Option (List Taint)
taints_payload [] = none
taints_payload (t ∷ taints) = some (t ∷ taints)

-- The labels, which the payload shares with the node, as they are afterwards.
unfoldable pub labels_payload : Availability → Dict String String → Dict String String
labels_payload active labels = labels
labels_payload pause labels = remove drain_label labels
labels_payload drain labels = insert drain_label "" labels

unfoldable pub is_unschedulable : Availability → Bool
is_unschedulable active = false
is_unschedulable pause = true
is_unschedulable drain = true

unfoldable pub create_payload : Node → NodePayload
unfolding taints_payload labels_payload is_unschedulable
create_payload node = record {
  name = node.name;
  labels = labels_payload node.availability node.labels;
  taints = taints_payload node.taints;
  unschedulable = is_unschedulable node.availability;
}

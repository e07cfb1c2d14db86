-- ===== src/Kubernetes/Nodes/Laws.antt =====
-- A node against its form and against what is sent to the API.
use ui_for_docker.Prelude.{
  String, ◌≡◌, ◌≢◌, refl, sym, ap, ◌∙◌, List, [], ◌∷◌, ◌++◌, append_assoc, append-nil, map, keep,
  arith, ==_iff, eq_string,
}
use ui_for_docker.Prelude.Dict.{
  Dict, lookup, lookup-insert, lookup-remove, insert-absent, HasDistinctKeys,
  HasDistinctKeys-absent,
}
use ui_for_docker.Kubernetes.Nodes.{
  Availability, active, pause, drain, Taint, Node, drain_label, has_label, availability_of,
  NodeFormValues, taint_form_values, label_form_values, node_to_form_values, taint_of, text_of,
  is_kept_taint, is_kept_label, collect_labels, form_values_to_node, labels_payload,
  is_unschedulable, create_payload,
}

taints-kept :
    (taints : List Taint)
    → map taint_of (keep is_kept_taint (map taint_form_values taints)) ≡ taints
unfolding taint_of is_kept_taint taint_form_values keep
taints-kept [] = refl
taints-kept (t ∷ taints) = ap (λ ts. t ∷ ts) (taints-kept taints)

labels-kept :
    (labels rest : Dict String String)
    → HasDistinctKeys (labels ++ rest)
    → collect_labels (keep is_kept_label (map label_form_values rest)) labels ≡ labels ++ rest
unfolding collect_labels is_kept_label label_form_values keep text_of
labels-kept labels [] h = sym (append-nil labels)
labels-kept labels ((key, value) ∷ rest) h = ground (
  arith,
  insert-absent key value labels (HasDistinctKeys-absent labels key value rest h),
  labels-kept (labels ++ (key, value) ∷ []) rest (rw append_assoc h),
  append_assoc labels ((key, value) ∷ []) rest,
)

-- A node whose form was not edited is the node again; the keys of its labels are distinct.
pub form_values_to_node-unedited :
    (node : Node)
    → HasDistinctKeys node.labels
    → form_values_to_node node (node_to_form_values node) ≡ node
unfolding form_values_to_node node_to_form_values
form_values_to_node-unedited node h =
    ap
      (λ labels. record node {
        taints = map taint_of (keep is_kept_taint (map taint_form_values node.taints));
        labels = labels;
      })
      (labels-kept [] node.labels h)
    ∙ ap (λ taints. record node { taints = taints }) (taints-kept node.taints)

availability_of-payload :
    (availability : Availability) (labels : Dict String String)
    → availability_of (is_unschedulable availability) (labels_payload availability labels)
      ≡ availability
unfolding availability_of labels_payload is_unschedulable has_label
availability_of-payload active labels = refl
availability_of-payload pause labels = ground (arith, lookup-remove drain_label drain_label labels)
availability_of-payload drain labels =
    ground (arith, lookup-insert drain_label drain_label "" labels)

lookup-labels_payload :
    (availability : Availability) (key : String) (labels : Dict String String)
    → key ≢ drain_label
    → lookup key (labels_payload availability labels) ≡ lookup key labels
unfolding labels_payload
lookup-labels_payload active key labels h = refl
lookup-labels_payload pause key labels h =
    ground (arith, lookup-remove drain_label key labels, ==_iff drain_label key)
lookup-labels_payload drain key labels h =
    ground (arith, lookup-insert drain_label key "" labels, ==_iff drain_label key)

-- What is sent for the node of a form that was filled in has the availability that was chosen, as
-- it is read from the API, and every label of the node but the one that marks a drain.
pub create_payload-availability :
    (node : Node) (form_values : NodeFormValues) (key : String)
    → (availability_of
          (create_payload (form_values_to_node node form_values)).unschedulable
          (create_payload (form_values_to_node node form_values)).labels
        ≡ form_values.availability)
      × (key ≢ drain_label
          → lookup key (create_payload (form_values_to_node node form_values)).labels
            ≡ lookup key (form_values_to_node node form_values).labels)
unfolding create_payload form_values_to_node
create_payload-availability node form_values key = (
  availability_of-payload form_values.availability _,
  λ h. lookup-labels_payload form_values.availability key _ h,
)

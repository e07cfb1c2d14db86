-- ===== src/Kubernetes/Applications/Placements/RoundTrip.antt =====
-- Placements that are written as an affinity and read back.
use ui_for_docker.Prelude.{
  String, ◌≡◌, ◌≢◌, refl, ap, Bool, false, not, Option, none, some, Option-cases, Bool-cases, inl,
  inr, List, [], ◌∷◌, ◌++◌, append-nil, map, keep, all, All, find, arith, if◌then◌else◌, ◌==◌,
  eq_string,
}
use ui_for_docker.Kubernetes.Applications.Placements.{
  NodeLabel, Placement, PlacementType, preferred, mandatory, replicated, Expression, NodeAffinity,
  requirement, with_rest, expressions_of, node_affinity, affinity_of,
  generate_affinity_from_placements, first_value, has_label_key, placement_of, placements_of,
  joined, placements_of_terms, placements_of_preferred, typed, placements_from,
  generate_placements_form_values_from_affinity,
}

unfoldable pub is_kept : Placement → Bool
is_kept p = not p.needs_deletion

unfoldable pub label_of : List NodeLabel → Option NodeLabel → Option NodeLabel
label_of labels none = none
label_of labels (some label) = find (has_label_key label.key) labels

-- A placement that is kept has a label, which is the first one with its key among those of the
-- nodes.
abbrev pub IsKnown : List NodeLabel → Placement → Type 0
IsKnown labels p = p.needs_deletion ≡ false → (p.label ≢ none) × (label_of labels p.label ≡ p.label)

pub has_value : Option String → Bool
has_value none = false
has_value (some value) = not (value == "")

pub is_valued : Placement → Bool
is_valued p = has_value p.value

pub as_read : Placement → Placement
as_read p = record { label = p.label; value = p.value; needs_deletion = false; is_new = false }

read : List NodeLabel → Option (List Expression) → Option (List Placement)
read labels none = none
read labels (some expressions) = placements_of labels expressions

read_or_none : List Placement → Option (List Placement)
read_or_none kept = if all is_valued kept then some (map as_read kept) else none

read-with_rest :
    (labels : List NodeLabel) (label : Option NodeLabel) (value : Option String)
    (rest : Option (List Expression))
    → label ≢ none
    → label_of labels label ≡ label
    → read labels (with_rest label value rest)
      ≡ placement_of label (if has_value value then some value else none) (read labels rest)
unfolding read with_rest label_of has_value placements_of placement_of requirement first_value
    has_label_key
read-with_rest labels none value rest h e = elim (h refl) [ ]
read-with_rest labels (some label) value none h e = ground arith
read-with_rest labels (some label) none (some rest) h e = refl
read-with_rest labels (some label) (some value) (some rest) h e = ground (arith, e)

read-expressions_of :
    (labels : List NodeLabel) (placements : List Placement)
    → All (IsKnown labels) placements
    → read labels (expressions_of placements) ≡ read_or_none (keep is_kept placements)
unfolding read expressions_of read_or_none keep is_kept all is_valued as_read placements_of
    placement_of
read-expressions_of labels [] h = refl
read-expressions_of labels (p ∷ placements) (h, hs) = elim (Bool-cases p.needs_deletion) [
  | inl e ↦ ground (arith, e, read-expressions_of labels placements hs)
  | inr e ↦
      let (some_label, found) = h e in
      ground (
        arith,
        e,
        read-expressions_of labels placements hs,
        read-with_rest labels p.label p.value (expressions_of placements) some_label found,
      )
]

expressions_of-ne_nil :
    (placements : List Placement)
    → keep is_kept placements ≢ []
    → expressions_of placements ≢ some []
unfolding expressions_of with_rest keep is_kept
expressions_of-ne_nil [] h = λ _. h refl
expressions_of-ne_nil (p ∷ placements) h = ground (
  arith,
  expressions_of-ne_nil placements,
  Option-cases p.label,
  Option-cases (expressions_of placements),
)

pub read_back :
    PlacementType
    → List Placement
    → List NodeLabel
    → Option (Option NodeAffinity)
    → Option (PlacementType × List Placement)
read_back type placements labels none = none
read_back type placements labels (some affinity) =
    generate_placements_form_values_from_affinity type placements affinity labels

joined_nil : (o : Option (List Placement)) → joined o (some []) ≡ o
unfolding joined
joined_nil none = refl
joined_nil (some read) = ap (λ r. some r) (append-nil read)

read_back-affinity_of :
    (labels : List NodeLabel) (before type : PlacementType) (others : List Placement)
    (affinity : Option NodeAffinity) (expressions : Option (List Expression))
    → expressions ≢ some []
    → read_back before others labels (affinity_of affinity type expressions)
      ≡ typed type others (read labels expressions)
unfolding read_back affinity_of read typed node_affinity
    generate_placements_form_values_from_affinity placements_from placements_of_terms
    placements_of_preferred
read_back-affinity_of labels before type others affinity none h = refl
read_back-affinity_of labels before type others affinity (some []) h = elim (h refl) [ ]
read_back-affinity_of labels before mandatory others affinity (some (e ∷ es)) h =
    ap (λ o. typed mandatory others o) (joined_nil (placements_of labels (e ∷ es)))
read_back-affinity_of labels before preferred others affinity (some (e ∷ es)) h =
    ap (λ o. typed preferred others o) (joined_nil (placements_of labels (e ∷ es)))

-- Where each placement that is kept has a label of the nodes and there is one, the placements of
-- a replicated application are read back from its affinity exactly if each that is kept has a
-- value: then with their type, labels and values, in their order, behind the placements that were
-- there. If one has none, reading throws.
pub generate_affinity-read_back :
    (labels : List NodeLabel) (before type : PlacementType) (others placements : List Placement)
    (affinity : Option NodeAffinity)
    → All (IsKnown labels) placements
    → keep is_kept placements ≢ []
    → read_back before others labels
        (generate_affinity_from_placements replicated type placements affinity)
      ≡ (if all is_valued (keep is_kept placements)
          then some (type, others ++ map as_read (keep is_kept placements))
          else none)
unfolding generate_affinity_from_placements read_or_none typed
generate_affinity-read_back labels before type others placements affinity h ne = ground (
  arith,
  read_back-affinity_of labels before type others affinity (expressions_of placements)
      (expressions_of-ne_nil placements ne),
  read-expressions_of labels placements h,
)

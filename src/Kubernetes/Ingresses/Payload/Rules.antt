-- ===== src/Kubernetes/Ingresses/Payload/Rules.antt =====
-- The rules that are sent against the hosts of the ingress.
use ui_for_docker.Prelude.{
  ◌≡◌, refl, Bool, true, false, ◌||◌, Option, none, some, List, [], ◌∷◌, ◌++◌, map, arith,
  if◌then◌else◌, ==_iff, ==_self, eq_nat, eq_list, Text, Bool-cases, inl, inr,
}
use ui_for_docker.Prelude.Dict.{Dict}
use ui_for_docker.Kubernetes.Ingresses.{Rule}
use ui_for_docker.Kubernetes.Ingresses.Payload.{
  Host, plain_host, form_host, RulePayload, host_name, needs_deletion, same_host, has_host,
  assigned_host, empty_rules, add_rule, rules_of, with_empty_rules, bare_rules, payload_rules,
  path_payload,
}

is_empty : Host → Bool
is_empty (plain_host []) = true
is_empty (plain_host (c ∷ name)) = false
is_empty (form_host h) = false

-- The host of a rule, which is unset for the empty name.
names_host : Host → Option Host → Bool
names_host k none = is_empty k
names_host k (some h) = same_host k h

pub has_rule : Host → List RulePayload → Bool
unfolding names_host
has_rule k [] = false
has_rule k (rule ∷ rules) = names_host k rule.host || has_rule k rules

has_rule-append_right :
    (k : Host) (rules others : List RulePayload)
    → has_rule k others ≡ true
    → has_rule k (rules ++ others) ≡ true
unfolding has_rule
has_rule-append_right k [] others h = h
has_rule-append_right k (rule ∷ rules) others h =
    ground (arith, has_rule-append_right k rules others h)

has_rule-append_left :
    (k : Host) (rules others : List RulePayload)
    → has_rule k rules ≡ true
    → has_rule k (rules ++ others) ≡ true
unfolding has_rule
has_rule-append_left k [] others h = cc
has_rule-append_left k (rule ∷ rules) others h = ground (arith, has_rule-append_left k rules others)

same_host_self : (h : Host) → same_host h h ≡ true
unfolding same_host
same_host_self (plain_host name) = ==_self name
same_host_self (form_host h) = ==_self h.id

names_host-assigned_host :
    (k h : Host) → same_host k h ≡ true → names_host k (assigned_host h) ≡ true
unfolding names_host assigned_host is_empty same_host
names_host-assigned_host (plain_host []) (plain_host []) e = refl
names_host-assigned_host (plain_host (c ∷ s)) (plain_host []) e = ground (arith, ==_iff (c ∷ s) [])
names_host-assigned_host k (plain_host (d ∷ t)) e = e
names_host-assigned_host (form_host g) (plain_host []) e = cc
names_host-assigned_host k (form_host h) e = e

-- What the rules and the hosts with rules have to do with each other.
AreServed : Option (List RulePayload × List Host) → Type 0
AreServed none = Unit {0}
AreServed (some (rules, with_rules)) =
    (k : Host) → has_host k with_rules ≡ true → has_rule k rules ≡ true

AreServed-kept :
    (b : Bool) (h : Host) (paths : List Rule) (rules : List RulePayload) (with_rules : List Host)
    → AreServed (some (rules, with_rules))
    → AreServed (
        if b
        then some (rules, with_rules)
        else some (
          record { host = assigned_host h; paths = some (map path_payload paths) } ∷ rules,
          h ∷ with_rules,
        ))
unfolding AreServed has_host has_rule
AreServed-kept true h paths rules with_rules served = served
AreServed-kept false h paths rules with_rules served =
    λ k e. ground (arith, e, served k, names_host-assigned_host k h)

AreServed-add_rule :
    (found : Option Host) (paths : List Rule) (rest : Option (List RulePayload × List Host))
    → AreServed rest
    → AreServed (add_rule found paths rest)
unfolding add_rule AreServed
AreServed-add_rule none paths rest h = tt
AreServed-add_rule (some h) paths none served = tt
AreServed-add_rule (some h) paths (some (rules, with_rules)) served =
    AreServed-kept (needs_deletion h) (host_name h) paths rules with_rules served

rules_of-AreServed :
    (hosts : List Host) (groups : Dict Text (List Rule)) → AreServed (rules_of hosts groups)
unfolding rules_of AreServed has_host
rules_of-AreServed hosts [] = λ k e. cc e
rules_of-AreServed hosts ((host, paths) ∷ groups) =
    AreServed-add_rule _ paths (rules_of hosts groups) (rules_of-AreServed hosts groups)

empty_rules-host :
    (with_rules before behind : List Host) (h : Host)
    → needs_deletion h ≡ false
    → has_host (host_name h) with_rules ≡ false
    → has_rule (host_name h) (empty_rules with_rules (before ++ h ∷ behind)) ≡ true
unfolding empty_rules has_rule
empty_rules-host with_rules [] behind h d e = ground (arith, d, e, same_host_self (host_name h))
empty_rules-host with_rules (g ∷ before) behind h d e =
    ground (arith, empty_rules-host with_rules before behind h d e)

with_empty_rules-host :
    (found : Option (List RulePayload × List Host)) (before behind : List Host) (h : Host)
    (rules : List RulePayload)
    → AreServed found
    → needs_deletion h ≡ false
    → with_empty_rules (before ++ h ∷ behind) found ≡ some rules
    → has_rule (host_name h) rules ≡ true
unfolding with_empty_rules AreServed
with_empty_rules-host none before behind h rules served d e = cc
with_empty_rules-host (some (first, with_rules)) before behind h rules served d e =
    elim (Bool-cases (has_host (host_name h) with_rules)) [
      | inl w ↦ ground (
        arith,
        e,
        has_rule-append_left (host_name h) first (empty_rules with_rules (before ++ h ∷ behind))
            (served (host_name h) w),
      )
      | inr w ↦ ground (
        arith,
        e,
        has_rule-append_right (host_name h) first (empty_rules with_rules (before ++ h ∷ behind))
            (empty_rules-host with_rules before behind h d w),
      )
    ]

-- Where an ingress has paths and its rules are made without an error, every host that is not to be
-- deleted has a rule: one with its name; for the empty name of a text, one without a host or with
-- the empty host; and for the empty name of an object of the form, one whose host is that object
-- itself.
pub payload_rules-host :
    (p : Rule) (paths : List Rule) (before behind : List Host) (h : Host) (rules : List RulePayload)
    → needs_deletion h ≡ false
    → payload_rules (p ∷ paths) (before ++ h ∷ behind) ≡ some rules
    → has_rule (host_name h) rules ≡ true
unfolding payload_rules
payload_rules-host p paths before behind h rules d e =
    with_empty_rules-host _ before behind h rules (rules_of-AreServed (before ++ h ∷ behind) _) d e

pub nameless : Text → RulePayload
nameless name = record { host = none; paths = none }

-- An ingress that was read from the API and has no paths is sent with a rule for each of its hosts,
-- none of which names the host.
pub payload_rules-nameless :
    (names : List Text) → payload_rules [] (map plain_host names) ≡ some (map nameless names)
unfolding payload_rules bare_rules nameless
payload_rules-nameless [] = refl
payload_rules-nameless (name ∷ names) = ground (arith, payload_rules-nameless names)

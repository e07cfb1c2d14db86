-- ===== src/Docker/Ports/Bindings/Bounds.antt =====
-- The container ports that `preparePortBindings` writes are port numbers.
use ui_for_docker.Prelude.{
  ℕ, zero, suc, ◌+◌, ◌-◌, ◌≤◌, ◌≡◌, refl, Option, none, some, List, [], ◌∷◌, arith, Text, All,
  eq_list, eq_nat, inl, inr, split_at-All, split_at, false,
}
use ui_for_docker.Prelude.Dict.{All-insert}
use ui_for_docker.Prelude.Decimal.{is_line_break}
use mathlib.Core.Path.{subst}
use ui_for_docker.Docker.Ports.{second_or, parse_port_range, is_valid_port_range}
use ui_for_docker.Docker.Ports.Parsing.{IsOneLine, parse_port-bounds}
use ui_for_docker.Docker.Ports.Bindings.{
  PortBinding, HostSide, Bindings, ok, Result-cases, valid_range, host_side, bind_key, add_binding,
  bind_ports, bind_range, prepare_row, prepare_port_binding, prepare_from, prepare_port_bindings,
}

-- A key that names a port from 1 to 65535.
abbrev pub IsPortKey : Text → Type 0
IsPortKey key = (n : ℕ) × (protocol : Text) × (key ≡ bind_key n protocol) × (1 ≤ n) × (n ≤ 65535)

abbrev pub HasPortKeys : Bindings → Type 0
HasPortKeys = All (λ entry. IsPortKey entry.0)

-- A row whose container port has no line break.
abbrev pub IsOneLineRow : PortBinding → Type 0
IsOneLineRow row = (port : Text) → row.container_port ≡ some port → IsOneLine port

second_or-All :
    (first : Text) (parts : List Text)
    → IsOneLine first
    → All IsOneLine parts
    → IsOneLine (second_or first parts)
unfolding second_or
second_or-All first [] h k = h
second_or-All first (second ∷ parts) h k = k.0

valid_range-bounds :
    (spec range : Text) (r : ℕ × ℕ)
    → IsOneLine range
    → valid_range spec range ≡ ok r
    → (1 ≤ r.0) × (r.0 ≤ r.1) × (r.1 ≤ 65535)
unfolding valid_range is_valid_port_range parse_port_range
valid_range-bounds spec range r h e =
    let (one, more) = split_at-All (λ c. is_line_break c ≡ false) b'-' range h in
    let (a, ea, ba) = parse_port-bounds (split_at b'-' range).0 one in
    let (b, eb, bb) =
      parse_port-bounds (second_or (split_at b'-' range).0 (split_at b'-' range).1)
        (second_or-All _ _ one more) in
    ground arith

bind_ports-HasPortKeys :
    (rounds i : ℕ) (container : ℕ × ℕ) (host : HostSide) (protocol : Text) (d : Bindings)
    → 1 ≤ container.0
    → container.0 + i + rounds ≤ 65536
    → HasPortKeys d
    → HasPortKeys (bind_ports rounds i container host protocol d)
unfolding bind_ports add_binding
bind_ports-HasPortKeys zero i container host protocol d p q h = h
bind_ports-HasPortKeys (suc rounds) i container host protocol d p q h =
    bind_ports-HasPortKeys rounds (i + 1) container host protocol _ p (omega arith) (
      All-insert (λ entry. IsPortKey entry.0) (bind_key (container.0 + i) protocol) _ d
        (λ _. (container.0 + i, protocol, refl, omega arith, omega arith)) h)

bind_range-HasPortKeys :
    (container : ℕ × ℕ) (port : Text) (host_port : Option Text) (protocol : Text) (d b : Bindings)
    → (1 ≤ container.0) × (container.0 ≤ container.1) × (container.1 ≤ 65535)
    → HasPortKeys d
    → bind_range container port host_port protocol d ≡ ok b
    → HasPortKeys b
unfolding bind_range
bind_range-HasPortKeys container port host_port protocol d b bounds h e =
    elim (Result-cases (host_side container port host_port)) [
      | inl (host, f) ↦
          let g : bind_ports (container.1 - container.0 + 1) 0 container host protocol d ≡ b =
            ground arith in
          rw (← g) (
            bind_ports-HasPortKeys (container.1 - container.0 + 1) 0 container host protocol d
              (omega arith) (omega arith) h)
      | inr (s, f) ↦ absurd (ground arith)
    ]

prepare_row-HasPortKeys :
    (port host_port : Option Text) (protocol : Text) (d b : Bindings)
    → ((text : Text) → port ≡ some text → IsOneLine text)
    → HasPortKeys d
    → prepare_row port host_port protocol d ≡ ok b
    → HasPortKeys b
unfolding prepare_row
prepare_row-HasPortKeys none host_port protocol d b one h e = subst HasPortKeys (ground arith) h
prepare_row-HasPortKeys (some []) host_port protocol d b one h e =
    subst HasPortKeys (ground arith) h
prepare_row-HasPortKeys (some (c ∷ port)) host_port protocol d b one h e =
    elim (Result-cases (valid_range (c ∷ port) (c ∷ port))) [
      | inl (container, f) ↦
          bind_range-HasPortKeys container (c ∷ port) host_port protocol d b
            (valid_range-bounds (c ∷ port) (c ∷ port) container (one (c ∷ port) refl) f) h
            (ground arith)
      | inr (s, f) ↦ absurd (ground arith)
    ]

prepare_from-HasPortKeys :
    (rows : List PortBinding) (d b : Bindings)
    → All IsOneLineRow rows
    → HasPortKeys d
    → prepare_from rows d ≡ ok b
    → HasPortKeys b
unfolding prepare_from prepare_port_binding
prepare_from-HasPortKeys [] d b one h e = subst HasPortKeys (ground arith) h
prepare_from-HasPortKeys (row ∷ rows) d b (one, more) h e =
    elim (Result-cases (prepare_port_binding row d)) [
      | inl (next, f) ↦
          prepare_from-HasPortKeys rows next b more
            (prepare_row-HasPortKeys row.container_port row.host_port row.protocol d next one h f)
            (ground arith)
      | inr (s, f) ↦ absurd (ground arith)
    ]

-- If the container ports have no line breaks and the rows are accepted, every key of the result
-- names a container port from 1 to 65535.
pub prepare_port_bindings-HasPortKeys :
    (rows : List PortBinding) {b : Bindings}
    → All IsOneLineRow rows
    → prepare_port_bindings rows ≡ ok b
    → HasPortKeys b
unfolding prepare_port_bindings
prepare_port_bindings-HasPortKeys rows {b} one e = prepare_from-HasPortKeys rows [] b one tt e

-- ===== src/Docker/Ports/Bindings/Laws.antt =====
-- `preparePortBindings` against a description of what each row asks for.
use ui_for_docker.Prelude.{
  ℕ, zero, suc, ◌+◌, ◌-◌, ◌≡◌, refl, sym, Option, none, some, List, [], ◌∷◌, ◌++◌, append_assoc,
  append-nil, arith, if◌then◌else◌, Text, ◌==◌, ==_iff, eq_list, eq_nat, Bool-cases, inl, inr,
}
use ui_for_docker.Prelude.Dict.{lookup, lookup-insert}
use ui_for_docker.Docker.Ports.Bindings.{
  PortBinding, HostBinding, HostSide, Bindings, Result, ok, invalid, Result-cases, valid_range,
  host_side, host_port_at, bind_key, add_to, add_binding, bind_ports, bind_range, prepare_row,
  prepare_port_binding, prepare_from, prepare_port_bindings,
}

-- The bindings under a key.
abbrev listed : Option (List HostBinding) → List HostBinding
listed none = []
listed (some bindings) = bindings

abbrev pub entries : Text → Bindings → List HostBinding
entries key bindings = listed (lookup key bindings)

-- What rounds `i` to `i + rounds - 1` of a row ask for under `key`.
unfoldable pub asked : ℕ → ℕ → ℕ × ℕ → HostSide → Text → Text → List HostBinding
asked zero i container host protocol key = []
asked (suc rounds) i container host protocol key =
    let rest = asked rounds (i + 1) container host protocol key in
    if bind_key (container.0 + i) protocol == key
    then record { host_ip = host.ip; host_port = host_port_at container host i } ∷ rest
    else rest

entries-add_binding :
    (key k : Text) (binding : HostBinding) (d : Bindings)
    → entries key (add_binding k binding d)
      ≡ (if k == key then entries key d ++ binding ∷ [] else entries key d)
unfolding add_binding
entries-add_binding key k binding d =
    ground (arith, lookup-insert k key (add_to (lookup k d) binding) d, ==_iff k key)

pub entries-bind_ports :
    (rounds i : ℕ) (container : ℕ × ℕ) (host : HostSide) (protocol key : Text) (d : Bindings)
    → entries key (bind_ports rounds i container host protocol d)
      ≡ entries key d ++ asked rounds i container host protocol key
unfolding bind_ports asked
entries-bind_ports zero i container host protocol key d = sym (append-nil _)
entries-bind_ports (suc rounds) i container host protocol key d =
    rw (entries-bind_ports rounds (i + 1) container host protocol key _, entries-add_binding)
      (elim (Bool-cases (bind_key (container.0 + i) protocol == key)) [
        | inl e ↦ rw (e, append_assoc) refl
        | inr e ↦ rw e refl
      ])

-- What a row asks for under `key`: nothing if its container port is empty or the row is refused.
asked_by_host : ℕ × ℕ → Result HostSide → Text → Text → List HostBinding
asked_by_host container (invalid s) protocol key = []
asked_by_host container (ok host) protocol key =
    asked (container.1 - container.0 + 1) 0 container host protocol key

asked_by_ranges : Result (ℕ × ℕ) → Text → Option Text → Text → Text → List HostBinding
unfolding asked_by_host
asked_by_ranges (invalid s) container_port host_port protocol key = []
asked_by_ranges (ok container) container_port host_port protocol key =
    asked_by_host container (host_side container container_port host_port) protocol key

asked_by_row : Option Text → Option Text → Text → Text → List HostBinding
unfolding asked_by_ranges
asked_by_row none host_port protocol key = []
asked_by_row (some []) host_port protocol key = []
asked_by_row (some (c ∷ port)) host_port protocol key =
    asked_by_ranges (valid_range (c ∷ port) (c ∷ port)) (c ∷ port) host_port protocol key

asked_by : PortBinding → Text → List HostBinding
asked_by row key = asked_by_row row.container_port row.host_port row.protocol key

pub asked_by_all : List PortBinding → Text → List HostBinding
unfolding asked_by
asked_by_all [] key = []
asked_by_all (row ∷ rows) key = asked_by row key ++ asked_by_all rows key

entries-bind_range :
    (container : ℕ × ℕ) (port : Text) (host_port : Option Text) (protocol key : Text)
    (d b : Bindings)
    → bind_range container port host_port protocol d ≡ ok b
    → entries key b
      ≡ entries key d ++ asked_by_host container (host_side container port host_port) protocol key
unfolding bind_range asked_by_host
entries-bind_range container port host_port protocol key d b h =
    elim (Result-cases (host_side container port host_port)) [
      | inl (host, e) ↦ ground (
        arith,
        entries-bind_ports (container.1 - container.0 + 1) 0 container host protocol key d,
      )
      | inr (s, e) ↦ absurd (ground arith)
    ]

entries-prepare_row :
    (port host_port : Option Text) (protocol key : Text) (d b : Bindings)
    → prepare_row port host_port protocol d ≡ ok b
    → entries key b ≡ entries key d ++ asked_by_row port host_port protocol key
unfolding prepare_row asked_by_row
entries-prepare_row none host_port protocol key d b h = ground (arith, append-nil (entries key d))
entries-prepare_row (some []) host_port protocol key d b h =
    ground (arith, append-nil (entries key d))
entries-prepare_row (some (c ∷ port)) host_port protocol key d b h =
    elim (Result-cases (valid_range (c ∷ port) (c ∷ port))) [
      | inl (container, e) ↦
          ground (arith, entries-bind_range container (c ∷ port) host_port protocol key d b)
      | inr (s, e) ↦ absurd (ground arith)
    ]

entries-prepare_from :
    (rows : List PortBinding) (d b : Bindings) (key : Text)
    → prepare_from rows d ≡ ok b
    → entries key b ≡ entries key d ++ asked_by_all rows key
unfolding prepare_from prepare_port_binding asked_by_all
entries-prepare_from [] d b key h = ground (arith, append-nil (entries key d))
entries-prepare_from (row ∷ rows) d b key h = elim (Result-cases (prepare_port_binding row d)) [
  | inl (next, e) ↦ ground (
    arith,
    entries-prepare_from rows next b key,
    entries-prepare_row row.container_port row.host_port row.protocol key d next e,
    append_assoc (entries key d) (asked_by row key) (asked_by_all rows key),
  )
  | inr (s, e) ↦ absurd (ground arith)
]

-- When all rows are accepted, every key of the result holds exactly the bindings that the rows
-- ask for under that key, in the order of the rows.
pub entries-prepare_port_bindings :
    (rows : List PortBinding) {b : Bindings} (key : Text)
    → prepare_port_bindings rows ≡ ok b
    → entries key b ≡ asked_by_all rows key
unfolding prepare_port_bindings lookup
entries-prepare_port_bindings rows {b} key h = entries-prepare_from rows [] b key h

-- ===== src/Docker/Ports/Bindings/Ranges.antt =====
-- `preparePortBindings` at ranges of ports, and the bounds of the ports that it writes.
use ui_for_docker.Prelude.{
  ℕ, zero, suc, ◌+◌, ◌-◌, ◌≤◌, ◌<◌, ◌≡◌, ◌≢◌, refl, sym, ap, ◌∙◌, false, Option, none, some, [],
  ◌∷◌, ◌++◌, arith, Text, All, All-map, All-append, Lacks, ==_iff, eq_list, eq_nat, split_at-append,
  split_at-lacks, cut_at, cut_at-append, is_digit, has_unit-lacks, list_eq_self,
}
use native.Mathlib.Decide.{ℕ_discrete}
use mathlib.Core.List.{cons-ne-nil, append-ne-nil_of_right_ne-nil}
use ui_for_docker.Prelude.Dict.{lookup}
use ui_for_docker.Prelude.Decimal.{natural, show, IsDigit, show-IsDigit, value, value-show}
use ui_for_docker.Docker.Ports.{parse_port_range, is_valid_port_range}
use ui_for_docker.Docker.Ports.Parsing.{parse_port-show}
use ui_for_docker.Docker.Ports.Bindings.{
  PortBinding, HostSide, Bindings, ok, ◌>>=◌, valid_range, ranged_host, host_side, host_port_at,
  bind_key, bind_ports, bind_range, prepare_row, prepare_port_binding, prepare_port_bindings,
  has_same_width, split_host,
}
use ui_for_docker.Docker.Ports.Bindings.Laws.{asked, entries, entries-bind_ports}

-- The text of a range of ports.
abbrev pub range : ℕ → ℕ → Text
range start end = show start ++ b'-' ∷ show end

Lacks-digits : (c : ℕ) (s : Text) → is_digit c ≡ false → All IsDigit s → Lacks c s
Lacks-digits c s out = All-map IsDigit (λ d. d ≢ c) s (λ d h. ground arith)

pub show-Lacks : (c n : ℕ) → is_digit c ≡ false → Lacks c (show n)
show-Lacks c n out = Lacks-digits c (show n) out (show-IsDigit n)

pub range-Lacks : (c a b : ℕ) → c ≢ b'-' → is_digit c ≡ false → Lacks c (range a b)
range-Lacks c a b ne out =
    All-append (λ d. d ≢ c) (show a) (b'-' ∷ show b) (show-Lacks c a out)
      ((λ e. ne (sym e)), show-Lacks c b out)

-- A printed range is read back.
pub parse_port_range-range :
    (a b : ℕ)
    → 1 ≤ a
    → a ≤ 65535
    → 1 ≤ b
    → b ≤ 65535
    → parse_port_range (range a b) ≡ (natural a, natural b)
unfolding parse_port_range
parse_port_range-range a b pa qa pb qb =
    rw
      (
        split_at-append b'-' (show a) (show b) (show-Lacks b'-' a refl),
        split_at-lacks b'-' (show b) (show-Lacks b'-' b refl),
        parse_port-show a pa qa,
        parse_port-show b pb qb,
      )
      refl

valid_range-range :
    (spec : Text) (a b : ℕ) → 1 ≤ a → a ≤ b → b ≤ 65535 → valid_range spec (range a b) ≡ ok (a, b)
unfolding valid_range is_valid_port_range
valid_range-range spec a b p q r =
    ground (arith, parse_port_range-range a b p (omega arith) (omega arith) r)

split_host-plain :
    (spec port : Text) → Lacks b'[' port → Lacks b':' port → split_host spec port ≡ ok (none, port)
unfolding split_host
split_host-plain spec port p q =
    ground (arith, has_unit-lacks b'[' port p, split_at-lacks b':' port q)

host_side-text :
    (container : ℕ × ℕ) (spec port : Text)
    → port ≢ []
    → host_side container spec (some port) ≡ (split_host spec port >>= ranged_host container spec)
unfolding host_side
host_side-text container spec [] h = absurd (h refl)
host_side-text container spec (c ∷ port) h = refl

prepare_row-text :
    (port : Text) (host_port : Option Text) (protocol : Text) (d : Bindings)
    → port ≢ []
    → prepare_row (some port) host_port protocol d
      ≡ (valid_range port port >>= λ container. bind_range container port host_port protocol d)
unfolding prepare_row
prepare_row-text [] host_port protocol d h = absurd (h refl)
prepare_row-text (c ∷ port) host_port protocol d h = refl

range-ne-nil : (a b : ℕ) → range a b ≢ []
range-ne-nil a b = append-ne-nil_of_right_ne-nil (show a) (cons-ne-nil b'-' (show b))

abbrev before : Option (Text × Text) → Text
before none = []
before (some (text, behind)) = text

pub bind_key-injective : (m n : ℕ) (p q : Text) → bind_key m p ≡ bind_key n q → m ≡ n
unfolding bind_key
bind_key-injective m n p q h =
    let e : some (show m, p) ≡ some (show n, q) =
      sym (cut_at-append b'/' (show m) p (show-Lacks b'/' m refl))
      ∙ ap (cut_at b'/') h
      ∙ cut_at-append b'/' (show n) q (show-Lacks b'/' n refl) in
    sym (value-show m) ∙ ap (λ t. value 0 (before t)) e ∙ value-show n

module _ (container : ℕ × ℕ) (host : HostSide) (protocol : Text) where
  asked-before :
      (rounds i j : ℕ)
      → j < i
      → asked rounds i container host protocol (bind_key (container.0 + j) protocol) ≡ []
  unfolding asked
  asked-before zero i j h = refl
  asked-before (suc rounds) i j h = ground (
    arith,
    asked-before rounds (i + 1) j,
    ==_iff (bind_key (container.0 + i) protocol) (bind_key (container.0 + j) protocol),
    bind_key-injective (container.0 + i) (container.0 + j) protocol protocol,
  )

  asked-at :
      (rounds i j : ℕ)
      → i ≤ j
      → j < i + rounds
      → asked rounds i container host protocol (bind_key (container.0 + j) protocol)
        ≡ record { host_ip = host.ip; host_port = host_port_at container host j } ∷ []
  unfolding asked
  asked-at zero i j h k = absurd (omega arith)
  asked-at (suc rounds) i j h k = elim (ℕ_discrete i j) [
    | yes e ↦ rw (e, list_eq_self) (rw (asked-before rounds (j + 1) j (omega arith)) refl)
    | no ne ↦ ground (
      arith,
      asked-at rounds (i + 1) j,
      ==_iff (bind_key (container.0 + i) protocol) (bind_key (container.0 + j) protocol),
      bind_key-injective (container.0 + i) (container.0 + j) protocol protocol,
    )
  ]

abbrev pub range_row : ℕ → ℕ → ℕ → Text → PortBinding
range_row start end host protocol = record {
  host_port = some (range host (host + (end - start)));
  container_port = some (range start end);
  protocol = protocol;
}

module _ (start end host : ℕ) (protocol : Text) (h1 : 1 ≤ start) (h2 : start ≤ end)
    (h3 : end ≤ 65535) (h4 : 1 ≤ host) (h5 : host + (end - start) ≤ 65535) where
  host_range : HostSide
  host_range = record {
    ip = none;
    text = some (range host (host + (end - start)));
    start = host;
    end = host + (end - start);
  }

  host_side-range :
      host_side (start, end) (range start end) (some (range host (host + (end - start))))
      ≡ ok host_range
  unfolding host_range ranged_host has_same_width
  host_side-range =
      rw
        (
          host_side-text (start, end) (range start end) (range host (host + (end - start)))
              (range-ne-nil host _),
          split_host-plain (range start end) (range host (host + (end - start)))
              (range-Lacks b'[' _ _ (omega arith) refl) (range-Lacks b':' _ _ (omega arith) refl),
        )
        (rw
          (valid_range-range (range host (host + (end - start))) host (host + (end - start)) h4
            (omega arith) h5)
          (ground arith))

  prepare-range_row :
      prepare_port_bindings (range_row start end host protocol ∷ [])
      ≡ ok (bind_ports (end - start + 1) 0 (start, end) host_range protocol [])
  unfolding prepare_port_bindings prepare_port_binding bind_range
  prepare-range_row =
      rw
        (
          prepare_row-text (range start end) (some (range host (host + (end - start)))) protocol []
              (range-ne-nil start end),
          valid_range-range (range start end) start end h1 h2 h3,
          host_side-range,
        )
        refl

  -- The ports of a range are bound one to one: a row whose container range is `start` to `end` and
  -- whose host range begins at `host` and is as wide is accepted, and the container port
  -- `start + i` gets exactly one binding, to the host port `host + i`.
  pub prepare_port_bindings-range :
      (i : ℕ)
      → i ≤ end - start
      → (b : Bindings) × (prepare_port_bindings (range_row start end host protocol ∷ []) ≡ ok b)
        × (entries (bind_key (start + i) protocol) b
            ≡ record { host_ip = none; host_port = some (show (host + i)) } ∷ [])
  unfolding host_range host_port_at lookup
  prepare_port_bindings-range i k = (
    bind_ports (end - start + 1) 0 (start, end) host_range protocol [],
    prepare-range_row,
    entries-bind_ports (end - start + 1) 0 (start, end) host_range protocol
          (bind_key (start + i) protocol) []
        ∙ asked-at (start, end) host_range protocol (end - start + 1) 0 i (omega arith)
            (omega arith)
        ∙ ground arith,
  )

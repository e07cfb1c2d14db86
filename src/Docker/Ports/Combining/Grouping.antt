-- ===== src/Docker/Ports/Combining/Grouping.antt =====
-- The groups that `sortAndCombinePorts` makes of consecutive ports of one protocol and one host
-- address, and the bindings that it finds for them.
use mathlib.Core.Path.{subst₂}
use native.Mathlib.Nat.{add-zero}
use ui_for_docker.Prelude.{
  ℕ, zero, suc, ◌+◌, ◌<◌, ◌≡◌, ◌≢◌, refl, sym, ap, some, List, [], ◌∷◌, ◌++◌, append_assoc,
  append-nil, arith, Text, Lacks, split_at, split_at-append, split_at-lacks, eq_list, eq_nat,
  list_eq_self, ==_iff,
}
use ui_for_docker.Prelude.Dict.{lookup, insert, lookup-insert}
use ui_for_docker.Prelude.Decimal.{natural, show, parse_int-show}
use ui_for_docker.Docker.Ports.Bindings.{HostBinding, Bindings, bind_key}
use ui_for_docker.Docker.Ports.Bindings.Ranges.{show-Lacks, bind_key-injective}
use ui_for_docker.Docker.Ports.Combining.{
  push_key, add_key, group_from, group_by_protocol, bindings_at, push_hosts, group_by_host,
  second_part, container_port_of, ascends, insert_sorted, order_by_port, keys_of,
}

-- What the Docker API lists for `n` consecutive ports.
pub consecutive : ℕ → ℕ → ℕ → Text → Text → Bindings
consecutive zero start host ip protocol = []
consecutive (suc n) start host ip protocol =
    (bind_key start protocol, record { host_ip = some ip; host_port = some (show host) } ∷ [])
    ∷ consecutive n (start + 1) (host + 1) ip protocol

unfoldable pub keys : ℕ → ℕ → Text → List Text
keys zero start protocol = []
keys (suc n) start protocol = bind_key start protocol ∷ keys n (start + 1) protocol

pub keys_of-consecutive :
    (n start host : ℕ) (ip protocol : Text)
    → keys_of (consecutive n start host ip protocol) ≡ keys n start protocol
unfolding keys_of consecutive keys
keys_of-consecutive zero start host ip protocol = refl
keys_of-consecutive (suc n) start host ip protocol =
    ap (λ (l : List Text). bind_key start protocol ∷ l)
      (keys_of-consecutive n (start + 1) (host + 1) ip protocol)

push_key-same : (k v : Text) (vs : List Text) → push_key k v ((k, vs) ∷ []) ≡ (k, vs ++ v ∷ []) ∷ []
unfolding push_key lookup insert add_key
push_key-same k v vs = rw (list_eq_self k) refl

push_key-nil : (k v : Text) → push_key k v [] ≡ (k, v ∷ []) ∷ []
unfolding push_key lookup insert add_key
push_key-nil k v = refl

pub add_shift : (a i : ℕ) → a + 1 + i ≡ a + suc i
add_shift a i = omega arith

module _ (protocol : Text) (plain : Lacks b'/' protocol) where
  protocol_of : (n : ℕ) → second_part (split_at b'/' (bind_key n protocol)) ≡ protocol
  unfolding second_part bind_key
  protocol_of n =
      rw
        (
          split_at-append b'/' (show n) protocol (show-Lacks b'/' n refl),
          split_at-lacks b'/' protocol plain,
        )
        refl

  pub port_of : (n : ℕ) → container_port_of (bind_key n protocol) ≡ natural n
  unfolding container_port_of bind_key
  port_of n =
      rw (split_at-append b'/' (show n) protocol (show-Lacks b'/' n refl)) (parse_int-show n)

  group_from-keys :
      (n start : ℕ) (before : List Text)
      → group_from (keys n start protocol) ((protocol, before) ∷ [])
        ≡ (protocol, before ++ keys n start protocol) ∷ []
  unfolding group_from keys
  group_from-keys zero start before = rw append-nil refl
  group_from-keys (suc n) start before = ground (
    arith,
    protocol_of start,
    push_key-same protocol (bind_key start protocol) before,
    group_from-keys n (start + 1) (before ++ bind_key start protocol ∷ []),
    append_assoc before (bind_key start protocol ∷ []) (keys n (start + 1) protocol),
  )

  pub group_by_protocol-keys :
      (n start : ℕ)
      → group_by_protocol (keys (suc n) start protocol)
        ≡ (protocol, keys (suc n) start protocol) ∷ []
  unfolding group_by_protocol group_from keys
  group_by_protocol-keys n start = ground (
    arith,
    protocol_of start,
    push_key-nil protocol (bind_key start protocol),
    group_from-keys n (start + 1) (bind_key start protocol ∷ []),
  )

  pub order_by_port-keys :
      (n start : ℕ) → order_by_port (keys n start protocol) ≡ keys n start protocol
  unfolding order_by_port keys insert_sorted ascends
  order_by_port-keys zero start = refl
  order_by_port-keys (suc zero) start = refl
  order_by_port-keys (suc (suc n)) start =
      rw (order_by_port-keys (suc n) (start + 1))
        (rw (port_of start, port_of (start + 1)) (ground arith))

  -- The dictionary holds the bindings of the next `n` ports.
  abbrev pub Serves : ℕ → ℕ → ℕ → Text → Bindings → Type 0
  Serves n start host ip d =
      (i : ℕ)
      → i < n
      → lookup (bind_key (start + i) protocol) d
        ≡ some (record { host_ip = some ip; host_port = some (show (host + i)) } ∷ [])

  lookup-insert_other :
      (m k : ℕ) (v : List HostBinding) (d : Bindings)
      → m ≢ k
      → lookup (bind_key m protocol) (insert (bind_key k protocol) v d)
        ≡ lookup (bind_key m protocol) d
  lookup-insert_other m k v d ne = ground (
    arith,
    lookup-insert (bind_key k protocol) (bind_key m protocol) v d,
    ==_iff (bind_key k protocol) (bind_key m protocol),
    bind_key-injective k m protocol protocol,
  )

  pub Serves-tail :
      (n start host : ℕ) (ip : Text) (v : List HostBinding) (d : Bindings)
      → Serves (suc n) start host ip d
      → Serves n (start + 1) (host + 1) ip (insert (bind_key start protocol) v d)
  Serves-tail n start host ip v d serves i h =
      rw (lookup-insert_other (start + 1 + i) start v d (omega arith))
        (rw (add_shift start i, add_shift host i) (serves (suc i) (omega arith)))

  pub Serves-consecutive :
      (n start host : ℕ) (ip : Text) → Serves n start host ip (consecutive n start host ip protocol)
  unfolding consecutive lookup
  Serves-consecutive zero start host ip i h = absurd (omega arith)
  Serves-consecutive (suc n) start host ip zero h =
      rw (add-zero start, add-zero host, list_eq_self) refl
  Serves-consecutive (suc n) start host ip (suc i) h = ground (
    arith,
    ==_iff (bind_key start protocol) (bind_key (start + suc i) protocol),
    bind_key-injective start (start + suc i) protocol protocol,
    Serves-consecutive n (start + 1) (host + 1) ip i,
    add_shift start i,
    add_shift host i,
  )

  Serves-first :
      (n start host : ℕ) (ip : Text) (d : Bindings)
      → Serves (suc n) start host ip d
      → lookup (bind_key start protocol) d
        ≡ some (record { host_ip = some ip; host_port = some (show host) } ∷ [])
  Serves-first n start host ip d serves =
      subst₂
        (λ m k.
          lookup (bind_key m protocol) d
          ≡ some (record { host_ip = some ip; host_port = some (show k) } ∷ []))
        (add-zero start) (add-zero host) (serves 0 (omega arith))

  Serves-shift :
      (n start host : ℕ) (ip : Text) (d : Bindings)
      → Serves (suc n) start host ip d
      → Serves n (start + 1) (host + 1) ip d
  Serves-shift n start host ip d serves i h =
      subst₂
        (λ m k.
          lookup (bind_key m protocol) d
          ≡ some (record { host_ip = some ip; host_port = some (show k) } ∷ []))
        (sym (add_shift start i)) (sym (add_shift host i)) (serves (suc i) (omega arith))

  pub bindings_at-first :
      (n start host : ℕ) (ip : Text) (d : Bindings)
      → Serves (suc n) start host ip d
      → bindings_at (bind_key start protocol) d
        ≡ record { host_ip = some ip; host_port = some (show host) } ∷ []
  unfolding bindings_at
  bindings_at-first n start host ip d serves = ground (arith, Serves-first n start host ip d serves)

  -- Grouping by host address.
  group_by_host-keys :
      (n start host : ℕ) (ip : Text) (d : Bindings) (before : List Text)
      → Serves n start host ip d
      → group_by_host (keys n start protocol) d ((ip, before) ∷ [])
        ≡ (ip, before ++ keys n start protocol) ∷ []
  unfolding group_by_host keys push_hosts
  group_by_host-keys zero start host ip d before serves = rw append-nil refl
  group_by_host-keys (suc n) start host ip d before serves = ground (
    arith,
    bindings_at-first n start host ip d serves,
    push_key-same ip (bind_key start protocol) before,
    group_by_host-keys n (start + 1) (host + 1) ip d (before ++ bind_key start protocol ∷ [])
        (Serves-shift n start host ip d serves),
    append_assoc before (bind_key start protocol ∷ []) (keys n (start + 1) protocol),
  )

  pub group_by_host-all :
      (n start host : ℕ) (ip : Text) (d : Bindings)
      → Serves (suc n) start host ip d
      → group_by_host (keys (suc n) start protocol) d [] ≡ (ip, keys (suc n) start protocol) ∷ []
  unfolding group_by_host keys push_hosts
  group_by_host-all n start host ip d serves = ground (
    arith,
    bindings_at-first n start host ip d serves,
    push_key-nil ip (bind_key start protocol),
    group_by_host-keys n (start + 1) (host + 1) ip d (bind_key start protocol ∷ [])
        (Serves-shift n start host ip d serves),
  )

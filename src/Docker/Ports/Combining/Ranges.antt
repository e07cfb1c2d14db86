-- ===== src/Docker/Ports/Combining/Ranges.antt =====
-- `sortAndCombinePorts` at consecutive ports of one protocol and one host address.
use native.Mathlib.Nat.{add-zero}
use ui_for_docker.Prelude.{
  ℕ, zero, suc, ◌+◌, ◌≤◌, ◌≡◌, refl, ◌∙◌, Option, none, some, List, [], ◌∷◌, arith, Text, Lacks,
  eq_list, eq_nat,
}
use ui_for_docker.Prelude.Dict.{insert}
use ui_for_docker.Prelude.Decimal.{Number, natural, show, show_number}
use ui_for_docker.Docker.Ports.Parsing.{parse_port-show}
use ui_for_docker.Docker.Ports.Bindings.{Bindings, bind_key}
use ui_for_docker.Docker.Ports.Combining.{
  Combined, Progress, bindings_at, is_consecutive, is_successor, labelled, new_row, add_single,
  extend_row, combine_step, take_binding, combine_keys, combine_hosts, combine_protocols,
  sort_and_combine_ports,
}
use ui_for_docker.Docker.Ports.Combining.Hosts.{spanned, create_port_range-spanned}
use ui_for_docker.Docker.Ports.Combining.Grouping.{
  consecutive, keys, keys_of-consecutive, add_shift, port_of, group_by_protocol-keys,
  order_by_port-keys, Serves, Serves-tail, Serves-consecutive, bindings_at-first, group_by_host-all,
}

module _ (protocol : Text) (plain : Lacks b'/' protocol) where
  take_binding-first :
      (n start host : ℕ) (ip : Text) (d : Bindings)
      → Serves protocol plain (suc n) start host ip d
      → take_binding (bind_key start protocol) (bindings_at (bind_key start protocol) d) d
        ≡ some (show host, insert (bind_key start protocol) [] d)
  unfolding take_binding
  take_binding-first n start host ip d serves =
      ground (arith, bindings_at-first protocol plain n start host ip d serves)

  combine_step-natural :
      (ip text : Text) (host : ℕ) (container : Number) (progress : Progress)
      → 1 ≤ host
      → combine_step protocol ip (natural host) text container progress
        ≡ add_single progress.rows progress.previous
            (new_row protocol ip text container)
            host
            container
  unfolding combine_step
  combine_step-natural ip text zero container progress h = absurd (omega arith)
  combine_step-natural ip text (suc n) container progress h = refl

  -- The row of the ports from `start` to `end`.
  abbrev pub span : Text → ℕ → ℕ → ℕ → ℕ → Combined
  span ip start end host host_end = record {
    host_port = labelled ip (spanned host host_end);
    container_port = spanned start end;
    protocol = protocol;
  }

  extend_row-span :
      (ip : Text) (start end host host_end : ℕ)
      → Lacks b':' ip
      → (1 ≤ start) × (start ≤ end) × (end ≤ 65534)
      → (1 ≤ host) × (host ≤ host_end) × (host_end ≤ 65534)
      → extend_row (span ip start end host host_end) (host_end + 1) (natural (end + 1))
        ≡ span ip start (end + 1) host (host_end + 1)
  unfolding extend_row labelled
  extend_row-span ip start end host host_end l s h = ground (
    arith,
    create_port_range-spanned ip host host_end l h.0 h.1 (omega arith),
    create_port_range-spanned [] start end tt s.0 s.1 (omega arith),
  )

  combine_step-span :
      (start end host host_end : ℕ) (ip text : Text) (rows : List Combined)
      → Lacks b':' ip
      → (1 ≤ start) × (start ≤ end) × (end ≤ 65534)
      → (1 ≤ host) × (host ≤ host_end) × (host_end ≤ 65534)
      → combine_step protocol ip (natural (host_end + 1)) text (natural (end + 1)) (record {
        rows = span ip start end host host_end ∷ rows;
        previous = some (host_end, natural end);
      })
        ≡ record {
          rows = span ip start (end + 1) host (host_end + 1) ∷ rows;
          previous = some (host_end + 1, natural (end + 1));
        }
  unfolding add_single is_consecutive is_successor
  combine_step-span start end host host_end ip text rows l s h =
      combine_step-natural ip text (host_end + 1) (natural (end + 1)) _ (omega arith)
      ∙ ground (arith, extend_row-span ip start end host host_end l s h)

  combine_keys-span :
      (n start end host host_end : ℕ) (ip : Text) (rows : List Combined) (d : Bindings)
      → Lacks b':' ip
      → (1 ≤ start) × (start ≤ end) × (end + n ≤ 65535)
      → (1 ≤ host) × (host ≤ host_end) × (host_end + n ≤ 65535)
      → Serves protocol plain n (end + 1) (host_end + 1) ip d
      → (d' : Bindings) × (combine_keys protocol ip
            (keys n (end + 1) protocol)
            (record {
              rows = span ip start end host host_end ∷ rows;
              previous = some (host_end, natural end);
            })
            d
          ≡ some (
            record {
              rows = span ip start (end + n) host (host_end + n) ∷ rows;
              previous = some (host_end + n, natural (end + n));
            },
            d',
          ))
  unfolding combine_keys keys
  combine_keys-span zero start end host host_end ip rows d l s h serves =
      (d, rw (add-zero end, add-zero host_end) refl)
  combine_keys-span (suc n) start end host host_end ip rows d l s h serves =
      let (d', done) =
        combine_keys-span n start (end + 1) host (host_end + 1) ip rows
          (insert (bind_key (end + 1) protocol) [] d) l (omega arith) (omega arith)
          (Serves-tail protocol plain n (end + 1) (host_end + 1) ip [] d serves) in
      (
        d',
        ground (
          arith,
          take_binding-first n (end + 1) (host_end + 1) ip d serves,
          parse_port-show (host_end + 1),
          port_of protocol plain (end + 1),
          combine_step-span start end host host_end ip (show (host_end + 1)) rows l,
          add_shift end n,
          add_shift host_end n,
          done,
        ),
      )

  add_single-first :
      (rows : List Combined) (row : Combined) (host : ℕ) (container : Number)
      → add_single rows none row host container
        ≡ record { rows = row ∷ rows; previous = some (host, container) }
  unfolding add_single is_consecutive
  add_single-first [] row host container = refl
  add_single-first (last ∷ rows) row host container = refl

  new_row-span :
      (ip : Text) (start host : ℕ)
      → new_row protocol ip (show host) (natural start) ≡ span ip start start host host
  unfolding new_row show_number
  new_row-span ip start host = ground arith

  -- From the state in which a host address is begun.
  combine_keys-all :
      (n start host : ℕ) (ip : Text) (rows : List Combined) (d : Bindings)
      → Lacks b':' ip
      → (1 ≤ start) × (start + n ≤ 65535)
      → (1 ≤ host) × (host + n ≤ 65535)
      → Serves protocol plain (suc n) start host ip d
      → (d' : Bindings) × (last : Option (ℕ × Number)) × (combine_keys protocol ip
            (keys (suc n) start protocol)
            (record { rows = rows; previous = none })
            d
          ≡ some (
            record { rows = span ip start (start + n) host (host + n) ∷ rows; previous = last },
            d',
          ))
  unfolding combine_keys keys
  combine_keys-all n start host ip rows d l s h serves =
      let (d', done) =
        combine_keys-span n start start host host ip rows (insert (bind_key start protocol) [] d) l
          (omega arith) (omega arith) (Serves-tail protocol plain n start host ip [] d serves) in
      (
        d',
        some (host + n, natural (start + n)),
        ground (
          arith,
          take_binding-first n start host ip d serves,
          parse_port-show host,
          port_of protocol plain start,
          combine_step-natural ip (show host) host (natural start)
              (record { rows = rows; previous = none }),
          add_single-first rows (new_row protocol ip (show host) (natural start)) host
              (natural start),
          new_row-span ip start host,
          done,
        ),
      )

  -- Consecutive ports of one protocol at one host address, without a colon, become one row, which
  -- spells the container ports and the host ports as ranges, or as single ports where there is
  -- one.
  pub sort_and_combine_ports-consecutive :
      (n start host : ℕ) (ip : Text)
      → Lacks b':' ip
      → 1 ≤ start
      → start + n ≤ 65535
      → 1 ≤ host
      → host + n ≤ 65535
      → sort_and_combine_ports (consecutive (suc n) start host ip protocol)
        ≡ some (span ip start (start + n) host (host + n) ∷ [])
  unfolding sort_and_combine_ports combine_protocols combine_hosts
  sort_and_combine_ports-consecutive n start host ip l s1 s2 h1 h2 =
      let d = consecutive (suc n) start host ip protocol in
      let serves = Serves-consecutive protocol plain (suc n) start host ip in
      let (d', last, done) = combine_keys-all n start host ip [] d l (s1, s2) (h1, h2) serves in
      ground (
        arith,
        keys_of-consecutive (suc n) start host ip protocol,
        group_by_protocol-keys protocol plain n start,
        group_by_host-all protocol plain n start host ip d serves,
        order_by_port-keys protocol plain (suc n) start,
        done,
      )

-- ===== src/Tests/Ports.antt =====
-- Port bindings of containers and durations of services at concrete inputs.
use mathlib.Core.Path.{subst}
use ui_for_docker.Prelude.{
  ℕ, ◌+◌, ◌*◌, ◌≡◌, refl, none, some, [], ◌∷◌, arith, Text, codes, if◌then◌else◌, eq_list, eq_nat,
  ◌==◌, Lacks, has_unit, has_unit-Lacks, split_where, split_at, any, after_prefix, cut_text,
  list_eq,
}
use ui_for_docker.Prelude.Dict.{lookup, insert}
use ui_for_docker.Prelude.Decimal.{
  natural, show, is_line_break, parse_int, digit_prefix, digits, is_space, value,
}
use ui_for_docker.Docker.Ports.{
  is_valid_port_range, port_pattern, matches_line, five_digits, second_or, parse_port,
  parse_port_range, create_port_range,
}
use ui_for_docker.Docker.Ports.Parsing.{IsOneLine}
use ui_for_docker.Docker.Ports.Bindings.{
  PortBinding, Bindings, ok, prepare_port_bindings, bind_key, prepare_port_binding, prepare_row,
  valid_range, host_side, split_host, has_same_width, bind_ports, add_binding, host_port_at,
}
use ui_for_docker.Docker.Ports.Bindings.Laws.{entries, asked_by_all, entries-prepare_port_bindings}
use ui_for_docker.Docker.Ports.Bindings.Ranges.{range, range_row, prepare_port_bindings-range}
use ui_for_docker.Docker.Ports.Bindings.Bounds.{
  IsOneLineRow, HasPortKeys, prepare_port_bindings-HasPortKeys,
}
use ui_for_docker.Docker.Ports.Combining.{labelled, sort_and_combine_ports}
use ui_for_docker.Docker.Ports.Combining.Hosts.{spanned, create_port_range-spanned}
use ui_for_docker.Docker.Ports.Combining.Grouping.{consecutive}
use ui_for_docker.Docker.Ports.Combining.Ranges.{span, sort_and_combine_ports-consecutive}
use ui_for_docker.Docker.Durations.{
  Moment, translate_nanos_to_human_duration, translate_human_duration_to_nanos,
}
use ui_for_docker.Docker.Durations.RoundTrip.{translate_human_duration_to_nanos-print}

tcp-Lacks_slash : Lacks b'/' (codes "tcp")
unfolding has_unit
tcp-Lacks_slash = has_unit-Lacks b'/' (codes "tcp") refl

host_ip-Lacks_colon : Lacks b':' (codes "10.0.0.1")
unfolding has_unit
host_ip-Lacks_colon = has_unit-Lacks b':' (codes "10.0.0.1") refl

host_part-Lacks_colon : Lacks b':' (codes "fe80")
unfolding has_unit
host_part-Lacks_colon = has_unit-Lacks b':' (codes "fe80") refl

host_rest-Lacks_dash : Lacks b'-' (codes ":1")
unfolding has_unit
host_rest-Lacks_dash = has_unit-Lacks b'-' (codes ":1") refl

host_rest-IsOneLine : IsOneLine (codes ":1")
unfolding is_line_break
host_rest-IsOneLine = (refl, (refl, tt))

padded-IsOneLine : IsOneLine (codes "08080")
unfolding is_line_break
padded-IsOneLine = (refl, (refl, (refl, (refl, (refl, tt)))))

abbrev web_row : PortBinding
web_row = record {
  host_port = some (codes "8080");
  container_port = some (codes "80");
  protocol = codes "tcp";
}

abbrev web_bindings : Bindings
web_bindings =
    (codes "80/tcp", record { host_ip = none; host_port = some (codes "8080") } ∷ []) ∷ []

web_rows-prepared : prepare_port_bindings (web_row ∷ []) ≡ ok web_bindings
unfolding prepare_port_bindings prepare_port_binding prepare_row valid_range is_valid_port_range
    parse_port_range parse_port port_pattern matches_line split_where split_at is_line_break
    parse_int host_side split_host has_unit has_same_width bind_ports add_binding bind_key
    host_port_at five_digits second_or digit_prefix digits is_space show value insert lookup list_eq
    any after_prefix cut_text
web_rows-prepared = refl

some_injective : {x y : Text} → some x ≡ some y → x ≡ y
some_injective e = cc

web_row-IsOneLine : IsOneLineRow web_row
unfolding is_line_break
web_row-IsOneLine port e = subst IsOneLine (some_injective e) (refl, (refl, tt))

entries-prepare_port_bindings_example :
    entries (codes "80/tcp") web_bindings ≡ asked_by_all (web_row ∷ []) (codes "80/tcp")
entries-prepare_port_bindings_example =
    entries-prepare_port_bindings (web_row ∷ []) (codes "80/tcp") web_rows-prepared

prepare_port_bindings-HasPortKeys_example : HasPortKeys web_bindings
prepare_port_bindings-HasPortKeys_example =
    prepare_port_bindings-HasPortKeys (web_row ∷ []) (web_row-IsOneLine, tt) web_rows-prepared

prepare_port_bindings-range_example :
    (b : Bindings) × (prepare_port_bindings (range_row 80 83 8080 (codes "tcp") ∷ []) ≡ ok b)
    × (entries (bind_key (80 + 2) (codes "tcp")) b
        ≡ record { host_ip = none; host_port = some (show (8080 + 2)) } ∷ [])
prepare_port_bindings-range_example =
    prepare_port_bindings-range 80 83 8080 (codes "tcp") (omega arith) (omega arith) (omega arith)
      (omega arith) (omega arith) 2 (omega arith)

sort_and_combine_ports-consecutive_example :
    sort_and_combine_ports (consecutive 3 80 8080 (codes "10.0.0.1") (codes "tcp"))
    ≡ some (span (codes "tcp") tcp-Lacks_slash (codes "10.0.0.1") 80 82 8080 8082 ∷ [])
sort_and_combine_ports-consecutive_example =
    sort_and_combine_ports-consecutive (codes "tcp") tcp-Lacks_slash 2 80 8080 (codes "10.0.0.1")
      host_ip-Lacks_colon (omega arith) (omega arith) (omega arith) (omega arith)

create_port_range-spanned_example :
    create_port_range (labelled (codes "10.0.0.1") (spanned 80 82)) (natural 83)
    ≡ labelled (codes "10.0.0.1") (range 80 83)
create_port_range-spanned_example =
    create_port_range-spanned (codes "10.0.0.1") 80 82 host_ip-Lacks_colon (omega arith)
      (omega arith) (omega arith)

abbrev milliseconds : ℕ → Text → ℕ
milliseconds n unit =
    if unit == codes "ms"
    then n
    else if unit == codes "s"
    then n * 1000
    else if unit == codes "m"
    then n * 60000
    else n * 3600000

milliseconds_unit :
    (n : ℕ)
    → (milliseconds n (codes "ms") ≡ n)
      × (milliseconds n (codes "s") ≡ n * 1000)
      × (milliseconds n (codes "m") ≡ n * 60000)
      × (milliseconds n (codes "h") ≡ n * 3600000)
unfolding list_eq
milliseconds_unit n = (refl, refl, refl, refl)

abbrev decimal_moment : Moment
decimal_moment = record {
  as_milliseconds = milliseconds;
  of_milliseconds = λ n. (milliseconds_unit n).0;
  of_seconds = λ n. (milliseconds_unit n).1;
  of_minutes = λ n. (milliseconds_unit n).2;
  of_hours = λ n. (milliseconds_unit n).3;
}

translate_human_duration_to_nanos-print_example :
    translate_human_duration_to_nanos decimal_moment (translate_nanos_to_human_duration 90000000000)
    ≡ some 90000000000
translate_human_duration_to_nanos-print_example =
    translate_human_duration_to_nanos-print decimal_moment 90000000000

-- ===== src/Docker/Ports/Combining/Hosts.antt =====
-- `createPortRange` at the texts that `sortAndCombinePorts` gives it.
use mathlib.Core.List.{cons-ne-nil, append-ne-nil_of_right_ne-nil}
use ui_for_docker.Prelude.{
  append_assoc, ◌∙◌, ℕ, ◌+◌, ◌≤◌, ◌≡◌, ◌≢◌, refl, false, [], ◌∷◌, ◌++◌, arith, if◌then◌else◌, Text,
  Lacks, All-append, All-middle, split_at-prefix, cut_at-lacks, cut_at-append, nat_eq, split_at,
  split_at-append, split_at-lacks, Bool-cases, inl, inr,
}
use ui_for_docker.Prelude.Decimal.{natural, show, show_number, is_line_break, show-IsDigit, IsDigit}
use ui_for_docker.Docker.Ports.{
  parse_port, parse_port_range, create_port_range, second_or, with_host, matches_line,
}
use ui_for_docker.Docker.Ports.Parsing.{
  IsOneLine, parse_port-show, port_pattern-one_line, matches_line-digits, digits-IsOneLine,
}
use ui_for_docker.Docker.Ports.Bindings.Ranges.{
  range, range-Lacks, show-Lacks, parse_port_range-range,
}
use ui_for_docker.Docker.Ports.Combining.{labelled}

-- A port, or a range of ports.
abbrev pub spanned : ℕ → ℕ → Text
spanned start end = if nat_eq start end then show start else range start end

parse_port_range-spanned :
    (a b : ℕ) → 1 ≤ a → a ≤ b → b ≤ 65535 → parse_port_range (spanned a b) ≡ (natural a, natural b)
unfolding parse_port_range second_or
parse_port_range-spanned a b p q r = elim (Bool-cases (nat_eq a b)) [
  | inl e ↦
      rw e
        (ground (arith, split_at-lacks b'-' (show a) (show-Lacks b'-' a refl), parse_port-show a p))
  | inr e ↦ rw e (parse_port_range-range a b p (omega arith) (omega arith) r)
]

spanned-Lacks : (a b : ℕ) → Lacks b':' (spanned a b)
spanned-Lacks a b = elim (Bool-cases (nat_eq a b)) [
  | inl e ↦ rw e (show-Lacks b':' a refl)
  | inr e ↦ rw e (range-Lacks b':' a b (omega arith) refl)
]

-- Extending a row by the next port, with or without a host address.
pub create_port_range-spanned :
    (ip : Text) (a b : ℕ)
    → Lacks b':' ip
    → 1 ≤ a
    → a ≤ b
    → b ≤ 65535
    → create_port_range (labelled ip (spanned a b)) (natural (b + 1))
      ≡ labelled ip (range a (b + 1))
unfolding create_port_range labelled show_number
create_port_range-spanned [] a b l p q r =
    ground (
      arith,
      cut_at-lacks b':' (spanned a b) (spanned-Lacks a b),
      parse_port_range-spanned a b p q r,
    )
create_port_range-spanned (c ∷ ip) a b l p q r =
    ground (arith, cut_at-append b':' (c ∷ ip) (spanned a b) l, parse_port_range-spanned a b p q r)

IsDigit-colon : (q r : Text) → matches_line (q ++ b':' ∷ r) ≡ false
IsDigit-colon q r = elim (Bool-cases (matches_line (q ++ b':' ∷ r))) [
  | inl e ↦ absurd (omega (arith, All-middle IsDigit q b':' r (matches_line-digits _ e).0))
  | inr e ↦ e
]

parse_port-colon : (q r : Text) → IsOneLine (q ++ b':' ∷ r) → parse_port (q ++ b':' ∷ r) ≡ natural 0
unfolding parse_port
parse_port-colon q r one = rw (port_pattern-one_line _ one, IsDigit-colon q r) refl

show-IsOneLine : (n : ℕ) → IsOneLine (show n)
show-IsOneLine n = digits-IsOneLine (show n) (show-IsDigit n)

parse_port_range-colon :
    (q : Text) (a b : ℕ)
    → Lacks b'-' q
    → IsOneLine q
    → 1 ≤ b
    → b ≤ 65535
    → parse_port_range (q ++ b':' ∷ spanned a b)
      ≡ (natural 0, (if nat_eq a b then natural 0 else natural b))
unfolding parse_port_range second_or split_at is_line_break
parse_port_range-colon q a b l one p r =
    let colon : IsOneLine (q ++ b':' ∷ show a) =
      All-append (λ c. is_line_break c ≡ false) q (b':' ∷ show a) one (refl, show-IsOneLine a) in
    elim (Bool-cases (nat_eq a b)) [
      | inl e ↦
          rw
            (
              e,
              split_at-prefix b'-' q (b':' ∷ show a) l,
              split_at-lacks b'-' (show a) (show-Lacks b'-' a refl),
            )
            (rw (parse_port-colon q (show a) colon) refl)
      | inr e ↦
          rw
            (
              e,
              split_at-prefix b'-' q (b':' ∷ range a b) l,
              split_at-append b'-' (show a) (show b) (show-Lacks b'-' a refl),
              split_at-lacks b'-' (show b) (show-Lacks b'-' b refl),
            )
            (rw (parse_port-colon q (show a) colon, parse_port-show b p r) refl)
    ]

labelled-ip : (ip t : Text) → ip ≢ [] → labelled ip t ≡ ip ++ b':' ∷ t
unfolding labelled
labelled-ip [] t h = absurd (h refl)
labelled-ip (c ∷ ip) t h = refl

labelled-colon : (p q t : Text) → labelled (p ++ b':' ∷ q) t ≡ p ++ b':' ∷ (q ++ b':' ∷ t)
labelled-colon p q t =
    labelled-ip (p ++ b':' ∷ q) t (append-ne-nil_of_right_ne-nil p (cons-ne-nil b':' q))
    ∙ append_assoc p (b':' ∷ q) (b':' ∷ t)

-- An address that itself holds a colon, as every IPv6 address does, is not kept when its row is
-- extended: what stands before its first colon is taken for the address, and the range begins at 0.
pub create_port_range-colon :
    (p q : Text) (a b : ℕ)
    → Lacks b':' p
    → Lacks b'-' q
    → IsOneLine q
    → 1 ≤ a
    → a ≤ b
    → b ≤ 65534
    → create_port_range (labelled (p ++ b':' ∷ q) (spanned a b)) (natural (b + 1))
      ≡ with_host p (range 0 (b + 1))
unfolding create_port_range show_number
create_port_range-colon p q a b lp lq one h1 h2 h3 =
    rw (labelled-colon p q (spanned a b), cut_at-append b':' p (q ++ b':' ∷ spanned a b) lp)
      (rw (parse_port_range-colon q a b lq one (omega arith) (omega arith))
        (elim (Bool-cases (nat_eq a b)) [
          | inl e ↦ rw e (ground arith)
          | inr e ↦ rw e (ground arith)
        ]))

-- ===== src/Docker/Logs/Headers.antt =====
-- The headers of eight units that Docker writes before each line.
use ui_for_docker.Prelude.{
  ℕ, zero, suc, ◌<◌, ◌+◌, ◌≡◌, refl, ap, false, none, some, List, [], ◌∷◌, ◌++◌, arith, All, Text,
  Lacks, length, drop,
}
use ui_for_docker.Prelude.Decimal.{is_line_break}
use ui_for_docker.Docker.Logs.{after_units, replace_headers, units, strip_headers}

-- A header that ends no line, and a line of a log.
abbrev pub IsFramed : Text × Text → Type 0
IsFramed (header, line) =
    (length header ≡ 8) × All (λ c. is_line_break c ≡ false) header × Lacks 10 line

-- Lines with their headers as Docker sends them, and what is left of them.
unfoldable pub framed : List (Text × Text) → Text
framed [] = []
framed ((header, line) ∷ lines) = 10 ∷ (header ++ (line ++ framed lines))

unfoldable pub bare : List (Text × Text) → Text
bare [] = []
bare ((header, line) ∷ lines) = 10 ∷ 13 ∷ (line ++ bare lines)

after_units-header :
    (n : ℕ) (header s : Text)
    → length header ≡ n
    → All (λ c. is_line_break c ≡ false) header
    → after_units n (header ++ s) ≡ some s
unfolding after_units
after_units-header zero [] s e h = refl
after_units-header zero (c ∷ header) s e h = absurd (omega arith)
after_units-header (suc n) [] s e h = absurd (omega arith)
after_units-header (suc n) (c ∷ header) s e (p, h) = ground (arith, after_units-header n header s)

pub units-append : (s t : Text) → units (s ++ t) ≡ units s + units t
unfolding units
units-append [] t = omega arith
units-append (c ∷ s) t = omega (arith, units-append s t)

replace_headers-framed :
    (f : ℕ) (line : Text) (lines : List (Text × Text))
    → Lacks 10 line
    → All IsFramed lines
    → units (line ++ framed lines) < f
    → replace_headers f (line ++ framed lines) ≡ line ++ bare lines
unfolding replace_headers framed bare units
replace_headers-framed zero line lines h k b = absurd (omega arith)
replace_headers-framed (suc f) [] [] h k b = refl
replace_headers-framed (suc f) [] ((header, line) ∷ lines) h ((e, q, p), k) b =
    let rest =
      replace_headers-framed f line lines p k
        (omega (arith, b, units-append header (line ++ framed lines))) in
    rw (after_units-header 8 header (line ++ framed lines) e q) (ap (λ s. 10 ∷ 13 ∷ s) rest)
replace_headers-framed (suc f) (c ∷ line) lines (p, h) k b =
    ground (arith, replace_headers-framed f line lines h k)

drop-append : (n : ℕ) (s t : Text) → length s ≡ n → drop n (s ++ t) ≡ t
drop-append zero [] t e = refl
drop-append zero (c ∷ s) t e = absurd (omega arith)
drop-append (suc n) [] t e = absurd (omega arith)
drop-append (suc n) (c ∷ s) t e = drop-append n s t (omega arith)

-- Lines whose headers have eight units, none of which ends a line, are left without their headers;
-- behind the first, each begins with a carriage return.
pub strip_headers-framed :
    (header line : Text) (lines : List (Text × Text))
    → IsFramed (header, line)
    → All IsFramed lines
    → strip_headers (header ++ (line ++ framed lines)) ≡ line ++ bare lines
unfolding strip_headers
strip_headers-framed header line lines (e, q, p) k =
    rw (drop-append 8 header (line ++ framed lines) e)
      (replace_headers-framed (suc (units (line ++ framed lines))) line lines p k (omega arith))

after_units-broken :
    (n : ℕ) (header s : Text)
    → length header < n
    → All (λ c. is_line_break c ≡ false) header
    → after_units n (header ++ 10 ∷ s) ≡ none
unfolding after_units is_line_break
after_units-broken zero header s e h = absurd (omega arith)
after_units-broken (suc n) [] s e h = ground arith
after_units-broken (suc n) (c ∷ header) s e (p, h) = ground (arith, after_units-broken n header s)

replace_headers-lacks : (f : ℕ) (s : Text) → Lacks 10 s → replace_headers f s ≡ s
unfolding replace_headers
replace_headers-lacks zero s h = refl
replace_headers-lacks (suc f) [] h = refl
replace_headers-lacks (suc f) (c ∷ s) (p, h) = ground (arith, replace_headers-lacks f s h)

replace_headers-broken :
    (f : ℕ) (header part line : Text)
    → Lacks 10 header
    → length part ≡ 8
    → All (λ c. is_line_break c ≡ false) part
    → Lacks 10 line
    → units header < f
    → replace_headers (suc f) (header ++ 10 ∷ (part ++ line)) ≡ header ++ 10 ∷ 13 ∷ line
unfolding replace_headers units
replace_headers-broken zero header part line h e q p b = absurd (omega arith)
replace_headers-broken (suc f) [] part line h e q p b =
    rw (after_units-header 8 part line e q)
      (ap (λ s. 10 ∷ 13 ∷ s) (replace_headers-lacks (suc f) line p))
replace_headers-broken (suc f) (c ∷ header) part line (n, h) e q p b =
    ground (arith, replace_headers-broken f header part line h e q p)

unbroken-Lacks : (s : Text) → All (λ c. is_line_break c ≡ false) s → Lacks 10 s
unfolding is_line_break
unbroken-Lacks [] h = tt
unbroken-Lacks (c ∷ s) (p, h) = ((λ e. ground arith), unbroken-Lacks s h)

-- Where the header of the second line ends in a line break, as it does for a line of ten units, the
-- header is kept and the first eight units of the line are removed.
pub strip_headers-broken :
    (first header part line : Text)
    → length first ≡ 8
    → length header ≡ 7
    → All (λ c. is_line_break c ≡ false) header
    → length part ≡ 8
    → All (λ c. is_line_break c ≡ false) part
    → Lacks 10 line
    → strip_headers (first ++ 10 ∷ (header ++ 10 ∷ (part ++ line)))
      ≡ 10 ∷ (header ++ 10 ∷ 13 ∷ line)
unfolding strip_headers replace_headers units
strip_headers-broken first header part line e l h l' q p =
    rw
      (
        drop-append 8 first (10 ∷ (header ++ 10 ∷ (part ++ line))) e,
        after_units-broken 8 header (part ++ line) (omega arith) h,
      )
      (ap (λ s. 10 ∷ s)
        (replace_headers-broken (units (header ++ 10 ∷ (part ++ line))) header part line
          (unbroken-Lacks header h) l' q p
          (omega (arith, units-append header (10 ∷ (part ++ line))))))

-- ===== src/Prelude/Texts.antt =====
-- JavaScript strings that the program walks: lists of UTF-16 code units.
use Prim.Native.Char.{code}
use Prim.Native.String.{String}
use Prim.Native.Nat.{ℕ}
use mathlib.Core.Path.{◌≡◌, refl}
use mathlib.Core.Logic.{inl, inr, ◌≢◌}
use mathlib.Core.Bool.{Bool, true, false, ◌&&◌, ◌||◌}
use mathlib.Core.List.{List, [], ◌∷◌, ◌++◌}
use mathlib.Core.Option.{Option, none, some}
use native.Mathlib.Omega.{arith}
use ui_for_docker.Prelude.Tests.{Bool-cases, leb, nat_eq, if◌then◌else◌}
use ui_for_docker.Prelude.Lists.{All}

abbrev pub Text : Type 0
Text = List ℕ

-- The code units of an ASCII literal.
abbrev pub codes : String → Text
codes String.[] = []
codes (String.◌∷◌ c s) = code c ∷ codes s

abbrev pub is_digit : ℕ → Bool
is_digit c = leb b'0' c && leb c b'9'

abbrev pub Lacks : ℕ → Text → Type 0
Lacks c = All (λ d. d ≢ c)

-- `text.split(sep)` for a separator of one unit: the parts, first to last, never none.
unfoldable pub split_at : ℕ → Text → Text × List Text
split_at sep [] = ([], [])
split_at sep (c ∷ s) =
    let (part, parts) = split_at sep s in
    if nat_eq c sep then ([], part ∷ parts) else (c ∷ part, parts)

pub split_at-lacks : (sep : ℕ) (s : Text) → Lacks sep s → split_at sep s ≡ (s, [])
unfolding split_at
split_at-lacks sep [] h = refl
split_at-lacks sep (c ∷ s) (p, h) = ground (arith, split_at-lacks sep s h)

pub split_at-append :
    (sep : ℕ) (s rest : Text)
    → Lacks sep s
    → split_at sep (s ++ sep ∷ rest) ≡ (s, (split_at sep rest).0 ∷ (split_at sep rest).1)
unfolding split_at
split_at-append sep [] rest h = ground arith
split_at-append sep (c ∷ s) rest (p, h) = ground (arith, split_at-append sep s rest h)

-- `text.startsWith(prefix)`
unfoldable pub starts_with : Text → Text → Bool
starts_with s [] = true
starts_with [] (p ∷ ps) = false
starts_with (c ∷ s) (p ∷ ps) = nat_eq c p && starts_with s ps

-- `text.includes(part)`
unfoldable pub has_text : Text → Text → Bool
unfolding starts_with
has_text [] part = starts_with [] part
has_text (c ∷ s) part = starts_with (c ∷ s) part || has_text s part

-- `text.split(pattern)` for a pattern that matches one unit.
unfoldable pub split_where : (ℕ → Bool) → Text → Text × List Text
split_where p [] = ([], [])
split_where p (c ∷ s) =
    let (part, parts) = split_where p s in if p c then ([], part ∷ parts) else (c ∷ part, parts)

pub split_where-none :
    (p : ℕ → Bool) (s : Text) → All (λ c. p c ≡ false) s → split_where p s ≡ (s, [])
unfolding split_where
split_where-none p [] h = refl
split_where-none p (c ∷ s) (q, h) = ground (arith, split_where-none p s h)

-- The text before the first `sep`, and the text behind it.
unfoldable pub cut_at : ℕ → Text → Option (Text × Text)
cut_at sep [] = none
cut_at sep (c ∷ s) =
    if nat_eq c sep
    then some ([], s)
    else elim (cut_at sep s) [ none ↦ none | some (before, behind) ↦ some (c ∷ before, behind) ]

pub cut_at-lacks : (sep : ℕ) (s : Text) → Lacks sep s → cut_at sep s ≡ none
unfolding cut_at
cut_at-lacks sep [] h = refl
cut_at-lacks sep (c ∷ s) (p, h) = ground (arith, cut_at-lacks sep s h)

pub cut_at-append :
    (sep : ℕ) (s rest : Text) → Lacks sep s → cut_at sep (s ++ sep ∷ rest) ≡ some (s, rest)
unfolding cut_at
cut_at-append sep [] rest h = ground arith
cut_at-append sep (c ∷ s) rest (p, h) = ground (arith, cut_at-append sep s rest h)

-- `text.includes(c)` for one unit.
unfoldable pub has_unit : ℕ → Text → Bool
has_unit c [] = false
has_unit c (d ∷ s) = nat_eq d c || has_unit c s

pub has_unit-lacks : (c : ℕ) (s : Text) → Lacks c s → has_unit c s ≡ false
unfolding has_unit
has_unit-lacks c [] h = refl
has_unit-lacks c (d ∷ s) (p, h) = ground (arith, has_unit-lacks c s h)

-- The text that follows the prefix `part`.
unfoldable pub after_prefix : Text → Text → Option Text
after_prefix [] s = some s
after_prefix (p ∷ part) [] = none
after_prefix (p ∷ part) (c ∷ s) = if nat_eq c p then after_prefix part s else none

-- The text before the first `sep`, a text that is not empty, and the text behind it.
unfoldable pub cut_text : Text → Text → Option (Text × Text)
unfolding after_prefix
cut_text sep [] = none
cut_text sep (c ∷ s) = elim (after_prefix sep (c ∷ s)) [
  | some behind ↦ some ([], behind)
  | none ↦ elim (cut_text sep s) [ none ↦ none | some (before, behind) ↦ some (c ∷ before, behind) ]
]

pub split_at-All {ℓ} :
    (P : ℕ → Type ℓ) (sep : ℕ) (s : Text)
    → All P s
    → All P (split_at sep s).0 × All (All P) (split_at sep s).1
unfolding split_at
split_at-All P sep [] h = (tt, tt)
split_at-All P sep (c ∷ s) (p, h) = elim (Bool-cases (nat_eq c sep)) [
  | inl e ↦ rw e (tt, split_at-All P sep s h)
  | inr e ↦ let (first, rest) = split_at-All P sep s h in rw e ((p, first), rest)
]

pub split_at-prefix :
    (sep : ℕ) (s t : Text)
    → Lacks sep s
    → split_at sep (s ++ t) ≡ (s ++ (split_at sep t).0, (split_at sep t).1)
unfolding split_at
split_at-prefix sep [] t h = refl
split_at-prefix sep (c ∷ s) t (p, h) = ground (arith, split_at-prefix sep s t h)

-- Whether a unit is missing is a test.
pub has_unit-Lacks : (c : ℕ) (s : Text) → has_unit c s ≡ false → Lacks c s
unfolding has_unit
has_unit-Lacks c [] h = tt
has_unit-Lacks c (d ∷ s) h = ((λ e. ground arith), has_unit-Lacks c s (ground arith))

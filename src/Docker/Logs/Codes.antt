-- ===== src/Docker/Logs/Codes.antt =====
-- What is left of a text with escape codes such as the colours of a terminal
-- (`stripEscapeCodes` of app/docker/helpers/logHelper.js).
use ui_for_docker.Prelude.{
  ℕ, zero, suc, ◌-◌, ◌≤◌, ◌<◌, ap, ◌∙◌, ◌≡◌, refl, Bool, true, false, some, List, [], ◌∷◌, ◌++◌,
  arith, All, Text, is_digit, nat_eq, leb, ◌&&◌, ◌||◌, append_assoc,
}
use ui_for_docker.Docker.Logs.{
  match_final, match_numbers, match_parameters, match_intermediates, units, strip_with,
  strip_escape_codes,
}
use ui_for_docker.Docker.Logs.Headers.{units-append}

-- A code begins with the two units ESC and [, or with the one unit CSI that stands for them.
unfoldable pub introducer : Bool → Text
introducer true = 0x1b ∷ b'[' ∷ []
introducer false = 0x9b ∷ []

-- Further parameters, each behind a semicolon
unfoldable pub more_parameters : List Text → Text
more_parameters [] = []
more_parameters (digits ∷ more) = b';' ∷ digits ++ more_parameters more

-- A code with its parameters, of which the first is not empty if there are others, and its last unit
pub data Code : Type 0 where
  plain_code : Bool → ℕ → Code
  long_code : Bool → ℕ → Text → List Text → ℕ → Code

-- A code in front of a text
unfoldable pub spelled_code : Code → Text → Text
spelled_code (plain_code esc end) s = introducer esc ++ end ∷ s
spelled_code (long_code esc digit digits more end) s =
    introducer esc ++ digit ∷ (digits ++ (more_parameters more ++ end ∷ s))

-- The letters m, for colours, and A to K, for the cursor and for erasing
unfoldable pub is_letter : ℕ → Bool
is_letter c = nat_eq c b'm' || leb b'A' c && leb c b'K'

abbrev pub IsDigits : ℕ → Text → Type 0
IsDigits most s = All (λ c. is_digit c ≡ true) s × (units s ≤ most)

-- Numbers of at most four digits
abbrev pub IsCode : Code → Type 0
IsCode (plain_code esc end) = is_letter end ≡ true
IsCode (long_code esc digit digits more end) =
    (is_digit digit ≡ true) × IsDigits 3 digits × All (IsDigits 4) more × (is_letter end ≡ true)

pub data Piece : Type 0 where
  plain : ℕ → Piece
  code : Code → Piece

unfoldable pub spelled : List Piece → Text
spelled [] = []
spelled (plain c ∷ pieces) = c ∷ spelled pieces
spelled (code c ∷ pieces) = spelled_code c (spelled pieces)

unfoldable pub plain_text : List Piece → Text
plain_text [] = []
plain_text (plain c ∷ pieces) = c ∷ plain_text pieces
plain_text (code c ∷ pieces) = plain_text pieces

-- Units that begin no code, and codes
abbrev pub IsPiece : Piece → Type 0
IsPiece (plain c) = (nat_eq c 0x1b ≡ false) × (nat_eq c 0x9b ≡ false)
IsPiece (code c) = IsCode c

match_final-letter : (end : ℕ) (s : Text) → is_letter end ≡ true → match_final (end ∷ s) ≡ some s
unfolding match_final is_letter
match_final-letter end s h = ground (arith, h)

letter-digit : (end : ℕ) → is_letter end ≡ true → is_digit end ≡ false
unfolding is_letter
letter-digit end h = ground (arith, h)

match_numbers-end :
    (n end : ℕ) (s : Text) → is_letter end ≡ true → match_numbers n (end ∷ s) ≡ some s
unfolding match_numbers is_letter
match_numbers-end n end s h = ground (arith, h, match_final-letter end s h)

match_numbers-digit :
    (n c : ℕ) (s r : Text)
    → 1 ≤ n
    → is_digit c ≡ true
    → match_numbers (n - 1) s ≡ some r
    → match_numbers n (c ∷ s) ≡ some r
unfolding match_numbers
match_numbers-digit n c s r b d e = ground (arith, b, d, e)

match_numbers-semicolon :
    (n : ℕ) (s r : Text) → match_numbers 4 s ≡ some r → match_numbers n (b';' ∷ s) ≡ some r
unfolding match_numbers
match_numbers-semicolon n s r e = ground (arith, e)

match_numbers-more :
    (n : ℕ) (digits : Text) (more : List Text) (end : ℕ) (s : Text)
    → IsDigits n digits
    → All (IsDigits 4) more
    → is_letter end ≡ true
    → match_numbers n (digits ++ (more_parameters more ++ end ∷ s)) ≡ some s
unfolding units more_parameters
match_numbers-more n [] [] end s h k e = match_numbers-end n end s e
match_numbers-more n [] (digits ∷ more) end s h (d, k) e = match_numbers-semicolon n _ s (
    ap (match_numbers 4) (append_assoc digits (more_parameters more) (end ∷ s))
    ∙ match_numbers-more 4 digits more end s d k e)
match_numbers-more n (c ∷ digits) more end s ((d, ds), u) k e =
    match_numbers-digit n c _ s (omega (arith, u)) d
      (match_numbers-more (n - 1) digits more end s (ds, omega (arith, u)) k e)

match_intermediates-digit :
    (c : ℕ) (s r : Text)
    → is_digit c ≡ true
    → match_numbers 3 s ≡ some r
    → match_intermediates (c ∷ s) ≡ some r
unfolding match_intermediates match_parameters
match_intermediates-digit c s r d e = ground (arith, d, e)

match_intermediates-letter :
    (end : ℕ) (s : Text) → is_letter end ≡ true → match_intermediates (end ∷ s) ≡ some s
unfolding match_intermediates match_parameters is_letter
match_intermediates-letter end s h = ground (arith, h, match_final-letter end s h)

match_intermediates-bracket :
    (s r : Text) → match_intermediates s ≡ some r → match_intermediates (b'[' ∷ s) ≡ some r
unfolding match_intermediates
match_intermediates-bracket s r e = rw (match_intermediates, e) refl

strip_with-introducer :
    (f : ℕ) (esc : Bool) (s r : Text)
    → match_intermediates s ≡ some r
    → strip_with (suc f) (introducer esc ++ s) ≡ strip_with f r
unfolding strip_with introducer
strip_with-introducer f true s r e = rw (match_intermediates-bracket s r e) refl
strip_with-introducer f false s r e = rw e refl

strip_with-code :
    (f : ℕ) (c : Code) (s : Text)
    → IsCode c
    → strip_with (suc f) (spelled_code c s) ≡ strip_with f s
unfolding spelled_code
strip_with-code f (plain_code esc end) s h =
    strip_with-introducer f esc (end ∷ s) s (match_intermediates-letter end s h)
strip_with-code f (long_code esc digit digits more end) s (d, ds, k, e) =
    strip_with-introducer f esc _ s
      (match_intermediates-digit digit _ s d (match_numbers-more 3 digits more end s ds k e))

units-spelled_code : (c : Code) (s : Text) → units s < units (spelled_code c s)
unfolding spelled_code units
units-spelled_code (plain_code esc end) s = omega (arith, units-append (introducer esc) (end ∷ s))
units-spelled_code (long_code esc digit digits more end) s = omega (
  arith,
  units-append (introducer esc) (digit ∷ (digits ++ (more_parameters more ++ end ∷ s))),
  units-append digits (more_parameters more ++ end ∷ s),
  units-append (more_parameters more) (end ∷ s),
)

strip_with-pieces :
    (f : ℕ) (pieces : List Piece)
    → All IsPiece pieces
    → units (spelled pieces) < f
    → strip_with f (spelled pieces) ≡ plain_text pieces
unfolding spelled plain_text units strip_with
strip_with-pieces zero pieces h u = absurd (omega (arith, u))
strip_with-pieces (suc f) [] h u = refl
strip_with-pieces (suc f) (plain c ∷ pieces) ((a, b), h) u =
    rw (a, b) (ap (λ s. c ∷ s) (strip_with-pieces f pieces h (omega (arith, u))))
strip_with-pieces (suc f) (code c ∷ pieces) (k, h) u =
    strip_with-code f c (spelled pieces) k
    ∙ strip_with-pieces f pieces h (omega (arith, u, units-spelled_code c (spelled pieces)))

-- A text of plain units and escape codes is left with its plain units. A plain unit is neither ESC
-- nor CSI. A code begins with ESC and a bracket or with CSI, has no parameter or several, each a
-- number of at most four digits, of which only the first has to have one, and ends with the letter m
-- or one from A to K.
pub strip_escape_codes-spelled :
    (pieces : List Piece)
    → All IsPiece pieces
    → strip_escape_codes (spelled pieces) ≡ plain_text pieces
unfolding strip_escape_codes
strip_escape_codes-spelled pieces h =
    strip_with-pieces (suc (units (spelled pieces))) pieces h (omega arith)

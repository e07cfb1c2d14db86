-- ===== src/Kubernetes/Labels.antt =====
-- `ownerToLabel` of app/kubernetes/helpers/commonHelper.js: the name of an owner as the value of a
-- Kubernetes label.
pub mod Valid
use ui_for_docker.Prelude.{
  ℕ, Bool, true, false, ◌&&◌, ◌||◌, not, List, [], ◌∷◌, leb, nat_eq, if◌then◌else◌, Text, take, map,
}

unfoldable pub is_alphanumeric : ℕ → Bool
is_alphanumeric c =
    leb b'A' c && leb c b'Z' || (leb b'a' c && leb c b'z' || leb b'0' c && leb c b'9')

-- The class `[-_.]`.
unfoldable pub is_separator : ℕ → Bool
is_separator c = nat_eq c b'-' || (nat_eq c b'_' || nat_eq c b'.')

-- `_.replace(owner, /[^-A-Za-z0-9_.]/g, '.')`, unit by unit.
unfoldable pub replace_unit : ℕ → ℕ
replace_unit c = if is_alphanumeric c || is_separator c then c else b'.'

-- `_.replace(label, /^[-_.]*/g, '')`
unfoldable pub strip_start : Text → Text
strip_start [] = []
strip_start (c ∷ s) = if is_separator c then strip_start s else c ∷ s

unfoldable pub strip_last : ℕ → Text → Text
strip_last c [] = if is_separator c then [] else c ∷ []
strip_last c (d ∷ s) = c ∷ d ∷ s

-- `_.replace(label, /[-_.]*$/g, '')`
unfoldable pub strip_end : Text → Text
unfolding strip_last
strip_end [] = []
strip_end (c ∷ s) = strip_last c (strip_end s)

unfoldable pub owner_to_label : Text → Text
owner_to_label owner = strip_end (strip_start (take 63 (map replace_unit owner)))

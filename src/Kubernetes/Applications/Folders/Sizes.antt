-- ===== src/Kubernetes/Applications/Folders/Sizes.antt =====
-- The size of a claim that goes through the form of its application.
use mathlib.Core.Path.{ap₂}
use ui_for_docker.Prelude.{
  ℕ, ◌≡◌, ◌≢◌, refl, sym, ap, ◌∙◌, Bool, false, Option, none, some, List, [], ◌∷◌, ◌++◌, length,
  length-append, drop, Text, codes, All, is_digit, arith, append_assoc,
}
use ui_for_docker.Prelude.Decimal.{
  natural, parse_int, show, show_number, IsDigit, show-IsDigit, show-ne-nil, value, value-show,
  digit_prefix, is_space, unsigned,
}
use ui_for_docker.Kubernetes.Applications.Folders.{
  PersistentVolumeClaim, PersistedFolder, FormValues, ApiClaim, StorageClass,
  api_to_persistent_volume_claim, last_two, folder_form_value, char_at_0, volume_claim,
  create_payload,
}

digit_prefix-append :
    (s t : Text) (c : ℕ) → All IsDigit s → is_digit c ≡ false → digit_prefix (s ++ c ∷ t) ≡ s
unfolding digit_prefix
digit_prefix-append [] t c h n = ground (arith, n)
digit_prefix-append (d ∷ s) t c (p, h) n = ground (arith, digit_prefix-append s t c h n)

abbrev pub begins_with_digit : Text → Bool
begins_with_digit [] = false
begins_with_digit (c ∷ s) = is_digit c

parse_int-digits_before :
    (s t : Text) (c : ℕ)
    → s ≢ []
    → All IsDigit s
    → is_digit c ≡ false
    → parse_int (s ++ c ∷ t) ≡ natural (value 0 s)
unfolding parse_int is_space unsigned
parse_int-digits_before [] t c n h d = absurd (n refl)
parse_int-digits_before (b ∷ s) t c n h d = ground (arith, digit_prefix-append (b ∷ s) t c h d)

parse_int-size :
    (n : ℕ) (unit : Text)
    → unit ≢ []
    → begins_with_digit unit ≡ false
    → parse_int (show n ++ unit) ≡ natural n
parse_int-size n [] e d = absurd (e refl)
parse_int-size n (c ∷ t) e d =
    parse_int-digits_before (show n) t c (show-ne-nil n) (show-IsDigit n) d
    ∙ ap natural (value-show n)

drop-length : (s t : Text) → drop (length s) (s ++ t) ≡ t
drop-length [] t = refl
drop-length (c ∷ s) t = drop-length s t

last_two-append : (s : Text) (u v : ℕ) → last_two (s ++ u ∷ v ∷ []) ≡ u ∷ v ∷ []
unfolding last_two
last_two-append s u v =
    ap (λ n. drop n (s ++ u ∷ v ∷ [])) (omega (arith, length-append s (u ∷ v ∷ [])))
    ∙ drop-length s (u ∷ v ∷ [])

unit_ne_nil : (unit : Text) (letter : ℕ) → (unit ++ letter ∷ []) ++ codes "B" ≢ []
unit_ne_nil [] letter e = cc e
unit_ne_nil (c ∷ unit) letter e = cc e

begins-append :
    (unit : Text) (letter : ℕ) (more : Text)
    → begins_with_digit ((unit ++ letter ∷ []) ++ more) ≡ begins_with_digit (unit ++ letter ∷ [])
begins-append [] letter more = refl
begins-append (c ∷ unit) letter more = refl

-- The storage in the payload for the claim of a folder that is read into the form and not edited.
unfoldable pub saved_storage :
    FormValues → Text → PersistedFolder → Option PersistentVolumeClaim → Option Text
unfolding folder_form_value volume_claim create_payload
saved_storage form uuid folder found = elim (folder_form_value folder found) [
  | none ↦ none
  | some item ↦ some (create_payload (volume_claim form uuid item)).storage
]

-- The payload for the claim of a folder that is read into the form and not edited holds the number
-- of the storage of the claim and the last letter of its unit, if the storage is a number with a
-- unit that is not empty and does not begin with a digit.
pub saved_storage-claim :
    (claim : ApiClaim) (storage_classes : List StorageClass) (folder : PersistedFolder)
    (form : FormValues) (uuid : Text) (n : ℕ) (unit : Text) (letter : ℕ)
    → claim.storage ≡ show n ++ (unit ++ letter ∷ [])
    → begins_with_digit (unit ++ letter ∷ []) ≡ false
    → saved_storage form uuid folder (some (api_to_persistent_volume_claim claim storage_classes))
      ≡ some (show n ++ letter ∷ [])
unfolding saved_storage folder_form_value volume_claim create_payload api_to_persistent_volume_claim
    char_at_0 show_number
saved_storage-claim claim storage_classes folder form uuid n unit letter e d =
    ap₂ (λ size letters. some (show_number size ++ char_at_0 letters))
      (ap (λ s. parse_int (s ++ codes "B")) e
        ∙ ap parse_int (append_assoc (show n) (unit ++ letter ∷ []) (codes "B"))
        ∙ parse_int-size n ((unit ++ letter ∷ []) ++ codes "B") (unit_ne_nil unit letter)
            (begins-append unit letter (codes "B") ∙ d))
      (ap (λ s. last_two (s ++ codes "B")) (e ∙ sym (append_assoc (show n) unit (letter ∷ [])))
        ∙ ap last_two (append_assoc (show n ++ unit) (letter ∷ []) (codes "B"))
        ∙ last_two-append (show n ++ unit) letter b'B')

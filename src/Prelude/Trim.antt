-- ===== src/Prelude/Trim.antt =====
-- `text.trim()`
use ui_for_docker.Prelude.{ℕ, [], ◌∷◌, if◌then◌else◌, Text}
use ui_for_docker.Prelude.Decimal.{is_space}

unfoldable pub trim_start : Text → Text
trim_start [] = []
trim_start (c ∷ s) = if is_space c then trim_start s else c ∷ s

unfoldable pub trim_end_step : ℕ → Text → Text
trim_end_step c [] = if is_space c then [] else c ∷ []
trim_end_step c (d ∷ s) = c ∷ d ∷ s

unfoldable pub trim_end : Text → Text
unfolding trim_end_step
trim_end [] = []
trim_end (c ∷ s) = trim_end_step c (trim_end s)

unfoldable pub trim : Text → Text
unfolding trim_start trim_end
trim s = trim_end (trim_start s)

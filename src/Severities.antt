-- ===== src/Severities.antt =====
-- The severities in their order, from the least grave on, apart from the weights that the code gives
-- them.
use thot_secure.Prelude.{ℕ, suc, zero, String, Bool, List, [], ◌∷◌, str_eq, any, if◌then◌else◌}

abbrev pub severities : List String
severities = "info" ∷ "low" ∷ "medium" ∷ "high" ∷ "critical" ∷ []

-- The place of a text in a list.
abbrev pub place_in : List String → String → ℕ
place_in [] s = zero
place_in (t ∷ ts) s = if str_eq s t then zero else suc (place_in ts s)

abbrev pub grade : String → ℕ
grade s = place_in severities s

-- The text is one of the five severities.
abbrev pub is_severity : String → Bool
is_severity s = any (λ t. str_eq s t) severities

-- ===== src/Detection/Reloading.antt =====
-- What a reload leaves in the engine, against the problems of the rules and the order of severities.
use thot_secure.Prelude.{ℕ, Bool, true, false, List, [], ◌∷◌, ◌≤◌, keep, length, ◌&&◌}
use thot_secure.Platform.{Platform}
use thot_secure.Severities.{grade, is_severity}
use thot_secure.Detection.Rules.{Rule, Problem, validate_rule}
use thot_secure.Detection.Loading.{CompiledRule, compile_rule}

-- The rule has one of the five severities.
abbrev pub is_graded : CompiledRule → Bool
is_graded c = is_severity c.rule.severity

abbrev pub grade_of : CompiledRule → ℕ
grade_of c = grade c.rule.severity

-- No rule is graver than the bound, and none than the one before it.
abbrev pub Falling : ℕ → List CompiledRule → Type 0
Falling m [] = Unit
Falling m (c ∷ cs) = (grade_of c ≤ m) × Falling (grade_of c) cs

abbrev pub has_none : List Problem → Bool
has_none [] = true
has_none (p ∷ ps) = false

module _ (py : Platform) where
  -- How many of the rules have no problem and pass a test once compiled.
  abbrev pub sound_count : (CompiledRule → Bool) → List Rule → ℕ
  sound_count p rules =
      length (keep (λ r. has_none (validate_rule py r) && p (compile_rule r)) rules)

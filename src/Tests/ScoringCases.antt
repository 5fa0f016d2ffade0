-- ===== src/Tests/ScoringCases.antt =====
-- A critical and a high rule; a logarithm by steps and a rounding down.
use thot_secure.Prelude.{ℕ, none, some, ◌≤◌, ◌≡◌, ◌/◌, ltb, if◌then◌else◌, refl, arith}
use thot_secure.Scoring.{
  Arithmetic, ScoredRule, severity_base, compute_risk, Rounds, compute_risk_monotone,
}

abbrev steps : Arithmetic
steps = record {
  log10 = λ n. if ltb n 10 then 0 else if ltb n 100 then 10000 else 20000;
  round_score = λ x. x / 8000000000000;
}

abbrev high : ScoredRule
high = record { severity = "high"; confidence = 80; risk_base = some 2000; asset_criticality = 100 }

abbrev critical : ScoredRule
critical = record high { severity = "critical"; confidence = 90 }

steps-Rounds : Rounds steps
steps-Rounds = (λ x y h. omega arith, refl)

log10_monotone : (x y : ℕ) → x ≤ y → steps.log10 x ≤ steps.log10 y
log10_monotone x y h = ground arith

compute_risk_monotone_example :
    compute_risk steps high (some 100) 3 none ≤ compute_risk steps critical (some 150) 30 none
compute_risk_monotone_example =
    compute_risk_monotone steps high critical (some 100) (some 150) 3 30 none none steps-Rounds
      log10_monotone refl refl (omega arith) (omega arith) (omega arith) (omega arith) (omega arith)
      (omega arith)

-- On a critical asset both reach the bound: the more severe rule does not score more.
tie : compute_risk steps high (some 300) 1 none ≡ compute_risk steps critical (some 300) 1 none
unfolding compute_risk severity_base
tie = refl

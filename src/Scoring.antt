-- ===== src/Scoring.antt =====
-- scoring/risk.py: the score of a finding. Fractions are exact: the base counts 1/10000 of a point,
-- confidence and criticality count hundredths, `log10` counts 1/10000. The rounding of the score and
-- the logarithm are parameters; of the breakdown only the score is kept.
use native.Mathlib.Nat.{mul-le-mul}
use thot_secure.Prelude.{
  ℕ, String, true, Option, none, some, ◌+◌, ◌*◌, ◌≤◌, ◌≡◌, str_eq, min, max, arith, if◌then◌else◌,
}
use thot_secure.Severities.{is_severity, grade}

-- `log10 n` is 10000 * math.log10(n); `round_score x` is round(x / score_scale, 2) in hundredths.
pub record Arithmetic : Type 0 where
  pub log10 : ℕ → ℕ
  pub round_score : ℕ → ℕ

-- The fields of a rule that the score reads.
pub record ScoredRule : Type 0 where
  pub severity : String
  pub confidence : ℕ
  pub risk_base : Option ℕ
  pub asset_criticality : ℕ

-- SEVERITY_BASE.get(severity, 40.0), in points
unfoldable pub severity_base : String → ℕ
severity_base s =
    if str_eq s "info"
    then 8
    else if str_eq s "low"
    then 20
    else if str_eq s "medium"
    then 40
    else if str_eq s "high"
    then 62
    else if str_eq s "critical"
    then 82
    else 40

abbrev pub rule_base_weight : ℕ
rule_base_weight = 18

-- (base / 100) * RULE_BASE_WEIGHT
abbrev pub base_bonus : Option ℕ → ℕ
base_bonus none = 0
base_bonus (some b) = b * rule_base_weight

-- In 1/200.
abbrev pub confidence_factor : ℕ → ℕ
confidence_factor confidence = 100 + min confidence 100

-- The criticality that is given, or the tenant's, or 1.
abbrev pub criticality_of : Option ℕ → Option ℕ → ℕ
criticality_of (some c) tenant = c
criticality_of none (some c) = c
criticality_of none none = 100

-- In 1/10000.
abbrev pub asset_factor : ℕ → ℕ → ℕ
asset_factor criticality rule = max 1000 (min 30000 (criticality * rule))

-- In 1/40000.
abbrev pub repetition_factor : Arithmetic → ℕ → ℕ
repetition_factor m count = 40000 + min 20000 (m.log10 (max 1 count))

abbrev pub score_scale : ℕ
score_scale = 10000 * 200 * 10000 * 40000

unfoldable pub compute_risk : Arithmetic → ScoredRule → Option ℕ → ℕ → Option ℕ → ℕ
compute_risk m rule tenant count asset =
    let base = severity_base rule.severity * 10000 + base_bonus rule.risk_base in
    let raw =
      base
      * confidence_factor rule.confidence
      * asset_factor (criticality_of asset tenant) rule.asset_criticality
      * repetition_factor m count in
    m.round_score (min (100 * score_scale) raw)

-- The rounding is monotone and leaves 100 as it is.
abbrev pub Rounds : Arithmetic → Type 0
Rounds m =
    ((x y : ℕ) → x ≤ y → m.round_score x ≤ m.round_score y)
    × (m.round_score (100 * score_scale) ≡ 10000)

-- The score lies between 0 and 100, whatever the rule, the tenant and the count.
pub compute_risk_bound :
    (m : Arithmetic) (rule : ScoredRule) (tenant : Option ℕ) (count : ℕ) (asset : Option ℕ)
    → Rounds m
    → compute_risk m rule tenant count asset ≤ 10000
unfolding compute_risk
compute_risk_bound m rule tenant count asset (r, e) =
    let raw =
      (severity_base rule.severity * 10000 + base_bonus rule.risk_base)
      * confidence_factor rule.confidence
      * asset_factor (criticality_of asset tenant) rule.asset_criticality
      * repetition_factor m count in
    omega (arith, e, r (min (100 * score_scale) raw) (100 * score_scale) (omega arith))

severity_base-grade :
    (low high : String)
    → is_severity low ≡ true
    → is_severity high ≡ true
    → grade low ≤ grade high
    → severity_base low ≤ severity_base high
unfolding severity_base
severity_base-grade low high l h g = ground arith

-- `rule.risk.base`, where None counts as 0.
abbrev pub points : Option ℕ → ℕ
points none = 0
points (some b) = b

base_bonus-points :
    (low high : Option ℕ) → points low ≤ points high → base_bonus low ≤ base_bonus high
base_bonus-points none none h = omega arith
base_bonus-points none (some b) h = omega arith
base_bonus-points (some a) none h = omega arith
base_bonus-points (some a) (some b) h = omega arith

-- With a rounding that is monotone and keeps 100, and a monotone logarithm: a rule whose severity
-- stands no lower in the order info, low, medium, high, critical, that is no less confident, with
-- a base no lower, on assets no less critical, and that has struck no less often, scores no less.
pub compute_risk_monotone :
    (m : Arithmetic) (low high : ScoredRule) (tenant tenant' : Option ℕ) (count count' : ℕ)
    (asset asset' : Option ℕ)
    → Rounds m
    → ((x y : ℕ) → x ≤ y → m.log10 x ≤ m.log10 y)
    → is_severity low.severity ≡ true
    → is_severity high.severity ≡ true
    → grade low.severity ≤ grade high.severity
    → points low.risk_base ≤ points high.risk_base
    → low.confidence ≤ high.confidence
    → criticality_of asset tenant ≤ criticality_of asset' tenant'
    → low.asset_criticality ≤ high.asset_criticality
    → count ≤ count'
    → compute_risk m low tenant count asset ≤ compute_risk m high tenant' count' asset'
unfolding compute_risk
compute_risk_monotone m low high tenant tenant' count count' asset asset' (r, e) l u v g b c a d n =
    let s = severity_base-grade low.severity high.severity u v g in
    let bonus = base_bonus-points low.risk_base high.risk_base b in
    let base : severity_base low.severity * 10000 + base_bonus low.risk_base
        ≤ severity_base high.severity * 10000 + base_bonus high.risk_base =
      omega (arith, s, bonus) in
    let confidence : confidence_factor low.confidence ≤ confidence_factor high.confidence =
      omega arith in
    let asset_product = mul-le-mul a d in
    let assets : asset_factor (criticality_of asset tenant) low.asset_criticality
        ≤ asset_factor (criticality_of asset' tenant') high.asset_criticality =
      omega (arith, asset_product) in
    let counts = l (max 1 count) (max 1 count') (omega arith) in
    let repetition : repetition_factor m count ≤ repetition_factor m count' =
      omega (arith, counts) in
    let product = mul-le-mul (mul-le-mul (mul-le-mul base confidence) assets) repetition in
    r _ _ (omega (arith, product))

-- ===== src/Storage/Findings.antt =====
-- The table `findings` of storage/store.py, in the order of insertion. The CHECKs of its columns
-- hold for the values that the data model lets through; the comment is left out.
use thot_secure.Prelude.{
  ℕ, String, Bool, Option, none, some, List, [], ◌∷◌, ◌++◌, str_eq, ltb, any, find, keep, ◌&&◌,
  ◌||◌, if◌then◌else◌,
}
use thot_secure.Value.{Dict}
use thot_secure.Model.{Finding}

unfoldable pub is_finding : String → String → Finding → Bool
is_finding tenant_id finding_id f = str_eq f.finding_id finding_id && str_eq f.tenant_id tenant_id

unfoldable pub get_finding : String → String → List Finding → Option Finding
get_finding tenant_id finding_id rows = find (is_finding tenant_id finding_id) rows

-- `insert_finding`; none for an IntegrityError (`finding_id` is the primary key).
unfoldable pub insert_finding : Finding → List Finding → Option (List Finding)
insert_finding f rows =
    if any (λ r. str_eq r.finding_id f.finding_id) rows then none else some (rows ++ f ∷ [])

-- The keyword arguments of `update_finding`; one that is None changes nothing.
pub record Update : Type 0 where
  pub severity : Option String
  pub risk_score : Option ℕ
  pub confidence : Option ℕ
  pub status : Option String
  pub title : Option String
  pub remediation : Option String
  pub tags : Option (List String)
  pub mitre : Option (List String)
  pub evidence : Option Dict
  pub last_seen : Option ℕ
  pub count : Option ℕ
  pub event_ids : Option (List String)
  pub resolution : Option String

abbrev pub no_update : Update
no_update = record {
  severity = none;
  risk_score = none;
  confidence = none;
  status = none;
  title = none;
  remediation = none;
  tags = none;
  mitre = none;
  evidence = none;
  last_seen = none;
  count = none;
  event_ids = none;
  resolution = none;
}

abbrev pub given {ℓ} : {A : Type ℓ} → Option A → A → A
given none old = old
given (some new) old = new

abbrev pub given_text : Option String → Option String → Option String
given_text none old = old
given_text (some new) old = some new

-- UPDATE findings SET …, the time of the call in `updated_at`.
unfoldable pub updated : Update → ℕ → Finding → Finding
updated u now f = record f {
  severity = given u.severity f.severity;
  risk_score = given u.risk_score f.risk_score;
  confidence = given u.confidence f.confidence;
  status = given u.status f.status;
  title = given u.title f.title;
  remediation = given u.remediation f.remediation;
  tags = given u.tags f.tags;
  mitre = given u.mitre f.mitre;
  evidence = given u.evidence f.evidence;
  last_seen = given u.last_seen f.last_seen;
  count = given u.count f.count;
  event_ids = given u.event_ids f.event_ids;
  resolution = given_text u.resolution f.resolution;
  updated_at = now;
}

unfoldable pub update_rows : String → String → Update → ℕ → List Finding → List Finding
update_rows tenant_id finding_id u now [] = []
update_rows tenant_id finding_id u now (f ∷ rows) =
    (if is_finding tenant_id finding_id f then updated u now f else f)
    ∷ update_rows tenant_id finding_id u now rows

-- `update_finding`; none for NotFoundError.
unfoldable pub update_finding : String → String → Update → ℕ → List Finding → Option (List Finding)
update_finding tenant_id finding_id u now rows =
    if any (is_finding tenant_id finding_id) rows
    then some (update_rows tenant_id finding_id u now rows)
    else none

-- status IN ('open', 'acked')
abbrev pub is_open_status : String → Bool
is_open_status s = str_eq s "open" || str_eq s "acked"

unfoldable pub is_open_for : String → String → String → Finding → Bool
is_open_for tenant_id rule_id dedup_key f =
    str_eq f.tenant_id tenant_id
    && str_eq f.rule_id rule_id
    && str_eq f.dedup_key dedup_key
    && is_open_status f.status

-- ORDER BY last_seen DESC LIMIT 1
unfoldable pub latest_seen : List Finding → Option Finding
latest_seen [] = none
latest_seen (f ∷ rows) = elim (latest_seen rows) [
  | none ↦ some f
  | some g ↦ if ltb f.last_seen g.last_seen then some g else some f
]

unfoldable pub find_open_finding : String → String → String → List Finding → Option Finding
find_open_finding tenant_id rule_id dedup_key rows =
    latest_seen (keep (is_open_for tenant_id rule_id dedup_key) rows)

-- ===== src/Pipeline/Review.antt =====
-- The analyst's transitions of a finding, of api/routers/findings.py, with `add_suppression` and
-- `is_suppressed` of storage/store.py. The comments are left out, and so is
-- the context of the audit record but for the tenant. `none` stands for the response of an error.
use thot_secure.Prelude.{
  ℕ, ◌+◌, ◌*◌, String, Bool, Option, none, some, List, [], ◌∷◌, ◌++◌, str_eq, ltb, any, ◌&&◌, ◌||◌,
  if◌then◌else◌,
}
use thot_secure.Value.{Dict, str, is_in, non_empty}
use thot_secure.Model.{Tenant, Finding}
use thot_secure.Storage.Findings.{Update, no_update, given, update_finding}
use thot_secure.Storage.Findings
use thot_secure.Detection.Evidence.{text_or_null}
use thot_secure.Tenancy.{has_capability}
use thot_secure.Audit.Defs.{Entry}
use thot_secure.Actions.World.{Author}
use thot_secure.Pipeline.{Pipeline, Setup, Suppression, get_tenant, with_findings, record_audit}

-- What the analyst asks for: the resolution of a closing; the seconds and the target of a
-- suppression.
pub data Transition : Type 0 where
  ack : Transition
  close : String → Transition
  suppress : ℕ → String → Transition

-- TRANSITIONS: the statuses that a transition starts from.
abbrev pub allowed_from : Transition → List String
allowed_from ack = "open" ∷ []
allowed_from (close resolution) = "open" ∷ "acked" ∷ "suppressed" ∷ []
allowed_from (suppress seconds key) = "open" ∷ "acked" ∷ []

abbrev pub status_after : Transition → String
status_after ack = "acked"
status_after (close resolution) = "closed"
status_after (suppress seconds key) = "suppressed"

abbrev pub resolution_of : Transition → Option String
resolution_of (close resolution) = some resolution
resolution_of _ = none

abbrev pub action_of : Transition → String
action_of ack = "finding.ack"
action_of (close resolution) = "finding.close"
action_of (suppress seconds key) = "finding.suppress"

-- `add_suppression`, of a suppression only.
unfoldable pub add_suppression :
    Transition → String → ℕ → Finding → List Suppression → List Suppression
add_suppression (suppress seconds key) tenant_id now f rows =
    rows
    ++ record {
      tenant_id = tenant_id;
      rule_id = f.rule_id;
      dedup_key = if non_empty key then key else f.dedup_key;
      created_at = now;
      expires_at = now + seconds * 1000;
    }
      ∷ []
add_suppression ack tenant_id now f rows = rows
add_suppression (close resolution) tenant_id now f rows = rows

unfoldable pub is_suppressed : String → String → String → ℕ → List Suppression → Bool
is_suppressed tenant_id rule_id dedup_key now rows =
    any
      (λ r.
        str_eq r.tenant_id tenant_id
        && str_eq r.rule_id rule_id
        && (str_eq r.dedup_key dedup_key || str_eq r.dedup_key "")
        && ltb now r.expires_at)
      rows

module _ (s : Setup) (now : ℕ) (tenant_id : String) (who : Author) where
  abbrev pub state_of : Finding → Dict
  state_of f = ("status", str f.status) ∷ ("resolution", text_or_null f.resolution) ∷ []

  abbrev pub transition_entry : Transition → Finding → Finding → Entry
  transition_entry x before after = record {
    ts = now;
    tenant_id = tenant_id;
    actor = who.actor;
    actor_role = who.role;
    action = action_of x;
    target = ("type", str "finding") ∷ ("id", str before.finding_id) ∷ [];
    before = state_of before;
    after = state_of after;
    context = ("tenant", str tenant_id) ∷ [];
  }

  abbrev pub transition_update : Transition → Update
  transition_update x = record no_update {
    status = some (status_after x);
    resolution = resolution_of x;
  }

  -- With the rows after the update, if there was a row.
  unfoldable pub moved :
      Transition → Finding → Option (List Finding) → Pipeline → Option Finding × Pipeline
  moved x f none p = (none, p)
  moved x f (some rows) p =
      let after = given (Findings.get_finding tenant_id f.finding_id rows) f in
      (some after, record_audit s (transition_entry x f after) (with_findings rows p))

  unfoldable pub transition_of :
      Option Tenant → Transition → Finding → Pipeline → Option Finding × Pipeline
  transition_of none x f p = (none, p)
  transition_of (some t) x f p =
      moved x f (update_finding tenant_id f.finding_id (transition_update x) now p.world.findings) p

  -- `_transition`, for the finding that was read.
  unfoldable pub transition : Transition → Finding → Pipeline → Option Finding × Pipeline
  transition x f p = transition_of (get_tenant tenant_id p.world.tenants) x f p

  unfoldable pub review_found : Transition → Option Finding → Pipeline → Option Finding × Pipeline
  review_found x none p = (none, p)
  review_found x (some f) p =
      if is_in f.status (allowed_from x)
      then transition x f
          (record p { suppressions = add_suppression x tenant_id now f p.suppressions })
      else (none, p)

  -- `ack_finding`, `close_finding`, `suppress_finding`
  unfoldable pub review : Transition → String → Pipeline → Option Finding × Pipeline
  review x finding_id p =
      if has_capability s.env.py who.role "write:findings"
      then review_found x (Findings.get_finding tenant_id finding_id p.world.findings) p
      else (none, p)

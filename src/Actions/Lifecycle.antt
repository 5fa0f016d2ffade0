-- ===== src/Actions/Lifecycle.antt =====
-- The life of an action: the changes of its status that the engine makes, and what of an action
-- never changes.
use thot_secure.Prelude.{
  String, Bool, true, false, some, List, ◌≡◌, refl, sym, ◌∙◌, ap, inl, inr, ◌⊎◌, Bool-cases,
}
use mathlib.Core.Path.{subst}
use thot_secure.Model.{
  Action, Status, planned, pending_approval, approved, rejected, executing, succeeded, failed,
  rolled_back, is_terminal_status,
}
use thot_secure.Storage.Actions.{is_row, get_action, written, write_rows}
use thot_secure.Storage.Rows.{is_row_iff, get_action_key, rewritten, get_action-write_rows}

-- What a request is for.
pub data Kind : Type 0 where
  planning : Kind
  deciding : Kind
  approving : Kind
  rejecting : Kind
  running : Kind
  undoing : Kind

-- A policy's decision may start an action, as a request to execute it does.
abbrev pub runs : Kind → Bool
runs deciding = true
runs running = true
runs _ = false

-- One change of status that a kind of request makes; the flag is the action's dry run.
pub data Edge : Kind → Bool → Status → Status → Type 0 where
  submitted : {d : Bool} → Edge deciding d planned pending_approval
  approval : {d : Bool} → Edge approving d planned approved
  late_approval : {d : Bool} → Edge approving d pending_approval approved
  rejection : {d : Bool} {s : Status} → is_terminal_status s ≡ false → Edge rejecting d s rejected
  started : {k : Kind} {d : Bool} → runs k ≡ true → Edge k d approved executing
  tried : {k : Kind} → runs k ≡ true → Edge k true planned executing
  success : {k : Kind} {d : Bool} → runs k ≡ true → Edge k d executing succeeded
  failure : {k : Kind} {d : Bool} → runs k ≡ true → Edge k d executing failed
  undone : {d : Bool} {s : Status} → (s ≡ succeeded) ⊎ (s ≡ failed) → Edge undoing d s rolled_back
  undo_failure : {d : Bool} {s : Status} → (s ≡ succeeded) ⊎ (s ≡ failed) → Edge undoing d s failed

pub data Reaches (k : Kind) (d : Bool) : Status → Status → Type 0 where
  here : {s : Status} → Reaches k d s s
  next : {s t u : Status} → Edge k d s t → Reaches k d t u → Reaches k d s u

pub Reaches-trans :
    {k : Kind} {d : Bool} {s t u : Status} → Reaches k d s t → Reaches k d t u → Reaches k d s u
Reaches-trans here r = r
Reaches-trans (next e q) r = next e (Reaches-trans q r)

-- A later state of one action, after requests of one kind.
pub record Evolves (k : Kind) (a b : Action) : Type 0 where
  pub action_id : b.action_id ≡ a.action_id
  pub tenant_id : b.tenant_id ≡ a.tenant_id
  pub playbook : b.playbook ≡ a.playbook
  pub params : b.params ≡ a.params
  pub target_value : b.target_value ≡ a.target_value
  pub mode : b.mode ≡ a.mode
  pub dry_run : b.dry_run ≡ a.dry_run
  pub requested_by : b.requested_by ≡ a.requested_by
  pub idempotency_key : b.idempotency_key ≡ a.idempotency_key
  pub path : Reaches k a.dry_run a.status b.status

pub Evolves-refl : {k : Kind} (a : Action) → Evolves k a a
Evolves-refl a = record {
  action_id = refl;
  tenant_id = refl;
  playbook = refl;
  params = refl;
  target_value = refl;
  mode = refl;
  dry_run = refl;
  requested_by = refl;
  idempotency_key = refl;
  path = here;
}

pub Evolves-trans : {k : Kind} (a b c : Action) → Evolves k a b → Evolves k b c → Evolves k a c
Evolves-trans {k} a b c p q = record {
  action_id = q.action_id ∙ p.action_id;
  tenant_id = q.tenant_id ∙ p.tenant_id;
  playbook = q.playbook ∙ p.playbook;
  params = q.params ∙ p.params;
  target_value = q.target_value ∙ p.target_value;
  mode = q.mode ∙ p.mode;
  dry_run = q.dry_run ∙ p.dry_run;
  requested_by = q.requested_by ∙ p.requested_by;
  idempotency_key = q.idempotency_key ∙ p.idempotency_key;
  path = Reaches-trans p.path (subst (λ d. Reaches k d b.status c.status) p.dry_run q.path);
}

-- Every row is still there, in a later state.
abbrev pub Follows : Kind → List Action → List Action → Type 0
Follows k rows rows' =
    (t id : String) (a : Action)
    → get_action t id rows ≡ some a
    → (b : Action) × (get_action t id rows' ≡ some b) × Evolves k a b

pub Follows-trans : {k : Kind} (r s t : List Action) → Follows k r s → Follows k s t → Follows k r t
Follows-trans r s t f g tid id a h =
    let (b, e, p) = f tid id a h in
    let (c, e', q) = g tid id b e in (c, e', Evolves-trans a b c p q)

-- The status of the row that an action is to be written to leads to the status of the action.
abbrev pub Allowed : Kind → Action → List Action → Type 0
Allowed k b rows =
    (r : Action)
    → get_action b.tenant_id b.action_id rows ≡ some r
    → Reaches k r.dry_run r.status b.status

Evolves-rewritten :
    {k : Kind} (b r : Action)
    → (is_row b.tenant_id b.action_id r ≡ true → Reaches k r.dry_run r.status b.status)
    → Evolves k r (rewritten b r)
unfolding written
Evolves-rewritten b r h = elim (Bool-cases (is_row b.tenant_id b.action_id r)) [
  | inl e ↦ rw e (record {
    action_id = refl;
    tenant_id = refl;
    playbook = refl;
    params = refl;
    target_value = refl;
    mode = refl;
    dry_run = refl;
    requested_by = refl;
    idempotency_key = refl;
    path = h e;
  })
  | inr e ↦ rw e (Evolves-refl r)
]

pub write_rows-Follows :
    {k : Kind} (b : Action) (rows : List Action)
    → Allowed k b rows
    → Follows k rows (write_rows b rows)
write_rows-Follows b rows h t id a found = (
  rewritten b a,
  get_action-write_rows t id b rows a found,
  Evolves-rewritten b a λ e.
      let (i, u) = is_row_iff b.tenant_id b.action_id a e in
      h a (
        ap (λ (x : String). get_action x b.action_id rows) (sym u)
        ∙ ap (λ (y : String). get_action a.tenant_id y rows) (sym i)
        ∙ get_action_key t id rows a found),
)

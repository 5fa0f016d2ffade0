-- ===== src/Actions/Finality.antt =====
-- The ends of an action's life, over sequences of requests.
use thot_secure.Prelude.{
  String, Bool, true, false, some, List, [], ◌∷◌, ◌≡◌, refl, ap, ◌∙◌, inl, inr, all, not, arith,
}
use thot_secure.Model.{
  Action, Status, planned, pending_approval, approved, rejected, executing, succeeded, failed,
  expired, rolled_back,
}
use thot_secure.Storage.Actions.{get_action}
use thot_secure.Actions.World.{World, Env}
use thot_secure.Actions.Lifecycle.{
  Kind, Edge, submitted, approval, late_approval, rejection, started, tried, success, failure,
  undone, undo_failure, Reaches, here, next,
}
use thot_secure.Actions.Session.{serve, Turn, env_at, serve_all}
use thot_secure.Actions.Admission.{is_reap, kind_of, serve-Follows}

-- The three ends that nothing follows; a failed or succeeded action can still be undone.
abbrev pub is_final : Status → Bool
is_final rejected = true
is_final expired = true
is_final rolled_back = true
is_final _ = false

Edge-is_final : (k : Kind) (d : Bool) (s t : Status) → Edge k d s t → is_final s ≡ true → ⊥
Edge-is_final k d s t submitted h = cc
Edge-is_final k d s t approval h = cc
Edge-is_final k d s t late_approval h = cc
Edge-is_final k d planned t (rejection e) h = cc
Edge-is_final k d pending_approval t (rejection e) h = cc
Edge-is_final k d approved t (rejection e) h = cc
Edge-is_final k d executing t (rejection e) h = cc
Edge-is_final k d succeeded t (rejection e) h = cc
Edge-is_final k d failed t (rejection e) h = cc
Edge-is_final k d rejected t (rejection e) h = cc
Edge-is_final k d expired t (rejection e) h = cc
Edge-is_final k d rolled_back t (rejection e) h = cc
Edge-is_final k d s t (started r) h = cc
Edge-is_final k d s t (tried r) h = cc
Edge-is_final k d s t (success r) h = cc
Edge-is_final k d s t (failure r) h = cc
Edge-is_final k d s t (undone (inl e)) h = cc
Edge-is_final k d s t (undone (inr e)) h = cc
Edge-is_final k d s t (undo_failure (inl e)) h = cc
Edge-is_final k d s t (undo_failure (inr e)) h = cc

Reaches-is_final :
    (k : Kind) (d : Bool) (s t : Status) → Reaches k d s t → is_final s ≡ true → t ≡ s
Reaches-is_final k d s t here h = refl
Reaches-is_final k d s t (next e r) h = absurd (Edge-is_final k d s _ e h)

-- Over any sequence of requests of users and of the policy engine, an action that is rejected,
-- expired or rolled back stays so, with the same playbook, target and dry run.
pub serve_all-final :
    (env : Env) (turns : List Turn) (w : World) (t id : String) (a : Action)
    → all (λ turn. not (is_reap env turn.request)) turns ≡ true
    → get_action t id w.rows ≡ some a
    → is_final a.status ≡ true
    → (b : Action) × (get_action t id (serve_all env turns w).rows ≡ some b)
      × (b.status ≡ a.status)
      × (b.playbook ≡ a.playbook)
      × (b.target_value ≡ a.target_value)
      × (b.dry_run ≡ a.dry_run)
serve_all-final env [] w t id a users found end = (a, found, refl, refl, refl, refl)
serve_all-final env (turn ∷ turns) w t id a users found end =
    let now = env_at env turn in
    let (b, e, p) = serve-Follows now turn.request w t id a (ground arith) found in
    let same = Reaches-is_final (kind_of now turn.request) a.dry_run a.status b.status p.path end in
    let (c, e', status, playbook, target, dry) =
      serve_all-final env turns (serve now turn.request w) t id b (ground arith) e
        (ap is_final same ∙ end) in
    (c, e', status ∙ same, playbook ∙ p.playbook, target ∙ p.target_value, dry ∙ p.dry_run)

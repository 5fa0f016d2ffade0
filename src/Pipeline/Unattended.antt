-- ===== src/Pipeline/Unattended.antt =====
-- What the pipeline does by itself while no decision can be automatic.
use thot_secure.Prelude.{
  ℕ, String, false, Option, none, some, List, [], ◌∷◌, ◌≡◌, ◌⊎◌, inl, inr, refl, ◌∙◌, arith,
}
use mathlib.Core.Path.{subst}
use thot_secure.Model.{
  Tenant, manual, Finding, DecisionKind, auto, require_approval, notify_only, ignore,
}
use thot_secure.Decision.Conditions.{DecisionContext}
use thot_secure.Decision.Engine.{Policy, DecisionEngine, is_auto, select, decide}
use thot_secure.Decision.Guards.{Autonomous, AutomaticBy, decide-auto}
use thot_secure.Platform.{Platform}
use thot_secure.Audit.Defs.{Entry}
use thot_secure.Actions.Keeps.{Order}
use thot_secure.Actions.Session.{env_at}
use thot_secure.Actions.Engine.{from_decision}
use thot_secure.Actions.Idle.{Idle, Paper, from_decision-Idle, serve-Idle}
use thot_secure.Pipeline.{Pipeline, Moment, Setup, View, view, env_of, get_tenant, record_audit}
use thot_secure.Pipeline.React.{policy_engine, context_of}
use thot_secure.Pipeline.Writes.{Writes, upsert_finding-R, review-R}
use thot_secure.Pipeline.Terms.{Terms, Tame, Parts}
use thot_secure.Pipeline.Frame.{perform_all-R}
use thot_secure.Pipeline.Session.{Task, perform_all}

-- Every tenant decides by hand.
abbrev pub AllManual : List Tenant → Type 0
AllManual [] = Unit {0}
AllManual (t ∷ tenants) = (t.mode ≡ manual) × AllManual tenants

-- No policy asks for an automatic decision.
abbrev pub NoneAuto : List Policy → Type 0
NoneAuto [] = Unit {0}
NoneAuto (p ∷ ps) = (is_auto p.result.decision ≡ false) × NoneAuto ps

get_tenant-manual :
    (id : String) (t : Tenant) (tenants : List Tenant)
    → AllManual tenants
    → get_tenant id tenants ≡ some t
    → t.mode ≡ manual
get_tenant-manual id t [] h e = cc
get_tenant-manual id t (u ∷ tenants) (m, h) e = ground (arith, get_tenant-manual id t tenants h)

not_auto : (k : DecisionKind) → ¬ (k ≡ auto) → is_auto k ≡ false
not_auto auto h = absurd (h refl)
not_auto require_approval h = refl
not_auto notify_only h = refl
not_auto ignore h = refl

module _ (py : Platform) (e : DecisionEngine) (c : DecisionContext) where
  select-NoneAuto :
      (ps : List Policy) (p : Policy)
      → NoneAuto ps
      → (select py e c ps).0 ≡ some p
      → is_auto p.result.decision ≡ false
  unfolding select
  select-NoneAuto [] p h found = cc
  select-NoneAuto (q ∷ ps) p (m, h) found = ground (arith, select-NoneAuto ps p h)

  chosen_NoneAuto :
      (o : Option Policy) (ids : List String)
      → (select py e c e.policies).0 ≡ o
      → NoneAuto e.policies
      → ¬ AutomaticBy py e c o ids
  chosen_NoneAuto none ids found h a = a
  chosen_NoneAuto (some p) ids found h a = cc (select-NoneAuto e.policies p h found, a.0)

  chosen_manual :
      (o : Option Policy) (ids : List String) → c.tenant.mode ≡ manual → ¬ AutomaticBy py e c o ids
  chosen_manual none ids m a = a
  chosen_manual (some p) ids m a = subst (λ mode. Autonomous py e c mode) m a.1.autonomous

  pub decide_unattended :
      (c.tenant.mode ≡ manual) ⊎ NoneAuto e.policies → is_auto (decide py e c).0.decision ≡ false
  decide_unattended (inl m) = not_auto _ λ k. chosen_manual _ _ m ((decide-auto py e c).0 k)
  decide_unattended (inr h) = not_auto _ λ k. chosen_NoneAuto _ _ refl h ((decide-auto py e c).0 k)

-- The tenants, the policies and the calls stay the same.
abbrev Steady : View → View → Type 0
Steady v w = Idle v.0 w.0 × (w.1 ≡ v.1)

Steady-Order : Order Steady
Steady-Order = record {
  stay = λ v. ((refl, refl), refl);
  go = λ u v w ((a, b), d) ((e, f), g). ((e ∙ a, f ∙ b), g ∙ d);
}

abbrev unattended : Terms
unattended = record {
  Kept = Steady;
  Ready = λ v. AllManual v.0.tenants ⊎ NoneAuto v.1;
  Fits = λ t v. (t.mode ≡ manual) ⊎ NoneAuto v.1;
  Allowed = λ turn. Paper turn.request;
}

module _ (s : Setup) where
  record_audit-Steady : (e : Entry) (p : Pipeline) → Steady (view p) (view (record_audit s e p))
  unfolding record_audit
  record_audit-Steady e p = ((refl, refl), refl)

  Steady-Writes : Writes s Steady
  Steady-Writes = record {
    order = Steady-Order;
    storing = λ rows v. ((refl, refl), refl);
    auditing = record_audit-Steady;
  }

  entering-Steady :
      (id : String) (t : Tenant) (v : View)
      → AllManual v.0.tenants ⊎ NoneAuto v.1
      → get_tenant id v.0.tenants ≡ some t
      → (t.mode ≡ manual) ⊎ NoneAuto v.1
  entering-Steady id t v (inl h) e = inl (get_tenant-manual id t v.0.tenants h e)
  entering-Steady id t v (inr h) e = inr h

  context_of-tenant : (at : Moment) (f : Finding) (t : Tenant) → (context_of s at f t).tenant ≡ t
  unfolding context_of
  context_of-tenant at f t = refl

  acting-Steady :
      (at : Moment) (i : ℕ) (t : Tenant) (f : Finding) (e : DecisionEngine) (v : View)
      → e.policies ≡ v.1
      → (t.mode ≡ manual) ⊎ NoneAuto v.1
      → Steady v (
        (from_decision
            (env_of s at i)
            t
            f
            (decide s.env.py e (context_of s at f t)).0
            policy_engine
            v.0).1,
        v.1,
      )
  acting-Steady at i t f e v same fit = (
    (from_decision-Idle (env_of s at i) t f (decide s.env.py e (context_of s at f t)).0
          policy_engine
          (decide_unattended s.env.py e (context_of s at f t)
            (rw (context_of-tenant at f t, same) fit))).at
        v.0,
    refl,
  )

  Steady-Parts : Parts s unattended
  Steady-Parts = record {
    order = Steady-Order;
    ready = λ v w ((a, b), d) h. rw (a, d) h;
    fits = λ t v w (a, d) h. rw d h;
    entering = entering-Steady;
    auditing = record_audit-Steady;
    upserting = upsert_finding-R s Steady-Writes;
    acting = acting-Steady;
    transiting = review-R s Steady-Writes;
    serving = λ turn v paper. (serve-Idle (env_at s.env turn) turn.request v.0 paper, refl);
  }

  -- If every tenant is in manual mode, or if no policy asks for an automatic decision, then no
  -- sequence of ingested batches, replays, transitions of findings and requests to plan, approve
  -- or reject an action reaches a connector, not even for a dry run: whatever the events, the
  -- rules and the playbooks, the calls made are those made before.
  pub perform_all-unattended :
      (tasks : List Task) (p : Pipeline)
      → AllManual p.world.tenants ⊎ NoneAuto p.decisions.policies
      → Tame (λ turn. Paper turn.request) tasks
      → (perform_all s tasks p).world.calls ≡ p.world.calls
  perform_all-unattended tasks p h paper = (perform_all-R s Steady-Parts tasks p paper h).0.1

-- ===== src/Detection/Engine.antt =====
-- `DetectionEngine` of detection/engine.py: the evaluation of an event and the
-- windows of the thresholds. The time spent and the log lines are left out.
use thot_secure.Prelude.{
  ℕ, suc, String, Bool, true, Option, List, [], ◌∷◌, ◌++◌, ◌+◌, ◌*◌, str_eq, ltb, leb, not, any,
  all, length, ◌&&◌, if◌then◌else◌,
}
use thot_secure.Value.{Dict, obj, of_dict, put, is_in}
use thot_secure.Value.Paths.{deep_get}
use thot_secure.Platform.{Platform}
use thot_secure.Detection.Regex.{prefix}
use thot_secure.Detection.Matchers.{Condition, evaluate_condition}
use thot_secure.Detection.Rules.{Rule}
use thot_secure.Detection.Loading.{CompiledRule, sort_rules, accepted, index_rules}

-- `dump` is what `model_dump` returns.
pub record Event : Type 0 where
  pub event_id : String
  pub tenant_id : String
  pub ts : ℕ
  pub kind : String
  pub source_type : String
  pub source_name : Option String
  pub source_host : Option String
  pub labels : Dict
  pub payload : Dict
  pub dump : Dict

pub record MatchResult : Type 0 where
  pub rule : Rule
  pub event : Event
  pub dedup_key : String
  pub group_key : String
  pub threshold_count : ℕ
  pub matched_at : ℕ

-- A deque of times, the oldest first, under its key.
pub record Window : Type 0 where
  pub rule_id : String
  pub group_key : String
  pub hits : List ℕ

pub record DetectionEngine : Type 0 where
  pub compiled : List CompiledRule
  pub by_id : List (String × CompiledRule)
  pub windows : List Window
  pub evaluated : ℕ
  pub matched : ℕ
  pub threshold_suppressed : ℕ

abbrev pub max_window_entries : ℕ
max_window_entries = 10000

-- s in names, where an empty set stands for all
abbrev pub is_among : String → List String → Bool
is_among s [] = true
is_among s (n ∷ ns) = is_in s (n ∷ ns)

unfoldable pub applies_to : CompiledRule → Event → Bool
applies_to entry event =
    is_among event.source_type entry.source_types && is_among event.kind entry.kinds

abbrev pub is_window : String → String → Window → Bool
is_window id g w = str_eq w.rule_id id && str_eq w.group_key g

-- self._windows[key]
unfoldable pub window_of : String → String → List Window → List ℕ
window_of id g [] = []
window_of id g (w ∷ ws) = if is_window id g w then w.hits else window_of id g ws

unfoldable pub set_window : String → String → List ℕ → List Window → List Window
set_window id g hits [] = record { rule_id = id; group_key = g; hits = hits } ∷ []
set_window id g hits (w ∷ ws) =
    let rest = set_window id g hits ws in
    if is_window id g w then record w { hits = hits } ∷ ws else w ∷ rest

-- while window and window[0] < now - span: window.popleft()
unfoldable pub drop_stale : ℕ → ℕ → List ℕ → List ℕ
drop_stale span now [] = []
drop_stale span now (t ∷ ts) =
    let rest = drop_stale span now ts in if ltb (t + span) now then rest else t ∷ ts

-- while len(window) > n: window.popleft()
unfoldable pub trim : ℕ → List ℕ → List ℕ
trim n [] = []
trim n (t ∷ ts) = let rest = trim n ts in if ltb n (length (t ∷ ts)) then rest else t ∷ ts

-- The window after a hit.
unfoldable pub slide : ℕ → ℕ → ℕ → List ℕ → List ℕ
slide limit span now hits = trim limit (drop_stale span now hits ++ now ∷ [])

abbrev pub span_of : CompiledRule → ℕ
span_of entry = entry.window_seconds * 1000

-- `_register_hit`: the count, and the windows.
unfoldable pub register_hit : CompiledRule → String → ℕ → List Window → ℕ × List Window
register_hit entry g now ws =
    if leb entry.threshold_count 1
    then (1, ws)
    else let hits = slide max_window_entries (span_of entry) now (window_of entry.rule.id g ws) in
      (
        if leb entry.threshold_count (length hits) then length hits else 0,
        set_window entry.rule.id g hits ws,
      )

module _ (py : Platform) where
  unfoldable pub reload : List Rule → DetectionEngine → DetectionEngine
  reload rules e = record e {
    compiled = sort_rules (accepted py rules);
    by_id = index_rules py [] (accepted py rules);
    windows = [];
  }

  -- The test of `any`, which an empty list passes.
  abbrev pub some_of : Dict → List Condition → Bool
  some_of context [] = true
  some_of context (c ∷ cs) = any (λ d. evaluate_condition py d context) (c ∷ cs)

  -- `_matches`
  unfoldable pub matches : Rule → Dict → Bool
  matches rule context =
      all (λ c. evaluate_condition py c context) m.all_of
      && some_of context m.any_of
      && all (λ c. not (evaluate_condition py c context)) m.none_of
    where
      open rule use {match_spec as m}

  -- {f: _dig(context, f) for f in fields}
  abbrev pub values_of : Dict → List String → Dict → Dict
  values_of context [] d = d
  values_of context (f ∷ fs) d = values_of context fs (put f (deep_get (obj (of_dict context)) f) d)

  abbrev pub stable_hash : Dict → String
  stable_hash d = prefix 32 (py.sha256_hexdigest (py.json_dumps d))

  abbrev pub keyed : ℕ → String → Dict → List String → String
  keyed n default context [] = default
  keyed n default context (f ∷ fs) = prefix n (stable_hash (values_of context (f ∷ fs) []))

  unfoldable pub group_key : CompiledRule → Event → String
  group_key entry event = keyed 16 "-" event.dump entry.group_fields

  unfoldable pub dedup_key : CompiledRule → Event → String
  dedup_key entry event = keyed 24 "tenant" event.dump entry.dedup_fields

  -- The rule is enabled, applies to the event and matches it.
  unfoldable pub is_candidate : CompiledRule → Event → Bool
  is_candidate entry event =
      entry.rule.enabled && applies_to entry event && matches entry.rule event.dump

  abbrev pub new_match : CompiledRule → Event → ℕ → ℕ → MatchResult
  new_match entry event now n = record {
    rule = entry.rule;
    event = event;
    dedup_key = dedup_key entry event;
    group_key = group_key entry event;
    threshold_count = n;
    matched_at = now;
  }

  abbrev pub count_match : ℕ → DetectionEngine → DetectionEngine
  count_match n e =
      if leb 1 n
      then record e { matched = suc e.matched }
      else record e { threshold_suppressed = suc e.threshold_suppressed }

  -- The body of the loop over the rules.
  unfoldable pub evaluate_rule :
      CompiledRule → Event → ℕ → DetectionEngine → List MatchResult × DetectionEngine
  evaluate_rule entry event now e =
      let (n, ws) = register_hit entry (group_key entry event) now e.windows in
      if is_candidate entry event
      then (
        if leb 1 n then new_match entry event now n ∷ [] else [],
        count_match n (record e { windows = ws }),
      )
      else ([], e)

  unfoldable pub evaluate_rules :
      List CompiledRule → Event → ℕ → DetectionEngine → List MatchResult × DetectionEngine
  evaluate_rules [] event now e = ([], e)
  evaluate_rules (entry ∷ entries) event now e =
      let (found, e') = evaluate_rule entry event now e in
      let (results, e'') = evaluate_rules entries event now e' in (found ++ results, e'')

  unfoldable pub evaluate : Event → ℕ → DetectionEngine → List MatchResult × DetectionEngine
  evaluate event now e =
      let (results, e') = evaluate_rules e.compiled event now e in
      (results, record e' { evaluated = suc e'.evaluated })

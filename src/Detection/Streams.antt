-- ===== src/Detection/Streams.antt =====
-- When a rule fires in a stream of events.
use thot_secure.Prelude.{
  ℕ, suc, String, true, false, List, [], ◌∷◌, ◌++◌, ◌+◌, ◌≤◌, ◌<◌, ◌≡◌, leb, min, keep, length,
  ◌&&◌, arith, if◌then◌else◌, refl, sym, ap, subst, ◌∙◌, Bool-cases, inl, inr,
}
use thot_secure.Platform.{Platform}
use thot_secure.Detection.Loading.{CompiledRule}
use thot_secure.Detection.Engine.{
  Event, DetectionEngine, max_window_entries, window_of, slide, span_of, group_key, is_candidate,
  evaluate_rules, evaluate,
}
use thot_secure.Detection.Windows.{
  Follows, Follows-start, Follows-later, slide-Follows, length-slide, is_recent,
}
use thot_secure.Detection.Thresholds.{
  answer, pushed, is_hit, lacks, evaluate_rules-compiled, evaluate_rules-window,
}
use thot_secure.Detection.Firing.{fires, and_true, and_false, evaluate_rules-fires}

answer_reached :
    (c n : ℕ) → leb c 1 ≡ false → leb 1 (if leb c 1 then 1 else if leb c n then n else 0) ≡ leb c n
answer_reached c n h = ground arith

leb-false : (c m n : ℕ) → m < c → leb c (min m n) ≡ false
leb-false c m n h = ground arith

module _ (py : Platform) where
  -- The events one after the other, each after its wait.
  abbrev pub evaluate_all : List (ℕ × Event) → ℕ → DetectionEngine → DetectionEngine
  evaluate_all [] now e = e
  evaluate_all ((w, event) ∷ events) now e =
      evaluate_all events (now + w) (evaluate py event (now + w) e).1

  abbrev pub end_of : List (ℕ × Event) → ℕ → ℕ
  end_of [] now = now
  end_of ((w, event) ∷ events) now = end_of events (now + w)

  -- The times of the hits of the rule and the group, the newest first, before those given.
  abbrev pub hits_of : CompiledRule → String → List (ℕ × Event) → ℕ → List ℕ → List ℕ
  hits_of entry g [] now earlier = earlier
  hits_of entry g ((w, event) ∷ events) now earlier =
      hits_of entry g events (now + w)
        (if is_hit py entry g event then (now + w) ∷ earlier else earlier)

  -- The engine has the rule at its place, and no other of the same id.
  abbrev pub Loaded :
      List CompiledRule → CompiledRule → List CompiledRule → DetectionEngine → Type 0
  Loaded before entry after e =
      (e.compiled ≡ before ++ entry ∷ after)
      × (lacks py entry.rule.id before ≡ true)
      × (lacks py entry.rule.id after ≡ true)

  evaluate-Loaded :
      (before after : List CompiledRule) (entry : CompiledRule) (event : Event) (now : ℕ)
      (e : DetectionEngine)
      → Loaded before entry after e
      → Loaded before entry after (evaluate py event now e).1
  unfolding evaluate
  evaluate-Loaded before after entry event now e (c, b, a) =
      (evaluate_rules-compiled py e.compiled event now e ∙ c, b, a)

  evaluate-window :
      (before after : List CompiledRule) (entry : CompiledRule) (g : String) (event : Event)
      (now : ℕ) (e : DetectionEngine)
      → Loaded before entry after e
      → window_of entry.rule.id g (evaluate py event now e).1.windows ≡ (
          if is_hit py entry g event
          then pushed entry now (window_of entry.rule.id g e.windows)
          else window_of entry.rule.id g e.windows)
  unfolding evaluate
  evaluate-window before after entry g event now e (c, b, a) =
      ap (λ entries. window_of entry.rule.id g (evaluate_rules py entries event now e).1.windows) c
      ∙ evaluate_rules-window py before after entry g event now e b a

  abbrev Tracked : CompiledRule → String → ℕ → DetectionEngine → List ℕ → Type 0
  Tracked entry g now e history =
      Follows max_window_entries (span_of entry) now (window_of entry.rule.id g e.windows) history

  evaluate-Tracked :
      (before after : List CompiledRule) (entry : CompiledRule) (g : String) (event : Event)
      (now w : ℕ) (e : DetectionEngine) (history : List ℕ)
      → leb entry.threshold_count 1 ≡ false
      → Loaded before entry after e
      → Tracked entry g now e history
      → Tracked entry g
          (now + w)
          (evaluate py event (now + w) e).1
          (if is_hit py entry g event then (now + w) ∷ history else history)
  evaluate-Tracked before after entry g event now w e history t l f =
      let q = evaluate-window before after entry g event (now + w) e l in
      let ws = window_of entry.rule.id g e.windows in
      let limit = max_window_entries in
      let span = span_of entry in
      elim (Bool-cases (is_hit py entry g event)) [
        | inl h ↦
            let r : (if is_hit py entry g event then pushed entry (now + w) ws else ws)
                ≡ slide limit span (now + w) ws =
              rw (h, t) refl in
            rw h (
              subst (λ hits. Follows limit span (now + w) hits ((now + w) ∷ history)) (sym (q ∙ r))
                (slide-Follows limit span now (now + w) ws history f (omega arith)))
        | inr h ↦
            let r : (if is_hit py entry g event then pushed entry (now + w) ws else ws) ≡ ws =
              rw h refl in
            rw h (
              subst (λ hits. Follows limit span (now + w) hits history) (sym (q ∙ r))
                (Follows-later limit span now (now + w) ws history f (omega arith)))
      ]

  evaluate_all-Tracked :
      (before after : List CompiledRule) (entry : CompiledRule) (g : String)
      (events : List (ℕ × Event)) (now : ℕ) (e : DetectionEngine) (history : List ℕ)
      → leb entry.threshold_count 1 ≡ false
      → Loaded before entry after e
      → Tracked entry g now e history
      → Loaded before entry after (evaluate_all events now e)
        × Tracked entry g
            (end_of events now)
            (evaluate_all events now e)
            (hits_of entry g events now history)
  evaluate_all-Tracked before after entry g [] now e history t l f = (l, f)
  evaluate_all-Tracked before after entry g ((w, event) ∷ events) now e history t l f =
      evaluate_all-Tracked before after entry g events (now + w) (evaluate py event (now + w) e).1
        (if is_hit py entry g event then (now + w) ∷ history else history) t
        (evaluate-Loaded before after entry event (now + w) e l)
        (evaluate-Tracked before after entry g event now w e history t l f)

  evaluate-fires :
      (before after : List CompiledRule) (entry : CompiledRule) (event : Event) (now : ℕ)
      (e : DetectionEngine)
      → Loaded before entry after e
      → fires py entry.rule.id (evaluate py event now e).0 ≡ (
          is_candidate py entry event
          && leb 1
              (answer entry now (window_of entry.rule.id (group_key py entry event) e.windows)))
  unfolding evaluate
  evaluate-fires before after entry event now e (c, b, a) =
      ap (λ entries. fires py entry.rule.id (evaluate_rules py entries event now e).0) c
      ∙ evaluate_rules-fires py before after entry event now e b a

  -- The hits of the group of the event, the event included, within the window that ends at the time.
  abbrev pub in_window : CompiledRule → List (ℕ × Event) → ℕ → ℕ → Event → ℕ
  in_window entry events start w event = suc (
      length (
        keep (is_recent (span_of entry) (end_of events start + w))
          (hits_of entry (group_key py entry event) events start [])))

  -- After any stream of events with rising times, a loaded rule with a threshold fires on an event
  -- exactly if it is enabled, applies to the event and matches it, and the events of the stream that
  -- did so with the same group key within the window, this one included and counted up to 10,000,
  -- reach the threshold.
  pub evaluate-threshold :
      (before after : List CompiledRule) (entry : CompiledRule) (events : List (ℕ × Event))
      (start w : ℕ) (event : Event) (e : DetectionEngine)
      → e.compiled ≡ before ++ entry ∷ after
      → e.windows ≡ []
      → lacks py entry.rule.id before ≡ true
      → lacks py entry.rule.id after ≡ true
      → 1 < entry.threshold_count
      → fires py entry.rule.id
          (evaluate py event (end_of events start + w) (evaluate_all events start e)).0
        ≡ (is_candidate py entry event
            && leb entry.threshold_count
                (min max_window_entries (in_window entry events start w event)))
  unfolding window_of
  evaluate-threshold before after entry events start w event e c n b a h =
      let g = group_key py entry event in
      let t : leb entry.threshold_count 1 ≡ false = ground arith in
      let s : Tracked entry g start e [] =
        rw n (Follows-start max_window_entries (span_of entry) start) in
      let (l, f) = evaluate_all-Tracked before after entry g events start e [] t (c, b, a) s in
      let m =
        length-slide max_window_entries (span_of entry) (end_of events start)
          (end_of events start + w)
          (window_of entry.rule.id g (evaluate_all events start e).windows)
          (hits_of entry g events start []) f (omega arith) in
      evaluate-fires before after entry event (end_of events start + w)
        (evaluate_all events start e) l
      ∙ ap (λ x. is_candidate py entry event && x)
          (answer_reached entry.threshold_count
              (length (
                slide max_window_entries (span_of entry) (end_of events start + w)
                  (window_of entry.rule.id g (evaluate_all events start e).windows)))
              t
            ∙ ap (leb entry.threshold_count) m)

  -- A loaded rule with a threshold above 10,000 never fires, whatever the stream of events.
  pub evaluate_never :
      (before after : List CompiledRule) (entry : CompiledRule) (events : List (ℕ × Event))
      (start w : ℕ) (event : Event) (e : DetectionEngine)
      → e.compiled ≡ before ++ entry ∷ after
      → e.windows ≡ []
      → lacks py entry.rule.id before ≡ true
      → lacks py entry.rule.id after ≡ true
      → max_window_entries < entry.threshold_count
      → fires py entry.rule.id
          (evaluate py event (end_of events start + w) (evaluate_all events start e)).0
        ≡ false
  evaluate_never before after entry events start w event e c n b a h =
      evaluate-threshold before after entry events start w event e c n b a (omega arith)
      ∙ ap (λ x. is_candidate py entry event && x)
          (leb-false entry.threshold_count max_window_entries (in_window entry events start w event)
            h)
      ∙ and_false (is_candidate py entry event)

  -- A loaded rule without a threshold fires on its candidates.
  pub evaluate-candidate :
      (before after : List CompiledRule) (entry : CompiledRule) (event : Event) (now : ℕ)
      (e : DetectionEngine)
      → e.compiled ≡ before ++ entry ∷ after
      → lacks py entry.rule.id before ≡ true
      → lacks py entry.rule.id after ≡ true
      → entry.threshold_count ≤ 1
      → fires py entry.rule.id (evaluate py event now e).0 ≡ is_candidate py entry event
  evaluate-candidate before after entry event now e c b a h =
      let t : leb entry.threshold_count 1 ≡ true = ground arith in
      evaluate-fires before after entry event now e (c, b, a)
      ∙ rw t (and_true (is_candidate py entry event))

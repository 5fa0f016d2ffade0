-- ===== src/Bus/Accounts.antt =====
-- What becomes of the events that the bus delivers.
use thot_secure.Prelude.{
  ℕ, suc, true, false, List, zero, [], ◌∷◌, ◌++◌, ◌+◌, ◌≤◌, ◌≡◌, ◌⊎◌, ◌∙◌, ◌==◌, ltb, leb, not,
  length, length-append, ◌&&◌, arith, if◌then◌else◌, refl, Bool-cases, inl, inr,
}
use thot_secure.Detection.Engine.{Event}
use thot_secure.Bus.{
  Queue, Bus, new_bus, is_full, rest_of, offer, dispatch, publish, subscribe, held, discard,
  unsubscribe, stop, take_from, consume, Operation, publishing, subscribing, unsubscribing,
  consuming, stopping, perform, perform_all,
}

-- A queue with a size holds no more than it.
abbrev pub Fits : Queue → Type 0
Fits q = (q.maxsize ≡ 0) ⊎ (length q.events ≤ q.maxsize)

abbrev pub AllFit : List Queue → Type 0
AllFit [] = Unit
AllFit (q ∷ queues) = Fits q × AllFit queues

-- Every event that was delivered was dropped, taken, abandoned with its queue, or still waits.
abbrev pub Balanced : Bus → Type 0
Balanced b = b.delivered ≡ b.dropped + b.taken + b.abandoned + held b.subscribers

-- A full queue that fits has room once its oldest event is gone.
is_full-rest_of :
    (m : ℕ) (es : List Event)
    → ((m ≡ 0) ⊎ (length es ≤ m))
    → is_full m es ≡ true
    → (is_full m (rest_of es) ≡ false) × (suc (length (rest_of es)) ≡ length es) × (length es ≤ m)
is_full-rest_of zero es h f = ground arith
is_full-rest_of (suc m) es (inl z) f = absurd (omega arith)
is_full-rest_of (suc m) [] (inr h) f = ground arith
is_full-rest_of (suc m) (e ∷ es) (inr h) f = (ground arith, refl, h)

has_room-lt : (m n : ℕ) → not (m == 0) && leb m n ≡ false → (m ≡ 0) ⊎ (suc n ≤ m)
has_room-lt zero n e = inl refl
has_room-lt (suc m) n e = inr (ground arith)

length-snoc : (es : List Event) (event : Event) → length (es ++ event ∷ []) ≡ suc (length es)
length-snoc es event = length-append es (event ∷ []) ∙ (omega arith)

-- What the offer to one queue does to the counters.
abbrev Accounted : ℕ → ℕ → Bus → Bus → Type 0
Accounted before after b b' =
    (b'.delivered + b.dropped + before ≡ b'.dropped + b.delivered + after)
    × (b'.taken ≡ b.taken)
    × (b'.abandoned ≡ b.abandoned)

offer-account :
    (event : Event) (q : Queue) (b : Bus)
    → Fits q
    → let (q', b') = offer event q b in
      Fits q' × Accounted (length q.events) (length q'.events) b b'
unfolding offer
offer-account event q b h = elim (Bool-cases (is_full q.maxsize q.events)) [
  | inl e ↦
      let (room, l, fits) = is_full-rest_of q.maxsize q.events h e in
      let snoc = length-snoc (rest_of q.events) event in
      rw (e, room) (inr (omega arith), ((omega arith), refl, refl))
  | inr e ↦
      let snoc = length-snoc q.events event in
      rw (e, e)
        (
          (elim (has_room-lt q.maxsize (length q.events) e) [
            | inl z ↦ inl z
            | inr lt ↦ inr (omega arith)
          ]),
          ((omega arith), refl, refl),
        )
]

dispatch-account :
    (event : Event) (queues : List Queue) (b : Bus)
    → AllFit queues
    → let (queues', b') = dispatch event queues b in
      AllFit queues' × Accounted (held queues) (held queues') b b'
unfolding dispatch
dispatch-account event [] b h = (tt, ((omega arith), refl, refl))
dispatch-account event (q ∷ queues) b (h, hs) =
    let (fits, (account, t, a)) = offer-account event q b h in
    let (fits', (account', t', a')) = dispatch-account event queues ((offer event q b).1) hs in
    ((fits, fits'), (omega arith, t' ∙ t, a' ∙ a))

discard-account :
    (n : ℕ) (queues : List Queue)
    → AllFit queues
    → let (rest, lost) = discard n queues in AllFit rest × (held queues ≡ held rest + lost)
unfolding discard
discard-account n [] h = (tt, refl)
discard-account n (q ∷ queues) (h, hs) =
    let (fits, account) = discard-account n queues hs in
    elim (Bool-cases (q.number == n)) [
      | inl e ↦ rw e (fits, (omega arith))
      | inr e ↦ rw e ((h, fits), (omega arith))
    ]

take_first-account :
    (es : List Event)
    → (length es ≡ length (rest_of es) + (if ltb 0 (length es) then 1 else 0))
      × (length (rest_of es) ≤ length es)
take_first-account [] = (refl, omega arith)
take_first-account (e ∷ es) = (ground arith, omega arith)

take_from-account :
    (n : ℕ) (queues : List Queue)
    → AllFit queues
    → let (rest, got) = take_from n queues in AllFit rest × (held queues ≡ held rest + got)
unfolding take_from
take_from-account n [] h = (tt, refl)
take_from-account n (q ∷ queues) (h, hs) =
    let (fits, account) = take_from-account n queues hs in
    let (first, fewer) = take_first-account q.events in
    elim (Bool-cases (q.number == n)) [
      | inl e ↦ rw e (((elim h [ inl z ↦ inl z | inr le ↦ inr (omega arith) ]), hs), (omega arith))
      | inr e ↦ rw e ((h, fits), (omega arith))
    ]

-- Both together, for the invariant of the bus.
abbrev pub Sound : Bus → Type 0
Sound b = AllFit b.subscribers × Balanced b

perform-Sound : (o : Operation) (b : Bus) → Sound b → Sound (perform o b)
unfolding perform publish subscribe unsubscribe consume stop
perform-Sound (publishing event) b (fits, account) =
    let counted = record b { published = suc b.published; received = suc b.received } in
    let (fits', (account', t, a)) = dispatch-account event b.subscribers counted fits in
    (fits', omega arith)
perform-Sound (subscribing maxsize) b (fits, account) = ((inr (omega arith), fits), omega arith)
perform-Sound (unsubscribing n) b (fits, account) =
    let (fits', account') = discard-account n b.subscribers fits in (fits', omega arith)
perform-Sound (consuming n) b (fits, account) =
    let (fits', account') = take_from-account n b.subscribers fits in (fits', omega arith)
perform-Sound stopping b (fits, account) = (tt, omega arith)

perform_all-Sound_from : (os : List Operation) (b : Bus) → Sound b → Sound (perform_all os b)
perform_all-Sound_from [] b h = h
perform_all-Sound_from (o ∷ os) b h = perform_all-Sound_from os (perform o b) (perform-Sound o b h)

-- After any sequence of publications, subscriptions, unsubscriptions, takings by consumers and
-- stops of a new bus, every queue with a size holds no more events than it, and the events that
-- were delivered are as many as those that were dropped, taken by a consumer, abandoned with a
-- discarded queue, or that still wait in a queue.
pub perform_all-Sound :
    (queue_size : ℕ) (os : List Operation) → Sound (perform_all os (new_bus queue_size))
perform_all-Sound queue_size os = perform_all-Sound_from os (new_bus queue_size) (tt, refl)

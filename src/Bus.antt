-- ===== src/Bus.antt =====
-- The subscribers of bus/base.py and the publication of bus/memory.py. The queues are asyncio's: a
-- list of events, the oldest first, and a size, where 0 means no bound. A queue has a number in
-- place of its identity. `taken` counts the events that consumers got from queues, and `abandoned`
-- those that stood in a queue when it was discarded; the bus itself keeps neither. The source
-- holds the queues in a set: their order is of no account.
pub mod Accounts
use thot_secure.Prelude.{
  ℕ, suc, Bool, true, false, Option, none, some, List, [], ◌∷◌, ◌++◌, ◌+◌, ◌≤◌, ◌≡◌, ◌==◌, ltb, leb,
  not, length, length-append, ◌&&◌, arith, if◌then◌else◌, refl, Bool-cases, inl, inr,
}
use thot_secure.Detection.Engine.{Event}

pub record Queue : Type 0 where
  pub number : ℕ
  pub maxsize : ℕ
  pub events : List Event

pub record Bus : Type 0 where
  pub queue_size : ℕ
  pub subscribers : List Queue
  pub next_number : ℕ
  pub published : ℕ
  pub received : ℕ
  pub delivered : ℕ
  pub dropped : ℕ
  pub taken : ℕ
  pub abandoned : ℕ

abbrev pub new_bus : ℕ → Bus
new_bus queue_size = record {
  queue_size = queue_size;
  subscribers = [];
  next_number = 0;
  published = 0;
  received = 0;
  delivered = 0;
  dropped = 0;
  taken = 0;
  abandoned = 0;
}

-- queue.full()
abbrev pub is_full : ℕ → List Event → Bool
is_full maxsize events = not (maxsize == 0) && leb maxsize (length events)

abbrev pub rest_of : List Event → List Event
rest_of [] = []
rest_of (e ∷ events) = events

-- One queue of `_dispatch`: the oldest event makes room for the new one.
unfoldable pub offer : Event → Queue → Bus → Queue × Bus
offer event q b =
    let full = is_full q.maxsize q.events in
    let events = if full then rest_of q.events else q.events in
    let b' = if full then record b { dropped = suc b.dropped } else b in
    if is_full q.maxsize events
    then (record q { events = events }, record b' { dropped = suc b'.dropped })
    else (record q { events = events ++ event ∷ [] }, record b' { delivered = suc b'.delivered })

unfoldable pub dispatch : Event → List Queue → Bus → List Queue × Bus
dispatch event [] b = ([], b)
dispatch event (q ∷ queues) b =
    let (q', b') = offer event q b in
    let (queues', b'') = dispatch event queues b' in (q' ∷ queues', b'')

unfoldable pub publish : Event → Bus → Bus
publish event b =
    let counted = record b { published = suc b.published; received = suc b.received } in
    let (queues, b') = dispatch event b.subscribers counted in record b' { subscribers = queues }

-- maxsize or self.queue_size
abbrev pub size_or : ℕ → Option ℕ → ℕ
size_or queue_size none = queue_size
size_or queue_size (some n) = if n == 0 then queue_size else n

unfoldable pub subscribe : Option ℕ → Bus → Bus
subscribe maxsize b = record b {
  subscribers =
      record { number = b.next_number; maxsize = size_or b.queue_size maxsize; events = [] }
      ∷ b.subscribers;
  next_number = suc b.next_number;
}

abbrev pub held : List Queue → ℕ
held [] = 0
held (q ∷ queues) = length q.events + held queues

-- The queues without the numbered one, and the events that stood in it.
unfoldable pub discard : ℕ → List Queue → List Queue × ℕ
discard n [] = ([], 0)
discard n (q ∷ queues) =
    let (rest, lost) = discard n queues in
    if q.number == n then (rest, length q.events + lost) else (q ∷ rest, lost)

unfoldable pub unsubscribe : ℕ → Bus → Bus
unsubscribe n b =
    let (rest, lost) = discard n b.subscribers in
    record b { subscribers = rest; abandoned = b.abandoned + lost }

unfoldable pub stop : Bus → Bus
stop b = record b { subscribers = []; abandoned = b.abandoned + held b.subscribers }

-- A consumer takes the oldest event of a queue, if there is one.
unfoldable pub take_from : ℕ → List Queue → List Queue × ℕ
take_from n [] = ([], 0)
take_from n (q ∷ queues) =
    let (rest, got) = take_from n queues in
    if q.number == n
    then (record q { events = rest_of q.events } ∷ queues, if ltb 0 (length q.events) then 1 else 0)
    else (q ∷ rest, got)

unfoldable pub consume : ℕ → Bus → Bus
consume n b =
    let (rest, got) = take_from n b.subscribers in
    record b { subscribers = rest; taken = b.taken + got }

pub data Operation : Type 0 where
  publishing : Event → Operation
  subscribing : Option ℕ → Operation
  unsubscribing : ℕ → Operation
  consuming : ℕ → Operation
  stopping : Operation

unfoldable pub perform : Operation → Bus → Bus
perform (publishing event) b = publish event b
perform (subscribing maxsize) b = subscribe maxsize b
perform (unsubscribing n) b = unsubscribe n b
perform (consuming n) b = consume n b
perform stopping b = stop b

abbrev pub perform_all : List Operation → Bus → Bus
perform_all [] b = b
perform_all (o ∷ os) b = perform_all os (perform o b)

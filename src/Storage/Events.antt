-- ===== src/Storage/Events.antt =====
-- The table `events` of storage/store.py. A row is an event, whether it was processed, and the
-- order of the rows is that of insertion.
use thot_secure.Prelude.{
  ℕ, suc, String, Bool, true, false, Option, List, [], ◌∷◌, ◌++◌, str_eq, leb, not, any, find, keep,
  map, take, ◌&&◌, if◌then◌else◌,
}
use thot_secure.Detection.Engine.{Event}
use thot_secure.Value.{is_in}

pub record EventRow : Type 0 where
  pub event : Event
  pub processed : Bool

abbrev pub has_event : String → List EventRow → Bool
has_event event_id rows = any (λ r. str_eq r.event.event_id event_id) rows

-- INSERT OR IGNORE; whether a row was inserted.
unfoldable pub insert_event : Event → List EventRow → Bool × List EventRow
insert_event event rows =
    if has_event event.event_id rows
    then (false, rows)
    else (true, rows ++ record { event = event; processed = false } ∷ [])

-- `insert_events`: the number of rows inserted.
unfoldable pub insert_events : List Event → List EventRow → ℕ × List EventRow
insert_events [] rows = (0, rows)
insert_events (event ∷ events) rows =
    let (fresh, rows') = insert_event event rows in
    let (n, rows'') = insert_events events rows' in ((if fresh then suc n else n), rows'')

unfoldable pub get_event : String → String → List EventRow → Option EventRow
get_event tenant_id event_id rows =
    find (λ r. str_eq r.event.event_id event_id && str_eq r.event.tenant_id tenant_id) rows

-- ORDER BY ts ASC: the rows of one time stay in the order of insertion.
unfoldable pub insert_by_ts : EventRow → List EventRow → List EventRow
insert_by_ts r [] = r ∷ []
insert_by_ts r (s ∷ rows) =
    let rest = insert_by_ts r rows in if leb r.event.ts s.event.ts then r ∷ s ∷ rows else s ∷ rest

unfoldable pub by_ts : List EventRow → List EventRow
by_ts [] = []
by_ts (r ∷ rows) = insert_by_ts r (by_ts rows)

unfoldable pub pending_events : ℕ → List EventRow → List Event
pending_events limit rows =
    map (λ (r : EventRow). r.event)
      (take limit (by_ts (keep (λ (r : EventRow). not r.processed) rows)))

-- `mark_events_processed`
unfoldable pub mark_processed : List String → List EventRow → List EventRow
mark_processed ids [] = []
mark_processed ids (r ∷ rows) =
    (if is_in r.event.event_id ids then record r { processed = true } else r)
    ∷ mark_processed ids rows

-- ===== src/Dashboard/Journal/Read.antt =====
-- `EventJournal::read` and `read_filtered` (src/dashboard/event_log.rs).
use devicelane.Shared.{
  ℕ, suc, ◌+◌, ◌-◌, min, Bool, true, not, ◌||◌, Option, none, some, List, [], ◌∷◌, nat_eq, ◌==◌,
  ltb, if◌then◌else◌, is_some_and, saturating_add, retain,
}
use devicelane.Dashboard.Model.{ActivityEvent, EventCursor}
use devicelane.Dashboard.Journal.State.{
  Inner, StoredEvent, max_page_events, max_page_bytes, oldest_event,
}

pub record ReadLimit : Type 0 where
  pub max_events : ℕ
  pub max_bytes : ℕ

abbrev pub default_limit : ReadLimit
default_limit = record { max_events = max_page_events; max_bytes = max_page_bytes }

pub data EventRead : Type 0 where
  page : List ActivityEvent → EventCursor → EventRead
  cursor_ahead : EventCursor → EventRead
  resync_required : EventCursor → ℕ → EventRead
  limit_exceeded : EventRead

-- A page: its events and the sequence of its next cursor. `none` is `LimitExceeded`.
abbrev pub Page : Type 0
Page = Option (List ActivityEvent × ℕ)

abbrev pub push_front : ActivityEvent → Page → Page
push_front e none = none
push_front e (some (es, next)) = some (e ∷ es, next)

-- The loop of a read, where `count` events of `bytes` bytes are on the page and `next` is its
-- cursor so far. It gives what the rest of the loop adds to the page.
unfoldable pub fill : (ActivityEvent → Bool) → ℕ → ℕ → ℕ → ℕ → ℕ → List StoredEvent → Page
fill include most room count bytes next [] = some ([], next)
fill include most room count bytes next (entry ∷ rest) =
    let separator = if count == 0 then 0 else 1 in
    let skipped = fill include most room count bytes entry.cursor_sequence rest in
    let pushed = push_front entry.event (
      fill include most room (suc count) (bytes + (separator + entry.serialized_bytes))
        entry.cursor_sequence rest) in
    if count == most
    then some ([], next)
    else if not (include entry.event)
    then skipped
    else if ltb room (saturating_add (saturating_add bytes separator) entry.serialized_bytes)
    then (if count == 0 then none else some ([], next))
    else pushed

abbrev pub read_result : ℕ → Page → EventRead
read_result epoch none = limit_exceeded
read_result epoch (some (events, next)) = page events (record { epoch = epoch; sequence = next })

-- The entries after a cursor.
abbrev pub unread : ℕ → List StoredEvent → List StoredEvent
unread sequence = retain (λ entry. ltb sequence entry.cursor_sequence)

unfoldable pub read_filtered : Inner → EventCursor → ReadLimit → (ActivityEvent → Bool) → EventRead
read_filtered s cursor limit include =
    if not (cursor.epoch == s.epoch)
    then resync_required (at (elim (oldest_event s) [ none ↦ newest | some value ↦ value - 1 ]))
        s.snapshot_revision
    else if ltb newest cursor.sequence
    then cursor_ahead (at newest)
    else if is_some_and (oldest_event s) (λ oldest. ltb cursor.sequence (oldest - 1))
    then resync_required (at (elim (oldest_event s) [ none ↦ 0 | some value ↦ value - 1 ]))
        s.snapshot_revision
    else if event_limit == 0 || byte_limit == 0
    then limit_exceeded
    else read_result s.epoch
        (fill include event_limit byte_limit 0 2 cursor.sequence (unread cursor.sequence s.events))
  where
    newest : ℕ
    newest = s.next_cursor_sequence - 1

    at : ℕ → EventCursor
    at sequence = record { epoch = s.epoch; sequence = sequence }

    event_limit : ℕ
    event_limit = min limit.max_events max_page_events

    byte_limit : ℕ
    byte_limit = min limit.max_bytes max_page_bytes

unfoldable pub read : Inner → EventCursor → ReadLimit → EventRead
unfolding read_filtered
read s cursor limit = read_filtered s cursor limit (λ _. true)

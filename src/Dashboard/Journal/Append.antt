-- ===== src/Dashboard/Journal/Append.antt =====
-- `EventJournal::append`, `append_with_precommit`, `preflight_append` and
-- `restore_activity_sequence` (src/dashboard/event_log.rs). The precommit closure acts on a world
-- `W` that the journal does not see; `none` is a panic.
use devicelane.Shared.{
  ℕ, ◌+◌, ◌-◌, Bool, not, ◌&&◌, ◌||◌, Option, none, some, List, [], ◌∷◌, ◌++◌, String, len, Bytes,
  bytes_eq, nat_eq, string_eq, ◌==◌, ltb, leb, if◌then◌else◌, is_none, is_blank, length, Result, ok,
  err, ◌>>=◌, ◌>>◌, reject, ok_or, map_err, u64_max, checked_add,
}
use devicelane.Map.{Map, get, insert, remove, contains_key}
use devicelane.Dashboard.Model.{ActivityEvent, validate_event}
use devicelane.Dashboard.Journal.State.{Inner, StoredEvent, Codec, max_events, rotate_locked}

pub data AppendOutcome : Type 0 where
  appended duplicate_collapsed : AppendOutcome

pub data AppendError : Type 0 where
  invalid_event : String → AppendError
  empty_idempotency_key idempotency_key_too_long idempotency_conflict : AppendError
  non_monotonic_sequence : ℕ → AppendError
  sequence_overflow epoch_overflow : AppendError
  limit_exceeded : ℕ → ℕ → AppendError

pub data AppendTransactionError (P : Type 0) : Type 0 where
  append_error : AppendError → AppendTransactionError P
  precommit_error : P → AppendTransactionError P

-- The journal, the world and the result of an append.
abbrev pub Appending : Type 0 → Type 0 → Type 0
Appending W P = Inner × W × Result (AppendTransactionError P) AppendOutcome

-- An infallible precommit's errors are the journal's own.
abbrev pub infallible : AppendTransactionError ⊥ → AppendError
infallible (append_error e) = e
infallible (precommit_error never) = absurd never

-- What eviction leaves.
pub record Retained : Type 0 where
  pub events : List StoredEvent
  pub serialized_bytes : ℕ
  pub idempotency : Map String Bytes

-- The loop that pops the oldest events until one more fits. It panics on an empty journal, and
-- where the byte count would fall below zero.
unfoldable pub evict : ℕ → ℕ → List StoredEvent → ℕ → Map String Bytes → Option Retained
evict most room [] bytes keys =
    if leb most 0 || ltb room bytes
    then none
    else some (record { events = []; serialized_bytes = bytes; idempotency = keys })
evict most room (e ∷ es) bytes keys =
    let rest =
      if ltb bytes e.serialized_bytes
      then none
      else evict most room es (bytes - e.serialized_bytes) (remove e.idempotency_key keys) in
    if leb most (length (e ∷ es)) || ltb room bytes
    then rest
    else some (record { events = e ∷ es; serialized_bytes = bytes; idempotency = keys })

-- The sequence that the event must carry; `none` when the activity's last one is `u64::MAX`.
unfoldable pub expected_sequence : Inner → String → Option ℕ
expected_sequence s activity = elim (get activity s.activity_sequences) [
  | none ↦ some 1
  | some value ↦ checked_add value 1
]

-- A new activity over a full table starts a new epoch.
unfoldable pub needs_rotation : Inner → ActivityEvent → Bool
needs_rotation s event =
    is_none (get event.activity_id s.activity_sequences)
    && leb max_events (length s.activity_sequences)

unfoldable pub rotate_for : Inner → ActivityEvent → Result AppendError Inner
unfolding needs_rotation rotate_locked
rotate_for s event =
    if needs_rotation s event
    then (do
      epoch ← ok_or (checked_add s.epoch 1) epoch_overflow
      let rotated = rotate_locked s epoch s.snapshot_revision
      ok (elim (get event.activity_id s.activity_sequences) [
        | none ↦ rotated
        | some previous ↦ record rotated {
          activity_sequences = insert event.activity_id previous rotated.activity_sequences;
        }
      ]))
    else ok s

-- The checks between the duplicate test and the precommit, and the rotation.
unfoldable pub position : Inner → ActivityEvent → ℕ → Result AppendError Inner
unfolding expected_sequence rotate_for
position s event size = do
  reject (event.sequence == u64_max) sequence_overflow
  reject (s.max_events == 0 || ltb s.max_bytes size) (limit_exceeded size s.max_bytes)
  expected ← ok_or (expected_sequence s event.activity_id) sequence_overflow
  reject (not (event.sequence == expected)) (non_monotonic_sequence expected)
  rotate_for s event

module _ (c : Codec) where
  -- The checks of the key and the event, and the event's JSON.
  unfoldable pub admission : String → ActivityEvent → Result AppendError Bytes
  unfolding validate_event is_blank
  admission key event = do
    map_err (λ e. invalid_event e.code) (validate_event event)
    reject (is_blank key) empty_idempotency_key
    reject (ltb 256 (len key)) idempotency_key_too_long
    map_err invalid_event (c.to_vec event)

  unfoldable pub publish : Inner → String → ActivityEvent → Bytes → ℕ → Retained → Inner
  publish s key event json next kept = record s {
    next_cursor_sequence = next;
    events = kept.events ++ stored ∷ [];
    serialized_bytes = kept.serialized_bytes + length json;
    idempotency = insert key (c.sha256 json) kept.idempotency;
    activity_sequences = insert event.activity_id event.sequence s.activity_sequences;
  }
    where
      stored : StoredEvent
      stored = record {
        cursor_sequence = s.next_cursor_sequence;
        event = event;
        serialized_bytes = length json;
        idempotency_key = key;
      }

  module _ {W P : Type 0} where
    -- After the precommit has run: its error, or eviction and publication.
    unfoldable pub settle :
        Inner
        → String
        → ActivityEvent
        → Bytes
        → ℕ
        → W × Result P (Unit {0})
        → Option (Appending W P)
    unfolding evict publish
    settle s key event json next (w, err p) = some (s, w, err (precommit_error p))
    settle s key event json next (w, ok _) =
        elim (evict s.max_events (s.max_bytes - length json) s.events s.serialized_bytes
          s.idempotency) [
            | none ↦ none
            | some kept ↦ some (publish s key event json next kept, w, ok appended)
          ]

    unfoldable pub reserve :
        Inner
        → String
        → ActivityEvent
        → Bytes
        → (W → W × Result P (Unit {0}))
        → W
        → Option (Appending W P)
    unfolding settle
    reserve s key event json precommit w = elim (checked_add s.next_cursor_sequence 1) [
      | none ↦ some (s, w, err (append_error sequence_overflow))
      | some next ↦ settle s key event json next (precommit w)
    ]

    unfoldable pub append_locked :
        Inner
        → String
        → ActivityEvent
        → Bytes
        → (W → W × Result P (Unit {0}))
        → W
        → Option (Appending W P)
    unfolding position reserve
    append_locked s key event json precommit w = elim (get key s.idempotency) [
      | some digest ↦ some (
        s,
        w,
        (if digest == c.sha256 json
            then ok duplicate_collapsed
            else err (append_error idempotency_conflict)),
      )
      | none ↦ elim (position s event (length json)) [
        | err e ↦ some (s, w, err (append_error e))
        | ok placed ↦ reserve placed key event json precommit w
      ]
    ]

    unfoldable pub append_with_precommit :
        Inner → String → ActivityEvent → (W → W × Result P (Unit {0})) → W → Option (Appending W P)
    unfolding admission append_locked
    append_with_precommit s key event precommit w = elim (admission key event) [
      | err e ↦ some (s, w, err (append_error e))
      | ok json ↦ append_locked s key event json precommit w
    ]

  -- `append`: a precommit that does nothing and cannot fail.
  unfoldable pub append :
      Inner → String → ActivityEvent → Option (Inner × Result AppendError AppendOutcome)
  unfolding append_with_precommit
  append s key event = elim (append_with_precommit {P = ⊥} s key event (λ w. (w, ok tt)) tt) [
    | none ↦ none
    | some (after, _, result) ↦ some (after, map_err infallible result)
  ]

  unfoldable pub preflight_append : Inner → String → ActivityEvent → Result AppendError (Unit {0})
  unfolding admission expected_sequence
  preflight_append s key event = do
    json ← admission key event
    reject (event.sequence == u64_max) sequence_overflow
    reject (s.max_events == 0 || ltb s.max_bytes (length json))
        (limit_exceeded (length json) s.max_bytes)
    elim (get key s.idempotency) [
      | some digest ↦ reject (not (digest == c.sha256 json)) idempotency_conflict
      | none ↦ (do
        expected ← ok_or (expected_sequence s event.activity_id) sequence_overflow
        reject (not (event.sequence == expected)) (non_monotonic_sequence expected))
    ]

unfoldable pub restore_activity_sequence :
    Inner → String → ℕ → Inner × Result AppendError (Unit {0})
restore_activity_sequence s activity sequence =
    if sequence == 0 || sequence == u64_max
    then (s, err sequence_overflow)
    else if leb max_events (length s.activity_sequences)
        && not (contains_key activity s.activity_sequences)
    then (s, err (limit_exceeded 0 max_events))
    else elim (get activity s.activity_sequences) [
      | none ↦ restored
      | some existing ↦ if existing == sequence then restored else (s, err idempotency_conflict)
    ]
  where
    restored : Inner × Result AppendError (Unit {0})
    restored =
        (record s { activity_sequences = insert activity sequence s.activity_sequences }, ok tt)

-- ===== src/Dashboard/Journal/State.antt =====
-- The journal's state, its constructors and its statistics (src/dashboard/event_log.rs).
use devicelane.Shared.{
  ℕ, ◌-◌, min, Option, some, none, List, [], ◌∷◌, leb, String, Bytes, length, if◌then◌else◌, Result,
  ok, err,
}
use devicelane.Map.{Map}
use devicelane.Dashboard.Model.{ActivityEvent, EventCursor}

abbrev pub max_events : ℕ
max_events = 1000

abbrev pub max_event_bytes : ℕ
max_event_bytes = 8388608

abbrev pub max_page_events : ℕ
max_page_events = 256

abbrev pub max_page_bytes : ℕ
max_page_bytes = 262144

abbrev pub max_subscribers : ℕ
max_subscribers = 32

abbrev pub subscriber_idle_ms : ℕ
subscriber_idle_ms = 15000

-- `serde_json::to_vec` and `Sha256::digest`, which the journal calls.
pub record Codec : Type 0 where
  pub to_vec : ActivityEvent → Result String Bytes
  pub sha256 : Bytes → Bytes

pub record StoredEvent : Type 0 where
  pub cursor_sequence : ℕ
  pub event : ActivityEvent
  pub serialized_bytes : ℕ
  pub idempotency_key : String

pub record Subscriber : Type 0 where
  pub acknowledged : EventCursor
  pub last_active_ms : ℕ

-- `idempotency` maps a key to its record's `event_digest`.
pub record Inner : Type 0 where
  pub epoch : ℕ
  pub snapshot_revision : ℕ
  pub next_cursor_sequence : ℕ
  pub events : List StoredEvent
  pub serialized_bytes : ℕ
  pub idempotency : Map String Bytes
  pub activity_sequences : Map String ℕ
  pub subscribers : Map String Subscriber
  pub max_events : ℕ
  pub max_bytes : ℕ

unfoldable pub with_bounds : ℕ → ℕ → ℕ → ℕ → Inner
with_bounds epoch snapshot_revision events bytes = record {
  epoch = epoch;
  snapshot_revision = snapshot_revision;
  next_cursor_sequence = 1;
  events = [];
  serialized_bytes = 0;
  idempotency = [];
  activity_sequences = [];
  subscribers = [];
  max_events = min events max_events;
  max_bytes = min bytes max_event_bytes;
}

unfoldable pub new : ℕ → ℕ → Inner
unfolding with_bounds
new epoch snapshot_revision = with_bounds epoch snapshot_revision max_events max_event_bytes

unfoldable pub rotate_locked : Inner → ℕ → ℕ → Inner
rotate_locked s epoch snapshot_revision = record s {
  epoch = epoch;
  snapshot_revision = snapshot_revision;
  next_cursor_sequence = 1;
  events = [];
  serialized_bytes = 0;
  idempotency = [];
  activity_sequences = [];
  subscribers = [];
}

pub data RotateError : Type 0 where
  epoch_not_increasing : RotateError

unfoldable pub rotate_epoch : Inner → ℕ → ℕ → Inner × Result RotateError (Unit {0})
unfolding rotate_locked
rotate_epoch s epoch snapshot_revision =
    if leb epoch s.epoch
    then (s, err epoch_not_increasing)
    else (rotate_locked s epoch snapshot_revision, ok tt)

abbrev pub oldest_of : List StoredEvent → Option ℕ
oldest_of [] = none
oldest_of (e ∷ es) = some e.cursor_sequence

abbrev pub oldest_event : Inner → Option ℕ
oldest_event s = oldest_of s.events

pub record JournalStats : Type 0 where
  pub epoch : ℕ
  pub events : ℕ
  pub serialized_bytes : ℕ
  pub oldest_sequence : Option ℕ
  pub newest_sequence : ℕ
  pub subscribers : ℕ
  pub idempotency_entries : ℕ
  pub activity_entries : ℕ

unfoldable pub stats : Inner → JournalStats
stats s = record {
  epoch = s.epoch;
  events = length s.events;
  serialized_bytes = s.serialized_bytes;
  oldest_sequence = oldest_event s;
  newest_sequence = s.next_cursor_sequence - 1;
  subscribers = length s.subscribers;
  idempotency_entries = length s.idempotency;
  activity_entries = length s.activity_sequences;
}

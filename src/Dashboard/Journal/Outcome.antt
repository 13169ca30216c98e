-- ===== src/Dashboard/Journal/Outcome.antt =====
-- What an append says that it did, by its result (src/dashboard/event_log.rs).
use devicelane.Shared.{
  ℕ, ◌+◌, ◌≡◌, none, some, [], ◌∷◌, ◌++◌, String, string_eq, drop, if◌then◌else◌, Result, ok, err,
  u64_max,
}
use devicelane.Map.{get, insert}
use devicelane.Dashboard.Model.{ActivityEvent}
use devicelane.Dashboard.Journal.State.{Inner, StoredEvent, Codec, rotate_locked}
use devicelane.Dashboard.Journal.Append.{
  Appending, appended, duplicate_collapsed, append_error, precommit_error, needs_rotation,
  expected_sequence,
}
use devicelane.Dashboard.Journal.Invariant.{event_digest}

-- The journal that the event goes into: a new epoch where the activity table is full.
abbrev pub base : Inner → ActivityEvent → Inner
base s event =
    if needs_rotation s event then rotate_locked s (s.epoch + 1) s.snapshot_revision else s

-- The entry that the event becomes.
abbrev pub entry : Inner → String → ActivityEvent → ℕ → StoredEvent
entry s key event size = record {
  cursor_sequence = s.next_cursor_sequence;
  event = event;
  serialized_bytes = size;
  idempotency_key = key;
}

-- `after` is `s` with the event as its newest entry, and perhaps without its oldest ones.
pub record Publishes (c : Codec) (s : Inner) (key : String) (event : ActivityEvent) (after : Inner)
    : Type 0 where
  pub size : ℕ
  pub removed : ℕ
  pub events : after.events ≡ drop removed s.events ++ entry s key event size ∷ []
  pub next : after.next_cursor_sequence ≡ s.next_cursor_sequence + 1
  pub epoch : after.epoch ≡ s.epoch
  pub subscribers : after.subscribers ≡ s.subscribers
  pub recorded :
      after.activity_sequences ≡ insert event.activity_id event.sequence s.activity_sequences
  pub digest : get key after.idempotency ≡ some (event_digest c event)

module _ (c : Codec) {W P : Type 0} where
  abbrev pub Transacts :
      Inner → String → ActivityEvent → (W → W × Result P (Unit {0})) → W → Appending W P → Type 0
  Transacts s key event precommit w (after, w', ok appended) =
      (get key s.idempotency ≡ none)
      × (expected_sequence s event.activity_id ≡ some event.sequence)
      × (precommit w ≡ (w', ok tt))
      × Publishes c (base s event) key event after
  Transacts s key event precommit w (after, w', ok duplicate_collapsed) =
      (get key s.idempotency ≡ some (event_digest c event)) × (after ≡ s) × (w' ≡ w)
  Transacts s key event precommit w (after, w', err (append_error e)) = (after ≡ s) × (w' ≡ w)
  Transacts s key event precommit w (after, w', err (precommit_error p)) =
      (precommit w ≡ (w', err p)) × (after ≡ base s event)

  -- What is left of an append once the event has its place in `s`.
  unfoldable pub Settles :
      Inner → String → ActivityEvent → (W → W × Result P (Unit {0})) → W → Appending W P → Type 0
  Settles s key event precommit w (after, w', ok appended) =
      (precommit w ≡ (w', ok tt)) × Publishes c s key event after
  Settles s key event precommit w (after, w', ok duplicate_collapsed) = ⊥
  Settles s key event precommit w (after, w', err (append_error e)) =
      (after ≡ s) × (w' ≡ w) × (s.next_cursor_sequence ≡ u64_max)
  Settles s key event precommit w (after, w', err (precommit_error p)) =
      (precommit w ≡ (w', err p)) × (after ≡ s)

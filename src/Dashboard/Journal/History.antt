-- ===== src/Dashboard/Journal/History.antt =====
-- Sequences of calls of the journal (src/dashboard/event_log.rs). A precommit of an append in a
-- history is its outcome.
use devicelane.Shared.{
  ℕ, ◌<◌, ◌≡◌, refl, Bool-cases, inl, inr, Option, Option-cases, none, some, List, [], ◌∷◌, String,
  string_eq, nat_eq, length, length-retain-le, leb, All-retain, Result, arith,
}
use devicelane.Map.{get, insert, length-insert, insert-IsMap, retain-IsMap, All-insert, All-get}
use devicelane.Dashboard.Model.{ActivityEvent, EventCursor}
use devicelane.Dashboard.Journal.State.{
  Inner, Codec, Subscriber, rotate_epoch, max_subscribers, max_events,
}
use devicelane.Dashboard.Journal.Append.{append_with_precommit, restore_activity_sequence}
use devicelane.Dashboard.Journal.Subscribers.{subscribe, acknowledge, refresh, expire_idle}
use devicelane.Dashboard.Journal.Invariant.{IsJournal, rotate_locked-IsJournal}
use devicelane.Dashboard.Journal.Transaction.{append_with_precommit_lem}

-- A call of the journal.
pub data Call : Type 0 where
  appends : String → ActivityEvent → Result (Unit {0}) (Unit {0}) → Call
  subscribes : String → ℕ → Call
  acknowledges : String → EventCursor → ℕ → Call
  expires : ℕ → Call
  rotates : ℕ → ℕ → Call
  restores : String → ℕ → Call

module _ (c : Codec) where
  unfoldable pub step : Inner → Call → Option Inner
  step s (appends key event outcome) =
      elim (append_with_precommit c {W = Unit {0}} s key event (λ w. (w, outcome)) tt) [
        | none ↦ none
        | some q ↦ some q.0
      ]
  step s (subscribes id now_ms) = some (subscribe s id now_ms).0
  step s (acknowledges id cursor now_ms) = some (acknowledge s id cursor now_ms).0
  step s (expires now_ms) = some (expire_idle s now_ms).0
  step s (rotates epoch revision) = some (rotate_epoch s epoch revision).0
  step s (restores activity sequence) = some (restore_activity_sequence s activity sequence).0

  -- `none` if a call panics.
  unfoldable pub run : Inner → List Call → Option Inner
  run s [] = some s
  run s (call ∷ calls) = elim (step s call) [ none ↦ none | some after ↦ run after calls ]

  module _ (s : Inner) (v : IsJournal c s) where
    -- The part of the invariant that the subscribers have to meet.
    HeardBy : Subscriber → Type 0
    HeardBy r =
        (r.acknowledged.epoch ≡ s.epoch) × (r.acknowledged.sequence < s.next_cursor_sequence)

    subscribers-IsJournal :
        (id : String) (r : Subscriber)
        → HeardBy r
        → (get id s.subscribers ≡ none → length s.subscribers < max_subscribers)
        → IsJournal c (record s { subscribers = insert id r s.subscribers })
    unfolding HeardBy
    subscribers-IsJournal id r h room = record {
      log = v.log;
      in_u64 = v.in_u64;
      few = v.few;
      small = v.small;
      few_at_most = v.few_at_most;
      small_at_most = v.small_at_most;
      activities = v.activities;
      audience = ground (arith, length-insert id r s.subscribers, v.audience, room);
      unique = insert-IsMap id r s.subscribers v.unique;
      heard = All-insert HeardBy id r s.subscribers v.heard h;
    }

    activities-IsJournal :
        (activity : String) (sequence : ℕ)
        → (get activity s.activity_sequences ≡ none → length s.activity_sequences < max_events)
        → IsJournal c
            (record s { activity_sequences = insert activity sequence s.activity_sequences })
    activities-IsJournal activity sequence room = record {
      log = v.log;
      in_u64 = v.in_u64;
      few = v.few;
      small = v.small;
      few_at_most = v.few_at_most;
      small_at_most = v.small_at_most;
      activities =
          ground (arith, length-insert activity sequence s.activity_sequences, v.activities, room);
      audience = v.audience;
      unique = v.unique;
      heard = v.heard;
    }

    subscribe-IsJournal : (id : String) (now_ms : ℕ) → IsJournal c (subscribe s id now_ms).0
    unfolding subscribe HeardBy
    subscribe-IsJournal id now_ms = elim (Option-cases (get id s.subscribers)) [
      | inr (r, there) ↦ rw there v
      | inl new ↦ elim (Bool-cases (leb max_subscribers (length s.subscribers))) [
        | inl full ↦ rw (new, full) v
        | inr room ↦
            rw (new, room)
              (subscribers-IsJournal id _ (refl, omega (arith, v.log.below))
                (λ _. ground (arith, room)))
      ]
    ]

    pub acknowledge_cases :
        (P : Inner → Type 0) (id : String) (cursor : EventCursor) (now_ms : ℕ)
        → P s
        → ((r : Subscriber)
            → get id s.subscribers ≡ some r
            → cursor.epoch ≡ s.epoch
            → cursor.sequence < s.next_cursor_sequence
            → P (record s { subscribers = insert id (refresh r cursor now_ms) s.subscribers }))
        → P (acknowledge s id cursor now_ms).0
    unfolding acknowledge
    acknowledge_cases P id cursor now_ms refused moved =
        elim (Option-cases (get id s.subscribers)) [
          | inl missing ↦ ground (arith, missing)
          | inr (r, there) ↦ ground (arith, there, moved r there)
        ]

    acknowledge-IsJournal :
        (id : String) (cursor : EventCursor) (now_ms : ℕ)
        → IsJournal c (acknowledge s id cursor now_ms).0
    unfolding refresh HeardBy
    acknowledge-IsJournal id cursor now_ms =
        acknowledge_cases (IsJournal c) id cursor now_ms v λ r there epoch ahead.
          subscribers-IsJournal id (refresh r cursor now_ms)
            (ground (arith, epoch, ahead, All-get HeardBy id r s.subscribers v.heard there))
            (λ missing. absurd (cc (missing, there)))

    expire_idle-IsJournal : (now_ms : ℕ) → IsJournal c (expire_idle s now_ms).0
    unfolding expire_idle
    expire_idle-IsJournal now_ms = record {
      log = v.log;
      in_u64 = v.in_u64;
      few = v.few;
      small = v.small;
      few_at_most = v.few_at_most;
      small_at_most = v.small_at_most;
      activities = v.activities;
      audience = omega (arith, length-retain-le _ s.subscribers, v.audience);
      unique = retain-IsMap _ s.subscribers v.unique;
      heard = All-retain _ _ s.subscribers v.heard;
    }

    rotate_epoch-IsJournal : (epoch revision : ℕ) → IsJournal c (rotate_epoch s epoch revision).0
    unfolding rotate_epoch
    rotate_epoch-IsJournal epoch revision = elim (Bool-cases (leb epoch s.epoch)) [
      | inl old ↦ rw old v
      | inr new ↦ rw new (rotate_locked-IsJournal c s epoch revision v)
    ]

    pub restore_cases :
        (P : Inner → Type 0) (activity : String) (sequence : ℕ)
        → P s
        → ((get activity s.activity_sequences ≡ none → length s.activity_sequences < max_events)
            → P (record s { activity_sequences = insert activity sequence s.activity_sequences }))
        → P (restore_activity_sequence s activity sequence).0
    unfolding restore_activity_sequence
    restore_cases P activity sequence refused restored =
        elim (Option-cases (get activity s.activity_sequences)) [
          | inl new ↦ ground (arith, new, restored)
          | inr (old, there) ↦
              ground (arith, there, restored (λ missing. absurd (cc (missing, there))))
        ]

    restore-IsJournal :
        (activity : String) (sequence : ℕ)
        → IsJournal c (restore_activity_sequence s activity sequence).0
    restore-IsJournal activity sequence =
        restore_cases (IsJournal c) activity sequence v (activities-IsJournal activity sequence)

    -- A call on a journal returns, with a journal.
    pub step-IsJournal :
        (call : Call) → (after : Inner) × (step s call ≡ some after) × IsJournal c after
    unfolding step
    step-IsJournal (appends key event outcome) =
        let (q, computed, kept, done) =
          append_with_precommit_lem c s key event (λ (w : Unit {0}). (w, outcome)) tt v in
        (q.0, rw (computed, step), kept)
    step-IsJournal (subscribes id now_ms) = (_, refl, subscribe-IsJournal id now_ms)
    step-IsJournal (acknowledges id cursor now_ms) =
        (_, refl, acknowledge-IsJournal id cursor now_ms)
    step-IsJournal (expires now_ms) = (_, refl, expire_idle-IsJournal now_ms)
    step-IsJournal (rotates epoch revision) = (_, refl, rotate_epoch-IsJournal epoch revision)
    step-IsJournal (restores activity sequence) = (_, refl, restore-IsJournal activity sequence)

  -- From a journal that meets the invariant, any sequence of appends, subscriptions,
  -- acknowledgements, expiries, rotations and restorations returns without a panic and leaves a
  -- journal that meets it.
  pub run-IsJournal :
      (s : Inner) (calls : List Call)
      → IsJournal c s
      → (after : Inner) × (run s calls ≡ some after) × IsJournal c after
  unfolding run
  run-IsJournal s [] v = (s, refl, v)
  run-IsJournal s (call ∷ calls) v =
      let (next, stepped, kept) = step-IsJournal s v call in
      let (after, ran, done) = run-IsJournal next calls kept in (after, rw (stepped, run) ran, done)

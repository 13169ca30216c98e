-- ===== src/Dashboard/Journal/Attendance.antt =====
-- How long a subscriber stays (src/dashboard/event_log.rs).
use devicelane.Shared.{
  ℕ, ◌+◌, ◌≤◌, ◌<◌, ◌≡◌, refl, subst, inl, inr, ◌⊎◌, Bool-cases, Option-cases, some, List, [], ◌∷◌,
  String, string_eq, nat_eq, ◌==◌, leb, saturating_sub, length, All, Result, ok, err, arith,
}
use devicelane.Map.{get, insert, get-insert, get-insert_new, get-retain}
use devicelane.Dashboard.Model.{ActivityEvent, EventCursor}
use devicelane.Dashboard.Journal.State.{
  Inner, Codec, Subscriber, rotate_locked, rotate_epoch, subscriber_idle_ms, max_subscribers,
}
use devicelane.Dashboard.Journal.Append.{
  Appending, appended, duplicate_collapsed, append_error, precommit_error, needs_rotation,
  restore_activity_sequence,
}
use devicelane.Dashboard.Journal.Subscribers.{subscribe, acknowledge, refresh, expire_idle}
use devicelane.Dashboard.Journal.Invariant.{IsJournal}
use devicelane.Dashboard.Journal.Outcome.{base, Transacts}
use devicelane.Dashboard.Journal.Transaction.{append_with_precommit_lem}
use devicelane.Dashboard.Journal.History.{
  Call, appends, subscribes, acknowledges, expires, rotates, restores, step, run, acknowledge_cases,
  restore_cases, step-IsJournal,
}

-- The subscriber is there, has acknowledged at least up to `floor`, and was active at `from` or
-- later.
pub record Attends (id : String) (floor from : ℕ) (s : Inner) : Type 0 where
  pub subscriber : Subscriber
  pub there : get id s.subscribers ≡ some subscriber
  pub ahead : floor ≤ subscriber.acknowledged.sequence
  pub active : from ≤ subscriber.last_active_ms

-- Acknowledgements are not before `from`, and expiries not later than the idle limit after it.
abbrev pub InTime : ℕ → Call → Type 0
InTime from (acknowledges id cursor now_ms) = from ≤ now_ms
InTime from (expires now_ms) = now_ms ≤ from + subscriber_idle_ms
InTime from (appends key event outcome) = Unit
InTime from (subscribes id now_ms) = Unit
InTime from (rotates epoch revision) = Unit
InTime from (restores activity sequence) = Unit

-- `t` is in a later epoch, or in the same one, where it has the subscriber if `s` has it.
abbrev pub Stays : String → ℕ → ℕ → Inner → Inner → Type 0
Stays id floor from s t =
    (s.epoch < t.epoch)
    ⊎ ((t.epoch ≡ s.epoch) × (Attends id floor from s → Attends id floor from t))

module _ (id : String) (floor from : ℕ) where
  Attends-same :
      (s t : Inner)
      → t.subscribers ≡ s.subscribers
      → Attends id floor from s
      → Attends id floor from t
  Attends-same s t same a = record {
    subscriber = a.subscriber;
    there = cc (same, a.there);
    ahead = a.ahead;
    active = a.active;
  }

  base-Stays : (s : Inner) (event : ActivityEvent) → Stays id floor from s (base s event)
  unfolding rotate_locked
  base-Stays s event = elim (Bool-cases (needs_rotation s event)) [
    | inl rotates_now ↦ rw rotates_now (inl (omega arith))
    | inr stays ↦ rw stays (inr (refl, λ a. a))
  ]

  Stays-same :
      (s m t : Inner)
      → t.epoch ≡ m.epoch
      → t.subscribers ≡ m.subscribers
      → Stays id floor from s m
      → Stays id floor from s t
  Stays-same s m t epoch same (inl later) = inl (omega (arith, later, epoch))
  Stays-same s m t epoch same (inr (at, keeps)) =
      inr (cc (epoch, at), λ a. Attends-same m t same (keeps a))

  module _ (c : Codec) (s : Inner) where
    Transacts-Stays :
        (key : String) (event : ActivityEvent)
        (precommit : Unit {0} → Unit {0} × Result (Unit {0}) (Unit {0}))
        (q : Appending (Unit {0}) (Unit {0}))
        → Transacts c s key event precommit tt q
        → Stays id floor from s q.0
    Transacts-Stays key event precommit (t, w, ok appended) (_, _, _, p) =
        Stays-same s (base s event) t p.epoch p.subscribers (base-Stays s event)
    Transacts-Stays key event precommit (t, w, ok duplicate_collapsed) (_, same, _) =
        rw same (inr (refl, λ a. a))
    Transacts-Stays key event precommit (t, w, err (append_error e)) (same, _) =
        rw same (inr (refl, λ a. a))
    Transacts-Stays key event precommit (t, w, err (precommit_error p)) (_, same) =
        rw same (base-Stays s event)

    subscribe-Attends : (j : String) (now_ms : ℕ) → Stays id floor from s (subscribe s j now_ms).0
    unfolding subscribe
    subscribe-Attends j now_ms = elim (Option-cases (get j s.subscribers)) [
      | inr (r, there) ↦ rw there (inr (refl, λ a. a))
      | inl new ↦ elim (Bool-cases (leb max_subscribers (length s.subscribers))) [
        | inl full ↦ rw (new, full) (inr (refl, λ a. a))
        | inr room ↦
            rw (new, room)
              (inr (
                refl,
                λ a. record {
                  subscriber = a.subscriber;
                  there = get-insert_new j id _ a.subscriber s.subscribers new a.there;
                  ahead = a.ahead;
                  active = a.active;
                },
              ))
      ]
    ]

    refresh-Attends :
        (j : String) (cursor : EventCursor) (now_ms : ℕ) (r : Subscriber)
        → from ≤ now_ms
        → get j s.subscribers ≡ some r
        → Attends id floor from s
        → Attends id floor from
            (record s { subscribers = insert j (refresh r cursor now_ms) s.subscribers })
    unfolding refresh
    refresh-Attends j cursor now_ms r in_time there a = elim (Bool-cases (j == id)) [
      | inl same ↦
          let is : r ≡ a.subscriber = ground (arith, same, there, a.there) in
          record {
            subscriber = refresh r cursor now_ms;
            there = ground (arith, same, get-insert j id (refresh r cursor now_ms) s.subscribers);
            ahead = ground (arith, is, a.ahead);
            active = in_time;
          }
      | inr other ↦ record {
        subscriber = a.subscriber;
        there =
            ground (arith, other, a.there, get-insert j id (refresh r cursor now_ms) s.subscribers);
        ahead = a.ahead;
        active = a.active;
      }
    ]

    expire-Stays :
        (now_ms : ℕ)
        → now_ms ≤ from + subscriber_idle_ms
        → IsJournal c s
        → Stays id floor from s (expire_idle s now_ms).0
    unfolding expire_idle
    expire-Stays now_ms in_time v = inr (
      refl,
      λ a. record {
        subscriber = a.subscriber;
        there = ground (
          arith,
          get-retain (λ r. leb (saturating_sub now_ms r.last_active_ms) subscriber_idle_ms) id
              s.subscribers v.unique,
          a.there,
          a.active,
          in_time,
        );
        ahead = a.ahead;
        active = a.active;
      },
    )

    rotate-Stays : (epoch revision : ℕ) → Stays id floor from s (rotate_epoch s epoch revision).0
    unfolding rotate_epoch rotate_locked
    rotate-Stays epoch revision = elim (Bool-cases (leb epoch s.epoch)) [
      | inl old ↦ rw old (inr (refl, λ a. a))
      | inr new ↦ rw new (inl (ground (arith, new)))
    ]

    arrive : (m t : Inner) → Stays id floor from s m → some m ≡ some t → Stays id floor from s t
    arrive m t stays h =
        let same : m ≡ t = ground (arith, h) in subst (Stays id floor from s) same stays

    -- A call in time leads to a later epoch, or leaves the subscriber.
    step-Stays :
        (call : Call) (t : Inner)
        → InTime from call
        → IsJournal c s
        → step c s call ≡ some t
        → Stays id floor from s t
    unfolding step
    step-Stays (appends key event outcome) t in_time v h =
        let (q, computed, kept, done) =
          append_with_precommit_lem c s key event (λ (w : Unit {0}). (w, outcome)) tt v in
        arrive q.0 t (Transacts-Stays key event (λ (w : Unit {0}). (w, outcome)) q done)
          (ground (arith, computed, h))
    step-Stays (subscribes j now_ms) t in_time v h =
        arrive (subscribe s j now_ms).0 t (subscribe-Attends j now_ms) h
    step-Stays (acknowledges j cursor now_ms) t in_time v h =
        arrive (acknowledge s j cursor now_ms).0 t
          (acknowledge_cases c s v (Stays id floor from s) j cursor now_ms (inr (refl, λ a. a))
            λ r there epoch below. inr (refl, refresh-Attends j cursor now_ms r in_time there))
          h
    step-Stays (expires now_ms) t in_time v h =
        arrive (expire_idle s now_ms).0 t (expire-Stays now_ms in_time v) h
    step-Stays (rotates epoch revision) t in_time v h =
        arrive (rotate_epoch s epoch revision).0 t (rotate-Stays epoch revision) h
    step-Stays (restores activity sequence) t in_time v h =
        arrive (restore_activity_sequence s activity sequence).0 t
          (restore_cases c s v (Stays id floor from s) activity sequence (inr (refl, λ a. a))
            λ room. inr (refl, λ a. Attends-same s _ refl a))
          h

  Stays-trans :
      (s m t : Inner) → Stays id floor from s m → Stays id floor from m t → Stays id floor from s t
  Stays-trans s m t (inl later) (inl latest) = inl (omega (arith, later, latest))
  Stays-trans s m t (inl later) (inr (same, _)) = inl (omega (arith, later, same))
  Stays-trans s m t (inr (same, _)) (inl later) = inl (omega (arith, same, later))
  Stays-trans s m t (inr (same, first)) (inr (at, then_on)) =
      inr (cc (same, at), λ a. then_on (first a))

  run-Stays :
      (c : Codec) (s : Inner) (calls : List Call)
      → IsJournal c s
      → All (InTime from) calls
      → (t : Inner) × (run c s calls ≡ some t) × Stays id floor from s t
  unfolding run
  run-Stays c s [] v in_time = (s, refl, inr (refl, λ a. a))
  run-Stays c s (call ∷ calls) v (now, later) =
      let (m, stepped, kept) = step-IsJournal c s v call in
      let (t, ran, stays) = run-Stays c m calls kept later in
      (t, rw (stepped, run) ran, Stays-trans s m t (step-Stays c s call m now v stepped) stays)

-- On a journal that meets the invariant, a subscriber outlasts any sequence of appends,
-- subscriptions, acknowledgements, expiries, rotations and restorations in which no
-- acknowledgement is earlier than its last activity and no expiry is later than that by more than
-- the idle limit: the calls return, and either the journal is in a later epoch, or it is in the
-- same one, the subscriber is still there, and neither its cursor nor its time of activity has
-- gone back.
pub run-subscribers :
    (c : Codec) (s : Inner) (id : String) (r : Subscriber) (calls : List Call)
    → IsJournal c s
    → get id s.subscribers ≡ some r
    → All (InTime r.last_active_ms) calls
    → (t : Inner) × (run c s calls ≡ some t)
      × ((s.epoch < t.epoch)
          ⊎ ((q : Subscriber) × (t.epoch ≡ s.epoch)
              × (get id t.subscribers ≡ some q)
              × (r.acknowledged.sequence ≤ q.acknowledged.sequence)
              × (r.last_active_ms ≤ q.last_active_ms)))
run-subscribers c s id r calls v there in_time =
    let from = r.last_active_ms in
    let floor = r.acknowledged.sequence in
    let (t, ran, stays) = run-Stays id floor from c s calls v in_time in
    (
      t,
      ran,
      elim stays [
        | inl later ↦ inl later
        | inr (same, keeps) ↦
            let a = keeps (record {
              subscriber = r;
              there = there;
              ahead = omega arith;
              active = omega arith;
            }) in
            inr (a.subscriber, same, a.there, a.ahead, a.active)
      ],
    )

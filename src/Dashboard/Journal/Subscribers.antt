-- ===== src/Dashboard/Journal/Subscribers.antt =====
-- `subscribe`, `acknowledge`, `expire_idle` and `subscriber_cursor` (src/dashboard/event_log.rs).
use devicelane.Shared.{
  ℕ, ◌-◌, not, Option, none, some, String, string_eq, nat_eq, ◌==◌, ltb, leb, if◌then◌else◌,
  is_some_and, saturating_sub, length, retain, Result, ok, err,
}
use mathlib.Core.Option
use devicelane.Map.{Map, get, insert, contains_key}
use devicelane.Dashboard.Model.{EventCursor}
use devicelane.Dashboard.Journal.State.{
  Inner, Subscriber, max_subscribers, subscriber_idle_ms, oldest_event,
}

pub data SubscribeError : Type 0 where
  already_exists limit_exceeded : SubscribeError

pub data AcknowledgeError : Type 0 where
  unknown_subscriber cursor_ahead wrong_epoch : AcknowledgeError
  resync_required : EventCursor → ℕ → AcknowledgeError

unfoldable pub subscribe : Inner → String → ℕ → Inner × Result SubscribeError (Unit {0})
subscribe s id now_ms =
    if contains_key id s.subscribers
    then (s, err already_exists)
    else if leb max_subscribers (length s.subscribers)
    then (s, err limit_exceeded)
    else (record s { subscribers = insert id subscriber s.subscribers }, ok tt)
  where
    subscriber : Subscriber
    subscriber = record {
      acknowledged = record { epoch = s.epoch; sequence = 0 };
      last_active_ms = now_ms;
    }

-- The cursor only moves forward; the time of activity is always written.
unfoldable pub refresh : Subscriber → EventCursor → ℕ → Subscriber
refresh subscriber cursor now_ms = record {
  acknowledged =
      if leb subscriber.acknowledged.sequence cursor.sequence
      then cursor
      else subscriber.acknowledged;
  last_active_ms = now_ms;
}

unfoldable pub acknowledge :
    Inner → String → EventCursor → ℕ → Inner × Result AcknowledgeError (Unit {0})
unfolding refresh
acknowledge s id cursor now_ms =
    if not (cursor.epoch == s.epoch)
    then (s, err wrong_epoch)
    else if leb s.next_cursor_sequence cursor.sequence
    then (s, err cursor_ahead)
    else if is_some_and (oldest_event s) (λ oldest. ltb cursor.sequence (oldest - 1))
    then (
      s,
      err (
          resync_required
            (record { epoch = s.epoch; sequence = Option.get_or (oldest_event s) 0 - 1 })
            s.snapshot_revision),
    )
    else elim (get id s.subscribers) [
      | none ↦ (s, err unknown_subscriber)
      | some subscriber ↦ (
        record s { subscribers = insert id (refresh subscriber cursor now_ms) s.subscribers },
        ok tt,
      )
    ]

-- The subscribers that stay, and how many are dropped.
unfoldable pub expire_idle : Inner → ℕ → Inner × ℕ
expire_idle s now_ms = (record s { subscribers = kept }, length s.subscribers - length kept)
  where
    kept : Map String Subscriber
    kept =
        retain (λ p. leb (saturating_sub now_ms p.1.last_active_ms) subscriber_idle_ms)
          s.subscribers

unfoldable pub subscriber_cursor : Inner → String → Option EventCursor
subscriber_cursor s id = Option.map (λ value. value.acknowledged) (get id s.subscribers)

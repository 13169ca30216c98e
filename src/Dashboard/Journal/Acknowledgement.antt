-- ===== src/Dashboard/Journal/Acknowledgement.antt =====
-- Acknowledgement of cursors (src/dashboard/event_log.rs).
use devicelane.Shared.{
  ℕ, ◌-◌, ◌≤◌, ◌<◌, max, ◌≡◌, ◌≢◌, refl, inl, inr, Option-cases, some, String, string_eq, ◌==◌,
  Bool-cases, nat_eq, is_some_and, ltb, leb, Result, ok, err, arith,
}
use devicelane.Map.{get, get-insert, All-get}
use devicelane.Dashboard.Model.{EventCursor}
use devicelane.Dashboard.Journal.State.{Inner, Codec, Subscriber, oldest_event}
use devicelane.Dashboard.Journal.Subscribers.{
  AcknowledgeError, acknowledge, refresh, subscriber_cursor,
}
use devicelane.Dashboard.Journal.Invariant.{IsJournal}

-- What an acknowledgement does, by its result.
abbrev pub Acknowledges :
    Inner → String → EventCursor → Inner × Result AcknowledgeError (Unit {0}) → Type 0
Acknowledges s id cursor (after, err e) = after ≡ s
Acknowledges s id cursor (after, ok _) =
    (old : EventCursor) × (subscriber_cursor s id ≡ some old)
    × (cursor.epoch ≡ s.epoch)
    × (cursor.sequence < s.next_cursor_sequence)
    × ((oldest : ℕ) → oldest_event s ≡ some oldest → oldest - 1 ≤ cursor.sequence)
    × (subscriber_cursor after id
        ≡ some (record { epoch = s.epoch; sequence = max old.sequence cursor.sequence }))
    × ((j : String) → id ≢ j → subscriber_cursor after j ≡ subscriber_cursor s j)
    × (after.events ≡ s.events)

module _ (c : Codec) (s : Inner) (v : IsJournal c s) where
  -- An acknowledgement that fails changes nothing. One that succeeds names a subscriber and a
  -- cursor of this epoch within the retained window, moves that subscriber to the later of its old
  -- cursor and the new one, and changes no other subscriber and no event.
  pub acknowledge-Acknowledges :
      (id : String) (cursor : EventCursor) (now_ms : ℕ)
      → Acknowledges s id cursor (acknowledge s id cursor now_ms)
  unfolding acknowledge subscriber_cursor
  acknowledge-Acknowledges id cursor now_ms = elim (Bool-cases (cursor.epoch == s.epoch)) [
    | inr other ↦ rw other refl
    | inl same ↦ elim (Bool-cases (leb s.next_cursor_sequence cursor.sequence)) [
      | inl ahead ↦ rw (same, ahead) refl
      | inr within ↦
          elim (Bool-cases
            (is_some_and (oldest_event s) (λ oldest. ltb cursor.sequence (oldest - 1)))) [
              | inl lost ↦ rw (same, within, lost) refl
              | inr kept ↦ elim (Option-cases (get id s.subscribers)) [
                | inl missing ↦ rw (same, within, kept, missing) refl
                | inr (r, there) ↦
                    rw (same, within, kept, there)
                      (
                        r.acknowledged,
                        ground (arith, there),
                        ground (arith, same),
                        ground (arith, within),
                        (λ oldest o. ground (arith, o, kept)),
                        ground (
                          arith,
                          same,
                          get-insert id id (refresh r cursor now_ms) s.subscribers,
                          heard r there,
                        ),
                        (λ j other. ground (
                          arith,
                          get-insert id j (refresh r cursor now_ms) s.subscribers,
                          other,
                        )),
                        refl,
                      )
              ]
            ]
    ]
  ]
    where
      heard : (r : Subscriber) → get id s.subscribers ≡ some r → r.acknowledged.epoch ≡ s.epoch
      heard r there =
          (All-get
            (λ q.
              (q.acknowledged.epoch ≡ s.epoch) × (q.acknowledged.sequence < s.next_cursor_sequence))
            id r s.subscribers v.heard there).0

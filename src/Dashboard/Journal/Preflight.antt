-- ===== src/Dashboard/Journal/Preflight.antt =====
-- What `preflight_append` promises about the append that follows (src/dashboard/event_log.rs).
use devicelane.Shared.{
  ℕ, true, ◌+◌, ◌≤◌, ◌<◌, ◌≡◌, ◌≢◌, ◌∙◌, refl, sym, inl, inr, Option-cases, Result-cases, none,
  some, String, Bytes, string_eq, nat_eq, bytes_eq, leb, length, Result, ok, err, u64_max, arith,
}
use devicelane.Map.{get}
use devicelane.Dashboard.Model.{ActivityEvent}
use devicelane.Dashboard.Journal.State.{Inner, Codec, rotate_locked}
use devicelane.Dashboard.Journal.Append.{
  Appending, AppendError, append_error, rotate_for, position, admission, settle, reserve,
  append_locked, append_with_precommit, preflight_append,
}
use devicelane.Dashboard.Journal.Invariant.{IsJournal}
use devicelane.Dashboard.Journal.Outcome.{base}
use devicelane.Dashboard.Journal.Transaction.{append_with_precommit_lem}

module _ (c : Codec) (s : Inner) (key : String) (event : ActivityEvent)
    (passed : preflight_append c s key event ≡ ok tt) (more_epochs : s.epoch < u64_max)
    (more_cursors : s.next_cursor_sequence < u64_max) where
  admitted : (json : Bytes) × (admission c key event ≡ ok json)
  unfolding preflight_append
  admitted = elim (Result-cases (admission c key event)) [
    | inl (json, at) ↦ (json, at)
    | inr (e, at) ↦ absurd (ground (arith, passed, at))
  ]

  placed :
      (json : Bytes)
      → admission c key event ≡ ok json
      → get key s.idempotency ≡ none
      → position s event (length json) ≡ ok (base s event)
  unfolding preflight_append position rotate_for
  placed json at new = ground (arith, passed, at, new, more_epochs)

  duplicate :
      (json : Bytes) (digest : Bytes)
      → admission c key event ≡ ok json
      → get key s.idempotency ≡ some digest
      → digest ≡ c.sha256 json
  unfolding preflight_append
  duplicate json digest at old = ground (arith, passed, at, old)

  base_more : (base s event).next_cursor_sequence + 1 ≤ u64_max
  unfolding rotate_locked
  base_more = ground (arith, more_cursors)

  fits : leb ((base s event).next_cursor_sequence + 1) u64_max ≡ true
  fits = ground (arith, base_more)

  module _ {W P : Type 0} (precommit : W → W × Result P (Unit {0})) (w : W) where
    -- The append is not refused by the journal.
    Accepted : Appending W P → Type 0
    Accepted q = (e : AppendError) → q.2 ≢ err (append_error e)

    settle-Accepted :
        (b : Inner) (json : Bytes) (next : ℕ) (ran : W × Result P (Unit {0})) (q : Appending W P)
        → settle c b key event json next ran ≡ some q
        → Accepted q
    unfolding settle Accepted
    settle-Accepted b json next (w', err p) q h e refused = ground (arith, h, refused)
    settle-Accepted b json next (w', ok done) q h e refused = ground (arith, h, refused)

    append_locked-Accepted :
        (json : Bytes)
        → admission c key event ≡ ok json
        → (q : Appending W P) → append_locked c s key event json precommit w ≡ some q
        → Accepted q
    unfolding append_locked reserve Accepted
    append_locked-Accepted json at q h = elim (Option-cases (get key s.idempotency)) [
      | inl new ↦
          settle-Accepted (base s event) json ((base s event).next_cursor_sequence + 1)
            (precommit w) q (sym (settled new) ∙ h)
      | inr (digest, old) ↦
          λ e refused. ground (arith, h, refused, old, duplicate json digest at old)
    ]
      where
        settled :
            get key s.idempotency ≡ none
            → append_locked c s key event json precommit w
              ≡ settle c
                  (base s event)
                  key
                  event
                  json
                  ((base s event).next_cursor_sequence + 1)
                  (precommit w)
        settled new = rw (new, placed json at new, fits, reserve, append_locked) refl

    opened :
        (json : Bytes)
        → admission c key event ≡ ok json
        → append_with_precommit c s key event precommit w
          ≡ append_locked c s key event json precommit w
    unfolding append_with_precommit
    opened json at = rw (at, append_with_precommit) refl

    -- If the preflight of an event passes on a journal that meets the invariant, and neither the
    -- epoch nor the cursor is at the end of u64, then the append of that event returns, and the
    -- journal does not refuse it: it is appended, or a duplicate, or its own precommit fails.
    pub preflight_append-Accepted :
        IsJournal c s
        → (q : Appending W P) × (append_with_precommit c s key event precommit w ≡ some q)
          × ((e : AppendError) → q.2 ≢ err (append_error e))
    unfolding append_with_precommit Accepted
    preflight_append-Accepted v =
        let (json, at) = admitted in
        let (q, computed, kept, done) = append_with_precommit_lem c s key event precommit w v in
        (q, computed, append_locked-Accepted json at q (sym (opened json at) ∙ computed))

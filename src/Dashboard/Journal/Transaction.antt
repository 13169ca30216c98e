-- ===== src/Dashboard/Journal/Transaction.antt =====
-- The paths of an append (src/dashboard/event_log.rs).
use native.Mathlib.Numerals.{add-one}
use devicelane.Shared.{
  All-imp, ◌∙◌, ap, sym, subst, Result-cases, bytes_discrete, ℕ, ◌+◌, ◌-◌, ◌≤◌, ◌<◌, ◌≡◌, refl,
  Bool-cases, ◌⊎◌, inl, inr, leb, Option-cases, none, some, [], ◌∷◌, String, Bytes, string_eq,
  length, length-append, Result, ok, err, u64_max, arith,
}
use devicelane.Map.{get, insert, get-insert, length-insert}
use devicelane.Dashboard.Model.{ActivityEvent}
use devicelane.Dashboard.Journal.State.{Inner, Codec, max_events, rotate_locked}
use devicelane.Dashboard.Journal.Append.{
  Appending, appended, duplicate_collapsed, append_error, precommit_error, sequence_overflow,
  idempotency_conflict, Retained, needs_rotation, expected_sequence, position, admission, publish,
  settle, reserve, append_locked, append_with_precommit,
}
use devicelane.Dashboard.Journal.Invariant.{
  IsLog-append, IsJournal, event_digest, rotate_locked-IsJournal,
}
use devicelane.Dashboard.Journal.Outcome.{base, entry, Publishes, Transacts, Settles}
use devicelane.Dashboard.Journal.Eviction.{Evicts, evict_lem}

admission-ok :
    (c : Codec) (key : String) (event : ActivityEvent) (json : Bytes)
    → admission c key event ≡ ok json
    → c.to_vec event ≡ ok json
unfolding admission
admission-ok c key event json h = ground arith

-- What the checks before the precommit establish.
record Placed (s : Inner) (event : ActivityEvent) (size : ℕ) (placed : Inner) : Type 0 where
  at_base : placed ≡ base s event
  some_room : 0 < placed.max_events
  small : size ≤ placed.max_bytes
  expected : expected_sequence s event.activity_id ≡ some event.sequence
  table :
      length s.activity_sequences ≤ max_events
      → length (insert event.activity_id event.sequence placed.activity_sequences) ≤ max_events

position-Placed :
    (s : Inner) (event : ActivityEvent) (size : ℕ) (placed : Inner)
    → position s event size ≡ ok placed
    → Placed s event size placed
unfolding position
position-Placed s event size placed h = record {
  at_base = ground arith;
  some_room = ground arith;
  small = ground arith;
  expected = ground arith;
  table = λ few. ground (
    arith,
    length-insert event.activity_id event.sequence placed.activity_sequences,
    length-insert event.activity_id event.sequence s.activity_sequences,
  );
}

base-IsJournal :
    (c : Codec) (s : Inner) (event : ActivityEvent) → IsJournal c s → IsJournal c (base s event)
base-IsJournal c s event v = elim (Bool-cases (needs_rotation s event)) [
  | inl full ↦ rw full (rotate_locked-IsJournal c s (s.epoch + 1) s.snapshot_revision v)
  | inr room ↦ rw room v
]

base-new :
    (s : Inner) (event : ActivityEvent) (key : String)
    → get key s.idempotency ≡ none
    → get key (base s event).idempotency ≡ none
unfolding rotate_locked get
base-new s event key h = ground arith

base_place :
    (s : Inner) (event : ActivityEvent)
    → (base s event ≡ s) ⊎ ((base s event).next_cursor_sequence ≡ 1)
unfolding rotate_locked
base_place s event = ground arith

module _ (c : Codec) (s : Inner) (key : String) (event : ActivityEvent) (json : Bytes)
    (encoded : c.to_vec event ≡ ok json) where
  digest_lem : c.sha256 json ≡ event_digest c event
  digest_lem = ground (arith, encoded)

  publish-IsJournal :
      (kept : Retained)
      → IsJournal c s
      → Evicts c s.next_cursor_sequence s.max_events
          (s.max_bytes - length json)
          s.events
          s.idempotency
          kept
      → length json ≤ s.max_bytes
      → get key s.idempotency ≡ none
      → s.next_cursor_sequence + 1 ≤ u64_max
      → length (insert event.activity_id event.sequence s.activity_sequences) ≤ max_events
      → IsJournal c (publish c s key event json (s.next_cursor_sequence + 1) kept)
  unfolding publish
  publish-IsJournal kept v e small new fits table = record {
    log =
        rw (digest_lem, add-one)
          (IsLog-append c s.next_cursor_sequence kept.events (entry s key event (length json))
            kept.serialized_bytes kept.idempotency e.log refl (e.forgets key new)
            (json, encoded, refl));
    in_u64 = fits;
    few = omega (arith, length-append kept.events (entry s key event (length json) ∷ []), e.fewer);
    small = omega (arith, e.fits);
    few_at_most = v.few_at_most;
    small_at_most = v.small_at_most;
    activities = table;
    audience = v.audience;
    unique = v.unique;
    heard = All-imp _ _ s.subscribers (λ p h. (h.0, omega (arith, h.1))) v.heard;
  }

  publish-Publishes :
      (kept : Retained)
      → Evicts c s.next_cursor_sequence s.max_events
          (s.max_bytes - length json)
          s.events
          s.idempotency
          kept
      → Publishes c s key event (publish c s key event json (s.next_cursor_sequence + 1) kept)
  unfolding publish
  publish-Publishes kept e = record {
    size = length json;
    removed = e.removed;
    events = rw e.suffix;
    next = refl;
    epoch = refl;
    subscribers = refl;
    recorded = refl;
    digest = rw get-insert (ground (arith, digest_lem));
  }

  module _ {W P : Type 0} (precommit : W → W × Result P (Unit {0})) (w : W) (v : IsJournal c s)
      (some_room : 0 < s.max_events) (small : length json ≤ s.max_bytes)
      (new : get key s.idempotency ≡ none)
      (table : length (insert event.activity_id event.sequence s.activity_sequences)
        ≤ max_events) where
    settle_lem :
        (ran : W × Result P (Unit {0}))
        → precommit w ≡ ran
        → s.next_cursor_sequence + 1 ≤ u64_max
        → (q : Appending W P) × (settle c s key event json (s.next_cursor_sequence + 1) ran
            ≡ some q)
          × IsJournal c q.0
          × Settles c s key event precommit w q
    unfolding settle Settles
    settle_lem (w', err p) run fits = ((s, w', err (precommit_error p)), refl, v, (run, refl))
    settle_lem (w', ok done) run fits =
        let (kept, computed, e) =
          evict_lem c s.next_cursor_sequence s.max_events (s.max_bytes - length json) some_room
            s.events s.serialized_bytes s.idempotency v.log in
        (
          (publish c s key event json (s.next_cursor_sequence + 1) kept, w', ok appended),
          rw (computed, settle),
          publish-IsJournal kept v e small new fits table,
          (run, publish-Publishes kept e),
        )

    reserve_lem :
        (q : Appending W P) × (reserve c s key event json precommit w ≡ some q)
        × IsJournal c q.0
        × Settles c s key event precommit w q
    unfolding reserve Settles
    reserve_lem = elim (Bool-cases (leb (s.next_cursor_sequence + 1) u64_max)) [
      | inl fits ↦ rw (fits, reserve) (settle_lem (precommit w) refl (ground arith))
      | inr full ↦ (
        (s, w, err (append_error sequence_overflow)),
        rw (full, reserve),
        v,
        (refl, refl, ground (arith, v.in_u64, full)),
      )
    ]

module _ (c : Codec) {W P : Type 0} (s : Inner) (key : String) (event : ActivityEvent)
    (precommit : W → W × Result P (Unit {0})) (w : W) (v : IsJournal c s) where
  -- From an outcome at the event's place to the outcome of the whole append.
  Settles-Transacts :
      (q : Appending W P)
      → get key s.idempotency ≡ none
      → expected_sequence s event.activity_id ≡ some event.sequence
      → ((base s event ≡ s) ⊎ ((base s event).next_cursor_sequence ≡ 1))
      → Settles c (base s event) key event precommit w q
      → Transacts c s key event precommit w q
  unfolding Settles
  Settles-Transacts (after, w', ok appended) new next place h = (new, next, h.0, h.1)
  Settles-Transacts (after, w', ok duplicate_collapsed) new next place h = absurd h
  Settles-Transacts (after, w', err (append_error e)) new next (inl same) h = (h.0 ∙ same, h.1)
  Settles-Transacts (after, w', err (append_error e)) new next (inr first) h =
      absurd (omega (arith, h.2))
  Settles-Transacts (after, w', err (precommit_error p)) new next place h = h

  append_locked_lem :
      (json : Bytes)
      → c.to_vec event ≡ ok json
      → (q : Appending W P) × (append_locked c s key event json precommit w ≡ some q)
        × IsJournal c q.0
        × Transacts c s key event precommit w q
  unfolding append_locked
  append_locked_lem json encoded = elim (Option-cases (get key s.idempotency)) [
    | inl new ↦ elim (Result-cases (position s event (length json))) [
      | inl (placed, at) ↦
          let p = position-Placed s event (length json) placed at in
          let there = sym p.at_base in
          let (q, computed, kept, settled) =
            reserve_lem c placed key event json encoded precommit w
              (subst (IsJournal c) there (base-IsJournal c s event v)) p.some_room p.small
              (subst (λ b. get key b.idempotency ≡ none) there (base-new s event key new))
              (p.table v.activities) in
          (
            q,
            rw (new, at, append_locked) computed,
            kept,
            Settles-Transacts q new p.expected (base_place s event)
                (subst (λ b. Settles c b key event precommit w q) p.at_base settled),
          )
      | inr (e, at) ↦ ((s, w, err (append_error e)), rw (new, at, append_locked), v, (refl, refl))
    ]
    | inr (digest, old) ↦ elim (bytes_discrete digest (c.sha256 json)) [
      | yes same ↦ (
        (s, w, ok duplicate_collapsed),
        ground (arith, old, same),
        v,
        (old ∙ ap some (same ∙ digest_lem c s key event json encoded), refl, refl),
      )
      | no other ↦ (
        (s, w, err (append_error idempotency_conflict)),
        ground (arith, old, other),
        v,
        (refl, refl),
      )
    ]
  ]

  -- On a journal that meets the invariant, an append never panics and keeps the invariant. If it
  -- publishes, then the key was unused, the sequence was the expected one, the precommit
  -- succeeded, and the new journal is the old one (in a new epoch, if the activity table was full)
  -- with the event as its newest entry and perhaps fewer of its oldest. A duplicate and an append
  -- error change nothing and do not run the precommit. A precommit error leaves the journal as it
  -- was, or, if the activity table was full, freshly rotated.
  pub append_with_precommit_lem :
      (q : Appending W P) × (append_with_precommit c s key event precommit w ≡ some q)
      × IsJournal c q.0
      × Transacts c s key event precommit w q
  unfolding append_with_precommit
  append_with_precommit_lem = elim (Result-cases (admission c key event)) [
    | inl (json, at) ↦
        let (q, computed, kept, done) = append_locked_lem json (admission-ok c key event json at) in
        (q, rw (at, append_with_precommit) computed, kept, done)
    | inr (e, at) ↦ ((s, w, err (append_error e)), rw (at, append_with_precommit), v, (refl, refl))
  ]

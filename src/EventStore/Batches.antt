-- ===== src/EventStore/Batches.antt =====
-- Event batches, written and read (src/registry_event_store/events.rs).
use devicelane.Shared.{
  ℕ, zero, suc, ◌+◌, ◌*◌, ◌/◌, ◌≤◌, ◌<◌, ◌≡◌, refl, sym, ap, ◌∙◌, subst, true, false, not, List, [],
  ◌∷◌, ◌++◌, Bytes, nat_eq, ◌==◌, ltb, length, length-append, length-to_le_bytes, All, AreBytes,
  byte_values, ℕ_discrete, reject-ok, not-false, eq-==, ok-injective, >>-ok, >>=-ok, ok, reject,
  arith,
}
use devicelane.EventStore.Codec.{invalid_data}
use devicelane.EventStore.Events.{
  NetworkEvent, Take, is_utf8, write_u64, write_string, write_event, write_events,
  write_event_batch, read_u64, read_string, read_event, read_events, read_event_batch,
}
use devicelane.EventStore.Reading.{
  ahead, ahead_none, Take_path, ahead-append, read_u64-ahead, ahead-read_u64, read_string-ahead,
  ahead-read_string,
}

-- The parts of an event fit their types.
pub record IsEvent (event : NetworkEvent) : Type 0 where
  pub sequence : event.sequence < byte_values 8
  pub kind : is_utf8 event.kind ≡ true
  pub payload : is_utf8 event.payload ≡ true
  pub short_kind : length event.kind < byte_values 8
  pub short_payload : length event.payload < byte_values 8

read_event-ahead :
    (event : NetworkEvent) (t : Take)
    → IsEvent event
    → read_event (ahead (write_event event) t) ≡ ok (event, t)
unfolding read_event write_event
read_event-ahead event t e =
    let s =
      read_u64-ahead event.sequence
        (ahead (write_string event.kind) (ahead (write_string event.payload) t)) e.sequence in
    let k =
      read_string-ahead event.kind (ahead (write_string event.payload) t) e.kind e.short_kind in
    let p = read_string-ahead event.payload t e.payload e.short_payload in
    ap read_event (
      ahead-append (write_u64 event.sequence)
        (write_string event.kind ++ write_string event.payload) t
      ∙ ap (ahead (write_u64 event.sequence))
          (ahead-append (write_string event.kind) (write_string event.payload) t))
    ∙ rw (read_event, s, k, p) refl

ahead-read_event :
    (t : Take) (event : NetworkEvent) (u : Take)
    → AreBytes t.source
    → read_event t ≡ ok (event, u)
    → (t ≡ ahead (write_event event) u) × AreBytes u.source
unfolding read_event write_event
ahead-read_event t event u are h =
    let (p, first, more) = >>=-ok (read_u64 t) _ (event, u) h in
    let (q, second, rest) = >>=-ok (read_string p.1) _ (event, u) more in
    let (r, third, done) = >>=-ok (read_string q.1) _ (event, u) rest in
    let (a, _, are_p) = ahead-read_u64 t p.0 p.1 are first in
    let (b, _, are_q) = ahead-read_string p.1 q.0 q.1 are_p second in
    let (c, _, are_r) = ahead-read_string q.1 r.0 r.1 are_q third in
    subst (λ x. (t ≡ ahead (write_event x.0) x.1) × AreBytes x.1.source) (ok-injective _ _ done)
      (
        a
            ∙ ap (ahead (write_u64 p.0)) (b ∙ ap (ahead (write_string q.0)) c)
            ∙ ap (ahead (write_u64 p.0))
                (sym (ahead-append (write_string q.0) (write_string r.0) r.1))
            ∙ sym (ahead-append (write_u64 p.0) (write_string q.0 ++ write_string r.0) r.1),
        are_r,
      )

read_events-ahead :
    (events : List NetworkEvent) (t : Take)
    → All IsEvent events
    → read_events (length events) (ahead (write_events events) t) ≡ ok (events, t)
unfolding read_events write_events
read_events-ahead [] t e = ap (λ u. ok ([], u)) (ahead_none t)
read_events-ahead (event ∷ events) t e =
    let one = read_event-ahead event (ahead (write_events events) t) e.0 in
    let others = read_events-ahead events t e.1 in
    ap (read_events (suc (length events)))
      (ahead-append (write_event event) (write_events events) t)
    ∙ rw (read_events, one, others) refl

ahead-read_events :
    (count : ℕ) (t : Take) (events : List NetworkEvent) (u : Take)
    → AreBytes t.source
    → read_events count t ≡ ok (events, u)
    → (t ≡ ahead (write_events events) u) × (length events ≡ count)
unfolding read_events write_events
ahead-read_events zero t events u are h =
    subst (λ x. (t ≡ ahead (write_events x.0) x.1) × (length x.0 ≡ 0)) (ok-injective _ _ h)
      (sym (ahead_none t), refl)
ahead-read_events (suc count) t events u are h =
    let (p, one, more) = >>=-ok (read_event t) _ (events, u) h in
    let (q, others, done) = >>=-ok (read_events count p.1) _ (events, u) more in
    let (a, are_p) = ahead-read_event t p.0 p.1 are one in
    let (b, c) = ahead-read_events count p.1 q.0 q.1 are_p others in
    subst (λ x. (t ≡ ahead (write_events x.0) x.1) × (length x.0 ≡ suc count))
      (ok-injective _ _ done)
      (
        a
            ∙ ap (ahead (write_event p.0)) b
            ∙ sym (ahead-append (write_event p.0) (write_events q.0) q.1),
        ap suc c,
      )

length-write_string : (value : Bytes) → length (write_string value) ≡ 8 + length value
unfolding write_string
length-write_string value =
    omega
      (arith, length-append (write_u64 (length value)) value, length-to_le_bytes 8 (length value))

length-write_event : (event : NetworkEvent) → 24 ≤ length (write_event event)
unfolding write_event
length-write_event event = omega (
  arith,
  length-append (write_u64 event.sequence) (write_string event.kind ++ write_string event.payload),
  length-append (write_string event.kind) (write_string event.payload),
  length-write_string event.kind,
  length-write_string event.payload,
  length-to_le_bytes 8 event.sequence,
)

length-write_events :
    (events : List NetworkEvent) → 24 * length events ≤ length (write_events events)
unfolding write_events
length-write_events [] = omega arith
length-write_events (event ∷ events) = omega (
  arith,
  length-append (write_event event) (write_events events),
  length-write_event event,
  length-write_events events,
)

-- A source, limited to what is written, with other bytes after it.
limited :
    (x rest : Bytes)
    → record { source = x ++ rest; limit = length x }
      ≡ ahead x (record { source = rest; limit = 0 })
limited x rest =
    Take_path (record { source = x ++ rest; limit = length x })
      (ahead x (record { source = rest; limit = 0 })) refl (omega arith)

-- Reading a written batch of events, with its length as the extent and any bytes after it, gives
-- the events and leaves those bytes, where the events are of their types: sequences, lengths and
-- their number below 2^64, strings valid UTF-8.
pub read_event_batch-write_event_batch :
    (events : List NetworkEvent) (rest : Bytes)
    → All IsEvent events
    → length events < byte_values 8
    → read_event_batch (write_event_batch events ++ rest) (length (write_event_batch events))
      ≡ ok (events, rest)
unfolding read_event_batch write_event_batch ℕ_discrete
read_event_batch-write_event_batch events rest e few =
    let end : Take = record { source = rest; limit = 0 } in
    let count = read_u64-ahead (length events) (ahead (write_events events) end) few in
    let body = read_events-ahead events end e in
    let start =
      ap read_u64 (
        limited (write_u64 (length events) ++ write_events events) rest
        ∙ ahead-append (write_u64 (length events)) (write_events events) end)
      ∙ count in
    rw (read_event_batch, start, fits (length-write_events events), body) refl
  where
    fits : {n : ℕ} → 24 * length events ≤ n → ltb ((n + 0) / 24) (length events) ≡ false
    fits h = ground (arith, h)

-- A source that is read as a batch of events, is the batch as it is written, followed by what is
-- left, and the extent is the written length: every batch has one encoding.
pub write_event_batch-read_event_batch :
    (source : Bytes) (encoded_length : ℕ) (events : List NetworkEvent) (rest : Bytes)
    → AreBytes source
    → read_event_batch source encoded_length ≡ ok (events, rest)
    → (source ≡ write_event_batch events ++ rest)
      × (encoded_length ≡ length (write_event_batch events))
unfolding read_event_batch write_event_batch ℕ_discrete
write_event_batch-read_event_batch source encoded_length events rest are h =
    let t : Take = record { source = source; limit = encoded_length } in
    let (p, first, more) = >>=-ok (read_u64 t) _ (events, rest) h in
    let (_, body) = >>-ok (reject (ltb (p.1.limit / 24) p.0) invalid_data) _ (events, rest) more in
    let (q, others, last) = >>=-ok (read_events p.0 p.1) _ (events, rest) body in
    let (ended, done) = >>-ok (reject (not (q.1.limit == 0)) invalid_data) _ (events, rest) last in
    let (a, _, are_p) = ahead-read_u64 t p.0 p.1 are first in
    let (b, size) = ahead-read_events p.0 p.1 q.0 q.1 are_p others in
    let end : q.1.limit ≡ 0 = eq-== _ _ (not-false _ (reject-ok _ _ ended)) in
    let whole : t ≡ ahead (write_event_batch q.0) q.1 =
      a
      ∙ ap (ahead (write_u64 p.0)) b
      ∙ ap (λ n. ahead (write_u64 n) (ahead (write_events q.0) q.1)) (sym size)
      ∙ sym (ahead-append (write_u64 (length q.0)) (write_events q.0) q.1) in
    subst
      (λ x.
        (source ≡ write_event_batch x.0 ++ x.1) × (encoded_length ≡ length (write_event_batch x.0)))
      (ok-injective _ _ done) (ap (λ r. r.source) whole, exact (ap (λ r. r.limit) whole) end)
  where
    exact : {n m k : ℕ} → n ≡ m + k → k ≡ 0 → n ≡ m
    exact x y = omega (arith, x, y)

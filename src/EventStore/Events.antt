-- ===== src/EventStore/Events.antt =====
-- Event batches (src/registry_event_store/events.rs). A Rust string is its UTF-8 bytes.
use devicelane.Shared.{
  ℕ, zero, suc, ◌-◌, ◌/◌, min, Bool, true, false, not, ◌&&◌, Option, none, some, List, [], ◌∷◌,
  ◌++◌, Bytes, nat_eq, ◌==◌, ltb, leb, if◌then◌else◌, length, take, drop, to_le_bytes,
  from_le_bytes, Result, ok, err, ◌>>=◌, ◌>>◌, reject,
}
use devicelane.EventStore.Codec.{StoreError, invalid_data, unexpected_eof}

pub record NetworkEvent : Type 0 where
  pub sequence : ℕ
  pub kind : Bytes
  pub payload : Bytes

-- The ranges of the bytes that follow the first byte of a UTF-8 character.
unfoldable pub after_lead : ℕ → Option (List (ℕ × ℕ))
after_lead b =
    if ltb b 128
    then some []
    else if leb 194 b && leb b 223
    then some ((128, 191) ∷ [])
    else if b == 224
    then some ((160, 191) ∷ (128, 191) ∷ [])
    else if b == 237
    then some ((128, 159) ∷ (128, 191) ∷ [])
    else if leb 225 b && leb b 239
    then some ((128, 191) ∷ (128, 191) ∷ [])
    else if b == 240
    then some ((144, 191) ∷ (128, 191) ∷ (128, 191) ∷ [])
    else if leb 241 b && leb b 243
    then some ((128, 191) ∷ (128, 191) ∷ (128, 191) ∷ [])
    else if b == 244
    then some ((128, 143) ∷ (128, 191) ∷ (128, 191) ∷ [])
    else none

unfoldable pub utf8_from : List (ℕ × ℕ) → Bytes → Bool
unfolding after_lead
utf8_from [] [] = true
utf8_from (_ ∷ _) [] = false
utf8_from ((lo, hi) ∷ ranges) (b ∷ bytes) =
    let rest = utf8_from ranges bytes in leb lo b && (leb b hi && rest)
utf8_from [] (b ∷ bytes) = elim (after_lead b) [
  | none ↦ false
  | some ranges ↦ utf8_from ranges bytes
]

-- `String::from_utf8` succeeds.
abbrev pub is_utf8 : Bytes → Bool
is_utf8 bytes = utf8_from [] bytes

abbrev pub write_u64 : ℕ → Bytes
write_u64 value = to_le_bytes 8 value

unfoldable pub write_string : Bytes → Bytes
write_string value = write_u64 (length value) ++ value

unfoldable pub write_event : NetworkEvent → Bytes
write_event event =
    write_u64 event.sequence ++ (write_string event.kind ++ write_string event.payload)

unfoldable pub write_events : List NetworkEvent → Bytes
write_events [] = []
write_events (event ∷ events) = write_event event ++ write_events events

unfoldable pub write_event_batch : List NetworkEvent → Bytes
write_event_batch events = write_u64 (length events) ++ write_events events

-- `io::Take`: what the reader has left, and how much of it may be read.
pub record Take : Type 0 where
  pub source : Bytes
  pub limit : ℕ

abbrev pub Read : Type 0 → Type 0
Read A = Result StoreError (A × Take)

unfoldable pub read_exact : ℕ → Take → Read Bytes
read_exact n t =
    if leb n t.limit && leb n (length t.source)
    then ok (take n t.source, record { source = drop n t.source; limit = t.limit - n })
    else err unexpected_eof

unfoldable pub read_u64 : Take → Read ℕ
read_u64 t = do p ← read_exact 8 t; ok (from_le_bytes p.0, p.1)

-- The loop with the scratch buffer, on fuel.
unfoldable pub read_chunks : ℕ → ℕ → Take → Read Bytes
read_chunks zero remaining t = if remaining == 0 then ok ([], t) else err unexpected_eof
read_chunks (suc fuel) remaining t = elim (remaining == 0) [
  | true ↦ ok ([], t)
  | false ↦ (do
    let chunk = min remaining 8192
    p ← read_exact chunk t
    q ← read_chunks fuel (remaining - chunk) p.1
    ok (p.0 ++ q.0, q.1))
]

unfoldable pub read_string : Take → Read Bytes
read_string t = do
  p ← read_u64 t
  reject (ltb p.1.limit p.0) invalid_data
  q ← read_chunks p.0 p.0 p.1
  reject (not (is_utf8 q.0)) invalid_data
  ok q

unfoldable pub read_event : Take → Read NetworkEvent
read_event t = do
  p ← read_u64 t
  q ← read_string p.1
  r ← read_string q.1
  ok (record { sequence = p.0; kind = q.0; payload = r.0 }, r.1)

unfoldable pub read_events : ℕ → Take → Read (List NetworkEvent)
read_events zero t = ok ([], t)
read_events (suc count) t = do p ← read_event t; q ← read_events count p.1; ok (p.0 ∷ q.0, q.1)

-- The events, and the source after them.
unfoldable pub read_event_batch : Bytes → ℕ → Result StoreError (List NetworkEvent × Bytes)
read_event_batch source encoded_length = do
  p ← read_u64 (record { source = source; limit = encoded_length })
  reject (ltb (p.1.limit / 24) p.0) invalid_data
  q ← read_events p.0 p.1
  reject (not (q.1.limit == 0)) invalid_data
  ok (q.0, q.1.source)

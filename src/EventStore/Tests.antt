-- ===== src/EventStore/Tests.antt =====
-- The event store at concrete inputs (src/registry_event_store/codec.rs, events.rs).
use devicelane.Shared.{
  ◌≡◌, refl, List, [], ◌∷◌, ◌++◌, Bytes, all, ltb, length, All, AreBytes, to_le_bytes, ℕ_discrete,
  bool_discrete, ok, true, false, arith,
}
use devicelane.EventStore.Codec.{
  SegmentHeader, zeros, is_misbound, is_misflagged, is_missized, is_miscounted, validate_header,
  header_layout, encode, decode, decode_segment, header_bytes,
}
use devicelane.EventStore.Header.{IsSized, decode-encode, encode-decode}
use devicelane.EventStore.Segment.{IsSegment, decode_segment-IsSegment, IsSegment-decode_segment}
use devicelane.EventStore.Events.{
  NetworkEvent, is_utf8, utf8_from, write_string, write_event, write_events, write_event_batch,
  read_event_batch, read_chunks, read_exact,
}
use devicelane.EventStore.Reading.{read_chunks-read_exact}
use devicelane.EventStore.Batches.{
  IsEvent, read_event_batch-write_event_batch, write_event_batch-read_event_batch,
}

-- The only segment of a batch without events.
abbrev header : SegmentHeader
header = record {
  store_id = zeros 16;
  job = zeros 32;
  predecessor = zeros 32;
  origin = 1;
  actor = zeros 32;
  flags = 3;
  event_count = 0;
  first_sequence = 0;
  last_sequence = 0;
  part_index = 0;
  body_length = 8;
}

header-valid : validate_header header ≡ ok tt
unfolding validate_header is_misbound is_misflagged is_missized is_miscounted ℕ_discrete
    bool_discrete
header-valid = refl

header-IsSized : IsSized header
header-IsSized = record {
  store_id = refl;
  job = refl;
  predecessor = refl;
  actor = refl;
  event_count = omega arith;
  first_sequence = omega arith;
  last_sequence = omega arith;
  part_index = omega arith;
  body_length = omega arith;
}

encoded : encode header ≡ ok (header_layout header)
unfolding encode
encoded = rw (encode, header-valid) refl

all-AreBytes : (bytes : Bytes) → all (λ b. ltb b 256) bytes ≡ true → AreBytes bytes
all-AreBytes [] h = tt
all-AreBytes (b ∷ bytes) h = (ground (arith, h), all-AreBytes bytes (ground (arith, h)))

header-AreBytes : AreBytes (header_layout header)
unfolding header_layout to_le_bytes
header-AreBytes = all-AreBytes (header_layout header) refl

decode-encode_example :
    (length (header_layout header) ≡ header_bytes) × (decode (header_layout header) ≡ ok header)
decode-encode_example = decode-encode header (header_layout header) header-IsSized encoded

encode-decode_example : encode header ≡ ok (header_layout header)
encode-decode_example =
    encode-decode (header_layout header) header header-AreBytes
      (decode-encode header (header_layout header) header-IsSized encoded).1

abbrev segment : Bytes
segment = header_layout header ++ zeros 8

segment-IsSegment : IsSegment segment header (zeros 8)
segment-IsSegment = (header_layout header, encoded, refl, refl)

decode_segment-IsSegment_example : decode_segment segment ≡ ok (header, zeros 8)
decode_segment-IsSegment_example =
    decode_segment-IsSegment header segment (zeros 8) header-IsSized segment-IsSegment

segment-AreBytes : AreBytes segment
unfolding header_layout to_le_bytes
segment-AreBytes = all-AreBytes segment refl

IsSegment-decode_segment_example : IsSegment segment header (zeros 8)
IsSegment-decode_segment_example =
    IsSegment-decode_segment header segment (zeros 8) segment-AreBytes
      (decode_segment-IsSegment header segment (zeros 8) header-IsSized segment-IsSegment)

-- The event of the source's test: "started", and one with a payload of two bytes for one character.
abbrev events : List NetworkEvent
events =
    record { sequence = 1; kind = 115 ∷ 116 ∷ 97 ∷ 114 ∷ 116 ∷ 101 ∷ 100 ∷ []; payload = [] }
    ∷ record { sequence = 2; kind = []; payload = 195 ∷ 169 ∷ [] }
    ∷ []

is_utf8_started : is_utf8 (115 ∷ 116 ∷ 97 ∷ 114 ∷ 116 ∷ 101 ∷ 100 ∷ []) ≡ true
unfolding utf8_from
is_utf8_started = refl

is_utf8_accent : is_utf8 (195 ∷ 169 ∷ []) ≡ true
unfolding utf8_from
is_utf8_accent = refl

is_utf8_surrogate : is_utf8 (237 ∷ 160 ∷ 128 ∷ []) ≡ false
unfolding utf8_from ℕ_discrete
is_utf8_surrogate = refl

is_utf8_empty : is_utf8 [] ≡ true
unfolding utf8_from
is_utf8_empty = refl

events-IsEvent : All IsEvent events
events-IsEvent = (
  record {
    sequence = omega arith;
    kind = is_utf8_started;
    payload = is_utf8_empty;
    short_kind = omega arith;
    short_payload = omega arith;
  },
  (
    record {
      sequence = omega arith;
      kind = is_utf8_empty;
      payload = is_utf8_accent;
      short_kind = omega arith;
      short_payload = omega arith;
    },
    tt,
  ),
)

read_event_batch-write_event_batch_example :
    read_event_batch (write_event_batch events ++ 7 ∷ []) (length (write_event_batch events))
    ≡ ok (events, 7 ∷ [])
read_event_batch-write_event_batch_example =
    read_event_batch-write_event_batch events (7 ∷ []) events-IsEvent (omega arith)

written-AreBytes : AreBytes (write_event_batch events ++ 7 ∷ [])
unfolding write_event_batch write_events write_event write_string to_le_bytes
written-AreBytes = all-AreBytes (write_event_batch events ++ 7 ∷ []) refl

write_event_batch-read_event_batch_example :
    (write_event_batch events ++ 7 ∷ [] ≡ write_event_batch events ++ 7 ∷ [])
    × (length (write_event_batch events) ≡ length (write_event_batch events))
write_event_batch-read_event_batch_example =
    write_event_batch-read_event_batch (write_event_batch events ++ 7 ∷ [])
      (length (write_event_batch events)) events (7 ∷ []) written-AreBytes
      (read_event_batch-write_event_batch events (7 ∷ []) events-IsEvent (omega arith))

read_chunks-read_exact_example :
    read_chunks 3 3 (record { source = 1 ∷ 2 ∷ 3 ∷ 4 ∷ []; limit = 4 })
    ≡ read_exact 3 (record { source = 1 ∷ 2 ∷ 3 ∷ 4 ∷ []; limit = 4 })
read_chunks-read_exact_example =
    read_chunks-read_exact 3 3 (record { source = 1 ∷ 2 ∷ 3 ∷ 4 ∷ []; limit = 4 }) (omega arith)

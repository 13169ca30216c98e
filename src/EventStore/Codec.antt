-- ===== src/EventStore/Codec.antt =====
-- Segment headers (src/registry_event_store/codec.rs).
use devicelane.Shared.{
  ℕ, zero, suc, ◌+◌, ◌-◌, ◌/◌, ◌%◌, Bool, not, ◌&&◌, ◌||◌, [], ◌∷◌, ◌++◌, Bytes, bytes_eq, nat_eq,
  bool_eq, ◌==◌, ltb, leb, length, take, drop, to_le_bytes, from_le_bytes, Result, ok, ◌>>=◌, ◌>>◌,
  reject,
}

abbrev pub header_bytes : ℕ
header_bytes = 158

abbrev pub max_body_bytes : ℕ
max_body_bytes = 524288

pub record SegmentHeader : Type 0 where
  pub store_id : Bytes
  pub job : Bytes
  pub predecessor : Bytes
  pub origin : ℕ
  pub actor : Bytes
  pub flags : ℕ
  pub event_count : ℕ
  pub first_sequence : ℕ
  pub last_sequence : ℕ
  pub part_index : ℕ
  pub body_length : ℕ

pub data StoreError : Type 0 where
  invalid_data unexpected_eof : StoreError

-- `[0; 32]`.
abbrev pub zeros : ℕ → Bytes
zeros zero = []
zeros (suc n) = 0 ∷ zeros n

-- The bits of a byte, from the lowest.
abbrev pub bit_0 : ℕ → Bool
bit_0 flags = flags % 2 == 1

abbrev pub bit_1 : ℕ → Bool
bit_1 flags = flags / 2 % 2 == 1

abbrev pub bit_2 : ℕ → Bool
bit_2 flags = flags / 4 % 2 == 1

-- The tests of a header, in four groups.
unfoldable pub is_misbound : SegmentHeader → Bool
is_misbound h =
    not (leb 1 h.origin && leb h.origin 4) || (not (h.origin == 1) && not (h.actor == zeros 32))

unfoldable pub is_misflagged : SegmentHeader → Bool
is_misflagged h =
    ltb 7 h.flags
    || ((bit_2 h.flags && not (bit_1 h.flags))
        || (not (bit_0 h.flags == (h.part_index == 0))
            || (not (bit_0 h.flags) && (h.predecessor == zeros 32))))

unfoldable pub is_missized : SegmentHeader → Bool
is_missized h =
    h.body_length == 0
    || (ltb max_body_bytes h.body_length
        || (not (bit_1 h.flags) && not (h.body_length == max_body_bytes)))

unfoldable pub is_miscounted : SegmentHeader → Bool
is_miscounted h =
    ((h.event_count == 0)
      && (not (bit_0 h.flags)
          || (not (bit_1 h.flags)
              || (not (h.body_length == 8)
                  || (not (h.first_sequence == 0) || not (h.last_sequence == 0))))))
    || ((h.event_count == 1) && not (h.first_sequence == h.last_sequence))

unfoldable pub is_malformed : SegmentHeader → Bool
is_malformed h = is_misbound h || (is_misflagged h || (is_missized h || is_miscounted h))

unfoldable pub validate_header : SegmentHeader → Result StoreError (Unit {0})
unfolding is_malformed
validate_header h = reject (is_malformed h) invalid_data

-- b"DLSEG001".
abbrev pub magic : Bytes
magic = 68 ∷ 76 ∷ 83 ∷ 69 ∷ 71 ∷ 48 ∷ 48 ∷ 49 ∷ []

-- The fields one after the other, as their ranges in the array are.
unfoldable pub header_layout : SegmentHeader → Bytes
header_layout h =
    magic
    ++ (h.store_id
        ++ (h.job
            ++ (h.predecessor
                ++ (h.origin
                    ∷ (h.actor
                        ++ (h.flags
                            ∷ (to_le_bytes 8 h.event_count
                                ++ (to_le_bytes 8 h.first_sequence
                                    ++ (to_le_bytes 8 h.last_sequence
                                        ++ (to_le_bytes 8 h.part_index
                                            ++ (to_le_bytes 4 h.body_length ++ [])))))))))))

unfoldable pub encode : SegmentHeader → Result StoreError Bytes
encode h = do validate_header h; ok (header_layout h)

-- `bytes[from..to]` and `bytes[at]`, where the array is that long.
unfoldable pub slice : ℕ → ℕ → Bytes → Bytes
slice from to bytes = take (to - from) (drop from bytes)

unfoldable pub byte_at : ℕ → Bytes → ℕ
byte_at at bytes = elim (drop at bytes) [ [] ↦ 0 | b ∷ _ ↦ b ]

unfoldable pub read_fields : Bytes → SegmentHeader
read_fields bytes = record {
  store_id = slice 8 24 bytes;
  job = slice 24 56 bytes;
  predecessor = slice 56 88 bytes;
  origin = byte_at 88 bytes;
  actor = slice 89 121 bytes;
  flags = byte_at 121 bytes;
  event_count = from_le_bytes (slice 122 130 bytes);
  first_sequence = from_le_bytes (slice 130 138 bytes);
  last_sequence = from_le_bytes (slice 138 146 bytes);
  part_index = from_le_bytes (slice 146 154 bytes);
  body_length = from_le_bytes (slice 154 158 bytes);
}

unfoldable pub decode : Bytes → Result StoreError SegmentHeader
decode bytes = do
  reject (not (length bytes == header_bytes) || not (slice 0 8 bytes == magic)) invalid_data
  let header = read_fields bytes
  validate_header header
  ok header

unfoldable pub decode_segment : Bytes → Result StoreError (SegmentHeader × Bytes)
decode_segment bytes = do
  reject
      (not (leb header_bytes (length bytes) && leb (length bytes) (header_bytes + max_body_bytes)))
      invalid_data
  header ← decode (take header_bytes bytes)
  reject (not (length bytes == header_bytes + header.body_length)) invalid_data
  ok (header, drop header_bytes bytes)

-- ===== src/EventStore/Header.antt =====
-- The layout of segment headers (src/registry_event_store/codec.rs).
use devicelane.Shared.{
  ◌<◌, ◌≡◌, refl, sym, ap, ◌∙◌, subst, [], ◌∷◌, ◌++◌, Bytes, length, nat_eq, bytes_eq, ◌==◌, not,
  ◌||◌, >>-ok, drop_all, ok-injective, ==-eq, eq-==, or-false, not-false, reject-ok, reject, drop,
  to_le_bytes, byte_values, AreBytes, ok, arith,
}
use devicelane.EventStore.Codec.{
  SegmentHeader, invalid_data, magic, header_layout, slice, read_fields, validate_header, decode,
  encode, header_bytes,
}
use devicelane.EventStore.Fields.{
  next_field, next_byte, next_word, length_field, length_byte, length_word, rejoin, rejoin_byte,
  rejoin_word,
}

-- A header whose fields have the widths of their types.
pub record IsSized (h : SegmentHeader) : Type 0 where
  pub store_id : length h.store_id ≡ 16
  pub job : length h.job ≡ 32
  pub predecessor : length h.predecessor ≡ 32
  pub actor : length h.actor ≡ 32
  pub event_count : h.event_count < byte_values 8
  pub first_sequence : h.first_sequence < byte_values 8
  pub last_sequence : h.last_sequence < byte_values 8
  pub part_index : h.part_index < byte_values 8
  pub body_length : h.body_length < byte_values 4

-- Two headers with equal fields.
header_path :
    (g h : SegmentHeader)
    → g.store_id ≡ h.store_id
    → g.job ≡ h.job
    → g.predecessor ≡ h.predecessor
    → g.origin ≡ h.origin
    → g.actor ≡ h.actor
    → g.flags ≡ h.flags
    → g.event_count ≡ h.event_count
    → g.first_sequence ≡ h.first_sequence
    → g.last_sequence ≡ h.last_sequence
    → g.part_index ≡ h.part_index
    → g.body_length ≡ h.body_length
    → g ≡ h
header_path g h a b c d e f i j k l m = λ t. record {
  store_id = a t;
  job = b t;
  predecessor = c t;
  origin = d t;
  actor = e t;
  flags = f t;
  event_count = i t;
  first_sequence = j t;
  last_sequence = k t;
  part_index = l t;
  body_length = m t;
}

-- The layout's fields read back, and the magic and the length.
pub read_fields-header_layout :
    (h : SegmentHeader)
    → IsSized h
    → (slice 0 8 (header_layout h) ≡ magic)
      × (read_fields (header_layout h) ≡ h)
      × (drop header_bytes (header_layout h) ≡ [])
unfolding header_layout read_fields
read_fields-header_layout h s =
    let bytes = header_layout h in
    let (start, a) = next_field 0 8 bytes magic _ refl refl in
    let (b, c) = next_field 8 16 bytes h.store_id _ a s.store_id in
    let (d, e) = next_field 24 32 bytes h.job _ c s.job in
    let (f, g) = next_field 56 32 bytes h.predecessor _ e s.predecessor in
    let (i, j) = next_byte 88 bytes h.origin _ g in
    let (k, l) = next_field 89 32 bytes h.actor _ j s.actor in
    let (m, n) = next_byte 121 bytes h.flags _ l in
    let (o, p) = next_word 122 8 h.event_count bytes _ n s.event_count in
    let (q, r) = next_word 130 8 h.first_sequence bytes _ p s.first_sequence in
    let (t, u) = next_word 138 8 h.last_sequence bytes _ r s.last_sequence in
    let (v, w) = next_word 146 8 h.part_index bytes _ u s.part_index in
    let (x, y) = next_word 154 4 h.body_length bytes _ w s.body_length in
    (start, header_path (read_fields bytes) h b d f i k m o q t v x, y)

-- The layout after the flags, and after the origin.
abbrev counts : SegmentHeader → Bytes
counts h =
    to_le_bytes 8 h.event_count
    ++ (to_le_bytes 8 h.first_sequence
        ++ (to_le_bytes 8 h.last_sequence
            ++ (to_le_bytes 8 h.part_index ++ (to_le_bytes 4 h.body_length ++ []))))

abbrev after_origin : SegmentHeader → Bytes
after_origin h = h.actor ++ (h.flags ∷ counts h)

abbrev after_magic : SegmentHeader → Bytes
after_magic h = h.store_id ++ (h.job ++ (h.predecessor ++ (h.origin ∷ after_origin h)))

pub length-header_layout : (h : SegmentHeader) → IsSized h → length (header_layout h) ≡ header_bytes
unfolding header_layout
length-header_layout h s = length_field magic _ 8 150 refl (
    length_field h.store_id _ 16 134 s.store_id (
      length_field h.job _ 32 102 s.job (
        length_field h.predecessor _ 32 70 s.predecessor (
          length_byte h.origin (after_origin h) 69 (
            length_field h.actor _ 32 37 s.actor (
              length_byte h.flags (counts h) 36 (
                length_word 8 h.event_count _ 28 (
                  length_word 8 h.first_sequence _ 20 (
                    length_word 8 h.last_sequence _ 12 (
                      length_word 8 h.part_index _ 4
                        (length_word 4 h.body_length [] 0 refl)))))))))))

decode_by :
    (bytes : Bytes) (h : SegmentHeader)
    → length bytes ≡ header_bytes
    → slice 0 8 bytes ≡ magic
    → read_fields bytes ≡ h
    → validate_header h ≡ ok tt
    → decode bytes ≡ ok h
unfolding decode
decode_by bytes h size start fields valid =
    rw
      (
        decode,
        ==-eq (length bytes) header_bytes size,
        ==-eq (slice 0 8 bytes) magic start,
        fields,
        valid,
      )
      refl

-- A header whose fields have the widths of their types and that `encode` accepts is 158 bytes
-- long, and `decode` of those bytes gives the header back.
pub decode-encode :
    (h : SegmentHeader) (bytes : Bytes)
    → IsSized h
    → encode h ≡ ok bytes
    → (length bytes ≡ header_bytes) × (decode bytes ≡ ok h)
unfolding encode
decode-encode h bytes s e =
    let (valid, same) = >>-ok (validate_header h) _ bytes e in
    let size = length-header_layout h s in
    let (start, fields, _) = read_fields-header_layout h s in
    subst (λ b. (length b ≡ header_bytes) × (decode b ≡ ok h)) (ok-injective _ _ same)
      (size, decode_by (header_layout h) h size start fields valid)

pub header_layout-read_fields :
    (bytes : Bytes)
    → AreBytes bytes
    → length bytes ≡ header_bytes
    → slice 0 8 bytes ≡ magic
    → header_layout (read_fields bytes) ≡ bytes
unfolding header_layout read_fields
header_layout-read_fields bytes are size start =
    ap (λ m. m ++ after_magic (read_fields bytes)) (sym start)
    ∙ rejoin 0 8 bytes (after_magic (read_fields bytes)) (
        rejoin 8 16 bytes _ (
          rejoin 24 32 bytes _ (
            rejoin 56 32 bytes _ (
              rejoin_byte 88 bytes _ (omega (arith, size)) (
                rejoin 89 32 bytes _ (
                  rejoin_byte 121 bytes _ (omega (arith, size)) (
                    rejoin_word 122 8 bytes _ are (omega (arith, size)) (
                      rejoin_word 130 8 bytes _ are (omega (arith, size)) (
                        rejoin_word 138 8 bytes _ are (omega (arith, size)) (
                          rejoin_word 146 8 bytes _ are (omega (arith, size)) (
                            rejoin_word 154 4 bytes [] are (omega (arith, size))
                              (sym (drop_all 158 bytes size)))))))))))))

-- Bytes that `decode` accepts are, byte for byte, what `encode` makes of the decoded header.
pub encode-decode :
    (bytes : Bytes) (h : SegmentHeader) → AreBytes bytes → decode bytes ≡ ok h → encode h ≡ ok bytes
unfolding decode encode
encode-decode bytes h are e =
    let (framed, more) =
      >>-ok
        (reject (not (length bytes == header_bytes) || not (slice 0 8 bytes == magic)) invalid_data)
        _ h e in
    let (valid, same) = >>-ok (validate_header (read_fields bytes)) _ h more in
    let (sized, started) = or-false _ _ (reject-ok _ _ framed) in
    let fields = ok-injective _ _ same in
    subst (λ g. encode g ≡ ok bytes) fields
      (rw (encode, valid)
        (ap ok (
          header_layout-read_fields bytes are (eq-== _ _ (not-false _ sized))
            (eq-== _ _ (not-false _ started)))))

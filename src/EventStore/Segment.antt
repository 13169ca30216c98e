-- ===== src/EventStore/Segment.antt =====
-- Whole segments: a header and a body (src/registry_event_store/codec.rs).
use devicelane.Shared.{
  ℕ, ◌+◌, ◌-◌, ◌≤◌, ◌<◌, ◌≡◌, refl, sym, ap, ◌∙◌, subst, true, false, not, ◌&&◌, ◌||◌, ◌++◌, Bytes,
  nat_eq, ◌==◌, ltb, leb, length, length-append, length-drop, take, drop, AreBytes, All-take,
  take_front, drop_front, take-drop, ==-eq, eq-==, or-false, not-false, reject-ok, ok-injective,
  reject, >>-ok, >>=-ok, ok, arith,
}
use devicelane.EventStore.Codec.{
  SegmentHeader, invalid_data, header_bytes, max_body_bytes, is_misbound, is_misflagged,
  is_missized, is_miscounted, bit_1, validate_header, encode, decode, decode_segment,
}
use devicelane.EventStore.Header.{IsSized, decode-encode, encode-decode}

-- A header that passes has a body within the limit.
body_bound : (h : SegmentHeader) → validate_header h ≡ ok tt → h.body_length ≤ max_body_bytes
unfolding validate_header is_missized
body_bound h v =
    let (_, a) =
      or-false (is_misbound h) (is_misflagged h || (is_missized h || is_miscounted h))
        (reject-ok _ _ v) in
    let (_, b) = or-false (is_misflagged h) (is_missized h || is_miscounted h) a in
    let (c, _) = or-false (is_missized h) (is_miscounted h) b in
    let (_, d) =
      or-false (h.body_length == 0)
        (ltb max_body_bytes h.body_length
          || (not (bit_1 h.flags) && not (h.body_length == max_body_bytes)))
        c in
    within h.body_length (or-false (ltb max_body_bytes h.body_length) _ d).0
  where
    within : (n : ℕ) → ltb max_body_bytes n ≡ false → n ≤ max_body_bytes
    within n x = ground (arith, x)

-- A segment is the encoding of a header and as many bytes as the header says.
abbrev pub IsSegment : Bytes → SegmentHeader → Bytes → Type 0
IsSegment bytes h body =
    (front : Bytes) × (encode h ≡ ok front)
    × (bytes ≡ front ++ body)
    × (length body ≡ h.body_length)

in_range :
    (n b : ℕ)
    → b ≤ max_body_bytes
    → n ≡ header_bytes + b
    → (leb header_bytes n && leb n (header_bytes + max_body_bytes)) ≡ true
in_range n b h e = ground (arith, h, e)

decode_segment_by :
    (bytes : Bytes) (h : SegmentHeader)
    → decode (take header_bytes bytes) ≡ ok h
    → h.body_length ≤ max_body_bytes
    → length bytes ≡ header_bytes + h.body_length
    → decode_segment bytes ≡ ok (h, drop header_bytes bytes)
unfolding decode_segment
decode_segment_by bytes h decoded fits size =
    rw (decode_segment, in_range (length bytes) h.body_length fits size, decoded, ==-eq _ _ size)
      refl

-- `decode_segment` of an encoded header, whose fields have the widths of their types, followed by
-- as many bytes as the header says, gives the header and those bytes.
pub decode_segment-IsSegment :
    (h : SegmentHeader) (bytes body : Bytes)
    → IsSized h
    → IsSegment bytes h body
    → decode_segment bytes ≡ ok (h, body)
unfolding encode
decode_segment-IsSegment h bytes body s (front, encoded, joined, size) =
    let (valid, _) = >>-ok (validate_header h) _ front encoded in
    let (start, decoded) = decode-encode h front s encoded in
    let total : length (front ++ body) ≡ header_bytes + h.body_length =
      sum (length (front ++ body)) (length front) (length body) h.body_length
        (length-append front body) start size in
    subst (λ b. decode_segment b ≡ ok (h, body)) (sym joined)
      (decode_segment_by (front ++ body) h
          (ap decode (take_front header_bytes front body start) ∙ decoded) (body_bound h valid)
          total
        ∙ ap (λ b. ok (h, b)) (drop_front header_bytes front body start))
  where
    sum : (n a b c : ℕ) → n ≡ a + b → a ≡ header_bytes → b ≡ c → n ≡ header_bytes + c
    sum n a b c x y z = omega (arith, x, y, z)

-- `decode_segment` accepts no other bytes: what it accepts is the encoding of the header that it
-- returns, followed by the body, as long as the header says.
pub IsSegment-decode_segment :
    (h : SegmentHeader) (bytes body : Bytes)
    → AreBytes bytes
    → decode_segment bytes ≡ ok (h, body)
    → IsSegment bytes h body
unfolding decode_segment
IsSegment-decode_segment h bytes body are e =
    let (_, more) = >>-ok (reject _ invalid_data) _ (h, body) e in
    let (g, decoded, last) = >>=-ok (decode (take header_bytes bytes)) _ (h, body) more in
    let (sized, done) =
      >>-ok (reject (not (length bytes == header_bytes + g.body_length)) invalid_data) _ (h, body)
        last in
    let same = ok-injective _ _ done in
    let size = eq-== _ _ (not-false _ (reject-ok _ _ sized)) in
    (
      take header_bytes bytes,
      encode-decode (take header_bytes bytes) h (All-take (λ b. b < 256) header_bytes bytes are)
          (decoded ∙ ap (λ p. ok p.0) same),
      sym (take-drop header_bytes bytes) ∙ ap (λ p. take header_bytes bytes ++ p.1) same,
      ap (λ p. length p.1) (sym same)
          ∙ rest (length-drop header_bytes bytes) size
          ∙ ap (λ p. p.0.body_length) same,
    )
  where
    rest : {n m b : ℕ} → n ≡ m - header_bytes → m ≡ header_bytes + b → n ≡ b
    rest x y = omega (arith, x, y)

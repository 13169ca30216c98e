-- ===== src/EventStore/Fields.antt =====
-- Fields of a layout of bytes (src/registry_event_store/codec.rs).
use devicelane.Shared.{
  ℕ, ◌+◌, ◌-◌, ◌≤◌, ◌<◌, ◌≡◌, refl, ap, ◌∙◌, [], ◌∷◌, ◌++◌, Bytes, length, length-append,
  length-drop, length-take, All-take, All-drop, to_le_bytes-from_le_bytes, nat_eq, bytes_eq,
  take-drop, take, drop, to_le_bytes, from_le_bytes, byte_values, AreBytes, length-to_le_bytes,
  from_le_bytes-to_le_bytes, take_front, drop_front, drop_add, arith,
}
use devicelane.EventStore.Codec.{slice, byte_at}

-- The next field of a layout, and what follows it.
pub next_field :
    (from w : ℕ) (bytes x rest : Bytes)
    → drop from bytes ≡ x ++ rest
    → length x ≡ w
    → (slice from (from + w) bytes ≡ x) × (drop (from + w) bytes ≡ rest)
unfolding slice
next_field from w bytes x rest h k = (
  ap (λ n. take n (drop from bytes)) (omega arith) ∙ ap (take w) h ∙ take_front w x rest k,
  drop_add from w bytes ∙ ap (drop w) h ∙ drop_front w x rest k,
)

pub next_byte :
    (at : ℕ) (bytes : Bytes) (b : ℕ) (rest : Bytes)
    → drop at bytes ≡ b ∷ rest
    → (byte_at at bytes ≡ b) × (drop (at + 1) bytes ≡ rest)
unfolding byte_at
next_byte at bytes b rest h = (rw (byte_at, h) refl, drop_add at 1 bytes ∙ ap (drop 1) h)

pub next_word :
    (from w n : ℕ) (bytes rest : Bytes)
    → drop from bytes ≡ to_le_bytes w n ++ rest
    → n < byte_values w
    → (from_le_bytes (slice from (from + w) bytes) ≡ n) × (drop (from + w) bytes ≡ rest)
next_word from w n bytes rest h k =
    let (field, more) = next_field from w bytes (to_le_bytes w n) rest h (length-to_le_bytes w n) in
    (ap from_le_bytes field ∙ from_le_bytes-to_le_bytes w n k, more)

pub length_field :
    (x rest : Bytes) (w n : ℕ) → length x ≡ w → length rest ≡ n → length (x ++ rest) ≡ w + n
length_field x rest w n h k = omega (arith, length-append x rest, h, k)

pub length_byte : (b : ℕ) (rest : Bytes) (n : ℕ) → length rest ≡ n → length (b ∷ rest) ≡ 1 + n
length_byte b rest n k = omega (arith, k)

pub length_word :
    (w v : ℕ) (rest : Bytes) (n : ℕ) → length rest ≡ n → length (to_le_bytes w v ++ rest) ≡ w + n
length_word w v rest n k = length_field (to_le_bytes w v) rest w n (length-to_le_bytes w v) k

-- A field and what follows it are what the array has from there.
pub rejoin :
    (from w : ℕ) (bytes rest : Bytes)
    → rest ≡ drop (from + w) bytes
    → slice from (from + w) bytes ++ rest ≡ drop from bytes
unfolding slice
rejoin from w bytes rest h =
    let width : from + w - from ≡ w = omega arith in
    ap (λ r. take (from + w - from) (drop from bytes) ++ r) (h ∙ drop_add from w bytes)
    ∙ ap (λ n. take n (drop from bytes) ++ drop w (drop from bytes)) width
    ∙ take-drop w (drop from bytes)

pub rejoin_byte :
    (at : ℕ) (bytes rest : Bytes)
    → at < length bytes
    → rest ≡ drop (at + 1) bytes
    → byte_at at bytes ∷ rest ≡ drop at bytes
unfolding byte_at
rejoin_byte at bytes rest inside h =
    first (drop at bytes) (omega (arith, length-drop at bytes, inside)) (h ∙ drop_add at 1 bytes)
  where
    first :
        (xs : Bytes)
        → 0 < length xs
        → rest ≡ drop 1 xs
        → (elim xs [ [] ↦ 0 | b ∷ _ ↦ b ]) ∷ rest ≡ xs
    first [] i k = absurd (omega (arith, i))
    first (x ∷ xs) i k = ap (◌∷◌ x) k

pub rejoin_word :
    (from w : ℕ) (bytes rest : Bytes)
    → AreBytes bytes
    → from + w ≤ length bytes
    → rest ≡ drop (from + w) bytes
    → to_le_bytes w (from_le_bytes (slice from (from + w) bytes)) ++ rest ≡ drop from bytes
unfolding slice
rejoin_word from w bytes rest are inside h =
    let width : from + w - from ≡ w = omega arith in
    let size : length (slice from (from + w) bytes) ≡ w =
      omega
        (arith, length-take (from + w - from) (drop from bytes), length-drop from bytes, inside) in
    ap (λ x. x ++ rest)
      (to_le_bytes-from_le_bytes w (slice from (from + w) bytes)
        (All-take (λ b. b < 256) (from + w - from) (drop from bytes)
          (All-drop (λ b. b < 256) from bytes are))
        size)
    ∙ rejoin from w bytes rest h

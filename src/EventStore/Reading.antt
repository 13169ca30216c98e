-- ===== src/EventStore/Reading.antt =====
-- Reading from a limited source (src/registry_event_store/events.rs).
use devicelane.Shared.{
  ℕ, zero, suc, ◌+◌, ◌-◌, ◌≤◌, ◌<◌, min, ◌≡◌, refl, sym, ap, ◌∙◌, subst, inl, inr, Bool, Bool-cases,
  true, false, not, ◌&&◌, [], ◌++◌, append_assoc, Bytes, nat_eq, ◌==◌, ltb, leb, length,
  length-append, length-take, length-drop, take, drop, take_front, drop_front, take_add, drop_add,
  take-drop, append-All, AreBytes, byte_values, length-to_le_bytes, from_le_bytes-to_le_bytes,
  to_le_bytes-from_le_bytes, from_le_bytes_bound, ℕ_discrete, append-All, reject-ok, not-false,
  eq-==, ok-injective, >>-ok, >>=-ok, ok, err, ◌>>=◌, reject, arith,
}
use devicelane.EventStore.Codec.{invalid_data, unexpected_eof}
use devicelane.EventStore.Events.{
  Take, read_exact, read_u64, read_chunks, read_string, is_utf8, write_u64, write_string,
}

-- A source that starts with the bytes, and a limit that reaches over them.
abbrev pub ahead : Bytes → Take → Take
ahead bytes t = record { source = bytes ++ t.source; limit = length bytes + t.limit }

pub Take_path : (s t : Take) → s.source ≡ t.source → s.limit ≡ t.limit → s ≡ t
Take_path s t h k = λ i. record { source = h i; limit = k i }

pub ahead_none : (t : Take) → ahead [] t ≡ t
ahead_none t = Take_path (ahead [] t) t refl (omega arith)

pub ahead-append : (x y : Bytes) (t : Take) → ahead (x ++ y) t ≡ ahead x (ahead y t)
ahead-append x y t =
    Take_path (ahead (x ++ y) t) (ahead x (ahead y t)) (append_assoc x y t.source)
      (omega (arith, length-append x y))

pub read_exact-ahead :
    (n : ℕ) (x : Bytes) (t : Take) → length x ≡ n → read_exact n (ahead x t) ≡ ok (x, t)
unfolding read_exact
read_exact-ahead n x t h =
    rw (read_exact, enough (length (x ++ t.source)) (length-append x t.source))
      (λ i. ok (
        take_front n x t.source h i,
        Take_path (record { source = drop n (x ++ t.source); limit = length x + t.limit - n }) t
            (drop_front n x t.source h) (omega (arith, h)) i,
      ))
  where
    enough :
        (m : ℕ) → m ≡ length x + length t.source → (leb n (length x + t.limit) && leb n m) ≡ true
    enough m e = ground (arith, e, h)

-- What is read was ahead.
pub ahead-read_exact :
    (n : ℕ) (t : Take) (x : Bytes) (u : Take)
    → read_exact n t ≡ ok (x, u)
    → (t ≡ ahead x u) × (length x ≡ n)
unfolding read_exact
ahead-read_exact n t x u h = elim (Bool-cases (leb n t.limit && leb n (length t.source))) [
  | inr short ↦
      let failed : err unexpected_eof ≡ ok (x, u) = rw (read_exact, short) at h in
      absurd (ground (arith, failed))
  | inl enough ↦
      let done : ok (take n t.source, record { source = drop n t.source; limit = t.limit - n })
          ≡ ok (x, u) =
        rw (read_exact, enough) at h in
      let same = ok-injective _ _ done in
      subst (λ p. (t ≡ ahead p.0 p.1) × (length p.0 ≡ n)) same
        (
          Take_path t _ (sym (take-drop n t.source)) (limits enough (length-take n t.source)),
          size enough (length-take n t.source),
        )
]
  where
    limits :
        {m : ℕ}
        → (leb n t.limit && leb n (length t.source)) ≡ true
        → m ≡ min n (length t.source)
        → t.limit ≡ m + (t.limit - n)
    limits e k = ground (arith, e, k)

    size :
        {m : ℕ}
        → (leb n t.limit && leb n (length t.source)) ≡ true
        → m ≡ min n (length t.source)
        → m ≡ n
    size e k = ground (arith, e, k)

pub read_u64-ahead :
    (v : ℕ) (t : Take) → v < byte_values 8 → read_u64 (ahead (write_u64 v) t) ≡ ok (v, t)
unfolding read_u64
read_u64-ahead v t h =
    rw (read_u64, read_exact-ahead 8 (write_u64 v) t (length-to_le_bytes 8 v))
      (ap (λ n. ok (n, t)) (from_le_bytes-to_le_bytes 8 v h))

pub ahead-read_u64 :
    (t : Take) (v : ℕ) (u : Take)
    → AreBytes t.source
    → read_u64 t ≡ ok (v, u)
    → (t ≡ ahead (write_u64 v) u) × (v < byte_values 8) × AreBytes u.source
unfolding read_u64
ahead-read_u64 t v u are h =
    let (p, read, done) = >>=-ok (read_exact 8 t) _ (v, u) h in
    let (same, size) = ahead-read_exact 8 t p.0 p.1 read in
    let (front, rest) =
      append-All (λ b. b < 256) p.0 p.1.source (subst AreBytes (ap (λ r. r.source) same) are) in
    subst (λ q. (t ≡ ahead (write_u64 q.0) q.1) × (q.0 < byte_values 8) × AreBytes q.1.source)
      (ok-injective _ _ done)
      (
        same ∙ ap (λ b. ahead b p.1) (sym (to_le_bytes-from_le_bytes 8 p.0 front size)),
        from_le_bytes_bound 8 p.0 front size,
        rest,
      )

-- A read is a read of its first part and one of the others.
read_exact_split :
    (k m : ℕ) (t : Take)
    → read_exact (k + m) t ≡ (do p ← read_exact k t; q ← read_exact m p.1; ok (p.0 ++ q.0, q.1))
unfolding read_exact
read_exact_split k m t = elim (Bool-cases (leb k t.limit && leb k (length t.source))) [
  | inr short ↦ rw (read_exact, short, fails short) refl
  | inl enough ↦ elim (Bool-cases (leb (k + m) t.limit && leb (k + m) (length t.source))) [
    | inr longer ↦
        rw (read_exact, enough, longer, later enough longer (length-drop k t.source)) refl
    | inl all ↦
        rw (read_exact, enough, all, later enough all (length-drop k t.source))
          (λ i. ok (
            take_add k m t.source i,
            Take_path (record { source = drop (k + m) t.source; limit = t.limit - (k + m) })
                (record { source = drop m (drop k t.source); limit = t.limit - k - m })
                (drop_add k m t.source) (omega arith) i,
          ))
  ]
]
  where
    fails :
        (leb k t.limit && leb k (length t.source)) ≡ false
        → (leb (k + m) t.limit && leb (k + m) (length t.source)) ≡ false
    fails e = ground (arith, e)

    later :
        {r : ℕ} {b : Bool}
        → (leb k t.limit && leb k (length t.source)) ≡ true
        → (leb (k + m) t.limit && leb (k + m) (length t.source)) ≡ b
        → r ≡ length t.source - k
        → (leb m (t.limit - k) && leb m r) ≡ b
    later e f g = ground (arith, e, f, g)

read_exact_zero : (t : Take) → read_exact 0 t ≡ ok ([], t)
read_exact_zero t = ap (read_exact 0) (sym (ahead_none t)) ∙ read_exact-ahead 0 [] t refl

-- With fuel for at least the bytes that remain, the loop that reads a string through the scratch
-- buffer ends and does what one exact read does, errors included.
pub read_chunks-read_exact :
    (fuel n : ℕ) (t : Take) → n ≤ fuel → read_chunks fuel n t ≡ read_exact n t
unfolding read_chunks ℕ_discrete
read_chunks-read_exact zero n t h =
    let none_left : n ≡ 0 = omega (arith, h) in
    subst (λ k. read_chunks zero k t ≡ read_exact k t) (sym none_left) (sym (read_exact_zero t))
read_chunks-read_exact (suc fuel) n t h = elim (Bool-cases (n == 0)) [
  | inl empty ↦
      rw (read_chunks, empty)
        (sym (read_exact_zero t) ∙ ap (λ k. read_exact k t) (sym (eq-== n 0 empty)))
  | inr more ↦
      rw (read_chunks, more)
        (ap (λ f. read_exact (min n 8192) t >>= f)
            (λ i p.
              read_chunks-read_exact fuel (n - min n 8192) p.1 (less more) i
              >>= (λ q. ok (p.0 ++ q.0, q.1)))
          ∙ sym (read_exact_split (min n 8192) (n - min n 8192) t)
          ∙ ap (λ k. read_exact k t) (omega arith))
]
  where
    less : (n == 0) ≡ false → n - min n 8192 ≤ fuel
    less e = ground (arith, e, h)

-- A string that is written, before what follows it.
pub read_string-ahead :
    (value : Bytes) (t : Take)
    → is_utf8 value ≡ true
    → length value < byte_values 8
    → read_string (ahead (write_string value) t) ≡ ok (value, t)
unfolding read_string write_string
read_string-ahead value t valid short =
    let size = read_u64-ahead (length value) (ahead value t) short in
    let chunks =
      read_chunks-read_exact (length value) (length value) (ahead value t) (omega arith)
      ∙ read_exact-ahead (length value) value t refl in
    ap read_string (ahead-append (write_u64 (length value)) value t)
    ∙ rw (read_string, size, fits, chunks, valid) refl
  where
    fits : ltb (length value + t.limit) (length value) ≡ false
    fits = ground arith

pub ahead-read_string :
    (t : Take) (value : Bytes) (u : Take)
    → AreBytes t.source
    → read_string t ≡ ok (value, u)
    → (t ≡ ahead (write_string value) u) × (is_utf8 value ≡ true) × AreBytes u.source
unfolding read_string write_string
ahead-read_string t value u are h =
    let (p, size, rest) = >>=-ok (read_u64 t) _ (value, u) h in
    let (_, more) = >>-ok (reject (ltb p.1.limit p.0) invalid_data) _ (value, u) rest in
    let (q, chunks, last) = >>=-ok (read_chunks p.0 p.0 p.1) _ (value, u) more in
    let (utf8, done) = >>-ok (reject (not (is_utf8 q.0)) invalid_data) _ (value, u) last in
    let (start, _, are_rest) = ahead-read_u64 t p.0 p.1 are size in
    let (same, length_read) =
      ahead-read_exact p.0 p.1 q.0 q.1
        (sym (read_chunks-read_exact p.0 p.0 p.1 (omega arith)) ∙ chunks) in
    let (_, are_last) =
      append-All (λ b. b < 256) q.0 q.1.source
        (subst AreBytes (ap (λ r. r.source) same) are_rest) in
    subst (λ r. (t ≡ ahead (write_string r.0) r.1) × (is_utf8 r.0 ≡ true) × AreBytes r.1.source)
      (ok-injective _ _ done)
      (
        start
            ∙ ap (λ n. ahead (write_u64 n) p.1) (sym length_read)
            ∙ ap (ahead (write_u64 (length q.0))) same
            ∙ sym (ahead-append (write_u64 (length q.0)) q.0 q.1),
        not-false _ (reject-ok _ _ utf8),
        are_last,
      )

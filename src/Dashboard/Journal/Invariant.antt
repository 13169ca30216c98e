-- ===== src/Dashboard/Journal/Invariant.antt =====
-- The journal's invariant (src/dashboard/event_log.rs).
use devicelane.Shared.{
  ℕ, suc, ◌+◌, ◌-◌, ◌≤◌, ◌<◌, ◌≡◌, ◌≢◌, refl, subst, Option, none, some, List, [], ◌∷◌, ◌++◌,
  String, Bytes, string_eq, ◌==◌, if◌then◌else◌, length, All, All-append, length-append, ok, err,
  arith, u64_max,
}
use devicelane.Map.{Map, get, insert, remove, IsMap, get-insert, get-remove}
use devicelane.Dashboard.Model.{ActivityEvent}
use devicelane.Dashboard.Journal.State.{
  Inner, StoredEvent, Subscriber, Codec, max_events, max_event_bytes, max_subscribers, with_bounds,
  rotate_locked,
}

-- The bytes of the entries together.
abbrev pub total : List StoredEvent → ℕ
total [] = 0
total (e ∷ es) = e.serialized_bytes + total es

-- The entries are numbered one after the other.
abbrev pub From : ℕ → List StoredEvent → Type 0
From n [] = Unit
From n (e ∷ es) = (e.cursor_sequence ≡ n) × From (suc n) es

-- No entry has the key.
abbrev pub Unused : String → List StoredEvent → Type 0
Unused key = All (λ e. key ≢ e.idempotency_key)

-- No two entries share a key.
abbrev pub Distinct : List StoredEvent → Type 0
Distinct [] = Unit
Distinct (e ∷ es) = Unused e.idempotency_key es × Distinct es

module _ (c : Codec) where
  abbrev pub event_digest : ActivityEvent → Bytes
  event_digest event = elim (c.to_vec event) [ ok json ↦ c.sha256 json | err _ ↦ [] ]

  -- The digest of the entry with the key.
  abbrev pub digest_of : String → List StoredEvent → Option Bytes
  digest_of key [] = none
  digest_of key (e ∷ es) =
      if e.idempotency_key == key then some (event_digest e.event) else digest_of key es

  -- An entry's size is that of its JSON.
  abbrev pub Encoded : StoredEvent → Type 0
  Encoded e = (json : Bytes) × (c.to_vec e.event ≡ ok json) × (e.serialized_bytes ≡ length json)

  -- The entries below the cursor `stop`, with the byte count and the key index that go with them.
  pub record IsLog (stop : ℕ) (es : List StoredEvent) (bytes : ℕ) (keys : Map String Bytes)
      : Type 0 where
    pub below : length es < stop
    pub numbered : From (stop - length es) es
    pub measured : bytes ≡ total es
    pub distinct : Distinct es
    pub indexed : (key : String) → get key keys ≡ digest_of key es
    pub encoded : All Encoded es

  pub record IsJournal (s : Inner) : Type 0 where
    pub log : IsLog s.next_cursor_sequence s.events s.serialized_bytes s.idempotency
    pub in_u64 : s.next_cursor_sequence ≤ u64_max
    pub few : length s.events ≤ s.max_events
    pub small : s.serialized_bytes ≤ s.max_bytes
    pub few_at_most : s.max_events ≤ max_events
    pub small_at_most : s.max_bytes ≤ max_event_bytes
    pub activities : length s.activity_sequences ≤ max_events
    pub audience : length s.subscribers ≤ max_subscribers
    pub unique : IsMap s.subscribers
    pub heard :
        All
          (λ (p : String × Subscriber).
            (p.1.acknowledged.epoch ≡ s.epoch)
            × (p.1.acknowledged.sequence < s.next_cursor_sequence))
          s.subscribers

  pub digest_of-Unused :
      (key : String) (es : List StoredEvent) → Unused key es → digest_of key es ≡ none
  digest_of-Unused key [] u = refl
  digest_of-Unused key (e ∷ es) u = ground (arith, digest_of-Unused key es u.1)

  pub Unused-digest_of :
      (key : String) (es : List StoredEvent) → digest_of key es ≡ none → Unused key es
  Unused-digest_of key [] h = tt
  Unused-digest_of key (e ∷ es) h = ground (arith, Unused-digest_of key es)

  digest_of-append :
      (key : String) (es : List StoredEvent) (x : StoredEvent)
      → digest_of key es ≡ none
      → x.idempotency_key ≡ key
      → digest_of key (es ++ x ∷ []) ≡ some (event_digest x.event)
  digest_of-append key [] x h k = ground arith
  digest_of-append key (e ∷ es) x h k = ground (arith, digest_of-append key es x)

  digest_of-append_ne :
      (key : String) (es : List StoredEvent) (x : StoredEvent)
      → x.idempotency_key ≢ key
      → digest_of key (es ++ x ∷ []) ≡ digest_of key es
  digest_of-append_ne key [] x k = ground arith
  digest_of-append_ne key (e ∷ es) x k = ground (arith, digest_of-append_ne key es x k)

  total-append :
      (es : List StoredEvent) (x : StoredEvent)
      → total (es ++ x ∷ []) ≡ total es + x.serialized_bytes
  total-append [] x = omega arith
  total-append (e ∷ es) x = omega (arith, total-append es x)

  From-append :
      (n m : ℕ) (es : List StoredEvent) (x : StoredEvent)
      → From n es
      → m ≡ n + length es
      → x.cursor_sequence ≡ m
      → From n (es ++ x ∷ [])
  From-append n m [] x f h k = ground arith
  From-append n m (e ∷ es) x f h k = (f.0, From-append (suc n) m es x f.1 (omega arith) k)

  Unused-append :
      (key : String) (es : List StoredEvent) (x : StoredEvent)
      → Unused key es
      → key ≢ x.idempotency_key
      → Unused key (es ++ x ∷ [])
  Unused-append key [] x u k = (k, tt)
  Unused-append key (e ∷ es) x u k = (u.0, Unused-append key es x u.1 k)

  Distinct-append :
      (es : List StoredEvent) (x : StoredEvent)
      → Distinct es
      → Unused x.idempotency_key es
      → Distinct (es ++ x ∷ [])
  Distinct-append [] x d u = (tt, tt)
  Distinct-append (e ∷ es) x d u = (
    Unused-append e.idempotency_key es x d.0 (λ p. u.0 (ground arith)),
    Distinct-append es x d.1 u.1,
  )

  -- Dropping the oldest entry, its bytes and its key.
  pub IsLog-tail :
      (stop : ℕ) (e : StoredEvent) (es : List StoredEvent) (bytes : ℕ) (keys : Map String Bytes)
      → IsLog stop (e ∷ es) bytes keys
      → IsLog stop es (bytes - e.serialized_bytes) (remove e.idempotency_key keys)
  IsLog-tail stop e es bytes keys v = record {
    below = omega (arith, v.below);
    numbered = subst (λ n. From n es) (omega (arith, v.below)) v.numbered.1;
    measured = omega (arith, v.measured);
    distinct = v.distinct.1;
    indexed = λ key. ground (
      arith,
      get-remove e.idempotency_key key keys,
      v.indexed key,
      digest_of-Unused e.idempotency_key es v.distinct.0,
    );
    encoded = v.encoded.1;
  }

  -- Adding a newest entry under an unused key.
  pub IsLog-append :
      (stop : ℕ) (es : List StoredEvent) (x : StoredEvent) (bytes : ℕ) (keys : Map String Bytes)
      → IsLog stop es bytes keys
      → x.cursor_sequence ≡ stop
      → get x.idempotency_key keys ≡ none
      → Encoded x
      → IsLog
          (suc stop)
          (es ++ x ∷ [])
          (bytes + x.serialized_bytes)
          (insert x.idempotency_key (event_digest x.event) keys)
  IsLog-append stop es x bytes keys v at new json = record {
    below = omega (arith, length-append es (x ∷ []), v.below);
    numbered =
        subst (λ n. From n (es ++ x ∷ [])) (omega (arith, length-append es (x ∷ []), v.below))
          (From-append (stop - length es) stop es x v.numbered (omega (arith, v.below)) at);
    measured = omega (arith, total-append es x, v.measured);
    distinct = Distinct-append es x v.distinct (Unused-digest_of x.idempotency_key es unused);
    indexed = λ key. ground (
      arith,
      get-insert x.idempotency_key key (event_digest x.event) keys,
      v.indexed key,
      unused,
      digest_of-append key es x,
      digest_of-append_ne key es x,
    );
    encoded = All-append Encoded es (x ∷ []) v.encoded (json, tt);
  }
    where
      unused : digest_of x.idempotency_key es ≡ none
      unused = cc (new, v.indexed x.idempotency_key)

  IsLog-empty : IsLog 1 [] 0 []
  unfolding get
  IsLog-empty = record {
    below = omega arith;
    numbered = tt;
    measured = refl;
    distinct = tt;
    indexed = λ key. refl;
    encoded = tt;
  }

  pub with_bounds-IsJournal :
      (epoch revision events bytes : ℕ) → IsJournal (with_bounds epoch revision events bytes)
  unfolding with_bounds
  with_bounds-IsJournal epoch revision events bytes = record {
    log = IsLog-empty;
    in_u64 = omega arith;
    few = omega arith;
    small = omega arith;
    few_at_most = omega arith;
    small_at_most = omega arith;
    activities = omega arith;
    audience = omega arith;
    unique = tt;
    heard = tt;
  }

  pub rotate_locked-IsJournal :
      (s : Inner) (epoch revision : ℕ) → IsJournal s → IsJournal (rotate_locked s epoch revision)
  unfolding rotate_locked
  rotate_locked-IsJournal s epoch revision v = record {
    log = IsLog-empty;
    in_u64 = omega arith;
    few = omega arith;
    small = omega arith;
    few_at_most = v.few_at_most;
    small_at_most = v.small_at_most;
    activities = omega arith;
    audience = omega arith;
    unique = tt;
    heard = tt;
  }

-- ===== src/ControllerSession/Once.antt =====
-- Sessions are used once (src/lib.rs, module `controller_session`).
use devicelane.Shared.{
  ℕ, ◌≤◌, ◌≡◌, refl, sym, ap, ◌∙◌, subst, inl, inr, ◌⊎◌, Bool-cases, true, false, not, ◌&&◌, [],
  ◌∷◌, ◌++◌, String, string_eq, nat_eq, Bytes, ◌==◌, leb, length, any, retain, In, In-left, In-last,
  In-retain, any-In, Result, Result-cases, ok, err, reject, reject-ok, ok-injective, eq-==, ==-eq,
  not-false, >>-ok, >>=-ok, arith,
}
use devicelane.ControllerSession.Transport.{
  ControllerSessionError, replay_detected, replay_cache_unavailable,
}
use devicelane.ControllerSession.Replay.{
  ReplayEntry, ReplayState, File, stored, Attempt, replay_key, load, next_state, consume_locked,
  consume,
}

-- The file holds the entry.
abbrev pub Holds : ReplayEntry → File → Type 0
Holds entry file =
    (state : ReplayState) × (file ≡ stored state) × (state.version ≡ 1) × In entry state.entries

module _ (sha256 : Bytes → Bytes) where
  abbrev pub entry_of : String → String → ℕ → ReplayEntry
  entry_of session_id challenge expires_at_ms = record {
    key_sha256 = replay_key sha256 session_id challenge;
    expires_at_ms = expires_at_ms;
  }

  -- What a state to write has.
  record Grows (max_entries : ℕ) (file : File) (session_id challenge : String)
      (expires_at_ms now_ms : ℕ) (next : ReplayState) : Type 0 where
    state : ReplayState
    loaded : load sha256 file ≡ ok state
    version : state.version ≡ 1
    fresh :
        any
          (λ entry. entry.key_sha256 == replay_key sha256 session_id challenge)
          (retain (λ entry. leb now_ms entry.expires_at_ms) state.entries)
        ≡ false
    next_version : next.version ≡ 1
    entries :
        next.entries
        ≡ retain (λ entry. leb now_ms entry.expires_at_ms) state.entries
          ++ entry_of session_id challenge expires_at_ms ∷ []

  next_state-Grows :
      (max_entries : ℕ) (file : File) (session_id challenge : String) (expires_at_ms now_ms : ℕ)
      (next : ReplayState)
      → next_state sha256 max_entries file session_id challenge expires_at_ms now_ms ≡ ok next
      → Grows max_entries file session_id challenge expires_at_ms now_ms next
  unfolding next_state
  next_state-Grows max_entries file session_id challenge expires_at_ms now_ms next h =
      let (state, loaded, a) = >>=-ok (load sha256 file) _ next h in
      let (version, b) =
        >>-ok (reject (not (state.version == 1)) replay_cache_unavailable) _ next a in
      let (fresh, c) =
        >>-ok
          (reject
            (any (λ entry. entry.key_sha256 == replay_key sha256 session_id challenge)
              (retain (λ entry. leb now_ms entry.expires_at_ms) state.entries))
            replay_detected)
          _ next b in
      let (_, d) =
        >>-ok
          (reject
            (leb max_entries
              (length (retain (λ entry. leb now_ms entry.expires_at_ms) state.entries)))
            replay_cache_unavailable)
          _ next c in
      let same = ok-injective _ _ d in
      let one : state.version ≡ 1 = eq-== _ _ (not-false _ (reject-ok _ _ version)) in
      record {
        state = state;
        loaded = loaded;
        version = one;
        fresh = reject-ok _ _ fresh;
        next_version = ap (λ s. s.version) (sym same) ∙ one;
        entries = ap (λ s. s.entries) (sym same);
      }

  load-Holds :
      (entry : ReplayEntry) (file : File) (state : ReplayState)
      → Holds entry file
      → load sha256 file ≡ ok state
      → In entry state.entries
  unfolding load
  load-Holds entry file state (other, at, _, member) h =
      subst (λ s. In entry s.entries)
        (ok-injective _ _ (subst (λ f. load sha256 f ≡ ok state) at h)) member

  -- What a consumption that succeeds leaves, and one that fails.
  consume-cases :
      (max_entries : ℕ) (file : File) (session_id challenge : String) (expires_at_ms now_ms : ℕ)
      (attempt : Attempt)
      → ((e : ControllerSessionError) × (consume sha256 max_entries file session_id challenge
              expires_at_ms now_ms attempt
            ≡ (file, err e)))
        ⊎ ((next : ReplayState) × (next_state sha256 max_entries file session_id challenge
                expires_at_ms now_ms
              ≡ ok next)
            × (consume sha256 max_entries file session_id challenge expires_at_ms now_ms attempt
                ≡ (stored next, ok tt)))
  unfolding consume consume_locked
  consume-cases max_entries file session_id challenge expires_at_ms now_ms attempt =
      elim (Bool-cases attempt.locks) [
        | inr free ↦ inl (replay_cache_unavailable, rw (consume, free) refl)
        | inl locked ↦
            elim (Result-cases
              (next_state sha256 max_entries file session_id challenge expires_at_ms now_ms)) [
                | inr (e, refused) ↦ inl (e, rw (consume, locked, consume_locked, refused) refl)
                | inl (next, grown) ↦
                    elim (Bool-cases (attempt.creates && (attempt.writes && attempt.replaces))) [
                      | inl done ↦
                          inr (next, grown, rw (consume, locked, consume_locked, grown, done) refl)
                      | inr failed ↦ inl (
                        replay_cache_unavailable,
                        rw (consume, locked, consume_locked, grown, failed) refl,
                      )
                    ]
              ]
      ]

  consume-Holds :
      (entry : ReplayEntry) (max_entries : ℕ) (file : File) (session_id challenge : String)
      (expires_at_ms now_ms : ℕ) (attempt : Attempt)
      → now_ms ≤ entry.expires_at_ms
      → Holds entry file
      → Holds entry
          (consume sha256 max_entries file session_id challenge expires_at_ms now_ms attempt).0
  consume-Holds entry max_entries file session_id challenge expires_at_ms now_ms attempt alive
        holds =
      elim (consume-cases max_entries file session_id challenge expires_at_ms now_ms attempt) [
        | inl (e, same) ↦ subst (λ r. Holds entry r.0) (sym same) holds
        | inr (next, grown, same) ↦
            let g =
              next_state-Grows max_entries file session_id challenge expires_at_ms now_ms next
                grown in
            let member = load-Holds entry file g.state holds g.loaded in
            let stays : leb now_ms entry.expires_at_ms ≡ true = ground (arith, alive) in
            subst (λ r. Holds entry r.0) (sym same)
              (
                next,
                refl,
                g.next_version,
                subst (In entry) (sym g.entries) (
                    In-left entry _ _ (
                      In-retain (λ x. leb now_ms x.expires_at_ms) entry g.state.entries member
                        stays)),
              )
      ]

  -- A consumption that succeeds records its session.
  pub consume-records :
      (max_entries : ℕ) (file : File) (session_id challenge : String) (expires_at_ms now_ms : ℕ)
      (attempt : Attempt)
      → (consume sha256 max_entries file session_id challenge expires_at_ms now_ms attempt).1
        ≡ ok tt
      → Holds
          (entry_of session_id challenge expires_at_ms)
          (consume sha256 max_entries file session_id challenge expires_at_ms now_ms attempt).0
  consume-records max_entries file session_id challenge expires_at_ms now_ms attempt h =
      elim (consume-cases max_entries file session_id challenge expires_at_ms now_ms attempt) [
        | inl (e, same) ↦
            let failed : err e ≡ ok tt = sym (ap (λ r. r.1) same) ∙ h in absurd (differ e failed)
        | inr (next, grown, same) ↦
            let g =
              next_state-Grows max_entries file session_id challenge expires_at_ms now_ms next
                grown in
            subst (λ r. Holds (entry_of session_id challenge expires_at_ms) r.0) (sym same)
              (
                next,
                refl,
                g.next_version,
                subst (In (entry_of session_id challenge expires_at_ms)) (sym g.entries)
                    (In-last _ _),
              )
      ]
    where
      differ :
          (e : ControllerSessionError)
          → ◌≡◌ {A = Result ControllerSessionError (Unit {0})} (err e) (ok tt)
          → ⊥
      differ e x = ground (arith, x)

  -- A session that the file holds is refused until it expires.
  pub consume-refuses :
      (max_entries : ℕ) (file : File) (session_id challenge : String)
      (expires_at_ms again now_ms : ℕ) (attempt : Attempt)
      → now_ms ≤ expires_at_ms
      → Holds (entry_of session_id challenge expires_at_ms) file
      → (e : ControllerSessionError) × ((consume sha256 max_entries file session_id challenge again
            now_ms attempt).1
          ≡ err e)
  consume-refuses max_entries file session_id challenge expires_at_ms again now_ms attempt alive
        holds =
      elim (consume-cases max_entries file session_id challenge again now_ms attempt) [
        | inl (e, same) ↦ (e, ap (λ r. r.1) same)
        | inr (next, grown, same) ↦
            let g =
              next_state-Grows max_entries file session_id challenge again now_ms next grown in
            let entry = entry_of session_id challenge expires_at_ms in
            let member = load-Holds entry file g.state holds g.loaded in
            let stays : leb now_ms expires_at_ms ≡ true = ground (arith, alive) in
            let seen =
              any-In (λ x. x.key_sha256 == replay_key sha256 session_id challenge) entry
                (retain (λ x. leb now_ms x.expires_at_ms) g.state.entries)
                (In-retain (λ x. leb now_ms x.expires_at_ms) entry g.state.entries member stays)
                (==-eq entry.key_sha256 (replay_key sha256 session_id challenge) refl) in
            absurd (clash (sym seen ∙ g.fresh))
      ]
    where
      clash : true ≡ false → ⊥
      clash x = ground (arith, x)

  -- Consumptions by others, up to a time.
  pub data Step (now_ms : ℕ) (file after : File) : Type 0 where
    consumed :
        (max_entries : ℕ) (session_id challenge : String) (expires_at_ms time : ℕ)
        (attempt : Attempt)
        → time ≤ now_ms
        → (consume sha256 max_entries file session_id challenge expires_at_ms time attempt).0
          ≡ after
        → Step now_ms file after

  pub data Steps (now_ms : ℕ) : File → File → Type 0 where
    stay : {file : File} → Steps now_ms file file
    next :
        {file other after : File}
        → Step now_ms file other
        → Steps now_ms other after
        → Steps now_ms file after

  pub Steps-Holds :
      (entry : ReplayEntry) (now_ms : ℕ) (file after : File)
      → now_ms ≤ entry.expires_at_ms
      → Steps now_ms file after
      → Holds entry file
      → Holds entry after
  Steps-Holds entry now_ms file _ alive Steps.stay h = h
  Steps-Holds entry now_ms file after alive
        (Steps.next {other = other}
          (Step.consumed max_entries session_id challenge expires_at_ms time attempt past at)
          more)
        h =
      Steps-Holds entry now_ms other after alive more (
        subst (Holds entry) at (
          consume-Holds entry max_entries file session_id challenge expires_at_ms time attempt
            (omega (arith, past, alive)) h))

-- ===== src/ControllerSession/Replay.antt =====
-- The replay cache (src/lib.rs, module `controller_session`). SHA-256 is a parameter, and the
-- outcome of each file operation is an argument.
use devicelane.Shared.{
  ℕ, Bool, not, ◌&&◌, List, [], ◌∷◌, ◌++◌, String, string_eq, nat_eq, Bytes, ◌==◌, leb,
  if◌then◌else◌, length, any, retain, as_bytes, Result, ok, err, ◌>>=◌, ◌>>◌, reject,
}
use devicelane.Dashboard.Policy.Request.{hex}
use devicelane.ControllerSession.Transport.{
  ControllerSessionError, invalid_input, replay_detected, replay_cache_unavailable,
}

pub record ReplayEntry : Type 0 where
  pub key_sha256 : String
  pub expires_at_ms : ℕ

pub record ReplayState : Type 0 where
  pub version : ℕ
  pub entries : List ReplayEntry

-- The file of the cache: not there, not readable as a state, or a state.
pub data File : Type 0 where
  missing unreadable : File
  stored : ReplayState → File

-- Whether the lock file opens and locks, the temporary file is created, is written, and replaces.
pub record Attempt : Type 0 where
  pub locks : Bool
  pub creates : Bool
  pub writes : Bool
  pub replaces : Bool

-- b"devicelane.controller-session.replay.v1\0".
abbrev pub domain : Bytes
domain =
    100 ∷ 101 ∷ 118 ∷ 105 ∷ 99 ∷ 101 ∷ 108 ∷ 97 ∷ 110 ∷ 101 ∷ 46 ∷ 99 ∷ 111 ∷ 110 ∷ 116 ∷ 114 ∷ 111
    ∷ 108 ∷ 108 ∷ 101 ∷ 114 ∷ 45 ∷ 115 ∷ 101 ∷ 115 ∷ 115 ∷ 105 ∷ 111 ∷ 110 ∷ 46 ∷ 114 ∷ 101 ∷ 112
    ∷ 108 ∷ 97 ∷ 121 ∷ 46 ∷ 118 ∷ 49 ∷ 0 ∷ []

module _ (sha256 : Bytes → Bytes) where
  unfoldable pub replay_key : String → String → String
  replay_key session_id challenge =
      hex (sha256 (domain ++ (as_bytes session_id ++ 0 ∷ as_bytes challenge)))

  unfoldable pub load : File → Result ControllerSessionError ReplayState
  load missing = ok (record { version = 1; entries = [] })
  load unreadable = err replay_cache_unavailable
  load (stored state) = ok state

  -- The state to write.
  unfoldable pub next_state :
      ℕ → File → String → String → ℕ → ℕ → Result ControllerSessionError ReplayState
  next_state max_entries file session_id challenge expires_at_ms now_ms = do
    state ← load file
    reject (not (state.version == 1)) replay_cache_unavailable
    let kept = retain (λ entry. leb now_ms entry.expires_at_ms) state.entries
    let key = replay_key session_id challenge
    reject (any (λ entry. entry.key_sha256 == key) kept) replay_detected
    reject (leb max_entries (length kept)) replay_cache_unavailable
    ok (record state {
      entries = kept ++ record { key_sha256 = key; expires_at_ms = expires_at_ms } ∷ [];
    })

  unfoldable pub consume_locked :
      ℕ → File → String → String → ℕ → ℕ → Attempt → File × Result ControllerSessionError (Unit {0})
  consume_locked max_entries file session_id challenge expires_at_ms now_ms attempt =
      elim (next_state max_entries file session_id challenge expires_at_ms now_ms) [
        | err e ↦ (file, err e)
        | ok state ↦
            if attempt.creates && (attempt.writes && attempt.replaces)
            then (stored state, ok tt)
            else (file, err replay_cache_unavailable)
      ]

  unfoldable pub consume :
      ℕ → File → String → String → ℕ → ℕ → Attempt → File × Result ControllerSessionError (Unit {0})
  consume max_entries file session_id challenge expires_at_ms now_ms attempt =
      if attempt.locks
      then consume_locked max_entries file session_id challenge expires_at_ms now_ms attempt
      else (file, err replay_cache_unavailable)

-- `ControllerSessionReplayCache::open`, of a path that has a name or not and a parent or not, and
-- whether the parent's directories are made: the limit of the cache.
unfoldable pub open_cache : ℕ → Bool → Bool → Bool → Result ControllerSessionError ℕ
open_cache max_entries has_name has_parent makes = do
  reject (max_entries == 0) invalid_input
  reject (not (leb max_entries 65536)) invalid_input
  reject (not has_name) invalid_input
  reject (not has_parent) invalid_input
  reject (not makes) replay_cache_unavailable
  ok max_entries

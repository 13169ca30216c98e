-- ===== src/ControllerSession/Verified.antt =====
-- Verified sessions (src/lib.rs, module `controller_session`).
use devicelane.Shared.{ℕ, ◌≤◌, ◌≡◌, Option, some, true, String, string_eq, nat_eq, Bytes, Result}
use devicelane.ControllerSession.Transport.{Transport, ControllerSessionError}
use devicelane.ControllerSession.Replay.{File, Attempt}
use devicelane.ControllerSession.Session.{
  ControllerSessionPayload, ControllerSessionAssertion, VerifiedControllerSession,
  verify_and_consume_controller_session,
}

module _ (json : ControllerSessionPayload → Option Bytes) where
  -- What a session that is verified has shown.
  pub record IsVerified (verifier : Transport) (assertion : ControllerSessionAssertion)
      (endpoint peer challenge : String) (now_ms : ℕ) (verified : VerifiedControllerSession)
      : Type 0 where
    pub at_endpoint : assertion.payload.controller_endpoint ≡ endpoint
    pub controller : assertion.payload.controller_peer_id ≡ peer
    pub host : assertion.payload.source_host_id ≡ peer
    pub at_challenge : assertion.payload.challenge ≡ challenge
    pub issued : assertion.payload.issued_at_ms ≤ now_ms
    pub alive : now_ms ≤ assertion.payload.expires_at_ms
    pub message : Bytes
    pub encoded : json assertion.payload ≡ some message
    pub signed : verifier.verify_peer_signature peer message assertion.signature ≡ true
    pub session : verified.session_id ≡ assertion.payload.session_id
    pub principal : verified.principal_id ≡ assertion.payload.principal_id
    pub expiry : verified.expires_at_ms ≡ assertion.payload.expires_at_ms

  module _ (sha256 : Bytes → Bytes) where
    abbrev attempt_by :
        ℕ
        → File
        → Transport
        → ControllerSessionAssertion
        → String
        → String
        → String
        → ℕ
        → Attempt
        → File × Result ControllerSessionError VerifiedControllerSession
    attempt_by = verify_and_consume_controller_session json sha256

-- ===== src/ControllerSession/Session.antt =====
-- Issuing and verifying controller sessions (src/lib.rs, module `controller_session`).
use devicelane.Shared.{
  ℕ, ◌*◌, not, ◌||◌, Option, String, len, string_eq, nat_eq, Bytes, ◌==◌, ltb, checked_add, Result,
  ok, err, ◌>>=◌, ◌>>◌, reject, ok_or,
}
use devicelane.Dashboard.Policy.Request.{hex}
use devicelane.ControllerSession.Transport.{
  Transport, ControllerSessionError, invalid_input, principal_unavailable, invalid_signature,
  controller_endpoint_mismatch, controller_peer_mismatch, challenge_mismatch, expired,
}
use devicelane.ControllerSession.Replay.{File, Attempt, consume}

pub record ControllerSessionPayload : Type 0 where
  pub controller_endpoint : String
  pub controller_peer_id : String
  pub principal_id : String
  pub source_host_id : String
  pub session_id : String
  pub challenge : String
  pub issued_at_ms : ℕ
  pub expires_at_ms : ℕ

pub record ControllerSessionAssertion : Type 0 where
  pub payload : ControllerSessionPayload
  pub signature : Bytes

pub record VerifiedControllerSession : Type 0 where
  pub controller_endpoint : String
  pub controller_peer_id : String
  pub principal_id : String
  pub source_host_id : String
  pub session_id : String
  pub expires_at_ms : ℕ

abbrev pub max_session_lifetime_ms : ℕ
max_session_lifetime_ms = 5 * 60 * 1000

module _ (json : ControllerSessionPayload → Option Bytes) where
  -- The random bytes and the principal of the process are arguments.
  unfoldable pub issue_controller_session :
      Transport
      → Bytes
      → Option String
      → String
      → String
      → ℕ
      → ℕ
      → Result ControllerSessionError ControllerSessionAssertion
  issue_controller_session controller random principal controller_endpoint challenge issued_at_ms
        lifetime_ms =
      do
        reject
            (controller_endpoint == ""
              || (ltb (len challenge) 16
                  || (lifetime_ms == 0 || ltb max_session_lifetime_ms lifetime_ms)))
            invalid_input
        controller_peer_id ← ok_or controller.identity_id invalid_input
        principal_id ← ok_or principal principal_unavailable
        expires_at_ms ← ok_or (checked_add issued_at_ms lifetime_ms) invalid_input
        let payload : ControllerSessionPayload = record {
          controller_endpoint = controller_endpoint;
          controller_peer_id = controller_peer_id;
          principal_id = principal_id;
          source_host_id = controller_peer_id;
          session_id = hex random;
          challenge = challenge;
          issued_at_ms = issued_at_ms;
          expires_at_ms = expires_at_ms;
        }
        message ← ok_or (json payload) invalid_input
        signature ← ok_or (controller.sign message) invalid_signature
        ok (record { payload = payload; signature = signature })

  unfoldable pub verify_controller_session :
      Transport
      → ControllerSessionAssertion
      → String
      → String
      → String
      → ℕ
      → Result ControllerSessionError VerifiedControllerSession
  verify_controller_session verifier assertion expected_endpoint expected_peer_id expected_challenge
        now_ms =
      do
        let payload = assertion.payload
        reject (not (payload.controller_endpoint == expected_endpoint)) controller_endpoint_mismatch
        reject
            (not (payload.controller_peer_id == expected_peer_id)
              || not (payload.source_host_id == expected_peer_id))
            controller_peer_mismatch
        reject (not (payload.challenge == expected_challenge)) challenge_mismatch
        reject (ltb now_ms payload.issued_at_ms || ltb payload.expires_at_ms now_ms) expired
        message ← ok_or (json payload) invalid_input
        reject (not (verifier.verify_peer_signature expected_peer_id message assertion.signature))
            invalid_signature
        ok (record {
          controller_endpoint = payload.controller_endpoint;
          controller_peer_id = payload.controller_peer_id;
          principal_id = payload.principal_id;
          source_host_id = payload.source_host_id;
          session_id = payload.session_id;
          expires_at_ms = payload.expires_at_ms;
        })

  unfoldable pub verify_and_consume_controller_session :
      (Bytes → Bytes)
      → ℕ
      → File
      → Transport
      → ControllerSessionAssertion
      → String
      → String
      → String
      → ℕ
      → Attempt
      → File × Result ControllerSessionError VerifiedControllerSession
  verify_and_consume_controller_session sha256 max_entries file verifier assertion expected_endpoint
        expected_peer_id expected_challenge now_ms attempt =
      elim (verify_controller_session verifier assertion expected_endpoint expected_peer_id
        expected_challenge now_ms) [
          | err e ↦ (file, err e)
          | ok verified ↦
              let after =
                consume sha256 max_entries file verified.session_id expected_challenge
                  verified.expires_at_ms now_ms attempt in
              (after.0, after.1 >> ok verified)
        ]

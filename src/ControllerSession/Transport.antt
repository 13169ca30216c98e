-- ===== src/ControllerSession/Transport.antt =====
-- What controller sessions use of the secure transport and of `serde_json`, and their errors
-- (src/lib.rs, module `controller_session`). These are parameters, with `none` for an error.
use devicelane.Shared.{◌≡◌, Bool, true, Option, some, String, Bytes}

pub data ControllerSessionError : Type 0 where
  invalid_input principal_unavailable invalid_signature controller_endpoint_mismatch :
      ControllerSessionError
  controller_peer_mismatch challenge_mismatch expired replay_detected : ControllerSessionError
  replay_cache_unavailable : ControllerSessionError

-- `SecureTransport`: its identity, signing, and the verification of a peer's signature.
pub record Transport : Type 0 where
  pub identity_id : Option String
  pub sign : Bytes → Option Bytes
  pub verify_peer_signature : String → Bytes → Bytes → Bool

-- The verifier accepts what the signer signs under its identity.
abbrev pub Trusts : Transport → Transport → Type 0
Trusts verifier signer =
    (id : String) (message signature : Bytes)
    → signer.identity_id ≡ some id
    → signer.sign message ≡ some signature
    → verifier.verify_peer_signature id message signature ≡ true

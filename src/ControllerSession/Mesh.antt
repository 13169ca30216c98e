-- ===== src/ControllerSession/Mesh.antt =====
-- Mesh approvals (src/lib.rs, module `controller_session`).
use devicelane.Shared.{
  ℕ, not, ◌||◌, Option, none, some, String, len, string_eq, nat_eq, Bytes, ◌==◌, ltb, checked_add,
  if◌then◌else◌, trim, Result, ok, ◌>>=◌, ◌>>◌, reject, ok_or,
}
use devicelane.Dashboard.Policy.Request.{AccessRequest, hex}
use devicelane.ControllerSession.Transport.{
  Transport, ControllerSessionError, invalid_input, principal_unavailable, invalid_signature,
  controller_peer_mismatch, expired,
}

pub record MeshApprovalPayload : Type 0 where
  pub access : AccessRequest
  pub registry_peer_id : String
  pub controller_peer_id : String
  pub os_principal_id : String
  pub session_id : String
  pub issued_at_ms : ℕ
  pub expires_at_ms : ℕ

pub record MeshApprovalAssertion : Type 0 where
  pub payload : MeshApprovalPayload
  pub signature : Bytes

pub record MeshAccessClaim : Type 0 where
  pub access : AccessRequest
  pub controller_peer_id : String
  pub os_principal_id : String

abbrev pub max_id_bytes : ℕ
max_id_bytes = 256

-- `ValidatedId::parse`.
unfoldable pub parse_id : String → Option String
parse_id value =
    if ltb max_id_bytes (len value)
    then none
    else if trim value == ""
    then none
    else some (trim value)

abbrev pub max_approval_ms : ℕ
max_approval_ms = 60000

module _ (claim_json : MeshAccessClaim → Option Bytes)
    (payload_json : MeshApprovalPayload → Option Bytes) where
  unfoldable pub sign_mesh_access_claim :
      Transport
      → Option String
      → AccessRequest
      → Result ControllerSessionError (MeshAccessClaim × Bytes)
  sign_mesh_access_claim controller principal access = do
    controller_peer_id ← ok_or controller.identity_id invalid_input
    os_principal_id ← ok_or principal principal_unavailable
    principal_id ← ok_or (parse_id os_principal_id) invalid_input
    source_host_id ← ok_or (parse_id controller_peer_id) invalid_input
    let claim : MeshAccessClaim = record {
      access = record access { principal_id = principal_id; source_host_id = source_host_id };
      controller_peer_id = controller_peer_id;
      os_principal_id = os_principal_id;
    }
    message ← ok_or (claim_json claim) invalid_input
    signature ← ok_or (controller.sign message) invalid_signature
    ok (claim, signature)

  -- The random bytes are an argument.
  unfoldable pub issue_mesh_approval :
      Transport
      → Bytes
      → String
      → MeshAccessClaim
      → Bytes
      → ℕ
      → ℕ
      → Result ControllerSessionError MeshApprovalAssertion
  issue_mesh_approval registry random peer claim client_signature issued_at_ms lifetime_ms = do
    reject (lifetime_ms == 0 || ltb max_approval_ms lifetime_ms) invalid_input
    reject
        (not (claim.controller_peer_id == peer)
          || (not (claim.access.source_host_id == peer)
              || (not (claim.access.principal_id == claim.os_principal_id)
                  || claim.os_principal_id == "")))
        invalid_input
    message ← ok_or (claim_json claim) invalid_input
    reject (not (registry.verify_peer_signature peer message client_signature)) invalid_signature
    registry_peer_id ← ok_or registry.identity_id invalid_input
    expires_at_ms ← ok_or (checked_add issued_at_ms lifetime_ms) invalid_input
    let payload : MeshApprovalPayload = record {
      access = claim.access;
      registry_peer_id = registry_peer_id;
      controller_peer_id = peer;
      os_principal_id = claim.os_principal_id;
      session_id = hex random;
      issued_at_ms = issued_at_ms;
      expires_at_ms = expires_at_ms;
    }
    encoded ← ok_or (payload_json payload) invalid_input
    signature ← ok_or (registry.sign encoded) invalid_signature
    ok (record { payload = payload; signature = signature })

  unfoldable pub verify_mesh_approval :
      Transport
      → MeshApprovalAssertion
      → String
      → String
      → ℕ
      → Result ControllerSessionError AccessRequest
  verify_mesh_approval verifier assertion expected_registry_peer expected_target_host now_ms = do
    let payload = assertion.payload
    reject (not (payload.registry_peer_id == expected_registry_peer)) controller_peer_mismatch
    reject
        (not (payload.access.target_host_id == expected_target_host)
          || (not (payload.access.principal_id == payload.os_principal_id)
              || (not (payload.access.source_host_id == payload.controller_peer_id)
                  || payload.os_principal_id == "")))
        invalid_input
    reject (ltb now_ms payload.issued_at_ms || ltb payload.expires_at_ms now_ms) expired
    encoded ← ok_or (payload_json payload) invalid_input
    reject (not (verifier.verify_peer_signature expected_registry_peer encoded assertion.signature))
        invalid_signature
    ok payload.access

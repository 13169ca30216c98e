-- ===== src/ControllerSession/Tests.antt =====
-- Controller sessions at concrete inputs (src/lib.rs, module `controller_session`), with a
-- transport that signs a message by itself.
use devicelane.Shared.{
  ℕ, ◌+◌, ◌≤◌, ◌≡◌, refl, true, false, ◌&&◌, Option, none, some, [], ◌∷◌, string_eq, bytes_eq,
  string_discrete, bytes_discrete, ℕ_discrete, Bytes, ◌==◌, Result, ok, arith,
}
use devicelane.Dashboard.Model.{workspace_write}
use devicelane.Dashboard.Policy.Request.{AccessRequest, hex}
use devicelane.ControllerSession.Transport.{Transport, Trusts, ControllerSessionError}
use devicelane.ControllerSession.Replay.{File, Attempt}
use devicelane.ControllerSession.Session.{
  ControllerSessionPayload, ControllerSessionAssertion, VerifiedControllerSession,
  issue_controller_session, verify_controller_session, verify_and_consume_controller_session,
  max_session_lifetime_ms,
}
use devicelane.ControllerSession.Issued.{verify_controller_session-issue}
use devicelane.ControllerSession.Mesh.{
  MeshApprovalPayload, MeshApprovalAssertion, MeshAccessClaim, issue_mesh_approval,
  verify_mesh_approval, max_approval_ms,
}
use devicelane.ControllerSession.Approved.{verify_mesh_approval-issue}

abbrev transport : Transport
transport = record {
  identity_id = some "peer";
  sign = λ message. some message;
  verify_peer_signature = λ id message signature. (id == "peer") && (message == signature);
}

transport-Trusts : Trusts transport transport
transport-Trusts id message signature h k = ground (arith, h, k)

abbrev json : ControllerSessionPayload → Option Bytes
json payload = some (payload.issued_at_ms ∷ payload.expires_at_ms ∷ [])

abbrev assertion : ControllerSessionAssertion
assertion = record {
  payload = record {
    controller_endpoint = "host:1";
    controller_peer_id = "peer";
    principal_id = "uid-1";
    source_host_id = "peer";
    session_id = "07";
    challenge = "0123456789abcdef";
    issued_at_ms = 100;
    expires_at_ms = 150;
  };
  signature = 100 ∷ 150 ∷ [];
}

issues :
    issue_controller_session json transport
      (7 ∷ [])
      (some "uid-1")
      "host:1"
      "0123456789abcdef"
      100
      50
    ≡ ok assertion
unfolding issue_controller_session hex ℕ_discrete string_discrete
issues = refl

verify_controller_session-issue_example :
    (assertion.payload.expires_at_ms ≤ 100 + max_session_lifetime_ms)
    × ((verified : VerifiedControllerSession) × (verify_controller_session json transport assertion
            "host:1" assertion.payload.controller_peer_id "0123456789abcdef" 120
          ≡ ok verified)
        × (verified.session_id ≡ assertion.payload.session_id))
verify_controller_session-issue_example =
    verify_controller_session-issue json transport (7 ∷ []) (some "uid-1") "host:1"
      "0123456789abcdef" 100 50 transport assertion 120 transport-Trusts issues (omega arith)
      (omega arith)

abbrev digest : Bytes → Bytes
digest bytes = bytes

abbrev works : Attempt
works = record { locks = true; creates = true; writes = true; replaces = true }

abbrev use_at : ℕ → File → File × Result ControllerSessionError VerifiedControllerSession
use_at now_ms file =
    verify_and_consume_controller_session json digest 8 file transport assertion "host:1" "peer"
      "0123456789abcdef" now_ms works

abbrev session : VerifiedControllerSession
session = record {
  controller_endpoint = "host:1";
  controller_peer_id = "peer";
  principal_id = "uid-1";
  source_host_id = "peer";
  session_id = "07";
  expires_at_ms = 150;
}

abbrev access : AccessRequest
access = record {
  activity_id = "activity";
  principal_id = "uid-1";
  source_host_id = "peer";
  target_host_id = "target";
  device_id = none;
  operation = "workspace.write";
  resources = workspace_write ∷ [];
  remote_operation = none;
  physical_device = false;
  user_present = false;
}

abbrev claim : MeshAccessClaim
claim = record { access = access; controller_peer_id = "peer"; os_principal_id = "uid-1" }

abbrev claim_json : MeshAccessClaim → Option Bytes
claim_json _ = some (1 ∷ [])

abbrev payload_json : MeshApprovalPayload → Option Bytes
payload_json payload = some (payload.issued_at_ms ∷ payload.expires_at_ms ∷ [])

abbrev approval : MeshApprovalAssertion
approval = record {
  payload = record {
    access = access;
    registry_peer_id = "peer";
    controller_peer_id = "peer";
    os_principal_id = "uid-1";
    session_id = "07";
    issued_at_ms = 100;
    expires_at_ms = 150;
  };
  signature = 100 ∷ 150 ∷ [];
}

approves :
    issue_mesh_approval claim_json payload_json transport (7 ∷ []) "peer" claim (1 ∷ []) 100 50
    ≡ ok approval
unfolding issue_mesh_approval hex ℕ_discrete string_discrete bytes_discrete
approves = refl

verify_mesh_approval-issue_example :
    (approval.payload.expires_at_ms ≤ 100 + max_approval_ms)
    × (verify_mesh_approval claim_json payload_json transport approval
          approval.payload.registry_peer_id claim.access.target_host_id 120
        ≡ ok claim.access)
verify_mesh_approval-issue_example =
    verify_mesh_approval-issue claim_json payload_json transport (7 ∷ []) "peer" claim (1 ∷ []) 100
      50 transport approval 120 transport-Trusts approves (omega arith) (omega arith)

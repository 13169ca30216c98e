-- ===== src/ControllerSession/Approved.antt =====
-- Issued mesh approvals (src/lib.rs, module `controller_session`).
use devicelane.Shared.{
  ℕ, ◌+◌, ◌≤◌, ◌≡◌, refl, sym, ap, subst, true, false, not, ◌||◌, Option, some, String, string_eq,
  nat_eq, Bytes, ◌==◌, ltb, checked_add, ok, reject, reject-ok, ok-injective, ==-eq, not-false,
  or-false, ok_or, ok_or-ok, >>-ok, >>=-ok, arith,
}
use devicelane.ControllerSession.Transport.{Transport, Trusts, invalid_input, invalid_signature}
use devicelane.ControllerSession.Issued.{checked_add-le}
use devicelane.ControllerSession.Mesh.{
  MeshApprovalPayload, MeshApprovalAssertion, MeshAccessClaim, issue_mesh_approval,
  verify_mesh_approval, max_approval_ms,
}

module _ (claim_json : MeshAccessClaim → Option Bytes)
    (payload_json : MeshApprovalPayload → Option Bytes) (registry : Transport) (random : Bytes)
    (peer : String) (claim : MeshAccessClaim) (client_signature : Bytes)
    (issued_at_ms lifetime_ms : ℕ) where
  -- What an approval that is issued has.
  pub record IsApproved (assertion : MeshApprovalAssertion) : Type 0 where
    pub lifetime : lifetime_ms ≤ max_approval_ms
    pub access : assertion.payload.access ≡ claim.access
    pub principal :
        (assertion.payload.access.principal_id == assertion.payload.os_principal_id) ≡ true
    pub host :
        (assertion.payload.access.source_host_id == assertion.payload.controller_peer_id) ≡ true
    pub known : (assertion.payload.os_principal_id == "") ≡ false
    pub identity : registry.identity_id ≡ some assertion.payload.registry_peer_id
    pub issued : assertion.payload.issued_at_ms ≡ issued_at_ms
    pub expiry : checked_add issued_at_ms lifetime_ms ≡ some assertion.payload.expires_at_ms
    pub message : Bytes
    pub encoded : payload_json assertion.payload ≡ some message
    pub signed : registry.sign message ≡ some assertion.signature
    pub claimed : Bytes
    pub claim_encoded : claim_json claim ≡ some claimed
    pub claim_signed : registry.verify_peer_signature peer claimed client_signature ≡ true

  issue_mesh_approval-IsApproved :
      (assertion : MeshApprovalAssertion)
      → issue_mesh_approval claim_json payload_json registry random peer claim client_signature
          issued_at_ms lifetime_ms
        ≡ ok assertion
      → IsApproved assertion
  unfolding issue_mesh_approval
  issue_mesh_approval-IsApproved assertion h =
      let (lasting, a) =
        >>-ok (reject (lifetime_ms == 0 || ltb max_approval_ms lifetime_ms) invalid_input) _
          assertion h in
      let (bound, b) =
        >>-ok
          (reject
            (not (claim.controller_peer_id == peer)
              || (not (claim.access.source_host_id == peer)
                  || (not (claim.access.principal_id == claim.os_principal_id)
                      || claim.os_principal_id == "")))
            invalid_input)
          _ assertion a in
      let (claimed, claim_encoded, c) =
        >>=-ok (ok_or (claim_json claim) invalid_input) _ assertion b in
      let (verified, d) =
        >>-ok
          (reject (not (registry.verify_peer_signature peer claimed client_signature))
            invalid_signature)
          _ assertion c in
      let (id, identity, e) = >>=-ok (ok_or registry.identity_id invalid_input) _ assertion d in
      let (expiry, sum, f) =
        >>=-ok (ok_or (checked_add issued_at_ms lifetime_ms) invalid_input) _ assertion e in
      let (message, encoded, g) = >>=-ok (ok_or (payload_json _) invalid_input) _ assertion f in
      let (signature, signed, i) =
        >>=-ok (ok_or (registry.sign message) invalid_signature) _ assertion g in
      let (_, short) = or-false (lifetime_ms == 0) _ (reject-ok _ _ lasting) in
      let (_, j) = or-false (not (claim.controller_peer_id == peer)) _ (reject-ok _ _ bound) in
      let (host, k) = or-false (not (claim.access.source_host_id == peer)) _ j in
      let (principal, known) =
        or-false (not (claim.access.principal_id == claim.os_principal_id)) _ k in
      subst IsApproved (ok-injective _ _ i) (record {
        lifetime = within short;
        access = refl;
        principal = not-false _ principal;
        host = not-false _ host;
        known = known;
        identity = ok_or-ok registry.identity_id invalid_input id identity;
        issued = refl;
        expiry = ok_or-ok (checked_add issued_at_ms lifetime_ms) invalid_input expiry sum;
        message = message;
        encoded = ok_or-ok (payload_json _) invalid_input message encoded;
        signed = ok_or-ok (registry.sign message) invalid_signature signature signed;
        claimed = claimed;
        claim_encoded = ok_or-ok (claim_json claim) invalid_input claimed claim_encoded;
        claim_signed = not-false _ (reject-ok _ _ verified);
      })
    where
      within : ltb max_approval_ms lifetime_ms ≡ false → lifetime_ms ≤ max_approval_ms
      within x = ground (arith, x)

  -- A mesh approval that is issued expires within a minute, and from its issue to its expiry a
  -- verifier that accepts the registry's signatures gives back, for the target host of the claim,
  -- the access of the claim.
  pub verify_mesh_approval-issue :
      (verifier : Transport) (assertion : MeshApprovalAssertion) (now_ms : ℕ)
      → Trusts verifier registry
      → issue_mesh_approval claim_json payload_json registry random peer claim client_signature
          issued_at_ms lifetime_ms
        ≡ ok assertion
      → issued_at_ms ≤ now_ms
      → now_ms ≤ assertion.payload.expires_at_ms
      → (assertion.payload.expires_at_ms ≤ issued_at_ms + max_approval_ms)
        × (verify_mesh_approval claim_json payload_json verifier assertion
              assertion.payload.registry_peer_id claim.access.target_host_id now_ms
            ≡ ok claim.access)
  unfolding verify_mesh_approval
  verify_mesh_approval-issue verifier assertion now_ms trusts h late early =
      let i = issue_mesh_approval-IsApproved assertion h in
      let p = assertion.payload in
      (
        checked_add-le issued_at_ms lifetime_ms p.expires_at_ms max_approval_ms i.expiry i.lifetime,
        rw
            (
              verify_mesh_approval,
              ==-eq p.registry_peer_id p.registry_peer_id refl,
              ==-eq p.access.target_host_id claim.access.target_host_id
                  (ap (λ a. a.target_host_id) i.access),
              i.principal,
              i.host,
              i.known,
              not_less (subst (λ t. t ≤ now_ms) (sym i.issued) late),
              not_less early,
              i.encoded,
              trusts p.registry_peer_id i.message assertion.signature i.identity i.signed,
            )
            (ap ok i.access),
      )
    where
      not_less : {a b : ℕ} → a ≤ b → ltb b a ≡ false
      not_less x = ground (arith, x)

-- ===== src/ControllerSession/Issued.antt =====
-- Issued sessions (src/lib.rs, module `controller_session`).
use devicelane.Shared.{
  ℕ, ◌+◌, ◌≤◌, ◌≡◌, refl, sym, subst, inl, inr, false, ◌||◌, Option, some, String, string_eq,
  nat_eq, Bytes, ◌==◌, ltb, leb, len, checked_add, u64_max, ok, reject, reject-ok, ok-injective,
  ==-eq, or-false, ok_or, ok_or-ok, >>-ok, >>=-ok, Bool-cases, arith,
}
use devicelane.ControllerSession.Transport.{
  Transport, Trusts, invalid_input, invalid_signature, principal_unavailable,
}
use devicelane.ControllerSession.Session.{
  ControllerSessionPayload, ControllerSessionAssertion, VerifiedControllerSession,
  verify_controller_session, issue_controller_session, max_session_lifetime_ms,
}

pub checked_add-le : (a b c d : ℕ) → checked_add a b ≡ some c → b ≤ d → c ≤ a + d
checked_add-le a b c d h k = elim (Bool-cases (leb (a + b) u64_max)) [
  | inl fits ↦ let sum : some (a + b) ≡ some c = rw fits at h in ground (arith, sum, k)
  | inr over ↦ let failed : Option.none ≡ some c = rw over at h in absurd (ground (arith, failed))
]

module _ (json : ControllerSessionPayload → Option Bytes) (controller : Transport) (random : Bytes)
    (principal : Option String) (endpoint challenge : String) (issued_at_ms lifetime_ms : ℕ) where
  -- What an assertion that is issued has.
  pub record IsIssued (assertion : ControllerSessionAssertion) : Type 0 where
    pub lifetime : lifetime_ms ≤ max_session_lifetime_ms
    pub identity : controller.identity_id ≡ some assertion.payload.controller_peer_id
    pub host : assertion.payload.source_host_id ≡ assertion.payload.controller_peer_id
    pub at_endpoint : assertion.payload.controller_endpoint ≡ endpoint
    pub at_challenge : assertion.payload.challenge ≡ challenge
    pub issued : assertion.payload.issued_at_ms ≡ issued_at_ms
    pub expiry : checked_add issued_at_ms lifetime_ms ≡ some assertion.payload.expires_at_ms
    pub message : Bytes
    pub encoded : json assertion.payload ≡ some message
    pub signed : controller.sign message ≡ some assertion.signature

  pub issue_controller_session-IsIssued :
      (assertion : ControllerSessionAssertion)
      → issue_controller_session json controller random principal endpoint challenge issued_at_ms
          lifetime_ms
        ≡ ok assertion
      → IsIssued assertion
  unfolding issue_controller_session
  issue_controller_session-IsIssued assertion h =
      let (admitted, a) =
        >>-ok
          (reject
            (endpoint == ""
              || (ltb (len challenge) 16
                  || (lifetime_ms == 0 || ltb max_session_lifetime_ms lifetime_ms)))
            invalid_input)
          _ assertion h in
      let (peer, identity, b) = >>=-ok (ok_or controller.identity_id invalid_input) _ assertion a in
      let (user, _, c) = >>=-ok (ok_or principal principal_unavailable) _ assertion b in
      let (expiry, sum, d) =
        >>=-ok (ok_or (checked_add issued_at_ms lifetime_ms) invalid_input) _ assertion c in
      let (message, encoded, e) = >>=-ok (ok_or (json _) invalid_input) _ assertion d in
      let (signature, signed, f) =
        >>=-ok (ok_or (controller.sign message) invalid_signature) _ assertion e in
      let (_, g) = or-false (endpoint == "") _ (reject-ok _ _ admitted) in
      let (_, i) = or-false (ltb (len challenge) 16) _ g in
      let (_, j) = or-false (lifetime_ms == 0) _ i in
      subst IsIssued (ok-injective _ _ f) (record {
        lifetime = short j;
        identity = ok_or-ok controller.identity_id invalid_input peer identity;
        host = refl;
        at_endpoint = refl;
        at_challenge = refl;
        issued = refl;
        expiry = ok_or-ok (checked_add issued_at_ms lifetime_ms) invalid_input expiry sum;
        message = message;
        encoded = ok_or-ok (json _) invalid_input message encoded;
        signed = ok_or-ok (controller.sign message) invalid_signature signature signed;
      })
    where
      short :
          ltb max_session_lifetime_ms lifetime_ms ≡ false → lifetime_ms ≤ max_session_lifetime_ms
      short x = ground (arith, x)

  -- A session that is issued expires within five minutes, and from its issue to its expiry a
  -- verifier that accepts the controller's signatures verifies it, for its endpoint, peer and
  -- challenge, with its session id.
  pub verify_controller_session-issue :
      (verifier : Transport) (assertion : ControllerSessionAssertion) (now_ms : ℕ)
      → Trusts verifier controller
      → issue_controller_session json controller random principal endpoint challenge issued_at_ms
          lifetime_ms
        ≡ ok assertion
      → issued_at_ms ≤ now_ms
      → now_ms ≤ assertion.payload.expires_at_ms
      → (assertion.payload.expires_at_ms ≤ issued_at_ms + max_session_lifetime_ms)
        × ((verified : VerifiedControllerSession) × (verify_controller_session json verifier
                assertion endpoint assertion.payload.controller_peer_id challenge now_ms
              ≡ ok verified)
            × (verified.session_id ≡ assertion.payload.session_id))
  unfolding verify_controller_session
  verify_controller_session-issue verifier assertion now_ms trusts h late early =
      let i = issue_controller_session-IsIssued assertion h in
      let p = assertion.payload in
      (
        checked_add-le issued_at_ms lifetime_ms p.expires_at_ms max_session_lifetime_ms i.expiry
            i.lifetime,
        (
          record {
            controller_endpoint = p.controller_endpoint;
            controller_peer_id = p.controller_peer_id;
            principal_id = p.principal_id;
            source_host_id = p.source_host_id;
            session_id = p.session_id;
            expires_at_ms = p.expires_at_ms;
          },
          rw
              (
                verify_controller_session,
                ==-eq p.controller_endpoint endpoint i.at_endpoint,
                ==-eq p.controller_peer_id p.controller_peer_id refl,
                ==-eq p.source_host_id p.controller_peer_id i.host,
                ==-eq p.challenge challenge i.at_challenge,
                not_less (subst (λ t. t ≤ now_ms) (sym i.issued) late),
                not_less early,
                i.encoded,
                trusts p.controller_peer_id i.message assertion.signature i.identity i.signed,
              )
              refl,
          refl,
        ),
      )
    where
      not_less : {a b : ℕ} → a ≤ b → ltb b a ≡ false
      not_less x = ground (arith, x)

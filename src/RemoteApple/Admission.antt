-- ===== src/RemoteApple/Admission.antt =====
-- What a request that the agent admits is like (src/lib.rs, `AppleAgent::validate`).
use devicelane.Shared.{
  ◌≡◌, ◌≢◌, refl, Bool, true, false, Option, none, some, is_none, String, string_eq, codes,
  segments, is_absolute, dot_dot, is_relative, is_relative-segments, All, contains, ok, >>-ok,
  check_all, check_all-ok, arith,
}
use devicelane.RemoteApple.Protocol.{version_eq, capability, requires_device, AppleRequest}
use devicelane.RemoteApple.Envelope.{
  valid_parameters, valid_identifier, validate_request_envelope, envelope_checks, agent_checks,
  Configuration, FileReads, validate,
}

-- The path is under the workspace, by its text and by what it resolves to.
pub record IsInside (files : FileReads) (path : String) : Type 0 where
  pub relative : is_absolute (codes path) ≡ false
  pub descends : All (λ w. dot_dot ≢ w) (segments (codes path))
  pub present : (inside : Bool) × (files.first path ≡ some inside)
  pub resolved : files.second path ≡ some true

pub record IsServable (agent : Configuration) (files : FileReads) (r : AppleRequest) : Type 0 where
  pub major : r.version.major ≡ 1
  pub minor : r.version.minor ≡ 0
  pub identified : (r.request_id ≢ "") × (r.idempotency_key ≢ "")
  pub named : r.capability ≡ capability r.operation
  pub offered : contains agent.capabilities (capability r.operation) ≡ true
  pub inside : IsInside files r.workspace_path
  pub parameters : valid_parameters r.operation ≡ true
  pub device : requires_device r.operation ≡ true → (d : String) × (r.device_id ≡ some d)
  pub known :
      (d : String)
      → r.device_id ≡ some d
      → (contains agent.devices d ≡ true) × (valid_identifier d ≡ true)
  pub lease : (l : String) → r.lease_id ≡ some l → valid_identifier l ≡ true

present_of : (o : Option Bool) → is_none o ≡ false → (inside : Bool) × (o ≡ some inside)
present_of none h = absurd (ground (arith, h))
present_of (some inside) h = (inside, refl)

module _ (agent : Configuration) (files : FileReads) (r : AppleRequest)
    (admitted : validate agent files r ≡ ok tt) where
  enveloped : validate_request_envelope r ≡ ok tt
  unfolding validate
  enveloped =
      (>>-ok (validate_request_envelope r) (check_all (agent_checks agent files r)) tt admitted).0

  envelope_passed : All (λ c. c.0 ≡ false) (envelope_checks r)
  unfolding validate_request_envelope
  envelope_passed = check_all-ok (envelope_checks r) enveloped

  agent_passed : All (λ c. c.0 ≡ false) (agent_checks agent files r)
  unfolding validate
  agent_passed =
      check_all-ok (agent_checks agent files r)
        (>>-ok (validate_request_envelope r) (check_all (agent_checks agent files r)) tt admitted).1

  -- A request that the agent admits is of version 1.0, has both identifiers, names its operation's
  -- capability, which the agent offers, and a path that is not absolute, has no parent segment and
  -- resolves under the workspace; its parameters are valid, it has a device where the operation
  -- wants one, and its device is one of the agent's.
  pub validate-IsServable : IsServable agent files r
  unfolding envelope_checks agent_checks
  validate-IsServable =
      let (version, (ids, (named, (path, (device, (parameters, (d_ok, (l_ok, _)))))))) =
        envelope_passed in
      let (offered, (resolved, (known, _))) = agent_passed in
      let relative : is_relative r.workspace_path ≡ true = ground (arith, path) in
      record {
        major = ground (arith, version);
        minor = ground (arith, version);
        identified = (ground (arith, ids), ground (arith, ids));
        named = ground (arith, named);
        offered = ground (arith, offered, named);
        inside = record {
          relative = (is_relative-segments r.workspace_path relative).0;
          descends = (is_relative-segments r.workspace_path relative).1;
          present = present_of (files.first r.workspace_path) (ground (arith, resolved));
          resolved = ground (arith, resolved);
        };
        parameters = ground (arith, parameters);
        device = λ required. ground (arith, device, required);
        known = λ d is_d. (ground (arith, known, is_d), ground (arith, d_ok, is_d));
        lease = λ l is_l. ground (arith, l_ok, is_l);
      }

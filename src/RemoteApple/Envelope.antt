-- ===== src/RemoteApple/Envelope.antt =====
-- The validation of requests (src/lib.rs, module `remote_apple_protocol`). Paths are read as on Unix.
use devicelane.Shared.{
  ℕ, Bool, true, not, ◌&&◌, ◌||◌, Option, List, [], ◌∷◌, String, len, string_eq, nat_eq,
  option_string_eq, ◌==◌, leb, all, contains, is_none, is_some_and, is_none_or, is_blank, codes,
  is_relative, Result, ◌>>◌, check_all,
}
use devicelane.RemoteApple.Protocol.{
  version_eq, AppleOperation, discover_project, build_app, install_app, launch_app, read_app_logs,
  run_xc_test, hardware_gate, capability, requires_device, AppleRequest, ProtocolError, error,
}

abbrev pub within : ℕ → ℕ → ℕ → Bool
within low high c = leb low c && leb c high

abbrev pub is_upper : ℕ → Bool
is_upper c = within 65 90 c

abbrev pub is_ascii_digit : ℕ → Bool
is_ascii_digit c = within 48 57 c

abbrev pub is_alphanumeric : ℕ → Bool
is_alphanumeric c = is_upper c || (within 97 122 c || is_ascii_digit c)

abbrev pub is_empty : String → Bool
is_empty s = s == ""

unfoldable pub valid_relative : String → Bool
unfolding is_relative
valid_relative s = not (is_empty s) && is_relative s

unfoldable pub valid_bundle : String → Bool
unfolding codes
valid_bundle s =
    contains (codes s) 46 && all (λ c. is_alphanumeric c || (c == 46 || c == 45)) (codes s)

unfoldable pub valid_team : String → Bool
unfolding codes
valid_team s = len s == 10 && all (λ c. is_upper c || is_ascii_digit c) (codes s)

unfoldable pub valid_project : String → String → String → Bool
unfolding valid_relative is_blank
valid_project container scheme destination =
    valid_relative container && (not (is_blank scheme) && not (is_blank destination))

unfoldable pub valid_parameters : AppleOperation → Bool
unfolding valid_relative valid_bundle valid_team valid_project
valid_parameters (discover_project container) = valid_relative container
valid_parameters (build_app container scheme destination) =
    valid_project container scheme destination
valid_parameters (run_xc_test container scheme destination) =
    valid_project container scheme destination
valid_parameters (install_app app_path) = valid_relative app_path
valid_parameters (launch_app bundle_id) = valid_bundle bundle_id
valid_parameters (read_app_logs bundle_id) = valid_bundle bundle_id
valid_parameters (hardware_gate team_id) = valid_team team_id
valid_parameters _ = true

unfoldable pub valid_identifier : String → Bool
unfolding codes
valid_identifier s =
    not (is_empty s) && all (λ c. is_alphanumeric c || (c == 45 || (c == 95 || c == 46))) (codes s)

abbrev pub path_denied : ProtocolError
path_denied = error "workspace_path_denied" "workspace path is outside the workspace"

unfoldable pub envelope_checks : AppleRequest → List (Bool × ProtocolError)
unfolding is_relative capability requires_device valid_parameters valid_identifier
envelope_checks request =
    (
      not (request.version == record { major = 1; minor = 0 }),
      error "unsupported_version" "unsupported protocol version",
    )
    ∷ (
      is_empty request.request_id || is_empty request.idempotency_key,
      error "invalid_request" "request identifiers must not be empty",
    )
    ∷ (
      not (request.capability == capability request.operation),
      error "unsupported_capability" "capability does not match the operation",
    )
    ∷ (is_empty request.workspace_path || not (is_relative request.workspace_path), path_denied)
    ∷ (
      requires_device request.operation && is_none request.device_id,
      error "unknown_device" "device is not available",
    )
    ∷ (
      not (valid_parameters request.operation),
      error "invalid_apple_parameter" "apple operation parameter is invalid",
    )
    ∷ (
      not (is_none_or request.device_id valid_identifier),
      error "invalid_request" "device or lease identifier is invalid",
    )
    ∷ (
      not (is_none_or request.lease_id valid_identifier),
      error "invalid_request" "device or lease identifier is invalid",
    )
    ∷ []

unfoldable pub validate_request_envelope : AppleRequest → Result ProtocolError (Unit {0})
unfolding envelope_checks
validate_request_envelope request = check_all (envelope_checks request)

-- The two calls of `fs::canonicalize` in one validation. Each gives for a path, joined to the root
-- of the workspace, whether it resolves, and if so whether the result is under the root.
pub record FileReads : Type 0 where
  pub first : String → Option Bool
  pub second : String → Option Bool

abbrev pub is_denied : FileReads → String → Bool
is_denied files path =
    is_none (files.first path) || not (is_some_and (files.second path) (λ inside. inside))

-- What does not change in an agent.
pub record Configuration : Type 0 where
  pub capabilities : List String
  pub devices : List String

unfoldable pub agent_checks : Configuration → FileReads → AppleRequest → List (Bool × ProtocolError)
unfolding requires_device
agent_checks agent files request =
    (
      not (contains agent.capabilities request.capability),
      error "unsupported_capability" "capability is not available",
    )
    ∷ (is_denied files request.workspace_path, path_denied)
    ∷ (
      is_some_and request.device_id (λ device. not (contains agent.devices device))
          || (requires_device request.operation && is_none request.device_id),
      error "unknown_device" "device is not available",
    )
    ∷ []

unfoldable pub validate : Configuration → FileReads → AppleRequest → Result ProtocolError (Unit {0})
unfolding validate_request_envelope agent_checks
validate agent files request = do
  validate_request_envelope request
  check_all (agent_checks agent files request)

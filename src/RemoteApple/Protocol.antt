-- ===== src/RemoteApple/Protocol.antt =====
-- The requests, the errors and the progress events of the protocol (src/lib.rs, module
-- `remote_apple_protocol`).
use devicelane.Shared.{
  ℕ, ◌≡◌, Bool, true, false, ◌&&◌, Option, String, nat_eq, string_eq, Eq, ◌==◌, option_string_eq,
  ℕ_discrete, string_discrete, arith,
}

pub record RemoteProtocolVersion : Type 0 where
  pub major : ℕ
  pub minor : ℕ

pub data AppleOperation : Type 0 where
  discovery physical_device diagnostics : AppleOperation
  discover_project : String → AppleOperation
  discover_simulator : AppleOperation
  build_app : String → String → String → AppleOperation
  install_app launch_app read_app_logs : String → AppleOperation
  run_xc_test : String → String → String → AppleOperation
  hardware_gate : String → AppleOperation

unfoldable pub capability : AppleOperation → String
capability discovery = "apple.discovery@1"
capability physical_device = "apple.device@1"
capability diagnostics = "apple.diagnostics@1"
capability (discover_project _) = "apple.project@1"
capability discover_simulator = "apple.simulator@1"
capability (build_app _ _ _) = "apple.build@1"
capability (install_app _) = "apple.simulator@1"
capability (launch_app _) = "apple.simulator@1"
capability (read_app_logs _) = "apple.simulator@1"
capability (run_xc_test _ _ _) = "apple.xctest@1"
capability (hardware_gate _) = "apple.hardware-gate@1"

unfoldable pub requires_device : AppleOperation → Bool
requires_device physical_device = true
requires_device diagnostics = true
requires_device (install_app _) = true
requires_device (launch_app _) = true
requires_device (read_app_logs _) = true
requires_device (run_xc_test _ _ _) = true
requires_device (hardware_gate _) = true
requires_device _ = false

unfoldable pub mutates_device : AppleOperation → Bool
mutates_device physical_device = true
mutates_device diagnostics = true
mutates_device (install_app _) = true
mutates_device (launch_app _) = true
mutates_device (run_xc_test _ _ _) = true
mutates_device (hardware_gate _) = true
mutates_device _ = false

pub record AppleRequest : Type 0 where
  pub version : RemoteProtocolVersion
  pub request_id : String
  pub idempotency_key : String
  pub capability : String
  pub workspace_path : String
  pub device_id : Option String
  pub lease_id : Option String
  pub operation : AppleOperation

pub record ProtocolError : Type 0 where
  pub code : String
  pub message : String

abbrev pub error : String → String → ProtocolError
error code message = record { code = code; message = message }

pub record ProgressEvent : Type 0 where
  pub sequence : ℕ
  pub kind : String
  pub payload : String
  pub terminal : Bool

-- The derived equalities.
unfoldable pub RemoteProtocolVersion-discrete : Discrete RemoteProtocolVersion
RemoteProtocolVersion-discrete = hlevel ℕ_discrete

instance abbrev pub version_eq : Eq RemoteProtocolVersion
version_eq = record { dec = RemoteProtocolVersion-discrete }

unfoldable pub AppleOperation-discrete : Discrete AppleOperation
AppleOperation-discrete = hlevel string_discrete

instance abbrev pub operation_eq : Eq AppleOperation
operation_eq = record { dec = AppleOperation-discrete }

unfoldable pub same_operation : AppleRequest → AppleRequest → Bool
same_operation left right =
    left.version == right.version
    && (left.capability == right.capability
        && (left.workspace_path == right.workspace_path
            && (left.device_id == right.device_id
                && (left.lease_id == right.lease_id && left.operation == right.operation))))

pub same_operation_refl : (r : AppleRequest) → same_operation r r ≡ true
unfolding same_operation
same_operation_refl r = ground arith

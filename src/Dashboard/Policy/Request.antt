-- ===== src/Dashboard/Policy/Request.antt =====
-- Access requests and their validation (src/dashboard/policy.rs). What `serde_json` writes and
-- SHA-256 are parameters.
use devicelane.Shared.{
  ℕ, ◌/◌, Bool, true, false, not, ◌&&◌, ◌||◌, Option, none, some, List, [], ◌∷◌, String, len,
  string_eq, option_string_eq, bool_eq, nat_eq, Bytes, ◌==◌, ltb, leb, dot, dot_dot, bytes_eq,
  if◌then◌else◌, is_some, length, all, contains, codes, Result, ok, ◌>>◌, reject, hex_digit,
}
use devicelane.Dashboard.Model.{
  ResourceClass, workspace_read, device_lease, application_install, resource_eq,
  max_collection_items,
}
use devicelane.RemoteApple.Protocol.{
  AppleOperation, discovery, physical_device, diagnostics, discover_project, discover_simulator,
  build_app, install_app, launch_app, read_app_logs, run_xc_test, hardware_gate, requires_device,
}
use devicelane.RemoteApple.Envelope.{is_alphanumeric}

pub record RemoteOperationGrant : Type 0 where
  pub request_id : String
  pub workspace_path : String
  pub device_id : Option String
  pub operation : AppleOperation
  pub canonical_sha256 : String

pub record AccessRequest : Type 0 where
  pub activity_id : String
  pub principal_id : String
  pub source_host_id : String
  pub target_host_id : String
  pub device_id : Option String
  pub operation : String
  pub resources : List ResourceClass
  pub remote_operation : Option RemoteOperationGrant
  pub physical_device : Bool
  pub user_present : Bool

-- `serde_json::to_vec` of an envelope (request id, path, device, operation) and of a request, and
-- `Sha256::digest`.
pub record Codec : Type 0 where
  pub envelope_json : String → String → Option String → AppleOperation → Bytes
  pub request_json : AccessRequest → Bytes
  pub sha256 : Bytes → Bytes

pub data PolicyError : Type 0 where
  invalid_request : PolicyError

-- Two hexadecimal digits for each byte.
unfoldable pub hex : Bytes → String
unfolding hex_digit
hex [] = String.[]
hex (b ∷ bytes) = String.◌∷◌ (hex_digit (b / 16)) (String.◌∷◌ (hex_digit b) (hex bytes))

-- The parts of a path between slashes of either kind.
unfoldable pub path_parts : List ℕ → List (List ℕ)
path_parts [] = [] ∷ []
path_parts (c ∷ cs) =
    let rest = path_parts cs in
    if c == 47 || c == 92
    then [] ∷ rest
    else elim rest [ [] ↦ (c ∷ []) ∷ [] | w ∷ ws ↦ (c ∷ w) ∷ ws ]

abbrev pub is_plain : List ℕ → Bool
is_plain w = not (w == []) && (not (w == dot) && not (w == dot_dot))

abbrev pub starts_at_root : List ℕ → Bool
starts_at_root [] = false
starts_at_root (c ∷ cs) = c == 47 || c == 92

unfoldable pub valid_relative_remote_path : String → Bool
unfolding codes path_parts
valid_relative_remote_path value =
    not (value == "")
    && (leb (len value) 1024
        && (not (starts_at_root (codes value))
            && (not (contains (codes value) 0) && all is_plain (path_parts (codes value)))))

unfoldable pub expected_operation : AppleOperation → String
expected_operation (install_app _) = "apple.install_app"
expected_operation (launch_app _) = "apple.launch_app"
expected_operation (read_app_logs _) = "apple.read_app_logs"
expected_operation (build_app _ _ _) = "apple.build_app"
expected_operation (run_xc_test _ _ _) = "apple.run_xctest"
expected_operation (hardware_gate _) = "apple.hardware_gate"
expected_operation discovery = "apple.discovery"
expected_operation physical_device = "apple.physical_device"
expected_operation diagnostics = "apple.diagnostics"
expected_operation (discover_project _) = "apple.discover_project"
expected_operation discover_simulator = "apple.discover_simulator"

abbrev pub is_install : AppleOperation → Bool
is_install (install_app _) = true
is_install _ = false

-- `HashSet::len` of the resources is their number.
abbrev pub has_duplicate : List ResourceClass → Bool
has_duplicate [] = false
has_duplicate (r ∷ rs) = contains rs r || has_duplicate rs

module _ (c : Codec) where
  unfoldable pub compute_digest : RemoteOperationGrant → String
  unfolding hex
  compute_digest g =
      hex (c.sha256 (c.envelope_json g.request_id g.workspace_path g.device_id g.operation))

  unfoldable pub validate_fields : RemoteOperationGrant → Result PolicyError (Unit {0})
  unfolding codes valid_relative_remote_path requires_device
  validate_fields g =
      reject
        (g.request_id == ""
          || (ltb 128 (len g.request_id)
              || (not (
                    all (λ b. is_alphanumeric b || (b == 46 || (b == 95 || b == 45)))
                      (codes g.request_id))
                  || (not (valid_relative_remote_path g.workspace_path)
                      || not (requires_device g.operation == is_some g.device_id)))))
        invalid_request

  -- `RemoteOperationGrant::new`.
  unfoldable pub new_grant :
      String → String → Option String → AppleOperation → Result PolicyError RemoteOperationGrant
  unfolding compute_digest validate_fields
  new_grant request_id workspace_path device_id operation = do
    let g : RemoteOperationGrant = record {
      request_id = request_id;
      workspace_path = workspace_path;
      device_id = device_id;
      operation = operation;
      canonical_sha256 = "";
    }
    validate_fields g
    ok (record g { canonical_sha256 = compute_digest g })

  unfoldable pub validate_grant : RemoteOperationGrant → Result PolicyError (Unit {0})
  unfolding compute_digest validate_fields
  validate_grant g = do
    validate_fields g
    reject (not (g.canonical_sha256 == compute_digest g)) invalid_request

  unfoldable pub validate_remote :
      AccessRequest → RemoteOperationGrant → Result PolicyError (Unit {0})
  unfolding validate_grant expected_operation
  validate_remote request remote = do
    validate_grant remote
    reject
        (not (request.operation == expected_operation remote.operation)
          || (not (request.device_id == remote.device_id)
              || (is_install remote.operation
                  && (not (contains request.resources workspace_read)
                      || (not (contains request.resources device_lease)
                          || not (contains request.resources application_install))))))
        invalid_request

  unfoldable pub validate_request : AccessRequest → Result PolicyError (Unit {0})
  unfolding validate_remote
  validate_request request = do
    reject (ltb max_collection_items (length request.resources)) invalid_request
    reject (has_duplicate request.resources) invalid_request
    elim request.remote_operation [ none ↦ ok tt | some remote ↦ validate_remote request remote ]

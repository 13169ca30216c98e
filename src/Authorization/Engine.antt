-- ===== src/Authorization/Engine.antt =====
-- `PolicyEngine` with its principals and leases (src/lib.rs, module `authorization`).
use devicelane.Shared.{
  ℕ, ◌+◌, Bool, true, false, not, ◌&&◌, Option, none, some, List, [], String, nat_eq, string_eq,
  ◌==◌, ltb, if◌then◌else◌, any, contains, set_insert, is_some_and, Result, ok, err, ◌>>◌, reject,
}
use devicelane.Map.{Map, get, insert, values}

pub data Role : Type 0 where
  operator observer : Role

unfoldable pub is_observer : Role → Bool
is_observer operator = false
is_observer observer = true

pub data Operation : Type 0 where
  discover_devices lease_device read_logs : Operation
  start_process stop_process install_device read_device_logs read_artifact : String → Operation
  attach_debugger simulator_lifecycle simulator_screenshot : String → Operation
  simulator_location simulator_privacy simulator_media : String → Operation
  apple_install apple_launch apple_terminate apple_uninstall apple_log_stream : String → Operation
  apple_device_info apple_read_released_logs : Operation
  apple_debug : String → Operation

unfoldable pub capability : Operation → String
capability discover_devices = "device.discover"
capability lease_device = "device.lease"
capability read_logs = "logs.read"
capability (start_process _) = "process.start"
capability (stop_process _) = "process.stop"
capability (install_device _) = "device.install"
capability (read_device_logs _) = "logs.read"
capability (read_artifact _) = "artifact.read"
capability (attach_debugger _) = "debug.attach"
capability (simulator_lifecycle _) = "simulator.lifecycle"
capability (simulator_screenshot _) = "simulator.screenshot"
capability (simulator_location _) = "simulator.location"
capability (simulator_privacy _) = "simulator.privacy"
capability (simulator_media _) = "simulator.media"
capability (apple_install _) = "apple.app.install@1"
capability (apple_launch _) = "apple.app.launch@1"
capability (apple_terminate _) = "apple.app.terminate@1"
capability (apple_uninstall _) = "apple.app.uninstall@1"
capability (apple_log_stream _) = "apple.app.logs@1"
capability apple_device_info = "apple.device.info@1"
capability apple_read_released_logs = "apple.app.logs.read@1"
capability (apple_debug _) = "apple.debug@1"

unfoldable pub device_of : Operation → Option String
device_of discover_devices = none
device_of lease_device = none
device_of read_logs = none
device_of apple_device_info = none
device_of apple_read_released_logs = none
device_of (start_process device) = some device
device_of (stop_process device) = some device
device_of (install_device device) = some device
device_of (read_device_logs device) = some device
device_of (read_artifact device) = some device
device_of (attach_debugger device) = some device
device_of (simulator_lifecycle device) = some device
device_of (simulator_screenshot device) = some device
device_of (simulator_location device) = some device
device_of (simulator_privacy device) = some device
device_of (simulator_media device) = some device
device_of (apple_install device) = some device
device_of (apple_launch device) = some device
device_of (apple_terminate device) = some device
device_of (apple_uninstall device) = some device
device_of (apple_log_stream device) = some device
device_of (apple_debug device) = some device

-- What an observer may do.
unfoldable pub observable : Operation → Bool
observable read_logs = true
observable apple_read_released_logs = true
observable _ = false

pub data AuthorizationError : Type 0 where
  capability_denied device_already_leased lease_inactive observer_read_only : AuthorizationError

pub record Lease : Type 0 where
  pub device_id : String
  pub holder : String
  pub expires_at : ℕ
  pub revoked : Bool

pub record Principal : Type 0 where
  pub role : Role
  pub capabilities : List String

pub record PolicyEngine : Type 0 where
  pub principals : Map String Principal
  pub leases : Map ℕ Lease
  pub next_lease_id : ℕ

abbrev pub new : PolicyEngine
new = record { principals = []; leases = []; next_lease_id = 1 }

unfoldable pub grant : PolicyEngine → String → Role → String → PolicyEngine
grant s actor role capability = record s {
  principals =
      insert actor
        (record {
          role = role;
          capabilities =
              set_insert capability
                (elim (get actor s.principals) [ none ↦ [] | some p ↦ p.capabilities ]);
        })
        s.principals;
}

abbrev pub is_live : ℕ → Lease → Bool
is_live now lease = not lease.revoked && ltb now lease.expires_at

abbrev pub is_operator : Option Principal → Bool
is_operator none = false
is_operator (some p) = not (is_observer p.role)

-- `now` is the one reading of the clock.
unfoldable pub acquire_lease :
    PolicyEngine → String → String → ℕ → ℕ → PolicyEngine × Result AuthorizationError ℕ
unfolding is_observer
acquire_lease s device_id holder lifetime now =
    if not (is_operator (get holder s.principals))
    then (s, err observer_read_only)
    else if any (λ lease. lease.device_id == device_id && is_live now lease) (values s.leases)
    then (s, err device_already_leased)
    else (
      record s {
        leases =
            insert s.next_lease_id
              (record {
                device_id = device_id;
                holder = holder;
                expires_at = now + lifetime;
                revoked = false;
              })
              s.leases;
        next_lease_id = s.next_lease_id + 1;
      },
      ok s.next_lease_id,
    )

unfoldable pub revoke_lease : PolicyEngine → ℕ → PolicyEngine
revoke_lease s id = elim (get id s.leases) [
  | none ↦ s
  | some lease ↦ record s { leases = insert id (record lease { revoked = true }) s.leases }
]

unfoldable pub lease_is_active : PolicyEngine → ℕ → ℕ → Bool
lease_is_active s id now = is_some_and (get id s.leases) (is_live now)

abbrev pub is_active_for : ℕ → String → String → Lease → Bool
is_active_for now device actor lease =
    lease.device_id == device && (lease.holder == actor && is_live now lease)

abbrev pub check_lease :
    PolicyEngine → String → ℕ → Option ℕ → Option String → Result AuthorizationError (Unit {0})
check_lease s actor now lease_id none = ok tt
check_lease s actor now none (some device) = err lease_inactive
check_lease s actor now (some id) (some device) =
    reject (not (is_some_and (get id s.leases) (is_active_for now device actor))) lease_inactive

abbrev pub check_principal :
    PolicyEngine
    → String
    → Operation
    → Option ℕ
    → ℕ
    → Option Principal
    → Result AuthorizationError (Unit {0})
check_principal s actor operation lease_id now none = err capability_denied
check_principal s actor operation lease_id now (some p) = do
  reject (not (contains p.capabilities (capability operation))) capability_denied
  reject (is_observer p.role && not (observable operation)) observer_read_only
  check_lease s actor now lease_id (device_of operation)

-- The checks before the adapter is run.
unfoldable pub authorize :
    PolicyEngine → String → Operation → Option ℕ → ℕ → Result AuthorizationError (Unit {0})
authorize s actor operation lease_id now =
    check_principal s actor operation lease_id now (get actor s.principals)

-- The adapter acts on a world `W`, and is run only if all checks pass.
module _ {W T : Type 0} where
  unfoldable pub execute :
      PolicyEngine
      → String
      → Operation
      → Option ℕ
      → ℕ
      → (W → W × T)
      → W
      → W × Result AuthorizationError T
  execute s actor operation lease_id now adapter w =
      elim (authorize s actor operation lease_id now) [
        | err e ↦ (w, err e)
        | ok _ ↦ let (w', t) = adapter w in (w', ok t)
      ]

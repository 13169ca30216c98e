-- ===== src/Registry/Leasing.antt =====
-- The registry's answers to lease requests (`lease` of src/registry_runtime.rs).
use devicelane.Shared.{
  ℕ, ◌-◌, Bool, not, ◌&&◌, ◌||◌, Option, none, some, List, [], ◌∷◌, ◌++◌, String, string_eq,
  option_string_eq, ◌==◌, if◌then◌else◌, any, find, retain, contains, is_some_and, saturating_add,
  Bytes,
}
use devicelane.Map.{Map, get, remove, contains_key, values}
use devicelane.Registry.LeaseBook.{
  DeviceLease, LeaseBook, insert_lease, release_device, force_release_device, release_all,
  devices_where, expire,
}

pub record LeaseGrant : Type 0 where
  pub lease_id : String
  pub device_id : String
  pub client_id : String
  pub job_id : String
  pub expires_at_ms : ℕ
  pub signature : Bytes

pub data LeaseRequest : Type 0 where
  acquire queue : String → ℕ → LeaseRequest
  renew : String → ℕ → LeaseRequest
  release revoke : String → LeaseRequest
  check : LeaseGrant → LeaseRequest
  disconnect : LeaseRequest
  agent_detach : String → LeaseRequest

pub data Response : Type 0 where
  error_response : String → Response
  status : String → Response
  granted : String → LeaseGrant → Response

-- The first entry whose lease passes, changed in place.
unfoldable pub update_first :
    (DeviceLease → Bool)
    → (DeviceLease → DeviceLease)
    → Map String DeviceLease
    → Map String DeviceLease
update_first p f [] = []
update_first p f ((k, l) ∷ m) = if p l then (k, f l) ∷ m else (k, l) ∷ update_first p f m

abbrev pub is_own : String → String → DeviceLease → Bool
is_own peer lease_id lease = lease.id == lease_id && lease.client_id == peer

-- The state of the registry that a lease request changes.
pub record Registry : Type 0 where
  pub leases : LeaseBook
  pub device_peers : Map String String

-- The answer to an agent that asks whether a grant still stands.
unfoldable pub check_grant : Registry → String → List String → LeaseGrant → Response
check_grant s peer agent_peers grant =
    if not (contains agent_peers peer) || not (get grant.device_id s.device_peers == some peer)
    then error_response "lease_validation_access_denied"
    else if is_some_and (get grant.device_id s.leases.active)
        (λ l. l.id == grant.lease_id && l.client_id == grant.client_id)
    then status "active"
    else error_response "lease_inactive"

-- `sign` is the transport's signature of a grant's payload, which may fail.
module _ (sign : LeaseGrant → Option Bytes) where
  -- The signed grant of the lease with the id; `none` is the panic where there is no such lease, or
  -- where the signature fails.
  unfoldable pub grant_of : LeaseBook → String → String → ℕ → Option Response
  grant_of b id text now = elim (find (λ lease. lease.id == id) (values b.active)) [
    | none ↦ none
    | some lease ↦
        let grant : LeaseGrant = record {
          lease_id = lease.id;
          device_id = lease.device_id;
          client_id = lease.client_id;
          job_id = "";
          expires_at_ms = lease.expires_at_ms - now;
          signature = [];
        } in
        elim (sign grant) [
          | none ↦ none
          | some signature ↦ some (granted text (record grant { signature = signature }))
        ]
  ]

  abbrev pub answer : Registry → LeaseBook → String → String → ℕ → Option (Registry × Response)
  answer s b id text now = elim (grant_of b id text now) [
    | none ↦ none
    | some response ↦ some (record s { leases = b }, response)
  ]

  -- The release or the revocation of a client's own lease.
  unfoldable pub give_up : Registry → String → String → String → ℕ → Registry × Response
  unfolding release_device
  give_up s peer lease_id text now = elim (find (is_own peer lease_id) (values s.leases.active)) [
    | none ↦ (s, error_response "lease_inactive")
    | some lease ↦ (record s { leases = release_device s.leases lease.device_id now }, status text)
  ]

  unfoldable pub acquire_device : Registry → String → String → ℕ → ℕ → Option (Registry × Response)
  unfolding insert_lease grant_of
  acquire_device s peer device lifetime now =
      let (b, id) = insert_lease s.leases device peer lifetime now in answer s b id "acquired" now

  -- After `expire`.
  unfoldable pub serve :
      Registry → String → List String → LeaseRequest → ℕ → Option (Registry × Response)
  unfolding check_grant acquire_device give_up update_first force_release_device release_all
      grant_of
  serve s peer agent_peers (acquire device lifetime) now =
      if contains_key device s.leases.active
      then some (s, error_response "device_already_leased")
      else acquire_device s peer device lifetime now
  serve s peer agent_peers (queue device lifetime) now = elim (get device s.leases.active) [
    | none ↦ acquire_device s peer device lifetime now
    | some active ↦
        if active.client_id == peer
        then answer s s.leases active.id "acquired" now
        else some (
          (if any (λ w. w.device_id == device && w.client_id == peer) s.leases.waiting
              then s
              else record s {
                leases = record s.leases {
                  waiting =
                      s.leases.waiting
                      ++ record { device_id = device; client_id = peer; lifetime_ms = lifetime }
                        ∷ [];
                };
              }),
          status "queued",
        )
  ]
  serve s peer agent_peers (renew lease_id lifetime) now =
      elim (find (is_own peer lease_id) (values s.leases.active)) [
        | none ↦ some (s, error_response "lease_inactive")
        | some lease ↦
            answer s
              (record s.leases {
                active =
                    update_first (is_own peer lease_id)
                      (λ l. record l { expires_at_ms = saturating_add now lifetime })
                      s.leases.active;
              })
              lease.id "renewed" now
      ]
  serve s peer agent_peers (release lease_id) now = some (give_up s peer lease_id "released" now)
  serve s peer agent_peers (revoke lease_id) now = some (give_up s peer lease_id "revoked" now)
  serve s peer agent_peers (check grant) now = some (s, check_grant s peer agent_peers grant)
  serve s peer agent_peers disconnect now = some (
    record s {
      leases =
          release_all
            (record s.leases { waiting = retain (λ w. not (w.client_id == peer)) s.leases.waiting })
            (devices_where (λ l. l.client_id == peer) s.leases) now;
    },
    status "disconnected",
  )
  serve s peer agent_peers (agent_detach device) now =
      if not (contains agent_peers peer) || not (get device s.device_peers == some peer)
      then some (s, error_response "agent_detach_access_denied")
      else some (
        record s {
          leases = force_release_device s.leases device now;
          device_peers = remove device s.device_peers;
        },
        status "detached",
      )

  unfoldable pub lease :
      Registry → String → List String → LeaseRequest → ℕ → Option (Registry × Response)
  unfolding serve expire
  lease s peer agent_peers request now =
      serve (record s { leases = expire s.leases now }) peer agent_peers request now

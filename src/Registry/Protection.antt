-- ===== src/Registry/Protection.antt =====
-- Lease requests and the leases of others (`lease` of src/registry_runtime.rs).
use devicelane.Shared.{
  ℕ, ◌<◌, ◌≡◌, ◌≢◌, refl, ◌∙◌, ◌-◌, ◌⊎◌, [], inl, inr, Bool-cases, true, not, ◌&&◌, Option,
  Option-cases, none, some, List, String, string_eq, option_string_eq, ◌==◌, any, retain, find,
  is_some, Bytes, saturating_add, arith,
}
use devicelane.Map.{get, values, get-insert_new}
use devicelane.Registry.LeaseBook.{DeviceLease, LeaseBook, insert_lease, devices_where, expire}
use devicelane.Registry.Leasing.{
  LeaseGrant, LeaseRequest, acquire, queue, renew, release, revoke, check, disconnect, agent_detach,
  Response, Registry, update_first, is_own, grant_of, give_up, acquire_device, serve, lease,
}
use devicelane.Registry.Lookup.{
  find-insert, find-get, get-update_first, update_first-IsMap, update_first-keyed,
  find-update_first,
}
use devicelane.Registry.Invariant.{
  IsBook, insert_lease-IsBook, release_device-IsBook, release_device-other, release_all-IsBook,
  release_all-other, keys_where, find-values, expire-IsBook, expire-live,
}

-- Not the request by which an agent takes its device back.
abbrev pub IsClient : LeaseRequest → Type 0
IsClient (agent_detach _) = ⊥
IsClient _ = Unit

-- A well-formed book, in which the leases of others are as they were.
pub record Protects (peer : String) (s t : Registry) : Type 0 where
  pub book : IsBook t.leases
  pub others :
      (device : String) (l : DeviceLease)
      → get device s.leases.active ≡ some l
      → l.client_id ≢ peer
      → get device t.leases.active ≡ some l

-- A panic, as the transport does not sign some grant.
abbrev pub Unsigned : (LeaseGrant → Option Bytes) → Option (Registry × Response) → Type 0
Unsigned sign o = (grant : LeaseGrant) × (sign grant ≡ none) × (o ≡ none)

module _ (sign : LeaseGrant → Option Bytes) (s : Registry) (peer : String) (now : ℕ)
    (v : IsBook s.leases) where
  -- The request is answered, and protects others, or a signature fails.
  Answers : Option (Registry × Response) → Type 0
  Answers o = ((q : Registry × Response) × (o ≡ some q) × Protects peer s q.0) ⊎ Unsigned sign o

  same-Protects : Protects peer s s
  same-Protects = record { book = v; others = λ device l there other. there }

  abbrev unsigned_grant : DeviceLease → LeaseGrant
  unsigned_grant l = record {
    lease_id = l.id;
    device_id = l.device_id;
    client_id = l.client_id;
    job_id = "";
    expires_at_ms = l.expires_at_ms - now;
    signature = [];
  }

  answer-Answers :
      (b : LeaseBook) (id text : String)
      → is_some (find (λ l. l.id == id) (values b.active)) ≡ true
      → Protects peer s (record s { leases = b })
      → Answers (elim (grant_of sign b id text now) [
        | none ↦ none
        | some response ↦ some (record s { leases = b }, response)
      ])
  unfolding Answers grant_of
  answer-Answers b id text known kept =
      elim (Option-cases (find (λ l. l.id == id) (values b.active))) [
        | inl missing ↦ absurd (ground (arith, known, missing))
        | inr (l, found) ↦ elim (Option-cases (sign (unsigned_grant l))) [
          | inl fails ↦ rw (found, fails, grant_of) (inr (unsigned_grant l, fails, refl))
          | inr (signature, signs) ↦ rw (found, signs, grant_of) (inl (_, refl, kept))
        ]
      ]

  -- The client's own lease is on another device than one of someone else.
  apart :
      (lease_id : String) (own : DeviceLease) (d : String) (l : DeviceLease)
      → get own.device_id s.leases.active ≡ some own
      → is_own peer lease_id own ≡ true
      → get d s.leases.active ≡ some l
      → l.client_id ≢ peer
      → own.device_id ≢ d
  apart lease_id own d l under mine there other same =
      let is_l : own ≡ l = cc (under, there, same) in other (ground (arith, mine, is_l))

  acquire_device-Answers :
      (device : String) (lifetime : ℕ)
      → get device s.leases.active ≡ none
      → Answers (acquire_device sign s peer device lifetime now)
  unfolding acquire_device insert_lease
  acquire_device-Answers device lifetime free =
      answer-Answers (insert_lease s.leases device peer lifetime now).0
        (insert_lease s.leases device peer lifetime now).1 "acquired"
        (find-insert _ device _ s.leases.active (ground arith))
        (record {
          book = insert_lease-IsBook s.leases device peer lifetime now v;
          others = λ d l there other. get-insert_new device d _ l s.leases.active free there;
        })

  give_up-Protects :
      (lease_id text : String) → Protects peer s (give_up sign s peer lease_id text now).0
  unfolding give_up
  give_up-Protects lease_id text =
      elim (Option-cases (find (is_own peer lease_id) (values s.leases.active))) [
        | inl missing ↦ rw (missing, give_up) same-Protects
        | inr (own, found) ↦
            let (under, mine) = find-values _ own s.leases.active v.one v.keyed found in
            rw (found, give_up)
              (record {
                book = release_device-IsBook s.leases own.device_id now v;
                others = λ d l there other.
                    release_device-other s.leases own.device_id d now
                      (apart lease_id own d l under mine there other)
                    ∙ there;
              })
      ]

  renew-Answers :
      (lease_id : String) (lifetime : ℕ) (agents : List String)
      → Answers (serve sign s peer agents (renew lease_id lifetime) now)
  unfolding serve Answers
  renew-Answers lease_id lifetime agents =
      elim (Option-cases (find (is_own peer lease_id) (values s.leases.active))) [
        | inl missing ↦ rw (missing, serve) (inl (_, refl, same-Protects))
        | inr (own, found) ↦
            rw (found, serve)
              (answer-Answers
                (record s.leases {
                  active =
                      update_first (is_own peer lease_id)
                        (λ l. record l { expires_at_ms = saturating_add now lifetime })
                        s.leases.active;
                })
                own.id "renewed"
                (find-update_first (is_own peer lease_id) (λ l. l.id == own.id) _ own
                  s.leases.active found (ground arith))
                (record {
                  book = record {
                    one = update_first-IsMap _ _ s.leases.active v.one;
                    keyed = update_first-keyed _ _ s.leases.active (λ l. refl) v.keyed;
                  };
                  others = λ d l there other.
                      get-update_first _ _ d l s.leases.active there (ground (arith, other));
                }))
      ]

  queue-Answers :
      (device : String) (lifetime : ℕ) (agents : List String)
      → Answers (serve sign s peer agents (queue device lifetime) now)
  unfolding serve Answers
  queue-Answers device lifetime agents = elim (Option-cases (get device s.leases.active)) [
    | inl free ↦ rw (free, serve) (acquire_device-Answers device lifetime free)
    | inr (l, there) ↦ elim (Bool-cases (l.client_id == peer)) [
      | inl mine ↦
          rw (there, mine, serve)
            (answer-Answers s.leases l.id "acquired"
              (find-get _ device l s.leases.active there (ground arith)) same-Protects)
      | inr other ↦
          elim (Bool-cases
            (any (λ w. w.device_id == device && w.client_id == peer) s.leases.waiting)) [
              | inl waits ↦ rw (there, other, waits, serve) (inl (_, refl, same-Protects))
              | inr joins ↦
                  rw (there, other, joins, serve)
                    (inl (
                      _,
                      refl,
                      record {
                        book = record { one = v.one; keyed = v.keyed };
                        others = λ d l there other. there;
                      },
                    ))
            ]
    ]
  ]

  -- The book and the devices of a disconnect.
  abbrev unqueued : LeaseBook
  unqueued = record s.leases { waiting = retain (λ w. not (w.client_id == peer)) s.leases.waiting }

  abbrev own_devices : List String
  own_devices = devices_where (λ l. l.client_id == peer) s.leases

  disconnect-Answers : (agents : List String) → Answers (serve sign s peer agents disconnect now)
  unfolding serve Answers
  disconnect-Answers agents = inl (
    _,
    refl,
    record {
      book = release_all-IsBook unqueued own_devices now (record { one = v.one; keyed = v.keyed });
      others = λ d l there other.
          release_all-other unqueued own_devices d now (
            keys_where (λ x. x.client_id == peer) d l s.leases.active v.one there
              (ground (arith, other)))
          ∙ there;
    },
  )

  serve-Answers :
      (request : LeaseRequest) (agents : List String)
      → IsClient request
      → Answers (serve sign s peer agents request now)
  unfolding serve Answers
  serve-Answers (acquire device lifetime) agents client =
      elim (Option-cases (get device s.leases.active)) [
        | inl free ↦ rw (free, serve) (acquire_device-Answers device lifetime free)
        | inr (l, there) ↦ rw (there, serve) (inl (_, refl, same-Protects))
      ]
  serve-Answers (queue device lifetime) agents client = queue-Answers device lifetime agents
  serve-Answers (renew lease_id lifetime) agents client = renew-Answers lease_id lifetime agents
  serve-Answers (release lease_id) agents client =
      inl (_, refl, give_up-Protects lease_id "released")
  serve-Answers (revoke lease_id) agents client = inl (_, refl, give_up-Protects lease_id "revoked")
  serve-Answers (check grant) agents client = inl (_, refl, same-Protects)
  serve-Answers disconnect agents client = disconnect-Answers agents
  serve-Answers (agent_detach device) agents client = absurd client

-- On a well-formed lease book, each lease request of a client is answered and leaves a well-formed
-- book, and each lease of another client whose time has not come is there as before, under its
-- device; there is no panic, unless the transport fails to sign some grant. The request by which
-- an agent takes its device back is excepted.
pub lease-Protects :
    (sign : LeaseGrant → Option Bytes) (s : Registry) (peer : String) (agents : List String)
    (request : LeaseRequest) (now : ℕ)
    → IsBook s.leases
    → IsClient request
    → ((q : Registry × Response) × (lease sign s peer agents request now ≡ some q)
        × IsBook q.0.leases
        × ((device : String) (l : DeviceLease)
            → get device s.leases.active ≡ some l
            → now < l.expires_at_ms
            → l.client_id ≢ peer
            → get device q.0.leases.active ≡ some l))
      ⊎ Unsigned sign (lease sign s peer agents request now)
unfolding lease Answers
lease-Protects sign s peer agents request now v client =
    elim (serve-Answers sign (record s { leases = expire s.leases now }) peer now
      (expire-IsBook s.leases now v) request agents client) [
        | inr unsigned ↦ inr unsigned
        | inl (q, answered, kept) ↦ inl (
          q,
          answered,
          kept.book,
          λ device l there live other.
              kept.others device l (expire-live s.leases now device l v there live) other,
        )
      ]

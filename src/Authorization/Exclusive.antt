-- ===== src/Authorization/Exclusive.antt =====
-- Leases as the clock goes on (src/lib.rs, module `authorization`).
use devicelane.Shared.{
  ℕ, ◌+◌, ◌<◌, ◌≡◌, refl, inl, inr, Bool-cases, true, false, Option-cases, some, List, [], ◌∷◌,
  String, nat_eq, string_eq, ◌==◌, ◌&&◌, any, arith,
}
use devicelane.Map.{get, insert, values, get-insert, get-insert_cases, get-any}
use devicelane.Authorization.Engine.{
  Role, Lease, PolicyEngine, is_live, is_operator, new, grant, acquire_lease, revoke_lease,
  lease_is_active,
}

-- At most one lease of a device is live at the time `now`, and the ids to come are unused.
pub record IsExclusive (now : ℕ) (s : PolicyEngine) : Type 0 where
  pub below : (id : ℕ) (l : Lease) → get id s.leases ≡ some l → id < s.next_lease_id
  pub one :
      (i j : ℕ) (l m : Lease)
      → get i s.leases ≡ some l
      → get j s.leases ≡ some m
      → is_live now l ≡ true
      → is_live now m ≡ true
      → l.device_id ≡ m.device_id
      → i ≡ j

-- A call that changes the engine.
pub data Call : Type 0 where
  grants : String → Role → String → Call
  acquires : String → String → ℕ → Call
  revokes : ℕ → Call

unfoldable pub step : ℕ → PolicyEngine → Call → PolicyEngine
step now s (grants actor role capability) = grant s actor role capability
step now s (acquires device holder lifetime) = (acquire_lease s device holder lifetime now).0
step now s (revokes id) = revoke_lease s id

-- Calls, each so long after the one before it; the time of the last one.
unfoldable pub run : ℕ → PolicyEngine → List (ℕ × Call) → ℕ × PolicyEngine
run now s [] = (now, s)
run now s ((wait, call) ∷ calls) = run (now + wait) (step (now + wait) s call) calls

is_live-later : (now wait : ℕ) (l : Lease) → is_live (now + wait) l ≡ true → is_live now l ≡ true
is_live-later now wait l h = ground (arith, h)

pub IsExclusive-later :
    (now wait : ℕ) (s : PolicyEngine) → IsExclusive now s → IsExclusive (now + wait) s
IsExclusive-later now wait s v = record {
  below = v.below;
  one = λ i j l m hi hj li lj.
      v.one i j l m hi hj (is_live-later now wait l li) (is_live-later now wait m lj);
}

acquire_cases :
    (P : PolicyEngine → Type 0) (s : PolicyEngine) (device holder : String) (lifetime now : ℕ)
    → P s
    → (any (λ l. l.device_id == device && is_live now l) (values s.leases) ≡ false
        → P (record s {
          leases =
              insert s.next_lease_id
                (record {
                  device_id = device;
                  holder = holder;
                  expires_at = now + lifetime;
                  revoked = false;
                })
                s.leases;
          next_lease_id = s.next_lease_id + 1;
        }))
    → P (acquire_lease s device holder lifetime now).0
unfolding acquire_lease
acquire_cases P s device holder lifetime now refused granted =
    elim (Bool-cases (is_operator (get holder s.principals))) [
      | inr lower ↦ rw lower refused
      | inl ranked ↦
          elim (Bool-cases (any (λ l. l.device_id == device && is_live now l) (values s.leases))) [
            | inl leased ↦ rw (ranked, leased) refused
            | inr free ↦ rw (ranked, free) (granted free)
          ]
    ]

insert-IsExclusive :
    (now : ℕ) (s : PolicyEngine) (new_lease : Lease)
    → IsExclusive now s
    → any (λ l. l.device_id == new_lease.device_id && is_live now l) (values s.leases) ≡ false
    → IsExclusive now (record s {
      leases = insert s.next_lease_id new_lease s.leases;
      next_lease_id = s.next_lease_id + 1;
    })
insert-IsExclusive now s new_lease v free = record {
  below = λ id l h. elim (get-insert_cases s.next_lease_id id new_lease l s.leases h) [
    | inl (same, _) ↦ omega (arith, same)
    | inr (_, old) ↦ omega (arith, v.below id l old)
  ];
  one = λ i j l m hi hj li lj same.
      elim (get-insert_cases s.next_lease_id i new_lease l s.leases hi) [
        | inl (at_i, is_l) ↦ elim (get-insert_cases s.next_lease_id j new_lease m s.leases hj) [
          | inl (at_j, _) ↦ cc
          | inr (_, old) ↦ absurd (taken j m old lj (cc (same, is_l)))
        ]
        | inr (_, old) ↦ elim (get-insert_cases s.next_lease_id j new_lease m s.leases hj) [
          | inl (_, is_m) ↦ absurd (taken i l old li (cc (same, is_m)))
          | inr (_, older) ↦ v.one i j l m old older li lj same
        ]
      ];
}
  where
    taken :
        (i : ℕ) (l : Lease)
        → get i s.leases ≡ some l
        → is_live now l ≡ true
        → l.device_id ≡ new_lease.device_id
        → ⊥
    taken i l there live same = ground (arith, live, same, get-any _ i l s.leases there free)

revoke-IsExclusive :
    (now id : ℕ) (s : PolicyEngine) → IsExclusive now s → IsExclusive now (revoke_lease s id)
unfolding revoke_lease
revoke-IsExclusive now id s v = elim (Option-cases (get id s.leases)) [
  | inl missing ↦ rw (missing, revoke_lease) v
  | inr (lease, there) ↦
      rw (there, revoke_lease)
        (record {
          below = λ k l h. ground (
            arith,
            h,
            there,
            get-insert id k (record lease { revoked = true }) s.leases,
            v.below k l,
            v.below id lease,
          );
          one = λ i j l m hi hj li lj same. ground (
            arith,
            hi,
            hj,
            li,
            lj,
            same,
            get-insert id i (record lease { revoked = true }) s.leases,
            get-insert id j (record lease { revoked = true }) s.leases,
            v.one i j l m,
          );
        })
]

step-IsExclusive :
    (now : ℕ) (s : PolicyEngine) (call : Call)
    → IsExclusive now s
    → IsExclusive now (step now s call)
unfolding step grant
step-IsExclusive now s (grants actor role capability) v = record { below = v.below; one = v.one }
step-IsExclusive now s (acquires device holder lifetime) v =
    acquire_cases (IsExclusive now) s device holder lifetime now v
      λ free. insert-IsExclusive now s _ v free
step-IsExclusive now s (revokes id) v = revoke-IsExclusive now id s v

-- As the clock goes on, any sequence of grants, acquisitions and revocations, from an engine in
-- which no two leases of one device are live, leads to one in which no two are, and in which the
-- ids to come are unused.
pub run-IsExclusive :
    (now : ℕ) (s : PolicyEngine) (calls : List (ℕ × Call))
    → IsExclusive now s
    → IsExclusive (run now s calls).0 (run now s calls).1
unfolding run
run-IsExclusive now s [] v = v
run-IsExclusive now s ((wait, call) ∷ calls) v =
    run-IsExclusive (now + wait) (step (now + wait) s call) calls
      (step-IsExclusive (now + wait) s call (IsExclusive-later now wait s v))

pub new-IsExclusive : (now : ℕ) → IsExclusive now new
unfolding get
new-IsExclusive now = record { below = λ id l h. absurd (cc h); one = λ i j l m h. absurd (cc h) }

-- The lease is on the books, and revoked.
abbrev pub IsRevoked : ℕ → PolicyEngine → Type 0
IsRevoked id s = (l : Lease) × (get id s.leases ≡ some l) × (l.revoked ≡ true)

revoke-IsRevoked :
    (id : ℕ) (l : Lease) (s : PolicyEngine)
    → get id s.leases ≡ some l
    → IsRevoked id (revoke_lease s id)
unfolding revoke_lease
revoke-IsRevoked id l s h =
    rw (h, revoke_lease)
      (
        record l { revoked = true },
        ground (arith, get-insert id id (record l { revoked = true }) s.leases),
        refl,
      )

step-IsRevoked :
    (now id : ℕ) (s : PolicyEngine) (call : Call)
    → IsExclusive now s
    → IsRevoked id s
    → IsRevoked id (step now s call)
unfolding step grant revoke_lease
step-IsRevoked now id s (grants actor role capability) v r = r
step-IsRevoked now id s (acquires device holder lifetime) v (l, there, revoked) =
    acquire_cases (IsRevoked id) s device holder lifetime now (l, there, revoked)
      λ free. (
        l,
        ground (
          arith,
          there,
          v.below id l there,
          get-insert s.next_lease_id id
              (record {
                device_id = device;
                holder = holder;
                expires_at = now + lifetime;
                revoked = false;
              })
              s.leases,
        ),
        revoked,
      )
step-IsRevoked now id s (revokes k) v (l, there, revoked) = elim (Option-cases (get k s.leases)) [
  | inl missing ↦ rw (missing, revoke_lease) (l, there, revoked)
  | inr (m, at) ↦ elim (Bool-cases (k == id)) [
    | inl same ↦
        rw (at, revoke_lease)
          (
            record m { revoked = true },
            ground (arith, same, get-insert k id (record m { revoked = true }) s.leases),
            refl,
          )
    | inr other ↦
        rw (at, revoke_lease)
          (
            l,
            ground (arith, other, there, get-insert k id (record m { revoked = true }) s.leases),
            revoked,
          )
  ]
]

run-IsRevoked :
    (now id : ℕ) (s : PolicyEngine) (calls : List (ℕ × Call))
    → IsExclusive now s
    → IsRevoked id s
    → IsRevoked id (run now s calls).1
unfolding run
run-IsRevoked now id s [] v r = r
run-IsRevoked now id s ((wait, call) ∷ calls) v r =
    let later = IsExclusive-later now wait s v in
    run-IsRevoked (now + wait) id (step (now + wait) s call) calls
      (step-IsExclusive (now + wait) s call later) (step-IsRevoked (now + wait) id s call later r)

-- A lease that is revoked is not active at any time after any sequence of grants, acquisitions and
-- revocations.
pub run-revoke_lease :
    (now id at : ℕ) (l : Lease) (s : PolicyEngine) (calls : List (ℕ × Call))
    → IsExclusive now s
    → get id s.leases ≡ some l
    → lease_is_active (run now (revoke_lease s id) calls).1 id at ≡ false
unfolding lease_is_active
run-revoke_lease now id at l s calls v there =
    let (m, found, revoked) =
      run-IsRevoked now id (revoke_lease s id) calls (revoke-IsExclusive now id s v)
        (revoke-IsRevoked id l s there) in
    rw (found, revoked) refl

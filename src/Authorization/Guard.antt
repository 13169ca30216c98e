-- ===== src/Authorization/Guard.antt =====
-- When an operation is carried out (src/lib.rs, `PolicyEngine::execute`).
use devicelane.Shared.{
  ℕ, ◌+◌, List, ◌<◌, ◌≡◌, refl, inl, inr, ◌⊎◌, subst, ◌∙◌, sym, ap, Bool-cases, Result-cases, true,
  false, Option, Option-cases, none, some, String, nat_eq, string_eq, not, ◌&&◌, contains, Result,
  ok, err, arith,
}
use devicelane.Map.{get}
use devicelane.Authorization.Engine.{
  check_lease, check_principal, authorize, Role, operator, observer, Operation, AuthorizationError,
  Lease, Principal, PolicyEngine, is_active_for, is_observer, capability, device_of, observable,
  execute, new,
}
use devicelane.Authorization.Exclusive.{
  IsExclusive, IsExclusive-later, Call, run, run-IsExclusive, new-IsExclusive,
}

-- The actor holds the lease, on the device, and it is live.
pub record Holds (s : PolicyEngine) (actor device : String) (now id : ℕ) : Type 0 where
  pub lease : Lease
  pub found : get id s.leases ≡ some lease
  pub on_device : lease.device_id ≡ device
  pub by_actor : lease.holder ≡ actor
  pub kept : lease.revoked ≡ false
  pub in_time : now < lease.expires_at

-- An operation on a device wants a lease.
abbrev pub Leased : PolicyEngine → String → Option ℕ → ℕ → Option String → Type 0
Leased s actor lease_id now none = Unit
Leased s actor none now (some device) = ⊥
Leased s actor (some id) now (some device) = Holds s actor device now id

-- The actor may carry out the operation.
pub record Allowed (s : PolicyEngine) (actor : String) (operation : Operation) (lease_id : Option ℕ)
    (now : ℕ) : Type 0 where
  pub principal : Principal
  pub known : get actor s.principals ≡ some principal
  pub capable : contains principal.capabilities (capability operation) ≡ true
  pub ranked : (principal.role ≡ operator) ⊎ (observable operation ≡ true)
  pub leased : Leased s actor lease_id now (device_of operation)

-- What the result of `execute` says: the adapter was run where it may be, and else was not.
abbrev pub Guards :
    {W T : Type 0}
    → PolicyEngine
    → String
    → Operation
    → Option ℕ
    → ℕ
    → (W → W × T)
    → W
    → W × Result AuthorizationError T
    → Type 0
Guards s actor operation lease_id now adapter w (w', ok t) =
    Allowed s actor operation lease_id now × (adapter w ≡ (w', t))
Guards s actor operation lease_id now adapter w (w', err e) =
    ¬ Allowed s actor operation lease_id now × (w' ≡ w)

role-cases :
    (r : Role)
    → ((r ≡ operator) × (is_observer r ≡ false)) ⊎ ((r ≡ observer) × (is_observer r ≡ true))
unfolding is_observer
role-cases operator = inl (refl, refl)
role-cases observer = inr (refl, refl)

module _ (s : PolicyEngine) (actor : String) (operation : Operation) (lease_id : Option ℕ)
    (now : ℕ) where
  Decides : Result AuthorizationError (Unit {0}) → Type 0 → Type 0
  Decides (ok _) P = P
  Decides (err e) P = ¬ P

  unheld :
      (device : String) (id : ℕ) (lease : Lease)
      → get id s.leases ≡ some lease
      → is_active_for now device actor lease ≡ false
      → ¬ Holds s actor device now id
  unheld device id lease there inactive h =
      let same : h.lease ≡ lease = cc (h.found, there) in
      ground (arith, inactive, same, h.on_device, h.by_actor, h.kept, h.in_time)

  check_lease-Decides :
      (device : Option String)
      → Decides (check_lease s actor now lease_id device) (Leased s actor lease_id now device)
  unfolding Decides
  check_lease-Decides none = tt
  check_lease-Decides (some device) = elim (Option-cases lease_id) [
    | inl no_lease ↦ rw no_lease (λ never. never)
    | inr (id, at) ↦ rw at (elim (Option-cases (get id s.leases)) [
      | inl missing ↦ rw missing (λ h. absurd (cc (missing, h.found)))
      | inr (lease, there) ↦ elim (Bool-cases (is_active_for now device actor lease)) [
        | inl active ↦
            rw (there, active)
              (record {
                lease = lease;
                found = there;
                on_device = ground (arith, active);
                by_actor = ground (arith, active);
                kept = ground (arith, active);
                in_time = ground (arith, active);
              })
        | inr inactive ↦ rw (there, inactive) (λ h. unheld device id lease there inactive h)
      ]
    ])
  ]

  principal_of :
      (p : Principal)
      → get actor s.principals ≡ some p
      → (a : Allowed s actor operation lease_id now) → a.principal ≡ p
  principal_of p known a = cc (known, a.known)

  check_principal-Decides :
      (p : Principal)
      → get actor s.principals ≡ some p
      → Decides
          (check_principal s actor operation lease_id now (some p))
          (Allowed s actor operation lease_id now)
  unfolding Decides
  check_principal-Decides p known =
      elim (Bool-cases (contains p.capabilities (capability operation))) [
        | inr incapable ↦
            rw incapable (λ a. absurd (cc (incapable, a.capable, principal_of p known a)))
        | inl capable ↦ elim (Bool-cases (is_observer p.role && not (observable operation))) [
          | inl outranked ↦
              rw (capable, outranked)
                (λ a.
                  ground (arith, outranked, a.ranked, principal_of p known a, role-cases p.role))
          | inr ranked ↦
              rw (capable, ranked)
                (elim (Result-cases (check_lease s actor now lease_id (device_of operation))) [
                  | inl (done, passed) ↦ rw passed (record {
                    principal = p;
                    known = known;
                    capable = capable;
                    ranked = ground (arith, ranked, role-cases p.role);
                    leased =
                        subst (λ r. Decides r (Leased s actor lease_id now (device_of operation)))
                          passed (check_lease-Decides (device_of operation));
                  })
                  | inr (e, failed) ↦ rw failed (λ a.
                      subst (λ r. Decides r (Leased s actor lease_id now (device_of operation)))
                        failed (check_lease-Decides (device_of operation)) a.leased)
                ])
        ]
      ]

  authorize-Decides :
      Decides (authorize s actor operation lease_id now) (Allowed s actor operation lease_id now)
  unfolding Decides authorize
  authorize-Decides = elim (Option-cases (get actor s.principals)) [
    | inl unknown ↦ rw (unknown, authorize) (λ a. absurd (cc (unknown, a.known)))
    | inr (p, known) ↦ rw (known, authorize) (check_principal-Decides p known)
  ]

  decided :
      (r : Result AuthorizationError (Unit {0}))
      → authorize s actor operation lease_id now ≡ r
      → Decides r (Allowed s actor operation lease_id now)
  decided r at =
      subst (λ r. Decides r (Allowed s actor operation lease_id now)) at authorize-Decides

  -- `execute` runs the adapter, once, exactly if the actor has the operation's capability, is an
  -- operator or the operation is one that observers may do, and, where the operation is on a
  -- device, holds a lease of that device that is neither revoked nor past its time. In every other
  -- case it returns an error and the adapter is not run.
  pub execute-Guards :
      {W T : Type 0} (adapter : W → W × T) (w : W)
      → Guards s actor operation lease_id now adapter w
          (execute s actor operation lease_id now adapter w)
  unfolding execute Decides
  execute-Guards adapter w = elim (Result-cases (authorize s actor operation lease_id now)) [
    | inl (done, passed) ↦ rw (passed, execute) (decided (ok done) passed, refl)
    | inr (e, failed) ↦ rw (failed, execute) (decided (err e) failed, refl)
  ]

module _ (s : PolicyEngine) (now : ℕ) (v : IsExclusive now s) (device a b : String) where
  Holds-unique : (i j : ℕ) → Holds s a device now i → Holds s b device now j → (i ≡ j) × (a ≡ b)
  Holds-unique i j h k =
      let same : i ≡ j =
        v.one i j h.lease k.lease h.found k.found (ground (arith, h.kept, h.in_time))
          (ground (arith, k.kept, k.in_time)) (h.on_device ∙ sym k.on_device) in
      let one : h.lease ≡ k.lease = cc (same, h.found, k.found) in
      (same, cc (one, h.by_actor, k.by_actor))

  Leased-unique :
      (i j : Option ℕ)
      → Leased s a i now (some device)
      → Leased s b j now (some device)
      → (i ≡ j) × (a ≡ b)
  Leased-unique none j h k = absurd h
  Leased-unique (some i) none h k = absurd k
  Leased-unique (some i) (some j) h k =
      let (same, actor) = Holds-unique i j h k in (ap some same, actor)

  Allowed-unique :
      (p q : Operation) (i j : Option ℕ)
      → device_of p ≡ some device
      → device_of q ≡ some device
      → Allowed s a p i now
      → Allowed s b q j now
      → (i ≡ j) × (a ≡ b)
  Allowed-unique p q i j at_p at_q may_a may_b =
      Leased-unique i j (subst (Leased s a i now) at_p may_a.leased)
        (subst (Leased s b j now) at_q may_b.leased)

execute-Allowed :
    {W T : Type 0} (s : PolicyEngine) (actor : String) (operation : Operation) (lease_id : Option ℕ)
    (now : ℕ) (adapter : W → W × T) (w w' : W) (t : T)
    → execute s actor operation lease_id now adapter w ≡ (w', ok t)
    → Allowed s actor operation lease_id now
execute-Allowed s actor operation lease_id now adapter w w' t done =
    (subst (Guards s actor operation lease_id now adapter w) done
      (execute-Guards s actor operation lease_id now adapter w)).0

-- From the new engine, after any sequence of grants, acquisitions and revocations and any wait, if
-- `execute` carries out an operation on a device for one actor and one on the same device for
-- another at the same time, then the two are the same actor, with the same lease.
pub execute_unique :
    {W T : Type 0} (start wait : ℕ) (calls : List (ℕ × Call)) (device a b : String)
    (p q : Operation) (i j : Option ℕ) (adapter : W → W × T) (w w' u u' : W) (x y : T)
    → device_of p ≡ some device
    → device_of q ≡ some device
    → execute (run start new calls).1 a p i ((run start new calls).0 + wait) adapter w ≡ (w', ok x)
    → execute (run start new calls).1 b q j ((run start new calls).0 + wait) adapter u ≡ (u', ok y)
    → (i ≡ j) × (a ≡ b)
execute_unique start wait calls device a b p q i j adapter w w' u u' x y at_p at_q by_a by_b =
    let (now, s) = run start new calls in
    let held = run-IsExclusive start new calls (new-IsExclusive start) in
    Allowed-unique s (now + wait) (IsExclusive-later now wait s held) device a b p q i j at_p at_q
      (execute-Allowed s a p i (now + wait) adapter w w' x by_a)
      (execute-Allowed s b q j (now + wait) adapter u u' y by_b)

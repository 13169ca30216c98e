-- ===== src/Authorization/Tests.antt =====
-- Tests of the engine, and the theorems at concrete inputs (src/lib.rs, module `authorization`).
use devicelane.Shared.{
  ℕ, ◌+◌, ◌≡◌, refl, ok, false, Option, some, List, [], ◌∷◌, String, string_eq, nat_eq,
  string_discrete, ℕ_discrete, arith,
}
use devicelane.Map.{get, insert}
use devicelane.Authorization.Engine.{
  capability, device_of, operator, observer, Lease, PolicyEngine, new, authorize, lease_is_active,
  revoke_lease, execute, install_device, grant, acquire_lease, is_observer, observable, operator,
  observer,
}
use devicelane.Authorization.Exclusive.{
  IsExclusive, Call, grants, acquires, step, run, run-IsExclusive, new-IsExclusive,
  run-revoke_lease,
}
use devicelane.Authorization.Guard.{Guards, execute-Guards, execute_unique}

abbrev calls : List (ℕ × Call)
calls =
    (0, grants "alice" operator "device.install")
    ∷ (0, grants "bob" operator "device.install")
    ∷ (5, acquires "phone" "alice" 10)
    ∷ (1, acquires "phone" "bob" 10)
    ∷ []

run-IsExclusive_example : IsExclusive (run 0 new calls).0 (run 0 new calls).1
run-IsExclusive_example = run-IsExclusive 0 new calls (new-IsExclusive 0)

abbrev alice_lease : Lease
alice_lease = record { device_id = "phone"; holder = "alice"; expires_at = 15; revoked = false }

abbrev leased : PolicyEngine
leased = record {
  principals =
      ("alice", record { role = operator; capabilities = "device.install" ∷ "process.start" ∷ [] })
      ∷ ("bob", record { role = observer; capabilities = "device.install" ∷ [] })
      ∷ [];
  leases = (1, alice_lease) ∷ [];
  next_lease_id = 2;
}

leased-IsExclusive : IsExclusive 5 leased
unfolding get
leased-IsExclusive = record {
  below = λ id l h. ground (arith, h);
  one = λ i j l m hi hj _ _ _. ground (arith, hi, hj);
}

run-revoke_lease_example :
    lease_is_active (run 5 (revoke_lease leased 1) ((2, acquires "phone" "alice" 10) ∷ [])).1 1 8
    ≡ false
unfolding get ℕ_discrete
run-revoke_lease_example =
    run-revoke_lease 5 1 8 alice_lease leased ((2, acquires "phone" "alice" 10) ∷ [])
      leased-IsExclusive refl

abbrev count_run : ℕ → ℕ × String
count_run w = (w + 1, "installed")

execute-Guards_example :
    Guards leased "alice"
      (install_device "phone")
      (some 1)
      7
      count_run
      0
      (execute leased "alice" (install_device "phone") (some 1) 7 count_run 0)
execute-Guards_example =
    execute-Guards leased "alice" (install_device "phone") (some 1) 7 count_run 0

-- After the calls alice has the phone, which bob was refused, and acts on it twice.
installs :
    execute
      (run 0 new calls).1
      "alice"
      (install_device "phone")
      (some 1)
      ((run 0 new calls).0 + 2)
      count_run
      0
    ≡ (1, ok "installed")
unfolding execute authorize get run step grant acquire_lease is_observer capability device_of
    observable insert ℕ_discrete string_discrete
installs = refl

installs_again :
    execute
      (run 0 new calls).1
      "alice"
      (install_device "phone")
      (some 1)
      ((run 0 new calls).0 + 2)
      count_run
      1
    ≡ (2, ok "installed")
unfolding execute authorize get run step grant acquire_lease is_observer capability device_of
    observable insert ℕ_discrete string_discrete
installs_again = refl

execute_unique_example : (◌≡◌ {A = Option ℕ} (some 1) (some 1)) × (◌≡◌ {A = String} "alice" "alice")
unfolding device_of
execute_unique_example =
    execute_unique 0 2 calls "phone" "alice" "alice" (install_device "phone")
      (install_device "phone") (some 1) (some 1) count_run 0 1 1 2 "installed" "installed" refl refl
      installs installs_again

-- ===== src/Registry/Tests.antt =====
-- The registry's theorems at concrete inputs (src/registry_runtime.rs).
use devicelane.Shared.{
  ℕ, ◌<◌, ◌≡◌, ◌≢◌, refl, ◌⊎◌, ap, none, some, [], ◌∷◌, if◌then◌else◌, String, len, string_eq,
  arith,
}
use devicelane.Map.{get, contains_key}
use devicelane.Registry.LeaseBook.{DeviceLease, release_device}
use devicelane.Registry.Leasing.{renew, Response, Registry, lease}
use devicelane.Registry.Invariant.{IsBook}
use devicelane.Registry.Handover.{handed, first_waiting, release_device-handed}
use devicelane.Registry.Protection.{Unsigned, lease-Protects}

abbrev lease_of : String → String → String → ℕ → DeviceLease
lease_of id device client time = record {
  id = id;
  device_id = device;
  client_id = client;
  expires_at_ms = time;
}

-- Two devices, of which one is waited for.
abbrev registry : Registry
registry = record {
  leases = record {
    next_id = 2;
    active =
        ("phone", lease_of "lease-1" "phone" "alice" 50)
        ∷ ("tablet", lease_of "lease-2" "tablet" "bob" 90)
        ∷ [];
    waiting = record { device_id = "phone"; client_id = "carol"; lifetime_ms = 30 } ∷ [];
    writers = [];
    pending_release = [];
    pending_detach = [];
  };
  device_peers = ("phone", "agent") ∷ [];
}

registry-IsBook : IsBook registry.leases
registry-IsBook = record { one = ((devices_differ, tt), (tt, tt)); keyed = (refl, (refl, tt)) }
  where
    devices_differ : ◌≢◌ {A = String} "phone" "tablet"
    devices_differ p = absurd (omega (arith, ap len p))

lease-Protects_example :
    ((q : Registry × Response) × (lease (λ _. some []) registry "alice" [] (renew "lease-1" 40) 20
        ≡ some q)
      × IsBook q.0.leases
      × ((device : String) (l : DeviceLease)
          → get device registry.leases.active ≡ some l
          → 20 < l.expires_at_ms
          → l.client_id ≢ "alice"
          → get device q.0.leases.active ≡ some l))
    ⊎ Unsigned (λ _. some []) (lease (λ _. some []) registry "alice" [] (renew "lease-1" 40) 20)
lease-Protects_example =
    lease-Protects (λ _. some []) registry "alice" [] (renew "lease-1" 40) 20 registry-IsBook tt

release_device-handed_example : get "phone" (release_device registry.leases "phone" 20).active ≡ (
    if contains_key "phone" registry.leases.writers
    then get "phone" registry.leases.active
    else elim (first_waiting registry.leases "phone") [
      | none ↦ none
      | some w ↦ some (handed registry.leases 20 w)
    ])
release_device-handed_example = release_device-handed registry.leases "phone" 20

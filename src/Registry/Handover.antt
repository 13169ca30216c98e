-- ===== src/Registry/Handover.antt =====
-- To whom a released device goes (`LeaseBook::release_device` of src/registry_runtime.rs).
use devicelane.Shared.{
  ℕ, ◌+◌, ◌≡◌, refl, inl, inr, Bool-cases, Option, Option-cases, none, some, List, [], ◌∷◌, String,
  string_eq, ◌==◌, if◌then◌else◌, find, saturating_add, arith,
}
use devicelane.Map.{get, remove, contains_key, get-insert, get-remove}
use devicelane.Registry.LeaseBook.{
  DeviceLease, WaitingLease, LeaseBook, lease_name, insert_lease, release_device_now,
  release_device,
}

-- The lease that the waiting client gets.
abbrev pub handed : LeaseBook → ℕ → WaitingLease → DeviceLease
handed b now w = record {
  id = lease_name (b.next_id + 1);
  device_id = w.device_id;
  client_id = w.client_id;
  expires_at_ms = saturating_add now w.lifetime_ms;
}

-- The first client that waits for the device.
abbrev pub first_waiting : LeaseBook → String → Option WaitingLease
first_waiting b device = find (λ w. w.device_id == device) b.waiting

find-device :
    (device : String) (ws : List WaitingLease) (w : WaitingLease)
    → find (λ x. x.device_id == device) ws ≡ some w
    → w.device_id ≡ device
find-device device [] w h = absurd (cc h)
find-device device (x ∷ ws) w h = ground (arith, h, find-device device ws w)

-- A device that is released while it has no writer goes to the first client that waits for it, for
-- the time that the client asked for, and is free if nobody waits; while it has a writer, its
-- lease stays.
pub release_device-handed :
    (b : LeaseBook) (device : String) (now : ℕ)
    → get device (release_device b device now).active ≡ (
        if contains_key device b.writers
        then get device b.active
        else elim (first_waiting b device) [ none ↦ none | some w ↦ some (handed b now w) ])
unfolding release_device release_device_now insert_lease lease_name
release_device-handed b device now = elim (Bool-cases (contains_key device b.writers)) [
  | inl written ↦ rw (written, release_device) refl
  | inr idle ↦ elim (Option-cases (first_waiting b device)) [
    | inl nobody ↦
        rw (idle, nobody, release_device, release_device_now)
          (ground (arith, get-remove device device b.active))
    | inr (w, first) ↦
        rw (idle, first, release_device, release_device_now)
          (ground (
            arith,
            find-device device b.waiting w first,
            get-insert w.device_id device (handed b now w) (remove device b.active),
          ))
  ]
]

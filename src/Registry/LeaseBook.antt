-- ===== src/Registry/LeaseBook.antt =====
-- `LeaseBook` (src/registry_runtime.rs), less its file. A call reads the clock once, as `now`.
use devicelane.Shared.{
  ℕ, ◌+◌, Bool, none, some, List, [], ◌∷◌, map, String, string_eq, ◌==◌, if◌then◌else◌, leb, retain,
  find, set_insert, set_remove, saturating_add, print, push_str,
}
use devicelane.Map.{Map, insert, remove, contains_key}

pub record DeviceLease : Type 0 where
  pub id : String
  pub device_id : String
  pub client_id : String
  pub expires_at_ms : ℕ

pub record WaitingLease : Type 0 where
  pub device_id : String
  pub client_id : String
  pub lifetime_ms : ℕ

pub record LeaseBook : Type 0 where
  pub next_id : ℕ
  pub active : Map String DeviceLease
  pub waiting : List WaitingLease
  -- The jobs of the devices' writers.
  pub writers : Map String String
  pub pending_release : List String
  pub pending_detach : List String

-- `format!("lease-{}", n)`.
unfoldable pub lease_name : ℕ → String
unfolding push_str
lease_name n = push_str "lease-" (print n)

unfoldable pub insert_lease : LeaseBook → String → String → ℕ → ℕ → LeaseBook × String
unfolding lease_name
insert_lease b device_id client_id lifetime_ms now = (
  record b {
    next_id = b.next_id + 1;
    active =
        insert device_id
          (record {
            id = lease_name (b.next_id + 1);
            device_id = device_id;
            client_id = client_id;
            expires_at_ms = saturating_add now lifetime_ms;
          })
          b.active;
  },
  lease_name (b.next_id + 1),
)

-- `Vec::remove` at the first place that passes.
unfoldable pub remove_first : (WaitingLease → Bool) → List WaitingLease → List WaitingLease
remove_first p [] = []
remove_first p (w ∷ ws) = if p w then ws else w ∷ remove_first p ws

unfoldable pub release_device_now : LeaseBook → String → ℕ → LeaseBook
unfolding insert_lease remove_first
release_device_now b device now =
    let freed = record b { active = remove device b.active } in
    elim (find (λ w. w.device_id == device) b.waiting) [
      | none ↦ freed
      | some w ↦
          (insert_lease
            (record freed { waiting = remove_first (λ x. x.device_id == device) b.waiting })
            w.device_id w.client_id w.lifetime_ms now).0
    ]

unfoldable pub release_device : LeaseBook → String → ℕ → LeaseBook
unfolding release_device_now
release_device b device now =
    if contains_key device b.writers
    then record b { pending_release = set_insert device b.pending_release }
    else release_device_now b device now

unfoldable pub force_release_device : LeaseBook → String → ℕ → LeaseBook
unfolding release_device_now
force_release_device b device now =
    release_device_now
      (record b {
        writers = remove device b.writers;
        pending_release = set_remove device b.pending_release;
        pending_detach = set_remove device b.pending_detach;
      })
      device now

unfoldable pub detach_inventory : LeaseBook → String → ℕ → LeaseBook
unfolding release_device
detach_inventory b device now =
    release_device
      (if contains_key device b.writers
        then record b { pending_detach = set_insert device b.pending_detach }
        else b)
      device now

-- The devices in turn.
unfoldable pub release_all : LeaseBook → List String → ℕ → LeaseBook
unfolding release_device
release_all b [] now = b
release_all b (device ∷ devices) now = release_all (release_device b device now) devices now

-- The keys of the entries whose lease passes. A Rust map gives them in some order; here it is the
-- map's own.
abbrev pub devices_where : (DeviceLease → Bool) → LeaseBook → List String
devices_where p b = map (λ e. e.0) (retain (λ e. p e.1) b.active)

unfoldable pub expire : LeaseBook → ℕ → LeaseBook
unfolding release_all
expire b now = release_all b (devices_where (λ lease. leb lease.expires_at_ms now) b) now

-- ===== src/Registry/Invariant.antt =====
-- The lease book's invariant, and what releasing a device leaves alone (src/registry_runtime.rs).
use devicelane.Shared.{
  ℕ, ◌+◌, ◌<◌, ◌≡◌, ◌≢◌, refl, sym, subst, inl, inr, Bool, Bool-cases, true, false, Option-cases,
  some, List, [], ◌∷◌, map, String, string_eq, string_discrete, ◌==◌, leb, ◌∙◌, saturating_add,
  retain, find, All, arith,
}
use devicelane.Map.{
  Map, get, insert, remove, contains_key, values, Fresh, IsMap, get-insert, get-remove,
  insert-IsMap, remove-IsMap, get-Fresh,
}
use devicelane.Registry.LeaseBook.{
  DeviceLease, WaitingLease, LeaseBook, lease_name, insert_lease, release_device_now,
  release_device, release_all, devices_where, expire,
}

-- Each lease stands once, under its device.
pub record IsBook (b : LeaseBook) : Type 0 where
  pub one : IsMap b.active
  pub keyed : All (λ e. e.1.device_id ≡ e.0) b.active

All-remove :
    (P : String × DeviceLease → Type 0) (k : String) (m : Map String DeviceLease)
    → All P m
    → All P (remove k m)
unfolding remove
All-remove P k [] h = tt
All-remove P k ((j, w) ∷ m) h = ground (arith, h, All-remove P k m)

All-insert_at :
    (k : String) (v : DeviceLease) (m : Map String DeviceLease)
    → v.device_id ≡ k
    → All (λ e. e.1.device_id ≡ e.0) m
    → All (λ e. e.1.device_id ≡ e.0) (insert k v m)
unfolding insert
All-insert_at k v [] at h = (at, tt)
All-insert_at k v ((j, w) ∷ m) at h = elim (Bool-cases (j == k)) [
  | inl same ↦ rw same (at, h.1)
  | inr other ↦ rw other (h.0, All-insert_at k v m at h.1)
]

pub insert_lease-IsBook :
    (b : LeaseBook) (device client : String) (lifetime now : ℕ)
    → IsBook b
    → IsBook (insert_lease b device client lifetime now).0
unfolding insert_lease
insert_lease-IsBook b device client lifetime now v = record {
  one = insert-IsMap device _ b.active v.one;
  keyed = All-insert_at device _ b.active refl v.keyed;
}

remove-IsBook :
    (b : LeaseBook) (device : String)
    → IsBook b
    → IsBook (record b { active = remove device b.active })
remove-IsBook b device v = record {
  one = remove-IsMap device b.active v.one;
  keyed = All-remove _ device b.active v.keyed;
}

-- The released device goes to its first waiting client, if any: no other device is touched.
release_now_cases :
    (P : LeaseBook → Type 0) (b : LeaseBook) (device : String) (now : ℕ)
    → P (record b { active = remove device b.active })
    → ((w : WaitingLease) (ws : List WaitingLease)
        → w.device_id ≡ device
        → P
            (insert_lease
              (record b { active = remove device b.active; waiting = ws })
              w.device_id
              w.client_id
              w.lifetime_ms
              now).0)
    → P (release_device_now b device now)
unfolding release_device_now
release_now_cases P b device now freed passed =
    elim (Option-cases (find (λ w. w.device_id == device) b.waiting)) [
      | inl nobody ↦ rw (nobody, release_device_now) freed
      | inr (w, first) ↦
          rw (first, release_device_now) (passed w _ (found device b.waiting w first))
    ]
  where
    found :
        (device : String) (ws : List WaitingLease) (w : WaitingLease)
        → find (λ x. x.device_id == device) ws ≡ some w
        → w.device_id ≡ device
    found device [] w h = absurd (cc h)
    found device (x ∷ ws) w h = ground (arith, h, found device ws w)

release_now-IsBook :
    (b : LeaseBook) (device : String) (now : ℕ)
    → IsBook b
    → IsBook (release_device_now b device now)
release_now-IsBook b device now v =
    release_now_cases IsBook b device now (remove-IsBook b device v) (λ w ws at.
      insert_lease-IsBook _ w.device_id w.client_id w.lifetime_ms now (record {
        one = remove-IsMap device b.active v.one;
        keyed = All-remove _ device b.active v.keyed;
      }))

release_now-other :
    (b : LeaseBook) (device other : String) (now : ℕ)
    → device ≢ other
    → get other (release_device_now b device now).active ≡ get other b.active
unfolding insert_lease
release_now-other b device other now apart =
    release_now_cases (λ a. get other a.active ≡ get other b.active) b device now
      (ground (arith, apart, get-remove device other b.active))
      (λ w ws at. ground (
        arith,
        apart,
        at,
        get-remove device other b.active,
        get-insert w.device_id other
            (record {
              id = lease_name (b.next_id + 1);
              device_id = w.device_id;
              client_id = w.client_id;
              expires_at_ms = saturating_add now w.lifetime_ms;
            })
            (remove device b.active),
      ))

pub release_device-IsBook :
    (b : LeaseBook) (device : String) (now : ℕ) → IsBook b → IsBook (release_device b device now)
unfolding release_device
release_device-IsBook b device now v = elim (Bool-cases (contains_key device b.writers)) [
  | inl written ↦ rw (written, release_device) (record { one = v.one; keyed = v.keyed })
  | inr idle ↦ rw (idle, release_device) (release_now-IsBook b device now v)
]

pub release_device-other :
    (b : LeaseBook) (device other : String) (now : ℕ)
    → device ≢ other
    → get other (release_device b device now).active ≡ get other b.active
unfolding release_device
release_device-other b device other now apart = elim (Bool-cases (contains_key device b.writers)) [
  | inl written ↦ rw (written, release_device) refl
  | inr idle ↦ rw (idle, release_device) (release_now-other b device other now apart)
]

pub release_all-IsBook :
    (b : LeaseBook) (devices : List String) (now : ℕ)
    → IsBook b
    → IsBook (release_all b devices now)
unfolding release_all
release_all-IsBook b [] now v = v
release_all-IsBook b (device ∷ devices) now v =
    release_all-IsBook (release_device b device now) devices now
      (release_device-IsBook b device now v)

pub release_all-other :
    (b : LeaseBook) (devices : List String) (other : String) (now : ℕ)
    → All (λ d. d ≢ other) devices
    → get other (release_all b devices now).active ≡ get other b.active
unfolding release_all
release_all-other b [] other now apart = refl
release_all-other b (device ∷ devices) other now apart =
    release_all-other (release_device b device now) devices other now apart.1
    ∙ release_device-other b device other now apart.0

keys-Fresh :
    (p : DeviceLease → Bool) (other : String) (m : Map String DeviceLease)
    → Fresh other m
    → All (λ d. d ≢ other) (map (λ e. e.0) (retain (λ e. p e.1) m))
keys-Fresh p other [] h = tt
keys-Fresh p other ((k, v) ∷ m) h = elim (Bool-cases (p v)) [
  | inl passes ↦ rw passes ((λ same. h.0 (sym same)), keys-Fresh p other m h.1)
  | inr fails ↦ rw fails (keys-Fresh p other m h.1)
]

-- A device whose lease does not pass is not among those whose lease does.
pub keys_where :
    (p : DeviceLease → Bool) (other : String) (l : DeviceLease) (m : Map String DeviceLease)
    → IsMap m
    → get other m ≡ some l
    → p l ≡ false
    → All (λ d. d ≢ other) (map (λ e. e.0) (retain (λ e. p e.1) m))
unfolding get
keys_where p other l [] one there fails = tt
keys_where p other l ((k, v) ∷ m) one there fails = elim (string_discrete k other) [
  | yes same ↦
      let is_l : v ≡ l = ground (arith, there, same) in
      let left_out : p v ≡ false = cc (is_l, fails) in
      rw left_out (keys-Fresh p other m (subst (λ j. Fresh j m) same one.0))
  | no apart ↦
      let rest : get other m ≡ some l = ground (arith, there, apart) in
      elim (Bool-cases (p v)) [
        | inl passes ↦ rw passes (apart, keys_where p other l m one.1 rest fails)
        | inr skipped ↦ rw skipped (keys_where p other l m one.1 rest fails)
      ]
]

Fresh-apart :
    (k j : String) (l : DeviceLease) (m : Map String DeviceLease)
    → Fresh k m
    → get j m ≡ some l
    → k ≢ j
Fresh-apart k j l m fresh there same =
    absurd (cc (get-Fresh j m (subst (λ i. Fresh i m) same fresh), there))

-- What is looked up among the values stands under its device.
pub find-values :
    (p : DeviceLease → Bool) (l : DeviceLease) (m : Map String DeviceLease)
    → IsMap m
    → All (λ e. e.1.device_id ≡ e.0) m
    → find p (values m) ≡ some l
    → (get l.device_id m ≡ some l) × (p l ≡ true)
unfolding get
find-values p l [] one keyed h = absurd (cc h)
find-values p l ((k, v) ∷ m) one keyed h = elim (Bool-cases (p v)) [
  | inl passes ↦
      let is_l : v ≡ l = ground (arith, h, passes) in
      (ground (arith, is_l, keyed.0), cc (is_l, passes))
  | inr fails ↦
      let (there, passes) = find-values p l m one.1 keyed.1 (ground (arith, h, fails)) in
      (ground (arith, there, Fresh-apart k l.device_id l m one.0 there), passes)
]

pub expire-IsBook : (b : LeaseBook) (now : ℕ) → IsBook b → IsBook (expire b now)
unfolding expire
expire-IsBook b now v =
    release_all-IsBook b (devices_where (λ lease. leb lease.expires_at_ms now) b) now v

-- A lease whose time has not come stays.
pub expire-live :
    (b : LeaseBook) (now : ℕ) (device : String) (l : DeviceLease)
    → IsBook b
    → get device b.active ≡ some l
    → now < l.expires_at_ms
    → get device (expire b now).active ≡ some l
unfolding expire
expire-live b now device l v there live =
    release_all-other b _ device now (
      keys_where (λ x. leb x.expires_at_ms now) device l b.active v.one there
        (ground (arith, live)))
    ∙ there

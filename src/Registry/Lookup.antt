-- ===== src/Registry/Lookup.antt =====
-- Lookups among the leases of a book, where an entry is written or changed in place
-- (src/registry_runtime.rs).
use devicelane.Shared.{
  ◌≡◌, ◌≢◌, ◌∙◌, inl, inr, Bool, Bool-cases, true, false, some, [], ◌∷◌, String, string_eq, find,
  is_some, All, arith,
}
use devicelane.Map.{Map, get, insert, values, IsMap}
use devicelane.Registry.LeaseBook.{DeviceLease}
use devicelane.Registry.Leasing.{update_first}

pub find-insert :
    (p : DeviceLease → Bool) (k : String) (v : DeviceLease) (m : Map String DeviceLease)
    → p v ≡ true
    → is_some (find p (values (insert k v m))) ≡ true
unfolding insert
find-insert p k v [] h = ground (arith, h)
find-insert p k v ((j, w) ∷ m) h = ground (arith, h, find-insert p k v m)

pub find-get :
    (p : DeviceLease → Bool) (k : String) (v : DeviceLease) (m : Map String DeviceLease)
    → get k m ≡ some v
    → p v ≡ true
    → is_some (find p (values m)) ≡ true
unfolding get
find-get p k v [] h passes = absurd (cc h)
find-get p k v ((j, w) ∷ m) h passes = ground (arith, h, passes, find-get p k v m)

pub get-update_first :
    (p : DeviceLease → Bool) (f : DeviceLease → DeviceLease) (k : String) (l : DeviceLease)
    (m : Map String DeviceLease)
    → get k m ≡ some l
    → p l ≡ false
    → get k (update_first p f m) ≡ some l
unfolding get update_first
get-update_first p f k l [] h fails = h
get-update_first p f k l ((j, w) ∷ m) h fails = ground (arith, h, fails, get-update_first p f k l m)

Fresh-update_first :
    (p : DeviceLease → Bool) (f : DeviceLease → DeviceLease) (k : String)
    (m : Map String DeviceLease)
    → All (λ (e : String × DeviceLease). k ≢ e.0) m
    → All (λ (e : String × DeviceLease). k ≢ e.0) (update_first p f m)
unfolding update_first
Fresh-update_first p f k [] h = tt
Fresh-update_first p f k ((j, w) ∷ m) h = elim (Bool-cases (p w)) [
  | inl passes ↦ rw passes h
  | inr fails ↦ rw fails (h.0, Fresh-update_first p f k m h.1)
]

pub update_first-IsMap :
    (p : DeviceLease → Bool) (f : DeviceLease → DeviceLease) (m : Map String DeviceLease)
    → IsMap m
    → IsMap (update_first p f m)
unfolding update_first
update_first-IsMap p f [] h = tt
update_first-IsMap p f ((j, w) ∷ m) h = elim (Bool-cases (p w)) [
  | inl passes ↦ rw passes h
  | inr fails ↦ rw fails (Fresh-update_first p f j m h.0, update_first-IsMap p f m h.1)
]

pub update_first-keyed :
    (p : DeviceLease → Bool) (f : DeviceLease → DeviceLease) (m : Map String DeviceLease)
    → ((l : DeviceLease) → (f l).device_id ≡ l.device_id)
    → All (λ (e : String × DeviceLease). e.1.device_id ≡ e.0) m
    → All (λ (e : String × DeviceLease). e.1.device_id ≡ e.0) (update_first p f m)
unfolding update_first
update_first-keyed p f [] same h = tt
update_first-keyed p f ((j, w) ∷ m) same h = elim (Bool-cases (p w)) [
  | inl passes ↦ rw passes (same w ∙ h.0, h.1)
  | inr fails ↦ rw fails (h.0, update_first-keyed p f m same h.1)
]

pub find-update_first :
    (p q : DeviceLease → Bool) (f : DeviceLease → DeviceLease) (l : DeviceLease)
    (m : Map String DeviceLease)
    → find p (values m) ≡ some l
    → q (f l) ≡ true
    → is_some (find q (values (update_first p f m))) ≡ true
unfolding update_first
find-update_first p q f l [] h passes = absurd (cc h)
find-update_first p q f l ((j, w) ∷ m) h passes =
    ground (arith, h, passes, find-update_first p q f l m)

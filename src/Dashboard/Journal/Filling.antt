-- ===== src/Dashboard/Journal/Filling.antt =====
-- The loop of a read (src/dashboard/event_log.rs) and what it puts on a page.
use devicelane.Shared.{
  ℕ, zero, suc, ◌+◌, ◌≤◌, ◌<◌, ◌≡◌, ap, sym, subst, Bool, Bool-cases, true, false, inl, inr, none,
  some, List, [], ◌∷◌, map, nat_eq, ◌==◌, ltb, if◌then◌else◌, length, retain, take, saturating_add,
  u64_max, arith,
}
use devicelane.Dashboard.Model.{ActivityEvent}
use devicelane.Dashboard.Journal.State.{StoredEvent}
use devicelane.Dashboard.Journal.Invariant.{total}
use devicelane.Dashboard.Journal.Read.{Page, push_front, fill}

-- The included ones among the first `m` entries.
abbrev pub shown : (ActivityEvent → Bool) → ℕ → List StoredEvent → List StoredEvent
shown include m es = retain (λ e. include e.event) (take m es)

abbrev pub events_of : List StoredEvent → List ActivityEvent
events_of = map (λ e. e.event)

-- The cursor of the last of the first `m` entries, or the given one.
abbrev pub cursor_after : ℕ → ℕ → List StoredEvent → ℕ
cursor_after next zero es = next
cursor_after next (suc m) [] = next
cursor_after next (suc m) (e ∷ es) = cursor_after e.cursor_sequence m es

-- What the loop adds to a page: it looks at the first entries and takes the included ones, within
-- both limits. A comma stands before each but the first of the page.
pub record Fills (include : ActivityEvent → Bool) (most room count bytes next : ℕ)
    (es : List StoredEvent) (events : List ActivityEvent) (stop : ℕ) : Type 0 where
  pub looked : ℕ
  pub few : looked ≤ length es
  pub same : events ≡ events_of (shown include looked es)
  pub at : stop ≡ cursor_after next looked es
  pub bound : count ≤ most → count + length (shown include looked es) ≤ most
  pub fits :
      bytes ≤ room + (if count == 0 then 1 else 0)
      → bytes + total (shown include looked es) + length (shown include looked es)
        ≤ room + (if count == 0 then 1 else 0)

pub push_front-some :
    (e : ActivityEvent) (r : Page) (events : List ActivityEvent) (stop : ℕ)
    → push_front e r ≡ some (events, stop)
    → (rest : List ActivityEvent) × (r ≡ some (rest, stop)) × (events ≡ e ∷ rest)
push_front-some e none events stop h = cc
push_front-some e (some (rest, at)) events stop h = (rest, ground arith, ground arith)

one_more :
    (count most n : ℕ)
    → (count == most) ≡ false
    → count ≤ most
    → (suc count ≤ most → suc count + n ≤ most)
    → count + suc n ≤ most
one_more count most n more h f = ground (arith, more)

one_fits :
    (count bytes size t n room : ℕ)
    → room < u64_max
    → ltb room (saturating_add (saturating_add bytes (if count == 0 then 0 else 1)) size) ≡ false
    → (bytes + ((if count == 0 then 0 else 1) + size) ≤ room + (if suc count == 0 then 1 else 0)
        → bytes + ((if count == 0 then 0 else 1) + size) + t + n
          ≤ room + (if suc count == 0 then 1 else 0))
    → bytes + (size + t) + suc n ≤ room + (if count == 0 then 1 else 0)
one_fits count bytes size t n room small left f = ground arith

module _ (include : ActivityEvent → Bool) (most room : ℕ) (small : room < u64_max) where
  Fills-stop :
      (count bytes next : ℕ) (es : List StoredEvent) (events : List ActivityEvent) (stop : ℕ)
      → events ≡ []
      → stop ≡ next
      → Fills include most room count bytes next es events stop
  Fills-stop count bytes next es events stop e k = record {
    looked = 0;
    few = omega arith;
    same = e;
    at = k;
    bound = λ h. omega arith;
    fits = λ h. omega (arith, h);
  }

  Fills-skip :
      (count bytes next : ℕ) (e : StoredEvent) (es : List StoredEvent) (events : List ActivityEvent)
      (stop : ℕ)
      → include e.event ≡ false
      → Fills include most room count bytes e.cursor_sequence es events stop
      → Fills include most room count bytes next (e ∷ es) events stop
  Fills-skip count bytes next e es events stop skip f = record {
    looked = suc f.looked;
    few = omega (arith, f.few);
    same = rw skip f.same;
    at = f.at;
    bound = rw skip f.bound;
    fits = rw skip f.fits;
  }

  Fills-push :
      (count bytes next : ℕ) (e : StoredEvent) (es : List StoredEvent) (events : List ActivityEvent)
      (stop : ℕ)
      → include e.event ≡ true
      → (count == most) ≡ false
      → ltb room
          (saturating_add (saturating_add bytes (if count == 0 then 0 else 1)) e.serialized_bytes)
        ≡ false
      → Fills include most room
          (suc count)
          (bytes + ((if count == 0 then 0 else 1) + e.serialized_bytes))
          e.cursor_sequence
          es
          events
          stop
      → Fills include most room count bytes next (e ∷ es) (e.event ∷ events) stop
  Fills-push count bytes next e es events stop keep more room_left f = record {
    looked = suc f.looked;
    few = omega (arith, f.few);
    same = rw keep (ap (◌∷◌ e.event) f.same);
    at = f.at;
    bound = rw keep (λ h. one_more count most _ more h f.bound);
    fits = rw keep (λ h. one_fits count bytes _ _ _ room small room_left f.fits);
  }

  pub fill-Fills :
      (count bytes next : ℕ) (es : List StoredEvent) (events : List ActivityEvent) (stop : ℕ)
      → fill include most room count bytes next es ≡ some (events, stop)
      → Fills include most room count bytes next es events stop
  unfolding fill
  fill-Fills count bytes next [] events stop h =
      Fills-stop count bytes next [] events stop (ground arith) (ground arith)
  fill-Fills count bytes next (e ∷ es) events stop h = elim (Bool-cases (count == most)) [
    | inl full ↦
        Fills-stop count bytes next (e ∷ es) events stop (ground (arith, full))
          (ground (arith, full))
    | inr more ↦ elim (Bool-cases (include e.event)) [
      | inr skip ↦
          Fills-skip count bytes next e es events stop skip
            (fill-Fills count bytes e.cursor_sequence es events stop (ground (arith, more, skip)))
      | inl keep ↦
          elim (Bool-cases (
            ltb room (
              saturating_add (saturating_add bytes (if count == 0 then 0 else 1))
                e.serialized_bytes))) [
                  | inl over ↦
                      Fills-stop count bytes next (e ∷ es) events stop
                        (ground (arith, more, keep, over)) (ground (arith, more, keep, over))
                  | inr room_left ↦
                      let (rest, computed, same) =
                        push_front-some e.event _ events stop
                          (rw (more, keep, room_left, fill) at h) in
                      subst (λ l. Fills include most room count bytes next (e ∷ es) l stop)
                        (sym same)
                        (Fills-push count bytes next e es rest stop keep more room_left (
                          fill-Fills (suc count)
                            (bytes + ((if count == 0 then 0 else 1) + e.serialized_bytes))
                            e.cursor_sequence es rest stop computed))
                ]
    ]
  ]

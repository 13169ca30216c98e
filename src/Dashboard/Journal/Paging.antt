-- ===== src/Dashboard/Journal/Paging.antt =====
-- What a read returns (src/dashboard/event_log.rs).
use devicelane.Shared.{
  ℕ, zero, suc, ◌+◌, ◌-◌, ◌≤◌, ◌<◌, min, ◌≡◌, refl, sym, subst, ◌∙◌, Bool, Bool-cases, inl, inr,
  none, some, List, [], ◌∷◌, nat_eq, ltb, length, arith,
}
use devicelane.Dashboard.Model.{ActivityEvent, EventCursor}
use devicelane.Dashboard.Journal.State.{
  Inner, StoredEvent, Codec, max_page_events, max_page_bytes, oldest_event, oldest_of,
}
use devicelane.Dashboard.Journal.Invariant.{From, IsJournal, total}
use devicelane.Dashboard.Journal.Read.{
  ReadLimit, Page, page, fill, read_result, read_filtered, unread,
}
use devicelane.Dashboard.Journal.Filling.{shown, events_of, cursor_after, fill-Fills}

-- A page of a read, seen from the journal.
pub record IsPage (s : Inner) (cursor : EventCursor) (limit : ReadLimit)
    (include : ActivityEvent → Bool) (events : List ActivityEvent) (next : EventCursor)
    : Type 0 where
  pub looked : ℕ
  pub few : looked ≤ length (unread cursor.sequence s.events)
  pub same : events ≡ events_of (shown include looked (unread cursor.sequence s.events))
  pub epoch : next.epoch ≡ cursor.epoch
  pub at : next.sequence ≡ cursor.sequence + looked
  pub at_most :
      length (shown include looked (unread cursor.sequence s.events))
      ≤ min limit.max_events max_page_events
  pub fits :
      2
        + total (shown include looked (unread cursor.sequence s.events))
        + length (shown include looked (unread cursor.sequence s.events))
      ≤ min limit.max_bytes max_page_bytes + 1

pub unread_all :
    (n sequence : ℕ) (es : List StoredEvent) → From n es → sequence < n → unread sequence es ≡ es
unread_all n sequence [] f h = refl
unread_all n sequence (e ∷ es) f h = ground (arith, unread_all (suc n) sequence es f.1, f.0)

From-unread :
    (n sequence : ℕ) (es : List StoredEvent)
    → From n es
    → n ≤ suc sequence
    → From (suc sequence) (unread sequence es)
From-unread n sequence [] f h = tt
From-unread n sequence (e ∷ es) f h = elim (Bool-cases (ltb sequence e.cursor_sequence)) [
  | inl new ↦
      rw (new, unread_all (suc n) sequence es f.1 (ground arith))
        (ground (arith, f.0, new), subst (λ k. From k es) (ground (arith, f.0, new)) f.1)
  | inr old ↦ rw old (From-unread (suc n) sequence es f.1 (ground (arith, f.0, old)))
]

pub cursor_after_lem :
    (next m : ℕ) (es : List StoredEvent)
    → From (suc next) es
    → m ≤ length es
    → cursor_after next m es ≡ next + m
cursor_after_lem next zero es f h = omega arith
cursor_after_lem next (suc m) [] f h = absurd (omega arith)
cursor_after_lem next (suc m) (e ∷ es) f h =
    let step : From (suc e.cursor_sequence) es = subst (λ k. From (suc k) es) (sym f.0) f.1 in
    omega (arith, cursor_after_lem e.cursor_sequence m es step, f.0)

-- What a read that returns a page has found out.
pub record Served (s : Inner) (cursor : EventCursor) (limit : ReadLimit)
    (include : ActivityEvent → Bool) (events : List ActivityEvent) (next : EventCursor)
    : Type 0 where
  pub epoch : cursor.epoch ≡ s.epoch
  pub next_epoch : next.epoch ≡ s.epoch
  pub filled :
      fill include
        (min limit.max_events max_page_events)
        (min limit.max_bytes max_page_bytes)
        0
        2
        cursor.sequence
        (unread cursor.sequence s.events)
      ≡ some (events, next.sequence)
  pub window : (oldest : ℕ) → oldest_event s ≡ some oldest → oldest - 1 ≤ cursor.sequence
  pub some_bytes : 0 < limit.max_bytes

read_result-page :
    (epoch : ℕ) (r : Page) (events : List ActivityEvent) (next : EventCursor)
    → read_result epoch r ≡ page events next
    → (r ≡ some (events, next.sequence)) × (next.epoch ≡ epoch)
read_result-page epoch none events next h = cc
read_result-page epoch (some (es, at)) events next h = (ground arith, ground arith)

pub read-Served :
    (s : Inner) (cursor : EventCursor) (limit : ReadLimit) (include : ActivityEvent → Bool)
    (events : List ActivityEvent) (next : EventCursor)
    → read_filtered s cursor limit include ≡ page events next
    → Served s cursor limit include events next
unfolding read_filtered
read-Served s cursor limit include events next h =
    let r : Page =
      fill include (min limit.max_events max_page_events) (min limit.max_bytes max_page_bytes) 0 2
        cursor.sequence (unread cursor.sequence s.events) in
    record {
      epoch = ground arith;
      next_epoch = ground (arith, read_result-page s.epoch r events next);
      filled = ground (arith, read_result-page s.epoch r events next);
      window = λ oldest o. ground (arith, o);
      some_bytes = ground arith;
    }

pub window-From :
    (stop sequence : ℕ) (es : List StoredEvent)
    → From (stop - length es) es
    → ((oldest : ℕ) → oldest_of es ≡ some oldest → oldest - 1 ≤ sequence)
    → From (suc sequence) (unread sequence es)
window-From stop sequence [] f w = tt
window-From stop sequence (e ∷ es) f w =
    From-unread (stop - length (e ∷ es)) sequence (e ∷ es) f
      (omega (arith, f.0, w e.cursor_sequence refl))

module _ (c : Codec) (s : Inner) (cursor : EventCursor) (limit : ReadLimit)
    (include : ActivityEvent → Bool) (v : IsJournal c s) where
  -- A page that a read of a journal with the invariant returns shows the included ones among the
  -- next unread events and leaves none of them out up to the cursor it returns, which is in the
  -- same epoch, and it keeps to the limits on events and bytes, those of the request and the fixed
  -- ones.
  pub read_filtered-IsPage :
      (events : List ActivityEvent) (next : EventCursor)
      → read_filtered s cursor limit include ≡ page events next
      → IsPage s cursor limit include events next
  read_filtered-IsPage events next h =
      let r = read-Served s cursor limit include events next h in
      let f =
        fill-Fills include (min limit.max_events max_page_events)
          (min limit.max_bytes max_page_bytes) (omega arith) 0 2 cursor.sequence
          (unread cursor.sequence s.events) events next.sequence r.filled in
      record {
        looked = f.looked;
        few = f.few;
        same = f.same;
        epoch = r.next_epoch ∙ sym r.epoch;
        at =
            f.at
            ∙ cursor_after_lem cursor.sequence f.looked (unread cursor.sequence s.events)
                (window-From s.next_cursor_sequence cursor.sequence s.events v.log.numbered
                  r.window)
                f.few;
        at_most = omega (arith, f.bound);
        fits = ground (arith, f.fits, r.some_bytes);
      }

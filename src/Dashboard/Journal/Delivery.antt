-- ===== src/Dashboard/Journal/Delivery.antt =====
-- A client that reads page after page (src/dashboard/event_log.rs).
use mathlib.Core.List.{map-append}
use devicelane.Shared.{
  ℕ, ℕ_discrete, zero, suc, ◌+◌, ◌-◌, ◌≤◌, ◌<◌, min, ◌≡◌, refl, ap, sym, subst, ◌∙◌, Bool,
  Bool-cases, true, inl, inr, some, List, [], ◌∷◌, ◌++◌, nat_eq, ◌==◌, ltb, if◌then◌else◌, length,
  retain, drop, retain-take-drop, length-drop, All, All-retain, Option-cases, arith, is_some,
}
use devicelane.Dashboard.Model.{ActivityEvent, EventCursor}
use devicelane.Dashboard.Journal.State.{
  Inner, StoredEvent, Codec, max_page_events, max_page_bytes, oldest_of, oldest_event,
}
use devicelane.Dashboard.Journal.Invariant.{From, IsJournal}
use devicelane.Dashboard.Journal.Read.{
  ReadLimit, Page, page, limit_exceeded, cursor_ahead, resync_required, fill, read_result,
  read_filtered, unread,
}
use devicelane.Dashboard.Journal.Filling.{shown, events_of, push_front-some, fill-Fills}
use devicelane.Dashboard.Journal.Paging.{
  IsPage, read_filtered-IsPage, cursor_after_lem, window-From, unread_all, read-Served,
}

-- The entry alone fits on a page.
abbrev pub FitsIn : ℕ → StoredEvent → Type 0
FitsIn room e = 2 + e.serialized_bytes ≤ room

module _ (include : ActivityEvent → Bool) (most room : ℕ) (some_room : 0 < most) where
  fill-IsSome :
      (count bytes next : ℕ) (es : List StoredEvent)
      → (count ≡ 0 → (bytes ≡ 2) × All (FitsIn room) es)
      → is_some (fill include most room count bytes next es) ≡ true
  unfolding fill
  fill-IsSome count bytes next [] h = refl
  fill-IsSome count bytes next (e ∷ es) h = ground (
    arith,
    h,
    fill-IsSome count bytes e.cursor_sequence es (λ z. ((h z).0, (h z).1.1)),
    fill-IsSome (suc count) (bytes + ((if count == 0 then 0 else 1) + e.serialized_bytes))
        e.cursor_sequence es (λ z. absurd (omega arith)),
  )

  -- A page that is not full looks at its first entry.
  fill_looks :
      (next : ℕ) (e : StoredEvent) (es : List StoredEvent) (events : List ActivityEvent) (stop : ℕ)
      → fill include most room 0 2 next (e ∷ es) ≡ some (events, stop)
      → (count : ℕ) × (bytes : ℕ) × (rest : List ActivityEvent) × (fill include most room count
            bytes e.cursor_sequence es
          ≡ some (rest, stop))
  unfolding fill ℕ_discrete
  fill_looks next e es events stop h = elim (Bool-cases (include e.event)) [
    | inr skip ↦ (0, 2, events, ground (arith, some_room, skip))
    | inl keep ↦
        let pushed =
          push_front-some e.event
            (fill include most room 1 (2 + (0 + e.serialized_bytes)) e.cursor_sequence es) events
            stop (ground (arith, some_room, keep)) in
        (1, 2 + (0 + e.serialized_bytes), pushed.0, pushed.1)
  ]

unread-unread : (a b : ℕ) (es : List StoredEvent) → a ≤ b → unread b (unread a es) ≡ unread b es
unread-unread a b [] h = refl
unread-unread a b (e ∷ es) h = ground (arith, unread-unread a b es h)

unread-drop :
    (a m : ℕ) (es : List StoredEvent)
    → From (suc a) es
    → m ≤ length es
    → unread (a + m) es ≡ drop m es
unread-drop a zero es f h = unread_all (suc a) (a + 0) es f (omega arith)
unread-drop a (suc m) [] f h = refl
unread-drop a (suc m) (e ∷ es) f h =
    let ih = unread-drop (suc a) m es f.1 (omega arith) in
    let e' : suc a + m ≡ a + suc m = omega arith in
    ground (arith, f.0, ap (λ k. unread k es) e', ih)

length-unread :
    (n sequence : ℕ) (es : List StoredEvent)
    → From n es
    → n ≤ suc sequence
    → sequence < n + length es
    → sequence + length (unread sequence es) < n + length es
length-unread n sequence [] f h k = omega arith
length-unread n sequence (e ∷ es) f h k = elim (Bool-cases (ltb sequence e.cursor_sequence)) [
  | inl new ↦
      rw (new, unread_all (suc n) sequence es f.1 (ground (arith, f.0, new)))
        (ground (arith, f.0, new))
  | inr old ↦ rw old (
      omega (arith, length-unread (suc n) sequence es f.1 (ground (arith, f.0, old)) (omega arith)))
]

-- No more entries are unread than there are sequences up to the next one.
length-unread-lt :
    (stop sequence : ℕ) (es : List StoredEvent)
    → From (stop - length es) es
    → length es < stop
    → ((oldest : ℕ) → oldest_of es ≡ some oldest → oldest - 1 ≤ sequence)
    → sequence < stop
    → sequence + length (unread sequence es) < stop
length-unread-lt stop sequence [] f l w k = omega arith
length-unread-lt stop sequence (e ∷ es) f l w k = omega (
  arith,
  length-unread (stop - length (e ∷ es)) sequence (e ∷ es) f
      (omega (arith, f.0, w e.cursor_sequence refl)) (omega arith),
)

-- A round that looks at an entry where there is one leaves fewer.
fewer :
    (pages m : ℕ) (es : List StoredEvent)
    → ((e : StoredEvent) (rest : List StoredEvent) → es ≡ e ∷ rest → 0 < m)
    → length es ≤ suc pages
    → length (drop m es) ≤ pages
fewer pages m [] h k = omega (arith, length-drop {A = StoredEvent} m [])
fewer pages m (e ∷ es) h k = omega (arith, length-drop m (e ∷ es), h e es refl)

no_more :
    (include : ActivityEvent → Bool) (es : List StoredEvent)
    → length es ≤ 0
    → [] ≡ events_of (retain (λ e. include e.event) es)
no_more include [] h = refl
no_more include (e ∷ es) h = absurd (omega arith)

-- The cursor stands in the retained part of the current epoch.
pub record InWindow (s : Inner) (cursor : EventCursor) : Type 0 where
  pub epoch : cursor.epoch ≡ s.epoch
  pub ahead : cursor.sequence < s.next_cursor_sequence
  pub behind : (oldest : ℕ) → oldest_event s ≡ some oldest → oldest - 1 ≤ cursor.sequence

-- A client that reads on from the cursor that each page returns, for so many pages.
pub drain : ℕ → Inner → EventCursor → ReadLimit → (ActivityEvent → Bool) → List ActivityEvent
drain zero s cursor limit include = []
drain (suc pages) s cursor limit include = elim (read_filtered s cursor limit include) [
  | page events next ↦ events ++ drain pages s next limit include
  | cursor_ahead _ ↦ []
  | resync_required _ _ ↦ []
  | limit_exceeded ↦ []
]

module _ (c : Codec) (s : Inner) (limit : ReadLimit) (include : ActivityEvent → Bool)
    (v : IsJournal c s) (some_events : 0 < limit.max_events) (some_bytes : 0 < limit.max_bytes)
    (fits : All (FitsIn (min limit.max_bytes max_page_bytes)) s.events) where
  -- The page that the loop makes.
  filled : EventCursor → Page
  filled cursor =
      fill include (min limit.max_events max_page_events) (min limit.max_bytes max_page_bytes) 0 2
        cursor.sequence (unread cursor.sequence s.events)

  read_result_lem :
      (cursor : EventCursor)
      → InWindow s cursor
      → read_filtered s cursor limit include ≡ read_result s.epoch (filled cursor)
  unfolding read_filtered filled
  read_result_lem cursor w = elim (Option-cases (oldest_event s)) [
    | inl empty ↦ ground (arith, empty)
    | inr (oldest, at) ↦ ground (arith, at, w.behind oldest)
  ]

  read_total :
      (cursor : EventCursor)
      → InWindow s cursor
      → (events : List ActivityEvent) × (next : EventCursor) × (read_filtered s cursor limit include
          ≡ page events next)
  unfolding filled
  read_total cursor w = elim (Option-cases (filled cursor)) [
    | inl failed ↦ absurd (
        cc (
          failed,
          fill-IsSome include (min limit.max_events max_page_events)
              (min limit.max_bytes max_page_bytes) (omega arith) 0 2 cursor.sequence
              (unread cursor.sequence s.events) (λ _. (refl, All-retain _ _ s.events fits)),
        ))
    | inr ((events, stop), at) ↦ (
      events,
      record { epoch = s.epoch; sequence = stop },
      read_result_lem cursor w ∙ ap (read_result s.epoch) at,
    )
  ]

  window_From :
      (cursor : EventCursor)
      → InWindow s cursor
      → From (suc cursor.sequence) (unread cursor.sequence s.events)
  window_From cursor w =
      window-From s.next_cursor_sequence cursor.sequence s.events v.log.numbered w.behind

  read_advances :
      (cursor : EventCursor) (events : List ActivityEvent) (next : EventCursor) (e : StoredEvent)
      (es : List StoredEvent)
      → InWindow s cursor
      → read_filtered s cursor limit include ≡ page events next
      → unread cursor.sequence s.events ≡ e ∷ es
      → cursor.sequence < next.sequence
  read_advances cursor events next e es w h left =
      let r = read-Served s cursor limit include events next h in
      let numbered = subst (From (suc cursor.sequence)) left (window_From cursor w) in
      let (count, bytes, rest, at) =
        fill_looks include (min limit.max_events max_page_events)
          (min limit.max_bytes max_page_bytes) (omega arith) cursor.sequence e es events
          next.sequence (rw left at r.filled) in
      let f =
        fill-Fills include (min limit.max_events max_page_events)
          (min limit.max_bytes max_page_bytes) (omega arith) count bytes e.cursor_sequence es rest
          next.sequence at in
      let step = subst (λ k. From (suc k) es) (sym numbered.0) numbered.1 in
      omega (arith, f.at, cursor_after_lem e.cursor_sequence f.looked es step f.few, numbered.0)

  next-InWindow :
      (cursor : EventCursor) (events : List ActivityEvent) (next : EventCursor)
      → InWindow s cursor
      → IsPage s cursor limit include events next
      → InWindow s next
  next-InWindow cursor events next w p = record {
    epoch = p.epoch ∙ w.epoch;
    ahead = omega (
      arith,
      length-unread-lt s.next_cursor_sequence cursor.sequence s.events v.log.numbered v.log.below
          w.behind w.ahead,
      p.at,
      p.few,
    );
    behind = λ oldest o. omega (arith, w.behind oldest o, p.at);
  }

  events-append :
      (m : ℕ) (es : List StoredEvent)
      → events_of (shown include m es) ++ events_of (retain (λ e. include e.event) (drop m es))
        ≡ events_of (retain (λ e. include e.event) es)
  events-append m es =
      sym (map-append _ _ _) ∙ ap events_of (retain-take-drop (λ e. include e.event) m es)

  -- A client that starts in the retained window and reads on from the cursor of each page, with as
  -- many pages as there are unread events, and with every event small enough for a page, gets
  -- exactly the included unread events, in order and each once.
  pub drain-delivers :
      (pages : ℕ) (cursor : EventCursor)
      → InWindow s cursor
      → length (unread cursor.sequence s.events) ≤ pages
      → drain pages s cursor limit include
        ≡ events_of (retain (λ e. include e.event) (unread cursor.sequence s.events))
  unfolding drain
  drain-delivers zero cursor w few = no_more include (unread cursor.sequence s.events) few
  drain-delivers (suc pages) cursor w few =
      let (events, next, at) = read_total cursor w in
      let p = read_filtered-IsPage c s cursor limit include v events next at in
      let u = unread cursor.sequence s.events in
      let left : unread next.sequence s.events ≡ drop p.looked u =
        ap (λ k. unread k s.events) p.at
        ∙ sym (unread-unread cursor.sequence (cursor.sequence + p.looked) s.events (omega arith))
        ∙ unread-drop cursor.sequence p.looked u (window_From cursor w) p.few in
      let rest = drain-delivers pages next (next-InWindow cursor events next w p) (
        rw left (
          fewer pages p.looked u
            (λ e es some_left.
              omega (arith, read_advances cursor events next e es w at some_left, p.at))
            few)) in
      rw (at, drain) (rw (rest, p.same, left) (events-append p.looked u))

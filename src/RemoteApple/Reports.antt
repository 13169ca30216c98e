-- ===== src/RemoteApple/Reports.antt =====
-- The events that the threads of jobs append (src/lib.rs, module `remote_apple_protocol`).
use mathlib.Core.List.{append-nil}
use devicelane.Shared.{
  ◌+◌, ◌≡◌, refl, sym, ◌∙◌, inl, inr, ◌⊎◌, subst, Bool, Bool-cases, true, some, List, [], ◌∷◌, ◌++◌,
  String, string_eq, ◌==◌, contains, any, length, arith,
}
use devicelane.Map.{get, insert, get-insert, get-insert_cases}
use devicelane.RemoteApple.Protocol.{ProgressEvent}
use devicelane.RemoteApple.Agent.{AgentState, append_event}
use devicelane.RemoteApple.Invariant.{IsAgent, Extends, Extends-refl, append_event-IsAgent}
use devicelane.RemoteApple.Threads.{System, HasLog, IsSystem, Grows, Grows-refl}

module _ (w : System) (job kind payload : String) (terminal : Bool) (es : List ProgressEvent)
    (v : IsSystem w) (there : get job w.state.events ≡ some es) where
  abbrev added : ProgressEvent
  added = record { sequence = length es + 1; kind = kind; payload = payload; terminal = terminal }

  abbrev logged : AgentState
  logged = record w.state { events = insert job (es ++ added ∷ []) w.state.events }

  -- A log that has ended stays, another one gets the event.
  appended :
      (append_event w.state job kind payload terminal ≡ some w.state)
      ⊎ (append_event w.state job kind payload terminal ≡ some logged)
  unfolding append_event
  appended = elim (Bool-cases (any (λ e. e.terminal) es)) [
    | inl ended ↦ inl (rw (there, ended, append_event) refl)
    | inr open_still ↦ inr (rw (there, open_still, append_event) refl)
  ]

  logged-HasLog : (j : String) → HasLog w.state j → HasLog logged j
  logged-HasLog j (fs, h) = elim (Bool-cases (job == j)) [
    | inl same ↦
        (es ++ added ∷ [], ground (arith, same, get-insert job j (es ++ added ∷ []) w.state.events))
    | inr other ↦ (fs, ground (arith, other, h, get-insert job j (es ++ added ∷ []) w.state.events))
  ]

  logged-Grows : Grows w.state logged
  logged-Grows j fs h = elim (Bool-cases (job == j)) [
    | inl same ↦ (
      added ∷ [],
      ground (arith, same, h, there, get-insert job j (es ++ added ∷ []) w.state.events),
    )
    | inr other ↦ (
      [],
      ground (arith, other, h, append-nil fs, get-insert job j (es ++ added ∷ []) w.state.events),
    )
  ]

  logged-IsSystem : IsAgent logged → IsSystem (record w { state = logged })
  logged-IsSystem kept = record {
    agent = kept;
    owned = λ j fs h. elim (get-insert_cases job j (es ++ added ∷ []) fs w.state.events h) [
      | inl (same, _) ↦ let (n, below, at) = v.owned job es there in (n, below, sym same ∙ at)
      | inr (_, old) ↦ v.owned j fs old
    ];
    running = v.running;
    opened = λ j h. logged-HasLog j (v.opened j h);
  }

  append_event-IsSystem :
      (t : AgentState) × (append_event w.state job kind payload terminal ≡ some t)
      × IsSystem (record w { state = t })
      × Extends w.state t
      × Grows w.state t
  append_event-IsSystem =
      let (t, done, kept, more) =
        append_event-IsAgent w.state job kind payload terminal es v.agent there in
      elim appended [
        | inl stays ↦ (w.state, stays, v, Extends-refl w.state, Grows-refl w.state)
        | inr gets ↦
            let is : t ≡ logged = ground (arith, done, gets) in
            (
              logged,
              gets,
              logged-IsSystem (subst IsAgent is kept),
              subst (Extends w.state) is more,
              logged-Grows,
            )
      ]

-- An event of a job that has a thread is appended without a panic.
pub report-IsSystem :
    (w : System) (job kind payload : String) (terminal : Bool)
    → IsSystem w
    → contains w.threads job ≡ true
    → (t : AgentState) × (append_event w.state job kind payload terminal ≡ some t)
      × IsSystem (record w { state = t })
      × Extends w.state t
      × Grows w.state t
report-IsSystem w job kind payload terminal v spawned_before =
    let (es, there) = v.opened job spawned_before in
    append_event-IsSystem w job kind payload terminal es v there

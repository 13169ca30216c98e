-- ===== src/RemoteApple/Thread.antt =====
-- What the thread of a job leaves in its log (src/lib.rs, module `remote_apple_protocol`).
use mathlib.Core.List.{map-append}
use devicelane.Shared.{
  ◌+◌, ◌≡◌, refl, ap, ◌∙◌, Bool, true, false, some, List, [], ◌∷◌, ◌++◌, map, append_assoc, String,
  string_eq, any, length, arith,
}
use devicelane.Map.{get, insert, get-insert}
use devicelane.RemoteApple.Protocol.{ProgressEvent}
use devicelane.RemoteApple.Agent.{
  AgentState, append_event, Outcome, succeeded, failed, panicked, finish, run_thread,
}

-- What an event says.
abbrev pub report : ProgressEvent → String × String × Bool
report e = (e.kind, e.payload, e.terminal)

abbrev pub ending : Outcome → String × String × Bool
ending (succeeded payload) = ("succeeded", payload, true)
ending (failed payload) = ("failed", payload, true)
ending panicked = ("failed", "operation panicked", true)

-- What a thread says: its progress, and its outcome once at the end.
abbrev pub script : List String → Outcome → List (String × String × Bool)
script payloads outcome = map (λ p. ("progress", p, false)) payloads ++ ending outcome ∷ []

any-last :
    (es : List ProgressEvent) (e : ProgressEvent)
    → any (λ x. x.terminal) es ≡ false
    → any (λ x. x.terminal) (es ++ e ∷ []) ≡ e.terminal
any-last [] e h = ground arith
any-last (x ∷ es) e h = ground (arith, h, any-last es e)

append_event-report :
    (s : AgentState) (job kind payload : String) (terminal : Bool) (es : List ProgressEvent)
    → get job s.events ≡ some es
    → any (λ e. e.terminal) es ≡ false
    → (t : AgentState) × (fs : List ProgressEvent) × (append_event s job kind payload terminal
        ≡ some t)
      × (get job t.events ≡ some fs)
      × (map report fs ≡ map report es ++ (kind, payload, terminal) ∷ [])
      × (any (λ e. e.terminal) fs ≡ terminal)
unfolding append_event
append_event-report s job kind payload terminal es there running = (
  record s { events = insert job (es ++ added ∷ []) s.events },
  es ++ added ∷ [],
  rw (there, running, append_event) refl,
  ground (arith, get-insert job job (es ++ added ∷ []) s.events),
  map-append report es (added ∷ []),
  any-last es added running,
)
  where
    added : ProgressEvent
    added = record { sequence = length es + 1; kind = kind; payload = payload; terminal = terminal }

finish-script :
    (s : AgentState) (job : String) (outcome : Outcome) (es : List ProgressEvent)
    → get job s.events ≡ some es
    → any (λ e. e.terminal) es ≡ false
    → (t : AgentState) × (fs : List ProgressEvent) × (finish s job outcome ≡ some t)
      × (get job t.events ≡ some fs)
      × (map report fs ≡ map report es ++ ending outcome ∷ [])
unfolding finish
finish-script s job (succeeded payload) es there running =
    let (t, fs, done, at, said, _) =
      append_event-report s job "succeeded" payload true es there running in
    (t, fs, done, at, said)
finish-script s job (failed payload) es there running =
    let (t, fs, done, at, said, _) =
      append_event-report s job "failed" payload true es there running in
    (t, fs, done, at, said)
finish-script s job panicked es there running =
    let (t, fs, done, at, said, _) =
      append_event-report s job "failed" "operation panicked" true es there running in
    (t, fs, done, at, said)

-- The thread of a job whose log has no terminal event never panics, and leaves in the log what was
-- there, then a progress event for each payload in order, then exactly one terminal event with the
-- outcome of the operation, a panic included.
pub run_thread-script :
    (s : AgentState) (job : String) (payloads : List String) (outcome : Outcome)
    (es : List ProgressEvent)
    → get job s.events ≡ some es
    → any (λ e. e.terminal) es ≡ false
    → (t : AgentState) × (fs : List ProgressEvent) × (run_thread s job payloads outcome ≡ some t)
      × (get job t.events ≡ some fs)
      × (map report fs ≡ map report es ++ script payloads outcome)
unfolding run_thread
run_thread-script s job [] outcome es there running = finish-script s job outcome es there running
run_thread-script s job (payload ∷ payloads) outcome es there running =
    let (t, fs, done, at, said, open_still) =
      append_event-report s job "progress" payload false es there running in
    let (u, gs, ran, found, told) = run_thread-script t job payloads outcome fs at open_still in
    (
      u,
      gs,
      rw (done, run_thread) ran,
      found,
      told
          ∙ ap (λ l. l ++ script payloads outcome) said
          ∙ append_assoc (map report es) (("progress", payload, false) ∷ [])
              (script payloads outcome),
    )

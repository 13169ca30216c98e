-- ===== src/RemoteApple/Jobs.antt =====
-- Sequences of submissions and thread events (src/lib.rs, module `remote_apple_protocol`).
use devicelane.Shared.{
  ℕ, ◌≡◌, refl, ap, subst, retain, inl, inr, Bool, Bool-cases, Option, none, some, List, [], ◌∷◌,
  String, string_eq, option_string_eq, if◌then◌else◌, ltb, drop, length, contains, Result, ok, err,
  arith,
}
use devicelane.Map.{get}
use devicelane.RemoteApple.Protocol.{AppleRequest, ProtocolError, error, ProgressEvent}
use devicelane.RemoteApple.Envelope.{Configuration, FileReads, is_denied, path_denied}
use devicelane.RemoteApple.Agent.{
  AgentState, Accepted, existing, job_of, submit, append_event, events_after,
}
use devicelane.RemoteApple.EventLog.{retain-drop}
use devicelane.RemoteApple.Invariant.{
  IsAgent, Extends, Extends-refl, Extends-trans, Registered, Submits, submit-Submits,
}
use devicelane.RemoteApple.Reports.{report-IsSystem}
use devicelane.RemoteApple.Joining.{Registered-Extends, submit-valid, validate-again, submit-again}
use devicelane.RemoteApple.Threads.{
  System, after_submit, IsSystem, Grows, Grows-refl, Grows-trans, submit-IsSystem,
}

-- A submission, with what the file system gives to its validation, or an event that the thread of a
-- job appends.
pub data Call : Type 0 where
  submits : FileReads → AppleRequest → Call
  reports : String → String → String → Bool → Call

-- There is no event of a job for which no thread was spawned.
abbrev pub step : Configuration → System → Call → Option System
step agent w (submits files r) = some (after_submit w (submit agent files w.state r))
step agent w (reports job kind payload terminal) =
    if contains w.threads job
    then elim (append_event w.state job kind payload terminal) [
      | none ↦ none
      | some t ↦ some (record w { state = t })
    ]
    else some w

-- `none` if a call panics.
abbrev pub run : Configuration → System → List Call → Option System
run agent w [] = some w
run agent w (call ∷ calls) = elim (step agent w call) [ none ↦ none | some u ↦ run agent u calls ]

Submits-Extends :
    (s : AgentState) (r : AppleRequest) (q : AgentState × Result ProtocolError Accepted)
    → Submits s r q
    → Extends s q.0
Submits-Extends s r (t, err e) h = rw h (Extends-refl s)
Submits-Extends s r (t, ok a) h = h.0

step-IsSystem :
    (agent : Configuration) (w : System) (call : Call)
    → IsSystem w
    → (u : System) × (step agent w call ≡ some u)
      × IsSystem u
      × Extends w.state u.state
      × Grows w.state u.state
step-IsSystem agent w (submits files r) v = (
  after_submit w (submit agent files w.state r),
  refl,
  (submit-IsSystem w r v agent files).0,
  Submits-Extends w.state r (submit agent files w.state r)
      (submit-Submits w.state r v.agent agent files),
  (submit-IsSystem w r v agent files).1,
)
step-IsSystem agent w (reports job kind payload terminal) v =
    elim (Bool-cases (contains w.threads job)) [
      | inr no_thread ↦ (w, rw no_thread refl, v, Extends-refl w.state, Grows-refl w.state)
      | inl runs ↦
          let (t, appended, kept, more, grown) =
            report-IsSystem w job kind payload terminal v runs in
          (record w { state = t }, rw (runs, appended) refl, kept, more, grown)
    ]

-- From an agent in which each log is numbered from one without gaps and has nothing after a
-- terminal event, the id of each job and of each log is one that was given out, every accepted job
-- has its thread and the job of every thread has a log, any interleaving of submissions and of
-- events of the spawned threads returns without a panic, keeps all this, forgets no identifier and
-- no job, and leaves each log with what it had and perhaps more at its end.
pub run-IsSystem :
    (agent : Configuration) (w : System) (calls : List Call)
    → IsSystem w
    → (u : System) × (run agent w calls ≡ some u)
      × IsSystem u
      × Extends w.state u.state
      × Grows w.state u.state
run-IsSystem agent w [] v = (w, refl, v, Extends-refl w.state, Grows-refl w.state)
run-IsSystem agent w (call ∷ calls) v =
    let (t, stepped, kept, more, grown) = step-IsSystem agent w call v in
    let (u, ran, held, rest, grows) = run-IsSystem agent t calls kept in
    (
      u,
      rw (stepped, run) ran,
      held,
      Extends-trans w.state t.state u.state more rest,
      Grows-trans w.state t.state u.state grown grows,
    )

-- On an agent with the invariant, after a request was accepted and after any submissions, of this
-- request or of others, and any events of job threads, the same request, submitted again, changes
-- nothing. It joins the same job if at that time its path resolves at both reads of the file
-- system, at the second one under the workspace, and else is refused because of its path.
pub submit_again :
    (agent : Configuration) (files later : FileReads) (w : System) (t : AgentState)
    (r : AppleRequest) (a : Accepted) (calls : List Call)
    → IsSystem w
    → submit agent files w.state r ≡ (t, ok a)
    → (u : System) × (run agent (after_submit w (t, ok a)) calls ≡ some u)
      × (submit agent later u.state r ≡ (
        u.state,
        if is_denied later r.workspace_path then err path_denied else ok (existing (job_of a)),
      ))
submit_again agent files later w t r a calls v accepted =
    let done : Extends w.state t × Registered t r (job_of a) =
      subst (Submits w.state r) accepted (submit-Submits w.state r v.agent agent files) in
    let held : IsSystem (after_submit w (t, ok a)) =
      subst (λ q. IsSystem (after_submit w q)) accepted (submit-IsSystem w r v agent files).0 in
    let (u, ran, kept, more, _) = run-IsSystem agent (after_submit w (t, ok a)) calls held in
    let known = Registered-Extends t u.state r (job_of a) more done.1 in
    let valid =
      validate-again agent files later r (submit-valid agent files w.state t r a accepted) in
    (u, ran, submit-again agent later u.state r (job_of a) known valid)

-- Reading a known job's log after a cursor gives exactly the events after the first so many, and
-- an error if the cursor is beyond the log's end.
pub events_after-drop :
    (s : AgentState) (job : String) (es : List ProgressEvent) (after : ℕ)
    → IsAgent s
    → get job s.events ≡ some es
    → events_after s job after ≡ (
        if ltb (length es) after
        then err (error "invalid_event_cursor" "event cursor is beyond the job")
        else ok (drop after es))
unfolding events_after
events_after-drop s job es after v there =
    rw (there, events_after)
      (ap
        (λ fs.
          if ltb (length es) after
          then err (error "invalid_event_cursor" "event cursor is beyond the job")
          else ok fs)
        (subst (λ n. retain (λ e. ltb n e.sequence) es ≡ drop after es) (omega arith)
          (retain-drop after 0 es (v.logged job es there).numbered)))

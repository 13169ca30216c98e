-- ===== src/RemoteApple/Threads.antt =====
-- The agent with the threads of its jobs (src/lib.rs, module `remote_apple_protocol`).
use mathlib.Core.List.{append-nil}
use devicelane.Shared.{
  ◌≡◌, sym, inl, inr, Bool-cases, true, Option-cases, none, some, List, [], ◌∷◌, ◌++◌, append_assoc,
  String, string_eq, ◌==◌, contains, is_some_and, Result, Result-cases, ok, err, arith,
}
use devicelane.Map.{get, get-insert, get-insert_cases}
use devicelane.RemoteApple.JobId.{job_id, job_id-injective}
use devicelane.RemoteApple.Protocol.{AppleRequest, ProtocolError, ProgressEvent, same_operation}
use devicelane.RemoteApple.Envelope.{Configuration, FileReads, validate}
use devicelane.RemoteApple.Agent.{
  AgentState, Accepted, conflict, spawned, existing, first_event, join, start, submit,
}
use devicelane.RemoteApple.Invariant.{Issued, IsAgent, start-IsAgent, register_cases}

-- The shared state, and the jobs for which a thread was spawned.
pub record System : Type 0 where
  pub state : AgentState
  pub threads : List String

-- Only a submission that starts a job spawns a thread.
abbrev pub spawn : List String → Result ProtocolError Accepted → List String
spawn threads (ok (spawned job)) = job ∷ threads
spawn threads (ok (existing job)) = threads
spawn threads (err e) = threads

abbrev pub after_submit : System → AgentState × Result ProtocolError Accepted → System
after_submit w (t, q) = record { state = t; threads = spawn w.threads q }

abbrev pub HasLog : AgentState → String → Type 0
HasLog s job = (es : List ProgressEvent) × (get job s.events ≡ some es)

-- The logs are of jobs whose id was given out, every accepted job has its thread, and the job of
-- every thread has a log.
pub record IsSystem (w : System) : Type 0 where
  pub agent : IsAgent w.state
  pub owned :
      (job : String) (es : List ProgressEvent)
      → get job w.state.events ≡ some es
      → Issued w.state job
  pub running :
      (job : String) (r : AppleRequest)
      → get job w.state.job_requests ≡ some r
      → contains w.threads job ≡ true
  pub opened : (job : String) → contains w.threads job ≡ true → HasLog w.state job

-- Each log of `s` is in `t`, with perhaps more events at its end.
abbrev pub Grows : AgentState → AgentState → Type 0
Grows s t =
    (job : String) (es : List ProgressEvent)
    → get job s.events ≡ some es
    → (more : List ProgressEvent) × (get job t.events ≡ some (es ++ more))

pub Grows-refl : (s : AgentState) → Grows s s
Grows-refl s job es h = ([], rw (append-nil es) h)

pub Grows-trans : (s t u : AgentState) → Grows s t → Grows t u → Grows s u
Grows-trans s t u f g job es h =
    let (more, at) = f job es h in
    let (rest, there) = g job (es ++ more) at in
    (more ++ rest, rw (sym (append_assoc es more rest)) there)

module _ (w : System) (r : AppleRequest) (v : IsSystem w) where
  -- The system after a submission with this result.
  Keeps : AgentState × Result ProtocolError Accepted → Type 0
  Keeps q = IsSystem (after_submit w q) × Grows w.state q.0

  refused-Keeps : (e : ProtocolError) → Keeps (w.state, err e)
  unfolding Keeps
  refused-Keeps e = (
    record { agent = v.agent; owned = v.owned; running = v.running; opened = v.opened },
    Grows-refl w.state,
  )

  unlogged : get (job_id w.state.next_job) w.state.events ≡ none
  unlogged = elim (Option-cases (get (job_id w.state.next_job) w.state.events)) [
    | inl missing ↦ missing
    | inr (es, there) ↦
        let (n, below, same) = v.owned (job_id w.state.next_job) es there in
        absurd (omega (arith, below, job_id-injective w.state.next_job n same))
  ]

  start-HasLog :
      (job : String)
      → contains (job_id w.state.next_job ∷ w.threads) job ≡ true
      → HasLog (start w.state r (job_id w.state.next_job)).0 job
  unfolding start
  start-HasLog job h = elim (Bool-cases (job_id w.state.next_job == job)) [
    | inl same ↦ (
      first_event ∷ [],
      ground
          (arith, same, get-insert (job_id w.state.next_job) job (first_event ∷ []) w.state.events),
    )
    | inr other ↦
        let (es, there) = v.opened job (ground (arith, h, other)) in
        (
          es,
          ground (
            arith,
            other,
            there,
            get-insert (job_id w.state.next_job) job (first_event ∷ []) w.state.events,
          ),
        )
  ]

  start-Keeps : Keeps (start w.state r (job_id w.state.next_job))
  unfolding Keeps start
  start-Keeps = (
    record {
      agent = start-IsAgent w.state r v.agent;
      owned = λ job es h.
          elim (get-insert_cases (job_id w.state.next_job) job (first_event ∷ []) es w.state.events
            h) [
              | inl (same, _) ↦ (w.state.next_job, omega arith, sym same)
              | inr (_, old) ↦
                  let (n, below, at) = v.owned job es old in (n, omega (arith, below), at)
            ];
      running = λ job q h.
          elim (get-insert_cases (job_id w.state.next_job) job r q w.state.job_requests h) [
            | inl (same, _) ↦ ground (arith, same)
            | inr (_, old) ↦ ground (arith, v.running job q old)
          ];
      opened = start-HasLog;
    },
    λ job es h. (
      [],
      ground (
        arith,
        h,
        unlogged,
        append-nil es,
        get-insert (job_id w.state.next_job) job (first_event ∷ []) w.state.events,
      ),
    ),
  )

  join-Keeps : (job : String) → Keeps (join w.state r job)
  unfolding Keeps join
  join-Keeps job =
      elim (Bool-cases
        (is_some_and (get job w.state.job_requests) (λ original. same_operation original r))) [
          | inr other ↦
              rw (other, join)
                (refused-Keeps (conflict "request identifier was reused for a different operation"))
          | inl same ↦
              rw (same, join)
                (
                  record {
                    agent = record { logged = v.agent.logged; issued = v.agent.issued };
                    owned = v.owned;
                    running = v.running;
                    opened = v.opened;
                  },
                  Grows-refl w.state,
                )
        ]

  pub submit-IsSystem :
      (agent : Configuration) (files : FileReads)
      → IsSystem (after_submit w (submit agent files w.state r))
        × Grows w.state (submit agent files w.state r).0
  unfolding submit Keeps
  submit-IsSystem agent files = elim (Result-cases (validate agent files r)) [
    | inr (e, invalid) ↦ rw (invalid, submit) (refused-Keeps e)
    | inl (done, valid) ↦
        rw (valid, submit)
          (register_cases w.state r v.agent Keeps (get r.request_id w.state.request_jobs)
            (get r.idempotency_key w.state.idempotency_jobs) refused-Keeps (λ _ _. start-Keeps)
            (λ job _ _. join-Keeps job))
  ]

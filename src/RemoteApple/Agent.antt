-- ===== src/RemoteApple/Agent.antt =====
-- `AppleAgent` and its jobs (src/lib.rs, module `remote_apple_protocol`). Each method holds the
-- agent's mutex, so it is one step; a job's thread takes a step for each event that it appends.
use devicelane.Shared.{
  ℕ, ◌+◌, Bool, true, false, not, ◌&&◌, Option, none, some, List, [], ◌∷◌, ◌++◌, String, string_eq,
  option_string_eq, ◌==◌, if◌then◌else◌, ltb, length, any, retain, is_some, is_some_and, Result, ok,
  err,
}
use devicelane.Map.{Map, get, insert}
use devicelane.RemoteApple.JobId.{job_id}
use devicelane.RemoteApple.Protocol.{
  AppleRequest, ProtocolError, error, ProgressEvent, same_operation,
}
use devicelane.RemoteApple.Envelope.{Configuration, FileReads, validate}

pub record AgentState : Type 0 where
  pub next_job : ℕ
  pub request_jobs : Map String String
  pub idempotency_jobs : Map String String
  pub job_requests : Map String AppleRequest
  pub events : Map String (List ProgressEvent)

abbrev pub new : AgentState
new = record {
  next_job = 1;
  request_jobs = [];
  idempotency_jobs = [];
  job_requests = [];
  events = [];
}

-- An accepted job, and whether a thread was spawned for it.
pub data Accepted : Type 0 where
  existing spawned : String → Accepted

abbrev pub job_of : Accepted → String
job_of (existing job) = job
job_of (spawned job) = job

-- `Option::or`.
abbrev pub or : Option String → Option String → Option String
or none b = b
or (some a) b = some a

abbrev pub first_event : ProgressEvent
first_event = record { sequence = 1; kind = "accepted"; payload = ""; terminal = false }

abbrev pub conflict : String → ProtocolError
conflict message = error "idempotency_conflict" message

-- The request under the identifiers of an old job.
unfoldable pub join :
    AgentState → AppleRequest → String → AgentState × Result ProtocolError Accepted
join s request job =
    if not (is_some_and (get job s.job_requests) (λ original. same_operation original request))
    then (s, err (conflict "request identifier was reused for a different operation"))
    else (
      record s {
        request_jobs = insert request.request_id job s.request_jobs;
        idempotency_jobs = insert request.idempotency_key job s.idempotency_jobs;
      },
      ok (existing job),
    )

unfoldable pub start :
    AgentState → AppleRequest → String → AgentState × Result ProtocolError Accepted
start s request job = (
  record s {
    next_job = s.next_job + 1;
    job_requests = insert job request s.job_requests;
    request_jobs = insert request.request_id job s.request_jobs;
    idempotency_jobs = insert request.idempotency_key job s.idempotency_jobs;
    events = insert job (first_event ∷ []) s.events;
  },
  ok (spawned job),
)

-- What follows the validation, by the jobs that the two identifiers name.
unfoldable pub register :
    AgentState
    → AppleRequest
    → Option String
    → Option String
    → AgentState × Result ProtocolError Accepted
unfolding join start
register s request request_job idempotency_job =
    if is_some request_job && (is_some idempotency_job && not (request_job == idempotency_job))
    then (s, err (conflict "request identifiers refer to different jobs"))
    else elim (or request_job idempotency_job) [
      | none ↦ start s request (job_id s.next_job)
      | some job ↦ join s request job
    ]

unfoldable pub submit :
    Configuration
    → FileReads
    → AgentState
    → AppleRequest
    → AgentState × Result ProtocolError Accepted
unfolding validate register
submit agent files s request = elim (validate agent files request) [
  | err e ↦ (s, err e)
  | ok _ ↦
      register s request (get request.request_id s.request_jobs)
        (get request.idempotency_key s.idempotency_jobs)
]

-- `none` is the panic on an unknown job.
unfoldable pub append_event : AgentState → String → String → String → Bool → Option AgentState
append_event s job kind payload terminal = elim (get job s.events) [
  | none ↦ none
  | some events ↦
      if any (λ e. e.terminal) events
      then some s
      else some (record s {
        events =
            insert job
              (events
                ++ record {
                  sequence = length events + 1;
                  kind = kind;
                  payload = payload;
                  terminal = terminal;
                }
                  ∷ [])
              s.events;
      })
]

-- How the operation of a job's thread ends.
pub data Outcome : Type 0 where
  succeeded failed : String → Outcome
  panicked : Outcome

unfoldable pub finish : AgentState → String → Outcome → Option AgentState
unfolding append_event
finish s job (succeeded payload) = append_event s job "succeeded" payload true
finish s job (failed payload) = append_event s job "failed" payload true
finish s job panicked = append_event s job "failed" "operation panicked" true

-- The thread of a job whose operation reports the payloads and then ends, run alone.
unfoldable pub run_thread : AgentState → String → List String → Outcome → Option AgentState
unfolding append_event finish
run_thread s job [] outcome = finish s job outcome
run_thread s job (payload ∷ payloads) outcome = elim (append_event s job "progress" payload false) [
  | none ↦ none
  | some after ↦ run_thread after job payloads outcome
]

unfoldable pub events_after : AgentState → String → ℕ → Result ProtocolError (List ProgressEvent)
events_after s job after = elim (get job s.events) [
  | none ↦ err (error "unknown_job" "job is not available")
  | some events ↦
      if ltb (length events) after
      then err (error "invalid_event_cursor" "event cursor is beyond the job")
      else ok (retain (λ e. ltb after e.sequence) events)
]

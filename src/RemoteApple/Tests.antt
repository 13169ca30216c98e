-- ===== src/RemoteApple/Tests.antt =====
-- Tests of the agent, and the theorems at concrete inputs (src/lib.rs, module
-- `remote_apple_protocol`).
use devicelane.Shared.{
  ◌≡◌, refl, true, false, none, some, List, [], ◌∷◌, ◌++◌, map, string_eq, if◌then◌else◌, ltb, ok,
  err, string_discrete, bytes_discrete, subst, ℕ_discrete, arith,
}
use devicelane.Map.{get, insert}
use devicelane.RemoteApple.JobId.{job_id}
use devicelane.RemoteApple.Protocol.{
  AppleRequest, error, ProgressEvent, install_app, RemoteProtocolVersion-discrete,
}
use devicelane.RemoteApple.Envelope.{Configuration, FileReads, is_denied, path_denied, validate}
use devicelane.RemoteApple.Admission.{IsServable, validate-IsServable}
use devicelane.RemoteApple.Agent.{
  AgentState, existing, spawned, first_event, new, submit, succeeded, run_thread, events_after,
}
use devicelane.RemoteApple.Invariant.{submit-IsAgent, IsAgent, Extends}
use devicelane.RemoteApple.Threads.{System, after_submit, IsSystem, Grows}
use devicelane.RemoteApple.Jobs.{
  Call, submits, reports, run, run-IsSystem, submit_again, events_after-drop,
}
use devicelane.RemoteApple.Thread.{report, script, run_thread-script}

abbrev agent : Configuration
agent = record { capabilities = "apple.simulator@1" ∷ []; devices = "sim-1" ∷ [] }

-- A file system in which every path resolves under the root, and one in which none is there.
abbrev present : FileReads
present = record { first = λ path. some true; second = λ path. some true }

abbrev removed : FileReads
removed = record { first = λ path. none; second = λ path. none }

abbrev request : AppleRequest
request = record {
  version = record { major = 1; minor = 0 };
  request_id = "r1";
  idempotency_key = "k1";
  capability = "apple.simulator@1";
  workspace_path = "app";
  device_id = some "sim-1";
  lease_id = none;
  operation = install_app "a.app";
}

request_valid : validate agent present request ≡ ok tt
unfolding validate ℕ_discrete string_discrete bytes_discrete RemoteProtocolVersion-discrete
request_valid = refl

validate-IsServable_example : IsServable agent present request
validate-IsServable_example = validate-IsServable agent present request request_valid

new-IsAgent : IsAgent new
unfolding get
new-IsAgent = record { logged = λ job es h. absurd (cc h); issued = λ job r h. absurd (cc h) }

abbrev calls : List Call
calls =
    submits present request
    ∷ reports "apple-job-1" "progress" "half" false
    ∷ submits present request
    ∷ reports "apple-job-1" "succeeded" "" true
    ∷ []

abbrev idle : System
idle = record { state = new; threads = [] }

idle-IsSystem : IsSystem idle
unfolding get
idle-IsSystem = record {
  agent = new-IsAgent;
  owned = λ job es h. absurd (cc h);
  running = λ job r h. absurd (cc h);
  opened = λ job h. absurd (cc h);
}

run-IsSystem_example :
    (u : System) × (run agent idle calls ≡ some u)
    × IsSystem u
    × Extends new u.state
    × Grows new u.state
run-IsSystem_example = run-IsSystem agent idle calls idle-IsSystem

-- The agent after its first job was accepted.
abbrev one_job : AgentState
one_job = record {
  next_job = 2;
  request_jobs = ("r1", job_id 1) ∷ [];
  idempotency_jobs = ("k1", job_id 1) ∷ [];
  job_requests = (job_id 1, request) ∷ [];
  events = (job_id 1, first_event ∷ []) ∷ [];
}

submitted : submit agent present new request ≡ (one_job, ok (spawned (job_id 1)))
unfolding submit get insert ℕ_discrete string_discrete bytes_discrete RemoteProtocolVersion-discrete
submitted = refl

-- The path is gone when the request is submitted again.
submit_again_example :
    (u : System) × (run agent (after_submit idle (one_job, ok (spawned (job_id 1)))) calls ≡ some u)
    × (submit agent removed u.state request
        ≡ (u.state, if is_denied removed "app" then err path_denied else ok (existing (job_id 1))))
submit_again_example =
    submit_again agent present removed idle one_job request (spawned (job_id 1)) calls idle-IsSystem
      submitted

job_found : get (job_id 1) one_job.events ≡ some (first_event ∷ [])
unfolding get
job_found = ground arith

one_job-IsAgent : IsAgent one_job
one_job-IsAgent =
    subst (λ q. IsAgent q.0) submitted (submit-IsAgent new request new-IsAgent agent present)

events_after-drop_example : events_after one_job (job_id 1) 0 ≡ (
    if ltb 1 0
    then err (error "invalid_event_cursor" "event cursor is beyond the job")
    else ok (first_event ∷ []))
events_after-drop_example =
    events_after-drop one_job (job_id 1) (first_event ∷ []) 0 one_job-IsAgent job_found

run_thread-script_example :
    (t : AgentState) × (fs : List ProgressEvent) × (run_thread one_job
        (job_id 1)
        ("half" ∷ [])
        (succeeded "done")
      ≡ some t)
    × (get (job_id 1) t.events ≡ some fs)
    × (map report fs ≡ map report (first_event ∷ []) ++ script ("half" ∷ []) (succeeded "done"))
run_thread-script_example =
    run_thread-script one_job (job_id 1) ("half" ∷ []) (succeeded "done") (first_event ∷ [])
      job_found refl

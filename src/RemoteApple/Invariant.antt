-- ===== src/RemoteApple/Invariant.antt =====
-- The agent's invariant under submissions and the events of threads (src/lib.rs, module
-- `remote_apple_protocol`).
use devicelane.Shared.{
  ℕ, ◌+◌, ◌<◌, ◌≡◌, refl, sym, subst, ◌⊎◌, inl, inr, Bool, Bool-cases, true, Option, Option-cases,
  none, some, List, [], ◌∷◌, ◌++◌, String, string_eq, option_string_eq, ◌==◌, is_some_and, any,
  length, Result, Result-cases, ok, err, arith,
}
use devicelane.Map.{Map, get, insert, get-insert, get-insert_cases}
use devicelane.RemoteApple.JobId.{job_id, job_id-injective}
use devicelane.RemoteApple.Protocol.{
  AppleRequest, ProtocolError, ProgressEvent, same_operation, same_operation_refl,
}
use devicelane.RemoteApple.Envelope.{Configuration, FileReads, validate}
use devicelane.RemoteApple.Agent.{
  AgentState, Accepted, job_of, first_event, join, start, register, submit, append_event,
}
use devicelane.RemoteApple.EventLog.{IsEventLog, IsEventLog-append}

-- The id is one that was given out.
abbrev pub Issued : AgentState → String → Type 0
Issued s job = (n : ℕ) × (n < s.next_job) × (job ≡ job_id n)

pub record IsAgent (s : AgentState) : Type 0 where
  pub logged : (job : String) (es : List ProgressEvent) → get job s.events ≡ some es → IsEventLog es
  pub issued : (job : String) (r : AppleRequest) → get job s.job_requests ≡ some r → Issued s job

-- What `s` knows of identifiers and jobs, `t` knows.
pub record Extends (s t : AgentState) : Type 0 where
  pub requests :
      (id job : String) → get id s.request_jobs ≡ some job → get id t.request_jobs ≡ some job
  pub keys :
      (key job : String)
      → get key s.idempotency_jobs ≡ some job
      → get key t.idempotency_jobs ≡ some job
  pub jobs :
      (job : String) (r : AppleRequest)
      → get job s.job_requests ≡ some r
      → get job t.job_requests ≡ some r

pub Extends-refl : (s : AgentState) → Extends s s
Extends-refl s = record { requests = λ id job h. h; keys = λ key job h. h; jobs = λ job r h. h }

pub Extends-trans : (s t u : AgentState) → Extends s t → Extends t u → Extends s u
Extends-trans s t u f g = record {
  requests = λ id job h. g.requests id job (f.requests id job h);
  keys = λ key job h. g.keys key job (f.keys key job h);
  jobs = λ job r h. g.jobs job r (f.jobs job r h);
}

-- Writing what is there, or under a new key, forgets nothing.
insert_extends :
    {V : Type 0} (k : String) (v : V) (m : Map String V) (j : String) (w : V)
    → (get k m ≡ none) ⊎ (get k m ≡ some v)
    → get j m ≡ some w
    → get j (insert k v m) ≡ some w
insert_extends k v m j w place h = elim (Bool-cases (k == j)) [
  | inl same ↦ ground (arith, same, place, h, get-insert k j v m)
  | inr other ↦ ground (arith, other, h, get-insert k j v m)
]

module _ (s : AgentState) (r : AppleRequest) (v : IsAgent s) where
  unissued : get (job_id s.next_job) s.job_requests ≡ none
  unissued = elim (Option-cases (get (job_id s.next_job) s.job_requests)) [
    | inl missing ↦ missing
    | inr (old, there) ↦
        let (n, below, same) = v.issued (job_id s.next_job) old there in
        absurd (omega (arith, below, job_id-injective s.next_job n same))
  ]

  pub start-IsAgent : IsAgent (start s r (job_id s.next_job)).0
  unfolding start
  start-IsAgent = record {
    logged = λ job es h.
        elim (get-insert_cases (job_id s.next_job) job (first_event ∷ []) es s.events h) [
          | inl (_, same) ↦
              subst IsEventLog same (record { numbered = (refl, tt); ends = ((λ _. refl), tt) })
          | inr (_, old) ↦ v.logged job es old
        ];
    issued = λ job q h. elim (get-insert_cases (job_id s.next_job) job r q s.job_requests h) [
      | inl (same, _) ↦ (s.next_job, omega arith, sym same)
      | inr (_, old) ↦ let (n, below, at) = v.issued job q old in (n, omega (arith, below), at)
    ];
  }

  start-Extends :
      get r.request_id s.request_jobs ≡ none
      → get r.idempotency_key s.idempotency_jobs ≡ none
      → Extends s (start s r (job_id s.next_job)).0
  unfolding start
  start-Extends new_request new_key = record {
    requests = λ id job h.
        insert_extends r.request_id (job_id s.next_job) s.request_jobs id job (inl new_request) h;
    keys = λ key job h.
        insert_extends r.idempotency_key (job_id s.next_job) s.idempotency_jobs key job
          (inl new_key) h;
    jobs = λ job q h. insert_extends (job_id s.next_job) r s.job_requests job q (inl unissued) h;
  }

-- The request's two identifiers name the job, which was accepted for the same operation.
pub record Registered (s : AgentState) (r : AppleRequest) (job : String) : Type 0 where
  pub by_request : get r.request_id s.request_jobs ≡ some job
  pub by_key : get r.idempotency_key s.idempotency_jobs ≡ some job
  pub original : AppleRequest
  pub accepted : get job s.job_requests ≡ some original
  pub same : same_operation original r ≡ true

-- What a submission does, by its result.
abbrev pub Submits : AgentState → AppleRequest → AgentState × Result ProtocolError Accepted → Type 0
Submits s r (t, err e) = t ≡ s
Submits s r (t, ok a) = Extends s t × Registered t r (job_of a)

module _ (s : AgentState) (r : AppleRequest) (v : IsAgent s) where
  pub join-IsAgent : (job : String) → IsAgent (join s r job).0
  unfolding join
  join-IsAgent job =
      elim (Bool-cases
        (is_some_and (get job s.job_requests) (λ original. same_operation original r))) [
          | inl same ↦ rw (same, join) (record { logged = v.logged; issued = v.issued })
          | inr other ↦ rw (other, join) v
        ]

  start-Submits :
      get r.request_id s.request_jobs ≡ none
      → get r.idempotency_key s.idempotency_jobs ≡ none
      → Submits s r (start s r (job_id s.next_job))
  unfolding start
  start-Submits new_request new_key = (
    start-Extends s r v new_request new_key,
    record {
      by_request =
          ground (arith, get-insert r.request_id r.request_id (job_id s.next_job) s.request_jobs);
      by_key = ground (
        arith,
        get-insert r.idempotency_key r.idempotency_key (job_id s.next_job) s.idempotency_jobs,
      );
      original = r;
      accepted =
          ground (arith, get-insert (job_id s.next_job) (job_id s.next_job) r s.job_requests);
      same = same_operation_refl r;
    },
  )

  join-Submits :
      (job : String)
      → (get r.request_id s.request_jobs ≡ none) ⊎ (get r.request_id s.request_jobs ≡ some job)
      → (get r.idempotency_key s.idempotency_jobs ≡ none)
        ⊎ (get r.idempotency_key s.idempotency_jobs ≡ some job)
      → Submits s r (join s r job)
  unfolding join
  join-Submits job place_request place_key = elim (Option-cases (get job s.job_requests)) [
    | inl missing ↦ rw (missing, join) refl
    | inr (original, there) ↦ elim (Bool-cases (same_operation original r)) [
      | inr other ↦ rw (there, other, join) refl
      | inl same ↦
          rw (there, same, join)
            (
              record {
                requests =
                    λ id j h. insert_extends r.request_id job s.request_jobs id j place_request h;
                keys = λ key j h.
                    insert_extends r.idempotency_key job s.idempotency_jobs key j place_key h;
                jobs = λ j q h. h;
              },
              record {
                by_request =
                    ground (arith, get-insert r.request_id r.request_id job s.request_jobs);
                by_key =
                    ground (
                      arith,
                      get-insert r.idempotency_key r.idempotency_key job s.idempotency_jobs,
                    );
                original = original;
                accepted = there;
                same = same;
              },
            )
    ]
  ]

  -- A property of the outcome, from that of a refusal, of a new job and of an old one.
  pub register_cases :
      (P : AgentState × Result ProtocolError Accepted → Type 0) (a b : Option String)
      → ((e : ProtocolError) → P (s, err e))
      → (a ≡ none → b ≡ none → P (start s r (job_id s.next_job)))
      → ((job : String)
          → (a ≡ none) ⊎ (a ≡ some job)
          → (b ≡ none) ⊎ (b ≡ some job)
          → P (join s r job))
      → P (register s r a b)
  unfolding register
  register_cases P none none refused fresh old = fresh refl refl
  register_cases P none (some j) refused fresh old = old j (inl refl) (inr refl)
  register_cases P (some i) none refused fresh old = old i (inr refl) (inl refl)
  register_cases P (some i) (some j) refused fresh old =
      elim (Bool-cases (◌==◌ {A = Option String} (some i) (some j))) [
        | inl same ↦ rw (same, register) (old i (inr refl) (inr (ground (arith, same))))
        | inr other ↦ rw (other, register) (refused _)
      ]

  pub submit-IsAgent :
      (agent : Configuration) (files : FileReads) → IsAgent (submit agent files s r).0
  unfolding submit
  submit-IsAgent agent files = elim (Result-cases (validate agent files r)) [
    | inr (e, invalid) ↦ rw (invalid, submit) v
    | inl (done, valid) ↦
        rw (valid, submit)
          (register_cases (λ q. IsAgent q.0) (get r.request_id s.request_jobs)
            (get r.idempotency_key s.idempotency_jobs) (λ _. v) (λ _ _. start-IsAgent s r v)
            (λ job _ _. join-IsAgent job))
  ]

  pub submit-Submits :
      (agent : Configuration) (files : FileReads) → Submits s r (submit agent files s r)
  unfolding submit
  submit-Submits agent files = elim (Result-cases (validate agent files r)) [
    | inr (e, invalid) ↦ rw (invalid, submit) refl
    | inl (done, valid) ↦
        rw (valid, submit)
          (register_cases (Submits s r) (get r.request_id s.request_jobs)
            (get r.idempotency_key s.idempotency_jobs) (λ _. refl) start-Submits join-Submits)
  ]

-- An appended event goes to the job's log, unless that has ended; nothing else changes.
pub append_event-IsAgent :
    (s : AgentState) (job kind payload : String) (terminal : Bool) (es : List ProgressEvent)
    → IsAgent s
    → get job s.events ≡ some es
    → (t : AgentState) × (append_event s job kind payload terminal ≡ some t)
      × IsAgent t
      × Extends s t
unfolding append_event
append_event-IsAgent s job kind payload terminal es v there =
    elim (Bool-cases (any (λ e. e.terminal) es)) [
      | inl ended ↦ (s, rw (there, ended, append_event) refl, v, Extends-refl s)
      | inr running ↦ (
        record s { events = insert job (es ++ added ∷ []) s.events },
        rw (there, running, append_event) refl,
        record {
          logged = λ j fs h. elim (get-insert_cases job j (es ++ added ∷ []) fs s.events h) [
            | inl (_, same) ↦
                subst IsEventLog same
                  (IsEventLog-append es added (v.logged job es there) running refl)
            | inr (_, old) ↦ v.logged j fs old
          ];
          issued = v.issued;
        },
        record { requests = λ id j h. h; keys = λ key j h. h; jobs = λ j r h. h },
      )
    ]
  where
    added : ProgressEvent
    added = record { sequence = length es + 1; kind = kind; payload = payload; terminal = terminal }

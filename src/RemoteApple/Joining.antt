-- ===== src/RemoteApple/Joining.antt =====
-- A request that is submitted again (src/lib.rs, `AppleAgent::submit`).
use devicelane.Shared.{
  ◌≡◌, refl, inl, inr, Bool-cases, true, Option, some, String, string_eq, option_string_eq, ◌==◌,
  if◌then◌else◌, Result, Result-cases, ok, err, >>-ok, check_all, check_all-ok, arith,
}
use devicelane.Map.{insert-get}
use devicelane.RemoteApple.Protocol.{AppleRequest, ProtocolError}
use devicelane.RemoteApple.Envelope.{
  Configuration, FileReads, is_denied, path_denied, agent_checks, validate_request_envelope,
  validate,
}
use devicelane.RemoteApple.Agent.{AgentState, Accepted, existing, join, register, submit}
use devicelane.RemoteApple.Invariant.{Extends, Registered}

pub Registered-Extends :
    (s t : AgentState) (r : AppleRequest) (job : String)
    → Extends s t
    → Registered s r job
    → Registered t r job
Registered-Extends s t r job more h = record {
  by_request = more.requests r.request_id job h.by_request;
  by_key = more.keys r.idempotency_key job h.by_key;
  original = h.original;
  accepted = more.jobs job h.original h.accepted;
  same = h.same;
}

same_job : (job : String) → ◌==◌ {A = Option String} (some job) (some job) ≡ true
same_job job = ground arith

-- The outcome for a request whose job is known, by its validation: the state stays.
abbrev rejoin : String → Result ProtocolError (Unit {0}) → Result ProtocolError Accepted
rejoin job (ok _) = ok (existing job)
rejoin job (err e) = err e

submit-Registered :
    (agent : Configuration) (files : FileReads) (s : AgentState) (r : AppleRequest) (job : String)
    → Registered s r job
    → submit agent files s r ≡ (s, rejoin job (validate agent files r))
unfolding submit
submit-Registered agent files s r job h = elim (Result-cases (validate agent files r)) [
  | inr (e, invalid) ↦ rw (invalid, submit) refl
  | inl (done, valid) ↦
      rw
        (
          valid,
          submit,
          h.by_request,
          h.by_key,
          register,
          same_job job,
          join,
          h.accepted,
          h.same,
          insert-get r.request_id job s.request_jobs h.by_request,
          insert-get r.idempotency_key job s.idempotency_jobs h.by_key,
        )
        refl
]

pub submit-valid :
    (agent : Configuration) (files : FileReads) (s t : AgentState) (r : AppleRequest) (a : Accepted)
    → submit agent files s r ≡ (t, ok a)
    → validate agent files r ≡ ok tt
unfolding submit
submit-valid agent files s t r a h = elim (Result-cases (validate agent files r)) [
  | inl (done, valid) ↦ valid
  | inr (e, invalid) ↦
      let refused : submit agent files s r ≡ (s, err e) = rw (invalid, submit) refl in
      absurd (accepted_not_refused {q = e} (cc (refused, h)))
]
  where
    accepted_not_refused :
        {q : ProtocolError}
        → ◌≡◌ {A = AgentState × Result ProtocolError Accepted} (t, ok a) (s, err q)
        → ⊥
    accepted_not_refused p = ground (arith, p)

-- Of what a validation found, only the path can change.
pub validate-again :
    (agent : Configuration) (files later : FileReads) (r : AppleRequest)
    → validate agent files r ≡ ok tt
    → validate agent later r ≡ (if is_denied later r.workspace_path then err path_denied else ok tt)
unfolding validate agent_checks
validate-again agent files later r valid =
    let (enveloped, checked) =
      >>-ok (validate_request_envelope r) (check_all (agent_checks agent files r)) tt valid in
    let (offered, (_, (known, _))) = check_all-ok (agent_checks agent files r) checked in
    elim (Bool-cases (is_denied later r.workspace_path)) [
      | inl denied ↦ rw (enveloped, offered, denied) refl
      | inr found ↦ rw (enveloped, offered, found, known) refl
    ]

pub submit-again :
    (agent : Configuration) (later : FileReads) (s : AgentState) (r : AppleRequest) (job : String)
    → Registered s r job
    → validate agent later r ≡ (if is_denied later r.workspace_path then err path_denied else ok tt)
    → submit agent later s r
      ≡ (s, if is_denied later r.workspace_path then err path_denied else ok (existing job))
submit-again agent later s r job known valid =
    elim (Bool-cases (is_denied later r.workspace_path)) [
      | inl denied ↦ rw (submit-Registered agent later s r job known, valid, denied) refl
      | inr found ↦ rw (submit-Registered agent later s r job known, valid, found) refl
    ]

-- ===== src/Sessions/Resume.antt =====
-- What a client resumes with, and requests executed once (src/lib.rs, module `sessions`).
use devicelane.Shared.{
  ℕ, zero, suc, ◌+◌, ◌<◌, ◌≡◌, refl, sym, ap, ◌∙◌, subst, inl, inr, Bool-cases, Option-cases, true,
  false, none, some, List, [], ◌∷◌, ◌++◌, String, string_eq, Bytes, ◌==◌, ltb, if◌then◌else◌,
  length, append-nil, append_assoc, length-append, retain, drop, Result, ok, err, reject, ◌>>◌,
  eq-==, ==-eq, arith,
}
use devicelane.Map.{get, get-insert}
use devicelane.Sessions.Journal.{
  ResumeError, cursor_ahead, Event, RequestResult, JobJournal, new, events_of, unwrap_or_default,
  append, resume, execute_once,
}

-- Appends and executions, in any order.
pub data Call : Type 0 where
  appended : String → String → Bytes → Call
  executed : String → RequestResult → Call

abbrev pub step : JobJournal → Call → JobJournal
step s (appended job_id kind payload) = append s job_id kind payload
step s (executed request_id result) =
    (execute_once s request_id (λ (w : Unit {0}). (w, result)) tt).0.0

abbrev pub run : JobJournal → List Call → JobJournal
run s [] = s
run s (call ∷ calls) = run (step s call) calls

-- The events count from a number on.
abbrev Counts : ℕ → List Event → Type 0
Counts n [] = Unit
Counts n (event ∷ events) = (event.sequence ≡ n) × Counts (suc n) events

abbrev IsCounted : JobJournal → Type 0
IsCounted s = (job_id : String) → Counts 1 (events_of s job_id)

Counts-append :
    (n : ℕ) (events : List Event) (event : Event)
    → Counts n events
    → event.sequence ≡ length events + n
    → Counts n (events ++ event ∷ [])
Counts-append n [] event c h = (omega (arith, h), tt)
Counts-append n (e ∷ events) event c h =
    (c.0, Counts-append (suc n) events event c.1 (omega (arith, h)))

events_of-append :
    (s : JobJournal) (job_id kind other : String) (payload : Bytes)
    → events_of (append s job_id kind payload) other ≡ (
        if job_id == other
        then events_of s job_id
          ++ record {
            version = none;
            job_id = job_id;
            sequence = length (events_of s job_id) + 1;
            kind = kind;
            payload = payload;
          }
            ∷ []
        else events_of s other)
unfolding append
events_of-append s job_id kind other payload =
    ap unwrap_or_default (get-insert job_id other _ s.events)
    ∙ elim (Bool-cases (job_id == other)) [ inl same ↦ rw same refl | inr apart ↦ rw apart refl ]

step-IsCounted : (s : JobJournal) (call : Call) → IsCounted s → IsCounted (step s call)
unfolding execute_once
step-IsCounted s (appended job_id kind payload) c other =
    subst (Counts 1) (sym (events_of-append s job_id kind other payload))
      (elim (Bool-cases (job_id == other)) [
        | inl same ↦ rw same (Counts-append 1 (events_of s job_id) _ (c job_id) refl)
        | inr apart ↦ rw apart (c other)
      ])
step-IsCounted s (executed request_id result) c other =
    elim (Option-cases (get request_id s.requests)) [
      | inl fresh ↦ rw (step, execute_once, fresh) (c other)
      | inr (old, known) ↦ rw (step, execute_once, known) (c other)
    ]

run-IsCounted : (s : JobJournal) (calls : List Call) → IsCounted s → IsCounted (run s calls)
run-IsCounted s [] c = c
run-IsCounted s (call ∷ calls) c = run-IsCounted (step s call) calls (step-IsCounted s call c)

retain_later :
    (n m : ℕ) (events : List Event)
    → m < n
    → Counts n events
    → retain (λ event. ltb m event.sequence) events ≡ events
retain_later n m [] h c = refl
retain_later n m (e ∷ events) h c =
    let first : ltb m e.sequence ≡ true = ground (arith, h, c.0) in
    rw first (ap (◌∷◌ e) (retain_later (suc n) m events (omega (arith, h)) c.1))

retain-Counts :
    (n k m : ℕ) (events : List Event)
    → m ≡ n + k
    → Counts (suc n) events
    → retain (λ event. ltb m event.sequence) events ≡ drop k events
retain-Counts n zero m events h c = retain_later (suc n) m events (omega (arith, h)) c
retain-Counts n (suc k) m [] h c = refl
retain-Counts n (suc k) m (e ∷ events) h c =
    let seen : ltb m e.sequence ≡ false = ground (arith, h, c.0) in
    rw seen (retain-Counts (suc n) k m events (omega (arith, h)) c.1)

-- The events that calls append to a job that has had so many.
abbrev pub history : String → ℕ → List Call → List Event
history job_id n [] = []
history job_id n (executed _ _ ∷ calls) = history job_id n calls
history job_id n (appended other kind payload ∷ calls) =
    let later = history job_id (n + 1) calls in
    let same = history job_id n calls in
    if other == job_id
    then record {
      version = none;
      job_id = job_id;
      sequence = n + 1;
      kind = kind;
      payload = payload;
    }
      ∷ later
    else same

abbrev pub event_of : String → ℕ → String → Bytes → Event
event_of job_id n kind payload = record {
  version = none;
  job_id = job_id;
  sequence = n + 1;
  kind = kind;
  payload = payload;
}

-- What is resumed of a list of events.
abbrev resumed : List Event → ℕ → List Event → Result ResumeError (List Event)
resumed events n later = reject (ltb (length events) n) cursor_ahead >> ok later

resumed-if :
    (events : List Event) (n : ℕ)
    → resumed events n (drop n events)
      ≡ (if ltb (length events) n then err cursor_ahead else ok (drop n events))
resumed-if events n = elim (Bool-cases (ltb (length events) n)) [
  | inl over ↦ rw over refl
  | inr within ↦ rw within refl
]

events_of-run :
    (s : JobJournal) (calls : List Call) (job_id : String)
    → events_of (run s calls) job_id
      ≡ events_of s job_id ++ history job_id (length (events_of s job_id)) calls
unfolding execute_once
events_of-run s [] job_id = sym (append-nil (events_of s job_id))
events_of-run s (executed request_id result ∷ calls) job_id =
    events_of-run (step s (executed request_id result)) calls job_id
    ∙ ap (λ events. events ++ history job_id (length events) calls) same
  where
    same : events_of (step s (executed request_id result)) job_id ≡ events_of s job_id
    same = elim (Option-cases (get request_id s.requests)) [
      | inl fresh ↦ rw (step, execute_once, fresh) refl
      | inr (old, known) ↦ rw (step, execute_once, known) refl
    ]
events_of-run s (appended other kind payload ∷ calls) job_id =
    events_of-run (append s other kind payload) calls job_id
    ∙ ap (λ events. events ++ history job_id (length events) calls)
        (events_of-append s other kind job_id payload)
    ∙ elim (Bool-cases (other == job_id)) [
      | inl same ↦
          let one : other ≡ job_id = eq-== other job_id same in
          rw same (
            subst
              (λ j.
                (events_of s other ++ event_of other (length (events_of s other)) kind payload ∷ [])
                  ++ history j
                      (length (
                        events_of s other
                        ++ event_of other (length (events_of s other)) kind payload ∷ []))
                      calls
                ≡ events_of s j
                  ++ (event_of j (length (events_of s j)) kind payload
                      ∷ history j (length (events_of s j) + 1) calls))
              one
              (append_assoc (events_of s other)
                  (event_of other (length (events_of s other)) kind payload ∷ []) _
                ∙ ap
                    (λ n.
                      events_of s other
                      ++ (event_of other (length (events_of s other)) kind payload
                          ∷ history other n calls))
                    (length-append (events_of s other)
                      (event_of other (length (events_of s other)) kind payload ∷ []))))
      | inr apart ↦ rw apart refl
    ]

-- After any sequence of appends and executions of requests, resuming a job from a cursor gives an
-- error exactly if the cursor is ahead of the events appended to that job, and else those events
-- after the cursor, numbered from 1 in their order, none missing and none twice.
pub resume-run :
    (calls : List Call) (job_id : String) (n : ℕ)
    → resume (run new calls) job_id n ≡ (
        if ltb (length (history job_id 0 calls)) n
        then err cursor_ahead
        else ok (drop n (history job_id 0 calls)))
unfolding resume get
resume-run calls job_id n =
    let all = events_of-run new calls job_id in
    let kept =
      retain-Counts 0 n n (events_of (run new calls) job_id) (omega arith)
        (run-IsCounted new calls (λ _. tt) job_id) in
    ap (resumed (events_of (run new calls) job_id) n) kept
    ∙ ap (λ events. resumed events n (drop n events)) all
    ∙ resumed-if (history job_id 0 calls) n

get-run :
    (s : JobJournal) (calls : List Call) (request_id : String) (result : RequestResult)
    → get request_id s.requests ≡ some result
    → get request_id (run s calls).requests ≡ some result
unfolding execute_once append
get-run s [] request_id result h = h
get-run s (appended job_id kind payload ∷ calls) request_id result h =
    get-run (append s job_id kind payload) calls request_id result h
get-run s (executed other found ∷ calls) request_id result h =
    get-run (step s (executed other found)) calls request_id result
      (elim (Option-cases (get other s.requests)) [
        | inr (old, known) ↦ rw (step, execute_once, known) h
        | inl fresh ↦
            rw (step, execute_once, fresh, get-insert other request_id found s.requests)
              (elim (Bool-cases (other == request_id)) [
                | inl same ↦ absurd (clash (eq-== other request_id same) fresh)
                | inr apart ↦ rw apart h
              ])
      ])
  where
    clash : other ≡ request_id → get other s.requests ≡ none → ⊥
    clash e f = absurd (ground (arith, e, f, h))

-- After a request is executed, and after any sequence of appends and executions, executing a
-- request with its id returns the first result, does not run the operation and changes nothing.
pub execute_once_again {ℓ} :
    {W V : Type ℓ} (s : JobJournal) (request_id : String) (operation : W → W × RequestResult)
    (world : W) (calls : List Call) (other : V → V × RequestResult) (next : V)
    → execute_once (run (execute_once s request_id operation world).0.0 calls) request_id other next
      ≡ (
        (run (execute_once s request_id operation world).0.0 calls, next),
        (execute_once s request_id operation world).1,
      )
unfolding execute_once
execute_once_again s request_id operation world calls other next =
    let known =
      get-run (execute_once s request_id operation world).0.0 calls request_id
        (execute_once s request_id operation world).1
        (elim (Option-cases (get request_id s.requests)) [
          | inr (old, known) ↦ rw (execute_once, known) known
          | inl fresh ↦
              rw (execute_once, fresh)
                (get-insert request_id request_id (operation world).1 s.requests
                  ∙ rw (==-eq request_id request_id refl) refl)
        ]) in
    rw (execute_once, known) refl

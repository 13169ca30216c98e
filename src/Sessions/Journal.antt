-- ===== src/Sessions/Journal.antt =====
-- `JobJournal` and `Client` (src/lib.rs, module `sessions`).
use devicelane.Shared.{
  ℕ, ◌+◌, Option, none, some, List, [], ◌∷◌, ◌++◌, String, string_eq, Bytes, ltb, length, retain,
  Result, ok, ◌>>◌, reject,
}
use devicelane.Map.{Map, get, insert}

pub data ResumeError : Type 0 where
  cursor_ahead : ResumeError

pub record ProtocolVersion : Type 0 where
  pub major : ℕ
  pub minor : ℕ

pub record Event : Type 0 where
  pub version : Option ProtocolVersion
  pub job_id : String
  pub sequence : ℕ
  pub kind : String
  pub payload : Bytes

-- `RequestResult`: the id of the job.
pub record RequestResult : Type 0 where
  pub job_id : String

pub record JobJournal : Type 0 where
  pub events : Map String (List Event)
  pub requests : Map String RequestResult

abbrev pub new : JobJournal
new = record { events = []; requests = [] }

abbrev pub unwrap_or_default : Option (List Event) → List Event
unwrap_or_default none = []
unwrap_or_default (some events) = events

abbrev pub events_of : JobJournal → String → List Event
events_of s job_id = unwrap_or_default (get job_id s.events)

unfoldable pub append : JobJournal → String → String → Bytes → JobJournal
append s job_id kind payload =
    let event : Event = record {
      version = none;
      job_id = job_id;
      sequence = length (events_of s job_id) + 1;
      kind = kind;
      payload = payload;
    } in
    record s { events = insert job_id (events_of s job_id ++ event ∷ []) s.events }

unfoldable pub resume : JobJournal → String → ℕ → Result ResumeError (List Event)
resume s job_id last_seen_sequence = do
  reject (ltb (length (events_of s job_id)) last_seen_sequence) cursor_ahead
  ok (retain (λ event. ltb last_seen_sequence event.sequence) (events_of s job_id))

-- The operation acts on a world of its own.
unfoldable pub execute_once {ℓ} :
    {W : Type ℓ}
    → JobJournal
    → String
    → (W → W × RequestResult)
    → W
    → (JobJournal × W) × RequestResult
execute_once s request_id operation world = elim (get request_id s.requests) [
  | some result ↦ ((s, world), result)
  | none ↦
      let done = operation world in
      ((record s { requests = insert request_id done.1 s.requests }, done.0), done.1)
]

pub record Client : Type 0 where
  pub job_id : String
  pub last_acknowledged_sequence : ℕ

abbrev pub new_client : String → Client
new_client job_id = record { job_id = job_id; last_acknowledged_sequence = 0 }

abbrev pub acknowledge : Client → ℕ → Client
acknowledge c sequence = record c { last_acknowledged_sequence = sequence }

-- The events that a connection iterates over.
unfoldable pub connect : Client → JobJournal → Result ResumeError (List Event)
connect c journal = resume journal c.job_id c.last_acknowledged_sequence

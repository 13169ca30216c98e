-- ===== src/Dashboard/Model.antt =====
-- The dashboard's data model (src/dashboard/model.rs): the classes, the activity event and its
-- validation. An identifier (`define_id!`) is a newtype over a string, modelled by the string.
use devicelane.Shared.{
  ℕ, ◌+◌, Option, none, some, List, [], ◌∷◌, String, Eq, ltb, is_some, is_none, length, contains,
  Result, ok, ◌>>◌, reject,
}

abbrev pub max_collection_items : ℕ
max_collection_items = 128

pub data ResourceClass : Type 0 where
  workspace_read workspace_write artifact_upload artifact_download device_lease : ResourceClass
  application_install application_launch debugger signing microphone : ResourceClass
  screen_capture network_endpoint devicelane_policy devicelane_service : ResourceClass

unfoldable pub ResourceClass-discrete : Discrete ResourceClass
ResourceClass-discrete = hlevel

instance abbrev pub resource_eq : Eq ResourceClass
resource_eq = record { dec = ResourceClass-discrete }

pub data ActivityState : Type 0 where
  awaiting_approval queued running reconnecting succeeded failed denied cancelled : ActivityState

pub data PolicyEffect : Type 0 where
  allow deny : PolicyEffect

pub data MetricValue : Type 0 where
  available : ℕ → MetricValue
  unavailable : String → MetricValue

pub record MetricSnapshot : Type 0 where
  pub current_memory_bytes : MetricValue
  pub peak_memory_bytes : MetricValue
  pub cpu_time_ms : MetricValue
  pub process_count : MetricValue

pub record Authorization : Type 0 where
  pub effect : PolicyEffect
  pub rule_id : Option String
  pub approval_id : Option String

pub data MessageCode : Type 0 where
  activity_started registry_stale observer_unavailable operation_succeeded : MessageCode
  operation_failed target_offline registry_disconnected daemon_restarted : MessageCode
  event_resync_required audit_unavailable approval_expired policy_denied : MessageCode
  lease_stale operation_cancelled agent_incompatible access_denied : MessageCode
  target_confirmation_required redacted : MessageCode

pub data MessageParam : Type 0 where
  local remote allowed denied unavailable : MessageParam

pub record DisplayMessage : Type 0 where
  pub code : MessageCode
  pub params : List MessageParam

pub record ActivityEvent : Type 0 where
  pub activity_id : String
  pub sequence : ℕ
  pub occurred_at_ms : ℕ
  pub principal_id : String
  pub source_host_id : String
  pub target_host_id : String
  pub device_id : Option String
  pub operation : String
  pub resources : List ResourceClass
  pub remote_operation_sha256 : Option String
  pub authorization : Authorization
  pub state : ActivityState
  pub message : Option DisplayMessage
  pub metrics : MetricSnapshot
  pub started_at_ms : Option ℕ
  pub finished_at_ms : Option ℕ

pub record EventCursor : Type 0 where
  pub epoch : ℕ
  pub sequence : ℕ

pub record ValidationError : Type 0 where
  pub code : String
  pub path : String
  pub index : Option ℕ

abbrev pub error_at : String → String → ValidationError
error_at code path = record { code = code; path = path; index = none }

abbrev pub error_at_index : String → String → ℕ → ValidationError
error_at_index code path i = record { code = code; path = path; index = some i }

pub validate_len : ℕ → String → Result ValidationError (Unit {0})
validate_len length path =
    reject (ltb max_collection_items length) (error_at "collection_too_large" path)

-- The loop, with the index of its next element and what the hash set holds.
pub unique_from : ℕ → List ResourceClass → List ResourceClass → Result ValidationError (Unit {0})
unique_from i seen [] = ok tt
unique_from i seen (r ∷ rs) = do
  reject (contains seen r) (error_at_index "duplicate_resource_class" "resources" i)
  unique_from (i + 1) (r ∷ seen) rs

unfoldable pub validate_unique_resources : List ResourceClass → Result ValidationError (Unit {0})
unfolding validate_len unique_from
validate_unique_resources resources = do
  validate_len (length resources) "resources"
  unique_from 0 [] resources

unfoldable pub validate_metrics : MetricSnapshot → Result ValidationError (Unit {0})
validate_metrics m = elim m.current_memory_bytes [
  | available current ↦ elim m.peak_memory_bytes [
    | available peak ↦
        reject (ltb peak current) (error_at "invalid_metric_snapshot" "metrics.peak_memory_bytes")
    | unavailable _ ↦ ok tt
  ]
  | unavailable _ ↦ ok tt
]

-- The timestamps that a state must have, and those that it must not.
validate_stamps : ActivityState → Option ℕ → Option ℕ → Result ValidationError (Unit {0})
validate_stamps state started finished = elim state [
  | awaiting_approval ↦ idle
  | queued ↦ idle
  | running ↦ live
  | reconnecting ↦ live
  | succeeded ↦ done
  | failed ↦ done
  | denied ↦ ended
  | cancelled ↦ ended
]
  where
    idle : Result ValidationError (Unit {0})
    idle = do
      reject (is_some started) (error_at "unexpected_started_at" "started_at_ms")
      reject (is_some finished) (error_at "unexpected_finished_at" "finished_at_ms")

    live : Result ValidationError (Unit {0})
    live = do
      reject (is_none started) (error_at "missing_started_at" "started_at_ms")
      reject (is_some finished) (error_at "unexpected_finished_at" "finished_at_ms")

    ended : Result ValidationError (Unit {0})
    ended = reject (is_none finished) (error_at "missing_finished_at" "finished_at_ms")

    done : Result ValidationError (Unit {0})
    done = do reject (is_none started) (error_at "missing_started_at" "started_at_ms"); ended

-- `if let (Some(a), Some(b)) = (first, second) { if a > b { return Err(..) } }`.
ordered : Option ℕ → Option ℕ → String → Result ValidationError (Unit {0})
ordered (some a) (some b) path = reject (ltb b a) (error_at "non_monotonic_time" path)
ordered _ _ path = ok tt

unfoldable pub validate_lifecycle :
    ActivityState → Option ℕ → Option ℕ → Option ℕ → Result ValidationError (Unit {0})
unfolding validate_stamps ordered
validate_lifecycle state started finished occurred = do
  validate_stamps state started finished
  ordered started occurred "occurred_at_ms"
  ordered started finished "finished_at_ms"
  ordered occurred finished "finished_at_ms"

-- `ActivityEvent::validate`.
unfoldable pub validate_event : ActivityEvent → Result ValidationError (Unit {0})
unfolding validate_unique_resources validate_metrics validate_lifecycle
validate_event e = do
  validate_unique_resources e.resources
  validate_metrics e.metrics
  validate_lifecycle e.state e.started_at_ms e.finished_at_ms (some e.occurred_at_ms)

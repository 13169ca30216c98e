-- ===== src/Dashboard/Journal/Tests.antt =====
-- Tests of the journal, and the theorems at concrete inputs (src/dashboard/event_log.rs).
use devicelane.Shared.{
  ℕ, ◌+◌, ◌≡◌, ◌≢◌, ◌<◌, ◌≤◌, ◌⊎◌, refl, none, some, List, [], ◌∷◌, String, Result, ok, err, true,
  arith, ap, len, string_eq, retain, ℕ_discrete,
}
use devicelane.Shared.{string_discrete}
use devicelane.Dashboard.Model.{ResourceClass-discrete, validate_event}
use devicelane.Dashboard.Journal.Append.{AppendError, append_error, preflight_append}
use devicelane.Dashboard.Journal.Attendance.{run-subscribers}
use devicelane.Dashboard.Journal.Preflight.{preflight_append-Accepted}
use devicelane.Map.{get}
use devicelane.Dashboard.Model.{
  ActivityEvent, EventCursor, workspace_read, running, allow, unavailable,
}
use devicelane.Dashboard.Journal.State.{Inner, StoredEvent, Codec, Subscriber}
use devicelane.Dashboard.Journal.Append.{Appending, append_with_precommit}
use devicelane.Dashboard.Journal.Read.{ReadLimit, page, read_filtered, fill, unread}
use devicelane.Dashboard.Journal.Subscribers.{acknowledge}
use devicelane.Dashboard.Journal.Invariant.{IsJournal}
use devicelane.Dashboard.Journal.Outcome.{Transacts}
use devicelane.Dashboard.Journal.Transaction.{append_with_precommit_lem}
use devicelane.Dashboard.Journal.Filling.{events_of}
use devicelane.Dashboard.Journal.Paging.{IsPage, read_filtered-IsPage}
use devicelane.Dashboard.Journal.Delivery.{drain, drain-delivers}
use devicelane.Dashboard.Journal.Acknowledgement.{Acknowledges, acknowledge-Acknowledges}
use devicelane.Dashboard.Journal.History.{
  Call, appends, subscribes, acknowledges, expires, rotates, run, run-IsJournal,
}

-- A codec that writes the activity's sequence and its time.
abbrev codec : Codec
codec = record { to_vec = λ e. ok (e.sequence ∷ e.occurred_at_ms ∷ []); sha256 = λ bytes. bytes }

abbrev event : String → ℕ → ActivityEvent
event activity sequence = record {
  activity_id = activity;
  sequence = sequence;
  occurred_at_ms = 20;
  principal_id = "alice";
  source_host_id = "laptop";
  target_host_id = "mac";
  device_id = none;
  operation = "apple.build_app";
  resources = workspace_read ∷ [];
  remote_operation_sha256 = none;
  authorization = record { effect = allow; rule_id = none; approval_id = none };
  state = running;
  message = none;
  metrics = record {
    current_memory_bytes = unavailable "off";
    peak_memory_bytes = unavailable "off";
    cpu_time_ms = unavailable "off";
    process_count = unavailable "off";
  };
  started_at_ms = some 10;
  finished_at_ms = none;
}

abbrev empty_journal : Inner
empty_journal = record {
  epoch = 3;
  snapshot_revision = 9;
  next_cursor_sequence = 1;
  events = [];
  serialized_bytes = 0;
  idempotency = [];
  activity_sequences = [];
  subscribers = [];
  max_events = 2;
  max_bytes = 100;
}

abbrev stored : ℕ → String → ActivityEvent → StoredEvent
stored cursor key e = record {
  cursor_sequence = cursor;
  event = e;
  serialized_bytes = 2;
  idempotency_key = key;
}

-- Two events of one activity are retained, and a third has been evicted.
abbrev journal : Inner
journal = record empty_journal {
  next_cursor_sequence = 4;
  events = stored 2 "k2" (event "a" 2) ∷ stored 3 "key3" (event "a" 3) ∷ [];
  serialized_bytes = 4;
  idempotency = ("k2", 2 ∷ 20 ∷ []) ∷ ("key3", 3 ∷ 20 ∷ []) ∷ [];
  activity_sequences = ("a", 3) ∷ [];
  subscribers =
      ("s", record { acknowledged = record { epoch = 3; sequence = 1 }; last_active_ms = 100 })
      ∷ [];
}

abbrev at : ℕ → EventCursor
at sequence = record { epoch = 3; sequence = sequence }

keys_differ : ◌≢◌ {A = String} "k2" "key3"
keys_differ = λ p. absurd (omega (arith, ap len p))

journal-IsJournal : IsJournal codec journal
unfolding get
journal-IsJournal = record {
  log = record {
    below = omega arith;
    numbered = (refl, (refl, tt));
    measured = refl;
    distinct = ((keys_differ, tt), (tt, tt));
    indexed = λ key. refl;
    encoded = ((_, refl, refl), ((_, refl, refl), tt));
  };
  in_u64 = omega arith;
  few = omega arith;
  small = omega arith;
  few_at_most = omega arith;
  small_at_most = omega arith;
  activities = omega arith;
  audience = omega arith;
  unique = (tt, tt);
  heard = ((refl, omega arith), tt);
}

granted : ℕ → ℕ × Result String (Unit {0})
granted w = (w + 1, ok tt)

append_with_precommit_lem_example :
    (q : Appending ℕ String) × (append_with_precommit codec journal "k4" (event "a" 4) granted 7
      ≡ some q)
    × IsJournal codec q.0
    × Transacts codec journal "k4" (event "a" 4) granted 7 q
append_with_precommit_lem_example =
    append_with_precommit_lem codec journal "k4" (event "a" 4) granted 7 journal-IsJournal

abbrev calls : List Call
calls =
    subscribes "t" 150
    ∷ appends "k4" (event "a" 4) (ok tt)
    ∷ appends "k5" (event "b" 1) (err tt)
    ∷ acknowledges "t" (at 4) 160
    ∷ expires 900000
    ∷ rotates 4 10
    ∷ []

run-IsJournal_example :
    (after : Inner) × (run codec journal calls ≡ some after) × IsJournal codec after
run-IsJournal_example = run-IsJournal codec journal calls journal-IsJournal

-- The last expiry is as late as a subscriber may be idle.
abbrev others_calls : List Call
others_calls =
    subscribes "t" 150
    ∷ appends "k4" (event "a" 4) (ok tt)
    ∷ acknowledges "t" (at 4) 160
    ∷ expires 15100
    ∷ []

run-subscribers_example :
    (t : Inner) × (run codec journal others_calls ≡ some t)
    × ((journal.epoch < t.epoch)
        ⊎ ((q : Subscriber) × (t.epoch ≡ journal.epoch)
            × (get "s" t.subscribers ≡ some q)
            × (1 ≤ q.acknowledged.sequence)
            × (100 ≤ q.last_active_ms)))
unfolding get
run-subscribers_example =
    run-subscribers codec journal "s" (record { acknowledged = at 1; last_active_ms = 100 })
      others_calls journal-IsJournal (ground arith) (tt, (tt, (omega arith, (omega arith, tt))))

abbrev limit : ReadLimit
limit = record { max_events = 1; max_bytes = 50 }

page_of_one : read_filtered journal (at 1) limit (λ _. true) ≡ page (event "a" 2 ∷ []) (at 2)
unfolding read_filtered fill ℕ_discrete
page_of_one = refl

read_filtered-IsPage_example : IsPage journal (at 1) limit (λ _. true) (event "a" 2 ∷ []) (at 2)
read_filtered-IsPage_example =
    read_filtered-IsPage codec journal (at 1) limit (λ _. true) journal-IsJournal (event "a" 2 ∷ [])
      (at 2) page_of_one

drain-delivers_example :
    drain 2 journal (at 1) limit (λ _. true)
    ≡ events_of (retain (λ _. true) (unread 1 journal.events))
drain-delivers_example =
    drain-delivers codec journal limit (λ _. true) journal-IsJournal (omega arith) (omega arith)
      (omega arith, (omega arith, tt)) 2 (at 1)
      (record { epoch = refl; ahead = omega arith; behind = λ oldest o. ground (arith, o) })
      (omega arith)

acknowledge-Acknowledges_example :
    Acknowledges journal "s" (at 3) (acknowledge journal "s" (at 3) 200)
acknowledge-Acknowledges_example =
    acknowledge-Acknowledges codec journal journal-IsJournal "s" (at 3) 200

preflight_passes : preflight_append codec journal "k4" (event "a" 4) ≡ ok tt
unfolding preflight_append get ℕ_discrete string_discrete ResourceClass-discrete validate_event
preflight_passes = refl

preflight_append-Accepted_example :
    (q : Appending ℕ String) × (append_with_precommit codec journal "k4" (event "a" 4) granted 7
      ≡ some q)
    × ((e : AppendError) → q.2 ≢ err (append_error e))
preflight_append-Accepted_example =
    preflight_append-Accepted codec journal "k4" (event "a" 4) preflight_passes (omega arith)
      (omega arith) granted 7 journal-IsJournal

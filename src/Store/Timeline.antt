-- ===== src/Store/Timeline.antt =====
-- internal/store/timeline.go and the events of internal/store/store.go: the outbox of a run's
-- events, and the timeline of an agent. Children have the proofs.
pub mod Page
pub mod Retry
pub mod Worker
pub mod Outbox
use codexbot.Common.{
  ℕ, suc, ◌+◌, Bool, true, false, not, ◌&&◌, ◌||◌, String, List, [], ◌∷◌, Option, none, some, any,
  find?, select, take, insert, ◌==◌, ltb, eqb, if◌then◌else◌, ℤ, pos, negsuc, Fault, not_found,
  refused, constraint, Result, ok, err, ◌>>=◌, ◌>>◌, guard, or_fail,
}
use mathlib.Core.List.{reverse, foldl}
use codexbot.Clock.{Time}
use codexbot.Domain.Records.{
  Run, RunStatus, RunSource, Event, Payload, raw, object, DedupKey, is_scheduled,
}
use codexbot.Store.Database.{Db, TimelineRow, agent_exists}

unfoldable pub run_status_eq : RunStatus → RunStatus → Bool
run_status_eq RunStatus.queued RunStatus.queued = true
run_status_eq RunStatus.running RunStatus.running = true
run_status_eq RunStatus.completed RunStatus.completed = true
run_status_eq RunStatus.failed RunStatus.failed = true
run_status_eq RunStatus.interrupted RunStatus.interrupted = true
run_status_eq RunStatus.unknown RunStatus.unknown = true
run_status_eq RunStatus.skipped_overlap RunStatus.skipped_overlap = true
run_status_eq _ _ = false

-- dedup_key=?
unfoldable pub key_eq : DedupKey → DedupKey → Bool
unfolding run_status_eq
key_eq (DedupKey.input a) (DedupKey.input b) = a == b
key_eq (DedupKey.receipt a) (DedupKey.receipt b) = a == b
key_eq (DedupKey.reset a) (DedupKey.reset b) = a == b
key_eq (DedupKey.given a) (DedupKey.given b) = a == b
key_eq (DedupKey.run_terminal a s) (DedupKey.run_terminal b t) = a == b && run_status_eq s t
key_eq (DedupKey.worker a n) (DedupKey.worker b m) = a == b && eqb n m
key_eq (DedupKey.task_status a n) (DedupKey.task_status b m) = a == b && eqb n m
key_eq _ _ = false

-- NULL equals no key.
abbrev pub meets_key : DedupKey → Option DedupKey → Bool
meets_key k none = false
meets_key k (some j) = key_eq j k

-- WHERE agent_id=? AND dedup_key=?
abbrev pub has_dedup_key : String → DedupKey → TimelineRow → Bool
has_dedup_key agent k row = row.agent_id == agent && meets_key k row.dedup_key

-- EXISTS(SELECT 1 FROM runs WHERE id=? AND substr(source,1,9)='schedule:')
abbrev pub is_scheduled_run : Db → String → Bool
is_scheduled_run db run_id = any (λ r. r.id == run_id && is_scheduled r.source) db.runs

-- The zero value of domain.Event.
abbrev pub no_event : Event
no_event = record { run_id = ""; sequence = 0; typ = ""; payload = raw ""; created_at = 0 }

abbrev pub event_of : TimelineRow → Event
event_of row = record {
  run_id = row.run_id;
  sequence = row.sequence;
  typ = row.typ;
  payload = row.payload;
  created_at = row.created_at;
}

abbrev pub meets_sequence : ℕ → Option ℕ → Bool
meets_sequence n none = false
meets_sequence n (some m) = eqb m n

-- UNIQUE(run_id,source_sequence), for a row that is to be inserted.
abbrev pub source_taken : Db → String → Option ℕ → Bool
source_taken db run_id none = false
source_taken db run_id (some n) =
    any (λ row. row.run_id == run_id && meets_sequence n row.source_sequence) db.agent_timeline

-- The rows with the key, of which there is at most one; without a key there is none.
abbrev pub row_with_key : Db → String → Option DedupKey → Option TimelineRow
row_with_key db agent none = none
row_with_key db agent (some k) = find? (has_dedup_key agent k) db.agent_timeline

-- INSERT INTO agent_timeline ... ON CONFLICT(agent_id,dedup_key) DO NOTHING, and what the caller
-- then reads.
unfoldable pub insert_timeline :
    String
    → String
    → String
    → Payload
    → Time
    → Option DedupKey
    → Option ℕ
    → Db
    → Option TimelineRow
    → Result (Event × Db)
insert_timeline agent run_id typ payload created key source db (some row) = ok (event_of row, db)
insert_timeline agent run_id typ payload created key source db none = do
  guard (not (source_taken db run_id source)) constraint
  guard (agent_exists db agent) constraint
  let row : TimelineRow = record {
    sequence = db.next_timeline;
    agent_id = agent;
    run_id = run_id;
    typ = typ;
    payload = payload;
    created_at = created;
    dedup_key = key;
    source_sequence = source;
  }
  ok (
    event_of row,
    record db {
      agent_timeline = insert row db.agent_timeline;
      next_timeline = db.next_timeline + 1;
    },
  )

-- appendTimelineEvent: a scheduled run has no entries.
unfoldable pub append_timeline :
    String
    → String
    → String
    → Payload
    → Time
    → Option DedupKey
    → Option ℕ
    → Db
    → Result (Event × Db)
unfolding insert_timeline
append_timeline agent run_id typ payload created key source db =
    if not (run_id == "") && is_scheduled_run db run_id
    then ok (no_event, db)
    else insert_timeline agent run_id typ payload created key source db (row_with_key db agent key)

-- AppendTimelineEvent. The empty key is none.
unfoldable pub append_timeline_event :
    String → String → String → Payload → String → Time → Db → Result (Event × Db)
append_timeline_event agent run_id typ payload key now db = do
  guard (run_id == "" || any (λ r. r.id == run_id && r.agent_id == agent) db.runs) not_found
  append_timeline agent run_id typ payload now
      (if key == "" then none else some (DedupKey.given key)) none db

-- WHERE run_id=? AND sequence=?
abbrev pub has_sequence : String → ℕ → Event → Bool
has_sequence run_id n e = e.run_id == run_id && eqb e.sequence n

-- appendStoredEvent: the row of events, under its primary key, and the entry of the timeline.
unfoldable pub append_stored_event : String → ℕ → String → String → Time → Db → Result Db
append_stored_event run_id sequence typ payload now db = do
  guard (not (any (has_sequence run_id sequence) db.events)) constraint
  run ← or_fail (find? (λ r. r.id == run_id) db.runs) constraint
  let event : Event = record {
    run_id = run_id;
    sequence = sequence;
    typ = typ;
    payload = raw payload;
    created_at = now;
  }
  (_, db') ←
      append_timeline run.agent_id run_id typ (raw payload) now
        (some (DedupKey.worker run_id sequence)) (some sequence)
        (record db { events = insert event db.events })
  ok db'

-- bytes.Equal
abbrev pub is_bytes : String → Payload → Bool
is_bytes b (raw p) = p == b
is_bytes b (object f) = false

abbrev pub same_content : String → String → Event → Bool
same_content typ payload e = e.typ == typ && is_bytes payload e.payload

-- AppendWorkerEvent, for the event found at the sequence.
unfoldable pub append_at :
    String → ℕ → String → String → Time → Db → Option Event → Result (Event × Db)
append_at run_id n typ payload now db (some existing) =
    if same_content typ payload existing then ok (existing, db) else err refused
append_at run_id n typ payload now db none = do
  db' ← append_stored_event run_id n typ payload now db
  ok (
    record { run_id = run_id; sequence = n; typ = typ; payload = raw payload; created_at = now },
    db',
  )

-- AppendWorkerEvent
unfoldable pub append_worker_event : String → ℤ → String → String → Time → Db → Result (Event × Db)
append_worker_event run_id (negsuc n) typ payload now db = err refused
append_worker_event run_id (pos n) typ payload now db = do
  guard (not (ltb n 1)) refused
  append_at run_id n typ payload now db (find? (has_sequence run_id n) db.events)

-- COALESCE(MAX(sequence),0) of a run's events
unfoldable pub max_sequence : String → List Event → ℕ
max_sequence run_id [] = 0
max_sequence run_id (e ∷ es) =
    let rest = max_sequence run_id es in
    if e.run_id == run_id then (if ltb rest e.sequence then e.sequence else rest) else rest

-- MaxEventSequence
unfoldable pub max_event_sequence : String → Db → ℕ
unfolding max_sequence
max_event_sequence run_id db = max_sequence run_id db.events

-- AppendEvent
unfoldable pub append_event : String → String → String → Time → Db → Result (Event × Db)
append_event run_id typ payload now db = do
  let n = max_event_sequence run_id db + 1
  db' ← append_stored_event run_id n typ payload now db
  ok (
    record { run_id = run_id; sequence = n; typ = typ; payload = raw payload; created_at = now },
    db',
  )

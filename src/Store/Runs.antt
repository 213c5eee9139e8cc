-- ===== src/Store/Runs.antt =====
-- The runs of internal/store/store.go, with the entries that they make in the timeline. Children
-- have the proofs.
pub mod Active
use codexbot.Common.{
  ℕ, Bool, true, false, not, ◌&&◌, ◌||◌, String, List, [], ◌∷◌, ◌++◌, Option, none, some, any,
  find?, update, insert, ◌==◌, eqb, if◌then◌else◌, not_found, constraint, Result, ok, err, ◌>>=◌,
  ◌>>◌, guard, or_fail,
}
use codexbot.Clock.{Time}
use codexbot.Domain.Text.{concat}
use codexbot.Domain.Records.{Run, RunStatus, RunSource, Payload, object, DedupKey, is_active}
use codexbot.Store.Database.{Db, agent_exists, conversation_exists}
use codexbot.Store.Timeline.{append_timeline}

abbrev pub run_with_id : String → Run → Bool
run_with_id id r = r.id == id

unfoldable pub source_eq : RunSource → RunSource → Bool
source_eq (RunSource.schedule a) (RunSource.schedule b) = a == b
source_eq (RunSource.collaboration a) (RunSource.collaboration b) = a == b
source_eq (RunSource.other a) (RunSource.other b) = a == b
source_eq _ _ = false

abbrev pub same_time : Option Time → Option Time → Bool
same_time (some a) (some b) = eqb a b
same_time _ _ = false

-- agent_id=? AND status IN ('queued','running')
abbrev pub active_for : String → Run → Bool
active_for agent r = r.agent_id == agent && is_active r.status

-- UNIQUE(source, scheduled_for): NULLs differ.
abbrev pub same_slot : Run → Run → Bool
same_slot r o = source_eq o.source r.source && same_time o.scheduled_for r.scheduled_for

-- INSERT INTO runs, with the constraints of the schema: runs_one_active_per_agent_idx among them.
unfoldable pub insert_run : Run → Db → Result Db
insert_run r db = do
  guard (not (any (run_with_id r.id) db.runs)) constraint
  guard (agent_exists db r.agent_id && conversation_exists db r.conversation_id) constraint
  guard (not (any (same_slot r) db.runs)) constraint
  guard (not (is_active r.status && any (active_for r.agent_id) db.runs)) constraint
  ok (record db { runs = insert r db.runs })

unfoldable pub status_text : RunStatus → String
status_text RunStatus.queued = "queued"
status_text RunStatus.running = "running"
status_text RunStatus.completed = "completed"
status_text RunStatus.failed = "failed"
status_text RunStatus.interrupted = "interrupted"
status_text RunStatus.unknown = "unknown"
status_text RunStatus.skipped_overlap = "skipped_overlap"

abbrev pub is_skipped : RunStatus → Bool
is_skipped RunStatus.skipped_overlap = true
is_skipped _ = false

unfoldable pub source_text : RunSource → String
source_text (RunSource.schedule s) = concat "schedule:" s
source_text (RunSource.collaboration t) = concat "collaboration:" t
source_text (RunSource.other s) = s

-- The fields that a delegated run's input has besides, with the sender if the task is found.
abbrev pub task_fields : Db → Run → List (String × String)
task_fields db r = by_source r.source
  where
    sender : Option String → List (String × String)
    sender = elim [ none ↦ [] | some s ↦ ("senderAgentId", s) ∷ [] ]

    sender_of : String → Option String
    sender_of task =
        elim (find? (λ t. t.id == task && t.target_agent_id == r.agent_id) db.collaboration_tasks) [
          | none ↦ none
          | some t ↦ some t.sender_agent_id
        ]

    by_source : RunSource → List (String × String)
    by_source = elim [
      | RunSource.schedule s ↦ []
      | RunSource.collaboration task ↦ ("taskId", task) ∷ sender (sender_of task)
      | RunSource.other s ↦ []
    ]

-- The input of a run as the timeline shows it.
unfoldable pub run_input : Db → Run → Payload
unfolding source_text
run_input db r = object (
    ("id", concat "user-" r.id)
    ∷ (if is_skipped r.status
        then ("message", concat "Scheduled task skipped because the agent remained busy: " r.prompt)
        else ("text", r.prompt))
    ∷ ("source", source_text r.source)
    ∷ task_fields db r)

-- appendRunInput
unfoldable pub append_run_input : Run → Time → Db → Result Db
append_run_input r now db = do
  let typ = if is_skipped r.status then "warning" else "message.user"
  (_, db') ←
      append_timeline r.agent_id r.id typ (run_input db r) now (some (DedupKey.input r.id)) none db
  ok db'

-- The end of a run as the timeline shows it.
abbrev pub terminal_payload : String → RunStatus → String → Payload
terminal_payload run_id status message =
    object (
      ("id", concat "run-status-" run_id)
      ∷ ("status", status_text status)
      ∷ ("error", message)
      ∷ [])

-- appendRunTerminal
unfoldable pub append_run_terminal : String → String → RunStatus → String → Time → Db → Result Db
append_run_terminal agent run_id status message now db = do
  (_, db') ←
      append_timeline agent run_id "run.status" (terminal_payload run_id status message) now
        (some (DedupKey.run_terminal run_id status)) none db
  ok db'

-- The row that CreateRun inserts: the times of its start and end are NULL.
abbrev pub new_run : Run → Run
new_run r = record r { started_at = none; finished_at = none; error = "" }

-- CreateRun
unfoldable pub create_run : Run → Time → Db → Result Db
unfolding insert_run
create_run r now db = do db' ← insert_run (new_run r) db; append_run_input r now db'

unfoldable pub started : String → Time → Run → Run
started turn now r = record r {
  codex_turn_id = turn;
  status = RunStatus.running;
  started_at = some now;
}

-- An active run of the agent other than the one with the identifier.
abbrev pub other_active : String → String → Run → Bool
other_active id agent r = not (r.id == id) && active_for agent r

-- SetRunStarted, for the run that the identifier finds.
unfoldable pub start_found : String → String → Time → Db → Option Run → Result Db
unfolding started
start_found id turn now db none = ok db
start_found id turn now db (some r) = do
  guard (not (any (other_active id r.agent_id) db.runs)) constraint
  ok (record db { runs = update (run_with_id id) (started turn now) db.runs })

-- SetRunStarted
unfoldable pub set_run_started : String → String → Time → Db → Result Db
unfolding start_found
set_run_started id turn now db = start_found id turn now db (find? (run_with_id id) db.runs)

unfoldable pub finished : RunStatus → String → Time → Run → Run
finished status message now r = record r {
  status = status;
  error = message;
  finished_at = some now;
}

-- An active status given to a run whose agent has another active one, which the index refuses.
abbrev pub is_taken : RunStatus → List Run → Option Run → Bool
is_taken status rs none = false
is_taken status rs (some r) = is_active status && any (other_active r.id r.agent_id) rs

-- FinishRun
unfoldable pub finish_run : String → RunStatus → String → Time → Db → Result Db
unfolding finished
finish_run id status message now db = do
  guard (not (is_taken status db.runs (find? (run_with_id id) db.runs))) constraint
  let db' = record db { runs = update (run_with_id id) (finished status message now) db.runs }
  r ← or_fail (find? (run_with_id id) db'.runs) not_found
  append_run_terminal r.agent_id id status message now db'

-- AgentBusy
unfoldable pub agent_busy : String → Db → Bool
agent_busy agent db = any (active_for agent) db.runs

-- Run
unfoldable pub run : String → Db → Result Run
run id db = or_fail (find? (run_with_id id) db.runs) not_found

-- ActiveRun: an agent has at most one.
unfoldable pub active_run : String → Db → Result Run
active_run agent db = or_fail (find? (active_for agent) db.runs) not_found

-- ===== src/Server/Api.antt =====
-- The collaboration API of internal/httpapi/collaboration.go: how an agent sends a task, reads one
-- and cancels one. A handler answers from the store alone. Children have the
-- reading of a task and the proofs.
pub mod Read
pub mod Pages
pub mod Private
pub mod Cancelled
pub mod Errors
use codexbot.Common.{
  max, ℕ, suc, ◌+◌, ◌*◌, Bool, true, false, not, ◌&&◌, ◌||◌, String, List, [], ◌∷◌, Option, none,
  some, length, take, ◌==◌, ltb, is_empty, if◌then◌else◌, ℤ, pos, negsuc, Fault, conflict,
  queue_full, invalid_task, Result, ok, err,
}
use codexbot.Clock.{Time}
use codexbot.Domain.Text.{byte_length, is_blank}
use codexbot.Domain.Task.{CollaborationTask}
use codexbot.Domain.Records.{Event, Run}
use codexbot.Store.Database.{Db}
use codexbot.Store.Agents.{agent}
use codexbot.Store.Runs.{run, active_run}
use codexbot.Store.Sync.{sync_collaboration_timeline}
use codexbot.Store.Tasks.Enqueue.{TaskRequest, enqueue_collaboration_task}
use codexbot.Store.Tasks.Delivery.{
  collaboration_task, cancel_collaboration_task_with_reason, reconcile_collaboration_tasks,
  is_own_source,
}
use codexbot.Store.Timeline.Outbox.{events_after_limit}

-- An answer of HTTP with its status.
pub data HttpReply {ℓ} (A : Type ℓ) : Type ℓ where
  answer : ℕ → A → HttpReply A
  http_error : ℕ → String → HttpReply A

pub record SendRequest : Type 0 where
  pub target_agent_id : String
  pub prompt : String
  pub mode : String
  pub completion_mode : String
  pub idempotency_key : String

-- What a handler meets: a new identifier, the readings of the clock, the texts of errors, the size
-- of an event's JSON and the preview of a long payload, and whether the transaction of the timeline
-- succeeds.
pub record Request : Type 0 where
  pub uuid : String
  pub now : Time
  pub later : Time
  pub error_text : Fault → String
  pub size : Event → ℕ
  pub preview : String → String
  pub syncs : Bool

abbrev pub is_acceptable : SendRequest → Bool
is_acceptable s = not (
    is_blank s.prompt
    || ltb (64 * 1024) (byte_length s.prompt)
    || is_blank s.idempotency_key
    || ltb 128 (byte_length s.idempotency_key))

abbrev pub or_default : String → String → String
or_default text default = if text == "" then default else text

abbrev pub is_mode : String → Bool
is_mode s = s == "queue" || s == "steer"

abbrev pub is_completion_mode : String → Bool
is_completion_mode s = s == "poll" || s == "notify"

abbrev pub fault_status : Fault → ℕ
fault_status conflict = 409
fault_status queue_full = 429
fault_status invalid_task = 400
fault_status _ = 500

-- The sender's active run, if there is one.
abbrev pub run_id_or_none : Result Run → String
run_id_or_none (ok r) = r.id
run_id_or_none (err e) = ""

abbrev pub task_request : Request → String → SendRequest → Db → TaskRequest
task_request q sender s db = record {
  id = q.uuid;
  sender_agent_id = sender;
  sender_run_id = run_id_or_none (active_run sender db);
  target_agent_id = s.target_agent_id;
  idempotency_key = s.idempotency_key;
  prompt = s.prompt;
  mode = or_default s.mode "queue";
  completion_mode = or_default s.completion_mode "poll";
  completion_task_id = "";
  notification_for_task_id = "";
}

abbrev pub accepted_text : String
accepted_text = "task accepted but timeline update failed; retry with the same idempotencyKey"

-- The answer to a submission: 202 for a new task, 200 for the one of an earlier attempt. The task is
-- stored before the timelines, whose failed transaction is rolled back.
unfoldable pub answer_submission :
    Request → Db → Result (CollaborationTask × Bool × Db) → HttpReply CollaborationTask × Db
answer_submission q db (ok (t, created, db')) =
    if q.syncs
    then (answer (if created then 202 else 200) t, sync_collaboration_timeline db')
    else (http_error 500 accepted_text, db')
answer_submission q db (err e) = (http_error (fault_status e) (q.error_text e), db)

-- After the checks of the request: the target.
unfoldable pub send_to :
    Request → String → SendRequest → Db → Bool → HttpReply CollaborationTask × Db
unfolding answer_submission
send_to q sender s db false = (http_error 404 "target agent not found", db)
send_to q sender s db true =
    answer_submission q db
      (enqueue_collaboration_task (task_request q sender s db) q.uuid q.now q.later db)

abbrev pub is_found {ℓ} : {A : Type ℓ} → Result A → Bool
is_found (ok a) = true
is_found (err e) = false

-- collaborationSend, for a decoded request
unfoldable pub collaboration_send :
    Request → String → SendRequest → Db → HttpReply CollaborationTask × Db
unfolding send_to
collaboration_send q sender s db =
    if not (is_acceptable s)
    then (
      http_error 400
          "prompt (up to 64 KiB), targetAgentId and idempotencyKey (up to 128 bytes) are required",
      db,
    )
    else if not (is_mode (or_default s.mode "queue"))
    then (http_error 400 "mode must be queue or steer", db)
    else if not (is_completion_mode (or_default s.completion_mode "poll"))
    then (http_error 400 "completionMode must be poll or notify", db)
    else if s.target_agent_id == sender
    then (http_error 400 "cannot delegate to yourself", db)
    else send_to q sender s db (is_found (agent s.target_agent_id db))

abbrev pub participates : String → CollaborationTask → Bool
participates reader t = t.sender_agent_id == reader || t.target_agent_id == reader

abbrev pub or_hidden : String → Result CollaborationTask → Option CollaborationTask
or_hidden reader (ok t) = if participates reader t then some t else none
or_hidden reader (err e) = none

-- accessibleCollaborationTask: none is answered with 404.
unfoldable pub accessible_collaboration_task : String → String → Db → Option CollaborationTask
accessible_collaboration_task reader id db = or_hidden reader (collaboration_task id db)

-- The end of a cancellation, by whether a row was changed.
unfoldable pub answer_cancelled : String → Bool × Db → HttpReply (Option CollaborationTask) × Db
answer_cancelled id (false, db) =
    (http_error 409 "only queued tasks can be cancelled; running tasks may share a turn", db)
answer_cancelled id (true, db) =
    (answer 200 (elim (collaboration_task id db) [ ok t ↦ some t | err e ↦ none ]), db)

unfoldable pub cancel_shown :
    Request → String → Option CollaborationTask → Db → HttpReply (Option CollaborationTask) × Db
unfolding answer_cancelled
cancel_shown q reader none db = (http_error 404 "task not found", db)
cancel_shown q reader (some t) db =
    if not (t.notification_for_task_id == "")
    then (
      http_error 409
          "completion notifications are managed by the harness; stop the requester to cancel its continuation",
      db,
    )
    else if not (t.sender_agent_id == reader)
    then (http_error 403 "only the sender can cancel a pending task", db)
    else answer_cancelled t.id (cancel_collaboration_task_with_reason t.id "" q.now db)

-- collaborationCancel
unfoldable pub collaboration_cancel :
    Request → String → String → Db → HttpReply (Option CollaborationTask) × Db
unfolding cancel_shown
collaboration_cancel q reader id db =
    cancel_shown q reader (accessible_collaboration_task reader id db) db

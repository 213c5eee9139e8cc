-- ===== src/Store/Tasks/Enqueue.antt =====
-- EnqueueCollaborationTask of internal/store/collaboration.go.
use codexbot.Common.{
  ℕ, Bool, true, false, not, ◌&&◌, ◌||◌, String, Option, none, some, any, count, find?, insert,
  ◌==◌, ltb, eqb, if◌then◌else◌, not_found, conflict, queue_full, invalid_task, constraint, Result,
  ok, err, ◌>>=◌, ◌>>◌, guard, or_fail,
}
use codexbot.Clock.{Time}
use codexbot.Domain.Text.{is_blank, byte_length}
use codexbot.Domain.Task.{
  CollaborationTask, TaskStatus, TaskMode, CompletionMode, is_pending, is_notify,
}
use codexbot.Domain.Records.{Run, is_active, is_scheduled}
use codexbot.Store.Database.{Db, agent_exists}

-- MaxPendingCollaborationTasks
abbrev pub max_pending : ℕ
max_pending = 100

-- The fields of the argument that the operation reads; it sets the others.
pub record TaskRequest : Type 0 where
  pub id : String
  pub sender_agent_id : String
  pub sender_run_id : String
  pub target_agent_id : String
  pub idempotency_key : String
  pub prompt : String
  pub mode : String
  pub completion_mode : String
  pub completion_task_id : String
  pub notification_for_task_id : String

-- The empty mode is "queue".
unfoldable pub task_mode : String → Option TaskMode
task_mode s =
    if s == "" || s == "queue"
    then some TaskMode.queue
    else if s == "steer"
    then some TaskMode.steer
    else none

-- The empty completion mode is "poll".
unfoldable pub completion_mode : String → Option CompletionMode
completion_mode s =
    if s == "" || s == "poll"
    then some CompletionMode.poll
    else if s == "notify"
    then some CompletionMode.notify
    else none

-- The tests on the other fields that precede the transaction.
unfoldable pub is_well_formed : TaskRequest → Bool
is_well_formed r = not (
    r.sender_agent_id == ""
    || r.target_agent_id == ""
    || r.sender_agent_id == r.target_agent_id
    || is_blank r.prompt
    || ltb 65536 (byte_length r.prompt)
    || is_blank r.idempotency_key
    || ltb 200 (byte_length r.idempotency_key)
    || not (r.completion_task_id == "")
    || not (r.notification_for_task_id == ""))

-- WHERE sender_agent_id=? AND idempotency_key=?
abbrev pub has_key : String → String → CollaborationTask → Bool
has_key sender key t = t.sender_agent_id == sender && t.idempotency_key == key

abbrev pub has_id : String → CollaborationTask → Bool
has_id id t = t.id == id

-- WHERE target_agent_id=? AND status IN ('queued','dispatching','running')
abbrev pub pending_for : String → CollaborationTask → Bool
pending_for target t = t.target_agent_id == target && is_pending t.status

unfoldable pub mode_eq : TaskMode → TaskMode → Bool
mode_eq TaskMode.queue TaskMode.queue = true
mode_eq TaskMode.steer TaskMode.steer = true
mode_eq _ _ = false

unfoldable pub completion_mode_eq : CompletionMode → CompletionMode → Bool
completion_mode_eq CompletionMode.poll CompletionMode.poll = true
completion_mode_eq CompletionMode.notify CompletionMode.notify = true
completion_mode_eq _ _ = false

-- A retry of the request that made the task.
unfoldable pub same_request : TaskRequest → TaskMode → CompletionMode → CollaborationTask → Bool
unfolding mode_eq completion_mode_eq
same_request r m c t =
    t.notification_for_task_id == ""
    && t.target_agent_id == r.target_agent_id
    && t.prompt == r.prompt
    && mode_eq t.mode m
    && completion_mode_eq t.completion_mode c

-- A live chat run of the sender, which may be resumed when the task ends.
abbrev pub can_resume : TaskRequest → Run → Bool
can_resume r run =
    run.id == r.sender_run_id
    && run.agent_id == r.sender_agent_id
    && is_active run.status
    && not (is_scheduled run.source)

-- insertCollaborationTask: the schema's constraints, and the new row.
unfoldable pub insert_collaboration_task : Db → CollaborationTask → Result Db
insert_collaboration_task db task = do
  let tasks = db.collaboration_tasks
  guard (not (task.sender_agent_id == task.target_agent_id)) constraint
  guard (not (any (has_id task.id) tasks)) constraint
  guard (not (any (has_key task.sender_agent_id task.idempotency_key) tasks)) constraint
  guard
      (task.notification_for_task_id == ""
        || not (any (λ t. t.notification_for_task_id == task.notification_for_task_id) tasks))
      constraint
  guard (agent_exists db task.sender_agent_id && agent_exists db task.target_agent_id) constraint
  ok (record db { collaboration_tasks = insert task tasks })

abbrev pub new_task :
    TaskRequest → TaskMode → CompletionMode → String → Time → Time → CollaborationTask
new_task r m c new_id created updated = record {
  id = if r.id == "" then new_id else r.id;
  sender_agent_id = r.sender_agent_id;
  sender_run_id = r.sender_run_id;
  target_agent_id = r.target_agent_id;
  idempotency_key = r.idempotency_key;
  prompt = r.prompt;
  mode = m;
  completion_mode = c;
  completion_task_id = "";
  notification_for_task_id = "";
  steer_fallback = false;
  delivery_confirmed = false;
  status = TaskStatus.queued;
  run_id = "";
  result_after_sequence = 0;
  created_at = created;
  updated_at = updated;
  error = "";
}

-- The transaction for a request whose key is new.
unfoldable pub submit :
    TaskRequest
    → TaskMode
    → CompletionMode
    → String
    → Time
    → Time
    → Db
    → Result (CollaborationTask × Db)
submit r m c new_id created updated db = do
  guard (not (is_notify c) || any (can_resume r) db.runs) invalid_task
  guard
      (eqb
        (count (λ a. (a.id == r.sender_agent_id || a.id == r.target_agent_id) && not a.archived)
          db.agents)
        2)
      not_found
  guard
      (r.sender_run_id == ""
        || any (λ run. run.id == r.sender_run_id && run.agent_id == r.sender_agent_id) db.runs)
      invalid_task
  guard (ltb (count (pending_for r.target_agent_id) db.collaboration_tasks) max_pending) queue_full
  db' ← insert_collaboration_task db (new_task r m c new_id created updated)
  ok (new_task r m c new_id created updated, db')

-- The transaction, by what the key finds.
unfoldable pub resolve :
    TaskRequest
    → TaskMode
    → CompletionMode
    → String
    → Time
    → Time
    → Db
    → Option CollaborationTask
    → Result (CollaborationTask × Bool × Db)
resolve r m c new_id created updated db (some existing) =
    if same_request r m c existing then ok (existing, false, db) else err conflict
resolve r m c new_id created updated db none = do
  (task, db') ← submit r m c new_id created updated db
  ok (task, true, db')

-- The task, whether it is new, and the database.
unfoldable pub enqueue_collaboration_task :
    TaskRequest → String → Time → Time → Db → Result (CollaborationTask × Bool × Db)
enqueue_collaboration_task r new_id created updated db = do
  guard (is_well_formed r) invalid_task
  m ← or_fail (task_mode r.mode) invalid_task
  c ← or_fail (completion_mode r.completion_mode) invalid_task
  resolve r m c new_id created updated db
      (find? (has_key r.sender_agent_id r.idempotency_key) db.collaboration_tasks)

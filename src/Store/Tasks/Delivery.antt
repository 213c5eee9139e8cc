-- ===== src/Store/Tasks/Delivery.antt =====
-- The operations of internal/store/collaboration.go that move a task towards its end, and those
-- that read it.
use codexbot.Common.{
  ℕ, Bool, true, false, not, ◌&&◌, ◌||◌, String, Option, none, some, any, find?, update, ◌==◌,
  if◌then◌else◌, ℤ, pos, negsuc, not_found, conflict, invalid_task, Result, ok, err, ◌>>=◌, or_fail,
}
use codexbot.Clock.{Time}
use codexbot.Domain.Task.{
  CollaborationTask, TaskStatus, is_queued, is_dispatching, is_running, is_unknown, is_steer,
  is_pending,
}
use codexbot.Domain.Records.{Run, RunStatus, RunSource, is_settled}
use codexbot.Store.Database.{Db}
use codexbot.Store.Tasks.Enqueue.{has_id}

-- CollaborationTask
unfoldable pub collaboration_task : String → Db → Result CollaborationTask
collaboration_task id db = or_fail (find? (has_id id) db.collaboration_tasks) not_found

-- An UPDATE of the tasks that meet a test, and whether it changed a row.
abbrev pub update_tasks :
    (CollaborationTask → Bool) → (CollaborationTask → CollaborationTask) → Db → Bool × Db
update_tasks p f db = (
  any p db.collaboration_tasks,
  record db { collaboration_tasks = update p f db.collaboration_tasks },
)

abbrev pub queued_with_id : String → CollaborationTask → Bool
queued_with_id id t = t.id == id && is_queued t.status

abbrev pub dispatching_with_id : String → CollaborationTask → Bool
dispatching_with_id id t = t.id == id && is_dispatching t.status

unfoldable pub claimed : String → Time → CollaborationTask → CollaborationTask
claimed run_id now t = record t {
  status = TaskStatus.dispatching;
  run_id = run_id;
  updated_at = now;
  error = "";
}

-- ClaimCollaborationTask
unfoldable pub claim_collaboration_task : String → String → Time → Db → Bool × Db
unfolding claimed
claim_collaboration_task id run_id now = update_tasks (queued_with_id id) (claimed run_id now)

unfoldable pub with_cursor : ℕ → Time → CollaborationTask → CollaborationTask
with_cursor after now t = record t { result_after_sequence = after; updated_at = now }

-- SetCollaborationTaskOutputCursor
unfoldable pub set_collaboration_task_output_cursor : String → ℤ → Time → Db → Result Db
unfolding with_cursor
set_collaboration_task_output_cursor id (negsuc n) now db = err invalid_task
set_collaboration_task_output_cursor id (pos after) now db =
    let (changed, db') = update_tasks (dispatching_with_id id) (with_cursor after now) db in
    if changed then ok db' else err conflict

-- The statuses that the operation below takes.
unfoldable pub settable_status : String → Option TaskStatus
settable_status s =
    if s == "queued"
    then some TaskStatus.queued
    else if s == "dispatching"
    then some TaskStatus.dispatching
    else if s == "running"
    then some TaskStatus.running
    else if s == "completed"
    then some TaskStatus.completed
    else if s == "failed"
    then some TaskStatus.failed
    else if s == "interrupted"
    then some TaskStatus.interrupted
    else if s == "unknown"
    then some TaskStatus.unknown
    else none

-- 'completed', 'failed', 'interrupted', 'unknown'
abbrev pub is_outcome : TaskStatus → Bool
is_outcome TaskStatus.completed = true
is_outcome TaskStatus.failed = true
is_outcome TaskStatus.interrupted = true
is_outcome TaskStatus.unknown = true
is_outcome _ = false

-- The statuses from which a task may take the new one: `allowed` in the source.
abbrev pub allowed : TaskStatus → TaskStatus → Bool
allowed to from =
    if is_pending to
    then is_dispatching from
    else is_outcome to && (is_dispatching from || is_running from)

abbrev pub settable_with_id : String → TaskStatus → CollaborationTask → Bool
settable_with_id id to t = t.id == id && allowed to t.status

unfoldable pub with_state :
    TaskStatus → String → String → Time → CollaborationTask → CollaborationTask
with_state to run_id message now t = record t {
  status = to;
  run_id = run_id;
  error = message;
  updated_at = now;
  result_after_sequence = if is_queued to then 0 else t.result_after_sequence;
  steer_fallback = if is_queued to && is_steer t.mode then true else t.steer_fallback;
  delivery_confirmed =
      if is_running to then true else if is_queued to then false else t.delivery_confirmed;
}

-- SetCollaborationTaskState
unfoldable pub set_collaboration_task_state :
    String → String → String → String → Time → Db → Result Db
unfolding with_state
set_collaboration_task_state id status run_id message now db = do
  to ← or_fail (settable_status status) invalid_task
  let (changed, db') = update_tasks (settable_with_id id to) (with_state to run_id message now) db
  if changed then ok db' else err conflict

unfoldable pub cancelled : String → Time → CollaborationTask → CollaborationTask
cancelled reason now t = record t {
  status = TaskStatus.cancelled;
  error = reason;
  updated_at = now;
}

-- CancelCollaborationTaskWithReason; CancelCollaborationTask has the reason "".
unfoldable pub cancel_collaboration_task_with_reason : String → String → Time → Db → Bool × Db
unfolding cancelled
cancel_collaboration_task_with_reason id reason now =
    update_tasks (queued_with_id id) (cancelled reason now)

abbrev pub queued_for : String → CollaborationTask → Bool
queued_for target t = t.target_agent_id == target && is_queued t.status

-- CancelQueuedCollaborationTasks
unfoldable pub cancel_queued_collaboration_tasks : String → String → Time → Db → Db
unfolding cancelled
cancel_queued_collaboration_tasks target reason now db =
    (update_tasks (queued_for target) (cancelled reason now) db).1

-- SELECT ... FROM runs WHERE runs.id=collaboration_tasks.run_id
unfoldable pub run_of : Db → CollaborationTask → Option Run
run_of db t = find? (λ r. r.id == t.run_id) db.runs

-- runs.source='collaboration:' || collaboration_tasks.id
abbrev pub is_own_source : String → RunSource → Bool
is_own_source id (RunSource.collaboration task) = task == id
is_own_source id _ = false

-- The WHERE of the reconciliation, by the task's run.
abbrev pub reconcilable : Option Run → CollaborationTask → Bool
reconcilable none t = false
reconcilable (some r) t =
    (is_running t.status || is_unknown t.status && is_own_source t.id r.source)
    && is_settled r.status

-- A settled run's status as a task's.
abbrev pub settled_status : RunStatus → TaskStatus
settled_status RunStatus.completed = TaskStatus.completed
settled_status RunStatus.failed = TaskStatus.failed
settled_status RunStatus.interrupted = TaskStatus.interrupted
settled_status _ = TaskStatus.unknown

abbrev pub is_known : TaskStatus → Bool
is_known TaskStatus.completed = true
is_known TaskStatus.failed = true
is_known TaskStatus.interrupted = true
is_known _ = false

abbrev pub is_completed : RunStatus → Bool
is_completed RunStatus.completed = true
is_completed _ = false

unfoldable pub reconciled : Time → Option Run → CollaborationTask → CollaborationTask
reconciled now none t = t
reconciled now (some r) t = record t {
  status = settled_status r.status;
  error =
      if not (t.notification_for_task_id == "")
      then (if is_completed r.status
          then ""
          else "requester continuation did not complete successfully")
      else r.error;
  updated_at = now;
  delivery_confirmed = if is_known (settled_status r.status) then true else t.delivery_confirmed;
}

-- ReconcileCollaborationTasks
unfoldable pub reconcile_collaboration_tasks : Time → Db → Db
unfolding run_of reconciled
reconcile_collaboration_tasks now db =
    (update_tasks (λ t. reconcilable (run_of db t) t) (λ t. reconciled now (run_of db t) t) db).1

abbrev pub is_in_flight : CollaborationTask → Bool
is_in_flight t = is_dispatching t.status

unfoldable pub lost : Time → CollaborationTask → CollaborationTask
lost now t = record t {
  status = TaskStatus.unknown;
  error = "delivery outcome unknown after server restart";
  updated_at = now;
}

-- RecoverCollaborationTasks
unfoldable pub recover_collaboration_tasks : Time → Time → Db → Db
unfolding lost reconcile_collaboration_tasks
recover_collaboration_tasks now later db =
    (update_tasks is_in_flight (lost later) (reconcile_collaboration_tasks now db)).1

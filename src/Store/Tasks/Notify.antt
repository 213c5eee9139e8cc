-- ===== src/Store/Tasks/Notify.antt =====
-- The completion notifications of internal/store/collaboration.go.
use codexbot.Common.{
  ℕ, suc, Bool, true, false, not, ◌&&◌, ◌||◌, String, List, [], ◌∷◌, any, count, select, update,
  ◌==◌, ltb, if◌then◌else◌, conflict, queue_full, invalid_task, Result, ok, err, ◌>>=◌, ◌>>◌, guard,
}
use codexbot.Clock.{Time}
use codexbot.Domain.Text.{is_blank, byte_length, concat}
use codexbot.Domain.Task.{
  CollaborationTask, TaskStatus, TaskMode, CompletionMode, is_terminal, is_notify, is_queued,
}
use codexbot.Store.Database.{Db}
use codexbot.Store.Tasks.Enqueue.{max_pending, pending_for, insert_collaboration_task}
use codexbot.Store.Tasks.Delivery.{collaboration_task, cancelled}

-- A notification of a task's end: an instruction back to its sender. A reason cancels it at once.
unfoldable pub notification :
    CollaborationTask → String → String → String → Time → CollaborationTask
notification original prompt reason id now = record {
  id = id;
  sender_agent_id = original.target_agent_id;
  sender_run_id = original.run_id;
  target_agent_id = original.sender_agent_id;
  idempotency_key = concat "completion:" id;
  prompt = prompt;
  mode = TaskMode.steer;
  completion_mode = CompletionMode.poll;
  completion_task_id = "";
  notification_for_task_id = original.id;
  steer_fallback = false;
  delivery_confirmed = false;
  status = if reason == "" then TaskStatus.queued else TaskStatus.cancelled;
  run_id = "";
  result_after_sequence = 0;
  created_at = now;
  updated_at = now;
  error = reason;
}

-- The reason that the requester's archival gives.
abbrev pub archived_reason : String
archived_reason = "completion notification cancelled because requesting agent is archived"

-- The reason for cancelling the notification: the one given, or that its target is archived.
unfoldable pub final_reason : Db → String → String → String
final_reason db target reason =
    if reason == "" && not (any (λ a. a.id == target && not a.archived) db.agents)
    then archived_reason
    else reason

-- WHERE id=? AND completion_task_id=''
abbrev pub unlinked_with_id : String → CollaborationTask → Bool
unlinked_with_id id t = t.id == id && t.completion_task_id == ""

unfoldable pub linked : String → Time → CollaborationTask → CollaborationTask
linked completion now t = record t { completion_task_id = completion; updated_at = now }

-- The link from the original, which must still lack one.
unfoldable pub link_completion : String → String → Time → Db → Result Db
unfolding linked
link_completion original completion now db =
    if any (unlinked_with_id original) db.collaboration_tasks
    then ok (record db {
      collaboration_tasks =
          update (unlinked_with_id original) (linked completion now) db.collaboration_tasks;
    })
    else err conflict

-- enqueueCollaborationCompletion
unfoldable pub notify_sender :
    CollaborationTask → String → String → String → Time → Db → Result (CollaborationTask × Db)
unfolding final_reason link_completion
notify_sender original prompt given id now db = do
  let reason = final_reason db original.sender_agent_id given
  let task = notification original prompt reason id now
  guard
      (not (reason == "")
        || ltb (count (pending_for original.sender_agent_id) db.collaboration_tasks) max_pending)
      queue_full
  db' ← insert_collaboration_task db task
  db'' ← link_completion original.id id now db'
  ok (task, db'')

-- EnqueueCollaborationCompletion, for the original that the identifier finds.
unfoldable pub complete_original :
    CollaborationTask → String → String → Time → Db → Result (CollaborationTask × Bool × Db)
complete_original original prompt id now db =
    if not (original.completion_task_id == "")
    then (do task ← collaboration_task original.completion_task_id db; ok (task, false, db))
    else do
      guard (is_notify original.completion_mode) conflict
      guard (is_terminal original.status) conflict
      (task, db') ← notify_sender original prompt "" id now db
      ok (task, true, db')

-- EnqueueCollaborationCompletion
unfoldable pub enqueue_collaboration_completion :
    String → String → String → Time → Db → Result (CollaborationTask × Bool × Db)
unfolding complete_original
enqueue_collaboration_completion original_task_id prompt id now db = do
  guard (not (is_blank prompt || ltb 65536 (byte_length prompt))) invalid_task
  original ← collaboration_task original_task_id db
  complete_original original prompt id now db

-- WHERE sender_agent_id=? AND completion_mode='notify' AND completion_task_id=''
abbrev pub awaits_completion : String → CollaborationTask → Bool
awaits_completion sender t =
    t.sender_agent_id == sender && is_notify t.completion_mode && t.completion_task_id == ""

abbrev pub suppressed_prompt : String
suppressed_prompt = "Completion notification cancelled."

-- The loop of the suppression. Call number `n` to the clock and the generator of identifiers.
unfoldable pub suppress_each :
    (ℕ → String) → (ℕ → Time) → String → ℕ → List CollaborationTask → Db → Result Db
suppress_each uuid clock reason n [] db = ok db
suppress_each uuid clock reason n (original ∷ rest) db =
    elim (notify_sender original suppressed_prompt reason (uuid n) (clock n) db) [
      | ok (task, db') ↦ suppress_each uuid clock reason (suc n) rest db'
      | err e ↦ err e
    ]

abbrev pub queued_notification_for : String → CollaborationTask → Bool
queued_notification_for target t =
    t.target_agent_id == target && not (t.notification_for_task_id == "") && is_queued t.status

abbrev pub sender_reason : String → String
sender_reason reason =
    if reason == "" then "completion notification cancelled by sender" else reason

-- SuppressCollaborationCompletions
unfoldable pub suppress_collaboration_completions :
    (ℕ → String) → (ℕ → Time) → String → String → Time → Db → Result Db
suppress_collaboration_completions uuid clock sender reason now db = do
  let originals = select (awaits_completion sender) db.collaboration_tasks
  db' ← suppress_each uuid clock (sender_reason reason) 0 originals db
  ok (record db' {
    collaboration_tasks =
        update (queued_notification_for sender) (cancelled (sender_reason reason) now)
          db'.collaboration_tasks;
  })

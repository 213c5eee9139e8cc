-- ===== src/Store/Tasks/Query.antt =====
-- The queries of internal/store/collaboration.go.
use mathlib.Core.List.{reverse}
use codexbot.Common.{
  map, ◌++◌, ℕ, Bool, true, false, ◌&&◌, ◌||◌, String, List, [], ◌∷◌, any, count, select, take,
  ◌==◌, ltb, if◌then◌else◌, ℤ, pos, negsuc, invalid_task, Result, ok, ◌>>◌, guard, not,
}
use codexbot.Domain.Text.{text_before}
use codexbot.Domain.Task.{is_queued, is_notify, CollaborationTask, TaskStatus, is_terminal}
use codexbot.Store.Database.{Db}
use codexbot.Store.Tasks.Delivery.{queued_for}
use codexbot.Store.Tasks.Notify.{awaits_completion}

-- collaborationLimit
unfoldable pub collaboration_limit : ℤ → ℕ
collaboration_limit (negsuc n) = 50
collaboration_limit (pos limit) = if ltb limit 1 then 50 else if ltb 101 limit then 101 else limit

-- PendingCollaborationTasks
unfoldable pub pending_collaboration_tasks : String → ℤ → Db → List CollaborationTask
pending_collaboration_tasks target limit db =
    take (collaboration_limit limit) (select (queued_for target) db.collaboration_tasks)

-- PendingCollaborationCompletions
unfoldable pub pending_collaboration_completions : String → ℤ → Db → List CollaborationTask
pending_collaboration_completions sender limit db =
    take (collaboration_limit limit)
      (select (λ t. awaits_completion sender t && is_terminal t.status) db.collaboration_tasks)

-- status IN ('queued','dispatching')
abbrev pub is_waiting : TaskStatus → Bool
is_waiting TaskStatus.queued = true
is_waiting TaskStatus.dispatching = true
is_waiting _ = false

-- PendingCollaborationTaskCount
unfoldable pub pending_collaboration_task_count : String → Db → ℕ
pending_collaboration_task_count target db =
    count (λ t. t.target_agent_id == target && is_waiting t.status) db.collaboration_tasks

-- CollaborationTaskFilter; an empty text does not restrict.
pub record TaskFilter : Type 0 where
  pub agent_id : String
  pub sender_agent_id : String
  pub target_agent_id : String
  pub status : String
  pub before_id : String
  pub limit : ℤ

unfoldable pub status_text : TaskStatus → String
status_text TaskStatus.queued = "queued"
status_text TaskStatus.dispatching = "dispatching"
status_text TaskStatus.running = "running"
status_text TaskStatus.completed = "completed"
status_text TaskStatus.failed = "failed"
status_text TaskStatus.interrupted = "interrupted"
status_text TaskStatus.unknown = "unknown"
status_text TaskStatus.cancelled = "cancelled"

abbrev pub is_participant : String → CollaborationTask → Bool
is_participant agent t = t.sender_agent_id == agent || t.target_agent_id == agent

abbrev pub restricts : String → String → Bool
restricts wanted value = wanted == "" || value == wanted

unfoldable pub meets : TaskFilter → CollaborationTask → Bool
meets f t =
    is_participant f.agent_id t
    && restricts f.sender_agent_id t.sender_agent_id
    && restricts f.target_agent_id t.target_agent_id
    && restricts f.status (status_text t.status)

-- The rows of a lower sequence than the first that meets the test: no row if none does.
unfoldable pub rows_below :
    (CollaborationTask → Bool) → List CollaborationTask → List CollaborationTask
rows_below p [] = []
rows_below p (t ∷ ts) = if p t then [] else if any p ts then t ∷ rows_below p ts else []

-- ListCollaborationTasks, newest first.
unfoldable pub list_collaboration_tasks : TaskFilter → Db → Result (List CollaborationTask)
list_collaboration_tasks f db = do
  guard (not (f.agent_id == "")) invalid_task
  let below =
      if f.before_id == ""
      then db.collaboration_tasks
      else rows_below (λ t. t.id == f.before_id && is_participant f.agent_id t)
          db.collaboration_tasks
  ok (take (collaboration_limit f.limit) (reverse (select (meets f) below)))

-- UNION with ORDER BY: each text once, in order.
unfoldable pub insert_text : String → List String → List String
insert_text s [] = s ∷ []
insert_text s (x ∷ xs) =
    let rest = insert_text s xs in
    if s == x then x ∷ xs else if text_before s x then s ∷ x ∷ xs else x ∷ rest

unfoldable pub union_texts : List String → List String
unfolding insert_text
union_texts [] = []
union_texts (s ∷ rest) = insert_text s (union_texts rest)

-- A task whose end its sender is to hear of.
abbrev pub is_unreported : CollaborationTask → Bool
is_unreported t = is_notify t.completion_mode && t.completion_task_id == "" && is_terminal t.status

-- CollaborationTaskTargets
unfoldable pub collaboration_task_targets : Db → List String
unfolding union_texts
collaboration_task_targets db = union_texts (
    map (λ (t : CollaborationTask). t.target_agent_id)
      (select (λ t. is_queued t.status) db.collaboration_tasks)
    ++ map (λ (t : CollaborationTask). t.sender_agent_id)
        (select is_unreported db.collaboration_tasks))

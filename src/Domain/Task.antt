-- ===== src/Domain/Task.antt =====
-- internal/domain/collaboration.go, with the values that the schema's CHECKs admit.
use codexbot.Common.{ℕ, Bool, true, false, String}
use codexbot.Clock.{Time}

-- The statuses of the CHECK on collaboration_tasks.
pub data TaskStatus : Type 0 where
  queued dispatching running completed failed interrupted unknown cancelled : TaskStatus

pub data TaskMode : Type 0 where
  queue steer : TaskMode

pub data CompletionMode : Type 0 where
  poll notify : CompletionMode

pub record CollaborationTask : Type 0 where
  pub id : String
  pub sender_agent_id : String
  pub sender_run_id : String
  pub target_agent_id : String
  pub idempotency_key : String
  pub prompt : String
  pub mode : TaskMode
  pub completion_mode : CompletionMode
  pub completion_task_id : String
  pub notification_for_task_id : String
  pub steer_fallback : Bool
  pub delivery_confirmed : Bool
  pub status : TaskStatus
  pub run_id : String
  pub result_after_sequence : ℕ
  pub created_at : Time
  pub updated_at : Time
  pub error : String

-- status IN ('queued','dispatching','running')
abbrev pub is_pending : TaskStatus → Bool
is_pending queued = true
is_pending dispatching = true
is_pending running = true
is_pending _ = false

-- status IN ('completed','failed','interrupted','unknown','cancelled')
abbrev pub is_terminal : TaskStatus → Bool
is_terminal completed = true
is_terminal failed = true
is_terminal interrupted = true
is_terminal unknown = true
is_terminal cancelled = true
is_terminal _ = false

abbrev pub is_queued : TaskStatus → Bool
is_queued queued = true
is_queued _ = false

abbrev pub is_dispatching : TaskStatus → Bool
is_dispatching dispatching = true
is_dispatching _ = false

abbrev pub is_running : TaskStatus → Bool
is_running running = true
is_running _ = false

abbrev pub is_unknown : TaskStatus → Bool
is_unknown unknown = true
is_unknown _ = false

abbrev pub is_steer : TaskMode → Bool
is_steer steer = true
is_steer queue = false

abbrev pub is_notify : CompletionMode → Bool
is_notify notify = true
is_notify poll = false

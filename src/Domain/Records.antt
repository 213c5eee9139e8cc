-- ===== src/Domain/Records.antt =====
-- internal/domain/domain.go and the rows of the schema in internal/store/store.go.
use codexbot.Common.{ℕ, Bool, true, false, String, Option, List}
use codexbot.Clock.{Time}

-- A run's status. `skipped_overlap` is a scheduled run that was not made.
pub data RunStatus : Type 0 where
  queued running completed failed interrupted unknown skipped_overlap : RunStatus

-- A run's source, the text before and after its colon: 'schedule:' and the schedule,
-- 'collaboration:' and the task, or any other text.
pub data RunSource : Type 0 where
  schedule collaboration other : String → RunSource

pub data Permission : Type 0 where
  auto full_access : Permission

-- A row of agents.
pub record Agent : Type 0 where
  pub id : String
  pub name : String
  pub role_prompt : String
  pub model : String
  pub effort : String
  pub permission : Permission
  pub role_version : ℕ
  pub status : String
  pub provider_auth_state : String
  pub icon_version : String
  pub archived : Bool
  pub created_at : Time
  pub updated_at : Time

pub data ConversationKind : Type 0 where
  manual agent collaboration scheduled : ConversationKind

pub record Conversation : Type 0 where
  pub id : String
  pub agent_id : String
  pub codex_thread_id : String
  pub kind : ConversationKind
  pub role_version : ℕ
  pub title : String
  pub created_at : Time

pub record Run : Type 0 where
  pub id : String
  pub agent_id : String
  pub conversation_id : String
  pub codex_turn_id : String
  pub source : RunSource
  pub prompt : String
  pub status : RunStatus
  pub scheduled_for : Option Time
  pub started_at : Option Time
  pub finished_at : Option Time
  pub error : String

-- The bytes of a marshalled value: those of a worker's event, or an object by its fields.
pub data Payload : Type 0 where
  raw : String → Payload
  object : List (String × String) → Payload

-- The text of dedup_key by its parts, as the code joins them: 'input:' and a run;
-- 'run-terminal:', a run and its status; 'run:', a run and a sequence; 'task:', a task and
-- ':receipt' or ':status:' and a time; 'conversation-reset:' and a conversation; any other text.
pub data DedupKey : Type 0 where
  input receipt reset given : String → DedupKey
  run_terminal : String → RunStatus → DedupKey
  worker : String → ℕ → DedupKey
  task_status : String → Time → DedupKey

pub record Event : Type 0 where
  pub run_id : String
  pub sequence : ℕ
  pub typ : String
  pub payload : Payload
  pub created_at : Time

pub record Schedule : Type 0 where
  pub id : String
  pub agent_id : String
  pub name : String
  pub prompt : String
  pub kind : String
  pub expression : String
  pub timezone : String
  pub enabled : Bool
  pub next_run_at : Option Time
  pub last_run_at : Option Time
  pub created_at : Time
  pub updated_at : Time

pub record DesktopLease : Type 0 where
  pub agent_id : String
  pub holder : String
  pub generation : ℕ
  pub expires_at : Time

-- status IN ('queued','running')
abbrev pub is_active : RunStatus → Bool
is_active RunStatus.queued = true
is_active RunStatus.running = true
is_active _ = false

-- status IN ('completed','failed','interrupted','unknown')
abbrev pub is_settled : RunStatus → Bool
is_settled RunStatus.completed = true
is_settled RunStatus.failed = true
is_settled RunStatus.interrupted = true
is_settled RunStatus.unknown = true
is_settled _ = false

-- substr(source,1,9)='schedule:'
abbrev pub is_scheduled : RunSource → Bool
is_scheduled (RunSource.schedule s) = true
is_scheduled _ = false

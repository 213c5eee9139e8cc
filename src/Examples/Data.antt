-- ===== src/Examples/Data.antt =====
-- The agents, the conversation, the requests and the databases of the examples.
use codexbot.Common.{true, false, String, List, [], ◌∷◌, none, some, ok, err, Result}
use codexbot.Domain.Task.{CollaborationTask, TaskStatus, TaskMode, CompletionMode}
use codexbot.Domain.Records.{
  Agent, Conversation, ConversationKind, Run, RunStatus, RunSource, Permission, Schedule,
}
use codexbot.Store.Database.{Db}
use codexbot.Store.Tasks.Enqueue.{TaskRequest}

abbrev pub agent_named : String → Agent
agent_named id = record {
  id = id;
  name = id;
  role_prompt = "Help.";
  model = "m";
  effort = "high";
  permission = Permission.auto;
  role_version = 1;
  status = "running";
  provider_auth_state = "connected";
  icon_version = "";
  archived = false;
  created_at = 1;
  updated_at = 1;
}

abbrev pub first_chat : Conversation
first_chat = record {
  id = "chat";
  agent_id = "alice";
  codex_thread_id = "thread";
  kind = ConversationKind.manual;
  role_version = 1;
  title = "";
  created_at = 1;
}

abbrev pub empty_db : Db
empty_db = record {
  agents = agent_named "alice" ∷ agent_named "bob" ∷ [];
  conversations = first_chat ∷ [];
  runs = [];
  events = [];
  schedules = [];
  desktop_leases = [];
  desktop_continuations = [];
  agent_conversations = [];
  agent_timeline = [];
  next_timeline = 1;
  collaboration_tasks = [];
}

abbrev pub request : TaskRequest
request = record {
  id = "task";
  sender_agent_id = "alice";
  sender_run_id = "";
  target_agent_id = "bob";
  idempotency_key = "key";
  prompt = "Look.";
  mode = "steer";
  completion_mode = "";
  completion_task_id = "";
  notification_for_task_id = "";
}

abbrev pub task_in : TaskStatus → CompletionMode → CollaborationTask
task_in status mode = record {
  id = "task";
  sender_agent_id = "alice";
  sender_run_id = "";
  target_agent_id = "bob";
  idempotency_key = "key";
  prompt = "Look.";
  mode = TaskMode.steer;
  completion_mode = mode;
  completion_task_id = "";
  notification_for_task_id = "";
  steer_fallback = false;
  delivery_confirmed = false;
  status = status;
  run_id = "run";
  result_after_sequence = 0;
  created_at = 5;
  updated_at = 5;
  error = "";
}

abbrev pub run_in : RunStatus → Run
run_in status = record {
  id = "run";
  agent_id = "alice";
  conversation_id = "chat";
  codex_turn_id = "";
  source = RunSource.collaboration "task";
  prompt = "Look.";
  status = status;
  scheduled_for = none;
  started_at = none;
  finished_at = none;
  error = "lost";
}

abbrev pub with_tasks : List CollaborationTask → List Run → Db
with_tasks tasks runs = record empty_db { collaboration_tasks = tasks; runs = runs }

-- A submitted task is as `task_in` but for its run.
abbrev pub submitted : CollaborationTask
submitted = record (task_in TaskStatus.queued CompletionMode.poll) { run_id = "" }

-- The database of a result, and the empty one of none.
abbrev pub db_of : Result Db → Db
db_of (ok db) = db
db_of (err e) = empty_db

abbrev pub second_of : {A : Type 0} → Result (A × Db) → Db
second_of (ok (a, db)) = db
second_of (err e) = empty_db

abbrev pub daily : Schedule
daily = record {
  id = "daily";
  agent_id = "alice";
  name = "Daily";
  prompt = "Report.";
  kind = "cron";
  expression = "0 9 * * *";
  timezone = "UTC";
  enabled = true;
  next_run_at = some 1000000000;
  last_run_at = none;
  created_at = 1;
  updated_at = 1;
}

abbrev pub daily_chat : Conversation
daily_chat = record {
  id = "daily-chat";
  agent_id = "alice";
  codex_thread_id = "";
  kind = ConversationKind.scheduled;
  role_version = 1;
  title = "";
  created_at = 2;
}

abbrev pub daily_run : Run
daily_run = record {
  id = "daily-run";
  agent_id = "alice";
  conversation_id = "daily-chat";
  codex_turn_id = "";
  source = RunSource.schedule "daily";
  prompt = "Report.";
  status = RunStatus.queued;
  scheduled_for = some 1000000000;
  started_at = none;
  finished_at = none;
  error = "";
}

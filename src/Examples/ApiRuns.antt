-- ===== src/Examples/ApiRuns.antt =====
-- Examples of the collaboration API.
use codexbot.Common.{◌≡◌, refl, true, false, [], ◌∷◌, some}
use codexbot.Domain.Task.{CollaborationTask, TaskStatus, CompletionMode}
use codexbot.Domain.Records.{Event, RunStatus, raw}
use codexbot.Store.Database.{Db}
use codexbot.Server.World.{World, Env, accepted, lost, done}
use codexbot.Server.Start.{start_collaboration}
use codexbot.Server.Steer.{steer_collaboration}
use codexbot.Server.History.{begin}
use codexbot.Server.Api.{
  SendRequest, collaboration_send, HttpReply, answer, http_error, Request, collaboration_cancel,
  accepted_text,
}
use codexbot.Server.Api.Read.{view_of, TaskView, read_collaboration_task}
use codexbot.Server.Api.Private.{IsPrivate, read-IsPrivate}
use codexbot.Server.Api.Cancelled.{cancel_once}
use codexbot.Examples.Data.{agent_named, submitted, task_in, run_in, with_tasks}

abbrev request_of : Request
request_of = record {
  uuid = "new";
  now = 10;
  later = 11;
  error_text = λ e. "error";
  size = λ e. 100;
  preview = λ s. "{}";
  syncs = true;
}

abbrev output : Event
output = record {
  run_id = "run";
  sequence = 3;
  typ = "message.agent";
  payload = raw "{}";
  created_at = 9;
}

-- The task's own run has completed, with one event.
abbrev finished_db : Db
finished_db =
    record (with_tasks (task_in TaskStatus.running CompletionMode.poll ∷ [])
      (run_in RunStatus.completed ∷ [])) { events = output ∷ [] }

abbrev view : TaskView
view = record {
  task = record (task_in TaskStatus.completed CompletionMode.poll) {
    updated_at = 10;
    error = "lost";
    delivery_confirmed = true;
  };
  run = some (view_of (run_in RunStatus.completed));
  events = output ∷ [];
  next_sequence = 3;
  has_more = false;
  output_scope = "task";
}

reads_output :
    (read_collaboration_task request_of "alice" "task" 50 0 finished_db).0 ≡ answer 200 view
unfolding read_collaboration_task codexbot.Server.Api.accessible_collaboration_task
    codexbot.Store.Tasks.Delivery.collaboration_task
    codexbot.Store.Tasks.Delivery.reconcile_collaboration_tasks codexbot.Store.Runs.run
    codexbot.Store.Timeline.Outbox.events_after_limit codexbot.Store.Tasks.Query.collaboration_limit
    codexbot.Domain.Text.byte_length
reads_output = refl

read-IsPrivate_example : IsPrivate "alice" 50 0 view
read-IsPrivate_example =
    read-IsPrivate request_of "alice" "task" 50 0 finished_db 200 view reads_output

-- A stranger is told nothing.
stranger :
    (read_collaboration_task request_of "carol" "task" 50 0 finished_db).0
    ≡ http_error 404 "task not found"
unfolding read_collaboration_task codexbot.Server.Api.accessible_collaboration_task
    codexbot.Store.Tasks.Delivery.collaboration_task
    codexbot.Store.Tasks.Delivery.reconcile_collaboration_tasks
stranger = refl

abbrev queued_world : World
queued_world = record { db = with_tasks (submitted ∷ []) []; calls = [] }

abbrev after_cancel : World
after_cancel = record queued_world {
  db = (collaboration_cancel request_of "alice" "task" queued_world.db).1;
}

abbrev cancelled_task : CollaborationTask
cancelled_task = record submitted { status = TaskStatus.cancelled; updated_at = 10 }

cancels :
    (collaboration_cancel request_of "alice" "task" queued_world.db).0
    ≡ answer 200 (some cancelled_task)
unfolding collaboration_cancel codexbot.Server.Api.accessible_collaboration_task
    codexbot.Store.Tasks.Delivery.collaboration_task
    codexbot.Store.Tasks.Delivery.cancel_collaboration_task_with_reason
cancels = refl

abbrev pub idle_env : Env
idle_env = record {
  clock = λ place n. 100;
  uuid = λ place n. place;
  runtime = record {
    start_agent = λ id. accepted tt;
    stop_agent = λ id. accepted tt;
    interrupt = λ id thread turn. accepted tt;
    set_desktop_lease = λ id holder generation. accepted tt;
    start_turn = λ id request. lost "timeout";
    steer_turn = λ id request. lost "timeout";
  };
  error_text = λ e. "error";
  marshal = λ fields. "{}";
  quote = λ s. s;
}

cancel_once_example :
    (start_collaboration idle_env (agent_named "bob") submitted after_cancel
      ≡ (done tt, after_cancel))
    × ((steer_collaboration idle_env submitted (run_in RunStatus.running) after_cancel).1
        ≡ after_cancel)
cancel_once_example =
    cancel_once request_of "alice" submitted queued_world after_cancel 200 (some cancelled_task)
      cancels (λ i. refl, tt) begin idle_env (agent_named "bob") (run_in RunStatus.running)

-- A task for oneself.
abbrev own_request : SendRequest
own_request = record {
  target_agent_id = "bob";
  prompt = "Look.";
  mode = "";
  completion_mode = "";
  idempotency_key = "key";
}

-- A request whose task is stored, and whose timelines are not.
abbrev unsynced : Request
unsynced = record request_of { syncs = false }

abbrev good_request : SendRequest
good_request = record own_request { idempotency_key = "other" }

half_done :
    (collaboration_send unsynced "alice" good_request queued_world.db).0
    ≡ http_error 500 accepted_text
unfolding collaboration_send codexbot.Domain.Text.is_blank codexbot.Domain.Text.byte_length
    codexbot.Store.Agents.agent codexbot.Store.Tasks.Enqueue.enqueue_collaboration_task
    codexbot.Store.Tasks.Enqueue.is_well_formed codexbot.Store.Tasks.Enqueue.task_mode
    codexbot.Store.Tasks.Enqueue.completion_mode codexbot.Store.Tasks.Enqueue.resolve
    codexbot.Store.Tasks.Enqueue.submit codexbot.Store.Runs.active_run
    codexbot.Store.Tasks.Enqueue.insert_collaboration_task
half_done = refl

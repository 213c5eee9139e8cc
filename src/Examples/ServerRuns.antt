-- ===== src/Examples/ServerRuns.antt =====
-- Examples of the dispatcher.
use codexbot.Common.{inr, ◌+◌, ◌≤◌, ◌≡◌, refl, [], ◌∷◌, none, some, arith, pos}
use codexbot.Domain.Records.{Agent, Conversation, ConversationKind, Run, RunStatus, RunSource}
use codexbot.Store.Tasks.History.{Op}
use codexbot.Store.Tasks.Evolution.{Grows}
use codexbot.Store.Tasks.Bounds.{IsBounded}
use codexbot.Server.World.{Env, Runtime, accepted, lost, World, done}
use codexbot.Server.Steer.{steer_collaboration}
use codexbot.Server.Start.{start_collaboration}
use codexbot.Server.Dispatch.{dispatch_collaboration}
use codexbot.Server.Rules.{deliveries}
use codexbot.Server.History.{
  begin, dispatched, start-once, steer-once, Served-IsBounded, Served-Grows,
}
use codexbot.Server.Progress.{dispatch-deliveries}
use codexbot.Server.Quiet.{IsEngaged}
use codexbot.Server.Quiet.Dispatch.{dispatch-IsEngaged}
use codexbot.Examples.Data.{agent_named, empty_db, submitted, with_tasks}

-- A manager that starts agents, loses the replies of turns and takes steers.
abbrev runtime : Runtime
runtime = record {
  start_agent = λ id. accepted tt;
  stop_agent = λ id. accepted tt;
  interrupt = λ id thread turn. accepted tt;
  set_desktop_lease = λ id holder generation. accepted tt;
  start_turn = λ id request. lost "timeout";
  steer_turn = λ id request.
      accepted (record { after_sequence = pos 4; thread_id = "bobs"; turn_id = "turn" });
}

abbrev env : Env
env = record {
  clock = λ place n. 100;
  uuid = λ place n. place;
  runtime = runtime;
  error_text = λ e. "error";
  marshal = λ fields. "{}";
  quote = λ s. s;
}

abbrev waiting : World
waiting = record { db = with_tasks (submitted ∷ []) []; calls = [] }

abbrev bobs_chat : Conversation
bobs_chat = record {
  id = "bobs-chat";
  agent_id = "bob";
  codex_thread_id = "bobs";
  kind = ConversationKind.manual;
  role_version = 1;
  title = "";
  created_at = 1;
}

abbrev bobs_run : Run
bobs_run = record {
  id = "bobs-run";
  agent_id = "bob";
  conversation_id = "bobs-chat";
  codex_turn_id = "turn";
  source = RunSource.other "message";
  prompt = "Hello.";
  status = RunStatus.running;
  scheduled_for = none;
  started_at = some 2;
  finished_at = none;
  error = "";
}

-- The same while bob's turn runs.
abbrev busy : World
busy = record {
  db = record empty_db {
    conversations = bobs_chat ∷ [];
    runs = bobs_run ∷ [];
    collaboration_tasks = submitted ∷ [];
  };
  calls = [];
}

abbrev bob : Agent
bob = agent_named "bob"

abbrev recovery : Op
recovery = Op.recover 200 201

start-once_example :
    (start_collaboration env bob submitted
        (dispatch_collaboration env "bob" (start_collaboration env bob submitted waiting).1).1
      ≡ (
        done tt,
        (dispatch_collaboration env "bob" (start_collaboration env bob submitted waiting).1).1,
      ))
    × ((steer_collaboration env submitted bobs_run
          (dispatch_collaboration env "bob" (start_collaboration env bob submitted waiting).1).1).1
        ≡ (dispatch_collaboration env "bob" (start_collaboration env bob submitted waiting).1).1)
start-once_example =
    start-once env bob submitted waiting
      (dispatch_collaboration env "bob" (start_collaboration env bob submitted waiting).1).1 refl
      (dispatched begin env "bob") env bob bobs_run

steer-once_example :
    (start_collaboration env bob submitted (steer_collaboration env submitted bobs_run busy).1
      ≡ (done tt, (steer_collaboration env submitted bobs_run busy).1))
    × ((steer_collaboration env submitted bobs_run
          (steer_collaboration env submitted bobs_run busy).1).1
        ≡ (steer_collaboration env submitted bobs_run busy).1)
unfolding codexbot.Store.Conversations.Edit.conversation
steer-once_example =
    steer-once env submitted bobs_run bobs_chat busy
      (steer_collaboration env submitted bobs_run busy).1 refl refl refl begin env bob bobs_run

waiting_bound : IsBounded waiting.db
waiting_bound = record { at_target = λ target. ground arith }

Served-IsBounded_example : IsBounded (dispatch_collaboration env "bob" waiting).1.db
Served-IsBounded_example =
    Served-IsBounded waiting (dispatch_collaboration env "bob" waiting).1
      (dispatched begin env "bob") waiting_bound

dispatch-deliveries_example :
    deliveries (dispatch_collaboration env "bob" waiting).1 ≤ 1 + deliveries waiting
dispatch-deliveries_example = dispatch-deliveries env "bob" waiting

-- An agent whose run has no turn yet.
abbrev beginning : World
beginning = record waiting {
  db = record waiting.db { runs = (record bobs_run { status = RunStatus.queued }) ∷ [] };
}

dispatch-IsEngaged_example :
    ((dispatch_collaboration env "bob" beginning).1.calls ≡ beginning.calls)
    × IsEngaged "bob" (env.clock "human" 0) (dispatch_collaboration env "bob" beginning).1.db
unfolding codexbot.Store.Runs.active_run
dispatch-IsEngaged_example =
    dispatch-IsEngaged env "bob" beginning
      (inr (record bobs_run { status = RunStatus.queued }, refl, inr refl))

Served-Grows_example :
    Grows waiting.db.collaboration_tasks
      (dispatch_collaboration env "bob" waiting).1.db.collaboration_tasks
Served-Grows_example =
    Served-Grows waiting (dispatch_collaboration env "bob" waiting).1 (dispatched begin env "bob")

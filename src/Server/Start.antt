-- ===== src/Server/Start.antt =====
-- startCollaboration of internal/httpapi/collaboration.go: a queued task as a new turn.
use codexbot.Common.{ℕ, Bool, ◌&&◌, String, [], none, leb, ltb, if◌then◌else◌}
use codexbot.Domain.Task.{CollaborationTask}
use codexbot.Domain.Records.{Agent, Run, RunStatus, RunSource, Conversation}
use codexbot.Store.Tasks.Delivery.{claim_collaboration_task}
use codexbot.Store.Runs.{create_run, set_run_started, finish_run}
use codexbot.Store.Conversations.{ensure_agent_conversation}
use codexbot.Store.Conversations.Edit.{set_conversation_thread}
use codexbot.Domain.Text.{concat}
use codexbot.Server.World.{
  TurnRequest, TurnResponse, Env, Reply, accepted, http_error, lost, Call, Action, Attempt, done,
  failed, Failure, failure_text, ◌>>=◌, ◌>>◌, fail, skip, change, exec, perform, write, try, ignore,
  ask, note, settle,
}
use codexbot.Server.Agents.{ensure_agent, platform_instructions}
use codexbot.Server.Steer.{collaboration_prompt, set_collaboration_state}

-- The run of a task's turn, as it is created.
abbrev pub task_run : Env → Agent → CollaborationTask → Conversation → Run
task_run env a t c = record {
  id = env.uuid "run" 0;
  agent_id = a.id;
  conversation_id = c.id;
  codex_turn_id = "";
  source = RunSource.collaboration t.id;
  prompt = t.prompt;
  status = RunStatus.queued;
  scheduled_for = none;
  started_at = none;
  finished_at = none;
  error = "";
}

unfoldable pub turn_request : Agent → CollaborationTask → Run → Conversation → TurnRequest
turn_request a t r c = record {
  attachments = [];
  run_id = r.id;
  conversation_id = c.id;
  thread_id = c.codex_thread_id;
  prompt = collaboration_prompt t;
  developer_instructions = platform_instructions a.role_prompt;
  source = "collaboration";
  model = a.model;
  effort = a.effort;
  permission = a.permission;
}

-- The task's end by a failure that comes before its turn.
abbrev pub give_up : Env → CollaborationTask → String → Failure → Action (Unit {0})
give_up env t run_id e = set_collaboration_state env "state" t "failed" run_id (failure_text env e)

-- The task's state after an error of the store that comes after its turn was accepted.
unfoldable pub or_unknown :
    Env → CollaborationTask → Run → Action (Unit {0}) → Attempt (Unit {0}) → Action (Unit {0})
or_unknown env t r next (done a) = next
or_unknown env t r next (failed e) =
    set_collaboration_state env "state" t "unknown" r.id (failure_text env e)

-- What follows an accepted turn.
unfoldable pub record_turn :
    Env → CollaborationTask → Run → Conversation → TurnResponse → Action (Unit {0})
unfolding or_unknown
record_turn env t r c out = do
  write (set_conversation_thread c.id out.thread_id)
  begun ← try (exec (set_run_started r.id out.turn_id (env.clock "started" 0)))
  or_unknown env t r (set_collaboration_state env "state" t "running" r.id "") begun

-- An action, and then the relay of the run whatever the action's end.
abbrev pub then_relay : Run → Action (Unit {0}) → Action (Unit {0})
then_relay r m = do ended ← try m; note (Call.relay r.id); settle ended

-- 400 and above, below 500
abbrev pub is_client_error : ℕ → Bool
is_client_error status = leb 400 status && ltb status 500

abbrev pub unconfirmed : String → String
unconfirmed text = concat "turn delivery could not be confirmed: " text

-- The end of a start, by the manager's reply.
unfoldable pub settle_turn :
    Env → CollaborationTask → Run → Conversation → Reply TurnResponse → Action (Unit {0})
unfolding record_turn
settle_turn env t r c (accepted out) = then_relay r (record_turn env t r c out)
settle_turn env t r c (http_error status text) =
    if is_client_error status
    then (do
      ignore (exec (finish_run r.id RunStatus.failed text (env.clock "finish" 0)))
      set_collaboration_state env "state" t "failed" r.id text)
    else (do
      note (Call.relay r.id)
      set_collaboration_state env "state" t "unknown" r.id (unconfirmed text))
settle_turn env t r c (lost text) = do
  note (Call.relay r.id)
  set_collaboration_state env "state" t "unknown" r.id (unconfirmed text)

-- The turn itself, by whether the task's link to the run was saved.
unfoldable pub send_turn :
    Env → Agent → CollaborationTask → Run → Conversation → Attempt (Unit {0}) → Action (Unit {0})
unfolding settle_turn turn_request
send_turn env a t r c (failed e) = do
  ignore (
      exec
        (finish_run r.id RunStatus.failed "could not persist task delivery" (env.clock "finish" 0)))
  fail e
send_turn env a t r c (done u) = do
  reply ←
      ask (Call.start_turn a.id (turn_request a t r c))
        (env.runtime.start_turn a.id (turn_request a t r c))
  settle_turn env t r c reply

-- After the run's row: the link of the task to it, and the turn.
unfoldable pub start_run :
    Env → Agent → CollaborationTask → Run → Conversation → Attempt (Unit {0}) → Action (Unit {0})
unfolding send_turn
start_run env a t r c (failed e) = give_up env t "" e
start_run env a t r c (done u) = do
  linked ← try (set_collaboration_state env "link" t "dispatching" r.id "")
  send_turn env a t r c linked

-- After the conversation: the run's row.
unfoldable pub start_in : Env → Agent → CollaborationTask → Attempt Conversation → Action (Unit {0})
unfolding start_run
start_in env a t (failed e) = give_up env t "" e
start_in env a t (done c) = do
  created ← try (exec (create_run (task_run env a t c) (env.clock "create" 0)))
  start_run env a t (task_run env a t c) c created

-- After the agent's start: its conversation.
unfoldable pub start_ready :
    Env → Agent → CollaborationTask → Attempt (Unit {0}) → Action (Unit {0})
unfolding start_in
start_ready env a t (failed e) = give_up env t "" e
start_ready env a t (done u) = do
  found ←
      try (
        perform (ensure_agent_conversation a.id (env.uuid "conversation" 0) (env.clock "ensure" 0)))
  start_in env a t found

-- startCollaboration, after the claim
unfoldable pub start_claimed : Env → Agent → CollaborationTask → Action (Unit {0})
unfolding start_ready
start_claimed env a t = do ready ← try (ensure_agent env a); start_ready env a t ready

-- startCollaboration
unfoldable pub start_collaboration : Env → Agent → CollaborationTask → Action (Unit {0})
unfolding start_claimed
start_collaboration env a t = do
  claimed ← change (claim_collaboration_task t.id "" (env.clock "claim" 0))
  if claimed then start_claimed env a t else skip

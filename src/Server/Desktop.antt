-- ===== src/Server/Desktop.antt =====
-- The desktop handlers of internal/httpapi/server.go: a human takes a desktop over, keeps it,
-- or lets it expire. Children have the takeover, the giving back and the proofs.
pub mod Takeover
pub mod Release
pub mod Control
pub mod Expiry
use codexbot.Common.{
  ℕ, ◌*◌, Bool, true, false, not, ◌&&◌, String, List, [], Option, none, ◌==◌, if◌then◌else◌,
  not_found, Result, ok, err,
}
use codexbot.Clock.{Time}
use codexbot.Domain.Records.{
  Agent, Run, RunStatus, RunSource, Conversation, ConversationKind, DesktopLease, is_scheduled,
}
use codexbot.Store.Agents.{agent}
use codexbot.Store.Desktop.{
  acquire_desktop_lease, renew_human_desktop_lease, set_desktop_continuation,
  take_desktop_continuation,
}
use codexbot.Store.Runs.{agent_busy, active_run, create_run, set_run_started, finish_run}
use codexbot.Store.Conversations.{ensure_agent_conversation}
use codexbot.Store.Conversations.Edit.{conversation, set_conversation_thread}
use codexbot.Server.World.{
  TurnRequest, TurnResponse, Env, Runtime, Reply, accepted, http_error, lost, Call, World, Action,
  Attempt, done, failed, Failure, failure, failure_text, ◌>>=◌, ◌>>◌, pure, fail, skip, read, query,
  change, exec, perform, write, try, ignore, ask, note,
}
use codexbot.Server.Agents.{ensure_agent, platform_instructions}
use codexbot.Server.Api.{HttpReply, answer}
use codexbot.Server.Api

abbrev pub minute : Time
minute = 60 * 1000000000

abbrev pub continuation_prompt : String
continuation_prompt =
    "Continue from the current desktop state. Inspect the latest browser and desktop screenshots before acting, and preserve the user's manual changes."

abbrev pub continuation_run : Env → Agent → Conversation → Run
continuation_run env a c = record {
  id = env.uuid "continuation" 0;
  agent_id = a.id;
  conversation_id = c.id;
  codex_turn_id = "";
  source = RunSource.other "manual";
  prompt = continuation_prompt;
  status = RunStatus.queued;
  scheduled_for = none;
  started_at = none;
  finished_at = none;
  error = "";
}

abbrev pub continuation_request : Agent → Run → Conversation → TurnRequest
continuation_request a r c = record {
  attachments = [];
  run_id = r.id;
  conversation_id = c.id;
  thread_id = c.codex_thread_id;
  prompt = continuation_prompt;
  developer_instructions = platform_instructions a.role_prompt;
  source = "manual";
  model = a.model;
  effort = a.effort;
  permission = a.permission;
}

abbrev pub give_up_run : Env → Run → String → Action String
give_up_run env r text = do
  ignore (exec (finish_run r.id RunStatus.failed text (env.clock "finish" 0)))
  fail (failure text)

-- The end of a continuation, by the manager's reply.
unfoldable pub settle_continuation : Env → Run → Conversation → Reply TurnResponse → Action String
settle_continuation env r c (accepted out) = do
  if c.codex_thread_id == "" then write (set_conversation_thread c.id out.thread_id) else skip
  ignore (exec (set_run_started r.id out.turn_id (env.clock "started" 0)))
  note (Call.relay r.id)
  pure r.id
settle_continuation env r c (http_error status text) = give_up_run env r text
settle_continuation env r c (lost text) = give_up_run env r text

unfoldable pub continue_in : Env → Agent → Conversation → Action String
unfolding settle_continuation
continue_in env a c = do
  let r = continuation_run env a c
  exec (create_run r (env.clock "create" 0))
  reply ←
      ask (Call.start_turn a.id (continuation_request a r c))
        (env.runtime.start_turn a.id (continuation_request a r c))
  settle_continuation env r c reply

abbrev pub is_scheduled_chat : ConversationKind → Bool
is_scheduled_chat ConversationKind.scheduled = true
is_scheduled_chat _ = false

-- A scheduled chat that is no longer the agent's is not continued.
unfoldable pub continue_chosen : Env → Agent → Conversation → Conversation → Action String
unfolding continue_in
continue_chosen env a previous c =
    if is_scheduled_chat previous.kind && not (previous.id == c.id)
    then pure ""
    else continue_in env a c

unfoldable pub continue_idle : Env → Agent → String → Action String
unfolding continue_chosen
continue_idle env a id = do
  previous ← query (conversation id)
  if not (previous.agent_id == a.id) then fail (failure "conversation not found") else (do
    c ← perform (ensure_agent_conversation a.id (env.uuid "conversation" 0) (env.clock "ensure" 0))
    continue_chosen env a previous c)

-- startContinuation: the new run's identifier, "" if there is nothing to continue
unfoldable pub start_continuation : Env → Agent → String → Action String
unfolding continue_idle
start_continuation env a id = if id == "" then pure "" else (do
  busy ← read (agent_busy a.id)
  if busy then fail (failure "agent already has an active run") else continue_idle env a id)

-- expireDesktopLease, by the manager's reply
unfoldable pub settle_expiry : Env → Agent → Reply (Unit {0}) → Action (Unit {0})
unfolding start_continuation
settle_expiry env a (accepted u) = do
  id ← change (take_desktop_continuation a.id)
  ignore (start_continuation env a id)
settle_expiry env a _ =
    ignore (perform (acquire_desktop_lease a.id "human" minute (env.clock "restore" 0)))

unfoldable pub expire_acquired : Env → Agent → Attempt DesktopLease → Action (Unit {0})
unfolding settle_expiry
expire_acquired env a (failed e) = skip
expire_acquired env a (done lease) = do
  reply ←
      ask (Call.set_desktop_lease a.id "agent" lease.generation)
        (env.runtime.set_desktop_lease a.id "agent" lease.generation)
  settle_expiry env a reply

unfoldable pub expire_agent : Env → Attempt Agent → Action (Unit {0})
unfolding expire_acquired
expire_agent env (failed e) = skip
expire_agent env (done a) = do
  acquired ←
      try (perform (acquire_desktop_lease a.id "agent" (30 * minute) (env.clock "acquire" 0)))
  expire_acquired env a acquired

-- expireDesktopLease
unfoldable pub expire_desktop_lease : Env → DesktopLease → Action (Unit {0})
unfolding expire_agent
expire_desktop_lease env expired = do
  found ← try (query (agent expired.agent_id))
  expire_agent env found

-- desktopHeartbeat
unfoldable pub desktop_heartbeat : Env → String → Action (HttpReply DesktopLease)
desktop_heartbeat env id = do
  renewed ← try (
      perform
        (renew_human_desktop_lease id (15 * minute) (env.clock "renew" 0) (env.clock "held" 0)))
  pure (elim renewed [
    | done lease ↦ answer 200 lease
    | failed e ↦ Api.http_error 409 "human desktop lease is not active"
  ])

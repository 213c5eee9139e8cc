-- ===== src/Server/Desktop/Takeover.antt =====
-- takeover of internal/httpapi/server.go: a human takes the desktop of an agent.
use codexbot.Common.{◌*◌, String, ◌==◌, if◌then◌else◌, not_found, Result, ok, err}
use codexbot.Domain.Records.{Agent, Run, RunStatus, Conversation, DesktopLease, is_scheduled}
use codexbot.Store.Agents.{agent}
use codexbot.Store.Desktop.{acquire_desktop_lease, set_desktop_continuation}
use codexbot.Store.Runs.{active_run, finish_run}
use codexbot.Store.Conversations.Edit.{conversation}
use codexbot.Server.World.{
  Env, Reply, accepted, http_error, lost, Call, Action, Attempt, done, failed, failure_text, ◌>>=◌,
  ◌>>◌, pure, skip, read, query, exec, perform, try, ignore, ask, note,
}
use codexbot.Server.Agents.{ensure_agent}
use codexbot.Server.Api.{HttpReply, answer}
use codexbot.Server.Api
use codexbot.Server.Desktop.{minute}

-- The end of a takeover: the human's lease, in the store and at the manager.
abbrev pub settle_lease : DesktopLease → Reply (Unit {0}) → HttpReply DesktopLease
settle_lease lease (accepted u) = answer 200 lease
settle_lease lease (http_error status text) = Api.http_error 502 text
settle_lease lease (lost text) = Api.http_error 502 text

unfoldable pub hand_over : Env → String → Attempt DesktopLease → Action (HttpReply DesktopLease)
hand_over env id (failed e) = pure (Api.http_error 502 (failure_text env e))
hand_over env id (done lease) = do
  reply ←
      ask (Call.set_desktop_lease id "human" lease.generation)
        (env.runtime.set_desktop_lease id "human" lease.generation)
  pure (settle_lease lease reply)

unfoldable pub acquire_for_human : Env → String → Action (HttpReply DesktopLease)
unfolding hand_over
acquire_for_human env id = do
  acquired ← try (perform (acquire_desktop_lease id "human" (15 * minute) (env.clock "acquire" 0)))
  hand_over env id acquired

-- The conversation that a run's interruption leaves to continue; none of a schedule's.
abbrev pub continuation_of_run : Run → String
continuation_of_run r = if is_scheduled r.source then "" else r.conversation_id

abbrev pub thread_of : Result Conversation → String
thread_of (ok c) = c.codex_thread_id
thread_of (err e) = ""

abbrev pub interrupt_turn : Env → String → Run → String → Action (Unit {0})
interrupt_turn env id r thread =
    if r.codex_turn_id == ""
    then skip
    else ignore (
        ask (Call.interrupt id thread r.codex_turn_id)
          (env.runtime.interrupt id thread r.codex_turn_id))

-- The run that the takeover interrupts, after its conversation was kept.
unfoldable pub interrupt_run :
    Env → String → Run → Attempt (Unit {0}) → Action (HttpReply DesktopLease)
unfolding acquire_for_human
interrupt_run env id r (failed e) =
    pure (Api.http_error 500 "could not preserve interrupted conversation")
interrupt_run env id r (done u) = do
  found ← read (conversation r.conversation_id)
  interrupt_turn env id r (thread_of found)
  ignore (
      exec
        (finish_run r.id RunStatus.interrupted "desktop taken over by user" (env.clock "finish" 0)))
  note (Call.cancel_relay r.id)
  acquire_for_human env id

unfoldable pub take_idle : Env → String → Attempt (Unit {0}) → Action (HttpReply DesktopLease)
unfolding acquire_for_human
take_idle env id (failed e) = pure (Api.http_error 500 "could not clear desktop continuation")
take_idle env id (done u) = acquire_for_human env id

unfoldable pub take_from : Env → String → Result Run → Action (HttpReply DesktopLease)
unfolding interrupt_run take_idle
take_from env id (ok r) = do
  kept ←
      try (exec (set_desktop_continuation id (continuation_of_run r) (env.clock "continuation" 0)))
  interrupt_run env id r kept
take_from env id (err not_found) = do
  cleared ← try (exec (set_desktop_continuation id "" (env.clock "continuation" 0)))
  take_idle env id cleared
take_from env id (err e) = pure (Api.http_error 500 "could not inspect active run")

unfoldable pub take_ready : Env → String → Attempt (Unit {0}) → Action (HttpReply DesktopLease)
unfolding take_from
take_ready env id (failed e) = pure (Api.http_error 502 (failure_text env e))
take_ready env id (done u) = do active ← read (active_run id); take_from env id active

unfoldable pub take_agent : Env → String → Attempt Agent → Action (HttpReply DesktopLease)
unfolding take_ready
take_agent env id (failed e) = pure (Api.http_error 404 "agent not found")
take_agent env id (done a) = do ready ← try (ensure_agent env a); take_ready env id ready

-- takeover
unfoldable pub takeover : Env → String → Action (HttpReply DesktopLease)
unfolding take_agent
takeover env id = do found ← try (query (agent id)); take_agent env id found

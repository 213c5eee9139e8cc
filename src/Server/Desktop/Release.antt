-- ===== src/Server/Desktop/Release.antt =====
-- releaseDesktop of internal/httpapi/server.go: a human gives the desktop of an agent back.
use codexbot.Common.{◌*◌, String, Option, none, some}
use codexbot.Domain.Records.{Agent, DesktopLease}
use codexbot.Store.Agents.{agent}
use codexbot.Store.Desktop.{acquire_desktop_lease, take_desktop_continuation}
use codexbot.Server.World.{
  Env, Reply, accepted, http_error, lost, Call, Action, Attempt, done, failed, failure_text, ◌>>=◌,
  pure, query, change, perform, try, ask,
}
use codexbot.Server.Agents.{ensure_agent}
use codexbot.Server.Api.{HttpReply, answer}
use codexbot.Server.Api
use codexbot.Server.Desktop.{minute, start_continuation}

-- The body of the answer: the agent's lease, the run that continues, "" without one, and why
-- none does.
pub record ReleaseAnswer : Type 0 where
  pub lease : DesktopLease
  pub continue_run_id : String
  pub continue_error : Option String

abbrev pub release_answer : Env → DesktopLease → Attempt String → ReleaseAnswer
release_answer env lease (done id) = record {
  lease = lease;
  continue_run_id = id;
  continue_error = none;
}
release_answer env lease (failed e) = record {
  lease = lease;
  continue_run_id = "";
  continue_error = some (failure_text env e);
}

-- The end of a release, by the manager's reply. A continuation that fails is told in the answer.
unfoldable pub settle_release :
    Env → String → Agent → DesktopLease → Reply (Unit {0}) → Action (HttpReply ReleaseAnswer)
settle_release env id a lease (accepted u) = do
  conversation_id ← change (take_desktop_continuation id)
  continued ← try (start_continuation env a conversation_id)
  pure (answer 200 (release_answer env lease continued))
settle_release env id a lease (http_error status text) = pure (Api.http_error 502 text)
settle_release env id a lease (lost text) = pure (Api.http_error 502 text)

unfoldable pub release_acquired :
    Env → String → Agent → Attempt DesktopLease → Action (HttpReply ReleaseAnswer)
unfolding settle_release
release_acquired env id a (failed e) = pure (Api.http_error 502 (failure_text env e))
release_acquired env id a (done lease) = do
  reply ←
      ask (Call.set_desktop_lease id "agent" lease.generation)
        (env.runtime.set_desktop_lease id "agent" lease.generation)
  settle_release env id a lease reply

unfoldable pub release_ready :
    Env → String → Agent → Attempt (Unit {0}) → Action (HttpReply ReleaseAnswer)
unfolding release_acquired
release_ready env id a (failed e) = pure (Api.http_error 502 (failure_text env e))
release_ready env id a (done u) = do
  acquired ← try (perform (acquire_desktop_lease id "agent" (30 * minute) (env.clock "acquire" 0)))
  release_acquired env id a acquired

unfoldable pub release_agent : Env → String → Attempt Agent → Action (HttpReply ReleaseAnswer)
unfolding release_ready
release_agent env id (failed e) = pure (Api.http_error 404 "agent not found")
release_agent env id (done a) = do ready ← try (ensure_agent env a); release_ready env id a ready

-- releaseDesktop
unfoldable pub release_desktop : Env → String → Action (HttpReply ReleaseAnswer)
unfolding release_agent
release_desktop env id = do found ← try (query (agent id)); release_agent env id found

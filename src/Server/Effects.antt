-- ===== src/Server/Effects.antt =====
-- What the parts of the dispatcher do to the tasks, and how many they deliver. Children have the
-- steer and the dispatcher.
pub mod Steer
pub mod Dispatch
use mathlib.Core.Path.{subst}
use codexbot.Common.{
  ℕ, suc, ◌≡◌, refl, sym, inl, inr, Bool, true, false, not, ◌&&◌, String, List, [], ◌∷◌, ◌++◌,
  Option, none, some, arith, find?, ok, err, Result, Result-cases, Bool-cases, if◌then◌else◌, ℤ,
  pos, ◌==◌, leb, ltb, eqb, not_found, Fault,
}
use codexbot.Clock.{Time}
use codexbot.Domain.Task.{CollaborationTask}
use codexbot.Domain.Records.{Agent, Run, RunStatus, Conversation, is_scheduled}
use codexbot.Store.Database.{Db}
use codexbot.Store.Tasks.Effects.{Effects, here}
use codexbot.Store.Tasks.History.{after, after_task}
use codexbot.Store.Tasks.Growth.{
  Kept, update-Kept, complete-Kept, set_state-Kept, set_cursor-Kept, claimed-Evolves,
  cancelled-Evolves,
}
use codexbot.Store.Tasks.Frame.{
  Same, create_run-Same, set_run_started-Same, finish_run-Same, ensure_agent_conversation-Same,
}
use codexbot.Store.Tasks.Notify.{enqueue_collaboration_completion}
use codexbot.Store.Tasks.Delivery.{
  claim_collaboration_task, cancel_collaboration_task_with_reason,
  cancel_queued_collaboration_tasks, collaboration_task,
}
use codexbot.Store.Runs.{create_run, set_run_started, finish_run, run}
use codexbot.Store.Agents.{set_agent_status}
use codexbot.Store.Conversations.{ensure_agent_conversation}
use codexbot.Store.Conversations.Edit.{set_conversation_thread, conversation}
use codexbot.Server.World.{
  TurnResponse, Env, Runtime, Reply, accepted, http_error, lost, Call, World, Action, Attempt, done,
  failed, Failure, fail, skip, exec, write, try, ignore, ask, note, settle, pure, ◌>>=◌, ◌>>◌,
  change, perform, query, read,
}
use codexbot.Server.Rules.{
  Does, mono-Does, pure-Does, fail-Does, settle-Does, skip-Does, read-Does, bind-Does, then-Does,
  try-Does, ignore-Does, if-Does, note-Does, ask-Does, write-Does, change-Does, exec-Does,
  perform-Does, query-Does,
}
use codexbot.Server.Agents.{ensure_agent, settle_agent}
use codexbot.Server.Completions.{
  enqueue_each, enqueue_collaboration_completions, filter_one, filter_collaboration_completions,
  without_created, collaboration_completion_prompt, reset_reason, is_current,
}
use codexbot.Server.Steer.{
  set_collaboration_state, steer_request, public_message, confirm_steer, settle_steer, send_steer,
  steer_claimed, steer_collaboration,
}
use codexbot.Server.Start.{
  give_up, or_unknown, record_turn, then_relay, settle_turn, send_turn, start_run, start_in,
  start_ready, is_client_error, task_run, turn_request, start_claimed, start_collaboration,
}

Same-Kept : (db db' : Db) → Same db db' → Kept db db'
Same-Kept db db' e = subst (λ ts. Effects db.collaboration_tasks ts) (sym e) here

Same-exec-Does :
    (op : Db → Result Db) → ((db db' : Db) → op db ≡ ok db' → Same db db') → Does 0 (exec op)
Same-exec-Does op h = exec-Does op (λ db. elim (Result-cases (op db)) [
  | inl (db', e) ↦ rw e (Same-Kept db db' (h db db' e))
  | inr (x, e) ↦ rw e here
])

pub set_state-Does :
    (env : Env) (place : String) (t : CollaborationTask) (status run_id message : String)
    → Does 0 (set_collaboration_state env place t status run_id message)
unfolding set_collaboration_state
set_state-Does env place t status run_id message =
    exec-Does _ (set_state-Kept t.id status run_id _ (env.clock place 0))

module _ (env : Env) where
  settle_agent-Does : (id : String) (r : Reply (Unit {0})) → Does 0 (settle_agent env id r)
  unfolding settle_agent set_agent_status
  settle_agent-Does id (accepted a) = write-Does _ (λ db. here)
  settle_agent-Does id (http_error status text) =
      then-Does 0 0 _ _ (write-Does _ (λ db. here)) (fail-Does _)
  settle_agent-Does id (lost text) = then-Does 0 0 _ _ (write-Does _ (λ db. here)) (fail-Does _)

  pub ensure_agent-Does : (a : Agent) → Does 0 (ensure_agent env a)
  unfolding ensure_agent set_agent_status
  ensure_agent-Does a = then-Does 0 0 _ _ (write-Does _ (λ db. here)) (
      bind-Does 0 0 _ _ (ask-Does 0 (Call.start_agent a.id) _ (omega arith))
        (settle_agent-Does a.id))

  or_unknown-Does :
      (t : CollaborationTask) (r : Run) (next : Action (Unit {0})) (begun : Attempt (Unit {0}))
      → Does 0 next
      → Does 0 (or_unknown env t r next begun)
  unfolding or_unknown
  or_unknown-Does t r next (done a) h = h
  or_unknown-Does t r next (failed e) h = set_state-Does env "state" t "unknown" r.id _

  module _ (t : CollaborationTask) (r : Run) (c : Conversation) where
    record_turn-Does : (out : TurnResponse) → Does 0 (record_turn env t r c out)
    unfolding record_turn set_conversation_thread
    record_turn-Does out = then-Does 0 0 _ _ (write-Does _ (λ db. here)) (
        bind-Does 0 0 _ _
          (try-Does 0 _ (Same-exec-Does _ (set_run_started-Same r.id out.turn_id _)))
          (λ begun. or_unknown-Does t r _ begun (set_state-Does env "state" t "running" r.id "")))

    give_up_turn-Does :
        (text : String)
        → Does 0
            (note (Call.relay r.id) >> set_collaboration_state env "state" t "unknown" r.id text)
    give_up_turn-Does text =
        then-Does 0 0 _ _ (note-Does (Call.relay r.id) refl)
          (set_state-Does env "state" t "unknown" r.id text)

    settle_turn-Does : (reply : Reply TurnResponse) → Does 0 (settle_turn env t r c reply)
    unfolding settle_turn
    settle_turn-Does (accepted out) =
        bind-Does 0 0 _ _ (try-Does 0 _ (record_turn-Does out))
          (λ ended. then-Does 0 0 _ _ (note-Does (Call.relay r.id) refl) (settle-Does ended))
    settle_turn-Does (http_error status text) =
        if-Does 0 (is_client_error status) _ _
          (then-Does 0 0 _ _
            (ignore-Does 0 _ (Same-exec-Does _ (finish_run-Same r.id RunStatus.failed text _)))
            (set_state-Does env "state" t "failed" r.id text))
          (give_up_turn-Does _)
    settle_turn-Does (lost text) = give_up_turn-Does _

    send_turn-Does :
        (a : Agent) (linked : Attempt (Unit {0})) → Does 1 (send_turn env a t r c linked)
    unfolding send_turn
    send_turn-Does a (failed e) = mono-Does 0 1 _ (omega arith) (
        then-Does 0 0 _ _
          (ignore-Does 0 _ (Same-exec-Does _ (finish_run-Same r.id RunStatus.failed _ _)))
          (fail-Does e))
    send_turn-Does a (done u) =
        bind-Does 1 0 _ _ (ask-Does 1 (Call.start_turn a.id (turn_request a t r c)) _ (omega arith))
          settle_turn-Does

    start_run-Does :
        (a : Agent) (created : Attempt (Unit {0})) → Does 1 (start_run env a t r c created)
    unfolding start_run
    start_run-Does a (failed e) =
        mono-Does 0 1 _ (omega arith) (set_state-Does env "state" t "failed" "" _)
    start_run-Does a (done u) =
        bind-Does 0 1 _ _ (try-Does 0 _ (set_state-Does env "link" t "dispatching" r.id ""))
          (send_turn-Does a)

  module _ (a : Agent) (t : CollaborationTask) where
    start_in-Does : (found : Attempt Conversation) → Does 1 (start_in env a t found)
    unfolding start_in
    start_in-Does (failed e) =
        mono-Does 0 1 _ (omega arith) (set_state-Does env "state" t "failed" "" _)
    start_in-Does (done c) =
        bind-Does 0 1 _ _ (try-Does 0 _ (Same-exec-Does _ (create_run-Same (task_run env a t c) _)))
          (start_run-Does t (task_run env a t c) c a)

    start_ready-Does : (ready : Attempt (Unit {0})) → Does 1 (start_ready env a t ready)
    unfolding start_ready
    start_ready-Does (failed e) =
        mono-Does 0 1 _ (omega arith) (set_state-Does env "state" t "failed" "" _)
    start_ready-Does (done u) =
        bind-Does 0 1 _ _
          (try-Does 0 _ (
            perform-Does _ (λ db c db' e.
              Same-Kept db db' (ensure_agent_conversation-Same a.id _ _ db c db' e))))
          start_in-Does

    pub start-Does : Does 1 (start_collaboration env a t)
    unfolding start_collaboration start_claimed claim_collaboration_task
    start-Does =
        bind-Does 0 1 _ _
          (change-Does _ (λ db. update-Kept _ _ db (λ u. claimed-Evolves _ u t.id "")))
          (λ claimed.
            if-Does 1 claimed _ _
              (bind-Does 0 1 _ _ (try-Does 0 _ (ensure_agent-Does a)) start_ready-Does)
              (mono-Does 0 1 _ (omega arith) skip-Does))

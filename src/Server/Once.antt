-- ===== src/Server/Once.antt =====
-- A task that is started is not left waiting, and is not started again. The child has the steer.
pub mod Steer
use mathlib.Core.Path.{subst}
use codexbot.Common.{
  ℕ, ◌≡◌, refl, sym, ◌∙◌, ap, inl, inr, Bool, true, false, String, List, [], ◌∷◌, any, ok, err,
  Result, Result-cases, if◌then◌else◌, pos, ℤ, find?, Bool-cases, eqb, none, some, Option, arith,
}
use codexbot.Clock.{Time}
use codexbot.Domain.Task.{CollaborationTask, TaskStatus}
use codexbot.Domain.Records.{Agent, Run, RunStatus, Conversation}
use codexbot.Store.Database.{Db}
use codexbot.Store.Agents.{set_agent_status}
use codexbot.Store.Runs.{create_run, set_run_started, finish_run}
use codexbot.Store.Conversations.{ensure_agent_conversation}
use codexbot.Store.Conversations.Edit.{set_conversation_thread, conversation}
use codexbot.Store.Tasks.Delivery.{
  queued_with_id, dispatching_with_id, settable_with_id, settable_status, with_state, with_cursor,
  claim_collaboration_task, set_collaboration_task_state, set_collaboration_task_output_cursor,
}
use codexbot.Store.Tasks.Frame.{
  Same, create_run-Same, set_run_started-Same, finish_run-Same, ensure_agent_conversation-Same,
}
use codexbot.Server.World.{
  TurnResponse, Env, Runtime, Reply, accepted, http_error, lost, Call, World, Action, Attempt, done,
  failed, Failure, ◌>>=◌, ◌>>◌, exec, try, skip, change, resume, query, answered,
}
use codexbot.Server.Agents.{ensure_agent, settle_agent}
use codexbot.Server.Steer.{
  set_collaboration_state, public_message, steer_request, confirm_steer, settle_steer, send_steer,
  steer_claimed, steer_collaboration,
}
use codexbot.Server.Start.{
  task_run, turn_request, or_unknown, record_turn, is_client_error, settle_turn, send_turn,
  start_run, start_in, start_ready, start_claimed, start_collaboration,
}
use codexbot.Server.Held.{IsHeld, IsOver}
use codexbot.Server.Held.Claim.{claim-IsHeld, set_cursor-IsHeld, over-claim_none}
use codexbot.Server.Ends.{
  Held, Over, Keeps, Goes, Ends, bind-Ends, then-Ends, bind-Keeps, then-Keeps, fail-Keeps,
  exec-Keeps, perform-Keeps, try-Goes, ignore-Goes, read-Goes, ask-Goes, ask-Keeps, note-Goes,
  write-Goes, write-Keeps, relayed-Ends, if-Ends, set_state-Ends, link-Goes, tried-Ends,
}

-- The states that end a delivery.
pub failed-Ends :
    (env : Env) (t : CollaborationTask) (run_id message : String)
    → Ends t.id (set_collaboration_state env "state" t "failed" run_id message)
unfolding settable_status
failed-Ends env t run_id message =
    set_state-Ends env "state" t "failed" run_id message TaskStatus.failed refl refl refl

pub unknown-Ends :
    (env : Env) (t : CollaborationTask) (run_id message : String)
    → Ends t.id (set_collaboration_state env "state" t "unknown" run_id message)
unfolding settable_status
unknown-Ends env t run_id message =
    set_state-Ends env "state" t "unknown" run_id message TaskStatus.unknown refl refl refl

pub running-Ends :
    (env : Env) (t : CollaborationTask) (run_id : String)
    → Ends t.id (set_collaboration_state env "state" t "running" run_id "")
unfolding settable_status
running-Ends env t run_id =
    set_state-Ends env "state" t "running" run_id "" TaskStatus.running refl refl refl

pub claimed_true :
    (id run_id : String) (now : Time) (db : Db)
    → any (queued_with_id id) db.collaboration_tasks ≡ true
    → (claim_collaboration_task id run_id now db).0 ≡ true
unfolding claim_collaboration_task
claimed_true id run_id now db h = h

module _ (id : String) where
  Same-Held : (db db' : Db) → Same db db' → Held id db → Held id db'
  Same-Held db db' e h = subst (IsHeld id) (sym e) h

  Same-exec-Keeps :
      (op : Db → Result Db) → ((db db' : Db) → op db ≡ ok db' → Same db db') → Keeps id (exec op)
  Same-exec-Keeps op k = exec-Keeps id op (λ db db' e. Same-Held db db' (k db db' e))

  settle_agent-Keeps :
      (env : Env) (agent : String) (r : Reply (Unit {0})) → Keeps id (settle_agent env agent r)
  unfolding settle_agent set_agent_status
  settle_agent-Keeps env agent (accepted a) = write-Keeps id _ (λ db. refl)
  settle_agent-Keeps env agent (http_error status text) =
      then-Keeps id _ _ (write-Keeps id _ (λ db. refl)) (fail-Keeps id _)
  settle_agent-Keeps env agent (lost text) =
      then-Keeps id _ _ (write-Keeps id _ (λ db. refl)) (fail-Keeps id _)

  ensure_agent-Keeps : (env : Env) (a : Agent) → Keeps id (ensure_agent env a)
  unfolding ensure_agent set_agent_status
  ensure_agent-Keeps env a =
      then-Keeps id _ _ (write-Keeps id _ (λ db. refl))
        (bind-Keeps id _ _ (ask-Keeps id _ _) (settle_agent-Keeps env a.id))

module _ (env : Env) (t : CollaborationTask) where
  or_unknown-Ends :
      (r : Run) (next : Action (Unit {0})) (begun : Attempt (Unit {0}))
      → Ends t.id next
      → Ends t.id (or_unknown env t r next begun)
  unfolding or_unknown
  or_unknown-Ends r next (done a) h = h
  or_unknown-Ends r next (failed e) h = unknown-Ends env t r.id _

  module _ (r : Run) (c : Conversation) where
    record_turn-Ends : (out : TurnResponse) → Ends t.id (record_turn env t r c out)
    unfolding record_turn set_conversation_thread
    record_turn-Ends out = then-Ends t.id _ _ (write-Goes t.id _ (λ db. refl)) (
        bind-Ends t.id _ _
          (try-Goes t.id _ (Same-exec-Keeps t.id _ (set_run_started-Same r.id out.turn_id _)))
          (λ begun. or_unknown-Ends r _ begun (running-Ends env t r.id)))

    settle_turn-Ends : (reply : Reply TurnResponse) → Ends t.id (settle_turn env t r c reply)
    unfolding settle_turn
    settle_turn-Ends (accepted out) = relayed-Ends t.id _ _ (record_turn-Ends out)
    settle_turn-Ends (http_error status text) =
        if-Ends t.id (is_client_error status) _ _
          (then-Ends t.id _ _
            (ignore-Goes t.id _
              (Same-exec-Keeps t.id _ (finish_run-Same r.id RunStatus.failed text _)))
            (failed-Ends env t r.id text))
          (then-Ends t.id _ _ (note-Goes t.id _) (unknown-Ends env t r.id _))
    settle_turn-Ends (lost text) = then-Ends t.id _ _ (note-Goes t.id _) (unknown-Ends env t r.id _)

    start_run-Ends :
        (a : Agent) (created : Attempt (Unit {0})) → Ends t.id (start_run env a t r c created)
    unfolding start_run send_turn
    start_run-Ends a (failed e) = failed-Ends env t "" _
    start_run-Ends a (done u) =
        tried-Ends t.id _ _ (link-Goes env t r.id)
          (λ linked. bind-Ends t.id _ _ (ask-Goes t.id _ _) settle_turn-Ends)

  module _ (a : Agent) where
    start_in-Ends : (found : Attempt Conversation) → Ends t.id (start_in env a t found)
    unfolding start_in
    start_in-Ends (failed e) = failed-Ends env t "" _
    start_in-Ends (done c) =
        bind-Ends t.id _ _
          (try-Goes t.id _
            (Same-exec-Keeps t.id _ (create_run-Same (task_run env a t c) (env.clock "create" 0))))
          (start_run-Ends (task_run env a t c) c a)

    start_ready-Ends : (ready : Attempt (Unit {0})) → Ends t.id (start_ready env a t ready)
    unfolding start_ready
    start_ready-Ends (failed e) = failed-Ends env t "" _
    start_ready-Ends (done u) =
        bind-Ends t.id _ _
          (try-Goes t.id _ (
            perform-Keeps t.id _ (λ db c db' e.
              Same-Held t.id db db' (ensure_agent_conversation-Same a.id _ _ db c db' e))))
          start_in-Ends

    start_claimed-Ends : Ends t.id (start_claimed env a t)
    unfolding start_claimed
    start_claimed-Ends =
        bind-Ends t.id _ _ (try-Goes t.id _ (ensure_agent-Keeps t.id env a)) start_ready-Ends

    -- A task that was queued is over after its start, whatever the replies of the manager and the
    -- errors of the store on the way: it is not queued, and not between the two.
    pub start-IsOver :
        (w : World)
        → any (queued_with_id t.id) w.db.collaboration_tasks ≡ true
        → IsOver t.id (start_collaboration env a t w).1.db.collaboration_tasks
    unfolding start_collaboration ◌>>=◌ change
    start-IsOver w h =
        let changed = claim_collaboration_task t.id "" (env.clock "claim" 0) w.db in
        let is_claimed : changed.0 ≡ true = claimed_true t.id "" (env.clock "claim" 0) w.db h in
        rw is_claimed (
          start_claimed-Ends.at (record w { db = changed.1 })
            (claim-IsHeld t.id "" (env.clock "claim" 0) w.db h))

    -- A start of a task that is over does nothing.
    pub over-start_none :
        (w : World)
        → IsOver t.id w.db.collaboration_tasks
        → start_collaboration env a t w ≡ (done tt, w)
    unfolding start_collaboration ◌>>=◌ change skip
    over-start_none w o = rw (over-claim_none t.id "" (env.clock "claim" 0) w.db o) refl

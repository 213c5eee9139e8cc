-- ===== src/Server/Effects/Steer.antt =====
-- What a steer does to the tasks, and how many it delivers.
use codexbot.Common.{arith, eqb}
use codexbot.Domain.Task.{CollaborationTask}
use codexbot.Domain.Records.{Run, Conversation}
use codexbot.Store.Tasks.Growth.{update-Kept, set_cursor-Kept, claimed-Evolves}
use codexbot.Store.Tasks.Delivery.{claim_collaboration_task}
use codexbot.Server.World.{
  TurnResponse, Env, Reply, accepted, http_error, lost, Call, Attempt, done, failed,
}
use codexbot.Server.Rules.{
  Does, mono-Does, skip-Does, read-Does, bind-Does, try-Does, if-Does, ask-Does, change-Does,
  exec-Does, query-Does,
}
use codexbot.Server.Steer.{
  steer_request, confirm_steer, settle_steer, send_steer, steer_claimed, steer_collaboration,
}
use codexbot.Server.Effects.{set_state-Does}

module _ (env : Env) where
  module _ (t : CollaborationTask) (r : Run) where
    confirm_steer-Does : (saved : Attempt (Unit {0})) → Does 0 (confirm_steer env t r saved)
    unfolding confirm_steer
    confirm_steer-Does (done a) = set_state-Does env "state" t "running" r.id ""
    confirm_steer-Does (failed e) = set_state-Does env "state" t "unknown" r.id _

    settle_steer-Does : (reply : Reply TurnResponse) → Does 0 (settle_steer env t r reply)
    unfolding settle_steer
    settle_steer-Does (accepted out) =
        bind-Does 0 0 _ _ (try-Does 0 _ (exec-Does _ (set_cursor-Kept t.id _ _))) confirm_steer-Does
    settle_steer-Does (http_error status text) =
        if-Does 0 (eqb status 409) _ _ (set_state-Does env "state" t "queued" "" "")
          (set_state-Does env "state" t "unknown" r.id _)
    settle_steer-Does (lost text) = set_state-Does env "state" t "unknown" r.id _

    send_steer-Does :
        (c : Conversation) (saved : Attempt (Unit {0})) → Does 1 (send_steer env t r c saved)
    unfolding send_steer
    send_steer-Does c (failed e) =
        mono-Does 0 1 _ (omega arith) (set_state-Does env "state" t "failed" r.id _)
    send_steer-Does c (done u) =
        bind-Does 1 0 _ _
          (ask-Does 1 (Call.steer_turn t.target_agent_id (steer_request t r c)) _ (omega arith))
          settle_steer-Does

    pub steer_claimed-Does : (c : Conversation) → Does 1 (steer_claimed env t r c)
    unfolding steer_claimed
    steer_claimed-Does c = bind-Does 0 1 _ _ (read-Does _) (λ after.
        bind-Does 0 1 _ _ (try-Does 0 _ (exec-Does _ (set_cursor-Kept t.id _ _)))
          (send_steer-Does c))

    pub steer-Does : Does 1 (steer_collaboration env t r)
    unfolding steer_collaboration claim_collaboration_task
    steer-Does = bind-Does 0 1 _ _ (query-Does _) (λ c.
        bind-Does 0 1 _ _
          (change-Does _ (λ db. update-Kept _ _ db (λ u. claimed-Evolves _ u t.id r.id)))
          (λ claimed.
            if-Does 1 claimed _ _ (steer_claimed-Does c) (mono-Does 0 1 _ (omega arith) skip-Does)))

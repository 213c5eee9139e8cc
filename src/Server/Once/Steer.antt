-- ===== src/Server/Once/Steer.antt =====
-- A task that is steered into a turn is not left waiting, unless the turn refused it, and is not
-- steered again.
use codexbot.Common.{◌≡◌, refl, inl, inr, Bool, true, false, any, ok, Result-cases, eqb, pos}
use codexbot.Domain.Task.{CollaborationTask}
use codexbot.Domain.Records.{Run, Conversation}
use codexbot.Store.Conversations.Edit.{conversation}
use codexbot.Store.Tasks.Delivery.{queued_with_id, claim_collaboration_task}
use codexbot.Server.World.{
  TurnResponse, Env, Reply, accepted, http_error, lost, World, Attempt, done, failed, ◌>>=◌, change,
  query, skip, ask, Call,
}
use codexbot.Server.Steer.{
  steer_request, confirm_steer, settle_steer, send_steer, steer_claimed, steer_collaboration,
}
use codexbot.Server.Held.{IsOver}
use codexbot.Server.Held.Claim.{claim-IsHeld, set_cursor-IsHeld, over-claim_none}
use codexbot.Server.Ends.{Ends, bind-Ends, exec-Keeps, try-Goes, read-Goes}
use codexbot.Server.Once.{failed-Ends, unknown-Ends, running-Ends, claimed_true}

-- The turn's refusal of a steer, after which it is known that the steer was not taken.
abbrev pub is_conflict : Reply TurnResponse → Bool
is_conflict (http_error status text) = eqb status 409
is_conflict _ = false

module _ (env : Env) (t : CollaborationTask) (r : Run) where
  confirm_steer-Ends : (saved : Attempt (Unit {0})) → Ends t.id (confirm_steer env t r saved)
  unfolding confirm_steer
  confirm_steer-Ends (done a) = running-Ends env t r.id
  confirm_steer-Ends (failed e) = unknown-Ends env t r.id _

  settle_steer-Ends :
      (reply : Reply TurnResponse)
      → is_conflict reply ≡ false
      → Ends t.id (settle_steer env t r reply)
  unfolding settle_steer
  settle_steer-Ends (accepted out) h =
      bind-Ends t.id _ _
        (try-Goes t.id _
          (exec-Keeps t.id _ (set_cursor-IsHeld t.id out.after_sequence (env.clock "boundary" 0))))
        confirm_steer-Ends
  settle_steer-Ends (http_error status text) h = rw h (unknown-Ends env t r.id _)
  settle_steer-Ends (lost text) h = unknown-Ends env t r.id _

  module _ (c : Conversation)
      (taken : is_conflict (env.runtime.steer_turn t.target_agent_id (steer_request t r c))
        ≡ false) where
    send_steer-Ends : (saved : Attempt (Unit {0})) → Ends t.id (send_steer env t r c saved)
    unfolding send_steer ◌>>=◌ ask
    send_steer-Ends (failed e) = failed-Ends env t r.id _
    send_steer-Ends (done u) = record {
      at = λ w h.
          (settle_steer-Ends (env.runtime.steer_turn t.target_agent_id (steer_request t r c))
              taken).at
            (ask (Call.steer_turn t.target_agent_id (steer_request t r c))
              (env.runtime.steer_turn t.target_agent_id (steer_request t r c)) w).1
            h;
    }

    steer_claimed-Ends : Ends t.id (steer_claimed env t r c)
    unfolding steer_claimed
    steer_claimed-Ends = bind-Ends t.id _ _ (read-Goes t.id _) (λ after.
        bind-Ends t.id _ _
          (try-Goes t.id _
            (exec-Keeps t.id _ (set_cursor-IsHeld t.id (pos after) (env.clock "cursor" 0))))
          send_steer-Ends)

    -- A task that was queued is over after a steer that the turn did not refuse.
    pub steer-IsOver :
        (w : World)
        → conversation r.conversation_id w.db ≡ ok c
        → any (queued_with_id t.id) w.db.collaboration_tasks ≡ true
        → IsOver t.id (steer_collaboration env t r w).1.db.collaboration_tasks
    unfolding steer_collaboration ◌>>=◌ change query
    steer-IsOver w found h =
        let changed = claim_collaboration_task t.id r.id (env.clock "claim" 0) w.db in
        let is_claimed : changed.0 ≡ true = claimed_true t.id r.id (env.clock "claim" 0) w.db h in
        rw (found, is_claimed)
          (steer_claimed-Ends.at (record w { db = changed.1 })
            (claim-IsHeld t.id r.id (env.clock "claim" 0) w.db h))

  -- A steer of a task that is over does nothing.
  pub over-steer_none :
      (w : World) → IsOver t.id w.db.collaboration_tasks → (steer_collaboration env t r w).1 ≡ w
  unfolding steer_collaboration ◌>>=◌ change query skip
  over-steer_none w o = elim (Result-cases (conversation r.conversation_id w.db)) [
    | inl (c, e) ↦ rw (e, over-claim_none t.id r.id (env.clock "claim" 0) w.db o) refl
    | inr (x, e) ↦ rw e refl
  ]

-- ===== src/Server/History.antt =====
-- Histories of the server: runs of the dispatcher, for any agent and under any replies of the
-- manager, between operations of the store that handlers and workers make.
use codexbot.Common.{◌≡◌, true, false, String, any, ok}
use codexbot.Domain.Task.{CollaborationTask}
use codexbot.Domain.Records.{Agent, Run, Conversation}
use codexbot.Store.Conversations.Edit.{conversation}
use codexbot.Store.Tasks.Bounds.{IsBounded, bounded-Effects}
use codexbot.Store.Tasks.Effects.{here}
use codexbot.Store.Tasks.Growth.{Kept, Kept-trans, step-Effects}
use codexbot.Store.Tasks.Evolution.{Grows}
use codexbot.Store.Tasks.Effects.{Effects-Grows}
use codexbot.Store.Tasks.History.{Op, step}
use codexbot.Store.Tasks.Delivery.{queued_with_id}
use codexbot.Server.World.{World, Env, done}
use codexbot.Server.Steer.{steer_request, steer_collaboration}
use codexbot.Server.Start.{start_collaboration}
use codexbot.Server.Dispatch.{dispatch_collaboration}
use codexbot.Server.Effects.Dispatch.{dispatch-Does}
use codexbot.Server.Held.{IsOver-Effects}
use codexbot.Server.Once.{start-IsOver, over-start_none}
use codexbot.Server.Once.Steer.{is_conflict, steer-IsOver, over-steer_none}

pub data Served (w : World) : World → Type 0 where
  begin : Served w w
  operation : {u : World} → Served w u → (o : Op) → Served w (record u { db = step u.db o })
  dispatched :
      {u : World}
      → Served w u
      → (env : Env) (target : String) → Served w (dispatch_collaboration env target u).1

pub Served-Kept : (w : World) {u : World} → Served w u → Kept w.db u.db
Served-Kept w begin = here
Served-Kept w (operation {u} s o) =
    Kept-trans w.db u.db (step u.db o) (Served-Kept w s) (step-Effects u.db o)
Served-Kept w (dispatched {u} s env target) =
    Kept-trans w.db u.db (dispatch_collaboration env target u).1.db (Served-Kept w s)
      ((dispatch-Does env target).at u).kept

-- Over any history of the server, whatever the manager replies, each task goes through the abstract
-- life of a task and no other: it stays at its place, with the identifier, the sender, the sender's
-- run, the target, the key, the prompt, the modes and the time of its submission; it takes a
-- completion once, and moves between statuses only as `can_become` allows; new tasks come at the end.
pub Served-Grows :
    (w u : World) → Served w u → Grows w.db.collaboration_tasks u.db.collaboration_tasks
Served-Grows w u s = Effects-Grows w.db.collaboration_tasks (Served-Kept w s)

-- Over any history of the server, the tasks that are queued, handed over or running for an agent
-- stay within the limit if they are within it at the start.
pub Served-IsBounded : (w u : World) → Served w u → IsBounded w.db → IsBounded u.db
Served-IsBounded w u s b = record {
  at_target = λ target.
      bounded-Effects target w.db.collaboration_tasks (Served-Kept w s) (b.at_target target);
}

-- A task that was queued when it was started, whatever came of that, is never handed to an agent
-- again: after any further history of the server, under any replies, neither a start nor a steer
-- of a task of its identifier calls the manager or changes the store.
pub start-once :
    (env : Env) (a : Agent) (t : CollaborationTask) (w u : World)
    → any (queued_with_id t.id) w.db.collaboration_tasks ≡ true
    → Served (start_collaboration env a t w).1 u
    → (env' : Env) (a' : Agent) (r : Run)
    → (start_collaboration env' a' t u ≡ (done tt, u)) × ((steer_collaboration env' t r u).1 ≡ u)
start-once env a t w u queued s env' a' r =
    let first = (start_collaboration env a t w).1 in
    let over =
      IsOver-Effects t.id first.db.collaboration_tasks (Served-Kept first s)
        (start-IsOver env t a w queued) in
    (over-start_none env' t a' u over, over-steer_none env' t r u over)

-- A task that was queued when it was steered into a turn, with a reply that is not the turn's
-- refusal, is never handed to an agent again: after any further history of the server, under any
-- replies, neither a start nor a steer of a task of its identifier calls the manager or changes
-- the store.
pub steer-once :
    (env : Env) (t : CollaborationTask) (r : Run) (c : Conversation) (w u : World)
    → conversation r.conversation_id w.db ≡ ok c
    → is_conflict (env.runtime.steer_turn t.target_agent_id (steer_request t r c)) ≡ false
    → any (queued_with_id t.id) w.db.collaboration_tasks ≡ true
    → Served (steer_collaboration env t r w).1 u
    → (env' : Env) (a : Agent) (r' : Run)
    → (start_collaboration env' a t u ≡ (done tt, u)) × ((steer_collaboration env' t r' u).1 ≡ u)
steer-once env t r c w u found taken queued s env' a r' =
    let first = (steer_collaboration env t r w).1 in
    let over =
      IsOver-Effects t.id first.db.collaboration_tasks (Served-Kept first s)
        (steer-IsOver env t r c taken w found queued) in
    (over-start_none env' t a u over, over-steer_none env' t r' u over)

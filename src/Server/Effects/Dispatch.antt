-- ===== src/Server/Effects/Dispatch.antt =====
-- What the dispatcher does to the tasks, and how many it delivers.
use mathlib.Core.Path.{subst}
use codexbot.Common.{
  ℕ, suc, ◌≡◌, inl, inr, String, List, [], ◌∷◌, Option, none, some, arith, find?, ok, err, Result,
  Result-cases, ◌==◌, not_found,
}
use codexbot.Clock.{Time}
use codexbot.Domain.Task.{CollaborationTask}
use codexbot.Domain.Records.{Agent, Run, Conversation, is_scheduled}
use codexbot.Store.Database.{Db}
use codexbot.Store.Tasks.Growth.{Kept, complete-Kept, cancel-Kept, cancel_queued-Kept}
use codexbot.Store.Tasks.Frame.{ensure_agent_conversation-Same}
use codexbot.Store.Tasks.Notify.{enqueue_collaboration_completion}
use codexbot.Store.Tasks.Delivery.{collaboration_task}
use codexbot.Store.Runs.{run}
use codexbot.Server.World.{Env, skip, perform}
use codexbot.Server.Rules.{
  Does, mono-Does, pure-Does, fail-Does, settle-Does, skip-Does, read-Does, bind-Does, then-Does,
  try-Does, if-Does, write-Does, change-Does, perform-Does, query-Does,
}
use codexbot.Server.Completions.{
  enqueue_each, enqueue_collaboration_completions, filter_one, filter_collaboration_completions,
  without_created, reset_reason, is_current,
}
use codexbot.Server.Effects.{Same-Kept, start-Does}
use codexbot.Server.Effects.Steer.{steer-Does}
use codexbot.Server.Dispatch.{
  deliver_into, deliver, dispatch_filtered, dispatch_to, dispatch_pending, dispatch_collaboration,
  may_steer, is_steerable,
}

idle-Does : Does 1 skip
idle-Does = mono-Does 0 1 _ (omega arith) skip-Does

complete_one-Kept :
    (id prompt new : String) (now : Time) (db : Db) (u : CollaborationTask) (db' : Db)
    → without_created (enqueue_collaboration_completion id prompt new now db) ≡ ok (u, db')
    → Kept db db'
complete_one-Kept id prompt new now db u db' h =
    let all = complete-Kept id prompt new now db in
    elim (Result-cases (enqueue_collaboration_completion id prompt new now db)) [
      | inl ((u', fresh, mid), e) ↦
          let same : mid ≡ db' = ground (arith, e) in subst (Kept db) same (rw e at all)
      | inr (x, e) ↦ absurd (ground (arith, e))
    ]

module _ (env : Env) where
  complete_one-Does :
      (id prompt new : String) (now : Time)
      → Does 0
          (perform (λ db. without_created (enqueue_collaboration_completion id prompt new now db)))
  complete_one-Does id prompt new now =
      perform-Does _ (λ db u db' e. complete_one-Kept id prompt new now db u db' e)

  enqueue_each-Does : (n : ℕ) (ts : List CollaborationTask) → Does 0 (enqueue_each env n ts)
  unfolding enqueue_each
  enqueue_each-Does n [] = pure-Does _
  enqueue_each-Does n (t ∷ rest) =
      bind-Does 0 0 _ _ (try-Does 0 _ (complete_one-Does t.id _ _ _))
        (λ r. bind-Does 0 0 _ _ (enqueue_each-Does (suc n) rest) (λ later. pure-Does _))

  enqueue_completions-Does :
      (sender : String) → Does 0 (enqueue_collaboration_completions env sender)
  unfolding enqueue_collaboration_completions
  enqueue_completions-Does sender =
      bind-Does 0 0 _ _ (read-Does _)
        (λ tasks. bind-Does 0 0 _ _ (enqueue_each-Does 0 tasks) (λ r. settle-Does r))

  filter_one-Does :
      (n : ℕ) (a : Agent) (t : CollaborationTask) (r : Run) (c : Conversation)
      → Does 0 (filter_one env n a t r c)
  unfolding filter_one
  filter_one-Does n a t r c =
      if-Does 0 (is_current a r c) _ _ (pure-Does _)
        (change-Does _ (cancel-Kept t.id reset_reason (env.clock "filter" n)))

  filter-Does :
      (n : ℕ) (a : Agent) (ts : List CollaborationTask)
      → Does 0 (filter_collaboration_completions env n a ts)
  unfolding filter_collaboration_completions
  filter-Does n a [] = pure-Does _
  filter-Does n a (t ∷ ts) =
      if-Does 0 (t.notification_for_task_id == "") _ _
        (bind-Does 0 0 _ _ (filter-Does (suc n) a ts) (λ more. pure-Does _))
        (bind-Does 0 0 _ _ (query-Does (collaboration_task t.notification_for_task_id)) (λ original.
          bind-Does 0 0 _ _ (query-Does (run original.sender_run_id)) (λ r.
            bind-Does 0 0 _ _
              (perform-Does _ (λ db c db' e.
                Same-Kept db db' (ensure_agent_conversation-Same a.id _ _ db c db' e)))
              (λ c.
                bind-Does 0 0 _ _ (filter_one-Does n a t r c)
                  (λ kept. bind-Does 0 0 _ _ (filter-Does (suc n) a ts) (λ more. pure-Does _))))))

  deliver_into-Does : (r : Run) (o : Option CollaborationTask) → Does 1 (deliver_into env r o)
  unfolding deliver_into
  deliver_into-Does r none = idle-Does
  deliver_into-Does r (some t) = if-Does 1 (is_steerable r) _ _ (steer-Does env t r) idle-Does

  deliver-Does :
      (a : Agent) (t : CollaborationTask) (ts : List CollaborationTask) (active : Result Run)
      → Does 1 (deliver env a t ts active)
  unfolding deliver
  deliver-Does a t ts (ok r) =
      if-Does 1 (is_scheduled r.source) _ _ idle-Does
        (deliver_into-Does r (find? may_steer (t ∷ ts)))
  deliver-Does a t ts (err not_found) = start-Does env a t
  deliver-Does a t ts (err e) = mono-Does 0 1 _ (omega arith) (fail-Does _)

  dispatch_filtered-Does :
      (target : String) (a : Agent) (ts : List CollaborationTask)
      → Does 1 (dispatch_filtered env target a ts)
  unfolding dispatch_filtered
  dispatch_filtered-Does target a [] = idle-Does
  dispatch_filtered-Does target a (t ∷ ts) = bind-Does 0 1 _ _ (read-Does _) (λ human.
      bind-Does 0 1 _ _ (read-Does _)
        (λ active. if-Does 1 human _ _ idle-Does (deliver-Does a t ts active)))

  dispatch_to-Does :
      (target : String) (ts : List CollaborationTask) (found : Result Agent)
      → Does 1 (dispatch_to env target ts found)
  unfolding dispatch_to
  dispatch_to-Does target ts (err not_found) =
      mono-Does 0 1 _ (omega arith) (write-Does _ (cancel_queued-Kept target _ _))
  dispatch_to-Does target ts (err e) = mono-Does 0 1 _ (omega arith) (fail-Does _)
  dispatch_to-Does target ts (ok a) =
      bind-Does 0 1 _ _ (filter-Does 0 a ts) (dispatch_filtered-Does target a)

  dispatch_pending-Does :
      (target : String) (ts : List CollaborationTask) → Does 1 (dispatch_pending env target ts)
  unfolding dispatch_pending
  dispatch_pending-Does target [] = idle-Does
  dispatch_pending-Does target (t ∷ ts) =
      bind-Does 0 1 _ _ (read-Does _) (dispatch_to-Does target (t ∷ ts))

  -- Whatever the replies of the manager, a run of the dispatcher delivers at most one task, and
  -- what it does to the table of tasks is made of rows that evolve in the order of their statuses
  -- and of new rows for which there is room.
  pub dispatch-Does : (target : String) → Does 1 (dispatch_collaboration env target)
  unfolding dispatch_collaboration
  dispatch-Does target =
      then-Does 0 1 _ _ (enqueue_completions-Does target)
        (bind-Does 0 1 _ _ (read-Does _) (dispatch_pending-Does target))

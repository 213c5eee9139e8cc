-- ===== src/Store/Tasks/History.antt =====
-- Histories of the collaboration store: its operations as data, in any order, between which other
-- components may change the runs and the agents.
use codexbot.Common.{ℕ, Bool, String, List, [], ◌∷◌, ℤ, Result, ok, err}
use codexbot.Clock.{Time}
use codexbot.Domain.Records.{Agent, Run}
use codexbot.Store.Database.{Db}
use codexbot.Store.Tasks.Enqueue.{TaskRequest, enqueue_collaboration_task}
use codexbot.Store.Tasks.Delivery.{
  claim_collaboration_task, set_collaboration_task_output_cursor, set_collaboration_task_state,
  cancel_collaboration_task_with_reason, cancel_queued_collaboration_tasks,
  reconcile_collaboration_tasks, recover_collaboration_tasks,
}
use codexbot.Store.Tasks.Notify.{
  enqueue_collaboration_completion, suppress_collaboration_completions,
}

pub data Op : Type 0 where
  enqueue : TaskRequest → String → Time → Time → Op
  complete : String → String → String → Time → Op
  suppress : (ℕ → String) → (ℕ → Time) → String → String → Time → Op
  claim : String → String → Time → Op
  set_cursor : String → ℤ → Time → Op
  set_state : String → String → String → String → Time → Op
  cancel : String → String → Time → Op
  cancel_queued : String → String → Time → Op
  reconcile : Time → Op
  recover : Time → Time → Op
  -- what other components make of the runs and the agents
  elsewhere : List Run → List Agent → Op

-- An operation that fails leaves the database as it was.
abbrev pub after : Db → Result Db → Db
after db (ok db') = db'
after db (err e) = db

abbrev pub after_task {ℓ} : {A : Type ℓ} → Db → Result (A × Bool × Db) → Db
after_task db (ok (task, created, db')) = db'
after_task db (err e) = db

unfoldable pub step : Db → Op → Db
step db (enqueue r id now later) = after_task db (enqueue_collaboration_task r id now later db)
step db (complete original prompt id now) =
    after_task db (enqueue_collaboration_completion original prompt id now db)
step db (suppress uuid clock sender reason now) =
    after db (suppress_collaboration_completions uuid clock sender reason now db)
step db (claim id run_id now) = (claim_collaboration_task id run_id now db).1
step db (set_cursor id cursor now) =
    after db (set_collaboration_task_output_cursor id cursor now db)
step db (set_state id status run_id message now) =
    after db (set_collaboration_task_state id status run_id message now db)
step db (cancel id reason now) = (cancel_collaboration_task_with_reason id reason now db).1
step db (cancel_queued target reason now) = cancel_queued_collaboration_tasks target reason now db
step db (reconcile now) = reconcile_collaboration_tasks now db
step db (recover now later) = recover_collaboration_tasks now later db
step db (elsewhere runs agents) = record db { runs = runs; agents = agents }

unfoldable pub run_history : Db → List Op → Db
run_history db [] = db
run_history db (o ∷ os) = run_history (step db o) os

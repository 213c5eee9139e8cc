-- ===== src/Store/Tasks/Recovery.antt =====
-- What a restart and a reconciliation make of the tasks. Children have what lasts of it.
pub mod Final
pub mod Restart
use codexbot.Common.{
  ◌≡◌, refl, ◌∙◌, true, false, String, Option, none, some, arith, eq_iff, ◌==◌, eq_refl, ap, ◌⊎◌,
  any, find?, find?-update, any-update_none, if◌then◌else◌,
}
use codexbot.Clock.{Time}
use codexbot.Domain.Task.{CollaborationTask, TaskStatus, is_dispatching}
use codexbot.Domain.Records.{Run, RunStatus, RunSource}
use codexbot.Store.Database.{Db}
use codexbot.Store.Tasks.Enqueue.{has_id}
use codexbot.Store.Tasks.Delivery.{
  run_of, reconcilable, reconciled, settled_status, is_completed, is_in_flight, lost,
  reconcile_collaboration_tasks, recover_collaboration_tasks,
}

lost_moves : (now : Time) (t : CollaborationTask) → is_in_flight (lost now t) ≡ false
unfolding lost
lost_moves now t = refl

-- After a recovery no delivery is in flight.
pub recover_settles :
    (now later : Time) (db : Db)
    → any is_in_flight (recover_collaboration_tasks now later db).collaboration_tasks ≡ false
unfolding recover_collaboration_tasks
recover_settles now later db =
    any-update_none is_in_flight is_in_flight (lost later)
      (reconcile_collaboration_tasks now db).collaboration_tasks (λ t _. lost_moves later t)
      (λ t e. e)

reconciled-id :
    (now : Time) (r : Option Run) (t : CollaborationTask) → (reconciled now r t).id ≡ t.id
unfolding reconciled
reconciled-id now none t = refl
reconciled-id now (some r) t = refl

-- A reconciliation updates exactly the tasks that meet its test, each by its own run.
pub find?-reconcile :
    (id : String) (now : Time) (db : Db) (t : CollaborationTask)
    → find? (has_id id) db.collaboration_tasks ≡ some t
    → find? (has_id id) (reconcile_collaboration_tasks now db).collaboration_tasks
      ≡ some (if reconcilable (run_of db t) t then reconciled now (run_of db t) t else t)
unfolding reconcile_collaboration_tasks
find?-reconcile id now db t e =
    find?-update (λ u. reconcilable (run_of db u) u) (has_id id)
      (λ u. reconciled now (run_of db u) u) db.collaboration_tasks
      (λ u _. ground (arith, reconciled-id now (run_of db u) u))
    ∙ rw e

dispatching-not_reconcilable :
    (r : Option Run) (t : CollaborationTask)
    → is_dispatching t.status ≡ true
    → reconcilable r t ≡ false
dispatching-not_reconcilable none t h = refl
dispatching-not_reconcilable (some r) t h = ground arith

settled-not_dispatching :
    (now : Time) (r : Option Run) (t : CollaborationTask)
    → reconcilable r t ≡ true
    → is_dispatching (reconciled now r t).status ≡ false
unfolding reconciled
settled-not_dispatching now none t h = ground arith
settled-not_dispatching now (some r) t h = ground arith

-- What a recovery makes of a task.
abbrev pub recovered : Time → Time → Option Run → CollaborationTask → CollaborationTask
recovered now later r t =
    if is_dispatching t.status
    then lost later t
    else if reconcilable r t
    then reconciled now r t
    else t

recovered_in_steps :
    (now later : Time) (r : Option Run) (t : CollaborationTask)
    → (let u = (if reconcilable r t then reconciled now r t else t) in
        if is_in_flight u then lost later u else u)
      ≡ recovered now later r t
recovered_in_steps now later r t =
    ground (arith, dispatching-not_reconcilable r t, settled-not_dispatching now r t)

lost-id : (now : Time) (t : CollaborationTask) → (lost now t).id ≡ t.id
unfolding lost
lost-id now t = refl

-- A recovery makes an unknown end of exactly the deliveries that were in flight, takes the outcome
-- of a settled run to its task, and leaves every other task as it was: a queued one stays queued.
pub find?-recover :
    (id : String) (now later : Time) (db : Db) (t : CollaborationTask)
    → find? (has_id id) db.collaboration_tasks ≡ some t
    → find? (has_id id) (recover_collaboration_tasks now later db).collaboration_tasks
      ≡ some (recovered now later (run_of db t) t)
unfolding recover_collaboration_tasks
find?-recover id now later db t e =
    find?-update is_in_flight (has_id id) (lost later)
      (reconcile_collaboration_tasks now db).collaboration_tasks
      (λ u _. ground (arith, lost-id later u))
    ∙ rw (find?-reconcile id now db t e) (ap some (recovered_in_steps now later (run_of db t) t))

-- A task of unknown outcome that is no notification, whose own run is settled as unknown, is
-- written again by a reconciliation at any time, with the new time and nothing else but the
-- run's error.
pub reconcile_rewrites_unknown :
    (id : String) (now : Time) (db : Db) (t : CollaborationTask) (r : Run)
    → find? (has_id id) db.collaboration_tasks ≡ some t
    → t.status ≡ TaskStatus.unknown
    → t.notification_for_task_id ≡ ""
    → run_of db t ≡ some r
    → r.source ≡ RunSource.collaboration t.id
    → r.status ≡ RunStatus.unknown
    → find? (has_id id) (reconcile_collaboration_tasks now db).collaboration_tasks
      ≡ some (record t { status = TaskStatus.unknown; error = r.error; updated_at = now })
reconcile_rewrites_unknown id now db t r found unknown direct run own settled =
    find?-reconcile id now db t found
    ∙ rw run
        (unfold reconciled in ground (arith, eq_refl t.id, eq_iff t.notification_for_task_id ""))

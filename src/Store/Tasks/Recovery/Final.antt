-- ===== src/Store/Tasks/Recovery/Final.antt =====
-- What a reconciliation makes of a running task, and what lasts of it.
use codexbot.Common.{◌≡◌, refl, ◌∙◌, true, String, List, some, arith, eq_iff, find?}
use mathlib.Core.Path.{subst}
use codexbot.Clock.{Time}
use codexbot.Domain.Task.{CollaborationTask, TaskStatus}
use codexbot.Domain.Records.{Run, RunStatus}
use codexbot.Store.Database.{Db}
use codexbot.Store.Tasks.Enqueue.{has_id}
use codexbot.Store.Tasks.Delivery.{run_of, reconcilable, reconciled, reconcile_collaboration_tasks}
use codexbot.Store.Tasks.Evolution.{can_become}
use codexbot.Store.Tasks.History.{Op, run_history}
use codexbot.Store.Tasks.Retry.{find?-run_history}
use codexbot.Store.Tasks.Recovery.{find?-reconcile}

-- The ends of a run that are known, and the task's.
pub data Outcome : RunStatus → TaskStatus → Type 0 where
  completed : Outcome RunStatus.completed TaskStatus.completed
  failed : Outcome RunStatus.failed TaskStatus.failed
  interrupted : Outcome RunStatus.interrupted TaskStatus.interrupted

completed_stays :
    (to : TaskStatus) → can_become TaskStatus.completed to ≡ true → to ≡ TaskStatus.completed
completed_stays TaskStatus.completed h = refl
completed_stays _ h = absurd (ground arith)

failed_stays : (to : TaskStatus) → can_become TaskStatus.failed to ≡ true → to ≡ TaskStatus.failed
failed_stays TaskStatus.failed h = refl
failed_stays _ h = absurd (ground arith)

interrupted_stays :
    (to : TaskStatus) → can_become TaskStatus.interrupted to ≡ true → to ≡ TaskStatus.interrupted
interrupted_stays TaskStatus.interrupted h = refl
interrupted_stays _ h = absurd (ground arith)

Outcome-stays :
    {r : RunStatus} {s : TaskStatus} (to : TaskStatus)
    → Outcome r s
    → can_become s to ≡ true
    → to ≡ s
Outcome-stays to completed h = completed_stays to h
Outcome-stays to failed h = failed_stays to h
Outcome-stays to interrupted h = interrupted_stays to h

-- The text of an error that a task shows after its run: the run's, but a notification shows no more
-- than that the continuation did not complete.
pub record ShowsError (r : Run) (s : TaskStatus) (t u : CollaborationTask) : Type 0 where
  pub direct : t.notification_for_task_id ≡ "" → u.error ≡ r.error
  pub complete : ¬ (t.notification_for_task_id ≡ "") → s ≡ TaskStatus.completed → u.error ≡ ""
  pub incomplete :
      ¬ (t.notification_for_task_id ≡ "")
      → ¬ (s ≡ TaskStatus.completed)
      → u.error ≡ "requester continuation did not complete successfully"

-- What a reconciliation makes of a running task.
record Takes (now : Time) (r : Run) (s : TaskStatus) (t : CollaborationTask) : Type 0 where
  pub selected : t.status ≡ TaskStatus.running → reconcilable (some r) t ≡ true
  pub status : (reconciled now (some r) t).status ≡ s
  pub confirmed : (reconciled now (some r) t).delivery_confirmed ≡ true
  pub error : ShowsError r s t (reconciled now (some r) t)

Outcome-Takes :
    {rs : RunStatus} {s : TaskStatus} (now : Time) (r : Run) (t : CollaborationTask)
    → Outcome rs s
    → r.status ≡ rs
    → Takes now r s t
unfolding reconciled
Outcome-Takes now r t completed e = record {
  selected = λ running. ground (arith, e, running);
  status = ground (arith, e);
  confirmed = ground (arith, e);
  error = record {
    direct = λ n. ground (arith, e, n, eq_iff t.notification_for_task_id "");
    complete = λ n c. ground (arith, e, n, eq_iff t.notification_for_task_id "");
    incomplete = λ n c. absurd (c refl);
  };
}
Outcome-Takes now r t failed e = record {
  selected = λ running. ground (arith, e, running);
  status = ground (arith, e);
  confirmed = ground (arith, e);
  error = record {
    direct = λ n. ground (arith, e, n, eq_iff t.notification_for_task_id "");
    complete = λ n c. absurd (ground (arith, c));
    incomplete = λ n c. ground (arith, e, n, eq_iff t.notification_for_task_id "");
  };
}
Outcome-Takes now r t interrupted e = record {
  selected = λ running. ground (arith, e, running);
  status = ground (arith, e);
  confirmed = ground (arith, e);
  error = record {
    direct = λ n. ground (arith, e, n, eq_iff t.notification_for_task_id "");
    complete = λ n c. absurd (ground (arith, c));
    incomplete = λ n c. ground (arith, e, n, eq_iff t.notification_for_task_id "");
  };
}

-- A running task whose run completed, failed or was interrupted is, after a reconciliation, of that
-- status and confirmed; it shows the run's error, or if it is a notification, no more than that the
-- continuation did not complete. Whatever operations of the store follow, it keeps the status.
pub reconcile-Outcome :
    (id : String) (now : Time) (db : Db) (t : CollaborationTask) (r : Run) (s : TaskStatus)
    → find? (has_id id) db.collaboration_tasks ≡ some t
    → t.status ≡ TaskStatus.running
    → run_of db t ≡ some r
    → Outcome r.status s
    → (u : CollaborationTask) × (find?
          (has_id id)
          (reconcile_collaboration_tasks now db).collaboration_tasks
        ≡ some u)
      × (u.status ≡ s)
      × (u.delivery_confirmed ≡ true)
      × ShowsError r s t u
      × ((os : List Op)
          → (v : CollaborationTask) × (find?
                (has_id id)
                (run_history (reconcile_collaboration_tasks now db) os).collaboration_tasks
              ≡ some v)
            × (v.status ≡ s))
reconcile-Outcome id now db t r s found running run ended =
    let k = Outcome-Takes now r t ended refl in
    let u = reconciled now (some r) t in
    let at : find? (has_id id) (reconcile_collaboration_tasks now db).collaboration_tasks ≡ some u =
      find?-reconcile id now db t found ∙ rw (run, k.selected running) refl in
    (
      u,
      at,
      k.status,
      k.confirmed,
      k.error,
      λ os.
          let (v, later, ev) =
            find?-run_history id (reconcile_collaboration_tasks now db) u os at in
          (
            v,
            later,
            Outcome-stays v.status ended
                (subst (λ (x : TaskStatus). can_become x v.status ≡ true) k.status ev.moved),
          ),
    )

-- ===== src/Store/Tasks/Recovery/Restart.antt =====
-- What a restart makes of the tasks, and what lasts of it.
use codexbot.Common.{
  ◌≡◌, refl, ap, ◌∙◌, ◌⊎◌, inl, inr, true, false, String, List, Option, none, some, arith, find?,
}
use codexbot.Clock.{Time}
use codexbot.Domain.Task.{
  CollaborationTask, TaskStatus, is_queued, is_dispatching, is_running, is_unknown,
}
use codexbot.Domain.Records.{Run, RunStatus}
use codexbot.Store.Database.{Db}
use codexbot.Store.Tasks.Enqueue.{has_id}
use codexbot.Store.Tasks.Delivery.{run_of, lost, recover_collaboration_tasks}
use codexbot.Store.Tasks.Evolution.{can_become}
use codexbot.Store.Tasks.History.{Op, run_history}
use codexbot.Store.Tasks.Retry.{find?-run_history}
use codexbot.Store.Tasks.Recovery.{find?-recover, recovered}

unknown_settled :
    (to : TaskStatus)
    → can_become TaskStatus.unknown to ≡ true
    → (is_queued to ≡ false) × (is_dispatching to ≡ false)
unknown_settled TaskStatus.queued h = absurd (ground arith)
unknown_settled TaskStatus.dispatching h = absurd (ground arith)
unknown_settled _ h = (refl, refl)

-- What a recovery leaves of a task that was handed over when the server stopped.
abbrev pub lost_task : Time → CollaborationTask → CollaborationTask
lost_task later t = record t {
  status = TaskStatus.unknown;
  error = "delivery outcome unknown after server restart";
  updated_at = later;
}

dispatching_lost :
    (now later : Time) (r : Option Run) (t : CollaborationTask)
    → t.status ≡ TaskStatus.dispatching
    → recovered now later r t ≡ lost_task later t
unfolding lost
dispatching_lost now later r t h = ground (arith, h)

status_stays :
    (now later : Time) (r : Option Run) (t : CollaborationTask)
    → is_dispatching t.status ≡ false
    → is_running t.status ≡ false
    → is_unknown t.status ≡ false
    → recovered now later r t ≡ t
status_stays now later none t a b c = ground (arith, a)
status_stays now later (some r) t a b c = ground (arith, a, b, c)

active_stays :
    (now later : Time) (r : Run) (t : CollaborationTask)
    → t.status ≡ TaskStatus.running
    → (r.status ≡ RunStatus.queued) ⊎ (r.status ≡ RunStatus.running)
    → recovered now later (some r) t ≡ t
active_stays now later r t running (inl e) = ground (arith, running, e)
active_stays now later r t running (inr e) = ground (arith, running, e)

-- A task that a recovery leaves alone: queued or ended, or running with a run that has not ended.
pub data IsLeft (db : Db) (t : CollaborationTask) : Type 0 where
  queued : t.status ≡ TaskStatus.queued → IsLeft db t
  completed : t.status ≡ TaskStatus.completed → IsLeft db t
  failed : t.status ≡ TaskStatus.failed → IsLeft db t
  interrupted : t.status ≡ TaskStatus.interrupted → IsLeft db t
  cancelled : t.status ≡ TaskStatus.cancelled → IsLeft db t
  running :
      (r : Run)
      → t.status ≡ TaskStatus.running
      → run_of db t ≡ some r
      → (r.status ≡ RunStatus.queued) ⊎ (r.status ≡ RunStatus.running)
      → IsLeft db t

left_stays :
    (now later : Time) (db : Db) (t : CollaborationTask)
    → IsLeft db t
    → recovered now later (run_of db t) t ≡ t
left_stays now later db t (queued e) =
    status_stays now later (run_of db t) t (ground (arith, e)) (ground (arith, e))
      (ground (arith, e))
left_stays now later db t (completed e) =
    status_stays now later (run_of db t) t (ground (arith, e)) (ground (arith, e))
      (ground (arith, e))
left_stays now later db t (failed e) =
    status_stays now later (run_of db t) t (ground (arith, e)) (ground (arith, e))
      (ground (arith, e))
left_stays now later db t (interrupted e) =
    status_stays now later (run_of db t) t (ground (arith, e)) (ground (arith, e))
      (ground (arith, e))
left_stays now later db t (cancelled e) =
    status_stays now later (run_of db t) t (ground (arith, e)) (ground (arith, e))
      (ground (arith, e))
left_stays now later db t (running r e run active) = rw run (active_stays now later r t e active)

module _ (id : String) (now later : Time) (db : Db) (t : CollaborationTask)
    (found : find? (has_id id) db.collaboration_tasks ≡ some t) where
  -- A recovery makes an unknown end of a task that was being handed over, with the text that says
  -- so and the time of the recovery, and it is neither queued nor handed over again, whatever
  -- operations of the store follow.
  pub recover_lost :
      t.status ≡ TaskStatus.dispatching
      → (find? (has_id id) (recover_collaboration_tasks now later db).collaboration_tasks
          ≡ some (lost_task later t))
        × ((os : List Op)
            → (v : CollaborationTask) × (find?
                  (has_id id)
                  (run_history (recover_collaboration_tasks now later db) os).collaboration_tasks
                ≡ some v)
              × (is_queued v.status ≡ false)
              × (is_dispatching v.status ≡ false))
  recover_lost in_flight =
      let here : find? (has_id id) (recover_collaboration_tasks now later db).collaboration_tasks
          ≡ some (lost_task later t) =
        find?-recover id now later db t found
        ∙ ap some (dispatching_lost now later (run_of db t) t in_flight) in
      (
        here,
        λ os.
            let (v, after, ev) =
              find?-run_history id (recover_collaboration_tasks now later db) (lost_task later t) os
                here in
            let (waits, flies) = unknown_settled v.status ev.moved in (v, after, waits, flies),
      )

  -- A recovery leaves a task as it was that is queued, or that completed, failed, was interrupted
  -- or was cancelled, and so a running one whose run is still queued or running.
  pub recover_left :
      IsLeft db t
      → find? (has_id id) (recover_collaboration_tasks now later db).collaboration_tasks ≡ some t
  recover_left left =
      find?-recover id now later db t found ∙ ap some (left_stays now later db t left)

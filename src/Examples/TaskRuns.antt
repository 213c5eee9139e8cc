-- ===== src/Examples/TaskRuns.antt =====
-- Examples of collaboration tasks.
use codexbot.Common.{
  inr, ◌≡◌, refl, true, false, List, [], ◌∷◌, some, arith, eq_iff, ok, any, find?,
}
use codexbot.Domain.Task.{CollaborationTask, TaskStatus, CompletionMode, is_queued, is_dispatching}
use codexbot.Domain.Records.{RunStatus}
use codexbot.Store.Database.{Db}
use codexbot.Store.Tasks.Evolution.{Evolves}
use codexbot.Store.Tasks.Enqueue.{has_id, enqueue_collaboration_task, pending_for, max_pending}
use codexbot.Store.Tasks.Notify.{
  suppress_collaboration_completions, awaits_completion, queued_notification_for,
}
use codexbot.Store.Tasks.Delivery.{
  run_of, is_in_flight, recover_collaboration_tasks, reconcile_collaboration_tasks, settled_status,
}
use codexbot.Store.Tasks.History.{Op, run_history}
use codexbot.Store.Tasks.Retry.{enqueue_retry}
use codexbot.Store.Tasks.Suppression.{suppress_complete}
use codexbot.Store.Tasks.Recovery.{reconcile_rewrites_unknown}
use codexbot.Store.Tasks.Recovery.Final.{Outcome, ShowsError, reconcile-Outcome}
use codexbot.Store.Tasks.Recovery.Restart.{IsLeft, lost_task, recover_lost, recover_left}
use codexbot.Examples.Data.{empty_db, request, submitted, task_in, run_in, with_tasks, db_of}

abbrev ops : List Op
ops = Op.claim "task" "run" 6 ∷ Op.set_state "task" "failed" "run" "broken" 7 ∷ []

made :
    enqueue_collaboration_task request "fresh" 5 5 empty_db
    ≡ ok (submitted, true, with_tasks (submitted ∷ []) [])
unfolding enqueue_collaboration_task codexbot.Store.Tasks.Enqueue.is_well_formed
    codexbot.Domain.Text.is_blank codexbot.Domain.Text.byte_length
    codexbot.Store.Tasks.Enqueue.task_mode codexbot.Store.Tasks.Enqueue.completion_mode
    codexbot.Store.Tasks.Enqueue.resolve codexbot.Store.Tasks.Enqueue.submit
    codexbot.Store.Tasks.Enqueue.insert_collaboration_task
made = refl

enqueue_retry_example :
    (u : CollaborationTask) × (enqueue_collaboration_task request "other" 8 9
        (run_history (with_tasks (submitted ∷ []) []) ops)
      ≡ ok (u, false, run_history (with_tasks (submitted ∷ []) []) ops))
    × Evolves submitted u
enqueue_retry_example =
    enqueue_retry request "fresh" 5 5 empty_db submitted (with_tasks (submitted ∷ []) []) made ops
      "other" 8 9

abbrev waiting_db : Db
waiting_db =
    with_tasks (task_in TaskStatus.running CompletionMode.notify ∷ [])
      (run_in RunStatus.running ∷ [])

abbrev suppressed_db : Db
suppressed_db =
    db_of (suppress_collaboration_completions (λ n. "note") (λ n. 6) "alice" "" 7 waiting_db)

suppressed :
    suppress_collaboration_completions (λ n. "note") (λ n. 6) "alice" "" 7 waiting_db
    ≡ ok suppressed_db
unfolding suppress_collaboration_completions codexbot.Store.Tasks.Notify.suppress_each
    codexbot.Store.Tasks.Notify.notify_sender codexbot.Store.Tasks.Enqueue.insert_collaboration_task
    codexbot.Store.Tasks.Notify.notification
suppressed = refl

suppress_complete_example :
    (any (awaits_completion "alice") suppressed_db.collaboration_tasks ≡ false)
    × (any (queued_notification_for "alice") suppressed_db.collaboration_tasks ≡ false)
suppress_complete_example =
    suppress_complete (λ n. "note") (λ n. 6) (λ n e. ground (arith, (eq_iff "note" "").1 e)) "alice"
      "" 7 waiting_db suppressed_db suppressed

abbrev in_flight_db : Db
in_flight_db =
    with_tasks (task_in TaskStatus.dispatching CompletionMode.poll ∷ [])
      (run_in RunStatus.running ∷ [])

recover_lost_example :
    (find? (has_id "task") (recover_collaboration_tasks 6 7 in_flight_db).collaboration_tasks
      ≡ some (lost_task 7 (task_in TaskStatus.dispatching CompletionMode.poll)))
    × ((os : List Op)
        → (v : CollaborationTask) × (find?
              (has_id "task")
              (run_history (recover_collaboration_tasks 6 7 in_flight_db) os).collaboration_tasks
            ≡ some v)
          × (is_queued v.status ≡ false)
          × (is_dispatching v.status ≡ false))
recover_lost_example =
    recover_lost "task" 6 7 in_flight_db (task_in TaskStatus.dispatching CompletionMode.poll) refl
      refl

abbrev running_db : Db
running_db =
    with_tasks (task_in TaskStatus.running CompletionMode.poll ∷ []) (run_in RunStatus.running ∷ [])

recover_left_example :
    find? (has_id "task") (recover_collaboration_tasks 6 7 running_db).collaboration_tasks
    ≡ some (task_in TaskStatus.running CompletionMode.poll)
unfolding codexbot.Store.Tasks.Delivery.run_of
recover_left_example =
    recover_left "task" 6 7 running_db (task_in TaskStatus.running CompletionMode.poll) refl
      (IsLeft.running (run_in RunStatus.running) refl refl (inr refl))

abbrev settled_db : Db
settled_db =
    with_tasks (task_in TaskStatus.running CompletionMode.poll ∷ []) (run_in RunStatus.failed ∷ [])

reconcile-Outcome_example :
    (u : CollaborationTask) × (find?
        (has_id "task")
        (reconcile_collaboration_tasks 6 settled_db).collaboration_tasks
      ≡ some u)
    × (u.status ≡ TaskStatus.failed)
    × (u.delivery_confirmed ≡ true)
    × ShowsError
        (run_in RunStatus.failed)
        TaskStatus.failed
        (task_in TaskStatus.running CompletionMode.poll)
        u
    × ((os : List Op)
        → (v : CollaborationTask) × (find?
              (has_id "task")
              (run_history (reconcile_collaboration_tasks 6 settled_db) os).collaboration_tasks
            ≡ some v)
          × (v.status ≡ TaskStatus.failed))
unfolding codexbot.Store.Tasks.Delivery.run_of
reconcile-Outcome_example =
    reconcile-Outcome "task" 6 settled_db (task_in TaskStatus.running CompletionMode.poll)
      (run_in RunStatus.failed) TaskStatus.failed refl refl refl Outcome.failed

abbrev unknown_db : Db
unknown_db =
    with_tasks (task_in TaskStatus.unknown CompletionMode.poll ∷ []) (run_in RunStatus.unknown ∷ [])

reconcile_rewrites_unknown_example :
    find? (has_id "task") (reconcile_collaboration_tasks 6 unknown_db).collaboration_tasks
    ≡ some
        (record (task_in TaskStatus.unknown CompletionMode.poll) { error = "lost"; updated_at = 6 })
unfolding codexbot.Store.Tasks.Delivery.run_of
reconcile_rewrites_unknown_example =
    reconcile_rewrites_unknown "task" 6 unknown_db (task_in TaskStatus.unknown CompletionMode.poll)
      (run_in RunStatus.unknown) refl refl refl refl refl refl

-- ===== src/Store/Tasks/Inversion.antt =====
-- What a successful submission or notification did to the database.
use codexbot.Common.{
  ◌≡◌, ◌<◌, sym, ◌⊎◌, inl, inr, true, false, not, ◌&&◌, ◌||◌, String, Option, none, some, arith,
  any, count, update, insert, ◌==◌, eq_iff, Bool-cases, Option-cases, ok, guard, or_fail,
  Result-cases, ltb, find?,
}
use mathlib.Core.Path.{subst}
use codexbot.Clock.{Time}
use codexbot.Domain.Text.{is_blank, byte_length}
use codexbot.Domain.Task.{
  CollaborationTask, TaskMode, CompletionMode, is_notify, is_terminal, is_pending,
}
use codexbot.Store.Database.{Db}
use codexbot.Store.Tasks.Enqueue.{
  TaskRequest, max_pending, has_id, has_key, pending_for, insert_collaboration_task, new_task,
  submit, resolve, enqueue_collaboration_task, task_mode, completion_mode, is_well_formed,
}
use codexbot.Store.Tasks.Delivery.{collaboration_task}
use codexbot.Store.Tasks.History.{after_task}
use codexbot.Store.Tasks.Notify.{
  notification, final_reason, unlinked_with_id, linked, notify_sender, complete_original,
  enqueue_collaboration_completion,
}

-- The row that was inserted met the constraints, and is the only change.
pub record Inserted (db : Db) (t : CollaborationTask) (db' : Db) : Type 0 where
  pub result : db' ≡ record db { collaboration_tasks = insert t db.collaboration_tasks }
  pub new_id : any (has_id t.id) db.collaboration_tasks ≡ false
  pub new_key : any (has_key t.sender_agent_id t.idempotency_key) db.collaboration_tasks ≡ false
  pub other_agent : (t.sender_agent_id == t.target_agent_id) ≡ false
  pub first_notice :
      (t.notification_for_task_id == "")
        || not (
            any
              (λ u. u.notification_for_task_id == t.notification_for_task_id)
              db.collaboration_tasks)
      ≡ true

pub insert-ok :
    (db : Db) (t : CollaborationTask) (db' : Db)
    → insert_collaboration_task db t ≡ ok db'
    → Inserted db t db'
unfolding insert_collaboration_task
insert-ok db t db' h = record {
  result = ground arith;
  new_id = ground arith;
  new_key = ground arith;
  other_agent = ground arith;
  first_notice = ground arith;
}

module _ (r : TaskRequest) (m : TaskMode) (c : CompletionMode) (id : String) (now later : Time)
    (db : Db) where
  pub submit-ok :
      (t : CollaborationTask) (db' : Db)
      → submit r m c id now later db ≡ ok (t, db')
      → (t ≡ new_task r m c id now later)
        × (insert_collaboration_task db (new_task r m c id now later) ≡ ok db')
        × (count (pending_for r.target_agent_id) db.collaboration_tasks < max_pending)
  unfolding submit
  submit-ok t db' h =
      elim (Result-cases (insert_collaboration_task db (new_task r m c id now later))) [
        | inl (mid, e) ↦ ground (arith, e)
        | inr (x, e) ↦ absurd (ground (arith, e))
      ]

module _ (original : CollaborationTask) (prompt given id : String) (now : Time) (db : Db) where
  abbrev pub notice : CollaborationTask
  notice = notification original prompt (final_reason db original.sender_agent_id given) id now

  pub notify_sender-ok :
      (t : CollaborationTask) (db' : Db)
      → notify_sender original prompt given id now db ≡ ok (t, db')
      → (t ≡ notice)
        × (is_pending t.status ≡ true
            → count (pending_for original.sender_agent_id) db.collaboration_tasks < max_pending)
        × (t.target_agent_id ≡ original.sender_agent_id)
        × (mid : Db) × Inserted db t mid
        × (any (unlinked_with_id original.id) mid.collaboration_tasks ≡ true)
        × (db' ≡ record mid {
          collaboration_tasks =
              update (unlinked_with_id original.id) (linked id now) mid.collaboration_tasks;
        })
  unfolding notify_sender notification
  notify_sender-ok t db' h = elim (Result-cases (insert_collaboration_task db notice)) [
    | inl (mid, e) ↦ ground (arith, e, insert-ok db _ mid e)
    | inr (x, e) ↦ absurd (ground (arith, e))
  ]

module _ (r : TaskRequest) (id : String) (now later : Time) (db : Db) where
  -- A submission leaves the database as it was, or went through `submit` for a new key.
  abbrev pub Submitted : Db → Type 0
  Submitted db' =
      (db' ≡ db)
      ⊎ ((m : TaskMode) × (c : CompletionMode) × (t : CollaborationTask) × (submit r m c id now
              later db
            ≡ ok (t, db')))

  resolve-Submitted :
      (m : TaskMode) (c : CompletionMode) (o : Option CollaborationTask)
      → Submitted (after_task db (resolve r m c id now later db o))
  unfolding resolve
  resolve-Submitted m c (some t) = inl (ground arith)
  resolve-Submitted m c none = elim (Result-cases (submit r m c id now later db)) [
    | inl ((t, db'), e) ↦ rw (e, resolve) (inr (m, c, t, e))
    | inr (x, e) ↦ inl (ground (arith, e))
  ]

  pub enqueue-Submitted : Submitted (after_task db (enqueue_collaboration_task r id now later db))
  unfolding enqueue_collaboration_task
  enqueue-Submitted = elim (Bool-cases (is_well_formed r)) [
    | inr e ↦ inl (rw (e, guard))
    | inl e ↦ elim (Option-cases (task_mode r.mode)) [
      | inl e' ↦ inl (rw (e, e', guard, or_fail))
      | inr (m, e') ↦ elim (Option-cases (completion_mode r.completion_mode)) [
        | inl e'' ↦ inl (rw (e, e', e''))
        | inr (c, e'') ↦ rw (e, e', e'') (resolve-Submitted m c _)
      ]
    ]
  ]

-- A completion leaves the database as it was, or notified the sender of a task that ended, wanted
-- it and had no notification yet.
abbrev pub Completed : String → String → String → Time → Db → Db → Type 0
Completed task prompt id now db db' =
    (db' ≡ db)
    ⊎ ((original : CollaborationTask) × (t : CollaborationTask) × (find? (has_id task)
            db.collaboration_tasks
          ≡ some original)
        × (is_notify original.completion_mode ≡ true)
        × (is_terminal original.status ≡ true)
        × (original.completion_task_id ≡ "")
        × (notify_sender original prompt "" id now db ≡ ok (t, db')))

module _ (task prompt id : String) (now : Time) (db : Db) where
  complete_original-Completed :
      (o : CollaborationTask)
      → find? (has_id task) db.collaboration_tasks ≡ some o
      → Completed task prompt id now db (after_task db (complete_original o prompt id now db))
  unfolding complete_original collaboration_task
  complete_original-Completed o found = elim (Bool-cases (o.completion_task_id == "")) [
    | inr e ↦ inl (ground (arith, e))
    | inl e ↦ elim (Bool-cases (is_notify o.completion_mode && is_terminal o.status)) [
      | inr e' ↦ inl (ground (arith, e, e'))
      | inl e' ↦ elim (Result-cases (notify_sender o prompt "" id now db)) [
        | inr (x, n) ↦ inl (ground (arith, e, e', n))
        | inl ((t, db'), n) ↦
            let both : (is_notify o.completion_mode ≡ true) × (is_terminal o.status ≡ true) =
              ground (arith, e') in
            rw (e, both.0, both.1, n)
              (inr (o, t, found, both.0, both.1, (eq_iff o.completion_task_id "").0 e, n))
      ]
    ]
  ]

  pub complete-Completed :
      Completed task prompt id now db
        (after_task db (enqueue_collaboration_completion task prompt id now db))
  unfolding enqueue_collaboration_completion collaboration_task
  complete-Completed = elim (Bool-cases (not (is_blank prompt || ltb 65536 (byte_length prompt)))) [
    | inr e ↦ inl (rw (e, guard))
    | inl e ↦ elim (Option-cases (find? (has_id task) db.collaboration_tasks)) [
      | inl e' ↦ inl (rw (e, e', or_fail))
      | inr (o, e') ↦
          let found : enqueue_collaboration_completion task prompt id now db
              ≡ complete_original o prompt id now db =
            rw (e, e') in
          subst (λ r. Completed task prompt id now db (after_task db r)) (sym found)
            (complete_original-Completed o e')
    ]
  ]

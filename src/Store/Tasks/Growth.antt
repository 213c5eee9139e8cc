-- ===== src/Store/Tasks/Growth.antt =====
-- What each operation does to the table of tasks.
use codexbot.Common.{
  ℕ, suc, ◌<◌, ◌≡◌, sym, inl, inr, Bool, true, String, List, [], ◌∷◌, Option, none, some, arith, ℤ,
  pos, negsuc, eq_iff, any, count, select, ok, Result-cases, Option-cases, Bool-cases,
}
use mathlib.Core.Path.{subst}
use codexbot.Clock.{Time}
use codexbot.Domain.Task.{CollaborationTask, TaskStatus, is_queued, is_pending}
use codexbot.Domain.Records.{Run}
use codexbot.Store.Database.{Db}
use codexbot.Store.Tasks.Evolution.{Evolves, Grows}
use codexbot.Store.Tasks.Effects.{Effects, here, changed, added, Effects-trans, Effects-Grows}
use codexbot.Store.Tasks.Enqueue.{max_pending, pending_for, TaskRequest, enqueue_collaboration_task}
use codexbot.Store.Tasks.Delivery.{
  claimed, with_cursor, with_state, cancelled, reconciled, lost, queued_with_id,
  dispatching_with_id, settable_with_id, settable_status, reconcilable, run_of, is_in_flight,
  update_tasks, claim_collaboration_task, set_collaboration_task_output_cursor,
  set_collaboration_task_state, cancel_collaboration_task_with_reason,
  cancel_queued_collaboration_tasks, reconcile_collaboration_tasks, recover_collaboration_tasks,
}
use codexbot.Store.Tasks.Notify.{
  unlinked_with_id, linked, notify_sender, enqueue_collaboration_completion, suppress_each,
  queued_notification_for, awaits_completion, sender_reason, suppressed_prompt,
  suppress_collaboration_completions,
}
use codexbot.Store.Tasks.Inversion.{
  Inserted, insert-ok, submit-ok, notify_sender-ok, enqueue-Submitted, complete-Completed,
}
use codexbot.Store.Tasks.History.{Op, after, after_task, step, run_history}

abbrev pub Kept : Db → Db → Type 0
Kept db db' = Effects db.collaboration_tasks db'.collaboration_tasks

module _ (now : Time) (t : CollaborationTask) where
  pub claimed-Evolves :
      (id run : String) → queued_with_id id t ≡ true → Evolves t (claimed run now t)
  unfolding claimed
  claimed-Evolves id run h = ground arith

  with_cursor-Evolves :
      (id : String) (n : ℕ) → dispatching_with_id id t ≡ true → Evolves t (with_cursor n now t)
  unfolding with_cursor
  with_cursor-Evolves id n h = ground arith

  with_state-Evolves :
      (id run message : String) (to : TaskStatus)
      → settable_with_id id to t ≡ true
      → Evolves t (with_state to run message now t)
  unfolding with_state
  with_state-Evolves id run message to h = ground arith

  pub cancelled-Evolves :
      (reason : String) → is_queued t.status ≡ true → Evolves t (cancelled reason now t)
  unfolding cancelled
  cancelled-Evolves reason h = ground arith

  reconciled-Evolves : (r : Option Run) → reconcilable r t ≡ true → Evolves t (reconciled now r t)
  unfolding reconciled
  reconciled-Evolves none h = ground arith
  reconciled-Evolves (some r) h = ground arith

  lost-Evolves : is_in_flight t ≡ true → Evolves t (lost now t)
  unfolding lost
  lost-Evolves h = ground arith

  linked-Evolves :
      (id completion : String) → unlinked_with_id id t ≡ true → Evolves t (linked completion now t)
  unfolding linked
  linked-Evolves id completion h = ground (arith, eq_iff t.completion_task_id "")

insert-Kept :
    (db : Db) (t : CollaborationTask) (db' : Db)
    → Inserted db t db'
    → (is_pending t.status ≡ true
        → count (pending_for t.target_agent_id) db.collaboration_tasks < max_pending)
    → Kept db db'
insert-Kept db t db' i room = rw i.result (added here t i.new_id room)

pub update-Kept :
    (p : CollaborationTask → Bool) (f : CollaborationTask → CollaborationTask) (db : Db)
    → ((t : CollaborationTask) → p t ≡ true → Evolves t (f t))
    → Kept db (update_tasks p f db).1
update-Kept p f db h = changed here p f h

pub Kept-trans : (a b c : Db) → Kept a b → Kept b c → Kept a c
Kept-trans a b c = Effects-trans

notify-Kept :
    (o : CollaborationTask) (prompt given id : String) (now : Time) (db : Db)
    (t : CollaborationTask) (db' : Db)
    → notify_sender o prompt given id now db ≡ ok (t, db')
    → Kept db db'
notify-Kept o prompt given id now db t db' h =
    let (_, room, target, mid, i, _, last) = notify_sender-ok o prompt given id now db t db' h in
    let space = λ (p : is_pending t.status ≡ true).
      subst (λ (s : String). count (pending_for s) db.collaboration_tasks < max_pending)
        (sym target) (room p) in
    rw last (changed (insert-Kept db t mid i space) _ _ (λ u. linked-Evolves now u o.id id))

module _ (uuid : ℕ → String) (clock : ℕ → Time) where
  suppress_each-Kept :
      (reason : String) (n : ℕ) (os : List CollaborationTask) (db db' : Db)
      → suppress_each uuid clock reason n os db ≡ ok db'
      → Kept db db'
  unfolding suppress_each
  suppress_each-Kept reason n [] db db' h =
      let e : db ≡ db' = ground arith in subst (Kept db) e here
  suppress_each-Kept reason n (o ∷ os) db db' h =
      elim (Result-cases (notify_sender o suppressed_prompt reason (uuid n) (clock n) db)) [
        | inl ((t, mid), e) ↦
            Kept-trans db mid db'
              (notify-Kept o suppressed_prompt reason (uuid n) (clock n) db t mid e)
              (suppress_each-Kept reason (suc n) os mid db' (rw (e, suppress_each) at h))
        | inr (x, e) ↦ absurd (ground (arith, e))
      ]

  suppress-Kept :
      (sender reason : String) (now : Time) (db : Db)
      → Kept db (after db (suppress_collaboration_completions uuid clock sender reason now db))
  unfolding suppress_collaboration_completions
  suppress-Kept sender reason now db =
      let originals = select (awaits_completion sender) db.collaboration_tasks in
      let each = suppress_each uuid clock (sender_reason reason) 0 originals db in
      elim (Result-cases each) [
        | inl (mid, e) ↦ rw e (
            changed (suppress_each-Kept (sender_reason reason) 0 originals db mid e)
              (queued_notification_for sender) (cancelled (sender_reason reason) now)
              (λ t h. cancelled-Evolves now t (sender_reason reason) (ground arith)))
        | inr (x, e) ↦ rw e here
      ]

enqueue-Kept :
    (r : TaskRequest) (id : String) (now later : Time) (db : Db)
    → Kept db (after_task db (enqueue_collaboration_task r id now later db))
enqueue-Kept r id now later db = elim (enqueue-Submitted r id now later db) [
  | inl e ↦ rw e here
  | inr (m, c, t, e) ↦
      let (_, i, room) = submit-ok r m c id now later db t _ e in
      insert-Kept db _ _ (insert-ok db _ _ i) (λ _. room)
]

pub complete-Kept :
    (task prompt id : String) (now : Time) (db : Db)
    → Kept db (after_task db (enqueue_collaboration_completion task prompt id now db))
complete-Kept task prompt id now db = elim (complete-Completed task prompt id now db) [
  | inl e ↦ rw e here
  | inr (o, t, _, _, _, _, e) ↦ notify-Kept o prompt "" id now db t _ e
]

pub set_state-Kept :
    (id status run message : String) (now : Time) (db : Db)
    → Kept db (after db (set_collaboration_task_state id status run message now db))
unfolding set_collaboration_task_state
set_state-Kept id status run message now db = elim (Option-cases (settable_status status)) [
  | inl e ↦ rw e here
  | inr (to, e) ↦ elim (Bool-cases (any (settable_with_id id to) db.collaboration_tasks)) [
    | inl e' ↦ rw (e, e') (update-Kept _ _ db (λ t. with_state-Evolves now t id run message to))
    | inr e' ↦ rw (e, e') here
  ]
]

pub set_cursor-Kept :
    (id : String) (cursor : ℤ) (now : Time) (db : Db)
    → Kept db (after db (set_collaboration_task_output_cursor id cursor now db))
unfolding set_collaboration_task_output_cursor
set_cursor-Kept id (negsuc n) now db = here
set_cursor-Kept id (pos n) now db =
    elim (Bool-cases (any (dispatching_with_id id) db.collaboration_tasks)) [
      | inl e ↦ rw e (update-Kept _ _ db (λ t. with_cursor-Evolves now t id n))
      | inr e ↦ rw e here
    ]

pub reconcile-Kept : (now : Time) (db : Db) → Kept db (reconcile_collaboration_tasks now db)
unfolding reconcile_collaboration_tasks
reconcile-Kept now db = update-Kept _ _ db (λ t. reconciled-Evolves now t (run_of db t))

pub cancel-Kept :
    (id reason : String) (now : Time) (db : Db)
    → Kept db (cancel_collaboration_task_with_reason id reason now db).1
unfolding cancel_collaboration_task_with_reason
cancel-Kept id reason now db =
    update-Kept _ _ db (λ t h. cancelled-Evolves now t reason (ground arith))

pub cancel_queued-Kept :
    (target reason : String) (now : Time) (db : Db)
    → Kept db (cancel_queued_collaboration_tasks target reason now db)
unfolding cancel_queued_collaboration_tasks
cancel_queued-Kept target reason now db =
    update-Kept _ _ db (λ t h. cancelled-Evolves now t reason (ground arith))

-- Every operation makes such changes.
pub step-Effects :
    (db : Db) (o : Op) → Effects db.collaboration_tasks (step db o).collaboration_tasks
unfolding step claim_collaboration_task recover_collaboration_tasks
step-Effects db (Op.enqueue r id now later) = enqueue-Kept r id now later db
step-Effects db (Op.complete task prompt id now) = complete-Kept task prompt id now db
step-Effects db (Op.suppress uuid clock sender reason now) =
    suppress-Kept uuid clock sender reason now db
step-Effects db (Op.claim id run now) = update-Kept _ _ db (λ t. claimed-Evolves now t id run)
step-Effects db (Op.set_cursor id cursor now) = set_cursor-Kept id cursor now db
step-Effects db (Op.set_state id status run message now) =
    set_state-Kept id status run message now db
step-Effects db (Op.cancel id reason now) = cancel-Kept id reason now db
step-Effects db (Op.cancel_queued target reason now) = cancel_queued-Kept target reason now db
step-Effects db (Op.reconcile now) = reconcile-Kept now db
step-Effects db (Op.recover now later) = changed (reconcile-Kept now db) _ _ (lost-Evolves later)
step-Effects db (Op.elsewhere runs agents) = here

pub run_history-Effects :
    (db : Db) (os : List Op)
    → Effects db.collaboration_tasks (run_history db os).collaboration_tasks
unfolding run_history
run_history-Effects db [] = here
run_history-Effects db (o ∷ os) =
    Effects-trans (step-Effects db o) (run_history-Effects (step db o) os)

-- Over any history each task evolves at its place, and new tasks come at the end.
pub run_history-Grows :
    (db : Db) (os : List Op) → Grows db.collaboration_tasks (run_history db os).collaboration_tasks
run_history-Grows db os = Effects-Grows db.collaboration_tasks (run_history-Effects db os)

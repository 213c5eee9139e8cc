-- ===== src/Server/Api/Cancelled.antt =====
-- A task that was cancelled is not handed over.
use mathlib.Core.Path.{subst}
use codexbot.Common.{
  All-update, ◌≡◌, refl, sym, ap, ◌∙◌, inl, inr, Bool, true, false, not, String, Option, none, some,
  arith, find?, find?-sound, All, Bool-cases, Option-cases, ◌==◌, eq_iff, ok, err, Result, ℕ,
}
use codexbot.Clock.{Time}
use codexbot.Domain.Task.{CollaborationTask, is_dispatching}
use codexbot.Domain.Records.{Agent, Run}
use codexbot.Store.Database.{Db}
use codexbot.Store.Tasks.Enqueue.{has_id}
use codexbot.Store.Tasks.Delivery.{
  collaboration_task, queued_with_id, cancelled, cancel_collaboration_task_with_reason,
}
use codexbot.Store.Tasks.Query.{is_waiting}
use codexbot.Server.World.{World, Env, done}
use codexbot.Server.Start.{start_collaboration}
use codexbot.Server.Steer.{steer_collaboration}
use codexbot.Server.Held.{Without, IsOver, any-update_stays, IsOver-Effects}
use codexbot.Server.Held.Claim.{not_waiting}
use codexbot.Server.Once.{over-start_none}
use codexbot.Server.Once.Steer.{over-steer_none}
use codexbot.Server.History.{Served, Served-Kept}
use codexbot.Server.Api.{
  HttpReply, answer, Request, participates, or_hidden, accessible_collaboration_task,
  answer_cancelled, cancel_shown, collaboration_cancel,
}

-- No task of the identifier is being handed over.
abbrev pub Undispatched : String → Db → Type 0
Undispatched id db = All (Without is_dispatching id) db.collaboration_tasks

-- A cancellation that changes a row leaves no task of the identifier waiting.
cancel-IsOver :
    (id reason : String) (now : Time) (db : Db)
    → (cancel_collaboration_task_with_reason id reason now db).0 ≡ true
    → Undispatched id db
    → IsOver id (cancel_collaboration_task_with_reason id reason now db).1.collaboration_tasks
unfolding cancel_collaboration_task_with_reason cancelled
cancel-IsOver id reason now db h free = record {
  taken =
      any-update_stays (queued_with_id id) (cancelled reason now) (queued_with_id id) (has_id id)
        (λ t hit k. ground (arith, k)) (λ t miss k. ground (arith, k)) db.collaboration_tasks h;
  all =
      All-update (Without is_dispatching id) (Without is_waiting id) (queued_with_id id)
        (cancelled reason now) (λ t hit k i. refl)
        (λ t miss k i. not_waiting t.status (ground (arith, i, miss)) (k i)) db.collaboration_tasks
        free;
}

shown_id :
    (reader id : String) (r : Result CollaborationTask) (t : CollaborationTask)
    → or_hidden reader r ≡ some t
    → r ≡ ok t
shown_id reader id (err e) t h = absurd (ground arith)
shown_id reader id (ok u) t h = elim (Bool-cases (participates reader u)) [
  | inl e ↦ ap ok (ground (arith, e, h))
  | inr e ↦ absurd (ground (arith, e, h))
]

found_id :
    (id : String) (db : Db) (t : CollaborationTask) → collaboration_task id db ≡ ok t → t.id ≡ id
unfolding collaboration_task
found_id id db t h = elim (Option-cases (find? (has_id id) db.collaboration_tasks)) [
  | inl e ↦ absurd (ground (arith, e, h))
  | inr (u, e) ↦
      let same : u ≡ t = ground (arith, e, h) in
      ap (λ x. x.id) (sym same)
      ∙ (eq_iff u.id id).0 (find?-sound (has_id id) db.collaboration_tasks u e)
]

module _ (q : Request) (reader : String) where
  abbrev Cancels : String → Db → HttpReply (Option CollaborationTask) × Db → Type 0
  Cancels id db p =
      (status : ℕ) (o : Option CollaborationTask)
      → p.0 ≡ answer status o
      → Undispatched id db
      → IsOver id p.1.collaboration_tasks

  answer-Cancels :
      (id : String) (db : Db) (p : Bool × Db)
      → (p.0 ≡ true → Undispatched id db → IsOver id p.1.collaboration_tasks)
      → Cancels id db (answer_cancelled id p)
  unfolding answer_cancelled
  answer-Cancels id db (false, d) k status o h free = absurd (ground arith)
  answer-Cancels id db (true, d) k status o h free = k refl free

  shown-Cancels :
      (o : Option CollaborationTask) (id : String) (db : Db)
      → ((t : CollaborationTask) → o ≡ some t → t.id ≡ id)
      → Cancels id db (cancel_shown q reader o db)
  unfolding cancel_shown
  shown-Cancels none id db k status x h free = absurd (ground arith)
  shown-Cancels (some t) id db k status x h free =
      elim (Bool-cases (not (t.notification_for_task_id == ""))) [
        | inl e ↦ absurd (ground (arith, e, h))
        | inr e ↦ elim (Bool-cases (not (t.sender_agent_id == reader))) [
          | inl e' ↦ absurd (ground (arith, e, e', h))
          | inr e' ↦
              let p = cancel_collaboration_task_with_reason t.id "" q.now db in
              let answered : (answer_cancelled t.id p).0 ≡ answer status x = rw (e, e') at h in
              let same : t.id ≡ id = k t refl in
              let free' : Undispatched t.id db = subst (λ i. Undispatched i db) (sym same) free in
              rw (e, e')
                (subst (λ i. IsOver i (answer_cancelled t.id p).1.collaboration_tasks) same
                  (answer-Cancels t.id db p (cancel-IsOver t.id "" q.now db) status x answered
                    free'))
        ]
      ]

-- A task whose cancellation was answered with success while no task of its identifier was being
-- handed over is never handed to its agent: after any further history of the server, neither a
-- start nor a steer of it calls the manager or changes the store.
pub cancel_once :
    (q : Request) (reader : String) (t : CollaborationTask) (w u : World) (status : ℕ)
    (o : Option CollaborationTask)
    → (collaboration_cancel q reader t.id w.db).0 ≡ answer status o
    → Undispatched t.id w.db
    → Served (record w { db = (collaboration_cancel q reader t.id w.db).1 }) u
    → (env : Env) (a : Agent) (r : Run)
    → (start_collaboration env a t u ≡ (done tt, u)) × ((steer_collaboration env t r u).1 ≡ u)
unfolding collaboration_cancel accessible_collaboration_task
cancel_once q reader t w u status o h free s env a r =
    let shown = accessible_collaboration_task reader t.id w.db in
    let known = λ (x : CollaborationTask) (e : shown ≡ some x).
      found_id t.id w.db x (shown_id reader t.id (collaboration_task t.id w.db) x e) in
    let first = record w { db = (collaboration_cancel q reader t.id w.db).1 } in
    let over =
      IsOver-Effects t.id first.db.collaboration_tasks (Served-Kept first s)
        (shown-Cancels q reader shown t.id w.db known status o h free) in
    (over-start_none env t a u over, over-steer_none env t r u over)

-- ===== src/Server/Held/Claim.antt =====
-- How the tasks of an identifier come to be held, and to be over.
use mathlib.Core.Path.{subst}
use codexbot.Common.{
  ℤ, pos, negsuc, ◌≡◌, refl, inl, inr, Bool, true, false, String, List, [], ◌∷◌, some, arith, any,
  update, All, All-update, Bool-cases, ok, ℕ,
}
use codexbot.Clock.{Time}
use codexbot.Domain.Task.{CollaborationTask, TaskStatus, is_queued, is_dispatching}
use codexbot.Store.Database.{Db}
use codexbot.Store.Tasks.Enqueue.{has_id}
use codexbot.Store.Tasks.Query.{is_waiting}
use codexbot.Store.Tasks.Delivery.{
  queued_with_id, dispatching_with_id, settable_with_id, allowed, claimed, with_state, with_cursor,
  settable_status, claim_collaboration_task, set_collaboration_task_state,
  set_collaboration_task_output_cursor,
}
use codexbot.Server.Held.{Without, IsOver, IsHeld, All-trivial, any-update_stays, update_none}

-- A claim of a queued task holds its identifier.
pub claim-IsHeld :
    (id run_id : String) (now : Time) (db : Db)
    → any (queued_with_id id) db.collaboration_tasks ≡ true
    → IsHeld id (claim_collaboration_task id run_id now db).1.collaboration_tasks
unfolding claim_collaboration_task claimed
claim-IsHeld id run_id now db h = record {
  held =
      any-update_stays (queued_with_id id) (claimed run_id now) (queued_with_id id)
        (dispatching_with_id id) (λ t hit q. ground arith) (λ t miss q. absurd (ground arith))
        db.collaboration_tasks h;
  all =
      All-update (λ t. Unit {0}) (Without is_queued id) (queued_with_id id) (claimed run_id now)
        (λ t hit u i. refl) (λ t miss u i. ground arith) db.collaboration_tasks
        (All-trivial db.collaboration_tasks);
}

-- Without a queued task the claim does nothing.
pub claim-none :
    (id run_id : String) (now : Time) (db : Db)
    → any (queued_with_id id) db.collaboration_tasks ≡ false
    → claim_collaboration_task id run_id now db ≡ (false, db)
unfolding claim_collaboration_task
claim-none id run_id now db h =
    rw (h, update_none (queued_with_id id) (claimed run_id now) db.collaboration_tasks h) refl

over-none :
    (id : String) (ts : List CollaborationTask)
    → All (Without is_waiting id) ts
    → any (queued_with_id id) ts ≡ false
over-none id [] h = refl
over-none id (t ∷ ts) (h, hs) = elim (Bool-cases (has_id id t)) [
  | inl e ↦ ground (arith, h e, over-none id ts hs)
  | inr e ↦ ground (arith, e, over-none id ts hs)
]

pub over-claim_none :
    (id run_id : String) (now : Time) (db : Db)
    → IsOver id db.collaboration_tasks
    → claim_collaboration_task id run_id now db ≡ (false, db)
over-claim_none id run_id now db o =
    claim-none id run_id now db (over-none id db.collaboration_tasks o.all)

-- A saved cursor leaves the identifier held.
cursor-IsHeld :
    (id : String) (n : ℕ) (now : Time) (ts : List CollaborationTask)
    → IsHeld id ts
    → IsHeld id (update (dispatching_with_id id) (with_cursor n now) ts)
unfolding with_cursor
cursor-IsHeld id n now ts h = record {
  held =
      any-update_stays _ _ (dispatching_with_id id) (dispatching_with_id id) (λ t hit q. q)
        (λ t miss q. q) ts h.held;
  all =
      All-update (Without is_queued id) (Without is_queued id) _ _ (λ t hit k. k) (λ t miss k. k) ts
        h.all;
}

pub set_cursor-IsHeld :
    (id : String) (cursor : ℤ) (now : Time) (db db' : Db)
    → set_collaboration_task_output_cursor id cursor now db ≡ ok db'
    → IsHeld id db.collaboration_tasks
    → IsHeld id db'.collaboration_tasks
unfolding set_collaboration_task_output_cursor
set_cursor-IsHeld id (negsuc n) now db db' e h = absurd (ground arith)
set_cursor-IsHeld id (pos n) now db db' e h =
    let saved = cursor-IsHeld id n now db.collaboration_tasks h in
    let same : update (dispatching_with_id id) (with_cursor n now) db.collaboration_tasks
        ≡ db'.collaboration_tasks =
      ground (arith, h.held) in
    subst (IsHeld id) same saved

dispatching_is : (s : TaskStatus) → is_dispatching s ≡ true → s ≡ TaskStatus.dispatching
dispatching_is TaskStatus.dispatching h = refl
dispatching_is _ h = absurd (ground arith)

pub not_waiting :
    (s : TaskStatus) → is_queued s ≡ false → is_dispatching s ≡ false → is_waiting s ≡ false
not_waiting TaskStatus.queued p q = absurd (ground arith)
not_waiting TaskStatus.dispatching p q = absurd (ground arith)
not_waiting _ p q = refl

any_mono :
    (q r : CollaborationTask → Bool)
    → ((t : CollaborationTask) → q t ≡ true → r t ≡ true)
    → (ts : List CollaborationTask) → any q ts ≡ true
    → any r ts ≡ true
any_mono q r h [] k = k
any_mono q r h (t ∷ ts) k = ground (arith, h t, any_mono q r h ts)

module _ (id run_id message : String) (now : Time) where
  -- Being handed over once more, too.
  dispatching-IsHeld :
      (ts : List CollaborationTask)
      → IsHeld id ts
      → IsHeld id (
          update
            (settable_with_id id TaskStatus.dispatching)
            (with_state TaskStatus.dispatching run_id message now)
            ts)
  unfolding with_state
  dispatching-IsHeld ts h = record {
    held =
        any-update_stays (settable_with_id id TaskStatus.dispatching)
          (with_state TaskStatus.dispatching run_id message now) (dispatching_with_id id)
          (dispatching_with_id id) (λ t hit q. ground arith) (λ t miss q. q) ts h.held;
    all =
        All-update (Without is_queued id) (Without is_queued id)
          (settable_with_id id TaskStatus.dispatching)
          (with_state TaskStatus.dispatching run_id message now) (λ t hit k i. refl) (λ t miss k. k)
          ts h.all;
  }

  settable_held :
      (to : TaskStatus)
      → allowed to TaskStatus.dispatching ≡ true
      → (t : CollaborationTask) → dispatching_with_id id t ≡ true
      → settable_with_id id to t ≡ true
  settable_held to h t k =
      let is_id : has_id id t ≡ true = ground (arith, k) in
      let at : t.status ≡ TaskStatus.dispatching = dispatching_is t.status (ground (arith, k)) in
      rw (is_id, at) h

  any_settable :
      (to : TaskStatus)
      → allowed to TaskStatus.dispatching ≡ true
      → (ts : List CollaborationTask) → any (dispatching_with_id id) ts ≡ true
      → any (settable_with_id id to) ts ≡ true
  any_settable to h =
      any_mono (dispatching_with_id id) (settable_with_id id to) (settable_held to h)

  -- The link of a held task to its run is saved.
  pub set_dispatching-IsHeld :
      (db : Db)
      → IsHeld id db.collaboration_tasks
      → (db' : Db) × (set_collaboration_task_state id "dispatching" run_id message now db ≡ ok db')
        × IsHeld id db'.collaboration_tasks
  unfolding set_collaboration_task_state settable_status
  set_dispatching-IsHeld db h = (
    record db {
      collaboration_tasks =
          update (settable_with_id id TaskStatus.dispatching)
            (with_state TaskStatus.dispatching run_id message now) db.collaboration_tasks;
    },
    rw (any_settable TaskStatus.dispatching refl db.collaboration_tasks h.held) refl,
    dispatching-IsHeld db.collaboration_tasks h,
  )

  missed_ends :
      (to : TaskStatus)
      → allowed to TaskStatus.dispatching ≡ true
      → (t : CollaborationTask) → settable_with_id id to t ≡ false
      → Without is_queued id t
      → Without is_waiting id t
  missed_ends to h t miss k i = elim (Bool-cases (is_dispatching t.status)) [
    | inl e ↦ absurd (ground (arith, miss, settable_held to h t (ground (arith, i, e))))
    | inr e ↦ not_waiting t.status (k i) e
  ]

  -- A status that does not wait ends what was held.
  ends-IsOver :
      (to : TaskStatus)
      → allowed to TaskStatus.dispatching ≡ true
      → is_waiting to ≡ false
      → (ts : List CollaborationTask) → IsHeld id ts
      → IsOver id (update (settable_with_id id to) (with_state to run_id message now) ts)
  unfolding with_state
  ends-IsOver to may ends ts h = record {
    taken =
        any-update_stays (settable_with_id id to) (with_state to run_id message now)
          (dispatching_with_id id) (has_id id) (λ t hit q. ground arith)
          (λ t miss q. ground (arith, q)) ts h.held;
    all =
        All-update (Without is_queued id) (Without is_waiting id) (settable_with_id id to)
          (with_state to run_id message now) (λ t hit k i. ends) (missed_ends to may) ts h.all;
  }

  -- Once held, an identifier can be settled, and it is over then.
  pub set_state-IsOver :
      (status : String) (to : TaskStatus)
      → settable_status status ≡ some to
      → allowed to TaskStatus.dispatching ≡ true
      → is_waiting to ≡ false
      → (db : Db) → IsHeld id db.collaboration_tasks
      → (db' : Db) × (set_collaboration_task_state id status run_id message now db ≡ ok db')
        × IsOver id db'.collaboration_tasks
  unfolding set_collaboration_task_state
  set_state-IsOver status to is may ends db h = (
    record db {
      collaboration_tasks =
          update (settable_with_id id to) (with_state to run_id message now) db.collaboration_tasks;
    },
    rw (is, any_settable to may db.collaboration_tasks h.held) refl,
    ends-IsOver to may ends db.collaboration_tasks h,
  )

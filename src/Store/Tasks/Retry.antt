-- ===== src/Store/Tasks/Retry.antt =====
-- Retries of a submission, after anything else that happened in between.
use codexbot.Common.{
  ◌≡◌, sym, ap, inl, inr, Bool, true, false, String, List, [], ◌∷◌, Option, none, some, arith,
  eq_iff, eq_refl, ◌==◌, find?, ok, Result-cases, Option-cases, Bool-cases, find?-append,
  find?-none_of_any,
}
use mathlib.Core.Path.{subst}
use codexbot.Clock.{Time}
use codexbot.Domain.Task.{CollaborationTask, TaskMode, CompletionMode}
use codexbot.Store.Database.{Db}
use codexbot.Store.Tasks.Evolution.{Evolves, Grows}
use codexbot.Store.Tasks.Enqueue.{
  TaskRequest, has_key, has_id, submit, resolve, enqueue_collaboration_task, new_task, task_mode,
  completion_mode, is_well_formed, same_request,
}
use codexbot.Store.Tasks.Inversion.{insert-ok, submit-ok}
use codexbot.Store.Tasks.History.{Op, run_history}
use codexbot.Store.Tasks.Growth.{run_history-Grows}

-- A test that no evolution changes finds the evolved task.
pub find?-Grows :
    (p : CollaborationTask → Bool)
    → ((t u : CollaborationTask) → Evolves t u → p u ≡ p t)
    → (ts us : List CollaborationTask) (t : CollaborationTask) → Grows ts us
    → find? p ts ≡ some t
    → (u : CollaborationTask) × (find? p us ≡ some u) × Evolves t u
find?-Grows p same [] us t g e = absurd (ground (arith, e))
find?-Grows p same (x ∷ xs) [] t g e = absurd g
find?-Grows p same (x ∷ xs) (y ∷ ys) t (g, gs) e = elim (Bool-cases (p x)) [
  | inl hit ↦
      (y, ground (arith, same x y g, hit), subst (λ z. Evolves z y) (ground (arith, e, hit)) g)
  | inr miss ↦
      let (u, found, ev) = find?-Grows p same xs ys t gs (ground (arith, e, miss)) in
      (u, ground (arith, found, same x y g, miss), ev)
]

has_id-Evolves : (id : String) (t u : CollaborationTask) → Evolves t u → has_id id u ≡ has_id id t
has_id-Evolves id t u h = ap (λ (s : String). s == id) h.id

has_key-Evolves :
    (sender key : String) (t u : CollaborationTask)
    → Evolves t u
    → has_key sender key u ≡ has_key sender key t
has_key-Evolves sender key t u h = cc (h.sender, h.key)

pub find?-run_history :
    (id : String) (db : Db) (t : CollaborationTask) (os : List Op)
    → find? (has_id id) db.collaboration_tasks ≡ some t
    → (u : CollaborationTask) × (find? (has_id id) (run_history db os).collaboration_tasks ≡ some u)
      × Evolves t u
find?-run_history id db t os e =
    find?-Grows (has_id id) (has_id-Evolves id) db.collaboration_tasks
      (run_history db os).collaboration_tasks t (run_history-Grows db os) e

same_request-new :
    (r : TaskRequest) (m : TaskMode) (c : CompletionMode) (id : String) (now later : Time)
    (u : CollaborationTask)
    → Evolves (new_task r m c id now later) u
    → same_request r m c u ≡ true
unfolding same_request
same_request-new r m c id now later u h = ground (
  arith,
  eq_iff u.notification_for_task_id "",
  eq_iff u.target_agent_id r.target_agent_id,
  eq_iff u.prompt r.prompt,
)

module _ (r : TaskRequest) (id : String) (now later : Time) (db : Db) where
  -- The request passed the tests of its fields, and `submit` made the task.
  record Created (t : CollaborationTask) (db' : Db) : Type 0 where
    pub well_formed : is_well_formed r ≡ true
    pub m : TaskMode
    pub c : CompletionMode
    pub has_mode : task_mode r.mode ≡ some m
    pub has_completion : completion_mode r.completion_mode ≡ some c
    pub submitted : submit r m c id now later db ≡ ok (t, db')

  resolve-created :
      (m : TaskMode) (c : CompletionMode) (o : Option CollaborationTask) (t : CollaborationTask)
      (db' : Db)
      → resolve r m c id now later db o ≡ ok (t, true, db')
      → submit r m c id now later db ≡ ok (t, db')
  unfolding resolve
  resolve-created m c (some x) t db' h = ground arith
  resolve-created m c none t db' h = elim (Result-cases (submit r m c id now later db)) [
    | inl ((u, mid), e) ↦ ground (arith, e)
    | inr (x, e) ↦ absurd (ground (arith, e))
  ]

  resolve-existing :
      (m : TaskMode) (c : CompletionMode) (o : Option CollaborationTask) (t : CollaborationTask)
      (db' : Db)
      → resolve r m c id now later db o ≡ ok (t, false, db')
      → db' ≡ db
  unfolding resolve
  resolve-existing m c (some x) t db' h = elim (Bool-cases (same_request r m c x)) [
    | inl e ↦ ground (arith, rw e at h)
    | inr e ↦ absurd (ground (arith, rw e at h))
  ]
  resolve-existing m c none t db' h = elim (Result-cases (submit r m c id now later db)) [
    | inl ((u, mid), e) ↦ absurd (ground (arith, e))
    | inr (x, e) ↦ absurd (ground (arith, e))
  ]

  -- A submission that finds an earlier task leaves the database.
  pub enqueue-existing :
      (t : CollaborationTask) (db' : Db)
      → enqueue_collaboration_task r id now later db ≡ ok (t, false, db')
      → db' ≡ db
  unfolding enqueue_collaboration_task
  enqueue-existing t db' h = elim (Bool-cases (is_well_formed r)) [
    | inr e ↦ absurd (ground (arith, e))
    | inl e ↦ elim (Option-cases (task_mode r.mode)) [
      | inl e' ↦ absurd (ground (arith, e, e'))
      | inr (m, e') ↦ elim (Option-cases (completion_mode r.completion_mode)) [
        | inl e'' ↦ absurd (ground (arith, e, e', e''))
        | inr (c, e'') ↦ resolve-existing m c _ t db' (rw (e, e', e'') at h)
      ]
    ]
  ]

  enqueue-Created :
      (t : CollaborationTask) (db' : Db)
      → enqueue_collaboration_task r id now later db ≡ ok (t, true, db')
      → Created t db'
  unfolding enqueue_collaboration_task
  enqueue-Created t db' h = elim (Bool-cases (is_well_formed r)) [
    | inr e ↦ absurd (ground (arith, e))
    | inl e ↦ elim (Option-cases (task_mode r.mode)) [
      | inl e' ↦ absurd (ground (arith, e, e'))
      | inr (m, e') ↦ elim (Option-cases (completion_mode r.completion_mode)) [
        | inl e'' ↦ absurd (ground (arith, e, e', e''))
        | inr (c, e'') ↦ record {
          well_formed = e;
          m = m;
          c = c;
          has_mode = e';
          has_completion = e'';
          submitted = resolve-created m c _ t db' (rw (e, e', e'') at h);
        }
      ]
    ]
  ]

has_key-new :
    (r : TaskRequest) (m : TaskMode) (c : CompletionMode) (id : String) (now later : Time)
    → has_key r.sender_agent_id r.idempotency_key (new_task r m c id now later) ≡ true
has_key-new r m c id now later = rw (eq_refl r.sender_agent_id, eq_refl r.idempotency_key)

-- The task that a submission made is found under its key.
find?-submitted :
    (r : TaskRequest) (m : TaskMode) (c : CompletionMode) (id : String) (now later : Time) (db : Db)
    (t : CollaborationTask) (db' : Db)
    → submit r m c id now later db ≡ ok (t, db')
    → (t ≡ new_task r m c id now later)
      × (find? (has_key r.sender_agent_id r.idempotency_key) db'.collaboration_tasks ≡ some t)
find?-submitted r m c id now later db t db' h =
    let (made, done, _) = submit-ok r m c id now later db t db' h in
    let i = insert-ok db (new_task r m c id now later) db' done in
    let key = has_key r.sender_agent_id r.idempotency_key in
    (
      made,
      rw
          (
            i.result,
            find?-append key db.collaboration_tasks _ (find?-none_of_any key _ i.new_key),
            has_key-new r m c id now later,
          )
          (ap some (sym made)),
    )

module _ (r : TaskRequest) (id : String) (now later : Time) (db : Db) (t : CollaborationTask)
    (db' : Db) (made : enqueue_collaboration_task r id now later db ≡ ok (t, true, db')) where
  -- After a submission that made a task, and whatever happens to the store in between, the same
  -- request makes no other task: it returns the task of the first, as it has evolved, and leaves
  -- the database as it is.
  pub enqueue_retry :
      (os : List Op) (id' : String) (now' later' : Time)
      → (u : CollaborationTask) × (enqueue_collaboration_task r id' now' later' (run_history db' os)
          ≡ ok (u, false, run_history db' os))
        × Evolves t u
  unfolding enqueue_collaboration_task
  enqueue_retry os id' now' later' =
      let c = enqueue-Created r id now later db t db' made in
      let (new, found) = find?-submitted r c.m c.c id now later db t db' c.submitted in
      let (u, still, ev) =
        find?-Grows (has_key r.sender_agent_id r.idempotency_key) (has_key-Evolves _ _)
          db'.collaboration_tasks (run_history db' os).collaboration_tasks t
          (run_history-Grows db' os) found in
      let same : same_request r c.m c.c u ≡ true =
        same_request-new r c.m c.c id now later u (subst (λ x. Evolves x u) new ev) in
      (u, rw (c.well_formed, c.has_mode, c.has_completion, still) (unfold resolve in rw same), ev)

-- ===== src/Server/Api/Private.antt =====
-- What a reader of a task is shown, and what it is not.
use mathlib.Core.Path.{subst}
use codexbot.Common.{
  max, ℕ, ◌+◌, ◌≤◌, ◌≡◌, refl, sym, ap, ◌∙◌, inl, inr, Bool, true, false, not, ◌&&◌, ◌||◌, String,
  List, [], Option, none, some, arith, eq_iff, ◌==◌, length, take, find?, find?-sound, All,
  is_empty, Bool-cases, Option-cases, if◌then◌else◌, pos, ok, err, Result,
}
use codexbot.Domain.Task.{CollaborationTask}
use codexbot.Domain.Records.{Event, Run}
use codexbot.Store.Database.{Db}
use codexbot.Store.Runs.{run, run_with_id}
use codexbot.Store.Tasks.Delivery.{is_own_source, collaboration_task, reconcile_collaboration_tasks}
use codexbot.Store.Timeline.Outbox.{events_after_limit}
use codexbot.Server.Api.{
  HttpReply, answer, http_error, Request, participates, or_hidden, accessible_collaboration_task,
}
use codexbot.Server.Api.Read.{
  RunView, view_of, TaskView, bare_view, with_events, show_run, show_task, read_collaboration_task,
}
use codexbot.Server.Api.Pages.{
  take-All, first_page-All, take-length, first_page-length, events-IsOutput, IsOutput,
}

-- What a reader is shown of a task: only if it sent or got the task, and of a notification
-- neither the run nor an event; else events of the task's run beyond the sequence asked for and
-- beyond the one from which the task's output starts, no more than the limit, and none of a run
-- of another source before the delivery of the task is confirmed.
pub record IsPrivate (reader : String) (limit after : ℕ) (v : TaskView) : Type 0 where
  pub reads : participates reader v.task ≡ true
  pub notification :
      (v.task.notification_for_task_id == "") ≡ false → (v.run ≡ none) × (v.events ≡ [])
  pub events : All (IsOutput v.task.run_id (max after v.task.result_after_sequence)) v.events
  pub bounded : length v.events ≤ limit
  pub confirmed :
      is_empty v.events ≡ false
      → (r : RunView) × (v.run ≡ some r)
        × ((is_own_source v.task.id r.source || v.task.delivery_confirmed) ≡ true)

abbrev Shows : String → ℕ → ℕ → HttpReply TaskView → Type 0
Shows reader limit after (http_error status text) = Unit
Shows reader limit after (answer status v) = IsPrivate reader limit after v

bare-IsPrivate :
    (reader : String) (limit given after : ℕ) (t : CollaborationTask) (o : Option RunView)
    (scope : String)
    → participates reader t ≡ true
    → ((t.notification_for_task_id == "") ≡ false → o ≡ none)
    → IsPrivate reader limit given (record (bare_view t after scope) { run = o })
bare-IsPrivate reader limit given after t o scope h k = record {
  reads = h;
  notification = λ n. (k n, refl);
  events = tt;
  bounded = omega arith;
  confirmed = λ e. absurd (ground arith);
}

run_found :
    (id : String) (db : Db) (r : Run) → run id db ≡ ok r → find? (run_with_id id) db.runs ≡ some r
unfolding run
run_found id db r h = elim (Option-cases (find? (run_with_id id) db.runs)) [
  | inl e ↦ absurd (ground (arith, e, h))
  | inr (x, e) ↦ ground (arith, e, h)
]

module _ (q : Request) (reader : String) (limit given : ℕ) (db : Db) (t : CollaborationTask)
    (h : participates reader t ≡ true) (plain : (t.notification_for_task_id == "") ≡ true) where
  plain_absurd : (o : Option RunView) → (t.notification_for_task_id == "") ≡ false → o ≡ none
  plain_absurd o n = absurd (ground (arith, n, plain))

  with_events-Shows :
      (r : Run) (scope : String) (es : Result (List Event))
      → ((xs : List Event)
          → es ≡ ok xs
          → All (IsOutput t.run_id (max given t.result_after_sequence)) xs)
      → (is_own_source t.id r.source || t.delivery_confirmed) ≡ true
      → Shows reader limit given (
          with_events q limit
            (record (bare_view t (max given t.result_after_sequence) scope) {
              run = some (view_of r);
            })
            es)
  unfolding with_events
  with_events-Shows r scope (err e) k c = tt
  with_events-Shows r scope (ok es) k c = record {
    reads = h;
    notification = λ n. absurd (ground (arith, n, plain));
    events = first_page-All _ q.size (take limit es) (take-All _ limit es (k es refl));
    bounded = omega (arith, first_page-length q.size (take limit es), take-length limit es);
    confirmed = λ e. (view_of r, refl, c);
  }

  show_run-Shows :
      (found : Result Run)
      → run t.run_id db ≡ found
      → Shows reader limit given (show_run q limit db t (max given t.result_after_sequence) found)
  unfolding show_run run
  show_run-Shows (err e) f =
      bare-IsPrivate reader limit given (max given t.result_after_sequence) t none "task" h
        (λ n. refl)
  show_run-Shows (ok r) f =
      let after = max given t.result_after_sequence in
      let same : r.id ≡ t.run_id =
        (eq_iff r.id t.run_id).0
          (find?-sound (run_with_id t.run_id) db.runs r (run_found t.run_id db r f)) in
      let is_own : Bool = is_own_source t.id r.source in
      let scope : String = if is_own then "task" else "shared_run" in
      elim (Bool-cases (not is_own && not t.delivery_confirmed)) [
        | inl b ↦ rw b (
            bare-IsPrivate reader limit given after t (some (view_of r)) scope h
              (plain_absurd (some (view_of r))))
        | inr b ↦
            let confirmed : (is_own_source t.id r.source || t.delivery_confirmed) ≡ true =
              ground (arith, b) in
            rw b (
              with_events-Shows r scope
                (events_after_limit q.preview r.id (pos after) (pos (limit + 1)) db)
                (λ xs e.
                  subst (λ id. All (IsOutput id after) xs) same
                    (events-IsOutput q.preview r.id after (pos (limit + 1)) db xs e))
                confirmed)
      ]

show_task-Shows :
    (q : Request) (reader : String) (limit given : ℕ) (db : Db) (o : Option CollaborationTask)
    → ((t : CollaborationTask) → o ≡ some t → participates reader t ≡ true)
    → Shows reader limit given (show_task q limit given db o)
unfolding show_task
show_task-Shows q reader limit given db none k = tt
show_task-Shows q reader limit given db (some t) k =
    let h = k t refl in
    let after = max given t.result_after_sequence in
    elim (Bool-cases (t.notification_for_task_id == "")) [
      | inr n ↦ rw n (bare-IsPrivate reader limit given after t none "notification" h (λ m. refl))
      | inl n ↦ elim (Bool-cases (t.run_id == "")) [
        | inl e ↦ rw (n, e) (bare-IsPrivate reader limit given after t none "task" h (λ m. refl))
        | inr e ↦ rw (n, e) (show_run-Shows q reader limit given db t h n (run t.run_id db) refl)
      ]
    ]

accessible-participates :
    (reader : String) (r : Result CollaborationTask) (t : CollaborationTask)
    → or_hidden reader r ≡ some t
    → participates reader t ≡ true
accessible-participates reader (err e) t h = absurd (ground arith)
accessible-participates reader (ok u) t h = elim (Bool-cases (participates reader u)) [
  | inl e ↦ let same : u ≡ t = ground (arith, e, h) in ap (participates reader) (sym same) ∙ e
  | inr e ↦ absurd (ground (arith, e, h))
]

-- Whatever a task's reader asks for, what it is shown is private to the parties of the task:
-- `IsPrivate` says what that is.
pub read-IsPrivate :
    (q : Request) (reader id : String) (limit given : ℕ) (db : Db) (status : ℕ) (v : TaskView)
    → (read_collaboration_task q reader id limit given db).0 ≡ answer status v
    → IsPrivate reader limit given v
unfolding read_collaboration_task accessible_collaboration_task
read-IsPrivate q reader id limit given db status v h =
    let db' = reconcile_collaboration_tasks q.now db in
    let shown =
      show_task-Shows q reader limit given db' (accessible_collaboration_task reader id db')
        (accessible-participates reader (collaboration_task id db')) in
    subst (Shows reader limit given) h shown

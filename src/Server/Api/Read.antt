-- ===== src/Server/Api/Read.antt =====
-- The reading of a task by the collaboration API of internal/httpapi/collaboration.go.
use codexbot.Common.{
  max, ℕ, ◌+◌, ◌*◌, Bool, false, not, ◌&&◌, ◌||◌, String, List, [], ◌∷◌, Option, none, some, length,
  take, ◌==◌, ltb, if◌then◌else◌, pos, Result, ok, err,
}
use codexbot.Clock.{Time}
use codexbot.Domain.Task.{CollaborationTask}
use codexbot.Domain.Records.{Event, Run, RunStatus, RunSource}
use codexbot.Store.Database.{Db}
use codexbot.Store.Runs.{run}
use codexbot.Store.Tasks.Delivery.{reconcile_collaboration_tasks, is_own_source}
use codexbot.Store.Timeline.Outbox.{events_after_limit}
use codexbot.Server.Api.{HttpReply, Request, accessible_collaboration_task, answer, http_error}

-- collaborationRunView: what a reader is shown of the task's run.
pub record RunView : Type 0 where
  pub id : String
  pub status : RunStatus
  pub source : RunSource
  pub started_at : Option Time

abbrev pub view_of : Run → RunView
view_of r = record { id = r.id; status = r.status; source = r.source; started_at = r.started_at }

-- What a reader of a task is shown.
pub record TaskView : Type 0 where
  pub task : CollaborationTask
  pub run : Option RunView
  pub events : List Event
  pub next_sequence : ℕ
  pub has_more : Bool
  pub output_scope : String

abbrev pub bare_view : CollaborationTask → ℕ → String → TaskView
bare_view t after scope = record {
  task = t;
  run = none;
  events = [];
  next_sequence = after;
  has_more = false;
  output_scope = scope;
}

abbrev pub page_bytes : ℕ
page_bytes = 2 * 1048576

-- The events after the first, as far as they fit.
unfoldable pub fitting : (Event → ℕ) → ℕ → List Event → List Event
fitting size used [] = []
fitting size used (e ∷ es) =
    let rest = fitting size (used + size e) es in
    if ltb page_bytes (used + size e) then [] else e ∷ rest

unfoldable pub first_page : (Event → ℕ) → List Event → List Event
unfolding fitting
first_page size [] = []
first_page size (e ∷ es) = e ∷ fitting size (size e) es

abbrev pub last_sequence_of : ℕ → List Event → ℕ
last_sequence_of n [] = n
last_sequence_of n (e ∷ es) = last_sequence_of e.sequence es

-- The view with the events that were read, one more than the limit at most.
unfoldable pub with_events : Request → ℕ → TaskView → Result (List Event) → HttpReply TaskView
unfolding first_page
with_events q limit v (err e) = http_error 500 "could not read task output"
with_events q limit v (ok events) =
    let cut = take limit events in
    let page = first_page q.size cut in
    answer 200 (record v {
      events = page;
      next_sequence = last_sequence_of v.next_sequence page;
      has_more = ltb limit (length events) || ltb (length page) (length cut);
    })

-- The output of the task's run: that of a run that others share only if the delivery of the task
-- is confirmed.
unfoldable pub show_run : Request → ℕ → Db → CollaborationTask → ℕ → Result Run → HttpReply TaskView
unfolding with_events
show_run q limit db t after (err e) = answer 200 (bare_view t after "task")
show_run q limit db t after (ok r) =
    let is_own = is_own_source t.id r.source in
    let v : TaskView = record (bare_view t after (if is_own then "task" else "shared_run")) {
      run = some (view_of r);
    } in
    if not is_own && not t.delivery_confirmed
    then answer 200 v
    else with_events q limit v (events_after_limit q.preview r.id (pos after) (pos (limit + 1)) db)

unfoldable pub show_task : Request → ℕ → ℕ → Db → Option CollaborationTask → HttpReply TaskView
unfolding show_run
show_task q limit given db none = http_error 404 "task not found"
show_task q limit given db (some t) =
    let after = max given t.result_after_sequence in
    if not (t.notification_for_task_id == "")
    then answer 200 (bare_view t after "notification")
    else if t.run_id == ""
    then answer 200 (bare_view t after "task")
    else show_run q limit db t after (run t.run_id db)

-- collaborationTask, for a limit from 1 to 100 and a sequence
unfoldable pub read_collaboration_task :
    Request → String → String → ℕ → ℕ → Db → HttpReply TaskView × Db
unfolding show_task
read_collaboration_task q reader id limit after db =
    let db' = reconcile_collaboration_tasks q.now db in
    (show_task q limit after db' (accessible_collaboration_task reader id db'), db')

-- ===== src/Server/Quiet.antt =====
-- Actions that make no call while an agent is engaged. A child has the dispatcher.
pub mod Dispatch
use mathlib.Core.Path.{subst}
use codexbot.Common.{
  ℕ, suc, ◌≡◌, refl, ap, ◌∙◌, ◌⊎◌, inl, inr, Bool, true, false, String, List, [], ◌∷◌, Option, none,
  some, arith, find?, ok, err, Result, Result-cases, Bool-cases, ◌==◌, not_found, if◌then◌else◌,
}
use codexbot.Clock.{Time}
use codexbot.Domain.Task.{CollaborationTask}
use codexbot.Domain.Records.{Agent, Run, Conversation, is_scheduled}
use codexbot.Store.Database.{Db}
use codexbot.Store.Desktop.{human_controls_desktop}
use codexbot.Store.Runs.{active_run, run}
use codexbot.Store.Conversations.{
  ensure_agent_conversation, select_conversation, select_first, insert_mapping,
}
use codexbot.Store.Schedules.{insert_conversation}
use codexbot.Store.Tasks.Inversion.{notify_sender-ok, complete-Completed}
use codexbot.Store.Tasks.History.{after_task}
use codexbot.Store.Tasks.Notify.{enqueue_collaboration_completion, notify_sender}
use codexbot.Store.Tasks.Delivery.{
  collaboration_task, cancel_collaboration_task_with_reason, cancel_queued_collaboration_tasks,
}
use codexbot.Server.World.{
  World, Env, Action, Attempt, done, failed, Failure, resume, ◌>>=◌, ◌>>◌, pure, fail, skip, read,
  query, change, perform, write, try, settle,
}
use codexbot.Server.Completions.{
  enqueue_each, enqueue_collaboration_completions, filter_one, filter_collaboration_completions,
  without_created, is_current,
}
use codexbot.Server.Dispatch.{
  may_steer, is_steerable, deliver_into, deliver, dispatch_filtered, dispatch_to, dispatch_pending,
  dispatch_collaboration,
}

-- Runs and leases stay.
pub record Frame (db db' : Db) : Type 0 where
  pub runs : db'.runs ≡ db.runs
  pub leases : db'.desktop_leases ≡ db.desktop_leases

Frame-refl : (db : Db) → Frame db db
Frame-refl db = record { runs = refl; leases = refl }

notify-Frame :
    (o : CollaborationTask) (prompt given id : String) (now : Time) (db : Db)
    (t : CollaborationTask) (db' : Db)
    → notify_sender o prompt given id now db ≡ ok (t, db')
    → Frame db db'
notify-Frame o prompt given id now db t db' h =
    let (_, room, target, mid, i, _, last) = notify_sender-ok o prompt given id now db t db' h in
    record {
      runs = ap (λ d. d.runs) last ∙ ap (λ d. d.runs) i.result;
      leases = ap (λ d. d.desktop_leases) last ∙ ap (λ d. d.desktop_leases) i.result;
    }

complete-Frame :
    (task prompt id : String) (now : Time) (db : Db)
    → Frame db (after_task db (enqueue_collaboration_completion task prompt id now db))
complete-Frame task prompt id now db = elim (complete-Completed task prompt id now db) [
  | inl e ↦ rw e (Frame-refl db)
  | inr (o, t, _, _, _, _, e) ↦ notify-Frame o prompt "" id now db t _ e
]

pub complete_one-Frame :
    (id prompt new : String) (now : Time) (db : Db) (u : CollaborationTask) (db' : Db)
    → without_created (enqueue_collaboration_completion id prompt new now db) ≡ ok (u, db')
    → Frame db db'
complete_one-Frame id prompt new now db u db' h =
    let all = complete-Frame id prompt new now db in
    elim (Result-cases (enqueue_collaboration_completion id prompt new now db)) [
      | inl ((u', fresh, mid), e) ↦
          let same : mid ≡ db' = ground (arith, e) in subst (Frame db) same (rw e at all)
      | inr (x, e) ↦ absurd (ground (arith, e))
    ]

pub ensure-Frame :
    (agent id : String) (now : Time) (db : Db) (c : Conversation) (db' : Db)
    → ensure_agent_conversation agent id now db ≡ ok (c, db')
    → Frame db db'
unfolding ensure_agent_conversation select_conversation select_first insert_mapping
    insert_conversation
ensure-Frame agent id now db c db' h = record { runs = ground arith; leases = ground arith }

-- An agent that is to be left alone: a human has its desktop, or its active run is one of a
-- schedule, or one that takes no message yet.
abbrev pub IsEngaged : String → Time → Db → Type 0
IsEngaged target now db =
    (human_controls_desktop target now db ≡ true)
    ⊎ ((r : Run) × (active_run target db ≡ ok r)
        × ((is_scheduled r.source ≡ true) ⊎ (is_steerable r ≡ false)))

pub IsEngaged-Frame :
    (target : String) (now : Time) (db db' : Db)
    → Frame db db'
    → IsEngaged target now db
    → IsEngaged target now db'
unfolding human_controls_desktop active_run
IsEngaged-Frame target now db db' f (inl h) = inl (rw f.leases h)
IsEngaged-Frame target now db db' f (inr (r, e, k)) = inr (r, rw f.runs e, k)

module _ (target : String) (now : Time) where
  -- An action that calls no one while the agent is engaged, and leaves it so.
  pub record Quiet (w w' : World) : Type 0 where
    pub calls : w'.calls ≡ w.calls
    pub engaged : IsEngaged target now w'.db

  pub record IsQuiet {A : Type 0} (m : Action A) : Type 0 where
    pub at : (w : World) → IsEngaged target now w.db → Quiet w (m w).1

  pub Quiet-refl : (w : World) → IsEngaged target now w.db → Quiet w w
  Quiet-refl w h = record { calls = refl; engaged = h }

  Quiet-Frame :
      (w : World) (db : Db)
      → Frame w.db db
      → IsEngaged target now w.db
      → Quiet w (record w { db = db })
  Quiet-Frame w db f h = record { calls = refl; engaged = IsEngaged-Frame target now w.db db f h }

  resume-Quiet :
      {A B : Type 0} (next : A → Action B) (w : World) (p : Attempt A × World)
      → Quiet w p.1
      → ((a : A) → IsQuiet (next a))
      → Quiet w (resume next p).1
  resume-Quiet next w (done a, mid) h d =
      let k = (d a).at mid h.engaged in record { calls = k.calls ∙ h.calls; engaged = k.engaged }
  resume-Quiet next w (failed e, mid) h d = h

  pub bind-IsQuiet :
      {A B : Type 0} (m : Action A) (next : A → Action B)
      → IsQuiet m
      → ((a : A) → IsQuiet (next a))
      → IsQuiet (m >>= next)
  unfolding ◌>>=◌
  bind-IsQuiet m next h d = record { at = λ w b. resume-Quiet next w (m w) (h.at w b) d }

  pub then-IsQuiet :
      {B : Type 0} (m : Action (Unit {0})) (next : Action B)
      → IsQuiet m
      → IsQuiet next
      → IsQuiet (m >> next)
  unfolding ◌>>◌
  then-IsQuiet m next h d = record {
    at = λ w b. resume-Quiet (λ _. next) w (m w) (h.at w b) (λ _. d);
  }

  pub try-IsQuiet : {A : Type 0} (m : Action A) → IsQuiet m → IsQuiet (try m)
  unfolding try
  try-IsQuiet m h = record { at = h.at }

  pub if-IsQuiet :
      {A : Type 0} (b : Bool) (m k : Action A)
      → IsQuiet m
      → IsQuiet k
      → IsQuiet (if b then m else k)
  if-IsQuiet true m k h d = h
  if-IsQuiet false m k h d = d

  pub pure-IsQuiet : {A : Type 0} (a : A) → IsQuiet (pure a)
  unfolding pure
  pure-IsQuiet a = record { at = Quiet-refl }

  pub read-IsQuiet : {A : Type 0} (q : Db → A) → IsQuiet (read q)
  unfolding read
  read-IsQuiet q = record { at = Quiet-refl }

  pub settle-IsQuiet : {A : Type 0} (r : Attempt A) → IsQuiet (settle r)
  unfolding settle
  settle-IsQuiet r = record { at = Quiet-refl }

  pub skip-IsQuiet : IsQuiet skip
  unfolding skip
  skip-IsQuiet = record { at = Quiet-refl }

  pub fail-IsQuiet : {A : Type 0} (e : Failure) → IsQuiet {A = A} (fail e)
  unfolding fail
  fail-IsQuiet e = record { at = Quiet-refl }

  pub write-IsQuiet : (op : Db → Db) → ((db : Db) → Frame db (op db)) → IsQuiet (write op)
  unfolding write
  write-IsQuiet op h = record { at = λ w. Quiet-Frame w (op w.db) (h w.db) }

  pub query-IsQuiet : {A : Type 0} (q : Db → Result A) → IsQuiet (query q)
  unfolding query
  query-IsQuiet q = record {
    at = λ w b. elim (Result-cases (q w.db)) [
      | inl (a, e) ↦ rw e (Quiet-refl w b)
      | inr (x, e) ↦ rw e (Quiet-refl w b)
    ];
  }

  pub change-IsQuiet :
      {A : Type 0} (op : Db → A × Db) → ((db : Db) → Frame db (op db).1) → IsQuiet (change op)
  unfolding change
  change-IsQuiet op h = record { at = λ w. Quiet-Frame w (op w.db).1 (h w.db) }

  pub perform-IsQuiet :
      {A : Type 0} (op : Db → Result (A × Db))
      → ((db : Db) (a : A) (db' : Db) → op db ≡ ok (a, db') → Frame db db')
      → IsQuiet (perform op)
  unfolding perform
  perform-IsQuiet op h = record {
    at = λ w b. elim (Result-cases (op w.db)) [
      | inl ((a, db'), e) ↦ rw e (Quiet-Frame w db' (h w.db a db' e) b)
      | inr (x, e) ↦ rw e (Quiet-refl w b)
    ];
  }

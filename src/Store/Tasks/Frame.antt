-- ===== src/Store/Tasks/Frame.antt =====
-- The operations of other components leave the table of tasks as it was.
use codexbot.Common.{
  ℕ, ◌≡◌, refl, ◌∙◌, inl, inr, String, Option, none, arith, update, Result, ok, err, Result-cases,
  ◌>>=◌,
}
use codexbot.Clock.{Time}
use codexbot.Domain.Records.{Run, RunStatus, Event, Payload, DedupKey, Conversation}
use codexbot.Store.Database.{Db}
use codexbot.Store.Timeline.{append_timeline}
use codexbot.Store.Runs.Active.{finish_run-ok}
use codexbot.Store.Runs.{
  insert_run, append_run_input, append_run_terminal, create_run, set_run_started, start_found,
  finish_run, finished, run_with_id, new_run, run_input,
}
use codexbot.Store.Conversations.{
  ensure_agent_conversation, select_conversation, select_first, insert_mapping,
}
use codexbot.Store.Schedules.{insert_conversation}

abbrev pub Same : Db → Db → Type 0
Same db db' = db'.collaboration_tasks ≡ db.collaboration_tasks

append_timeline-Same :
    (agent run_id typ : String) (payload : Payload) (created : Time) (key : Option DedupKey)
    (source : Option ℕ) (db : Db) (e : Event) (db' : Db)
    → append_timeline agent run_id typ payload created key source db ≡ ok (e, db')
    → Same db db'
unfolding append_timeline
append_timeline-Same agent run_id typ payload created key source db e db' h = ground arith

-- The same of an entry whose event is not looked at.
without_event-Same :
    (db db' : Db) (r : Result (Event × Db))
    → ((e : Event) (mid : Db) → r ≡ ok (e, mid) → Same db mid)
    → (r >>= λ p. ok p.1) ≡ ok db'
    → Same db db'
without_event-Same db db' (ok (e, mid)) k h = ground (arith, k e mid refl)
without_event-Same db db' (err x) k h = absurd (ground arith)

append_run_input-Same :
    (r : Run) (now : Time) (db db' : Db) → append_run_input r now db ≡ ok db' → Same db db'
unfolding append_run_input
append_run_input-Same r now db db' h =
    without_event-Same db db' _
      (append_timeline-Same r.agent_id r.id _ (run_input db r) now _ none db) h

append_run_terminal-Same :
    (agent run_id : String) (status : RunStatus) (message : String) (now : Time) (db db' : Db)
    → append_run_terminal agent run_id status message now db ≡ ok db'
    → Same db db'
unfolding append_run_terminal
append_run_terminal-Same agent run_id status message now db db' h =
    without_event-Same db db' _ (append_timeline-Same agent run_id _ _ now _ none db) h

insert_run-Same : (r : Run) (db db' : Db) → insert_run r db ≡ ok db' → Same db db'
unfolding insert_run
insert_run-Same r db db' h = ground arith

pub create_run-Same :
    (r : Run) (now : Time) (db db' : Db) → create_run r now db ≡ ok db' → Same db db'
unfolding create_run
create_run-Same r now db db' h = elim (Result-cases (insert_run (new_run r) db)) [
  | inl (mid, e) ↦
      append_run_input-Same r now mid db' (rw e at h) ∙ insert_run-Same (new_run r) db mid e
  | inr (x, e) ↦ absurd (ground (arith, e))
]

pub set_run_started-Same :
    (id turn : String) (now : Time) (db db' : Db)
    → set_run_started id turn now db ≡ ok db'
    → Same db db'
unfolding set_run_started start_found
set_run_started-Same id turn now db db' h = ground arith

pub finish_run-Same :
    (id : String) (status : RunStatus) (message : String) (now : Time) (db db' : Db)
    → finish_run id status message now db ≡ ok db'
    → Same db db'
finish_run-Same id status message now db db' h =
    let mid = record db { runs = update (run_with_id id) (finished status message now) db.runs } in
    let (r, e) = finish_run-ok id status message now db db' h in
    append_run_terminal-Same r.agent_id id status message now mid db' e

pub ensure_agent_conversation-Same :
    (agent id : String) (now : Time) (db : Db) (c : Conversation) (db' : Db)
    → ensure_agent_conversation agent id now db ≡ ok (c, db')
    → Same db db'
unfolding ensure_agent_conversation select_conversation select_first insert_mapping
    insert_conversation
ensure_agent_conversation-Same agent id now db c db' h = ground arith

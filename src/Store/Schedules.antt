-- ===== src/Store/Schedules.antt =====
-- The schedules of internal/store/store.go. Children have the proofs.
pub mod Claim
use codexbot.Common.{
  ℕ, Bool, true, false, not, ◌&&◌, ◌||◌, String, List, [], ◌∷◌, Option, none, some, any, count,
  find?, select, update, delete, insert, ◌==◌, eqb, if◌then◌else◌, not_found, refused, constraint,
  Result, ok, err, ◌>>=◌, ◌>>◌, guard, or_fail,
}
use codexbot.Clock.{Time, at_most, before}
use codexbot.Domain.Records.{
  Run, RunStatus, RunSource, Conversation, ConversationKind, Schedule, is_active,
}
use codexbot.Store.Database.{Db, agent_exists}
use codexbot.Store.Runs.{insert_run, append_run_input, append_run_terminal, same_time, source_eq}

abbrev pub schedule_with_id : String → Schedule → Bool
schedule_with_id id sc = sc.id == id

-- CreateSchedule
unfoldable pub create_schedule : Schedule → Db → Result Db
create_schedule sc db = do
  guard (not (any (schedule_with_id sc.id) db.schedules)) constraint
  guard (agent_exists db sc.agent_id) constraint
  ok (record db { schedules = insert (record sc { last_run_at = none }) db.schedules })

-- Schedule
unfoldable pub schedule : String → Db → Result Schedule
schedule id db = or_fail (find? (schedule_with_id id) db.schedules) not_found

unfoldable pub with_enabled : Bool → Option Time → Time → Schedule → Schedule
with_enabled enabled next now sc = record sc {
  enabled = enabled;
  next_run_at = next;
  updated_at = now;
}

-- SetScheduleEnabled
unfoldable pub set_schedule_enabled : String → Bool → Option Time → Time → Db → Result Db
unfolding with_enabled
set_schedule_enabled id enabled next now db =
    if any (schedule_with_id id) db.schedules
    then ok (record db {
      schedules = update (schedule_with_id id) (with_enabled enabled next now) db.schedules;
    })
    else err not_found

-- next_run_at<=?, of the stored texts; NULL does not meet it.
abbrev pub due_by : Time → Option Time → Bool
due_by now none = false
due_by now (some t) = at_most t now

abbrev pub is_due : Time → Schedule → Bool
is_due now sc = sc.enabled && due_by now sc.next_run_at

-- ORDER BY next_run_at, of the stored texts; equal times in the order of the table.
abbrev pub runs_before : Option Time → Option Time → Bool
runs_before (some a) (some b) = before a b
runs_before _ _ = false

unfoldable pub insert_by_time : Schedule → List Schedule → List Schedule
insert_by_time sc [] = sc ∷ []
insert_by_time sc (x ∷ xs) =
    if runs_before x.next_run_at sc.next_run_at then x ∷ insert_by_time sc xs else sc ∷ x ∷ xs

unfoldable pub sort_by_time : List Schedule → List Schedule
sort_by_time [] = []
sort_by_time (x ∷ xs) = insert_by_time x (sort_by_time xs)

-- DueSchedules
unfoldable pub due_schedules : Time → Db → List Schedule
due_schedules now db = sort_by_time (select (is_due now) db.schedules)

unfoldable pub advanced : Time → Option Time → Bool → Time → Schedule → Schedule
advanced last next enabled now sc = record sc {
  last_run_at = some last;
  next_run_at = next;
  enabled = enabled;
  updated_at = now;
}

-- AdvanceSchedule
unfoldable pub advance_schedule : String → Time → Option Time → Bool → Time → Db → Db
unfolding advanced
advance_schedule id last next enabled now db = record db {
  schedules = update (schedule_with_id id) (advanced last next enabled now) db.schedules;
}

-- DeleteSchedule
unfoldable pub delete_schedule : String → Db → Db
delete_schedule id db = record db { schedules = delete (schedule_with_id id) db.schedules }

-- WHERE id=? AND enabled=1 AND next_run_at=?
abbrev pub claimable : String → Time → Schedule → Bool
claimable id t sc = sc.id == id && sc.enabled && same_time sc.next_run_at (some t)

abbrev pub is_scheduled_kind : ConversationKind → Bool
is_scheduled_kind ConversationKind.scheduled = true
is_scheduled_kind _ = false

-- The conversation is new and of the right kind, and the run names the schedule.
abbrev pub is_fresh_claim : Schedule → Conversation → Run → Bool
is_fresh_claim sc c r =
    is_scheduled_kind c.kind
    && c.codex_thread_id == ""
    && source_eq r.source (RunSource.schedule sc.id)

-- INSERT INTO conversations
unfoldable pub insert_conversation : Conversation → Db → Result Db
insert_conversation c db = do
  guard (not (any (λ d. d.id == c.id) db.conversations)) constraint
  guard (agent_exists db c.agent_id) constraint
  ok (record db { conversations = insert c db.conversations })

-- The row that a claim inserts: it ends at once unless it is active.
abbrev pub claimed_run : Run → Time → Run
claimed_run r now = record r {
  started_at = none;
  finished_at = if is_active r.status then none else some now;
}

-- The end of a run that was skipped.
unfoldable pub append_end : Run → Time → Db → Result Db
append_end r now db =
    if is_active r.status
    then ok db
    else append_run_terminal r.agent_id r.id r.status r.error now db

-- The transaction of ClaimScheduleRun, at the time that the run is scheduled for.
unfoldable pub claim_at :
    Time → Schedule → Conversation → Run → Option Time → Bool → Time → Db → Result Db
unfolding advanced insert_conversation append_end
claim_at t sc c r next enabled now db = do
  guard (eqb (count (claimable sc.id t) db.schedules) 1) not_found
  let db₁ = record db {
    schedules = update (claimable sc.id t) (advanced t next enabled now) db.schedules;
  }
  guard (c.id == r.conversation_id && c.agent_id == r.agent_id && sc.agent_id == r.agent_id) refused
  db₂ ← insert_conversation c db₁
  db₃ ← insert_run (claimed_run r now) db₂
  db₄ ← append_run_input r now db₃
  append_end r now db₄

-- ClaimScheduleRun
unfoldable pub claim_schedule_run :
    Schedule → Conversation → Run → Option Time → Bool → Time → Db → Result Db
unfolding claim_at
claim_schedule_run sc c r next enabled now db = do
  t ← or_fail r.scheduled_for refused
  guard (is_fresh_claim sc c r) refused
  claim_at t sc c r next enabled now db

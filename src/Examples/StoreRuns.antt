-- ===== src/Examples/StoreRuns.antt =====
-- Examples of runs, timelines, schedules, conversations, agents, desktops and access.
use codexbot.Common.{
  ◌≡◌, ◌↔◌, ◌<◌, List, All, refl, Bool, true, false, ◌&&◌, [], ◌∷◌, none, some, arith, ok, err,
  not_found, refused, Fault, eq_iff, count, any, pos, ◌==◌,
}
use codexbot.Clock.{Time}
use codexbot.Domain.Records.{Run, RunStatus, Event, Permission, raw, DedupKey, Agent, DesktopLease}
use codexbot.Domain.Task.{TaskStatus, CompletionMode}
use codexbot.Store.Database.{Db}
use codexbot.Store.Timeline.{append_timeline, append_worker_event, same_content}
use codexbot.Store.Timeline.Retry.{append_timeline-once}
use codexbot.Store.Timeline.Outbox.{events_after, is_beyond}
use codexbot.Store.Timeline.Outbox.Sorted.{IsAscending, events_after-IsAscending}
use codexbot.Store.Timeline.Page.{agent_timeline_after, page_limit}
use codexbot.Store.Timeline.Page.Bounds.{LimitOf, IsPage, beyond, agent_timeline_after_bounds}
use codexbot.Store.Timeline.Worker.{append_worker_event-again}
use codexbot.Store.Runs.{create_run, set_run_started, finish_run}
use codexbot.Store.Runs.Active.{OneActive, create_run-OneActive}
use codexbot.Store.Schedules.{claim_schedule_run, is_due}
use codexbot.Store.Schedules.Claim.{claim_once}
use codexbot.Store.Desktop.{
  set_desktop_continuation, take_desktop_continuation, acquire_desktop_lease,
  human_controls_desktop,
}
use codexbot.Store.Desktop.Continuation.{take_desktop_continuation_once}
use codexbot.Store.Agents.{
  Settings, agent, update_agent_with_icon, same_instructions, archive_agent,
}
use codexbot.Store.Agents.Version.{update_agent-version, archive_agent-stops}
use codexbot.Store.Conversations.{
  reset_agent_conversation, ensure_agent_conversation, new_conversation,
}
use codexbot.Store.Conversations.Reset.{reset-ensure}
use codexbot.Examples.Data.{
  agent_named, empty_db, run_in, task_in, with_tasks, db_of, second_of, daily, daily_chat,
  daily_run,
}

abbrev queued_run : Run
queued_run = run_in RunStatus.queued

none_active : OneActive empty_db
none_active = record { at_id = λ id. omega arith; at_agent = λ agent. omega arith }

abbrev queued_db : Db
queued_db = db_of (create_run queued_run 5 empty_db)

created : create_run queued_run 5 empty_db ≡ ok queued_db
unfolding create_run codexbot.Store.Runs.append_run_input append_timeline
created = refl

queued_one : OneActive queued_db
queued_one = create_run-OneActive 5 empty_db queued_db none_active queued_run created

create_run-OneActive_example : OneActive queued_db
create_run-OneActive_example =
    create_run-OneActive 5 empty_db queued_db none_active queued_run created

abbrev running_db : Db
running_db = db_of (set_run_started "run" "turn" 6 queued_db)

started_ok : set_run_started "run" "turn" 6 queued_db ≡ ok running_db
unfolding set_run_started create_run codexbot.Store.Runs.append_run_input append_timeline
started_ok = refl

abbrev finished_db : Db
finished_db = db_of (finish_run "run" RunStatus.completed "" 7 queued_db)

finished_ok : finish_run "run" RunStatus.completed "" 7 queued_db ≡ ok finished_db
unfolding finish_run create_run codexbot.Store.Runs.append_run_input append_timeline
    codexbot.Store.Runs.append_run_terminal codexbot.Store.Timeline.key_eq
finished_ok = refl

abbrev first_entry : Event
first_entry = record { run_id = ""; sequence = 1; typ = "note"; payload = raw "1"; created_at = 5 }

abbrev entry_db : Db
entry_db =
    second_of
      (append_timeline "alice" "" "note" (raw "1") 5 (some (DedupKey.given "k")) none empty_db)

appended :
    append_timeline "alice" "" "note" (raw "1") 5 (some (DedupKey.given "k")) none empty_db
    ≡ ok (first_entry, entry_db)
unfolding append_timeline
appended = refl

append_timeline-once_example :
    append_timeline "alice" "" "other" (raw "2") 6 (some (DedupKey.given "k")) none entry_db
    ≡ ok (first_entry, entry_db)
append_timeline-once_example =
    append_timeline-once "alice" "" (DedupKey.given "k") empty_db first_entry entry_db "note"
      (raw "1") 5 none appended "other" (raw "2") 6 none

abbrev reported : Event
reported = record { run_id = "run"; sequence = 1; typ = "note"; payload = raw "1"; created_at = 6 }

abbrev reported_db : Db
reported_db = second_of (append_worker_event "run" (pos 1) "note" "1" 6 queued_db)

reported_ok : append_worker_event "run" (pos 1) "note" "1" 6 queued_db ≡ ok (reported, reported_db)
unfolding append_worker_event codexbot.Store.Timeline.append_at create_run
    codexbot.Store.Runs.append_run_input append_timeline codexbot.Store.Timeline.append_stored_event
    codexbot.Store.Timeline.key_eq
reported_ok = refl

append_worker_event-again_example :
    (same_content "note" "1" reported ≡ true)
    × (append_worker_event "run" (pos 1) "note" "2" 7 reported_db ≡ err refused)
append_worker_event-again_example =
    append_worker_event-again "run" (pos 1) "note" "1" 6 queued_db reported reported_db reported_ok
      "note" "2" 7

abbrev scheduled_db : Db
scheduled_db = record empty_db { schedules = daily ∷ [] }

abbrev claimed_db : Db
claimed_db = db_of (claim_schedule_run daily daily_chat daily_run none true 7 scheduled_db)

claimed_ok : claim_schedule_run daily daily_chat daily_run none true 7 scheduled_db ≡ ok claimed_db
unfolding claim_schedule_run codexbot.Store.Runs.source_eq codexbot.Store.Runs.insert_run
    codexbot.Store.Runs.append_run_input append_timeline
claimed_ok = refl

claim_once_example :
    (x : Fault) × (claim_schedule_run daily daily_chat
        (record daily_run { id = "second" })
        none
        true
        8
        claimed_db
      ≡ err x)
claim_once_example =
    claim_once 1000000000 daily daily_chat daily_run none true 7 scheduled_db claimed_db claimed_ok
      refl daily daily_chat (record daily_run { id = "second" }) none true 8 refl refl

abbrev reset_db : Db
reset_db = second_of (reset_agent_conversation "alice" "new" 5 6 empty_db)

reset_ok :
    reset_agent_conversation "alice" "new" 5 6 empty_db
    ≡ ok (new_conversation "new" "alice" 1 6, reset_db)
unfolding reset_agent_conversation codexbot.Store.Schedules.insert_conversation append_timeline
reset_ok = refl

reset-ensure_example :
    ((new_conversation "new" "alice" 1 6).codex_thread_id ≡ "")
    × (db : Db) × (ensure_agent_conversation "alice" "newer" 7 reset_db
        ≡ ok (new_conversation "new" "alice" 1 6, db))
    × (db.agent_conversations ≡ reset_db.agent_conversations)
reset-ensure_example =
    reset-ensure "alice" "new" 5 6 empty_db (new_conversation "new" "alice" 1 6) reset_db reset_ok
      "newer" 7

abbrev shown_db : Db
shown_db = with_tasks (task_in TaskStatus.running CompletionMode.poll ∷ []) (queued_run ∷ [])

abbrev settings : Settings
settings = record {
  name = "Alice";
  role_prompt = "Help more.";
  model = "m";
  effort = "high";
  permission = Permission.auto;
}

abbrev edited : Agent
edited = record (agent_named "alice") {
  name = "Alice";
  role_prompt = "Help more.";
  role_version = 2;
  updated_at = 6;
}

abbrev edited_db : Db
edited_db = second_of (update_agent_with_icon (λ image. image) "alice" settings none 6 empty_db)

edited_ok :
    update_agent_with_icon (λ image. image) "alice" settings none 6 empty_db
    ≡ ok (edited, edited_db)
unfolding update_agent_with_icon
edited_ok = refl

update_agent-version_example :
    (same_instructions settings edited ≡ true)
    × (edited.role_version ≡ (agent_named "alice").role_version
        ↔ same_instructions settings (agent_named "alice") ≡ true)
    × (same_instructions settings (agent_named "alice") ≡ false → edited.role_version ≡ 2)
update_agent-version_example =
    update_agent-version (λ image. image) "alice" settings none 6 empty_db (agent_named "alice")
      edited edited_db refl edited_ok

abbrev archived_db : Db
archived_db = db_of (archive_agent "alice" 6 7 scheduled_db)

archived_ok : archive_agent "alice" 6 7 scheduled_db ≡ ok archived_db
unfolding archive_agent
archived_ok = refl

archive_agent-stops_example :
    (agent "alice" archived_db ≡ err not_found)
    × ((t : Time) → any (λ sc. sc.agent_id == "alice" && is_due t sc) archived_db.schedules ≡ false)
    × ((t : Time) → human_controls_desktop "alice" t archived_db ≡ false)
archive_agent-stops_example = archive_agent-stops "alice" 6 7 scheduled_db archived_db archived_ok

abbrev lease : DesktopLease
lease = record { agent_id = "alice"; holder = "human"; generation = 1; expires_at = 65 }

abbrev leased_db : Db
leased_db = second_of (acquire_desktop_lease "alice" "human" 60 5 empty_db)

leased_ok : acquire_desktop_lease "alice" "human" 60 5 empty_db ≡ ok (lease, leased_db)
unfolding acquire_desktop_lease
leased_ok = refl

events_after-IsAscending_example :
    IsAscending (events_after "run" (pos 0) reported_db)
    × ((p : Event → Bool)
        → count p (events_after "run" (pos 0) reported_db)
          ≡ count
              (λ e. (e.run_id == "run" && is_beyond (pos 0) e.sequence) && p e)
              reported_db.events)
events_after-IsAscending_example = events_after-IsAscending "run" (pos 0) reported_db

abbrev continued_db : Db
continued_db = db_of (set_desktop_continuation "alice" "chat" 5 empty_db)

continued_ok : set_desktop_continuation "alice" "chat" 5 empty_db ≡ ok continued_db
unfolding set_desktop_continuation
continued_ok = refl

take_desktop_continuation_once_example :
    ((take_desktop_continuation "alice" continued_db).0 ≡ "chat")
    × ((take_desktop_continuation "alice" (take_desktop_continuation "alice" continued_db).1).0
        ≡ "")
take_desktop_continuation_once_example =
    take_desktop_continuation_once "alice" "chat" 5 empty_db continued_db
      (λ e. ground (arith, (eq_iff "chat" "").1 e)) continued_ok

abbrev page : List Event
page = first_entry ∷ []

page_ok : agent_timeline_after "alice" (pos 0) (pos 10) entry_db ≡ ok page
unfolding agent_timeline_after page_limit append_timeline
page_ok = refl

agent_timeline_after_bounds_example :
    (es : List Event) × (agent_timeline_after "alice" (pos 0) (pos 10) entry_db ≡ ok es)
    × IsPage 10 es (beyond "alice" 0 entry_db)
    × All (λ e. 0 < e.sequence) es
agent_timeline_after_bounds_example =
    agent_timeline_after_bounds "alice" 0 (pos 10) entry_db 10
      (LimitOf.chosen 10 (omega arith) (omega arith))

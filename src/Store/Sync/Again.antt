-- ===== src/Store/Sync/Again.antt =====
-- The projection of tasks to timelines, made again.
use codexbot.Common.{◌≡◌, Bool, true, false, String, any, All}
use codexbot.Domain.Task.{CollaborationTask}
use codexbot.Domain.Records.{DedupKey}
use codexbot.Store.Database.{Db, TimelineRow}
use codexbot.Store.Timeline.{has_dedup_key, is_scheduled_run}
use codexbot.Store.Sync.{Projection, agent_of, key_of, is_wanted}

-- The projection leaves runs and tasks, and every entry.
record Keeps (db db' : Db) : Type 0 where
  pub runs : db'.runs ≡ db.runs
  pub tasks : db'.collaboration_tasks ≡ db.collaboration_tasks
  pub entries :
      (q : TimelineRow → Bool) → any q db.agent_timeline ≡ true → any q db'.agent_timeline ≡ true

abbrev Has : Projection → Db → CollaborationTask → Type 0
Has p db t = any (has_dedup_key (agent_of p t) (key_of p t)) db.agent_timeline ≡ true

-- Nothing is left to project.
abbrev Settled : Projection → Db → Type 0
Settled p db = All (λ t. is_wanted p db t ≡ false) db.collaboration_tasks

-- Nothing of the four projections is left.
record IsComplete (db : Db) : Type 0 where
  pub sent : Settled Projection.sent db
  pub received : Settled Projection.received db
  pub sender : Settled Projection.sender_status db
  pub target : Settled Projection.target_status db

-- An agent's timeline has an entry with the key.
abbrev pub HasEntry : Db → String → DedupKey → Type 0
HasEntry db agent key = any (has_dedup_key agent key) db.agent_timeline ≡ true

-- Both parties of a task see it and its present status, but in runs of schedules.
pub record IsShown (db : Db) (t : CollaborationTask) : Type 0 where
  pub sender :
      is_scheduled_run db t.sender_run_id ≡ false
      → HasEntry db t.sender_agent_id (DedupKey.receipt t.id)
        × HasEntry db t.sender_agent_id (DedupKey.task_status t.id t.updated_at)
  pub target :
      is_scheduled_run db t.run_id ≡ false
      → HasEntry db t.target_agent_id (DedupKey.receipt t.id)
        × HasEntry db t.target_agent_id (DedupKey.task_status t.id t.updated_at)

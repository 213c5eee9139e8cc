-- ===== src/Store/Sync.antt =====
-- SyncCollaborationTimeline of internal/store/timeline.go: what the timelines of its sender and of
-- its target show of each task. Children have the proofs.
pub mod Again
use codexbot.Common.{
  ℕ, ◌+◌, Bool, not, ◌&&◌, String, List, [], ◌∷◌, none, some, any, select, insert,
}
use codexbot.Clock.{Time}
use codexbot.Domain.Text.{concat}
use codexbot.Domain.Task.{CollaborationTask, TaskMode}
use codexbot.Domain.Records.{Payload, object, DedupKey}
use codexbot.Store.Database.{Db, TimelineRow}
use codexbot.Store.Tasks.Query.{status_text}
use codexbot.Store.Timeline.{has_dedup_key, is_scheduled_run}

-- A row of the table of projections.
pub data Projection : Type 0 where
  sent received sender_status target_status : Projection

mode_text : TaskMode → String
mode_text TaskMode.queue = "queue"
mode_text TaskMode.steer = "steer"

-- The agent, the run, the type, the time and the key of a projection.
abbrev pub agent_of : Projection → CollaborationTask → String
agent_of Projection.sent t = t.sender_agent_id
agent_of Projection.received t = t.target_agent_id
agent_of Projection.sender_status t = t.sender_agent_id
agent_of Projection.target_status t = t.target_agent_id

abbrev pub run_id_of : Projection → CollaborationTask → String
run_id_of Projection.sent t = t.sender_run_id
run_id_of Projection.received t = t.run_id
run_id_of Projection.sender_status t = t.sender_run_id
run_id_of Projection.target_status t = t.run_id

abbrev pub typ_of : Projection → String
typ_of Projection.sent = "collaboration.sent"
typ_of Projection.received = "collaboration.received"
typ_of _ = "collaboration.status"

abbrev pub created_of : Projection → CollaborationTask → Time
created_of Projection.sent t = t.created_at
created_of Projection.received t = t.created_at
created_of _ t = t.updated_at

abbrev pub key_of : Projection → CollaborationTask → DedupKey
key_of Projection.sent t = DedupKey.receipt t.id
key_of Projection.received t = DedupKey.receipt t.id
key_of _ t = DedupKey.task_status t.id t.updated_at

pub task_payload : CollaborationTask → Payload
unfolding status_text mode_text
task_payload t = object (
    ("id", concat "task-" t.id)
    ∷ ("taskId", t.id)
    ∷ ("senderAgentId", t.sender_agent_id)
    ∷ ("targetAgentId", t.target_agent_id)
    ∷ ("prompt", t.prompt)
    ∷ ("status", status_text t.status)
    ∷ ("error", t.error)
    ∷ ("runId", t.run_id)
    ∷ ("mode", mode_text t.mode)
    ∷ [])

-- The WHERE of the query.
abbrev pub is_wanted : Projection → Db → CollaborationTask → Bool
is_wanted p db t =
    not (is_scheduled_run db (run_id_of p t))
    && not (any (has_dedup_key (agent_of p t) (key_of p t)) db.agent_timeline)

abbrev pub row_for : Projection → ℕ → CollaborationTask → TimelineRow
row_for p n t = record {
  sequence = n;
  agent_id = agent_of p t;
  run_id = run_id_of p t;
  typ = typ_of p;
  payload = task_payload t;
  created_at = created_of p t;
  dedup_key = some (key_of p t);
  source_sequence = none;
}

-- INSERT of the rows that the query selected.
abbrev pub insert_all : Projection → List CollaborationTask → Db → Db
insert_all p [] db = db
insert_all p (t ∷ ts) db = insert_all p ts (record db {
  agent_timeline = insert (row_for p db.next_timeline t) db.agent_timeline;
  next_timeline = db.next_timeline + 1;
})

pub project : Projection → Db → Db
unfolding task_payload
project p db = insert_all p (select (is_wanted p db) db.collaboration_tasks) db

-- SyncCollaborationTimeline
pub sync_collaboration_timeline : Db → Db
unfolding project
sync_collaboration_timeline db =
    project Projection.target_status
      (project Projection.sender_status (project Projection.received (project Projection.sent db)))

-- ===== src/Store/Database.antt =====
-- The tables of the schema in internal/store/store.go, collaboration.go and timeline.go, as one
-- state. The store uses one connection (SetMaxOpenConns(1)), so its transactions do not overlap,
-- and one that returns an error is rolled back.
use codexbot.Common.{ℕ, Bool, String, List, Option, any, ◌==◌}
use codexbot.Clock.{Time}
use codexbot.Domain.Task.{CollaborationTask}
use codexbot.Domain.Records.{
  Agent, Conversation, Run, Event, Payload, DedupKey, Schedule, DesktopLease,
}

pub record DesktopContinuation : Type 0 where
  pub agent_id : String
  pub conversation_id : String
  pub created_at : Time

-- A row of agent_conversations: the conversation that an agent's inputs go to.
pub record AgentConversation : Type 0 where
  pub agent_id : String
  pub conversation_id : String

-- A row of agent_timeline. `none` is SQL's NULL.
pub record TimelineRow : Type 0 where
  pub sequence : ℕ
  pub agent_id : String
  pub run_id : String
  pub typ : String
  pub payload : Payload
  pub created_at : Time
  pub dedup_key : Option DedupKey
  pub source_sequence : Option ℕ

pub record Db : Type 0 where
  pub agents : List Agent
  pub conversations : List Conversation
  pub runs : List Run
  pub events : List Event
  pub schedules : List Schedule
  pub desktop_leases : List DesktopLease
  pub desktop_continuations : List DesktopContinuation
  pub agent_conversations : List AgentConversation
  pub agent_timeline : List TimelineRow
  -- What AUTOINCREMENT gives to the next row of agent_timeline.
  pub next_timeline : ℕ
  -- In the order of `sequence`. No statement deletes a task.
  pub collaboration_tasks : List CollaborationTask

-- REFERENCES agents(id)
abbrev pub agent_exists : Db → String → Bool
agent_exists db id = any (λ a. a.id == id) db.agents

-- REFERENCES conversations(id)
abbrev pub conversation_exists : Db → String → Bool
conversation_exists db id = any (λ c. c.id == id) db.conversations

-- ===== src/Store/Conversations.antt =====
-- The conversation that an agent's inputs go to: EnsureAgentConversation of
-- internal/store/timeline.go and internal/store/conversation_reset.go. Children have the proofs.
pub mod Reset
pub mod Edit
use codexbot.Common.{
  ℕ, Bool, true, false, not, ◌&&◌, ◌||◌, String, List, [], ◌∷◌, Option, none, some, any, find?,
  update, insert, ◌==◌, ltb, if◌then◌else◌, not_found, busy, constraint, refused, Result, ok, err,
  ◌>>=◌, ◌>>◌, guard, or_fail,
}
use codexbot.Clock.{Time, before}
use codexbot.Domain.Text.{concat}
use codexbot.Domain.Records.{
  Agent, Conversation, ConversationKind, Run, Payload, object, DedupKey, is_active, is_scheduled,
}
use codexbot.Store.Database.{Db, AgentConversation}
use codexbot.Store.Timeline.{append_timeline}
use codexbot.Store.Runs.{active_for}
use codexbot.Store.Schedules.{insert_conversation}
use codexbot.Store.Desktop.{held_by_human, without_continuation}
use codexbot.Store.Agents.{is_live}

abbrev pub mapping_of : String → AgentConversation → Bool
mapping_of agent m = m.agent_id == agent

abbrev pub conversation_with_id : String → Conversation → Bool
conversation_with_id id c = c.id == id

-- kind IN ('manual','agent','collaboration')
abbrev pub is_chat : ConversationKind → Bool
is_chat ConversationKind.scheduled = false
is_chat _ = true

abbrev pub is_manual : ConversationKind → Bool
is_manual ConversationKind.manual = true
is_manual _ = false

-- The conversation has a live chat run of its agent.
abbrev pub has_live_run : Db → Conversation → Bool
has_live_run db c =
    any
      (λ r.
        r.conversation_id == c.id
        && r.agent_id == c.agent_id
        && is_active r.status
        && not (is_scheduled r.source))
      db.runs

-- The first sort key: a live run, then manual chats.
abbrev pub rank : Db → Conversation → ℕ
rank db c = if has_live_run db c then 0 else if is_manual c.kind then 1 else 2

-- `a` is selected before `b`, an earlier row of the table, which wins by no tie.
abbrev pub selected_before : Db → Conversation → Conversation → Bool
selected_before db b a =
    if ltb (rank db a) (rank db b)
    then true
    else if ltb (rank db b) (rank db a)
    then false
    else not (before a.created_at b.created_at)

abbrev pub better : Db → Conversation → Option Conversation → Conversation
better db c none = c
better db c (some later) = if selected_before db c later then later else c

-- The best of an agent's chats.
unfoldable pub best_chat : Db → String → List Conversation → Option Conversation
best_chat db agent [] = none
best_chat db agent (c ∷ cs) =
    let rest = best_chat db agent cs in
    if c.agent_id == agent && is_chat c.kind then some (better db c rest) else rest

-- A new conversation of kind 'agent'.
abbrev pub new_conversation : String → String → ℕ → Time → Conversation
new_conversation id agent version now = record {
  id = id;
  agent_id = agent;
  codex_thread_id = "";
  kind = ConversationKind.agent;
  role_version = version;
  title = "";
  created_at = now;
}

-- INSERT INTO agent_conversations, whose two columns are both unique.
unfoldable pub insert_mapping : String → String → Db → Result Db
insert_mapping agent conversation db = do
  guard
      (not (
        any (λ m. m.agent_id == agent || m.conversation_id == conversation) db.agent_conversations))
      constraint
  ok (record db {
    agent_conversations =
        insert (record { agent_id = agent; conversation_id = conversation }) db.agent_conversations;
  })

-- The first selection, by the best chat.
unfoldable pub select_first :
    String → ℕ → String → Time → Db → Option Conversation → Result (String × Db)
unfolding insert_mapping
select_first agent version id now db (some c) = do
  db' ← insert_mapping agent c.id db
  ok (c.id, db')
select_first agent version id now db none = do
  mid ← insert_conversation (new_conversation id agent version now) db
  db' ← insert_mapping agent id mid
  ok (id, db')

-- The mapping, or the first selection.
unfoldable pub select_conversation :
    String → ℕ → String → Time → Db → Option AgentConversation → Result (String × Db)
unfolding select_first best_chat
select_conversation agent version id now db (some m) = ok (m.conversation_id, db)
select_conversation agent version id now db none =
    select_first agent version id now db (best_chat db agent db.conversations)

abbrev pub own_conversation : String → String → Conversation → Bool
own_conversation id agent c = c.id == id && c.agent_id == agent

-- EnsureAgentConversation
unfoldable pub ensure_agent_conversation : String → String → Time → Db → Result (Conversation × Db)
unfolding select_conversation
ensure_agent_conversation agent id now db = do
  a ← or_fail (find? (is_live agent) db.agents) not_found
  (chosen, mid) ←
      select_conversation agent a.role_version id now db
        (find? (mapping_of agent) db.agent_conversations)
  let db' = record mid {
    conversations =
        update (own_conversation chosen agent)
          (λ (c : Conversation). record c { role_version = a.role_version }) mid.conversations;
  }
  c ← or_fail (find? (own_conversation chosen agent) db'.conversations) refused
  ok (c, db')

-- INSERT ... ON CONFLICT(agent_id) DO UPDATE. The conversation is unique in the table.
unfoldable pub set_mapping : String → String → Db → Result Db
set_mapping agent conversation db = do
  guard
      (not (
        any (λ m. m.conversation_id == conversation && not (m.agent_id == agent))
          db.agent_conversations))
      constraint
  let row : AgentConversation = record { agent_id = agent; conversation_id = conversation }
  ok (record db {
    agent_conversations =
        if any (mapping_of agent) db.agent_conversations
        then update (mapping_of agent) (λ _. row) db.agent_conversations
        else insert row db.agent_conversations;
  })

abbrev pub previous_of : Option AgentConversation → String
previous_of none = ""
previous_of (some m) = m.conversation_id

-- The entry of the timeline for a reset.
unfoldable pub reset_payload : String → String → Payload
reset_payload id previous = object (
    ("id", concat "conversation-" id)
    ∷ ("conversationId", id)
    ∷ ("previousConversationId", previous)
    ∷ (
      "text",
      "New chat started. Earlier messages remain visible, but are not included in the new context.",
    )
    ∷ [])

-- ResetAgentConversation. The clock is read for the test of the lease and for the new row.
unfoldable pub reset_agent_conversation :
    String → String → Time → Time → Db → Result (Conversation × Db)
unfolding set_mapping
reset_agent_conversation agent id now later db = do
  a ← or_fail (find? (is_live agent) db.agents) not_found
  guard (not (any (active_for agent) db.runs || any (held_by_human agent now) db.desktop_leases))
      busy
  let previous = previous_of (find? (mapping_of agent) db.agent_conversations)
  let c = new_conversation id agent a.role_version later
  db₁ ← insert_conversation c db
  db₂ ← set_mapping agent id db₁
  (_, db₃) ←
      append_timeline agent "" "conversation.reset" (reset_payload id previous) later
        (some (DedupKey.reset id)) none (without_continuation agent db₂)
  ok (c, db₃)

-- ===== src/Store/Conversations/Edit.antt =====
-- The single conversation of internal/store/store.go: its thread, its title and its row.
use codexbot.Common.{
  ◌&&◌, String, List, [], ◌∷◌, Option, none, some, find?, update, not_found, Result, ◌==◌,
  if◌then◌else◌, or_fail,
}
use codexbot.Clock.{before}
use codexbot.Domain.Records.{Conversation}
use codexbot.Store.Database.{Db}
use codexbot.Store.Conversations.{conversation_with_id, is_manual}

unfoldable pub with_thread : String → Conversation → Conversation
with_thread thread c = record c { codex_thread_id = thread }

-- SetConversationThread
unfoldable pub set_conversation_thread : String → String → Db → Db
unfolding with_thread
set_conversation_thread id thread db = record db {
  conversations = update (conversation_with_id id) (with_thread thread) db.conversations;
}

unfoldable pub with_title : String → Conversation → Conversation
with_title title c = record c { title = title }

-- SetConversationTitle
unfoldable pub set_conversation_title : String → String → Db → Db
unfolding with_title
set_conversation_title id title db = record db {
  conversations = update (conversation_with_id id) (with_title title) db.conversations;
}

-- Conversation
unfoldable pub conversation : String → Db → Result Conversation
conversation id db = or_fail (find? (conversation_with_id id) db.conversations) not_found

-- The later of two chats by the stored texts of their creation.
abbrev pub newer : Conversation → Option Conversation → Conversation
newer c none = c
newer c (some d) = if before c.created_at d.created_at then d else c

unfoldable pub newest_manual : String → List Conversation → Option Conversation
newest_manual agent [] = none
newest_manual agent (c ∷ cs) =
    let rest = newest_manual agent cs in
    if c.agent_id == agent && is_manual c.kind then some (newer c rest) else rest

-- LatestManualConversation
unfoldable pub latest_manual_conversation : String → Db → Result Conversation
unfolding newest_manual
latest_manual_conversation agent db = or_fail (newest_manual agent db.conversations) not_found

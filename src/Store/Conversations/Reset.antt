-- ===== src/Store/Conversations/Reset.antt =====
-- The conversation of an agent after a reset.
use codexbot.Common.{
  ◌≡◌, refl, ap, ◌∙◌, inl, inr, true, false, ◌||◌, String, List, [], ◌∷◌, Option, none, some, arith,
  eq_refl, ◌==◌, any, find?, find?-append, find?-none_of_any, find?-update, find?-sound, update,
  insert, ok, Result-cases, Option-cases, Bool-cases,
}
use codexbot.Clock.{Time}
use codexbot.Domain.Records.{Agent, Conversation, DedupKey}
use codexbot.Store.Database.{Db, AgentConversation}
use codexbot.Store.Desktop.{held_by_human, without_continuation}
use codexbot.Store.Runs.{active_for}
use codexbot.Store.Agents.{is_live}
use codexbot.Store.Schedules.{insert_conversation}
use codexbot.Store.Timeline.{append_timeline}
use codexbot.Store.Timeline.Retry.{append_timeline-frame}
use codexbot.Store.Conversations.{
  mapping_of, new_conversation, select_conversation, own_conversation, ensure_agent_conversation,
  set_mapping, previous_of, reset_payload, reset_agent_conversation,
}

find?-mapped :
    (row : AgentConversation) (ms : List AgentConversation)
    → any (mapping_of row.agent_id) ms ≡ true
    → find? (mapping_of row.agent_id) (update (mapping_of row.agent_id) (λ _. row) ms) ≡ some row
find?-mapped row [] h = absurd (ground arith)
find?-mapped row (m ∷ ms) h = ground (arith, find?-mapped row ms, eq_refl row.agent_id)

abbrev mapped : String → String → AgentConversation
mapped agent conversation = record { agent_id = agent; conversation_id = conversation }

set_mapping-ok :
    (agent conversation : String) (db db' : Db)
    → set_mapping agent conversation db ≡ ok db'
    → (find? (mapping_of agent) db'.agent_conversations ≡ some (mapped agent conversation))
      × (db'.conversations ≡ db.conversations)
      × (db'.agents ≡ db.agents)
unfolding set_mapping
set_mapping-ok agent conversation db db' h =
    elim (Bool-cases (any (mapping_of agent) db.agent_conversations)) [
      | inl e ↦ (
        ground (arith, e, find?-mapped (mapped agent conversation) db.agent_conversations e),
        ground arith,
        ground arith,
      )
      | inr e ↦ (
        ground (
          arith,
          e,
          eq_refl agent,
          find?-append (mapping_of agent) db.agent_conversations (mapped agent conversation ∷ [])
              (find?-none_of_any (mapping_of agent) db.agent_conversations e),
        ),
        ground arith,
        ground arith,
      )
    ]

insert_conversation-ok :
    (c : Conversation) (db db' : Db)
    → insert_conversation c db ≡ ok db'
    → (db'.conversations ≡ insert c db.conversations)
      × (db'.agents ≡ db.agents)
      × (any (λ d. d.id == c.id) db.conversations ≡ false)
unfolding insert_conversation
insert_conversation-ok c db db' h = ground arith

-- A new conversation is the one found under its identifier and agent.
find?-own :
    (c : Conversation) (cs : List Conversation)
    → any (λ d. d.id == c.id) cs ≡ false
    → find? (own_conversation c.id c.agent_id) (insert c cs) ≡ some c
find?-own c [] h = ground (arith, eq_refl c.id, eq_refl c.agent_id)
find?-own c (x ∷ xs) h = ground (arith, find?-own c xs)

module _ (agent id : String) (now later : Time) (db : Db) (c : Conversation) (db' : Db) where
  -- What a reset leaves.
  record IsReset (a : Agent) : Type 0 where
    pub made : c ≡ new_conversation id agent a.role_version later
    pub live : find? (is_live agent) db'.agents ≡ some a
    pub mapping : find? (mapping_of agent) db'.agent_conversations ≡ some (mapped agent id)
    pub own : find? (own_conversation id agent) db'.conversations ≡ some c

  reset_agent_conversation_rows :
      (a : Agent)
      → find? (is_live agent) db.agents ≡ some a
      → (any (active_for agent) db.runs || any (held_by_human agent now) db.desktop_leases) ≡ false
      → reset_agent_conversation agent id now later db ≡ ok (c, db')
      → IsReset a
  unfolding reset_agent_conversation
  reset_agent_conversation_rows a live free h =
      let new = new_conversation id agent a.role_version later in
      let payload =
        reset_payload id (previous_of (find? (mapping_of agent) db.agent_conversations)) in
      let key : Option DedupKey = some (DedupKey.reset id) in
      elim (Result-cases (insert_conversation new db)) [
        | inr (x, e) ↦ absurd (ground (arith, rw (live, free, e) at h))
        | inl (db₁, e) ↦ elim (Result-cases (set_mapping agent id db₁)) [
          | inr (x, f) ↦ absurd (ground (arith, rw (live, free, e, f) at h))
          | inl (db₂, f) ↦
              let db₃ = without_continuation agent db₂ in
              elim (Result-cases
                (append_timeline agent "" "conversation.reset" payload later key none db₃)) [
                  | inr (x, g) ↦ absurd (ground (arith, rw (live, free, e, f, g) at h))
                  | inl ((ev, db₄), g) ↦
                      let (rows, agents, fresh) = insert_conversation-ok new db db₁ e in
                      let (found, rows', agents') = set_mapping-ok agent id db₁ db₂ f in
                      let (_, _, agents'', mappings, rows'') =
                        append_timeline-frame agent "" "conversation.reset" payload later key none
                          db₃ ev db₄ g in
                      let (is_new, is_db) : (c ≡ new) × (db' ≡ db₄) =
                        ground (arith, rw (live, free, e, f, g) at h) in
                      record {
                        made = is_new;
                        live =
                            rw is_db
                              (ap (find? (is_live agent)) (agents'' ∙ agents' ∙ agents) ∙ live);
                        mapping = rw is_db (ap (find? (mapping_of agent)) mappings ∙ found);
                        own =
                            rw (is_db, is_new)
                              (ap (find? (own_conversation id agent)) (rows'' ∙ rows' ∙ rows)
                                ∙ find?-own new db.conversations fresh);
                      }
                ]
        ]
      ]

  reset_agent_conversation-IsReset :
      reset_agent_conversation agent id now later db ≡ ok (c, db') → (a : Agent) × IsReset a
  reset_agent_conversation-IsReset h = elim (Option-cases (find? (is_live agent) db.agents)) [
    | inl live ↦ absurd (not_live live h)
    | inr (a, live) ↦
        elim (Bool-cases
          (any (active_for agent) db.runs || any (held_by_human agent now) db.desktop_leases)) [
            | inl busy ↦ absurd (is_busy a live busy h)
            | inr free ↦ (a, reset_agent_conversation_rows a live free h)
          ]
  ]
    where
      not_live :
          find? (is_live agent) db.agents ≡ none
          → reset_agent_conversation agent id now later db ≡ ok (c, db')
          → ⊥
      not_live live h = unfold reset_agent_conversation in ground (arith, rw live at h)

      is_busy :
          (a : Agent)
          → find? (is_live agent) db.agents ≡ some a
          → (any (active_for agent) db.runs || any (held_by_human agent now) db.desktop_leases)
            ≡ true
          → reset_agent_conversation agent id now later db ≡ ok (c, db')
          → ⊥
      is_busy a live busy h =
          unfold reset_agent_conversation in ground (arith, rw (live, busy) at h)

  -- After a reset has made a conversation, the agent's inputs go to it: the agent's conversation
  -- is that one, for any identifier that is offered for a new one, and it stays selected. It has
  -- no thread yet, so the context starts empty.
  pub reset-ensure :
      reset_agent_conversation agent id now later db ≡ ok (c, db')
      → (id' : String) (now' : Time)
      → (c.codex_thread_id ≡ "")
        × (db'' : Db) × (ensure_agent_conversation agent id' now' db' ≡ ok (c, db''))
        × (db''.agent_conversations ≡ db'.agent_conversations)
  unfolding ensure_agent_conversation select_conversation
  reset-ensure h id' now' =
      let (a, r) = reset_agent_conversation-IsReset h in
      let set = λ (x : Conversation). record x { role_version = a.role_version } in
      let mine = find?-sound (own_conversation id agent) db'.conversations c r.own in
      let kept : record c { role_version = a.role_version } ≡ c = rw r.made refl in
      let again : find? (own_conversation id agent)
            (update (own_conversation id agent) set db'.conversations)
          ≡ some c =
        find?-update (own_conversation id agent) (own_conversation id agent) set db'.conversations
          (λ x e. refl)
        ∙ rw (r.own, mine) (ap some kept) in
      (
        rw r.made refl,
        record db' { conversations = update (own_conversation id agent) set db'.conversations },
        rw (r.live, r.mapping, again) refl,
        refl,
      )

-- ===== src/Store/Agents.antt =====
-- The agents of internal/store/store.go, and the version of an icon of agent_icons.go. The images
-- themselves stay outside. Children have the proofs.
pub mod Version
use codexbot.Common.{
  ℕ, suc, ◌+◌, Bool, true, false, not, ◌&&◌, ◌||◌, String, List, [], ◌∷◌, Option, none, some, any,
  find?, select, update, delete, insert, ◌==◌, if◌then◌else◌, not_found, constraint, Result, ok,
  err, ◌>>=◌, ◌>>◌, guard, or_fail,
}
use codexbot.Clock.{Time}
use codexbot.Domain.Records.{Agent, Permission, Schedule}
use codexbot.Store.Database.{Db, agent_exists}
use codexbot.Store.Desktop.{lease_of, continuation_of}

abbrev pub agent_with_id : String → Agent → Bool
agent_with_id id a = a.id == id

-- id=? AND archived=0
abbrev pub is_live : String → Agent → Bool
is_live id a = a.id == id && not a.archived

abbrev pub permission_eq : Permission → Permission → Bool
permission_eq Permission.auto Permission.auto = true
permission_eq Permission.full_access Permission.full_access = true
permission_eq _ _ = false

-- `sha256` stands for the digest of an image as hexadecimal text. Without an update the icon
-- stays; an empty image removes it.
abbrev pub icon_version_after : (String → String) → String → Option String → String
icon_version_after sha256 old none = old
icon_version_after sha256 old (some image) = if image == "" then "" else sha256 image

unfoldable pub with_icon : (String → String) → Option String → Agent → Agent
with_icon sha256 icon a = record a { icon_version = icon_version_after sha256 a.icon_version icon }

-- updateAgentIcon, as far as agents is concerned
unfoldable pub update_agent_icon : (String → String) → String → Option String → Db → Db
unfolding with_icon
update_agent_icon sha256 id icon db = record db {
  agents = update (agent_with_id id) (with_icon sha256 icon) db.agents;
}

-- CreateAgentWithIcon. The row has no icon and is not archived; an empty permission is Auto.
unfoldable pub create_agent_with_icon : (String → String) → Agent → Option String → Db → Result Db
unfolding update_agent_icon
create_agent_with_icon sha256 a icon db = do
  guard (not (any (agent_with_id a.id) db.agents)) constraint
  let row : Agent = record a { icon_version = ""; archived = false }
  ok (update_agent_icon sha256 a.id icon (record db { agents = insert row db.agents }))

-- Agent
unfoldable pub agent : String → Db → Result Agent
agent id db = or_fail (find? (is_live id) db.agents) not_found

-- The fields of an agent that a user edits.
pub record Settings : Type 0 where
  pub name : String
  pub role_prompt : String
  pub model : String
  pub effort : String
  pub permission : Permission

-- What a conversation's context depends on.
abbrev pub same_instructions : Settings → Agent → Bool
same_instructions s a =
    a.role_prompt == s.role_prompt
    && a.model == s.model
    && a.effort == s.effort
    && permission_eq a.permission s.permission

unfoldable pub with_settings : Settings → Time → Agent → Agent
with_settings s now a = record a {
  name = s.name;
  role_prompt = s.role_prompt;
  role_version = a.role_version + (if same_instructions s a then 0 else 1);
  model = s.model;
  effort = s.effort;
  permission = s.permission;
  updated_at = now;
}

-- UpdateAgentWithIcon
unfoldable pub update_agent_with_icon :
    (String → String) → String → Settings → Option String → Time → Db → Result (Agent × Db)
unfolding with_settings update_agent_icon
update_agent_with_icon sha256 id s icon now db = do
  guard (any (is_live id) db.agents) not_found
  let db' =
      update_agent_icon sha256 id icon
        (record db { agents = update (is_live id) (with_settings s now) db.agents })
  a ← or_fail (find? (is_live id) db'.agents) not_found
  ok (a, db')

unfoldable pub with_status : String → Time → Agent → Agent
with_status status now a = record a { status = status; updated_at = now }

-- SetAgentStatus
unfoldable pub set_agent_status : String → String → Time → Db → Db
unfolding with_status
set_agent_status id status now db = record db {
  agents = update (agent_with_id id) (with_status status now) db.agents;
}

unfoldable pub archived : Time → Agent → Agent
archived now a = record a { archived = true; status = "archived"; updated_at = now }

unfoldable pub switched_off : Time → Schedule → Schedule
switched_off now sc = record sc { enabled = false; next_run_at = none; updated_at = now }

-- ArchiveAgent. Its schedules are switched off, and its desktop is given up.
unfoldable pub archive_agent : String → Time → Time → Db → Result Db
unfolding archived switched_off
archive_agent id now later db = do
  guard (any (is_live id) db.agents) not_found
  ok (record db {
    agents = update (is_live id) (archived now) db.agents;
    schedules = update (λ sc. sc.agent_id == id) (switched_off later) db.schedules;
    desktop_continuations = delete (continuation_of id) db.desktop_continuations;
    desktop_leases = delete (lease_of id) db.desktop_leases;
  })

-- ===== src/Store/Agents/Version.antt =====
-- The version of an agent's instructions, and what archiving an agent stops.
use codexbot.Common.{
  ◌+◌, ◌≡◌, refl, ◌∙◌, ◌↔◌, inl, inr, true, false, ◌&&◌, String, List, [], ◌∷◌, Option, some, arith,
  eq_refl, ◌==◌, any, find?, delete, find?-sound, find?-update, any-update_none, find?-none_of_any,
  update, not_found, ok, err, Bool-cases,
}
use codexbot.Clock.{Time}
use codexbot.Domain.Records.{Agent, Permission, Schedule, DesktopLease}
use codexbot.Store.Database.{Db}
use codexbot.Store.Desktop.{lease_of, held_by_human, human_controls_desktop}
use codexbot.Store.Schedules.{is_due}
use codexbot.Store.Agents.{
  agent_with_id, is_live, permission_eq, with_icon, update_agent_icon, agent, Settings,
  same_instructions, with_settings, update_agent_with_icon, archived, switched_off, archive_agent,
}

permission_eq_refl : (p : Permission) → permission_eq p p ≡ true
permission_eq_refl Permission.auto = refl
permission_eq_refl Permission.full_access = refl

module _ (sha256 : String → String) (id : String) (s : Settings) (icon : Option String) (now : Time)
    (db : Db) (a a' : Agent) (db' : Db) where
  updated-is :
      find? (is_live id) db.agents ≡ some a
      → update_agent_with_icon sha256 id s icon now db ≡ ok (a', db')
      → a' ≡ with_icon sha256 icon (with_settings s now a)
  unfolding update_agent_with_icon
  updated-is found h =
      let live = find?-sound (is_live id) db.agents a found in
      let rows = update (is_live id) (with_settings s now) db.agents in
      let inner : find? (is_live id) rows ≡ some (with_settings s now a) =
        find?-update (is_live id) (is_live id) (with_settings s now) db.agents
          (λ x e. unfold with_settings in refl)
        ∙ rw (found, live) refl in
      let own : agent_with_id id (with_settings s now a) ≡ true =
        unfold with_settings in ground (arith, live) in
      let outer : find? (is_live id) (update (agent_with_id id) (with_icon sha256 icon) rows)
          ≡ some (with_icon sha256 icon (with_settings s now a)) =
        find?-update (agent_with_id id) (is_live id) (with_icon sha256 icon) rows
          (λ x e. unfold with_icon in refl)
        ∙ rw (inner, own) refl in
      elim (Bool-cases (any (is_live id) db.agents)) [
        | inl e ↦ unfold update_agent_icon in ground (arith, outer, e)
        | inr e ↦ absurd (ground (arith, e))
      ]

  -- An update of a live agent gives it the instructions of the request, and leaves the version of
  -- its instructions alone exactly when they are those it had; otherwise the version is the next.
  pub update_agent-version :
      find? (is_live id) db.agents ≡ some a
      → update_agent_with_icon sha256 id s icon now db ≡ ok (a', db')
      → (same_instructions s a' ≡ true)
        × (a'.role_version ≡ a.role_version ↔ same_instructions s a ≡ true)
        × (same_instructions s a ≡ false → a'.role_version ≡ a.role_version + 1)
  unfolding with_icon with_settings
  update_agent-version found h =
      let same = updated-is found h in
      rw same (
        ground (
          arith,
          eq_refl s.role_prompt,
          eq_refl s.model,
          eq_refl s.effort,
          permission_eq_refl s.permission,
        ),
        ground arith,
        λ e. ground (arith, e),
      )

delete-none :
    (id : String) (now : Time) (ls : List DesktopLease)
    → any (held_by_human id now) (delete (lease_of id) ls) ≡ false
delete-none id now [] = refl
delete-none id now (x ∷ xs) = ground (arith, delete-none id now xs)

module _ (id : String) (now later : Time) (db db' : Db) where
  -- After an agent is archived, the agent is not found, none of its schedules is ever due, and no
  -- human controls its desktop.
  pub archive_agent-stops :
      archive_agent id now later db ≡ ok db'
      → (agent id db' ≡ err not_found)
        × ((t : Time) → any (λ sc. sc.agent_id == id && is_due t sc) db'.schedules ≡ false)
        × ((t : Time) → human_controls_desktop id t db' ≡ false)
  unfolding archive_agent agent human_controls_desktop
  archive_agent-stops h =
      let agents : any (is_live id) (update (is_live id) (archived now) db.agents) ≡ false =
        any-update_none (is_live id) (is_live id) (archived now) db.agents
          (λ x e. unfold archived in ground arith) (λ x e. e) in
      let gone = find?-none_of_any (is_live id) _ agents in
      (
        ground (arith, gone),
        λ t.
            let off =
              any-update_none (λ (sc : Schedule). sc.agent_id == id)
                (λ sc. sc.agent_id == id && is_due t sc) (switched_off later) db.schedules
                (λ x e. unfold switched_off in ground arith) (λ x e. ground arith) in
            ground (arith, off),
        λ t. ground (arith, delete-none id t db.desktop_leases),
      )

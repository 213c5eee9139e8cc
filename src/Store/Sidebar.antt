-- ===== src/Store/Sidebar.antt =====
-- internal/store/sidebar.go. Children have the proofs.
pub mod Partition
pub mod Update
use codexbot.Common.{
  ℕ, suc, ◌+◌, Bool, true, false, not, ◌&&◌, ◌||◌, String, List, [], ◌∷◌, ◌++◌, map, any, select,
  delete, length, ◌==◌, ltb, eqb, if◌then◌else◌, ℤ, pos, negsuc, sidebar_conflict, invalid_sidebar,
  Result, ok, err, ◌>>=◌, ◌>>◌, guard,
}
use codexbot.Clock.{before}
use codexbot.Domain.Text.{trim_space, byte_length, rune_count}
use codexbot.Domain.Records.{Agent}
use codexbot.Domain.Layout.{SidebarSection, Layout, LayoutRequest, sectioned}

-- The row of sidebar_layout.
pub record SidebarRow : Type 0 where
  pub revision : ℕ
  pub layout : Layout

abbrev pub member : String → List String → Bool
member id ids = any (λ x. x == id) ids

-- ORDER BY created_at, rowid, of the stored texts
unfoldable pub insert_by_creation : Agent → List Agent → List Agent
insert_by_creation a [] = a ∷ []
insert_by_creation a (b ∷ bs) =
    if before b.created_at a.created_at then b ∷ insert_by_creation a bs else a ∷ b ∷ bs

unfoldable pub sort_by_creation : List Agent → List Agent
sort_by_creation [] = []
sort_by_creation (a ∷ as') = insert_by_creation a (sort_by_creation as')

-- sidebarAgentIDs
unfoldable pub sidebar_agent_ids : List Agent → List String
unfolding sort_by_creation insert_by_creation
sidebar_agent_ids agents = map (λ a. a.id) (sort_by_creation (select (λ a. not a.archived) agents))

-- delete(active, id)
abbrev pub remove : String → List String → List String
remove id active = delete (λ x. x == id) active

-- `filter` of Sidebar: the identifiers that are still active, each once, and those that are left.
unfoldable pub take_active : List String → List String → List String × List String
take_active [] active = ([], active)
take_active (id ∷ ids) active =
    let kept = take_active ids (remove id active) in
    let skipped = take_active ids active in
    if member id active then (id ∷ kept.0, kept.1) else skipped

unfoldable pub take_sections : List SidebarSection → List String → List SidebarSection × List String
take_sections [] active = ([], active)
take_sections (s ∷ ss) active =
    let mine = take_active s.agent_ids active in
    let rest = take_sections ss mine.1 in (record s { agent_ids = mine.0 } ∷ rest.0, rest.1)

-- Sidebar, for the identifiers of the active agents.
unfoldable pub sidebar_layout : Layout → List String → Layout
unfolding take_active take_sections
sidebar_layout stored ids =
    let sections = take_sections stored.sections ids in
    let loose = take_active stored.unsectioned_agent_ids sections.1 in
    record {
      sections = sections.0;
      unsectioned_agent_ids = loose.0 ++ select (λ id. member id loose.1) ids;
    }

-- Sidebar
unfoldable pub sidebar : SidebarRow → List Agent → SidebarRow
unfolding sidebar_layout
sidebar row agents = record {
  revision = row.revision;
  layout = sidebar_layout row.layout (sidebar_agent_ids agents);
}

-- checkAgents: what was seen, with the identifiers.
unfoldable pub check_agents : List String → List String → Result (List String)
check_agents seen [] = ok seen
check_agents seen (id ∷ ids) =
    let rest = check_agents (id ∷ seen) ids in
    if id == "" || member id seen then err invalid_sidebar else rest

abbrev pub trimmed : SidebarSection → SidebarSection
trimmed s = record s { id = trim_space s.id; name = trim_space s.name }

-- The tests on a section's own fields, after they were trimmed.
abbrev pub is_valid_section : List String → SidebarSection → Bool
is_valid_section seen s =
    not (s.id == "" || ltb 128 (byte_length s.id) || member s.id seen)
    && not (s.name == "" || ltb 100 (rune_count s.name))

-- The loop over the sections: those trimmed, and the agents seen.
unfoldable pub check_sections :
    List String → List String → List SidebarSection → Result (List SidebarSection × List String)
check_sections seen agents [] = ok ([], agents)
check_sections seen agents (s ∷ ss) = elim (is_valid_section seen (trimmed s)) [
  | false ↦ err invalid_sidebar
  | true ↦ elim (check_agents agents s.agent_ids) [
    | err e ↦ err e
    | ok agents' ↦ elim (check_sections ((trimmed s).id ∷ seen) agents' ss) [
      | err e ↦ err e
      | ok (rest, all) ↦ ok (trimmed s ∷ rest, all)
    ]
  ]
]

-- validateSidebar: the layout with its sections trimmed.
unfoldable pub validate_sidebar : Layout → Result Layout
unfolding check_sections check_agents
validate_sidebar l = do
  guard (not (ltb 100 (length l.sections))) invalid_sidebar
  (sections, seen) ← check_sections [] [] l.sections
  _ ← check_agents seen l.unsectioned_agent_ids
  ok (record l { sections = sections })

-- The loop that takes each placed agent out of the active ones.
unfoldable pub place_all : List String → List String → Result (List String)
place_all [] active = ok active
place_all (id ∷ ids) active =
    let rest = place_all ids (remove id active) in
    if member id active then rest else err invalid_sidebar

abbrev pub is_empty : List String → Bool
is_empty [] = true
is_empty (x ∷ xs) = false

-- UpdateSidebar, for a revision that is not negative and the identifiers of the active agents.
unfoldable pub update_layout : ℕ → Layout → List String → SidebarRow → Result SidebarRow
update_layout revision l ids row = do
  valid ← validate_sidebar l
  guard (eqb row.revision revision) sidebar_conflict
  left ← place_all (valid.unsectioned_agent_ids ++ sectioned valid.sections) ids
  guard (is_empty left) sidebar_conflict
  ok (record { revision = revision + 1; layout = valid })

-- UpdateSidebar
unfoldable pub update_sidebar : LayoutRequest → List Agent → SidebarRow → Result SidebarRow
update_sidebar request agents row = elim request.revision [
  | negsuc n ↦ err invalid_sidebar
  | pos n ↦ update_layout n request.layout (sidebar_agent_ids agents) row
]

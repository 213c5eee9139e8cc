-- ===== src/Domain/Layout.antt =====
-- internal/domain/sidebar.go.
use codexbot.Common.{String, List, [], ◌∷◌, ◌++◌, ℤ}

pub record SidebarSection : Type 0 where
  pub id : String
  pub name : String
  pub agent_ids : List String

-- A layout, without its revision.
pub record Layout : Type 0 where
  pub sections : List SidebarSection
  pub unsectioned_agent_ids : List String

-- domain.SidebarLayout as a client sends it.
pub record LayoutRequest : Type 0 where
  pub revision : ℤ
  pub layout : Layout

-- The agents of the sections, in order.
abbrev pub sectioned : List SidebarSection → List String
sectioned [] = []
sectioned (s ∷ ss) = s.agent_ids ++ sectioned ss

-- ===== src/Examples/LayoutRuns.antt =====
-- Examples of stored times, of the sidebar and of access.
use codexbot.Common.{
  ℕ, ◌≡◌, ◌↔◌, ◌<◌, ◌+◌, refl, ◌⊎◌, true, false, String, List, [], ◌∷◌, none, some, arith, eq_iff,
  ok, err, not_found, Result,
}
use codexbot.Clock.{seconds, at_most}
use codexbot.Clock.Order.{at_most_whole}
use codexbot.Domain.Layout.{Layout}
use codexbot.Store.Sidebar.{SidebarRow, sidebar_layout, update_layout}
use codexbot.Store.Sidebar.Partition.{IsDistinct, occurrences, placed, sidebar_layout-places}
use codexbot.Store.Sidebar.Update.{update_layout-places, sidebar-update}
use codexbot.Store.Access.{Admin, Access, create_session, session, delete_session}
use codexbot.Store.Access.Lifetime.{session-create_session}
use codexbot.Examples.Data.{agent_named}

at_most_whole_example :
    (at_most 1000000000 1500000000 ≡ true)
    ↔ ((seconds 1000000000 < seconds 1500000000) ⊎ (◌≡◌ {A = ℕ} 1000000000 1500000000))
at_most_whole_example = at_most_whole 1000000000 1500000000 refl

abbrev ids : List String
ids = "alice" ∷ "bob" ∷ []

ids-IsDistinct : IsDistinct ids
ids-IsDistinct id = ground (arith, eq_iff "alice" id, eq_iff "bob" id, eq_iff "alice" "bob")

abbrev layout : Layout
layout = record {
  sections = record { id = "s"; name = " Team "; agent_ids = "bob" ∷ [] } ∷ [];
  unsectioned_agent_ids = "alice" ∷ [];
}

abbrev stored : Layout
stored = record {
  sections = record { id = "s"; name = "Team"; agent_ids = "bob" ∷ [] } ∷ [];
  unsectioned_agent_ids = "alice" ∷ [];
}

abbrev first_row : SidebarRow
first_row = record { revision = 3; layout = record { sections = []; unsectioned_agent_ids = [] } }

abbrev next_row : SidebarRow
next_row = record { revision = 4; layout = stored }

accepted : update_layout 3 layout ids first_row ≡ ok next_row
unfolding update_layout codexbot.Store.Sidebar.validate_sidebar codexbot.Domain.Text.trim_space
    codexbot.Domain.Text.byte_length codexbot.Domain.Text.rune_count
    codexbot.Store.Sidebar.place_all
accepted = refl

sidebar_layout-places_example :
    occurrences "bob" (placed (sidebar_layout first_row.layout ids)) ≡ occurrences "bob" ids
sidebar_layout-places_example = sidebar_layout-places first_row.layout ids ids-IsDistinct "bob"

update_layout-places_example :
    (first_row.revision ≡ 3)
    × (next_row.revision ≡ 3 + 1)
    × ((id : String) → occurrences id (placed stored) ≡ occurrences id ids)
update_layout-places_example =
    update_layout-places 3 layout ids first_row next_row ids-IsDistinct accepted

sidebar-update_example : sidebar_layout stored ids ≡ stored
sidebar-update_example = sidebar-update 3 layout ids first_row next_row ids-IsDistinct accepted

abbrev admin : Admin
admin = record { username = "admin"; password_hash = "h"; created_at = 1 }

abbrev access : Access
access = record {
  admin = some admin;
  sessions = [];
  shared_auth = record {
    state = "disconnected";
    verified = false;
    pending_agent_id = "";
    pending_login_id = "";
    pending_since = none;
    verified_at = none;
  };
  agents = agent_named "alice" ∷ [];
}

abbrev access_of : Result Access → Access
access_of (ok s) = s
access_of (err e) = access

abbrev signed_in : Access
signed_in = access_of (create_session "t" "c" 90 5 access)

signed_in_ok : create_session "t" "c" 90 5 access ≡ ok signed_in
unfolding create_session
signed_in_ok = refl

session-create_session_example :
    (session "t" signed_in ≡ ok ("admin", "c", 90))
    × (session "t" (delete_session "t" signed_in) ≡ err not_found)
session-create_session_example =
    session-create_session "t" "c" 90 5 admin access signed_in refl signed_in_ok

-- ===== src/Store/Listing.antt =====
-- The lists of agents and of schedules of internal/store/store.go, in the order of their creation,
-- and the reads of the administrator and of the shared sign-in.
use codexbot.Common.{ℕ, not, ◌||◌, String, List, [], ◌∷◌, none, some, select, ◌==◌, if◌then◌else◌}
use codexbot.Clock.{before}
use codexbot.Domain.Records.{Agent, Schedule}
use codexbot.Store.Database.{Db}
use codexbot.Store.Access.{Access, SharedAuth}

-- ORDER BY created_at, of the stored texts; equal times in the order of the table.
unfoldable pub insert_agent : Agent → List Agent → List Agent
insert_agent a [] = a ∷ []
insert_agent a (x ∷ xs) =
    let rest = insert_agent a xs in
    if before x.created_at a.created_at then x ∷ rest else a ∷ x ∷ xs

unfoldable pub sort_agents : List Agent → List Agent
unfolding insert_agent
sort_agents [] = []
sort_agents (a ∷ as_rest) = insert_agent a (sort_agents as_rest)

-- Agents
unfoldable pub list_agents : Db → List Agent
unfolding sort_agents
list_agents db = sort_agents (select (λ a. not a.archived) db.agents)

unfoldable pub insert_schedule : Schedule → List Schedule → List Schedule
insert_schedule sc [] = sc ∷ []
insert_schedule sc (x ∷ xs) =
    let rest = insert_schedule sc xs in
    if before x.created_at sc.created_at then x ∷ rest else sc ∷ x ∷ xs

unfoldable pub sort_schedules : List Schedule → List Schedule
unfolding insert_schedule
sort_schedules [] = []
sort_schedules (sc ∷ rest) = insert_schedule sc (sort_schedules rest)

-- Schedules; the empty text does not restrict.
unfoldable pub list_schedules : String → Db → List Schedule
unfolding sort_schedules
list_schedules agent db =
    sort_schedules (select (λ sc. agent == "" || sc.agent_id == agent) db.schedules)

-- AdminCount
unfoldable pub admin_count : Access → ℕ
admin_count s = elim s.admin [ none ↦ 0 | some a ↦ 1 ]

-- SharedAuth
unfoldable pub shared_auth : Access → SharedAuth
shared_auth s = s.shared_auth

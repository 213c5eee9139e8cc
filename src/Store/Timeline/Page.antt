-- ===== src/Store/Timeline/Page.antt =====
-- The pages of internal/store/timeline.go: agentTimeline and its callers. Children have the proofs.
pub mod Bounds
use codexbot.Common.{
  ℕ, Bool, true, not, ◌&&◌, ◌||◌, String, List, [], ◌∷◌, map, select, take, ◌==◌, ltb, eqb,
  if◌then◌else◌, ℤ, pos, negsuc, refused, Result, ok, err,
}
use mathlib.Core.List.{reverse}
use codexbot.Domain.Records.{Event}
use codexbot.Store.Database.{Db, TimelineRow}
use codexbot.Store.Timeline.{is_scheduled_run, event_of}

-- The limit that a page keeps to.
unfoldable pub page_limit : ℤ → ℕ
page_limit (negsuc n) = 500
page_limit (pos n) = if ltb n 1 then 500 else if ltb 2001 n then 2001 else n

-- The rows of an agent's timeline, but for those of scheduled runs.
abbrev pub is_visible : Db → String → TimelineRow → Bool
is_visible db agent row = row.agent_id == agent && not (is_scheduled_run db row.run_id)

-- An incremental page begins after `after`; any other ends before `before`, if that is positive.
abbrev pub in_window : ℕ → ℕ → Bool → TimelineRow → Bool
in_window after before incremental row =
    (not incremental || ltb after row.sequence) && (eqb before 0 || ltb row.sequence before)

-- The first rows of the window, or the last, in ascending order.
abbrev pub page_of : Bool → ℕ → List TimelineRow → List TimelineRow
page_of incremental limit rows =
    if incremental then take limit rows else reverse (take limit (reverse rows))

-- agentTimeline, over rows in the order of their sequence
unfoldable pub timeline_page : String → ℕ → ℕ → ℤ → Bool → Db → Result (List Event)
timeline_page agent after before limit incremental db =
    if ltb 0 after && ltb 0 before
    then err refused
    else ok (
        map event_of (
          page_of incremental (page_limit limit) (
            select (λ row. is_visible db agent row && in_window after before incremental row)
              db.agent_timeline)))

-- AgentTimeline; a negative cursor is refused.
unfoldable pub agent_timeline : String → ℤ → ℤ → ℤ → Db → Result (List Event)
unfolding timeline_page
agent_timeline agent (negsuc a) before limit db = err refused
agent_timeline agent (pos after) (negsuc b) limit db = err refused
agent_timeline agent (pos after) (pos before) limit db =
    timeline_page agent after before limit (ltb 0 after) db

-- AgentTimelineAfter
unfoldable pub agent_timeline_after : String → ℤ → ℤ → Db → Result (List Event)
unfolding timeline_page
agent_timeline_after agent (negsuc a) limit db = err refused
agent_timeline_after agent (pos after) limit db = timeline_page agent after 0 limit true db

-- The largest sequence of the rows, 0 without any.
unfoldable pub max_row : List TimelineRow → ℕ
max_row [] = 0
max_row (row ∷ rows) =
    let rest = max_row rows in if ltb rest row.sequence then row.sequence else rest

-- MaxAgentTimelineSequence
unfoldable pub max_agent_timeline_sequence : String → Db → ℕ
unfolding max_row
max_agent_timeline_sequence agent db = max_row (select (is_visible db agent) db.agent_timeline)

-- ===== src/Store/Desktop.antt =====
-- The desktop leases and continuations of internal/store/store.go. Children have the proofs.
pub mod Lease
pub mod Continuation
use codexbot.Common.{
  ℕ, ◌+◌, Bool, true, false, not, ◌&&◌, String, List, [], ◌∷◌, Option, none, some, any, find?,
  select, update, delete, insert, ◌==◌, if◌then◌else◌, not_found, constraint, Result, ok, err,
  ◌>>=◌, ◌>>◌, guard, or_fail,
}
use codexbot.Clock.{Time, before, at_most}
use codexbot.Domain.Records.{DesktopLease}
use codexbot.Store.Database.{Db, DesktopContinuation, agent_exists, conversation_exists}

abbrev pub lease_of : String → DesktopLease → Bool
lease_of agent l = l.agent_id == agent

-- The generation of the row read, 0 without one.
abbrev pub generation : Option DesktopLease → ℕ
generation none = 0
generation (some l) = l.generation

-- INSERT ... ON CONFLICT(agent_id) DO UPDATE
abbrev pub upsert_lease : DesktopLease → List DesktopLease → List DesktopLease
upsert_lease lease ls =
    if any (lease_of lease.agent_id) ls
    then update (lease_of lease.agent_id) (λ _. lease) ls
    else insert lease ls

-- AcquireDesktopLease
unfoldable pub acquire_desktop_lease :
    String → String → Time → Time → Db → Result (DesktopLease × Db)
acquire_desktop_lease agent holder ttl now db = do
  let lease : DesktopLease = record {
    agent_id = agent;
    holder = holder;
    generation = generation (find? (lease_of agent) db.desktop_leases) + 1;
    expires_at = now + ttl;
  }
  guard (agent_exists db agent) constraint
  ok (lease, record db { desktop_leases = upsert_lease lease db.desktop_leases })

-- agent_id=? AND holder='human' AND expires_at>?, of the stored texts
abbrev pub held_by_human : String → Time → DesktopLease → Bool
held_by_human agent now l = l.agent_id == agent && l.holder == "human" && before now l.expires_at

-- HumanControlsDesktop
unfoldable pub human_controls_desktop : String → Time → Db → Bool
human_controls_desktop agent now db = any (held_by_human agent now) db.desktop_leases

-- ExpiredHumanDesktopLeases
unfoldable pub expired_human_desktop_leases : Time → Db → List DesktopLease
expired_human_desktop_leases now db =
    select (λ l. l.holder == "human" && at_most l.expires_at now) db.desktop_leases

unfoldable pub extended : Time → DesktopLease → DesktopLease
extended expires l = record l { expires_at = expires }

-- RenewHumanDesktopLease. The clock is read for the new end and then for the test.
unfoldable pub renew_human_desktop_lease :
    String → Time → Time → Time → Db → Result (DesktopLease × Db)
unfolding extended
renew_human_desktop_lease agent ttl now later db = do
  guard (any (held_by_human agent later) db.desktop_leases) not_found
  let db' = record db {
    desktop_leases = update (held_by_human agent later) (extended (now + ttl)) db.desktop_leases;
  }
  lease ← or_fail (find? (lease_of agent) db'.desktop_leases) not_found
  ok (lease, db')

abbrev pub continuation_of : String → DesktopContinuation → Bool
continuation_of agent c = c.agent_id == agent

-- DELETE FROM desktop_continuations WHERE agent_id=?
abbrev pub without_continuation : String → Db → Db
without_continuation agent db = record db {
  desktop_continuations = delete (continuation_of agent) db.desktop_continuations;
}

-- SetDesktopContinuation
unfoldable pub set_desktop_continuation : String → String → Time → Db → Result Db
set_desktop_continuation agent conversation now db =
    if conversation == "" then ok (without_continuation agent db) else do
      let row : DesktopContinuation = record {
        agent_id = agent;
        conversation_id = conversation;
        created_at = now;
      }
      guard (agent_exists db agent && conversation_exists db conversation) constraint
      ok (record db {
        desktop_continuations =
            if any (continuation_of agent) db.desktop_continuations
            then update (continuation_of agent) (λ _. row) db.desktop_continuations
            else insert row db.desktop_continuations;
      })

-- What TakeDesktopContinuation does with the row that it finds; "" is none.
unfoldable pub take_found : String → Db → Option DesktopContinuation → String × Db
take_found agent db none = ("", db)
take_found agent db (some c) = (c.conversation_id, without_continuation agent db)

-- TakeDesktopContinuation
unfoldable pub take_desktop_continuation : String → Db → String × Db
unfolding take_found
take_desktop_continuation agent db =
    take_found agent db (find? (continuation_of agent) db.desktop_continuations)

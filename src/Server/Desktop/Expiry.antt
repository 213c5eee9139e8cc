-- ===== src/Server/Desktop/Expiry.antt =====
-- What the end of a lease does.
use codexbot.Common.{◌≡◌, ap, ◌∙◌, false, String, ok, ◌*◌, none, find?, arith}
use codexbot.Clock.{Time}
use codexbot.Domain.Records.{Agent, DesktopLease}
use codexbot.Store.Database.{Db}
use codexbot.Store.Agents.{agent}
use codexbot.Store.Desktop.{
  acquire_desktop_lease, human_controls_desktop, take_desktop_continuation, take_found,
  continuation_of,
}
use codexbot.Store.Desktop.Lease.{acquire-controls}
use codexbot.Server.World.{
  World, Env, accepted, ◌>>=◌, query, perform, try, ask, change, ignore, pure,
}
use codexbot.Server.Desktop.{
  minute, expire_desktop_lease, expire_agent, expire_acquired, settle_expiry, start_continuation,
}

acquire-desktop_continuations :
    (agent holder : String) (ttl now : Time) (db : Db) (lease : DesktopLease) (db' : Db)
    → acquire_desktop_lease agent holder ttl now db ≡ ok (lease, db')
    → db'.desktop_continuations ≡ db.desktop_continuations
unfolding acquire_desktop_lease
acquire-desktop_continuations agent holder ttl now db lease db' h = ground arith

-- After the expiry of a lease no human controls the agent's desktop, at any time, whatever lease
-- the agent has when the expiry runs: of the lease that was found expired only the agent is looked
-- at, so that a later lease of a human ends as well. This is so if the agent is live and its lease
-- can be stored, the manager takes it, and no conversation waits to be continued.
pub expire-human_controls :
    (env : Env) (expired : DesktopLease) (w : World) (a : Agent) (lease : DesktopLease) (db : Db)
    → agent expired.agent_id w.db ≡ ok a
    → find? (continuation_of a.id) w.db.desktop_continuations ≡ none
    → acquire_desktop_lease a.id "agent" (30 * minute) (env.clock "acquire" 0) w.db ≡ ok (lease, db)
    → env.runtime.set_desktop_lease a.id "agent" lease.generation ≡ accepted tt
    → (later : Time)
    → human_controls_desktop a.id later (expire_desktop_lease env expired w).1.db ≡ false
unfolding expire_desktop_lease expire_agent expire_acquired settle_expiry start_continuation ◌>>=◌
    query perform try ask change ignore pure take_desktop_continuation take_found
expire-human_controls env expired w a lease db live free took agreed later =
    let (controls, _) =
      acquire-controls a.id "agent" (30 * minute) (env.clock "acquire" 0) w.db db lease took in
    let kept : find? (continuation_of a.id) db.desktop_continuations ≡ none =
      ap (find? (continuation_of a.id)) (
        acquire-desktop_continuations a.id "agent" (30 * minute) (env.clock "acquire" 0) w.db lease
          db took)
      ∙ free in
    rw (live, took, agreed, kept) (controls later)

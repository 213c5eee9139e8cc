-- ===== src/Examples/DesktopRuns.antt =====
-- Examples of the desktop handlers.
use codexbot.Common.{◌≡◌, refl, false, [], ◌∷◌, ◌*◌, ◌+◌, ok, none}
use codexbot.Domain.Records.{DesktopLease}
use codexbot.Store.Database.{Db}
use codexbot.Store.Desktop.{acquire_desktop_lease, human_controls_desktop}
use codexbot.Server.World.{World, Attempt, done, accepted}
use codexbot.Clock.{Time, before}
use codexbot.Server.Desktop.{minute, expire_desktop_lease}
use codexbot.Server.Desktop.Expiry.{expire-human_controls}
use codexbot.Server.Desktop.Control.{takeover-controls}
use codexbot.Server.Desktop.Takeover.{takeover}
use codexbot.Server.Desktop.Release.{release_desktop}
use codexbot.Server.Api.{answer}
use codexbot.Examples.Data.{agent_named, empty_db}
use codexbot.Examples.ApiRuns.{idle_env}

-- The lease that was found expired, and the one that a human took since.
abbrev expired_lease : DesktopLease
expired_lease = record { agent_id = "bob"; holder = "human"; generation = 1; expires_at = 90 }

abbrev fresh_lease : DesktopLease
fresh_lease = record {
  agent_id = "bob";
  holder = "human";
  generation = 2;
  expires_at = 1000000000000;
}

abbrev taken_over : World
taken_over = record { db = record empty_db { desktop_leases = fresh_lease ∷ [] }; calls = [] }

abbrev agents_lease : DesktopLease
agents_lease = record {
  agent_id = "bob";
  holder = "agent";
  generation = 3;
  expires_at = 100 + 30 * minute;
}

abbrev expired_db : Db
expired_db = record taken_over.db { desktop_leases = agents_lease ∷ [] }

acquired :
    acquire_desktop_lease "bob" "agent" (30 * minute) 100 taken_over.db
    ≡ ok (agents_lease, expired_db)
unfolding acquire_desktop_lease
acquired = refl

expire-human_controls_example :
    human_controls_desktop "bob" 101 (expire_desktop_lease idle_env expired_lease taken_over).1.db
    ≡ false
unfolding codexbot.Store.Agents.agent
expire-human_controls_example =
    expire-human_controls idle_env expired_lease taken_over (agent_named "bob") agents_lease
      expired_db refl refl acquired refl 101

abbrev humans_lease : DesktopLease
humans_lease = record {
  agent_id = "bob";
  holder = "human";
  generation = 3;
  expires_at = 100 + 15 * minute;
}

abbrev after_takeover : World
after_takeover = (takeover idle_env "bob" taken_over).1

retaken : takeover idle_env "bob" taken_over ≡ (done (answer 200 humans_lease), after_takeover)
unfolding takeover codexbot.Server.World.◌>>=◌ codexbot.Server.World.try codexbot.Server.World.query
    codexbot.Store.Agents.agent codexbot.Server.Agents.ensure_agent codexbot.Server.World.◌>>◌
    codexbot.Server.World.write codexbot.Server.World.ask codexbot.Server.World.read
    codexbot.Store.Runs.active_run codexbot.Store.Agents.set_agent_status codexbot.Server.World.exec
    codexbot.Store.Desktop.set_desktop_continuation codexbot.Server.World.perform
    acquire_desktop_lease codexbot.Server.World.pure
retaken = refl

takeover-controls_example :
    ((later : Time)
      → human_controls_desktop "bob" later after_takeover.db ≡ before later (100 + 15 * minute))
    × (idle_env.runtime.set_desktop_lease "bob" "human" 3 ≡ accepted tt)
takeover-controls_example =
    takeover-controls idle_env "bob" taken_over after_takeover 200 humans_lease retaken

-- Given back, the desktop is the agent's, and nothing waits to be continued.
released :
    (release_desktop idle_env "bob" taken_over).0
    ≡ done
        (answer 200 (record { lease = agents_lease; continue_run_id = ""; continue_error = none }))
unfolding release_desktop codexbot.Server.World.◌>>=◌ codexbot.Server.World.try
    codexbot.Server.World.query codexbot.Store.Agents.agent codexbot.Server.Agents.ensure_agent
    codexbot.Server.World.◌>>◌ codexbot.Server.World.write codexbot.Server.World.ask
    codexbot.Server.World.read codexbot.Store.Runs.active_run codexbot.Store.Agents.set_agent_status
    codexbot.Server.World.exec codexbot.Store.Desktop.set_desktop_continuation
    codexbot.Server.World.perform acquire_desktop_lease codexbot.Server.World.pure
    codexbot.Server.World.change codexbot.Store.Desktop.take_desktop_continuation
    codexbot.Server.Desktop.start_continuation
released = refl

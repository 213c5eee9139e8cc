-- ===== src/Server/Desktop/Control.antt =====
-- What a takeover that succeeds leaves.
use mathlib.Core.Path.{subst}
use codexbot.Common.{
  ℕ, ◌*◌, ◌+◌, ◌≡◌, refl, sym, ap, ◌∙◌, String, arith, Result, ok, err, not_found,
}
use codexbot.Clock.{Time, before}
use codexbot.Domain.Records.{Agent, Run, DesktopLease}
use codexbot.Store.Database.{Db}
use codexbot.Store.Desktop.{acquire_desktop_lease, human_controls_desktop}
use codexbot.Store.Desktop.Lease.{acquire-controls}
use codexbot.Server.World.{
  World, Env, Reply, accepted, http_error, lost, Action, Attempt, done, failed, failure_text, fault,
  resume, returned, caught, ◌>>=◌, ◌>>◌, pure, perform, try, ask,
}
use codexbot.Server.Api.{HttpReply, answer}
use codexbot.Server.Api
use codexbot.Server.Desktop.{minute}
use codexbot.Server.Desktop.Takeover.{
  takeover, take_agent, take_ready, take_from, take_idle, interrupt_run, acquire_for_human,
  hand_over, settle_lease,
}

-- A human has the desktop, in the store until the end of the lease, and at the manager.
pub record HumanHas (env : Env) (id : String) (lease : DesktopLease) (w : World) : Type 0 where
  pub controls :
      (later : Time)
      → human_controls_desktop id later w.db ≡ before later (env.clock "acquire" 0 + 15 * minute)
  pub agreed : env.runtime.set_desktop_lease id "human" lease.generation ≡ accepted tt

pub record Hands (env : Env) (id : String) (m : Action (HttpReply DesktopLease)) : Type 0 where
  pub at :
      (w : World) (status : ℕ) (lease : DesktopLease) (w' : World)
      → m w ≡ (done (answer status lease), w')
      → HumanHas env id lease w'

resume-Hands :
    {A : Type 0} (env : Env) (id : String) (next : A → Action (HttpReply DesktopLease))
    (p : Attempt A × World)
    → ((a : A) → Hands env id (next a))
    → (status : ℕ) (lease : DesktopLease) (w' : World)
    → resume next p ≡ (done (answer status lease), w')
    → HumanHas env id lease w'
resume-Hands env id next (done a, mid) h status lease w' e = (h a).at mid status lease w' e
resume-Hands env id next (failed f, mid) h status lease w' e = absurd (ground arith)

bind-Hands :
    {A : Type 0} (env : Env) (id : String) (m : Action A)
    (next : A → Action (HttpReply DesktopLease))
    → ((a : A) → Hands env id (next a))
    → Hands env id (m >>= next)
unfolding ◌>>=◌
bind-Hands env id m next h = record { at = λ w. resume-Hands env id next (m w) h }

then-Hands :
    (env : Env) (id : String) (m : Action (Unit {0})) (next : Action (HttpReply DesktopLease))
    → Hands env id next
    → Hands env id (m >> next)
unfolding ◌>>◌
then-Hands env id m next h = record { at = λ w. resume-Hands env id (λ _. next) (m w) (λ _. h) }

refused-Hands :
    (env : Env) (id : String) (status : ℕ) (text : String)
    → Hands env id (pure (Api.http_error status text))
unfolding pure
refused-Hands env id status text = record { at = λ w s lease w' e. absurd (ground arith) }

handed :
    (status : ℕ) (given lease : DesktopLease) (reply : Reply (Unit {0})) (w w' : World)
    → pure (settle_lease given reply) w ≡ (done (answer status lease), w')
    → (reply ≡ accepted tt) × (given ≡ lease) × (w ≡ w')
unfolding pure
handed status given lease (accepted u) w w' e = (refl, ground (arith, e), ap (λ p. p.1) e)
handed status given lease (http_error s text) w w' e = absurd (ground arith)
handed status given lease (lost text) w w' e = absurd (ground arith)

hand_over-Has :
    (env : Env) (id : String) (given lease : DesktopLease) (w w' : World) (status : ℕ)
    → ((later : Time)
        → human_controls_desktop id later w.db ≡ before later (env.clock "acquire" 0 + 15 * minute))
    → hand_over env id (done given) w ≡ (done (answer status lease), w')
    → HumanHas env id lease w'
unfolding hand_over ◌>>=◌ ask
hand_over-Has env id given lease w w' status c e =
    let (agreed, same, left) =
      handed status given lease (env.runtime.set_desktop_lease id "human" given.generation) _ w'
        e in
    record {
      controls = λ later. sym (ap (λ v. human_controls_desktop id later v.db) left) ∙ c later;
      agreed =
          subst (λ l. env.runtime.set_desktop_lease id "human" l.generation ≡ accepted tt) same
            agreed;
    }

acquired-Has :
    (env : Env) (id : String) (w : World) (r : Result (DesktopLease × Db)) (status : ℕ)
    (lease : DesktopLease) (w' : World)
    → acquire_desktop_lease id "human" (15 * minute) (env.clock "acquire" 0) w.db ≡ r
    → resume (hand_over env id) (caught (returned w r)) ≡ (done (answer status lease), w')
    → HumanHas env id lease w'
unfolding hand_over
acquired-Has env id w (ok (given, db)) status lease w' took e =
    hand_over-Has env id given lease (record w { db = db }) w' status
      (acquire-controls id "human" (15 * minute) (env.clock "acquire" 0) w.db db given took).0 e
acquired-Has env id w (err f) status lease w' took e =
    (refused-Hands env id 502 (failure_text env (fault f))).at w status lease w' e

acquire_for_human-Hands : (env : Env) (id : String) → Hands env id (acquire_for_human env id)
unfolding acquire_for_human ◌>>=◌ try perform
acquire_for_human-Hands env id = record {
  at = λ w status lease w'.
      acquired-Has env id w
        (acquire_desktop_lease id "human" (15 * minute) (env.clock "acquire" 0) w.db) status lease
        w' refl;
}

interrupt_run-Hands :
    (env : Env) (id : String) (r : Run) (kept : Attempt (Unit {0}))
    → Hands env id (interrupt_run env id r kept)
unfolding interrupt_run
interrupt_run-Hands env id r (failed e) = refused-Hands env id 500 _
interrupt_run-Hands env id r (done u) = bind-Hands env id _ _ (λ found.
    then-Hands env id _ _
      (then-Hands env id _ _ (then-Hands env id _ _ (acquire_for_human-Hands env id))))

take_idle-Hands :
    (env : Env) (id : String) (cleared : Attempt (Unit {0}))
    → Hands env id (take_idle env id cleared)
unfolding take_idle
take_idle-Hands env id (failed e) = refused-Hands env id 500 _
take_idle-Hands env id (done u) = acquire_for_human-Hands env id

take_from-Hands :
    (env : Env) (id : String) (active : Result Run) → Hands env id (take_from env id active)
unfolding take_from
take_from-Hands env id (ok r) = bind-Hands env id _ _ (interrupt_run-Hands env id r)
take_from-Hands env id (err f) = elim f as (λ k. Hands env id (take_from env id (err k))) [
  | not_found ↦ bind-Hands env id _ _ (take_idle-Hands env id)
  | _ ↦ refused-Hands env id 500 _
]

take_ready-Hands :
    (env : Env) (id : String) (ready : Attempt (Unit {0})) → Hands env id (take_ready env id ready)
unfolding take_ready
take_ready-Hands env id (failed e) = refused-Hands env id 502 _
take_ready-Hands env id (done u) = bind-Hands env id _ _ (take_from-Hands env id)

take_agent-Hands :
    (env : Env) (id : String) (found : Attempt Agent) → Hands env id (take_agent env id found)
unfolding take_agent
take_agent-Hands env id (failed e) = refused-Hands env id 404 _
take_agent-Hands env id (done a) = bind-Hands env id _ _ (take_ready-Hands env id)

-- When a takeover answers with a lease, the agent's desktop is under human control exactly until
-- fifteen minutes after the lease was acquired, and the manager took that very generation of the
-- lease: whether a run was interrupted or not, and whoever held the desktop before.
pub takeover-controls :
    (env : Env) (id : String) (w w' : World) (status : ℕ) (lease : DesktopLease)
    → takeover env id w ≡ (done (answer status lease), w')
    → ((later : Time)
        → human_controls_desktop id later w'.db
          ≡ before later (env.clock "acquire" 0 + 15 * minute))
      × (env.runtime.set_desktop_lease id "human" lease.generation ≡ accepted tt)
unfolding takeover
takeover-controls env id w w' status lease e =
    let has = (bind-Hands env id _ _ (take_agent-Hands env id)).at w status lease w' e in
    (has.controls, has.agreed)

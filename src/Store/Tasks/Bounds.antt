-- ===== src/Store/Tasks/Bounds.antt =====
-- The limit on the tasks that wait for one agent or run there.
use mathlib.Core.Path.{subst}
use codexbot.Common.{
  ◌≤◌, ◌<◌, ◌≡◌, refl, inl, inr, true, String, List, [], ◌∷◌, arith, eq_iff, insert, count,
  Bool-cases, count-append, count-update-le,
}
use codexbot.Domain.Task.{CollaborationTask, TaskStatus, is_pending}
use codexbot.Store.Database.{Db}
use codexbot.Store.Tasks.Evolution.{Evolves, can_become}
use codexbot.Store.Tasks.Enqueue.{max_pending, pending_for}
use codexbot.Store.Tasks.Effects.{Effects, here, changed, added}

pub record IsBounded (db : Db) : Type 0 where
  pub at_target :
      (target : String) → count (pending_for target) db.collaboration_tasks ≤ max_pending

pending_before :
    (a b : TaskStatus) → can_become a b ≡ true → is_pending b ≡ true → is_pending a ≡ true
pending_before TaskStatus.queued b p q = refl
pending_before _ b p q = ground arith

-- A task that is pending after an evolution was pending before, for the same agent.
pub pending_for-Evolves :
    (target : String) (t u : CollaborationTask)
    → Evolves t u
    → pending_for target u ≡ true
    → pending_for target t ≡ true
pending_for-Evolves target t u h p = ground (
  arith,
  h.target,
  pending_before t.status u.status h.moved,
  eq_iff u.target_agent_id target,
  eq_iff t.target_agent_id target,
)

insert_bound :
    (target : String) (t : CollaborationTask) (ts : List CollaborationTask)
    → count (pending_for target) ts ≤ max_pending
    → (is_pending t.status ≡ true → count (pending_for t.target_agent_id) ts < max_pending)
    → count (pending_for target) (insert t ts) ≤ max_pending
insert_bound target t ts h room = elim (Bool-cases (pending_for target t)) [
  | inl e ↦
      let same : t.target_agent_id ≡ target = ground (arith, eq_iff t.target_agent_id target) in
      let space : count (pending_for target) ts < max_pending =
        subst (λ (s : String). count (pending_for s) ts < max_pending) same
          (room (ground (arith, e))) in
      rw (count-append (pending_for target) ts (t ∷ [])) (ground (arith, e, space))
  | inr e ↦ rw (count-append (pending_for target) ts (t ∷ [])) (ground (arith, e, h))
]

pub bounded-Effects :
    (target : String) (ts : List CollaborationTask) {us : List CollaborationTask}
    → Effects ts us
    → count (pending_for target) ts ≤ max_pending
    → count (pending_for target) us ≤ max_pending
bounded-Effects target ts here h = h
bounded-Effects target ts (changed {us} e p f ev) h = omega (
  arith,
  bounded-Effects target ts e h,
  count-update-le p (pending_for target) f us
      (λ t hit. pending_for-Evolves target t (f t) (ev t hit)),
)
bounded-Effects target ts (added {us} e t _ room) h =
    insert_bound target t us (bounded-Effects target ts e h) room

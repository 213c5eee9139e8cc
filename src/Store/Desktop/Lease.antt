-- ===== src/Store/Desktop/Lease.antt =====
-- What a desktop lease promises.
use codexbot.Common.{
  ◌+◌, ◌≡◌, refl, inl, inr, true, false, ◌&&◌, String, List, [], ◌∷◌, arith, eq_refl, ◌==◌, any,
  find?, update, insert, ok, Bool-cases,
}
use codexbot.Clock.{Time, before}
use codexbot.Domain.Records.{DesktopLease}
use codexbot.Store.Database.{Db}
use codexbot.Store.Desktop.{
  lease_of, generation, acquire_desktop_lease, held_by_human, human_controls_desktop,
}

-- A lease of no row of the agent's is not held.
held-none :
    (agent : String) (now : Time) (ls : List DesktopLease)
    → any (lease_of agent) ls ≡ false
    → any (held_by_human agent now) ls ≡ false
held-none agent now [] free = refl
held-none agent now (x ∷ xs) free = ground (arith, held-none agent now xs)

update-none :
    (agent : String) (l : DesktopLease) (ls : List DesktopLease)
    → any (lease_of agent) ls ≡ false
    → update (lease_of agent) (λ _. l) ls ≡ ls
update-none agent l [] free = refl
update-none agent l (x ∷ xs) free = ground (arith, update-none agent l xs)

any_held-insert :
    (agent : String) (now : Time) (l : DesktopLease) (ls : List DesktopLease)
    → any (lease_of agent) ls ≡ false
    → l.agent_id ≡ agent
    → any (held_by_human agent now) (insert l ls) ≡ (l.holder == "human" && before now l.expires_at)
any_held-insert agent now l [] free same = rw (same, eq_refl agent) ground arith
any_held-insert agent now l (x ∷ xs) free same =
    ground (arith, any_held-insert agent now l xs, same)

any_held-update :
    (agent : String) (now : Time) (l : DesktopLease) (ls : List DesktopLease)
    → any (lease_of agent) ls ≡ true
    → l.agent_id ≡ agent
    → any (held_by_human agent now) (update (lease_of agent) (λ _. l) ls)
      ≡ (l.holder == "human" && before now l.expires_at)
any_held-update agent now l [] some_row same = absurd (ground arith)
any_held-update agent now l (x ∷ xs) some_row same = elim (Bool-cases (any (lease_of agent) xs)) [
  | inl e ↦ ground (arith, any_held-update agent now l xs e same, eq_refl agent, same)
  | inr e ↦ ground (arith, update-none agent l xs e, held-none agent now xs e, eq_refl agent, same)
]

-- After a lease is acquired, the agent's desktop is under human control at a time exactly when a
-- human acquired it and the lease ends after that time, whoever held it before. The lease has the
-- generation after that of the row before it, 1 without one.
pub acquire-controls :
    (agent holder : String) (ttl now : Time) (db db' : Db) (lease : DesktopLease)
    → acquire_desktop_lease agent holder ttl now db ≡ ok (lease, db')
    → ((later : Time)
        → human_controls_desktop agent later db' ≡ (holder == "human" && before later (now + ttl)))
      × (lease.generation ≡ generation (find? (lease_of agent) db.desktop_leases) + 1)
unfolding acquire_desktop_lease human_controls_desktop
acquire-controls agent holder ttl now db db' lease h =
    elim (Bool-cases (any (lease_of agent) db.desktop_leases)) [
      | inl e ↦ (
        λ later. ground (arith, any_held-update agent later lease db.desktop_leases e, e),
        ground arith,
      )
      | inr e ↦ (
        λ later. ground (arith, any_held-insert agent later lease db.desktop_leases e, e),
        ground arith,
      )
    ]

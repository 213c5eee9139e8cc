-- ===== src/Store/Runs/Active.antt =====
-- The active runs of an agent.
use codexbot.Common.{
  ◌≤◌, ◌≡◌, refl, ap, inl, inr, false, ◌&&◌, String, List, [], ◌∷◌, Option, none, some, arith,
  eq_iff, ◌==◌, any, count, find?, update, insert, ok, Result-cases, Option-cases, Bool-cases,
  if◌then◌else◌, count-append, count-zero_of_any, count-update-le,
}
use mathlib.Core.Path.{subst}
use codexbot.Clock.{Time}
use codexbot.Domain.Records.{Run, RunStatus, is_active, DedupKey}
use codexbot.Store.Database.{Db}
use codexbot.Store.Timeline.{append_timeline}
use codexbot.Store.Timeline.Retry.{append_timeline-frame}
use codexbot.Store.Runs.{
  run_with_id, active_for, other_active, insert_run, append_run_input, append_run_terminal,
  is_skipped, run_input, terminal_payload, create_run, new_run, started, start_found,
  set_run_started, finished, finish_run, is_taken,
}

-- A run has its identifier alone, and an agent has at most one active run.
pub record OneActive (db : Db) : Type 0 where
  pub at_id : (id : String) → count (run_with_id id) db.runs ≤ 1
  pub at_agent : (agent : String) → count (active_for agent) db.runs ≤ 1

pub insert_run-ok :
    (r : Run) (db db' : Db)
    → insert_run r db ≡ ok db'
    → (db'.runs ≡ insert r db.runs)
      × (any (run_with_id r.id) db.runs ≡ false)
      × ((is_active r.status && any (active_for r.agent_id) db.runs) ≡ false)
unfolding insert_run
insert_run-ok r db db' h = ground arith

pub append_run_input-runs :
    (r : Run) (now : Time) (db db' : Db) → append_run_input r now db ≡ ok db' → db'.runs ≡ db.runs
unfolding append_run_input
append_run_input-runs r now db db' h =
    let typ : String = if is_skipped r.status then "warning" else "message.user" in
    let key : Option DedupKey = some (DedupKey.input r.id) in
    elim (Result-cases (append_timeline r.agent_id r.id typ (run_input db r) now key none db)) [
      | inl ((e, mid), k) ↦
          let (same, _, _, _, _) =
            append_timeline-frame r.agent_id r.id typ (run_input db r) now key none db e mid k in
          ground (arith, same, rw k at h)
      | inr (x, k) ↦ absurd (ground (arith, rw k at h))
    ]

insert_one :
    (agent : String) (r : Run) (rs : List Run)
    → count (active_for agent) rs ≤ 1
    → (is_active r.status && any (active_for r.agent_id) rs) ≡ false
    → count (active_for agent) (insert r rs) ≤ 1
insert_one agent r rs h free =
    rw (count-append (active_for agent) rs (r ∷ []))
      (ground (arith, eq_iff r.agent_id agent, count-zero_of_any (active_for agent) rs))

insert_id :
    (id : String) (r : Run) (rs : List Run)
    → count (run_with_id id) rs ≤ 1
    → any (run_with_id r.id) rs ≡ false
    → count (run_with_id id) (insert r rs) ≤ 1
insert_id id r rs h free =
    rw (count-append (run_with_id id) rs (r ∷ []))
      (ground (arith, eq_iff r.id id, count-zero_of_any (run_with_id id) rs))

module _ (id turn : String) (now : Time) (agent : String) where
  -- The started run is the only active one of its agent.
  start_own :
      (rs : List Run)
      → any (other_active id agent) rs ≡ false
      → count (active_for agent) (update (run_with_id id) (started turn now) rs)
        ≤ count (run_with_id id) rs
  unfolding started
  start_own [] h = omega arith
  start_own (x ∷ xs) h = ground (arith, start_own xs)

  update_none :
      (rs : List Run)
      → count (run_with_id id) rs ≡ 0
      → update (run_with_id id) (started turn now) rs ≡ rs
  update_none [] h = refl
  update_none (x ∷ xs) h = ground (arith, update_none xs)

  -- The start of another agent's run adds no active run to the agent's.
  start_other :
      (rs : List Run) (r : Run)
      → count (run_with_id id) rs ≤ 1
      → find? (run_with_id id) rs ≡ some r
      → (r.agent_id == agent) ≡ false
      → count (active_for agent) (update (run_with_id id) (started turn now) rs)
        ≤ count (active_for agent) rs
  unfolding started
  start_other [] r u f d = omega arith
  start_other (x ∷ xs) r u f d = elim (Bool-cases (run_with_id id x)) [
    | inl e ↦
        let rest = update_none xs (ground (arith, e)) in
        ground (arith, e, ap (count (active_for agent)) rest)
    | inr e ↦ ground (arith, e, start_other xs r)
  ]

finished-inactive :
    (agent message : String) (status : RunStatus) (now : Time) (r : Run)
    → is_active status ≡ false
    → active_for agent (finished status message now r) ≡ false
unfolding finished
finished-inactive agent message status now r h = ground arith

module _ (now : Time) (db db' : Db) (one : OneActive db) where
  -- Making a run keeps each run alone under its identifier and at most one active run for each
  -- agent.
  pub create_run-OneActive : (r : Run) → create_run r now db ≡ ok db' → OneActive db'
  unfolding create_run
  create_run-OneActive r h = elim (Result-cases (insert_run (new_run r) db)) [
    | inl (mid, k) ↦
        let (added, fresh, free) = insert_run-ok (new_run r) db mid k in
        let same = append_run_input-runs r now mid db' (rw k at h) in
        record {
          at_id = λ id. rw (same, added) (insert_id id (new_run r) db.runs (one.at_id id) fresh);
          at_agent = λ agent.
              rw (same, added) (insert_one agent (new_run r) db.runs (one.at_agent agent) free);
        }
    | inr (x, k) ↦ absurd (ground (arith, rw k at h))
  ]

pub append_terminal-runs :
    (agent id message : String) (status : RunStatus) (now : Time) (db db' : Db)
    → append_run_terminal agent id status message now db ≡ ok db'
    → db'.runs ≡ db.runs
unfolding append_run_terminal
append_terminal-runs agent id message status now db db' h =
    let payload = terminal_payload id status message in
    let key : Option DedupKey = some (DedupKey.run_terminal id status) in
    elim (Result-cases (append_timeline agent id "run.status" payload now key none db)) [
      | inl ((e, mid), k) ↦
          let (same, _, _, _, _) =
            append_timeline-frame agent id "run.status" payload now key none db e mid k in
          ground (arith, same, rw k at h)
      | inr (x, k) ↦ absurd (ground (arith, rw k at h))
    ]

start_found-ok :
    (id turn : String) (now : Time) (r : Run) (db db' : Db)
    → start_found id turn now db (some r) ≡ ok db'
    → (db'.runs ≡ update (run_with_id id) (started turn now) db.runs)
      × (any (other_active id r.agent_id) db.runs ≡ false)
unfolding start_found
start_found-ok id turn now r db db' h = ground arith

start_id :
    (id other turn : String) (now : Time) (rs : List Run)
    → count (run_with_id other) (update (run_with_id id) (started turn now) rs)
      ≤ count (run_with_id other) rs
unfolding started
start_id id other turn now rs =
    count-update-le (run_with_id id) (run_with_id other) (started turn now) rs (λ x e b. b)

module _ (now : Time) (db db' : Db) (one : OneActive db) where
  -- The start of a run keeps each run alone under its identifier and at most one active run for
  -- each agent.
  pub set_run_started-OneActive :
      (id turn : String) → set_run_started id turn now db ≡ ok db' → OneActive db'
  unfolding set_run_started
  set_run_started-OneActive id turn h = elim (Option-cases (find? (run_with_id id) db.runs)) [
    | inl e ↦ subst OneActive (unfold start_found in ground (arith, rw e at h)) one
    | inr (r, e) ↦
        let (rows, alone) = start_found-ok id turn now r db db' (rw e at h) in
        record {
          at_id =
              λ other. rw rows (omega (arith, start_id id other turn now db.runs, one.at_id other));
          at_agent = λ agent. elim (Bool-cases (r.agent_id == agent)) [
            | inl s ↦
                let mine =
                  subst (λ (a : String). any (other_active id a) db.runs ≡ false)
                    ((eq_iff r.agent_id agent).0 s) alone in
                rw rows (omega (arith, start_own id turn now agent db.runs mine, one.at_id id))
            | inr s ↦ rw rows (
                omega (
                  arith,
                  start_other id turn now agent db.runs r (one.at_id id) e s,
                  one.at_agent agent,
                ))
          ];
        }
  ]

finish_one :
    (id agent message : String) (status : RunStatus) (now : Time) (rs : List Run)
    → is_active status ≡ false
    → count (active_for agent) (update (run_with_id id) (finished status message now) rs)
      ≤ count (active_for agent) rs
finish_one id agent message status now rs inactive =
    count-update-le (run_with_id id) (active_for agent) (finished status message now) rs
      (λ x e b. absurd (ground (arith, finished-inactive agent message status now x inactive, b)))

finish_id :
    (id other message : String) (status : RunStatus) (now : Time) (rs : List Run)
    → count (run_with_id other) (update (run_with_id id) (finished status message now) rs)
      ≤ count (run_with_id other) rs
unfolding finished
finish_id id other message status now rs =
    count-update-le (run_with_id id) (run_with_id other) (finished status message now) rs
      (λ x e b. b)

-- What a run's end that succeeds comes to.
pub finish_run-ok :
    (id : String) (status : RunStatus) (message : String) (now : Time) (db db' : Db)
    → finish_run id status message now db ≡ ok db'
    → (r : Run) × (append_run_terminal r.agent_id id status message now
          (record db { runs = update (run_with_id id) (finished status message now) db.runs })
        ≡ ok db')
unfolding finish_run
finish_run-ok id status message now db db' h =
    let rows = update (run_with_id id) (finished status message now) db.runs in
    elim (Bool-cases (is_taken status db.runs (find? (run_with_id id) db.runs))) [
      | inl k ↦ absurd (ground (arith, k, h))
      | inr k ↦ elim (Option-cases (find? (run_with_id id) rows)) [
        | inl e ↦ absurd (ground (arith, rw (k, e) at h))
        | inr (r, e) ↦ (r, rw (k, e) at h)
      ]
    ]

module _ (now : Time) (db db' : Db) (one : OneActive db) where
  -- The end of a run with a status that is not active keeps each run alone under its identifier
  -- and at most one active run for each agent.
  pub finish_run-OneActive :
      (id message : String) (status : RunStatus)
      → is_active status ≡ false
      → finish_run id status message now db ≡ ok db'
      → OneActive db'
  finish_run-OneActive id message status inactive h =
      let rows = update (run_with_id id) (finished status message now) db.runs in
      let (r, e) = finish_run-ok id status message now db db' h in
      let same =
        append_terminal-runs r.agent_id id message status now (record db { runs = rows }) db' e in
      record {
        at_id = λ other.
            rw same (omega (arith, finish_id id other message status now db.runs, one.at_id other));
        at_agent = λ agent. rw same (
            omega
              (arith, finish_one id agent message status now db.runs inactive, one.at_agent agent));
      }

-- ===== src/Store/Timeline/Retry.antt =====
-- Retries of an entry of the timeline and of a worker's event.
use codexbot.Common.{
  ℕ, ◌≡◌, refl, ap, inl, inr, true, not, ◌&&◌, String, [], ◌∷◌, Option, none, some, arith, eq_refl,
  ◌==◌, any, find?-append, ok, Bool-cases,
}
use codexbot.Clock.{Time}
use codexbot.Domain.Records.{Run, RunStatus, Event, Payload, DedupKey, is_scheduled}
use codexbot.Store.Database.{Db, TimelineRow}
use codexbot.Store.Timeline.{
  run_status_eq, key_eq, has_dedup_key, is_scheduled_run, row_with_key, event_of, insert_timeline,
  append_timeline,
}

run_status_eq_refl : (s : RunStatus) → run_status_eq s s ≡ true
unfolding run_status_eq
run_status_eq_refl RunStatus.queued = refl
run_status_eq_refl _ = refl

pub key_eq_refl : (k : DedupKey) → key_eq k k ≡ true
unfolding key_eq
key_eq_refl (DedupKey.run_terminal a s) = rw (eq_refl a, run_status_eq_refl s)
key_eq_refl (DedupKey.worker a n) = ground (arith, eq_refl a)
key_eq_refl (DedupKey.task_status a n) = ground (arith, eq_refl a)
key_eq_refl (DedupKey.input a) = eq_refl a
key_eq_refl (DedupKey.receipt a) = eq_refl a
key_eq_refl (DedupKey.reset a) = eq_refl a
key_eq_refl (DedupKey.given a) = eq_refl a

module _ (agent run_id typ : String) (payload : Payload) (created : Time) (key : Option DedupKey)
    (source : Option ℕ) (db : Db) where
  -- An entry of the timeline changes no run and no event of the outbox.
  pub append_timeline-frame :
      (e : Event) (db' : Db)
      → append_timeline agent run_id typ payload created key source db ≡ ok (e, db')
      → (db'.runs ≡ db.runs)
        × (db'.events ≡ db.events)
        × (db'.agents ≡ db.agents)
        × (db'.agent_conversations ≡ db.agent_conversations)
        × (db'.conversations ≡ db.conversations)
  unfolding append_timeline
  append_timeline-frame e db' h = ground arith

insert_timeline-retry :
    (agent run_id typ : String) (payload : Payload) (created : Time) (k : DedupKey)
    (source : Option ℕ) (db : Db) (o : Option TimelineRow) (e : Event) (db' : Db)
    → row_with_key db agent (some k) ≡ o
    → insert_timeline agent run_id typ payload created (some k) source db o ≡ ok (e, db')
    → (row : TimelineRow) × (row_with_key db' agent (some k) ≡ some row) × (event_of row ≡ e)
unfolding insert_timeline
insert_timeline-retry agent run_id typ payload created k source db (some row) e db' found h =
    (row, ground (arith, found), ground arith)
insert_timeline-retry agent run_id typ payload created k source db none e db' found h =
    let row : TimelineRow = record {
      sequence = db.next_timeline;
      agent_id = agent;
      run_id = run_id;
      typ = typ;
      payload = payload;
      created_at = created;
      dedup_key = some k;
      source_sequence = source;
    } in
    (
      row,
      ground (
        arith,
        found,
        find?-append (has_dedup_key agent k) db.agent_timeline (row ∷ []) found,
        eq_refl agent,
        key_eq_refl k,
      ),
      ground arith,
    )

module _ (agent run_id : String) (k : DedupKey) (db : Db) (e : Event) (db' : Db) where
  -- In the state after an entry was appended under a key, or found there, an attempt to append
  -- for the same agent and run under the key, whatever its contents, returns that entry and
  -- changes nothing.
  pub append_timeline-once :
      (typ : String) (payload : Payload) (created : Time) (source : Option ℕ)
      → append_timeline agent run_id typ payload created (some k) source db ≡ ok (e, db')
      → (typ' : String) (payload' : Payload) (created' : Time) (source' : Option ℕ)
      → append_timeline agent run_id typ' payload' created' (some k) source' db' ≡ ok (e, db')
  unfolding append_timeline
  append_timeline-once typ payload created source h typ' payload' created' source' =
      let (runs, _, _, _, _) =
        append_timeline-frame agent run_id typ payload created (some k) source db e db' h in
      let same = ap (λ rs. any (λ (r : Run). r.id == run_id && is_scheduled r.source) rs) runs in
      elim (Bool-cases (not (run_id == "") && is_scheduled_run db run_id)) [
        | inl s ↦ ground (arith, s, same)
        | inr s ↦
            let (row, found, is_e) =
              insert_timeline-retry agent run_id typ payload created k source db
                (row_with_key db agent (some k)) e db' refl (rw s at h) in
            rw (same, s, found) (unfold insert_timeline in ap (λ x. ok (x, db')) is_e)
      ]

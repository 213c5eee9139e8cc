-- ===== src/Store/Timeline/Worker.antt =====
-- A worker's event that is reported again.
use codexbot.Common.{
  ℕ, ◌≡◌, refl, inl, inr, true, String, [], ◌∷◌, Option, none, some, arith, eq_refl, ◌==◌, ltb,
  find?, find?-append, insert, if◌then◌else◌, ℤ, pos, negsuc, refused, ok, err, Result-cases,
  Option-cases, Bool-cases,
}
use codexbot.Clock.{Time}
use codexbot.Domain.Records.{Event, raw, DedupKey}
use codexbot.Store.Database.{Db}
use codexbot.Store.Timeline.{
  has_sequence, append_timeline, append_stored_event, append_at, append_worker_event, same_content,
}
use codexbot.Store.Timeline.Retry.{append_timeline-frame}

abbrev stored : String → ℕ → String → String → Time → Event
stored run_id n typ payload now = record {
  run_id = run_id;
  sequence = n;
  typ = typ;
  payload = raw payload;
  created_at = now;
}

module _ (run_id : String) (n : ℕ) (typ payload : String) (now : Time) (db : Db) where
  append_stored-events :
      (db' : Db)
      → append_stored_event run_id n typ payload now db ≡ ok db'
      → db'.events ≡ insert (stored run_id n typ payload now) db.events
  unfolding append_stored_event
  append_stored-events db' h = elim (Option-cases (find? (λ r. r.id == run_id) db.runs)) [
    | inl e ↦ absurd (ground (arith, e))
    | inr (r, e) ↦
        let key : Option DedupKey = some (DedupKey.worker run_id n) in
        let with_event = record db {
          events = insert (stored run_id n typ payload now) db.events;
        } in
        elim (Result-cases
          (append_timeline r.agent_id run_id typ (raw payload) now key (some n) with_event)) [
            | inr (x, k) ↦ absurd (ground (arith, e, k))
            | inl ((x, mid), k) ↦
                let (_, same, _, _, _) =
                  append_timeline-frame r.agent_id run_id typ (raw payload) now key (some n)
                    with_event x mid k in
                ground (arith, e, k, same)
          ]
  ]

  append_at-found :
      (o : Option Event) (e : Event) (db' : Db)
      → find? (has_sequence run_id n) db.events ≡ o
      → append_at run_id n typ payload now db o ≡ ok (e, db')
      → (find? (has_sequence run_id n) db'.events ≡ some e) × (same_content typ payload e ≡ true)
  unfolding append_at
  append_at-found (some x) e db' found h = elim (Bool-cases (same_content typ payload x)) [
    | inl s ↦ ground (arith, s, found)
    | inr s ↦ absurd (ground (arith, s))
  ]
  append_at-found none e db' found h =
      elim (Result-cases (append_stored_event run_id n typ payload now db)) [
        | inr (x, k) ↦ absurd (ground (arith, rw k at h))
        | inl (mid, k) ↦
            let rows = append_stored-events mid k in
            (
              ground (
                arith,
                rw k at h,
                rows,
                eq_refl run_id,
                find?-append (has_sequence run_id n) db.events
                    (stored run_id n typ payload now ∷ []) found,
              ),
              ground (arith, rw k at h, eq_refl typ, eq_refl payload),
            )
      ]

module _ (run_id : String) (n : ℤ) (typ payload : String) (now : Time) (db : Db) (e : Event)
    (db' : Db) (first : append_worker_event run_id n typ payload now db ≡ ok (e, db')) where
  -- After a worker's event was stored, or found, at its sequence, a report at that sequence with
  -- the same content returns the event and changes nothing, and one with other content is refused.
  pub append_worker_event-again :
      (typ' payload' : String) (now' : Time)
      → (same_content typ payload e ≡ true)
        × (append_worker_event run_id n typ' payload' now' db'
            ≡ (if same_content typ' payload' e then ok (e, db') else err refused))
  unfolding append_worker_event
  append_worker_event-again typ' payload' now' = again n first
    where
      again :
          (m : ℤ)
          → append_worker_event run_id m typ payload now db ≡ ok (e, db')
          → (same_content typ payload e ≡ true)
            × (append_worker_event run_id m typ' payload' now' db'
                ≡ (if same_content typ' payload' e then ok (e, db') else err refused))
      again (negsuc k) h = absurd (ground arith)
      again (pos k) h = elim (Bool-cases (ltb k 1)) [
        | inl s ↦ absurd (ground (arith, rw s at h))
        | inr s ↦
            let (found, same) =
              append_at-found run_id k typ payload now db (find? (has_sequence run_id k) db.events)
                e db' refl (rw s at h) in
            (same, rw (s, found) (unfold append_at in refl))
      ]

-- ===== src/Store/Timeline/Outbox.antt =====
-- EventsAfter of internal/store/store.go: the events of a run beyond a sequence. Children have the
-- proofs.
pub mod Sorted
use codexbot.Common.{
  ℕ, ◌*◌, Bool, true, ◌&&◌, String, List, [], ◌∷◌, map, select, take, ◌==◌, ltb, leb, if◌then◌else◌,
  ℤ, pos, negsuc, refused, Result, ok, err,
}
use codexbot.Domain.Records.{Event, Payload, raw, object}
use codexbot.Domain.Text.{byte_length}
use codexbot.Store.Database.{Db}
use codexbot.Store.Tasks.Query.{collaboration_limit}

-- ORDER BY sequence
unfoldable pub insert_by_sequence : Event → List Event → List Event
insert_by_sequence e [] = e ∷ []
insert_by_sequence e (x ∷ xs) =
    let rest = insert_by_sequence e xs in if leb e.sequence x.sequence then e ∷ x ∷ xs else x ∷ rest

unfoldable pub sort_by_sequence : List Event → List Event
unfolding insert_by_sequence
sort_by_sequence [] = []
sort_by_sequence (e ∷ es) = insert_by_sequence e (sort_by_sequence es)

-- sequence>?
abbrev pub is_beyond : ℤ → ℕ → Bool
is_beyond (negsuc n) sequence = true
is_beyond (pos n) sequence = ltb n sequence

-- EventsAfter
unfoldable pub events_after : String → ℤ → Db → List Event
unfolding sort_by_sequence
events_after run_id after db =
    sort_by_sequence (select (λ e. e.run_id == run_id && is_beyond after e.sequence) db.events)

-- A payload of more than 256 KiB is shown by a preview; `preview` stands for the JSON of it.
abbrev pub shortened : (String → String) → Payload → Payload
shortened preview (raw s) = if ltb (256 * 1024) (byte_length s) then raw (preview s) else raw s
shortened preview (object fields) = object fields

-- EventsAfterLimit
unfoldable pub events_after_limit : (String → String) → String → ℤ → ℤ → Db → Result (List Event)
unfolding events_after
events_after_limit preview run_id (negsuc n) limit db = err refused
events_after_limit preview run_id (pos after) limit db = ok (
    map (λ (e : Event). record e { payload = shortened preview e.payload })
      (take (collaboration_limit limit) (events_after run_id (pos after) db)))

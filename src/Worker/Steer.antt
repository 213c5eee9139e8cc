-- ===== src/Worker/Steer.antt =====
-- internal/agentworker/steer.go: the handler of a steer, with the ledger that keeps a message from
-- reaching the app-server twice.
use codexbot.Common.{
  max, ℕ, suc, Bool, true, false, ◌&&◌, String, List, [], ◌∷◌, Option, none, some, any, update,
  insert, ◌==◌, if◌then◌else◌,
}
use codexbot.Server.World.{SteerRequest}
use codexbot.Worker.Machine.{
  ActiveRun, DeliveryState, EventPayload, SteerDelivery, Stored, LedgerFile, WorkerEvent, Worker,
  SaveOutcome, OutboxOutcome, Conditions, SteerAnswer,
}

abbrev pub file_of : String → LedgerFile → Bool
file_of id f = f.message_id == id

-- The ledger with a file in place of the one of its name.
unfoldable pub put_file : LedgerFile → List LedgerFile → List LedgerFile
put_file f fs =
    if any (file_of f.message_id) fs then update (file_of f.message_id) (λ g. f) fs else insert f fs

-- saveSteerDelivery, and whether it had no error
unfoldable pub save_steer_delivery : SaveOutcome → String → SteerDelivery → Worker → Bool × Worker
unfolding put_file
save_steer_delivery SaveOutcome.unsaved id d w = (false, w)
save_steer_delivery SaveOutcome.saved id d w = (
  true,
  record w { ledger = put_file (record { message_id = id; stored = Stored.delivery d }) w.ledger },
)
save_steer_delivery SaveOutcome.unsynced id d w = (
  false,
  record w { ledger = put_file (record { message_id = id; stored = Stored.delivery d }) w.ledger },
)

-- The sequence of the active run, if it is the one.
abbrev pub active_sequence : String → Option ActiveRun → ℕ
active_sequence run_id none = 0
active_sequence run_id (some a) = if a.run_id == run_id then a.sequence else 0

-- The highest sequence of a run's events, or the one given.
unfoldable pub last_sequence : String → ℕ → List WorkerEvent → ℕ
last_sequence run_id n [] = n
last_sequence run_id n (e ∷ es) =
    last_sequence run_id (if e.run_id == run_id then max n e.sequence else n) es

-- The event of the input is in the run's outbox.
abbrev pub input_event_of : String → String → WorkerEvent → Bool
input_event_of run_id id e = e.run_id == run_id && e.typ == "message.user" && e.payload.id == id

abbrev pub with_sequence : String → ℕ → ActiveRun → ActiveRun
with_sequence run_id n a = if a.run_id == run_id then record a { sequence = n } else a

abbrev pub map_active : (ActiveRun → ActiveRun) → Option ActiveRun → Option ActiveRun
map_active f none = none
map_active f (some a) = some (f a)

-- The event is in the outbox: the run's sequence, and the flag of the ledger.
unfoldable pub flag_recorded :
    Conditions → String → String → SteerDelivery → ℕ → Worker → Bool × Worker
unfolding save_steer_delivery
flag_recorded c run_id id d n w =
    save_steer_delivery (c.saves "recorded") id (record d { recorded = true })
      (record w { active = map_active (with_sequence run_id n) w.active })

abbrev pub input_event : String → EventPayload → ℕ → WorkerEvent
input_event run_id input n = record {
  run_id = run_id;
  sequence = n;
  typ = "message.user";
  payload = input;
}

-- The outbox after the scan, by whether the event was found.
unfoldable pub record_event :
    Conditions
    → String
    → String
    → SteerDelivery
    → EventPayload
    → ℕ
    → Bool
    → OutboxOutcome
    → Worker
    → Bool × Worker
unfolding flag_recorded
record_event c run_id id d input n true OutboxOutcome.unsynced w = (false, w)
record_event c run_id id d input n true _ w = flag_recorded c run_id id d n w
record_event c run_id id d input n false OutboxOutcome.unwritable w = (false, w)
record_event c run_id id d input n false OutboxOutcome.unsynced w =
    (false, record w { outbox = insert (input_event run_id input (suc n)) w.outbox })
record_event c run_id id d input n false _ w =
    flag_recorded c run_id id d (suc n)
      (record w { outbox = insert (input_event run_id input (suc n)) w.outbox })

unfoldable pub record_readable :
    Conditions
    → String
    → String
    → SteerDelivery
    → EventPayload
    → OutboxOutcome
    → Worker
    → Bool × Worker
unfolding record_event last_sequence
record_readable c run_id id d input OutboxOutcome.unread w = (false, w)
record_readable c run_id id d input o w =
    let after = max d.response.after_sequence (active_sequence run_id w.active) in
    record_event c run_id id d input (last_sequence run_id after w.outbox)
      (any (input_event_of run_id input.id) w.outbox) o w

-- recordSteerInput, by the input's event; an older record has none.
unfoldable pub record_input :
    Conditions → String → String → SteerDelivery → Option EventPayload → Worker → Bool × Worker
unfolding record_readable
record_input c run_id id d none w = (true, w)
record_input c run_id id d (some input) w = record_readable c run_id id d input c.outbox w

-- recordSteerInput, and whether it had no error
unfoldable pub record_steer_input :
    Conditions → String → String → SteerDelivery → Worker → Bool × Worker
unfolding record_input
record_steer_input c run_id id d w =
    if d.recorded then (true, w) else record_input c run_id id d d.input_event w

abbrev pub answer_recorded : SteerDelivery → Bool × Worker → SteerAnswer × Worker
answer_recorded d (true, w) = (SteerAnswer.steered d.response, w)
answer_recorded d (false, w) =
    (SteerAnswer.refused 503 "steer accepted but input event could not be persisted", w)

-- The answer to a message that the ledger has, by its state.
unfoldable pub steer_state :
    Conditions → SteerRequest → SteerDelivery → DeliveryState → Worker → SteerAnswer × Worker
unfolding record_steer_input
steer_state c s d DeliveryState.accepted w =
    answer_recorded d (record_steer_input c s.run_id s.message_id d w)
steer_state c s d DeliveryState.rejected w = (SteerAnswer.refused 409 "steer was rejected", w)
steer_state c s d DeliveryState.pending w =
    (SteerAnswer.refused 503 "steer delivery unknown; message will not be delivered again", w)

unfoldable pub steer_again : Conditions → SteerRequest → Stored → Worker → SteerAnswer × Worker
unfolding steer_state
steer_again c s Stored.unreadable w =
    (SteerAnswer.refused 503 "steer delivery state unreadable; delivery unknown", w)
steer_again c s (Stored.delivery d) w =
    if d.fingerprint == c.digest s
    then steer_state c s d d.state w
    else (SteerAnswer.refused 422 "message id reused with different input", w)

-- ===== src/Worker/Handler.antt =====
-- internal/agentworker/steer.go: the handler of a steer, for a message that the ledger does not
-- have. A child has the checks that come first and the handler as a whole.
pub mod Checks
use codexbot.Common.{
  ℕ, suc, Bool, true, false, not, ◌&&◌, ◌||◌, String, List, [], ◌∷◌, ◌++◌, Option, none, some,
  find?, insert, is_empty, delete, ◌==◌, eqb, if◌then◌else◌, ℤ, pos, negsuc,
}
use codexbot.Domain.Attachments.{
  AttachmentError, too_many, bad_name, too_large, bad_data, validate_attachments, attachment_prompt,
}
use codexbot.Domain.Text.{concat, is_blank}
use codexbot.Server.World.{SteerRequest}
use codexbot.Worker.Machine.{
  ActiveRun, DeliveryState, EventPayload, SteerDelivery, LedgerFile, WorkerEvent, TurnSteer, Worker,
  RpcReply, Conditions, SteerAnswer,
}
use codexbot.Worker.Steer.{
  file_of, save_steer_delivery, active_sequence, map_active, record_steer_input, steer_again,
}

abbrev pub refuse : ℕ → String → Worker → SteerAnswer × Worker
refuse status text w = (SteerAnswer.refused status text, w)

-- The running turn is the one that the request names.
abbrev pub matches : SteerRequest → Option ActiveRun → Bool
matches s none = false
matches s (some a) =
    a.status == "running"
    && a.run_id == s.run_id
    && a.thread_id == s.thread_id
    && a.turn_id == s.expected_turn_id

-- RemoveAll of the attachments' directory, if there is one.
abbrev pub remove_directory : Option String → Worker → Worker
remove_directory none w = w
remove_directory (some d) w = record w { directories = delete (λ x. x == d) w.directories }

abbrev pub add_directory : Option String → Worker → Worker
add_directory none w = w
add_directory (some d) w = record w { directories = insert d w.directories }

abbrev pub pending_delivery : String → SteerDelivery
pending_delivery fingerprint = record {
  fingerprint = fingerprint;
  state = DeliveryState.pending;
  response = record { thread_id = ""; turn_id = ""; after_sequence = 0 };
  input_event = none;
  recorded = false;
}

unfoldable pub input_payload : SteerRequest → String → EventPayload
input_payload s turn = record {
  id = concat "steer-" s.message_id;
  fields =
      ("text", attachment_prompt s.prompt s.attachments)
      ∷ ("messageId", s.message_id)
      ∷ ("threadId", s.thread_id)
      ∷ ("turnId", turn)
      ∷ ("source", if s.task_id == "" then "steer" else "collaboration")
      ∷ ((if s.sender_agent_id == "" then [] else ("senderAgentId", s.sender_agent_id) ∷ [])
          ++ (if s.task_id == "" then [] else ("taskId", s.task_id) ∷ []));
}

unfoldable pub accepted_delivery : Conditions → SteerRequest → String → ℕ → SteerDelivery
unfolding input_payload
accepted_delivery c s turn after = record {
  fingerprint = c.digest s;
  state = DeliveryState.accepted;
  response = record { thread_id = s.thread_id; turn_id = turn; after_sequence = after };
  input_event = some (input_payload s turn);
  recorded = false;
}

abbrev pub with_prompt : SteerRequest → ActiveRun → ActiveRun
with_prompt s a =
    if a.run_id == s.run_id
    then record a {
      prompt = concat a.prompt (concat "\n\n" (attachment_prompt s.prompt s.attachments));
    }
    else a

-- appendEvent, by the active run; its caller only logs an error.
unfoldable pub append_active :
    Conditions → String → String → EventPayload → Option ActiveRun → Worker → Worker
append_active c run_id typ payload none w = w
append_active c run_id typ payload (some a) w =
    let event : WorkerEvent = record {
      run_id = run_id;
      sequence = suc a.sequence;
      typ = typ;
      payload = payload;
    } in
    if a.run_id == run_id
    then record w {
      active = some (record a { sequence = suc a.sequence });
      outbox = if c.event_written then insert event w.outbox else w.outbox;
    }
    else w

unfoldable pub log_event : Conditions → String → String → EventPayload → Worker → Worker
unfolding append_active
log_event c run_id typ payload w = append_active c run_id typ payload w.active w

-- After the record of an accepted steer: the input's event, and the event of the steer.
unfoldable pub finish_steer :
    Conditions → SteerRequest → SteerDelivery → Bool × Worker → SteerAnswer × Worker
unfolding log_event
finish_steer c s d (false, w) = refuse 503 "steer accepted but input event could not be persisted" w
finish_steer c s d (true, w) = (
  SteerAnswer.steered d.response,
  log_event c s.run_id "run.steered"
      (record {
        id = "";
        fields =
            ("messageId", s.message_id)
            ∷ ("threadId", s.thread_id)
            ∷ ("turnId", d.response.turn_id)
            ∷ [];
      })
      w,
)

-- After the save of an accepted steer.
unfoldable pub record_accepted :
    Conditions → SteerRequest → SteerDelivery → Bool × Worker → SteerAnswer × Worker
unfolding finish_steer
record_accepted c s d (false, w) =
    refuse 503 "steer accepted but delivery record could not be persisted; delivery unknown" w
record_accepted c s d (true, w) = finish_steer c s d (
    record_steer_input c s.run_id s.message_id d
      (record w { active = map_active (with_prompt s) w.active }))

-- The codes of a request that was refused before its input was taken.
abbrev pub is_invalid_request : ℤ → Bool
is_invalid_request (pos n) = false
is_invalid_request (negsuc n) = eqb n 32599 || eqb n 32601

abbrev pub unknown_steer : String → Worker → SteerAnswer × Worker
unknown_steer text = refuse 503 (concat "steer delivery unknown: " text)

-- After the save of a rejection.
abbrev pub answer_rejected : String → Bool × Worker → SteerAnswer × Worker
answer_rejected text (true, w) = refuse 409 text w
answer_rejected text (false, w) = unknown_steer text w

-- After the call, by the app-server's reply.
unfoldable pub settle_reply :
    Conditions → SteerRequest → Option String → ℕ → RpcReply → Worker → SteerAnswer × Worker
unfolding record_accepted accepted_delivery
settle_reply c s directory after (RpcReply.turn id) w =
    let d = accepted_delivery c s id after in
    record_accepted c s d (save_steer_delivery (c.saves "settled") s.message_id d w)
settle_reply c s directory after (RpcReply.rpc_error code text) w =
    if is_invalid_request code
    then answer_rejected text (
        save_steer_delivery (c.saves "settled") s.message_id
          (record (pending_delivery (c.digest s)) { state = DeliveryState.rejected })
          (remove_directory directory w))
    else unknown_steer text w
settle_reply c s directory after (RpcReply.broken text) w = unknown_steer text w

-- The call itself, by whether the pending delivery was saved.
unfoldable pub send_input :
    Conditions
    → SteerRequest
    → List String
    → Option String
    → ℕ
    → Bool × Worker
    → SteerAnswer × Worker
unfolding settle_reply
send_input c s inputs directory after (false, w) =
    refuse 503 "could not persist steer delivery" (remove_directory directory w)
send_input c s inputs directory after (true, w) =
    let call : TurnSteer = record {
      thread_id = s.thread_id;
      expected_turn_id = s.expected_turn_id;
      message_id = s.message_id;
      input = inputs;
    } in
    settle_reply c s directory after (c.turn_steer call)
      (record w { steered = w.steered ++ call ∷ [] })

-- A message that the ledger does not have, by its saved attachments.
unfoldable pub steer_saved :
    Conditions → SteerRequest → Option (List String × Option String) → Worker → SteerAnswer × Worker
unfolding send_input
steer_saved c s none w = refuse 500 "could not save attachments" w
steer_saved c s (some (inputs, directory)) w =
    send_input c s inputs directory (active_sequence s.run_id w.active) (
      save_steer_delivery (c.saves "pending") s.message_id (pending_delivery (c.digest s))
        (add_directory directory w))

unfoldable pub steer_new : Conditions → SteerRequest → Worker → SteerAnswer × Worker
unfolding steer_saved
steer_new c s w =
    if matches s w.active
    then steer_saved c s (c.materialized s) w
    else refuse 409 "active turn changed" w

unfoldable pub steer_stored :
    Conditions → SteerRequest → Option LedgerFile → Worker → SteerAnswer × Worker
unfolding steer_new steer_again
steer_stored c s none w = steer_new c s w
steer_stored c s (some f) w = steer_again c s f.stored w

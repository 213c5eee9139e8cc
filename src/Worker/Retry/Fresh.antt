-- ===== src/Worker/Retry/Fresh.antt =====
-- A steer that succeeds leaves its message as accepted.
use codexbot.Common.{
  ℕ, ◌≡◌, refl, ap, ◌∙◌, inl, inr, Bool, true, false, String, List, [], ◌∷◌, ◌++◌, Option, none,
  some, arith, ◌==◌, find?, Bool-cases,
}
use codexbot.Server.World.{SteerRequest}
use codexbot.Worker.Machine.{
  ActiveRun, DeliveryState, EventPayload, LedgerFile, TurnSteer, Worker, RpcReply, Conditions,
}
use codexbot.Worker.Steer.{
  file_of, save_steer_delivery, map_active, record_steer_input, active_sequence,
}
use codexbot.Worker.Handler.{
  with_prompt, append_active, log_event, finish_steer, accepted_delivery, record_accepted,
  is_invalid_request, answer_rejected, settle_reply, send_input, steer_saved, steer_new,
  steer_stored, matches, pending_delivery, add_directory, remove_directory,
}
use codexbot.Worker.Retry.{response_of, ledger_file, flagged, record-on_file}
use codexbot.Worker.Retry.Settled.{Settles, flagged-IsSettled, again-Settles}

module _ (c : Conditions) (s : SteerRequest) where
  append-ledger :
      (run_id typ : String) (payload : EventPayload) (o : Option ActiveRun) (w : Worker)
      → (append_active c run_id typ payload o w).ledger ≡ w.ledger
  unfolding append_active
  append-ledger run_id typ payload none w = refl
  append-ledger run_id typ payload (some a) w = elim (Bool-cases (a.run_id == run_id)) [
    | inl e ↦ rw e refl
    | inr e ↦ rw e refl
  ]

  finish-Settles :
      (id : String) (after : ℕ) (p : Bool × Worker)
      → (p.0 ≡ true
          → find? (file_of s.message_id) p.1.ledger
            ≡ some (ledger_file s.message_id (flagged (accepted_delivery c s id after))))
      → Settles c s (finish_steer c s (accepted_delivery c s id after) p)
  unfolding finish_steer log_event accepted_delivery
  finish-Settles id after (false, w) k r h = absurd (ground arith)
  finish-Settles id after (true, w) k r h =
      let d = accepted_delivery c s id after in
      let same : d.response ≡ r = ground arith in
      flagged-IsSettled c s d r _ refl refl same (
        ap (find? (file_of s.message_id)) (append-ledger s.run_id "run.steered" _ w.active w)
        ∙ k refl)

  accepted-Settles :
      (id : String) (after : ℕ) (p : Bool × Worker)
      → Settles c s (record_accepted c s (accepted_delivery c s id after) p)
  unfolding record_accepted accepted_delivery
  accepted-Settles id after (false, w) r h = absurd (ground arith)
  accepted-Settles id after (true, w) r h =
      let d = accepted_delivery c s id after in
      let v = record w { active = map_active (with_prompt s) w.active } in
      finish-Settles id after (record_steer_input c s.run_id s.message_id d v)
        (λ ok. elim (record-on_file c s.run_id s.message_id d v ok) [
          | inl (inl k, _) ↦ absurd (ground (arith, k))
          | inl (inr k, _) ↦ absurd (ground (arith, k))
          | inr on ↦ on
        ])
        r h

  rejected_refuses :
      (text : String) (p : Bool × Worker) → response_of (answer_rejected text p).0 ≡ none
  rejected_refuses text (true, w) = refl
  rejected_refuses text (false, w) = refl

  reply-Settles :
      (directory : Option String) (after : ℕ) (reply : RpcReply) (w : Worker)
      → Settles c s (settle_reply c s directory after reply w)
  unfolding settle_reply
  reply-Settles directory after (RpcReply.turn id) w r h =
      let d = accepted_delivery c s id after in
      accepted-Settles id after (save_steer_delivery (c.saves "settled") s.message_id d w) r h
  reply-Settles directory after (RpcReply.rpc_error code text) w r h =
      elim (Bool-cases (is_invalid_request code)) [
        | inl e ↦
            let d = record (pending_delivery (c.digest s)) { state = DeliveryState.rejected } in
            let saved =
              save_steer_delivery (c.saves "settled") s.message_id d
                (remove_directory directory w) in
            absurd (ground (arith, (rw e at h), rejected_refuses text saved))
        | inr e ↦ absurd (ground (arith, e, h))
      ]
  reply-Settles directory after (RpcReply.broken text) w r h = absurd (ground arith)

  send-Settles :
      (inputs : List String) (directory : Option String) (after : ℕ) (p : Bool × Worker)
      → Settles c s (send_input c s inputs directory after p)
  unfolding send_input
  send-Settles inputs directory after (false, w) r h = absurd (ground arith)
  send-Settles inputs directory after (true, w) r h =
      let call : TurnSteer = record {
        thread_id = s.thread_id;
        expected_turn_id = s.expected_turn_id;
        message_id = s.message_id;
        input = inputs;
      } in
      reply-Settles directory after (c.turn_steer call)
        (record w { steered = w.steered ++ call ∷ [] }) r h

  saved-Settles :
      (o : Option (List String × Option String)) (w : Worker) → Settles c s (steer_saved c s o w)
  unfolding steer_saved
  saved-Settles none w r h = absurd (ground arith)
  saved-Settles (some (inputs, directory)) w r h =
      let d = pending_delivery (c.digest s) in
      send-Settles inputs directory (active_sequence s.run_id w.active)
        (save_steer_delivery (c.saves "pending") s.message_id d (add_directory directory w)) r h

  pub stored-Settles :
      (o : Option LedgerFile) (w : Worker)
      → find? (file_of s.message_id) w.ledger ≡ o
      → Settles c s (steer_stored c s o w)
  unfolding steer_stored steer_new
  stored-Settles none w found r h = elim (Bool-cases (matches s w.active)) [
    | inl e ↦ rw e (saved-Settles (c.materialized s) w r (rw e at h))
    | inr e ↦ absurd (ground (arith, e, h))
  ]
  stored-Settles (some f) w found r h = again-Settles c s f f.stored w found refl r h

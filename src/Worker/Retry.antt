-- ===== src/Worker/Retry.antt =====
-- What a steer leaves in the ledger. The children have the retry.
pub mod Settled
pub mod Fresh
pub mod Again
use mathlib.Core.Path.{subst}
use codexbot.Common.{
  ℕ, suc, ◌≡◌, refl, sym, ap, ◌∙◌, inl, inr, ◌⊎◌, Bool, true, false, not, ◌||◌, ◌&&◌, String, List,
  [], ◌∷◌, ◌++◌, Option, none, some, arith, eq_refl, eq_iff, ◌==◌, any, find?, update, insert,
  find?-append, find?-none_of_any, Bool-cases, if◌then◌else◌, ℤ,
}
use codexbot.Domain.Attachments.{AttachmentError, validate_attachments}
use codexbot.Server.World.{SteerRequest}
use codexbot.Worker.Machine.{
  ActiveRun, SteerResponse, DeliveryState, EventPayload, SteerDelivery, Stored, LedgerFile,
  TurnSteer, Worker, RpcReply, SaveOutcome, OutboxOutcome, Conditions, SteerAnswer,
}
use codexbot.Worker.Steer.{
  file_of, put_file, save_steer_delivery, map_active, with_sequence, flag_recorded, record_event,
  record_readable, record_input, record_steer_input, answer_recorded, steer_state, steer_again,
  input_event,
}
use codexbot.Worker.Handler.{
  with_prompt, append_active, log_event, finish_steer, accepted_delivery, record_accepted,
  is_invalid_request, answer_rejected, settle_reply, send_input, steer_saved, steer_new,
  steer_stored, matches, pending_delivery, remove_directory,
}
use codexbot.Worker.Handler.Checks.{is_incomplete, steer_checked, steer}

-- An answer of success, with its response.
abbrev pub response_of : SteerAnswer → Option SteerResponse
response_of (SteerAnswer.steered r) = some r
response_of (SteerAnswer.refused status text) = none

find-updated :
    (f : LedgerFile) (fs : List LedgerFile)
    → any (file_of f.message_id) fs ≡ true
    → find? (file_of f.message_id) (update (file_of f.message_id) (λ g. f) fs) ≡ some f
find-updated f [] h = absurd (ground arith)
find-updated f (g ∷ fs) h = ground (arith, find-updated f fs, eq_refl f.message_id)

find-put_file :
    (f : LedgerFile) (fs : List LedgerFile) → find? (file_of f.message_id) (put_file f fs) ≡ some f
unfolding put_file
find-put_file f fs = elim (Bool-cases (any (file_of f.message_id) fs)) [
  | inl e ↦ rw e (find-updated f fs e)
  | inr e ↦
      let p = file_of f.message_id in
      rw e (
        find?-append p fs (f ∷ []) (find?-none_of_any p fs e)
        ∙ ground (arith, eq_refl f.message_id))
]

abbrev pub ledger_file : String → SteerDelivery → LedgerFile
ledger_file id d = record { message_id = id; stored = Stored.delivery d }

pub save-on_file :
    (o : SaveOutcome) (id : String) (d : SteerDelivery) (w : Worker)
    → (save_steer_delivery o id d w).0 ≡ true
    → find? (file_of id) (save_steer_delivery o id d w).1.ledger ≡ some (ledger_file id d)
unfolding save_steer_delivery
save-on_file SaveOutcome.unsaved id d w h = absurd (ground arith)
save-on_file SaveOutcome.saved id d w h = find-put_file (ledger_file id d) w.ledger
save-on_file SaveOutcome.unsynced id d w h = absurd (ground arith)

-- The delivery as it is on file once its input is recorded.
abbrev pub flagged : SteerDelivery → SteerDelivery
flagged d = record d { recorded = true }

module _ (c : Conditions) (run_id id : String) (d : SteerDelivery) where
  abbrev pub IsFlagged : Bool × Worker → Type 0
  IsFlagged p = find? (file_of id) p.1.ledger ≡ some (ledger_file id (flagged d))

  flag-on_file :
      (n : ℕ) (w : Worker)
      → (flag_recorded c run_id id d n w).0 ≡ true
      → IsFlagged (flag_recorded c run_id id d n w)
  unfolding flag_recorded
  flag-on_file n w h =
      save-on_file (c.saves "recorded") id (flagged d)
        (record w { active = map_active (with_sequence run_id n) w.active }) h

  event-on_file :
      (input : EventPayload) (n : ℕ) (found : Bool) (o : OutboxOutcome) (w : Worker)
      → (record_event c run_id id d input n found o w).0 ≡ true
      → IsFlagged (record_event c run_id id d input n found o w)
  unfolding record_event
  event-on_file input n true OutboxOutcome.unsynced w h = absurd (ground arith)
  event-on_file input n true _ w h = flag-on_file n w h
  event-on_file input n false OutboxOutcome.unwritable w h = absurd (ground arith)
  event-on_file input n false OutboxOutcome.unsynced w h = absurd (ground arith)
  event-on_file input n false _ w h =
      flag-on_file (suc n)
        (record w { outbox = insert (input_event run_id input (suc n)) w.outbox }) h

  readable-on_file :
      (input : EventPayload) (o : OutboxOutcome) (w : Worker)
      → (record_readable c run_id id d input o w).0 ≡ true
      → IsFlagged (record_readable c run_id id d input o w)
  unfolding record_readable
  readable-on_file input OutboxOutcome.unread w h = absurd (ground arith)
  readable-on_file input _ w h = event-on_file input _ _ _ w h

  input-on_file :
      (o : Option EventPayload) (w : Worker)
      → (record_input c run_id id d o w).0 ≡ true
      → ((o ≡ none) × ((record_input c run_id id d o w).1 ≡ w))
        ⊎ IsFlagged (record_input c run_id id d o w)
  unfolding record_input
  input-on_file none w h = inl (refl, refl)
  input-on_file (some input) w h = inr (readable-on_file input c.outbox w h)

  -- A record without an error: there was nothing to do, or the flag is on file.
  pub record-on_file :
      (w : Worker)
      → (record_steer_input c run_id id d w).0 ≡ true
      → (((d.recorded ≡ true) ⊎ (d.input_event ≡ none))
          × ((record_steer_input c run_id id d w).1 ≡ w))
        ⊎ IsFlagged (record_steer_input c run_id id d w)
  unfolding record_steer_input
  record-on_file w h = elim (Bool-cases d.recorded) [
    | inl e ↦
        inl (
          inl e,
          ap (λ b. (if b then (true, w) else record_input c run_id id d d.input_event w).1) e,
        )
    | inr e ↦
        let same =
          ap (λ b. if b then (true, w) else record_input c run_id id d d.input_event w) e in
        elim (input-on_file d.input_event w (ap (λ p. p.0) (sym same) ∙ h)) [
          | inl (n, k) ↦ inl (inr n, ap (λ p. p.1) same ∙ k)
          | inr f ↦ inr (ap (λ p. find? (file_of id) p.1.ledger) same ∙ f)
        ]
  ]

-- ===== src/Worker/Retry/Settled.antt =====
-- A message that the ledger has as accepted.
use mathlib.Core.Path.{subst}
use codexbot.Common.{
  ◌≡◌, refl, ap, ◌∙◌, inl, inr, ◌⊎◌, Bool, true, false, String, none, some, arith, eq_iff, ◌==◌,
  find?, Bool-cases, if◌then◌else◌,
}
use codexbot.Server.World.{SteerRequest}
use codexbot.Worker.Machine.{
  SteerResponse, DeliveryState, SteerDelivery, Stored, LedgerFile, Worker, Conditions, SteerAnswer,
}
use codexbot.Worker.Steer.{
  file_of, record_input, record_steer_input, answer_recorded, steer_state, steer_again,
}
use codexbot.Worker.Handler.{steer_stored}
use codexbot.Worker.Retry.{response_of, ledger_file, flagged, record-on_file}

-- The ledger has the message as accepted with a response, and its input needs no record.
pub record IsSettled (fingerprint id : String) (r : SteerResponse) (w : Worker) : Type 0 where
  pub file : LedgerFile
  pub delivery : SteerDelivery
  pub found : find? (file_of id) w.ledger ≡ some file
  pub stored : file.stored ≡ Stored.delivery delivery
  pub same : delivery.fingerprint ≡ fingerprint
  pub state : delivery.state ≡ DeliveryState.accepted
  pub response : delivery.response ≡ r
  pub recorded : (delivery.recorded ≡ true) ⊎ (delivery.input_event ≡ none)

pub recorded-idle :
    (c : Conditions) (run_id id : String) (d : SteerDelivery) (w : Worker)
    → (d.recorded ≡ true) ⊎ (d.input_event ≡ none)
    → record_steer_input c run_id id d w ≡ (true, w)
unfolding record_steer_input record_input
recorded-idle c run_id id d w (inl e) =
    ap (λ b. if b then (true, w) else record_input c run_id id d d.input_event w) e
recorded-idle c run_id id d w (inr e) = elim (Bool-cases d.recorded) [
  | inl b ↦ ap (λ b. if b then (true, w) else record_input c run_id id d d.input_event w) b
  | inr b ↦
      ap (λ b. if b then (true, w) else record_input c run_id id d d.input_event w) b
      ∙ ap (λ o. record_input c run_id id d o w) e
]

-- The answer to a message that is settled, which changes nothing.
pub settled-again :
    (c : Conditions) (s : SteerRequest) (r : SteerResponse) (w : Worker)
    → IsSettled (c.digest s) s.message_id r w
    → steer_stored c s (find? (file_of s.message_id) w.ledger) w ≡ (SteerAnswer.steered r, w)
unfolding steer_stored steer_again steer_state
settled-again c s r w p =
    ap (λ o. steer_stored c s o w) p.found
    ∙ ap (λ f. steer_again c s f w) p.stored
    ∙ ap
        (λ b.
          if b
          then steer_state c s p.delivery p.delivery.state w
          else (SteerAnswer.refused 422 "message id reused with different input", w))
        ((eq_iff p.delivery.fingerprint (c.digest s)).1 p.same)
    ∙ ap (λ st. steer_state c s p.delivery st w) p.state
    ∙ ap (answer_recorded p.delivery)
        (recorded-idle c s.run_id s.message_id p.delivery w p.recorded)
    ∙ ap (λ x. (SteerAnswer.steered x, w)) p.response

module _ (c : Conditions) (s : SteerRequest) where
  abbrev pub Settles : SteerAnswer × Worker → Type 0
  Settles p =
      (r : SteerResponse) → response_of p.0 ≡ some r → IsSettled (c.digest s) s.message_id r p.1

  pub flagged-IsSettled :
      (d : SteerDelivery) (r : SteerResponse) (w : Worker)
      → d.fingerprint ≡ c.digest s
      → d.state ≡ DeliveryState.accepted
      → d.response ≡ r
      → find? (file_of s.message_id) w.ledger ≡ some (ledger_file s.message_id (flagged d))
      → IsSettled (c.digest s) s.message_id r w
  flagged-IsSettled d r w fp st is on = record {
    file = ledger_file s.message_id (flagged d);
    delivery = flagged d;
    found = on;
    stored = refl;
    same = fp;
    state = st;
    response = is;
    recorded = inl refl;
  }

  answer-Settles :
      (d : SteerDelivery) (p : Bool × Worker)
      → (p.0 ≡ true → IsSettled (c.digest s) s.message_id d.response p.1)
      → Settles (answer_recorded d p)
  answer-Settles d (true, w) k r h =
      let same : d.response ≡ r = ground arith in
      subst (λ x. IsSettled (c.digest s) s.message_id x w) same (k refl)
  answer-Settles d (false, w) k r h = absurd (ground arith)

  -- A message that the ledger has.
  state-Settles :
      (f : LedgerFile) (d : SteerDelivery) (st : DeliveryState) (w : Worker)
      → find? (file_of s.message_id) w.ledger ≡ some f
      → f.stored ≡ Stored.delivery d
      → d.fingerprint ≡ c.digest s
      → d.state ≡ st
      → Settles (steer_state c s d st w)
  unfolding steer_state
  state-Settles f d DeliveryState.accepted w found is fp st r h =
      answer-Settles d (record_steer_input c s.run_id s.message_id d w)
        (λ ok. elim (record-on_file c s.run_id s.message_id d w ok) [
          | inl (idle, k) ↦ record {
            file = f;
            delivery = d;
            found = ap (λ v. find? (file_of s.message_id) v.ledger) k ∙ found;
            stored = is;
            same = fp;
            state = st;
            response = refl;
            recorded = idle;
          }
          | inr on ↦ flagged-IsSettled d d.response _ fp st refl on
        ])
        r h
  state-Settles f d DeliveryState.rejected w found is fp st r h = absurd (ground arith)
  state-Settles f d DeliveryState.pending w found is fp st r h = absurd (ground arith)

  pub again-Settles :
      (f : LedgerFile) (o : Stored) (w : Worker)
      → find? (file_of s.message_id) w.ledger ≡ some f
      → f.stored ≡ o
      → Settles (steer_again c s o w)
  unfolding steer_again
  again-Settles f Stored.unreadable w found is r h = absurd (ground arith)
  again-Settles f (Stored.delivery d) w found is r h =
      elim (Bool-cases (d.fingerprint == c.digest s)) [
        | inl e ↦
            let fp = (eq_iff d.fingerprint (c.digest s)).0 e in
            rw e (state-Settles f d d.state w found is fp refl r (rw e at h))
        | inr e ↦ absurd (ground (arith, e, h))
      ]

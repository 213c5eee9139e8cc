-- ===== src/Worker/Once.antt =====
-- A message reaches the app-server once, whatever fails on the way.
use codexbot.Common.{
  ℕ, suc, ◌≡◌, refl, ◌∙◌, ap, inl, inr, Bool, true, false, ◌||◌, String, List, [], ◌∷◌, Option,
  none, some, arith, eq_iff, eq_refl, ◌==◌, any, count, update, insert, Bool-cases, if◌then◌else◌,
}
use codexbot.Server.World.{SteerRequest}
use codexbot.Worker.Machine.{
  ActiveRun, DeliveryState, EventPayload, SteerDelivery, Stored, LedgerFile, TurnSteer, Worker,
  RpcReply, SaveOutcome, OutboxOutcome, Conditions,
}
use codexbot.Worker.Steer.{
  file_of, put_file, map_active, with_sequence, input_event, save_steer_delivery, flag_recorded,
  record_event, record_readable, record_input, record_steer_input, answer_recorded, steer_state,
  steer_again,
}
use codexbot.Worker.Handler.{
  remove_directory, append_active, log_event, finish_steer, record_accepted, is_invalid_request,
  answer_rejected, settle_reply, add_directory, with_prompt, accepted_delivery,
}

abbrev pub has_file : String → Worker → Bool
has_file id w = any (file_of id) w.ledger

abbrev pub call_of : String → TurnSteer → Bool
call_of id call = call.message_id == id

abbrev pub calls : String → Worker → ℕ
calls id w = count (call_of id) w.steered

-- What does not call keeps the ledger's files.
pub record Quiet (w w' : Worker) : Type 0 where
  pub files : (id : String) → has_file id w ≡ true → has_file id w' ≡ true
  pub same : w'.steered ≡ w.steered

pub Quiet-refl : (w : Worker) → Quiet w w
Quiet-refl w = record { files = λ id h. h; same = refl }

pub Quiet-trans : {a b c : Worker} → Quiet a b → Quiet b c → Quiet a c
Quiet-trans p q = record { files = λ id h. q.files id (p.files id h); same = q.same ∙ p.same }

-- What else a worker keeps does not count.
pub outside-Quiet : (w v : Worker) → v.ledger ≡ w.ledger → v.steered ≡ w.steered → Quiet w v
outside-Quiet w v p q = record { files = λ id h. ap (any (file_of id)) p ∙ h; same = q }

if-Quiet :
    {A : Type 0} (w : Worker) (b : Bool) (p q : A × Worker)
    → Quiet w p.1
    → Quiet w q.1
    → Quiet w (if b then p else q).1
if-Quiet w true p q h k = h
if-Quiet w false p q h k = k

any-replaced :
    (id : String) (f : LedgerFile) (fs : List LedgerFile)
    → any (file_of id) fs ≡ true
    → any (file_of id) (update (file_of f.message_id) (λ g. f) fs) ≡ true
any-replaced id f [] h = h
any-replaced id f (g ∷ fs) h = ground (
  arith,
  any-replaced id f fs,
  eq_iff g.message_id f.message_id,
  eq_iff g.message_id id,
  eq_iff f.message_id id,
)

any-inserted :
    (id : String) (f : LedgerFile) (fs : List LedgerFile)
    → (any (file_of id) fs || f.message_id == id) ≡ true
    → any (file_of id) (insert f fs) ≡ true
any-inserted id f [] h = ground arith
any-inserted id f (g ∷ fs) h = ground (arith, any-inserted id f fs)

put_file-kept :
    (id : String) (f : LedgerFile) (fs : List LedgerFile)
    → any (file_of id) fs ≡ true
    → any (file_of id) (put_file f fs) ≡ true
unfolding put_file
put_file-kept id f fs h = elim (Bool-cases (any (file_of f.message_id) fs)) [
  | inl e ↦ rw e (any-replaced id f fs h)
  | inr e ↦ rw e (any-inserted id f fs (ground (arith, h)))
]

put_file-there :
    (f : LedgerFile) (fs : List LedgerFile) → any (file_of f.message_id) (put_file f fs) ≡ true
unfolding put_file
put_file-there f fs = elim (Bool-cases (any (file_of f.message_id) fs)) [
  | inl e ↦ rw e (any-replaced f.message_id f fs e)
  | inr e ↦ rw e (any-inserted f.message_id f fs (ground (arith, eq_refl f.message_id)))
]

pub save-Quiet :
    (o : SaveOutcome) (id : String) (d : SteerDelivery) (w : Worker)
    → Quiet w (save_steer_delivery o id d w).1
unfolding save_steer_delivery
save-Quiet SaveOutcome.unsaved id d w = Quiet-refl w
save-Quiet SaveOutcome.saved id d w = record {
  files = λ i h. put_file-kept i _ w.ledger h;
  same = refl;
}
save-Quiet SaveOutcome.unsynced id d w = record {
  files = λ i h. put_file-kept i _ w.ledger h;
  same = refl;
}

-- A save without an error leaves the file.
pub save-there :
    (o : SaveOutcome) (id : String) (d : SteerDelivery) (w : Worker)
    → (save_steer_delivery o id d w).0 ≡ true
    → has_file id (save_steer_delivery o id d w).1 ≡ true
unfolding save_steer_delivery
save-there SaveOutcome.unsaved id d w h = absurd (ground arith)
save-there SaveOutcome.saved id d w h = put_file-there _ w.ledger
save-there SaveOutcome.unsynced id d w h = absurd (ground arith)

module _ (c : Conditions) (run_id id : String) (d : SteerDelivery) where
  flag-Quiet : (n : ℕ) (w : Worker) → Quiet w (flag_recorded c run_id id d n w).1
  unfolding flag_recorded
  flag-Quiet n w =
      let v = record w { active = map_active (with_sequence run_id n) w.active } in
      Quiet-trans {b = v} (outside-Quiet w v refl refl)
        (save-Quiet (c.saves "recorded") id (record d { recorded = true }) v)

  event-Quiet :
      (input : EventPayload) (n : ℕ) (found : Bool) (o : OutboxOutcome) (w : Worker)
      → Quiet w (record_event c run_id id d input n found o w).1
  unfolding record_event
  event-Quiet input n true OutboxOutcome.unsynced w = Quiet-refl w
  event-Quiet input n true _ w = flag-Quiet n w
  event-Quiet input n false OutboxOutcome.unwritable w = Quiet-refl w
  event-Quiet input n false OutboxOutcome.unsynced w = outside-Quiet w _ refl refl
  event-Quiet input n false _ w =
      let v = record w { outbox = insert (input_event run_id input (suc n)) w.outbox } in
      Quiet-trans {b = v} (outside-Quiet w v refl refl) (flag-Quiet (suc n) v)

  readable-Quiet :
      (input : EventPayload) (o : OutboxOutcome) (w : Worker)
      → Quiet w (record_readable c run_id id d input o w).1
  unfolding record_readable
  readable-Quiet input OutboxOutcome.unread w = Quiet-refl w
  readable-Quiet input _ w = event-Quiet input _ _ _ w

  record_input-Quiet :
      (o : Option EventPayload) (w : Worker) → Quiet w (record_input c run_id id d o w).1
  unfolding record_input
  record_input-Quiet none w = Quiet-refl w
  record_input-Quiet (some input) w = readable-Quiet input c.outbox w

  record_steer-Quiet : (w : Worker) → Quiet w (record_steer_input c run_id id d w).1
  unfolding record_steer_input
  record_steer-Quiet w =
      if-Quiet w d.recorded _ _ (Quiet-refl w) (record_input-Quiet d.input_event w)

append-Quiet :
    (c : Conditions) (run_id typ : String) (payload : EventPayload) (o : Option ActiveRun)
    (w : Worker)
    → Quiet w (append_active c run_id typ payload o w)
unfolding append_active
append-Quiet c run_id typ payload none w = Quiet-refl w
append-Quiet c run_id typ payload (some a) w = elim (Bool-cases (a.run_id == run_id)) [
  | inl e ↦ rw e (outside-Quiet w _ refl refl)
  | inr e ↦ rw e (Quiet-refl w)
]

pub remove-Quiet : (o : Option String) (w : Worker) → Quiet w (remove_directory o w)
remove-Quiet none w = Quiet-refl w
remove-Quiet (some d) w = outside-Quiet w _ refl refl

pub add-Quiet : (o : Option String) (w : Worker) → Quiet w (add_directory o w)
add-Quiet none w = Quiet-refl w
add-Quiet (some d) w = outside-Quiet w _ refl refl

answer-Quiet :
    (d : SteerDelivery) (v : Worker) (p : Bool × Worker)
    → Quiet v p.1
    → Quiet v (answer_recorded d p).1
answer-Quiet d v (true, w) h = h
answer-Quiet d v (false, w) h = h

rejected-Quiet :
    (text : String) (v : Worker) (p : Bool × Worker)
    → Quiet v p.1
    → Quiet v (answer_rejected text p).1
rejected-Quiet text v (true, w) h = h
rejected-Quiet text v (false, w) h = h

module _ (c : Conditions) (s : SteerRequest) where
  state-Quiet :
      (d : SteerDelivery) (st : DeliveryState) (w : Worker) → Quiet w (steer_state c s d st w).1
  unfolding steer_state
  state-Quiet d DeliveryState.accepted w =
      answer-Quiet d w _ (record_steer-Quiet c s.run_id s.message_id d w)
  state-Quiet d DeliveryState.rejected w = Quiet-refl w
  state-Quiet d DeliveryState.pending w = Quiet-refl w

  -- A message that the ledger has is not sent.
  pub again-Quiet : (f : Stored) (w : Worker) → Quiet w (steer_again c s f w).1
  unfolding steer_again
  again-Quiet Stored.unreadable w = Quiet-refl w
  again-Quiet (Stored.delivery d) w =
      if-Quiet w (d.fingerprint == c.digest s) _ _ (state-Quiet d d.state w) (Quiet-refl w)

  finish-Quiet :
      (d : SteerDelivery) (v : Worker) (p : Bool × Worker)
      → Quiet v p.1
      → Quiet v (finish_steer c s d p).1
  unfolding finish_steer log_event
  finish-Quiet d v (false, w) h = h
  finish-Quiet d v (true, w) h = Quiet-trans h (append-Quiet c s.run_id "run.steered" _ w.active w)

  accepted-Quiet :
      (d : SteerDelivery) (v : Worker) (p : Bool × Worker)
      → Quiet v p.1
      → Quiet v (record_accepted c s d p).1
  unfolding record_accepted
  accepted-Quiet d v (false, w) h = h
  accepted-Quiet d v (true, w) h =
      let u = record w { active = map_active (with_prompt s) w.active } in
      Quiet-trans h (
        Quiet-trans (outside-Quiet w u refl refl)
          (finish-Quiet d u _ (record_steer-Quiet c s.run_id s.message_id d u)))

  pub reply-Quiet :
      (directory : Option String) (after : ℕ) (reply : RpcReply) (w : Worker)
      → Quiet w (settle_reply c s directory after reply w).1
  unfolding settle_reply
  reply-Quiet directory after (RpcReply.turn id) w =
      accepted-Quiet (accepted_delivery c s id after) w _
        (save-Quiet (c.saves "settled") s.message_id (accepted_delivery c s id after) w)
  reply-Quiet directory after (RpcReply.rpc_error code text) w =
      if-Quiet w (is_invalid_request code) _ _
        (rejected-Quiet text w _ (
          Quiet-trans (remove-Quiet directory w)
            (save-Quiet (c.saves "settled") s.message_id _ (remove_directory directory w))))
        (Quiet-refl w)
  reply-Quiet directory after (RpcReply.broken text) w = Quiet-refl w

-- ===== src/Worker/Ledger.antt =====
-- Histories of a worker: attempts to steer under any conditions, restarts, and what its turns do
-- meanwhile. The ledger of steers outlives them.
use codexbot.Common.{
  ℕ, ◌≤◌, ◌≡◌, refl, sym, ◌∙◌, ap, inl, inr, Bool, true, false, not, String, List, [], ◌∷◌, ◌++◌,
  Option, none, some, arith, eq_iff, ◌==◌, any, count, find?, Bool-cases, count-append,
  if◌then◌else◌,
}
use codexbot.Domain.Attachments.{AttachmentError, validate_attachments}
use codexbot.Server.World.{SteerRequest}
use codexbot.Worker.Machine.{ActiveRun, LedgerFile, WorkerEvent, TurnSteer, Worker, Conditions}
use codexbot.Worker.Steer.{file_of, save_steer_delivery}
use codexbot.Worker.Handler.{
  add_directory, send_input, steer_saved, steer_new, steer_stored, pending_delivery, matches,
}
use codexbot.Worker.Handler.Checks.{is_incomplete, steer_checked, steer}
use codexbot.Worker.Once.{
  has_file, call_of, calls, Quiet, Quiet-trans, outside-Quiet, save-Quiet, save-there, remove-Quiet,
  add-Quiet, again-Quiet, reply-Quiet,
}

-- No message was sent more than once, and none without its file in the ledger.
pub record IsLedgered (w : Worker) : Type 0 where
  pub at : (id : String) → calls id w ≤ (if has_file id w then 1 else 0)

Quiet-IsLedgered : (w v : Worker) → Quiet w v → IsLedgered w → IsLedgered v
Quiet-IsLedgered w v q l = record {
  at = λ id.
      let same : calls id v ≡ calls id w = ap (count (call_of id)) q.same in
      let before = l.at id in
      elim (Bool-cases (has_file id w)) [
        | inl e ↦ rw (same, q.files id e) (rw e at before)
        | inr e ↦ let none_sent : calls id w ≤ 0 = rw e at before in ground (arith, same, none_sent)
      ];
}

find-none :
    (id : String) (fs : List LedgerFile)
    → find? (file_of id) fs ≡ none
    → any (file_of id) fs ≡ false
find-none id [] h = refl
find-none id (f ∷ fs) h = ground (arith, find-none id fs, h)

sent-IsLedgered :
    (w : Worker) (call : TurnSteer)
    → has_file call.message_id w ≡ true
    → calls call.message_id w ≡ 0
    → IsLedgered w
    → IsLedgered (record w { steered = w.steered ++ call ∷ [] })
sent-IsLedgered w call there fresh l = record {
  at = λ id.
      rw (count-append (call_of id) w.steered (call ∷ []))
        (elim (Bool-cases (call.message_id == id)) [
          | inl e ↦
              let same : call.message_id ≡ id = (eq_iff call.message_id id).0 e in
              let there' : has_file id w ≡ true = ap (λ i. has_file i w) (sym same) ∙ there in
              let fresh' : calls id w ≡ 0 = ap (λ i. calls i w) (sym same) ∙ fresh in
              rw (e, there', fresh') (omega arith)
          | inr e ↦ rw e (omega (arith, l.at id))
        ]);
}

module _ (c : Conditions) (s : SteerRequest) where
  send-IsLedgered :
      (inputs : List String) (directory : Option String) (after : ℕ) (p : Bool × Worker)
      → (p.0 ≡ true → has_file s.message_id p.1 ≡ true)
      → calls s.message_id p.1 ≡ 0
      → IsLedgered p.1
      → IsLedgered (send_input c s inputs directory after p).1
  unfolding send_input
  send-IsLedgered inputs directory after (false, w) there fresh l =
      Quiet-IsLedgered w _ (remove-Quiet directory w) l
  send-IsLedgered inputs directory after (true, w) there fresh l =
      let call : TurnSteer = record {
        thread_id = s.thread_id;
        expected_turn_id = s.expected_turn_id;
        message_id = s.message_id;
        input = inputs;
      } in
      let sent = record w { steered = w.steered ++ call ∷ [] } in
      Quiet-IsLedgered sent _ (reply-Quiet c s directory after (c.turn_steer call) sent)
        (sent-IsLedgered w call (there refl) fresh l)

  saved-IsLedgered :
      (o : Option (List String × Option String)) (w : Worker)
      → has_file s.message_id w ≡ false
      → IsLedgered w
      → IsLedgered (steer_saved c s o w).1
  unfolding steer_saved
  saved-IsLedgered none w absent l = l
  saved-IsLedgered (some (inputs, directory)) w absent l =
      let u = add_directory directory w in
      let d = pending_delivery (c.digest s) in
      let p = save_steer_delivery (c.saves "pending") s.message_id d u in
      let q : Quiet w p.1 =
        Quiet-trans (add-Quiet directory w) (save-Quiet (c.saves "pending") s.message_id d u) in
      let before = l.at s.message_id in
      let none_sent : calls s.message_id w ≤ 0 = rw absent at before in
      let fresh : calls s.message_id p.1 ≡ 0 =
        ap (count (call_of s.message_id)) q.same ∙ (omega (arith, none_sent)) in
      send-IsLedgered inputs directory _ p (save-there (c.saves "pending") s.message_id d u) fresh
        (Quiet-IsLedgered w p.1 q l)

  stored-IsLedgered :
      (o : Option LedgerFile) (w : Worker)
      → find? (file_of s.message_id) w.ledger ≡ o
      → IsLedgered w
      → IsLedgered (steer_stored c s o w).1
  unfolding steer_stored steer_new
  stored-IsLedgered none w found l = elim (Bool-cases (matches s w.active)) [
    | inl e ↦ rw e (saved-IsLedgered (c.materialized s) w (find-none s.message_id w.ledger found) l)
    | inr e ↦ rw e l
  ]
  stored-IsLedgered (some f) w found l = Quiet-IsLedgered w _ (again-Quiet c s f.stored w) l

  checked-IsLedgered :
      (o : Option AttachmentError) (w : Worker)
      → IsLedgered w
      → IsLedgered (steer_checked c s o w).1
  unfolding steer_checked
  checked-IsLedgered (some e) w l = l
  checked-IsLedgered none w l =
      let stored = stored-IsLedgered (find? (file_of s.message_id) w.ledger) w refl l in
      elim (Bool-cases (not (c.is_uuid s.message_id))) [
        | inl e ↦ rw e l
        | inr e ↦ elim (Bool-cases (not (c.is_uuid s.run_id))) [
          | inl e' ↦ rw (e, e') l
          | inr e' ↦ elim (Bool-cases (not c.is_readable)) [
            | inl e'' ↦ rw (e, e', e'') l
            | inr e'' ↦ rw (e, e', e'') stored
          ]
        ]
      ]

  pub steer-IsLedgered : (w : Worker) → IsLedgered w → IsLedgered (steer c s w).1
  unfolding steer
  steer-IsLedgered w l = elim (Bool-cases (is_incomplete s)) [
    | inl e ↦ rw e l
    | inr e ↦ rw e (checked-IsLedgered (validate_attachments c.decoded s.attachments) w l)
  ]

pub data Step : Type 0 where
  attempt : Conditions → SteerRequest → Step
  -- a restart, which forgets the active run
  restart : Step
  -- what turns make of the active run and of the outboxes
  elsewhere : Option ActiveRun → List WorkerEvent → Step

unfoldable pub worker_step : Worker → Step → Worker
worker_step w (attempt c s) = (steer c s w).1
worker_step w restart = record w { active = none }
worker_step w (elsewhere active outbox) = record w { active = active; outbox = outbox }

unfoldable pub run_steps : Worker → List Step → Worker
unfolding worker_step
run_steps w [] = w
run_steps w (o ∷ os) = run_steps (worker_step w o) os

worker_step-IsLedgered : (w : Worker) (o : Step) → IsLedgered w → IsLedgered (worker_step w o)
unfolding worker_step
worker_step-IsLedgered w (attempt c s) l = steer-IsLedgered c s w l
worker_step-IsLedgered w restart l = Quiet-IsLedgered w _ (outside-Quiet w _ refl refl) l
worker_step-IsLedgered w (elsewhere active outbox) l =
    Quiet-IsLedgered w _ (outside-Quiet w _ refl refl) l

pub run_steps-IsLedgered :
    (w : Worker) (os : List Step) → IsLedgered w → IsLedgered (run_steps w os)
unfolding run_steps
run_steps-IsLedgered w [] l = l
run_steps-IsLedgered w (o ∷ os) l =
    run_steps-IsLedgered (worker_step w o) os (worker_step-IsLedgered w o l)

-- Over any history of a worker that has made no turn/steer call, whatever its saves, its outboxes
-- and the app-server do, at most one call is made for a message.
pub steer_at_most_once :
    (w : Worker) (os : List Step) (id : String) → w.steered ≡ [] → calls id (run_steps w os) ≤ 1
steer_at_most_once w os id fresh =
    let start : IsLedgered w = record { at = λ i. rw fresh (omega arith) } in
    let final = (run_steps-IsLedgered w os start).at id in
    elim (Bool-cases (has_file id (run_steps w os))) [
      | inl e ↦ rw e at final
      | inr e ↦ let low : calls id (run_steps w os) ≤ 0 = rw e at final in omega (arith, low)
    ]

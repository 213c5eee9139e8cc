-- ===== src/Worker/Retry/Again.antt =====
-- A retry of a steer that succeeded gets the same answer.
use mathlib.Core.Path.{subst}
use codexbot.Common.{
  ◌≡◌, refl, sym, ap, ◌∙◌, inl, inr, true, false, String, Option, none, some, arith, find?,
  Bool-cases, Option-cases,
}
use codexbot.Domain.Attachments.{AttachmentError, validate_attachments}
use codexbot.Server.World.{SteerRequest}
use codexbot.Worker.Machine.{ActiveRun, SteerResponse, Worker, Conditions, SteerAnswer}
use codexbot.Worker.Steer.{file_of}
use codexbot.Worker.Handler.{steer_stored}
use codexbot.Worker.Handler.Checks.{is_incomplete, steer_checked, steer}
use codexbot.Worker.Retry.{response_of}
use codexbot.Worker.Retry.Settled.{IsSettled, settled-again}
use codexbot.Worker.Retry.Fresh.{stored-Settles}

-- Conditions under which a request passes the same checks, and the ledger can be read.
pub record Retries (c c' : Conditions) (s : SteerRequest) : Type 0 where
  pub digest : c'.digest s ≡ c.digest s
  pub uuid : c'.is_uuid ≡ c.is_uuid
  pub decoded : c'.decoded ≡ c.decoded
  pub readable : c'.is_readable ≡ true

abbrev Passes : Conditions → SteerRequest → Type 0
Passes c s =
    (is_incomplete s ≡ false)
    × (validate_attachments c.decoded s.attachments ≡ none)
    × (c.is_uuid s.message_id ≡ true)
    × (c.is_uuid s.run_id ≡ true)

checked-stored :
    (c : Conditions) (s : SteerRequest) (w : Worker)
    → c.is_uuid s.message_id ≡ true
    → c.is_uuid s.run_id ≡ true
    → c.is_readable ≡ true
    → steer_checked c s none w ≡ steer_stored c s (find? (file_of s.message_id) w.ledger) w
unfolding steer_checked
checked-stored c s w m r k = rw (m, r, k) refl

steer-stored :
    (c : Conditions) (s : SteerRequest) (w : Worker)
    → Passes c s
    → c.is_readable ≡ true
    → steer c s w ≡ steer_stored c s (find? (file_of s.message_id) w.ledger) w
unfolding steer
steer-stored c s w (i, v, m, r) k = rw (i, v) (checked-stored c s w m r k)

-- An answer of success is to a request that passes the checks.
checked-Passes :
    (c : Conditions) (s : SteerRequest) (w : Worker) (r : SteerResponse)
    → response_of (steer_checked c s none w).0 ≡ some r
    → (c.is_uuid s.message_id ≡ true) × (c.is_uuid s.run_id ≡ true) × (c.is_readable ≡ true)
unfolding steer_checked
checked-Passes c s w r h = elim (Bool-cases (c.is_uuid s.message_id)) [
  | inr e ↦ absurd (ground (arith, e, h))
  | inl e ↦ elim (Bool-cases (c.is_uuid s.run_id)) [
    | inr e' ↦ absurd (ground (arith, e, e', h))
    | inl e' ↦ elim (Bool-cases c.is_readable) [
      | inr k ↦ absurd (ground (arith, e, e', k, h))
      | inl k ↦ (e, e', k)
    ]
  ]
]

refused_error :
    (c : Conditions) (s : SteerRequest) (e : AttachmentError) (w : Worker)
    → response_of (steer_checked c s (some e) w).0 ≡ none
unfolding steer_checked
refused_error c s e w = refl

steer-Passes :
    (c : Conditions) (s : SteerRequest) (w : Worker) (r : SteerResponse)
    → response_of (steer c s w).0 ≡ some r
    → Passes c s × (c.is_readable ≡ true)
unfolding steer
steer-Passes c s w r h = elim (Bool-cases (is_incomplete s)) [
  | inl i ↦ absurd (ground (arith, i, h))
  | inr i ↦ elim (Option-cases (validate_attachments c.decoded s.attachments)) [
    | inr (e, v) ↦
        let answered : response_of (steer_checked c s (some e) w).0 ≡ some r = rw (i, v) at h in
        absurd (ground (arith, answered, refused_error c s e w))
    | inl v ↦ let (m, run, k) = checked-Passes c s w r (rw (i, v) at h) in ((i, v, m, run), k)
  ]
]

steer-IsSettled :
    (c : Conditions) (s : SteerRequest) (w : Worker) (r : SteerResponse)
    → response_of (steer c s w).0 ≡ some r
    → IsSettled (c.digest s) s.message_id r (steer c s w).1
steer-IsSettled c s w r h =
    let (passes, k) = steer-Passes c s w r h in
    let same = steer-stored c s w passes k in
    let o = find? (file_of s.message_id) w.ledger in
    subst (λ p. IsSettled (c.digest s) s.message_id r p.1) (sym same)
      (stored-Settles c s o w refl r (ap (λ p. response_of p.0) (sym same) ∙ h))

moved-IsSettled :
    (fp fp' id : String) (r : SteerResponse) (w : Worker) (active : Option ActiveRun)
    → fp' ≡ fp
    → IsSettled fp id r w
    → IsSettled fp' id r (record w { active = active })
moved-IsSettled fp fp' id r w active e p = record {
  file = p.file;
  delivery = p.delivery;
  found = p.found;
  stored = p.stored;
  same = p.same ∙ sym e;
  state = p.state;
  response = p.response;
  recorded = p.recorded;
}

retry-Passes : (c c' : Conditions) (s : SteerRequest) → Retries c c' s → Passes c s → Passes c' s
retry-Passes c c' s again (i, v, m, run) = (
  i,
  ap (λ d. validate_attachments d s.attachments) again.decoded ∙ v,
  ap (λ f. f s.message_id) again.uuid ∙ m,
  ap (λ f. f s.run_id) again.uuid ∙ run,
)

-- A retry of a request that was answered with success gets the same answer and changes nothing,
-- whatever has become of the active run, of the app-server and of the disk but for the reading of
-- the ledger.
pub steer_retry :
    (c c' : Conditions) (s : SteerRequest) (w : Worker) (r : SteerResponse)
    → (steer c s w).0 ≡ SteerAnswer.steered r
    → Retries c c' s
    → (active : Option ActiveRun)
    → steer c' s (record (steer c s w).1 { active = active })
      ≡ (SteerAnswer.steered r, record (steer c s w).1 { active = active })
steer_retry c c' s w r h again active =
    let answered : response_of (steer c s w).0 ≡ some r = ap response_of h in
    let (passes, k) = steer-Passes c s w r answered in
    let v = (steer c s w).1 in
    let u = record v { active = active } in
    steer-stored c' s u (retry-Passes c c' s again passes) again.readable
    ∙ settled-again c' s r u (
        moved-IsSettled (c.digest s) (c'.digest s) s.message_id r v active again.digest
          (steer-IsSettled c s w r answered))

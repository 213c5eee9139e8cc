-- ===== src/Worker/Approvals/Granted.antt =====
-- When the worker grants a request.
use codexbot.Common.{
  ◌≡◌, refl, sym, ap, ◌∙◌, ◌⊎◌, inl, inr, Bool, true, false, not, ◌||◌, eq_iff, String, Option,
  none, some, arith, is_empty, ◌==◌, Bool-cases,
}
use codexbot.Domain.Records.{Permission}
use codexbot.Worker.Machine.{ActiveRun}
use codexbot.Worker.Approvals.{
  Method, Decision, Origin, Elicitation, ApprovalRequest, ApprovalReply, Checked, passed, problem,
  is_tool_confirmation, accept_form, accept_decoded, mcp_tool_approval_response,
  respond_permissions, review_permissions, respond_approval,
}
use codexbot.Worker.Approvals.Decide.{
  is_from_active, same_turn, Moment, is_alive, is_mcp, is_full, by_permission, by_form, decide,
  decide_at, log_decision, handle_current, handle_approval,
}

-- An answer that allows something.
abbrev pub is_grant : ApprovalReply → Bool
is_grant (ApprovalReply.command_decision Decision.accept) = true
is_grant (ApprovalReply.command_decision Decision.accept_for_session) = true
is_grant (ApprovalReply.command_decision d) = false
is_grant (ApprovalReply.file_decision Decision.accept) = true
is_grant (ApprovalReply.file_decision Decision.accept_for_session) = true
is_grant (ApprovalReply.file_decision d) = false
is_grant (ApprovalReply.granted_permissions ps scope) = not (is_empty ps)
is_grant (ApprovalReply.elicitation_reply action content meta) = action == "accept"

abbrev pub grants : Checked ApprovalReply → Bool
grants (passed r) = is_grant r
grants (problem e) = false

-- A refusal grants nothing, whatever the method.
decline_grants :
    (req : ApprovalRequest) (m : Method) → grants (respond_approval req m Decision.decline) ≡ false
unfolding respond_approval review_permissions respond_permissions mcp_tool_approval_response
decline_grants req Method.command = refl
decline_grants req Method.file = refl
decline_grants req Method.permission_review = refl
decline_grants req Method.mcp_elicitation = refl
decline_grants req (Method.other name) = refl

log-reply :
    (sent : Bool) (d : Decision × String) (r : Checked ApprovalReply)
    → (log_decision sent d r).reply ≡ r
unfolding log_decision
log-reply sent (d, reason) (passed r) = refl
log-reply sent (d, reason) (problem e) = refl

-- A form that is accepted is a tool's confirmation.
form_confirms :
    (p : Elicitation) (r : ApprovalReply)
    → accept_form Decision.accept p ≡ passed r
    → is_tool_confirmation p ≡ true
unfolding accept_form
form_confirms p r h = elim (Bool-cases (is_tool_confirmation p)) [
  | inl e ↦ e
  | inr e ↦ absurd (ground (arith, e, h))
]

abbrev pub IsConfirmation : Option Elicitation → Type 0
IsConfirmation none = ⊥
IsConfirmation (some p) = is_tool_confirmation p ≡ true

decoded_confirms :
    (o : Option Elicitation) (r : ApprovalReply)
    → accept_decoded Decision.accept o ≡ passed r
    → IsConfirmation o
unfolding accept_decoded
decoded_confirms none r h = absurd (ground arith)
decoded_confirms (some p) r h = form_confirms p r h

-- A request that comes from a run: from its thread, while it runs or starts, and from its turn if
-- the request names one and the run has one.
pub record ComesFrom (o : Option Origin) (run : ActiveRun) : Type 0 where
  pub origin : Origin
  pub given : o ≡ some origin
  pub running : (run.status ≡ "running") ⊎ (run.status ≡ "starting")
  pub thread : origin.thread_id ≡ run.thread_id
  pub turn :
      (named : String) → origin.turn_id ≡ some named → (run.turn_id ≡ "") ⊎ (named ≡ run.turn_id)

or_cases : (a b : Bool) → (a || b) ≡ true → (a ≡ true) ⊎ (b ≡ true)
or_cases true b h = inl refl
or_cases false b h = inr h

same_turn-named :
    (a : ActiveRun) (o : Option String)
    → same_turn a o ≡ true
    → (named : String) → o ≡ some named
    → (a.turn_id ≡ "") ⊎ (named ≡ a.turn_id)
same_turn-named a none h named e = absurd (ground arith)
same_turn-named a (some x) h named e =
    let same : x ≡ named = ground (arith, e) in
    elim (or_cases (a.turn_id == "") (x == a.turn_id) h) [
      | inl k ↦ inl ((eq_iff a.turn_id "").0 k)
      | inr k ↦ inr (sym same ∙ (eq_iff x a.turn_id).0 k)
    ]

from_active-ComesFrom :
    (o : Option Origin) (a : ActiveRun) → is_from_active o (some a) ≡ true → ComesFrom o a
from_active-ComesFrom none a h = absurd (ground arith)
from_active-ComesFrom (some o) a h = record {
  origin = o;
  given = refl;
  running = elim (or_cases (a.status == "running") (a.status == "starting") (ground arith)) [
    | inl k ↦ inl ((eq_iff a.status "running").0 k)
    | inr k ↦ inr ((eq_iff a.status "starting").0 k)
  ];
  thread = (eq_iff o.thread_id a.thread_id).0 (ground arith);
  turn = same_turn-named a o.turn_id (ground arith);
}

-- What makes the worker grant a request.
pub record IsGranted (req : ApprovalRequest) (active : Option ActiveRun) (m : Moment) : Type 0 where
  pub run : ActiveRun
  pub is_active : active ≡ some run
  pub from : ComesFrom req.origin run
  pub full : run.permission ≡ Permission.full_access
  pub alive : is_alive m ≡ true
  pub form : is_mcp req.method ≡ true → IsConfirmation req.elicitation

abbrev Accepts : ApprovalRequest → ActiveRun → Moment → Type 0
Accepts req a m =
    (is_full a.permission ≡ true)
    × (is_alive m ≡ true)
    × (is_mcp req.method ≡ true → IsConfirmation req.elicitation)

abbrev is_decline : Decision → Bool
is_decline Decision.decline = true
is_decline _ = false

is_full-access : (p : Permission) → is_full p ≡ true → p ≡ Permission.full_access
is_full-access Permission.full_access h = refl
is_full-access Permission.auto h = absurd (ground arith)

by_permission-full : (p : Permission) → is_decline (by_permission p).0 ≡ false → is_full p ≡ true
by_permission-full Permission.full_access h = refl
by_permission-full Permission.auto h = absurd (ground arith)

by_form-passed :
    (p : Permission) (o : Option Elicitation) (c : Checked ApprovalReply)
    → accept_decoded Decision.accept o ≡ c
    → is_decline (by_form p c).0 ≡ false
    → (is_full p ≡ true) × IsConfirmation o
by_form-passed p o (passed r) e h = (by_permission-full p h, decoded_confirms o r e)
by_form-passed p o (problem x) e h = absurd (ground arith)

decide-accepts :
    (req : ApprovalRequest) (a : ActiveRun)
    → is_decline (decide req a).0 ≡ false
    → (is_full a.permission ≡ true) × (is_mcp req.method ≡ true → IsConfirmation req.elicitation)
unfolding decide mcp_tool_approval_response
decide-accepts req a h = elim (Bool-cases (is_mcp req.method)) [
  | inl e ↦
      let (full, form) =
        by_form-passed a.permission req.elicitation (accept_decoded Decision.accept req.elicitation)
          refl (rw e at h) in
      (full, λ _. form)
  | inr e ↦ (by_permission-full a.permission (rw e at h), λ k. absurd (ground (arith, e, k)))
]

decide_at-Accepts :
    (req : ApprovalRequest) (a : ActiveRun) (m : Moment)
    → is_decline (decide_at req a m).0 ≡ false
    → Accepts req a m
unfolding decide_at
decide_at-Accepts req a m h = elim (Bool-cases (is_alive m)) [
  | inl e ↦ let (full, form) = decide-accepts req a (rw e at h) in (full, e, form)
  | inr e ↦ absurd (ground (arith, e, h))
]

is_decline-eq : (d : Decision) → is_decline d ≡ true → d ≡ Decision.decline
is_decline-eq Decision.decline h = refl
is_decline-eq _ h = absurd (ground arith)

current-Accepts :
    (req : ApprovalRequest) (a : ActiveRun) (m : Moment) (sent : Bool)
    → grants (handle_current req a m sent).reply ≡ true
    → Accepts req a m
unfolding handle_current
current-Accepts req a m sent h =
    let d = (decide_at req a m).0 in
    let granted : grants (respond_approval req req.method d) ≡ true =
      ap grants (sym (log-reply sent (decide_at req a m) (respond_approval req req.method d)))
      ∙ h in
    elim (Bool-cases (is_decline d)) [
      | inl e ↦
          let refused : grants (respond_approval req req.method d) ≡ false =
            ap (λ x. grants (respond_approval req req.method x)) (is_decline-eq d e)
            ∙ decline_grants req req.method in
          absurd (ground (arith, granted, refused))
      | inr e ↦ decide_at-Accepts req a m e
    ]

-- The worker grants a request only if it comes from the thread of the run that was active, which
-- was running or starting; if the request names a turn and the run has one, they are the same; the
-- agent has full access; and the same run is still running or starting, not cancelled, when the
-- decision is made. An elicitation is granted only if it is the empty form by which a tool's use is
-- confirmed.
pub approval-IsGranted :
    (req : ApprovalRequest) (active : Option ActiveRun) (m : Moment) (sent : Bool)
    → grants (handle_approval req active m sent).reply ≡ true
    → IsGranted req active m
unfolding handle_approval
approval-IsGranted req none m sent h = absurd (ground (arith, decline_grants req req.method, h))
approval-IsGranted req (some a) m sent h = elim (Bool-cases (is_from_active req.origin (some a))) [
  | inl e ↦
      let (full, alive, form) = current-Accepts req a m sent (rw e at h) in
      record {
        run = a;
        is_active = refl;
        from = from_active-ComesFrom req.origin a e;
        full = is_full-access a.permission full;
        alive = alive;
        form = form;
      }
  | inr e ↦
      let declined : grants (respond_approval req req.method Decision.decline) ≡ true = rw e at h in
      absurd (ground (arith, decline_grants req req.method, declined))
]

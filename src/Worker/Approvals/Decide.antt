-- ===== src/Worker/Approvals/Decide.antt =====
-- internal/agentworker/approvals.go: the decision on a request for permission.
use codexbot.Common.{
  Bool, true, false, not, ◌&&◌, ◌||◌, String, Option, none, some, ◌==◌, if◌then◌else◌,
}
use codexbot.Domain.Records.{Permission}
use codexbot.Worker.Machine.{ActiveRun}
use codexbot.Worker.Approvals.{
  Method, Decision, Origin, ApprovalRequest, ApprovalReply, Checked, mcp_tool_approval_response,
  respond_approval, passed, problem,
}

-- isRunning
abbrev pub is_active_run : ActiveRun → Bool
is_active_run a = a.status == "running" || a.status == "starting"

-- A turn that the request names is the run's, if the run has one.
abbrev pub same_turn : ActiveRun → Option String → Bool
same_turn a none = true
same_turn a (some turn) = a.turn_id == "" || turn == a.turn_id

abbrev pub is_from : Origin → ActiveRun → Bool
is_from o a = is_active_run a && o.thread_id == a.thread_id && same_turn a o.turn_id

-- The request comes from the run that is active.
abbrev pub is_from_active : Option Origin → Option ActiveRun → Bool
is_from_active (some o) (some a) = is_from o a
is_from_active _ _ = false

-- What is there when the decision is made: the run is the same object, it is running, and its
-- context is not cancelled.
pub record Moment : Type 0 where
  pub is_same_run : Bool
  pub active : Option ActiveRun
  pub is_cancelled : Bool

abbrev pub is_alive : Moment → Bool
is_alive m =
    m.is_same_run && elim m.active [ none ↦ false | some a ↦ is_active_run a ] && not m.is_cancelled

abbrev pub is_mcp : Method → Bool
is_mcp Method.mcp_elicitation = true
is_mcp _ = false

abbrev pub is_full : Permission → Bool
is_full Permission.full_access = true
is_full Permission.auto = false

abbrev pub by_permission : Permission → Decision × String
by_permission Permission.full_access =
    (Decision.accept, "Allowed by the agent's Full Access setting.")
by_permission Permission.auto = (
  Decision.decline,
  "Codex automatic review did not authorize this request. Manual approval is unavailable in Auto mode.",
)

abbrev pub by_form : Permission → Checked ApprovalReply → Decision × String
by_form permission (passed r) = by_permission permission
by_form permission (problem e) = (Decision.decline, e)

-- The decision and its reason, before the last look at the run.
unfoldable pub decide : ApprovalRequest → ActiveRun → Decision × String
unfolding mcp_tool_approval_response
decide req a =
    if is_mcp req.method
    then by_form a.permission (mcp_tool_approval_response req Decision.accept)
    else by_permission a.permission

unfoldable pub decide_at : ApprovalRequest → ActiveRun → Moment → Decision × String
unfolding decide
decide_at req a m =
    if is_alive m
    then decide req a
    else (Decision.decline, "The run ended before the permission response was sent.")

-- What the worker does with a request: the answer, and the event of the decision that is logged
-- once the answer was sent.
pub record Handled : Type 0 where
  pub reply : Checked ApprovalReply
  pub logged : Option (String × String)

abbrev pub event_type : Decision → String
event_type Decision.accept = "approval.autoAccepted"
event_type _ = "approval.autoDeclined"

-- The answer by its check, and by whether it could be sent.
unfoldable pub log_decision : Bool → Decision × String → Checked ApprovalReply → Handled
log_decision sent (d, reason) (passed r) = record {
  reply = passed r;
  logged =
      if sent
      then some (event_type d, reason)
      else some ("warning", "Could not send automatic permission decision");
}
log_decision sent (d, reason) (problem e) = record {
  reply = problem e;
  logged = some ("warning", "Could not send automatic permission decision");
}

unfoldable pub handle_current : ApprovalRequest → ActiveRun → Moment → Bool → Handled
unfolding log_decision respond_approval decide_at
handle_current req a m sent =
    log_decision sent (decide_at req a m) (respond_approval req req.method (decide_at req a m).0)

-- handleApproval, with the run that is active when the request comes, what is there when the
-- decision is made, and whether the answer can be sent.
unfoldable pub handle_approval : ApprovalRequest → Option ActiveRun → Moment → Bool → Handled
unfolding handle_current
handle_approval req none m sent = record {
  reply = respond_approval req req.method Decision.decline;
  logged = none;
}
handle_approval req (some a) m sent =
    if is_from_active req.origin (some a)
    then handle_current req a m sent
    else record { reply = respond_approval req req.method Decision.decline; logged = none }

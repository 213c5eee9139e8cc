-- ===== src/Worker/Approvals.antt =====
-- internal/agentworker/approvals.go, with the answers of internal/appserver/methods.go: what the
-- worker replies when the app-server asks for permission. No one is asked: an agent with full
-- access grants, and every other request is declined. Children have the
-- decision and the proof.
pub mod Decide
pub mod Granted
use codexbot.Common.{
  Bool, true, false, not, ◌&&◌, ◌||◌, String, List, [], ◌∷◌, Option, none, some, is_empty, any,
  ◌==◌, if◌then◌else◌,
}
use codexbot.Domain.Text.{concat}
use codexbot.Domain.Records.{Permission}
use codexbot.Worker.Machine.{ActiveRun}

pub data Method : Type 0 where
  command file permission_review mcp_elicitation : Method
  other : String → Method

pub data Decision : Type 0 where
  accept accept_for_session decline cancel : Decision

-- The fields threadId and turnId of a request.
pub record Origin : Type 0 where
  pub thread_id : String
  pub turn_id : Option String

-- The fields of _meta and of requestedSchema that the code reads; a map may be nil.
pub record ElicitationMeta : Type 0 where
  pub kind : String
  pub persist : List String

pub record ElicitationSchema : Type 0 where
  pub typ : String
  pub properties : Option (List String)
  pub required : List String

pub record Elicitation : Type 0 where
  pub server_name : String
  pub mode : String
  pub meta : Option ElicitationMeta
  pub schema : Option ElicitationSchema

-- A request with what its parameters decode to, by the type that they are decoded into.
pub record ApprovalRequest : Type 0 where
  pub method : Method
  pub origin : Option Origin
  pub elicitation : Option Elicitation
  pub permissions : Option (List (String × String))

-- The answer that is sent.
pub data ApprovalReply : Type 0 where
  command_decision file_decision : Decision → ApprovalReply
  granted_permissions : List (String × String) → String → ApprovalReply
  elicitation_reply : String → String → String → ApprovalReply

pub data Checked {ℓ} (A : Type ℓ) : Type ℓ where
  passed : A → Checked A
  problem : String → Checked A

abbrev pub is_object : ElicitationSchema → Bool
is_object s =
    s.typ == "object"
    && elim s.properties [ none ↦ false | some ps ↦ is_empty ps ]
    && is_empty s.required

-- The empty form by which Codex confirms the use of a tool.
abbrev pub is_tool_form : Elicitation → Option ElicitationMeta → Option ElicitationSchema → Bool
is_tool_form p (some m) (some s) = m.kind == "mcp_tool_call" && p.mode == "form" && is_object s
is_tool_form p _ _ = false

abbrev pub is_tool_confirmation : Elicitation → Bool
is_tool_confirmation p = is_tool_form p p.meta p.schema

abbrev pub unsupported_form : Elicitation → String
unsupported_form p =
    concat "MCP server "
      (concat p.server_name " requested an input form that Codexbot does not support")

abbrev pub persists : Option ElicitationMeta → Bool
persists none = false
persists (some m) = any (λ scope. scope == "session") m.persist

-- The reply to an elicitation that may be accepted. The text of a decoder's error is not kept.
unfoldable pub accept_form : Decision → Elicitation → Checked ApprovalReply
accept_form Decision.accept_for_session p =
    if not (is_tool_confirmation p)
    then problem (unsupported_form p)
    else if persists p.meta
    then passed (ApprovalReply.elicitation_reply "accept" "{}" "{\"persist\":\"session\"}")
    else problem "MCP tool approval does not offer session persistence; use Accept"
accept_form _ p =
    if is_tool_confirmation p
    then passed (ApprovalReply.elicitation_reply "accept" "{}" "")
    else problem (unsupported_form p)

unfoldable pub accept_decoded : Decision → Option Elicitation → Checked ApprovalReply
unfolding accept_form
accept_decoded d none = problem "invalid parameters"
accept_decoded d (some p) = accept_form d p

-- mcpToolApprovalResponse
unfoldable pub mcp_tool_approval_response : ApprovalRequest → Decision → Checked ApprovalReply
unfolding accept_decoded
mcp_tool_approval_response req Decision.decline =
    passed (ApprovalReply.elicitation_reply "decline" "" "")
mcp_tool_approval_response req Decision.cancel =
    passed (ApprovalReply.elicitation_reply "cancel" "" "")
mcp_tool_approval_response req d = accept_decoded d req.elicitation

-- RespondPermissionsApproval: the keys that may be granted
abbrev pub is_grantable : String × String → Bool
is_grantable p = p.0 == "network" || p.0 == "fileSystem"

unfoldable pub respond_permissions : List (String × String) → String → Checked ApprovalReply
respond_permissions permissions scope =
    if any (λ p. not (is_grantable p)) permissions
    then problem "unsupported granted permissions key"
    else passed (ApprovalReply.granted_permissions permissions scope)

unfoldable pub grant_permissions : Option (List (String × String)) → String → Checked ApprovalReply
unfolding respond_permissions
grant_permissions none scope = problem "invalid parameters"
grant_permissions (some permissions) scope = respond_permissions permissions scope

unfoldable pub review_permissions : ApprovalRequest → Decision → Checked ApprovalReply
unfolding grant_permissions
review_permissions req Decision.accept = grant_permissions req.permissions "turn"
review_permissions req Decision.accept_for_session = grant_permissions req.permissions "session"
review_permissions req _ = respond_permissions [] "turn"

-- respondApproval: the answer that is sent, or why none is
unfoldable pub respond_approval : ApprovalRequest → Method → Decision → Checked ApprovalReply
unfolding review_permissions mcp_tool_approval_response
respond_approval req Method.command d = passed (ApprovalReply.command_decision d)
respond_approval req Method.file d = passed (ApprovalReply.file_decision d)
respond_approval req Method.permission_review d = review_permissions req d
respond_approval req Method.mcp_elicitation d = mcp_tool_approval_response req d
respond_approval req (Method.other name) d = problem (concat "unsupported approval method " name)

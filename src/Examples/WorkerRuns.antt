-- ===== src/Examples/WorkerRuns.antt =====
-- Examples of the agent worker and of attachments.
use codexbot.Common.{
  ℕ, ◌≤◌, ◌≡◌, refl, true, false, String, List, [], ◌∷◌, Option, none, some, All, length,
  if◌then◌else◌, ◌==◌,
}
use codexbot.Domain.Attachments.{
  Attachment, validate_attachments, validate_sound, IsGood, total_bytes, max_attachments,
  max_attachment_bytes,
}
use codexbot.Domain.Records.{Permission}
use codexbot.Server.World.{SteerRequest}
use codexbot.Worker.Machine.{
  ActiveRun, SteerAnswer, SteerResponse, Worker, Conditions, RpcReply, SaveOutcome, OutboxOutcome,
}
use codexbot.Worker.Once.{calls}
use codexbot.Worker.Handler.Checks.{steer}
use codexbot.Worker.Retry.Again.{Retries, steer_retry}
use codexbot.Worker.Approvals.{Method, ApprovalRequest}
use codexbot.Worker.Approvals.Decide.{Moment, handle_approval}
use codexbot.Worker.Approvals.Granted.{IsGranted, grants, approval-IsGranted}
use codexbot.Worker.Ledger.{Step, run_steps, steer_at_most_once}

abbrev decoded : String → Option ℕ
decoded s = if s == "!" then none else some 3

abbrev picture : Attachment
picture = record { name = "a.png"; contents = "AAAA" }

picture_passes : validate_attachments decoded (picture ∷ []) ≡ none
unfolding validate_attachments codexbot.Domain.Text.is_blank codexbot.Domain.Text.byte_length
picture_passes = refl

validate_sound_example :
    All (IsGood decoded) (picture ∷ [])
    × (length (picture ∷ []) ≤ max_attachments)
    × (total_bytes decoded (picture ∷ []) ≤ max_attachment_bytes)
validate_sound_example = validate_sound decoded (picture ∷ []) picture_passes

abbrev steered_run : ActiveRun
steered_run = record {
  run_id = "run";
  thread_id = "thread";
  turn_id = "turn";
  permission = Permission.auto;
  prompt = "Hello.";
  sequence = 7;
  status = "running";
  error = "";
}

abbrev idle_worker : Worker
idle_worker = record {
  active = some steered_run;
  ledger = [];
  outbox = [];
  steered = [];
  directories = [];
}

abbrev conditions : SaveOutcome → Conditions
conditions settled = record {
  is_uuid = λ s. true;
  decoded = decoded;
  digest = λ s. s.prompt;
  is_readable = true;
  materialized = λ s. some (s.prompt ∷ [], none);
  turn_steer = λ call. RpcReply.turn "turn";
  saves = λ place. if place == "settled" then settled else SaveOutcome.saved;
  outbox = OutboxOutcome.working;
  event_written = true;
}

abbrev correction : SteerRequest
correction = record {
  attachments = [];
  message_id = "message";
  run_id = "run";
  thread_id = "thread";
  expected_turn_id = "turn";
  prompt = "Stop.";
  task_id = "";
  sender_agent_id = "";
}

abbrev attempts : List Step
attempts =
    Step.attempt (conditions SaveOutcome.unsaved) correction
    ∷ Step.restart
    ∷ Step.elsewhere (some steered_run) []
    ∷ Step.attempt (conditions SaveOutcome.saved) correction
    ∷ []

steer_at_most_once_example : calls "message" (run_steps idle_worker attempts) ≤ 1
steer_at_most_once_example = steer_at_most_once idle_worker attempts "message" refl

-- The call is made, though its outcome is lost.
attempts_call : calls "message" (run_steps idle_worker attempts) ≡ 1
unfolding run_steps codexbot.Worker.Handler.Checks.steer codexbot.Domain.Text.is_blank
    validate_attachments
attempts_call = refl

abbrev accepted_worker : Worker
accepted_worker = (steer (conditions SaveOutcome.saved) correction idle_worker).1

abbrev response : SteerResponse
response = record { thread_id = "thread"; turn_id = "turn"; after_sequence = 7 }

accepts :
    (steer (conditions SaveOutcome.saved) correction idle_worker).0 ≡ SteerAnswer.steered response
unfolding steer codexbot.Domain.Text.is_blank validate_attachments
accepts = refl

retries : Retries (conditions SaveOutcome.saved) (conditions SaveOutcome.unsaved) correction
retries = record { digest = refl; uuid = refl; decoded = refl; readable = refl }

steer_retry_example :
    steer (conditions SaveOutcome.unsaved) correction (record accepted_worker { active = none })
    ≡ (SteerAnswer.steered response, record accepted_worker { active = none })
steer_retry_example =
    steer_retry (conditions SaveOutcome.saved) (conditions SaveOutcome.unsaved) correction
      idle_worker response accepts retries none

abbrev full_run : ActiveRun
full_run = record steered_run { permission = Permission.full_access }

abbrev use_tool : ApprovalRequest
use_tool = record {
  method = Method.mcp_elicitation;
  origin = some (record { thread_id = "thread"; turn_id = none });
  elicitation = some (record {
    server_name = "docs";
    mode = "form";
    meta = some (record { kind = "mcp_tool_call"; persist = [] });
    schema = some (record { typ = "object"; properties = some []; required = [] });
  });
  permissions = none;
}

abbrev steady : Moment
steady = record { is_same_run = true; active = some full_run; is_cancelled = false }

granted : grants (handle_approval use_tool (some full_run) steady true).reply ≡ true
unfolding handle_approval
granted = refl

approval-IsGranted_example : IsGranted use_tool (some full_run) steady
approval-IsGranted_example = approval-IsGranted use_tool (some full_run) steady true granted

-- ===== src/Worker/Handler/Checks.antt =====
-- internal/agentworker/steer.go: the checks of a steer, and the handler as a whole.
use codexbot.Common.{
  Bool, not, ◌&&◌, ◌||◌, String, Option, none, some, find?, is_empty, ◌==◌, if◌then◌else◌,
}
use codexbot.Domain.Attachments.{
  AttachmentError, too_many, bad_name, too_large, bad_data, validate_attachments,
}
use codexbot.Domain.Text.{is_blank}
use codexbot.Server.World.{SteerRequest}
use codexbot.Worker.Machine.{Worker, Conditions, SteerAnswer}
use codexbot.Worker.Steer.{file_of}
use codexbot.Worker.Handler.{refuse, steer_stored}

abbrev pub attachment_error_text : AttachmentError → String
attachment_error_text too_many = "at most 8 attachments are allowed"
attachment_error_text bad_name = "invalid attachment filename"
attachment_error_text too_large = "attachments exceed 10 MiB"
attachment_error_text bad_data = "invalid attachment base64 data"

abbrev pub is_incomplete : SteerRequest → Bool
is_incomplete s =
    s.run_id == ""
    || s.thread_id == ""
    || s.expected_turn_id == ""
    || is_blank s.prompt && is_empty s.attachments

-- The identifiers, and then the ledger.
unfoldable pub steer_checked :
    Conditions → SteerRequest → Option AttachmentError → Worker → SteerAnswer × Worker
unfolding steer_stored
steer_checked c s (some e) w = refuse 400 (attachment_error_text e) w
steer_checked c s none w =
    if not (c.is_uuid s.message_id)
    then refuse 400 "invalid message id" w
    else if not (c.is_uuid s.run_id)
    then refuse 400 "invalid run id" w
    else if not c.is_readable
    then refuse 503 "steer delivery state unavailable" w
    else steer_stored c s (find? (file_of s.message_id) w.ledger) w

-- steer, for a decoded request
unfoldable pub steer : Conditions → SteerRequest → Worker → SteerAnswer × Worker
unfolding steer_checked
steer c s w =
    if is_incomplete s
    then refuse 400 "invalid steer request" w
    else steer_checked c s (validate_attachments c.decoded s.attachments) w

-- ===== src/Worker/Machine.antt =====
-- What the agent worker keeps: the active run, and on its disk the ledger of steers and the
-- outboxes of events. What a request meets outside (the disk, the app-server) is an argument.
use codexbot.Common.{ℕ, Bool, String, List, Option, ℤ}
use codexbot.Domain.Records.{Permission}
use codexbot.Server.World.{SteerRequest}

-- activeRun, without the context of its run
pub record ActiveRun : Type 0 where
  pub run_id : String
  pub thread_id : String
  pub turn_id : String
  pub permission : Permission
  pub prompt : String
  pub sequence : ℕ
  pub status : String
  pub error : String

-- The TurnResponse of a steer, whose AfterSequence is that of an active run.
pub record SteerResponse : Type 0 where
  pub thread_id : String
  pub turn_id : String
  pub after_sequence : ℕ

pub data DeliveryState : Type 0 where
  pending accepted rejected : DeliveryState

-- The payload of an event: its field `id`, "" without one, and the other fields.
pub record EventPayload : Type 0 where
  pub id : String
  pub fields : List (String × String)

-- steerDelivery
pub record SteerDelivery : Type 0 where
  pub fingerprint : String
  pub state : DeliveryState
  pub response : SteerResponse
  pub input_event : Option EventPayload
  pub recorded : Bool

-- A file of the ledger.
pub data Stored : Type 0 where
  unreadable : Stored
  delivery : SteerDelivery → Stored

pub record LedgerFile : Type 0 where
  pub message_id : String
  pub stored : Stored

-- workerEvent, in the outbox of its run
pub record WorkerEvent : Type 0 where
  pub run_id : String
  pub sequence : ℕ
  pub typ : String
  pub payload : EventPayload

-- turn/steer
pub record TurnSteer : Type 0 where
  pub thread_id : String
  pub expected_turn_id : String
  pub message_id : String
  pub input : List String

pub record Worker : Type 0 where
  pub active : Option ActiveRun
  pub ledger : List LedgerFile
  pub outbox : List WorkerEvent
  -- The turn/steer calls that were made, the first one first.
  pub steered : List TurnSteer
  -- The directories of attachments that are there.
  pub directories : List String

-- The app-server's reply: the turn, an RPC error with its code, or another error.
pub data RpcReply : Type 0 where
  turn : String → RpcReply
  rpc_error : ℤ → String → RpcReply
  broken : String → RpcReply

-- A save of a file of the ledger: done, not done, or done with an error after the rename.
pub data SaveOutcome : Type 0 where
  saved unsaved unsynced : SaveOutcome

-- The outbox of a run: it works, it cannot be read, an event cannot be written, or what was
-- written cannot be synced.
pub data OutboxOutcome : Type 0 where
  working unread unwritable unsynced : OutboxOutcome

-- What a request meets. `digest` is the SHA-256 of the request's JSON, `decoded` base64's,
-- `is_uuid` the parser of identifiers, `materialized` the inputs and the directory of the saved
-- attachments, and `saves` the saves by their place in the code.
pub record Conditions : Type 0 where
  pub is_uuid : String → Bool
  pub decoded : String → Option ℕ
  pub digest : SteerRequest → String
  pub is_readable : Bool
  pub materialized : SteerRequest → Option (List String × Option String)
  pub turn_steer : TurnSteer → RpcReply
  pub saves : String → SaveOutcome
  pub outbox : OutboxOutcome
  pub event_written : Bool

pub data SteerAnswer : Type 0 where
  refused : ℕ → String → SteerAnswer
  steered : SteerResponse → SteerAnswer

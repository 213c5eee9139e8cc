-- ===== src/Server/World.antt =====
-- What the server's handlers work on: the store, and the calls that they make of the runtime
-- manager (internal/runtimeclient), whose answers are the model's arguments. An action runs with
-- the lock of its agent (lockAgent), reads and writes the store in single operations, and is not
-- rolled back when it fails.
use codexbot.Common.{ℕ, String, List, [], ◌∷◌, ◌++◌, ℤ, Fault, Result, ok, err}
use codexbot.Clock.{Time}
use codexbot.Domain.Attachments.{Attachment}
use codexbot.Domain.Records.{Permission}
use codexbot.Store.Database.{Db}

-- The TurnRequest and the SteerRequest of internal/runtimeclient.
pub record TurnRequest : Type 0 where
  pub attachments : List Attachment
  pub run_id : String
  pub conversation_id : String
  pub thread_id : String
  pub prompt : String
  pub developer_instructions : String
  pub source : String
  pub model : String
  pub effort : String
  pub permission : Permission

pub record SteerRequest : Type 0 where
  pub attachments : List Attachment
  pub message_id : String
  pub run_id : String
  pub thread_id : String
  pub expected_turn_id : String
  pub prompt : String
  pub task_id : String
  pub sender_agent_id : String

pub record TurnResponse : Type 0 where
  pub after_sequence : ℤ
  pub thread_id : String
  pub turn_id : String

-- A reply of the runtime manager: its answer, the status and text of an HTTPError, or the text of
-- any other error, after which it is not known whether the call arrived.
pub data Reply {ℓ} (A : Type ℓ) : Type ℓ where
  accepted : A → Reply A
  http_error : ℕ → String → Reply A
  lost : String → Reply A

pub record Runtime : Type 0 where
  pub start_agent : String → Reply (Unit {0})
  pub stop_agent : String → Reply (Unit {0})
  pub interrupt : String → String → String → Reply (Unit {0})
  pub set_desktop_lease : String → String → ℕ → Reply (Unit {0})
  pub start_turn : String → TurnRequest → Reply TurnResponse
  pub steer_turn : String → SteerRequest → Reply TurnResponse

-- What a run of an action meets: the readings of the clock and the new identifiers, by their place
-- in the code and the round of its loop, the replies, and the texts of errors and of JSON.
pub record Env : Type 0 where
  pub clock : String → ℕ → Time
  pub uuid : String → ℕ → String
  pub runtime : Runtime
  pub error_text : Fault → String
  pub marshal : List (String × String) → String
  pub quote : String → String

-- The calls that the server makes, and the relays of runs that it starts or stops.
pub data Call : Type 0 where
  start_agent stop_agent : String → Call
  interrupt : String → String → String → Call
  set_desktop_lease : String → String → ℕ → Call
  start_turn : String → TurnRequest → Call
  steer_turn : String → SteerRequest → Call
  relay cancel_relay : String → Call

pub record World : Type 0 where
  pub db : Db
  -- The calls so far, the first one first.
  pub calls : List Call

-- An error of the store, or the text of another.
pub data Failure : Type 0 where
  fault : Fault → Failure
  failure : String → Failure

-- err.Error()
abbrev pub failure_text : Env → Failure → String
failure_text env (fault e) = env.error_text e
failure_text env (failure s) = s

pub data Attempt {ℓ} (A : Type ℓ) : Type ℓ where
  done : A → Attempt A
  failed : Failure → Attempt A

abbrev pub Action : Type 0 → Type 0
Action A = World → Attempt A × World

abbrev pub resume : {A B : Type 0} → (A → Action B) → Attempt A × World → Attempt B × World
resume next (done a, w) = next a w
resume next (failed e, w) = (failed e, w)

infixl 5 ◌>>=◌ ◌>>◌
unfoldable pub ◌>>=◌ : {A B : Type 0} → Action A → (A → Action B) → Action B
◌>>=◌ m next w = resume next (m w)

unfoldable pub ◌>>◌ : {B : Type 0} → Action (Unit {0}) → Action B → Action B
◌>>◌ m next w = resume (λ _. next) (m w)

unfoldable pub pure : {A : Type 0} → A → Action A
pure a w = (done a, w)

unfoldable pub fail : {A : Type 0} → Failure → Action A
fail e w = (failed e, w)

unfoldable pub skip : Action (Unit {0})
skip w = (done tt, w)

-- A query that cannot fail, and one that can.
unfoldable pub read : {A : Type 0} → (Db → A) → Action A
read q w = (done (q w.db), w)

abbrev pub answered : {A : Type 0} → World → Result A → Attempt A × World
answered w (ok a) = (done a, w)
answered w (err e) = (failed (fault e), w)

unfoldable pub query : {A : Type 0} → (Db → Result A) → Action A
query q w = answered w (q w.db)

-- An operation of the store that cannot fail, one that can, and one with a value besides.
unfoldable pub change : {A : Type 0} → (Db → A × Db) → Action A
change op w = let (a, db') = op w.db in (done a, record w { db = db' })

abbrev pub stored : World → Result Db → Attempt (Unit {0}) × World
stored w (ok db') = (done tt, record w { db = db' })
stored w (err e) = (failed (fault e), w)

unfoldable pub exec : (Db → Result Db) → Action (Unit {0})
exec op w = stored w (op w.db)

abbrev pub returned : {A : Type 0} → World → Result (A × Db) → Attempt A × World
returned w (ok (a, db')) = (done a, record w { db = db' })
returned w (err e) = (failed (fault e), w)

unfoldable pub perform : {A : Type 0} → (Db → Result (A × Db)) → Action A
perform op w = returned w (op w.db)

unfoldable pub write : (Db → Db) → Action (Unit {0})
write op w = (done tt, record w { db = op w.db })

-- The action's error as a value, for code that inspects it.
abbrev pub caught : {A : Type 0} → Attempt A × World → Attempt (Attempt A) × World
caught (r, w) = (done r, w)

unfoldable pub try : {A : Type 0} → Action A → Action (Attempt A)
try m w = caught (m w)

-- `_ =`: the error is not looked at.
abbrev pub ignored : {A : Type 0} → Attempt A × World → Attempt (Unit {0}) × World
ignored (r, w) = (done tt, w)

unfoldable pub ignore : {A : Type 0} → Action A → Action (Unit {0})
ignore m w = ignored (m w)

-- A call and its reply.
unfoldable pub ask : {A : Type 0} → Call → Reply A → Action (Reply A)
ask call reply w = (done reply, record w { calls = w.calls ++ call ∷ [] })

unfoldable pub note : Call → Action (Unit {0})
note call w = (done tt, record w { calls = w.calls ++ call ∷ [] })

-- What ends an action with the error that it had.
unfoldable pub settle : {A : Type 0} → Attempt A → Action A
settle r w = (r, w)

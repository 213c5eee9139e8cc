-- ===== src/Server/Api/Errors.antt =====
-- What a refused request leaves.
use codexbot.Common.{◌≡◌, ◌⊎◌, false, String, ok, ℕ}
use codexbot.Clock.{Time}
use codexbot.Domain.Task.{CollaborationTask}
use codexbot.Store.Database.{Db}
use codexbot.Store.Tasks.Enqueue.{TaskRequest, enqueue_collaboration_task}
use codexbot.Server.Api.{HttpReply, http_error, accepted_text}

-- An answer that is no success leaves the database.
abbrev pub Spares : {A : Type 0} → Db → HttpReply A × Db → Type 0
Spares db p = (status : ℕ) (text : String) → p.0 ≡ http_error status text → p.1 ≡ db

-- A request that was stored although the answer is an error: the answer says so, and the request
-- made again, at any later time, gets the task that is stored and makes none.
pub record IsStored (r : TaskRequest) (status : ℕ) (text : String) (db : Db) : Type 0 where
  pub code : status ≡ 500
  pub says : text ≡ accepted_text
  pub again :
      (id : String) (now later : Time)
      → (t : CollaborationTask) × (enqueue_collaboration_task r id now later db ≡ ok (t, false, db))

-- An answer that is no success leaves the database, or says that the request is stored.
abbrev pub SparesOrStores : {A : Type 0} → TaskRequest → Db → HttpReply A × Db → Type 0
SparesOrStores r db p =
    (status : ℕ) (text : String)
    → p.0 ≡ http_error status text
    → (p.1 ≡ db) ⊎ IsStored r status text p.1

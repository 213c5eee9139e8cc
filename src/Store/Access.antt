-- ===== src/Store/Access.antt =====
-- The administrator, the sessions and the shared sign-in of internal/store/store.go, with the
-- tables they keep. Children have the proofs.
pub mod Lifetime
use codexbot.Common.{
  Bool, true, false, not, ◌&&◌, String, List, [], ◌∷◌, Option, none, some, any, find?, update,
  delete, insert, ◌==◌, not_found, constraint, Result, ok, err, ◌>>=◌, ◌>>◌, guard, or_fail,
}
use codexbot.Clock.{Time}
use codexbot.Domain.Records.{Agent}

-- The row of admins, which has one at most: its identifier is 1.
pub record Admin : Type 0 where
  pub username : String
  pub password_hash : String
  pub created_at : Time

pub record Session : Type 0 where
  pub token_hash : String
  pub csrf_token : String
  pub expires_at : Time
  pub created_at : Time

-- The row of shared_auth.
pub record SharedAuth : Type 0 where
  pub state : String
  pub verified : Bool
  pub pending_agent_id : String
  pub pending_login_id : String
  pub pending_since : Option Time
  pub verified_at : Option Time

pub record Access : Type 0 where
  pub admin : Option Admin
  pub sessions : List Session
  pub shared_auth : SharedAuth
  pub agents : List Agent

abbrev pub is_some : Option Admin → Bool
is_some none = false
is_some (some a) = true

-- CreateAdmin
unfoldable pub create_admin : String → String → Time → Access → Result Access
create_admin username password_hash now s = do
  guard (not (is_some s.admin)) constraint
  ok (record s {
    admin = some (record { username = username; password_hash = password_hash; created_at = now });
  })

-- AdminPasswordHash
unfoldable pub admin_password_hash : String → Access → Result String
admin_password_hash username s = do
  a ← or_fail s.admin not_found
  guard (a.username == username) not_found
  ok a.password_hash

abbrev pub has_token : String → Session → Bool
has_token token_hash x = x.token_hash == token_hash

-- CreateSession, of the administrator 1.
unfoldable pub create_session : String → String → Time → Time → Access → Result Access
create_session token_hash csrf expires now s = do
  guard (not (any (has_token token_hash) s.sessions)) constraint
  guard (is_some s.admin) constraint
  ok (record s {
    sessions =
        insert
          (record {
            token_hash = token_hash;
            csrf_token = csrf;
            expires_at = expires;
            created_at = now;
          })
          s.sessions;
  })

-- Session: the user, the token against forged requests and the end.
unfoldable pub session : String → Access → Result (String × String × Time)
session token_hash s = do
  x ← or_fail (find? (has_token token_hash) s.sessions) not_found
  a ← or_fail s.admin not_found
  ok (a.username, x.csrf_token, x.expires_at)

-- DeleteSession
unfoldable pub delete_session : String → Access → Access
delete_session token_hash s = record s { sessions = delete (has_token token_hash) s.sessions }

abbrev pub is_not_archived : Agent → Bool
is_not_archived a = not a.archived

unfoldable pub with_auth_state : String → Time → Agent → Agent
with_auth_state state now a = record a { provider_auth_state = state; updated_at = now }

-- UPDATE agents SET provider_auth_state=? WHERE archived=0
abbrev pub set_agents : String → Time → List Agent → List Agent
set_agents state now = update is_not_archived (with_auth_state state now)

-- SetSharedAuthState
unfoldable pub set_shared_auth_state : String → Time → Access → Access
unfolding with_auth_state
set_shared_auth_state state now s = record s {
  shared_auth = record {
    state = state;
    verified = true;
    pending_agent_id = "";
    pending_login_id = "";
    pending_since = none;
    verified_at = some now;
  };
  agents = set_agents state now s.agents;
}

-- SetSharedAuthPending
unfoldable pub set_shared_auth_pending : String → String → Time → Time → Access → Access
unfolding with_auth_state
set_shared_auth_pending agent login since now s = record s {
  shared_auth = record {
    state = "pending";
    verified = true;
    pending_agent_id = agent;
    pending_login_id = login;
    pending_since = some since;
    verified_at = some now;
  };
  agents = set_agents "pending" now s.agents;
}

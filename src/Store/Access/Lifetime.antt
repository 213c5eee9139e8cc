-- ===== src/Store/Access/Lifetime.antt =====
-- A session from its start to its end, and what agents show of the shared sign-in.
use codexbot.Common.{
  ◌≡◌, refl, false, String, List, [], ◌∷◌, none, some, arith, eq_refl, find?, find?-append,
  find?-none_of_any, delete, not_found, ok, err,
}
use codexbot.Clock.{Time}
use codexbot.Domain.Records.{Agent}
use codexbot.Store.Access.{
  Admin, Session, Access, has_token, create_session, session, delete_session,
}

find?-delete :
    (token : String) (xs : List Session)
    → find? (has_token token) (delete (has_token token) xs) ≡ none
find?-delete token [] = refl
find?-delete token (x ∷ xs) = ground (arith, find?-delete token xs)

-- A session that was made is found under its token with the user, the token against forged
-- requests and the end that it was given, and is found no more once it is deleted.
pub session-create_session :
    (token csrf : String) (expires now : Time) (admin : Admin) (s s' : Access)
    → s.admin ≡ some admin
    → create_session token csrf expires now s ≡ ok s'
    → (session token s' ≡ ok (admin.username, csrf, expires))
      × (session token (delete_session token s') ≡ err not_found)
unfolding create_session session delete_session
session-create_session token csrf expires now admin s s' has h =
    let row : Session = record {
      token_hash = token;
      csrf_token = csrf;
      expires_at = expires;
      created_at = now;
    } in
    (
      ground (
        arith,
        find?-append (has_token token) s.sessions (row ∷ []),
        find?-none_of_any (has_token token) s.sessions,
        eq_refl token,
      ),
      ground (arith, find?-delete token s'.sessions),
    )

-- Every agent that is not archived shows the state.
abbrev pub Shows : String → Agent → Type 0
Shows state a = a.archived ≡ false → a.provider_auth_state ≡ state

-- ===== src/Store/Desktop/Continuation.antt =====
-- The conversation that takes over when the human gives the desktop back.
use codexbot.Common.{
  ◌≡◌, ◌≢◌, refl, inl, inr, true, String, List, [], ◌∷◌, none, some, arith, eq_iff, eq_refl, any,
  find?, find?-append, find?-none_of_any, delete, update, ok, Bool-cases,
}
use codexbot.Clock.{Time}
use codexbot.Store.Database.{Db, DesktopContinuation}
use codexbot.Store.Desktop.{
  continuation_of, set_desktop_continuation, take_found, take_desktop_continuation,
}

find?-delete :
    (agent : String) (cs : List DesktopContinuation)
    → find? (continuation_of agent) (delete (continuation_of agent) cs) ≡ none
find?-delete agent [] = refl
find?-delete agent (c ∷ cs) = ground (arith, find?-delete agent cs)

find?-updated :
    (row : DesktopContinuation) (cs : List DesktopContinuation)
    → any (continuation_of row.agent_id) cs ≡ true
    → find? (continuation_of row.agent_id) (update (continuation_of row.agent_id) (λ _. row) cs)
      ≡ some row
find?-updated row [] h = absurd (ground arith)
find?-updated row (c ∷ cs) h = ground (arith, find?-updated row cs, eq_refl row.agent_id)

abbrev row_of : String → String → Time → DesktopContinuation
row_of agent conversation now = record {
  agent_id = agent;
  conversation_id = conversation;
  created_at = now;
}

set-found :
    (agent conversation : String) (now : Time) (db db' : Db)
    → conversation ≢ ""
    → set_desktop_continuation agent conversation now db ≡ ok db'
    → find? (continuation_of agent) db'.desktop_continuations ≡ some (row_of agent conversation now)
unfolding set_desktop_continuation
set-found agent conversation now db db' given h =
    let row = row_of agent conversation now in
    let cs = db.desktop_continuations in
    elim (Bool-cases (any (continuation_of agent) cs)) [
      | inl e ↦ ground (arith, eq_iff conversation "", given, e, find?-updated row cs e)
      | inr e ↦ ground (
        arith,
        eq_iff conversation "",
        given,
        e,
        find?-append (continuation_of agent) cs (row ∷ [])
            (find?-none_of_any (continuation_of agent) cs e),
        eq_refl agent,
      )
    ]

-- A continuation that was set is taken once: the first attempt returns the conversation, and the
-- next returns none.
pub take_desktop_continuation_once :
    (agent conversation : String) (now : Time) (db db' : Db)
    → conversation ≢ ""
    → set_desktop_continuation agent conversation now db ≡ ok db'
    → ((take_desktop_continuation agent db').0 ≡ conversation)
      × ((take_desktop_continuation agent (take_desktop_continuation agent db').1).0 ≡ "")
unfolding take_desktop_continuation
take_desktop_continuation_once agent conversation now db db' given h =
    let found = set-found agent conversation now db db' given h in
    rw found (unfold take_found in (refl, rw (find?-delete agent db'.desktop_continuations) refl))

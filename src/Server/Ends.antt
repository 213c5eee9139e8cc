-- ===== src/Server/Ends.antt =====
-- Actions that keep an identifier held, and those that end with it over.
use mathlib.Core.Path.{subst}
use codexbot.Common.{
  ◌≡◌, refl, sym, inl, inr, Bool, true, false, String, some, Result, ok, Result-cases,
  if◌then◌else◌,
}
use codexbot.Domain.Task.{CollaborationTask, TaskStatus}
use codexbot.Store.Database.{Db}
use codexbot.Store.Tasks.Delivery.{allowed, settable_status}
use codexbot.Store.Tasks.Query.{is_waiting}
use codexbot.Server.World.{
  World, Env, Action, Attempt, done, failed, Failure, Call, Reply, resume, ◌>>=◌, ◌>>◌, fail, read,
  exec, perform, write, try, ignore, ask, note, settle,
}
use codexbot.Server.Held.{IsHeld, IsOver}
use codexbot.Server.Held.Claim.{set_state-IsOver, set_dispatching-IsHeld}
use codexbot.Server.Steer.{set_collaboration_state, public_message}

module _ (id : String) where
  abbrev pub Held : Db → Type 0
  Held db = IsHeld id db.collaboration_tasks

  abbrev pub Over : Db → Type 0
  Over db = IsOver id db.collaboration_tasks

  -- An action that leaves the identifier held; one that does not fail, besides; and one after
  -- which it is over.
  pub record Keeps {A : Type 0} (m : Action A) : Type 0 where
    pub at : (w : World) → Held w.db → Held (m w).1.db

  pub record Goes {A : Type 0} (m : Action A) : Type 0 where
    pub at : (w : World) → Held w.db → (a : A) × ((m w).0 ≡ done a) × Held (m w).1.db

  pub record Ends {A : Type 0} (m : Action A) : Type 0 where
    pub at : (w : World) → Held w.db → Over (m w).1.db

  goes_resume :
      {A B : Type 0} (next : A → Action B) (p : Attempt A × World) (a : A)
      → p.0 ≡ done a
      → Held p.1.db
      → ((x : A) → Ends (next x))
      → Over (resume next p).1.db
  goes_resume next p a e h k = rw e ((k a).at p.1 h)

  pub bind-Ends :
      {A B : Type 0} (m : Action A) (next : A → Action B)
      → Goes m
      → ((a : A) → Ends (next a))
      → Ends (m >>= next)
  unfolding ◌>>=◌
  bind-Ends m next g k = record {
    at = λ w h. let (a, e, held) = g.at w h in goes_resume next (m w) a e held k;
  }

  pub then-Ends :
      {B : Type 0} (m : Action (Unit {0})) (next : Action B) → Goes m → Ends next → Ends (m >> next)
  unfolding ◌>>◌
  then-Ends m next g k = record {
    at = λ w h. let (a, e, held) = g.at w h in goes_resume (λ _. next) (m w) a e held (λ _. k);
  }

  Keeps-resume :
      {A B : Type 0} (next : A → Action B) (p : Attempt A × World)
      → Held p.1.db
      → ((x : A) → Keeps (next x))
      → Held (resume next p).1.db
  Keeps-resume next (done a, w) h k = (k a).at w h
  Keeps-resume next (failed e, w) h k = h

  pub bind-Keeps :
      {A B : Type 0} (m : Action A) (next : A → Action B)
      → Keeps m
      → ((a : A) → Keeps (next a))
      → Keeps (m >>= next)
  unfolding ◌>>=◌
  bind-Keeps m next g k = record { at = λ w h. Keeps-resume next (m w) (g.at w h) k }

  pub then-Keeps :
      {B : Type 0} (m : Action (Unit {0})) (next : Action B)
      → Keeps m
      → Keeps next
      → Keeps (m >> next)
  unfolding ◌>>◌
  then-Keeps m next g k = record { at = λ w h. Keeps-resume (λ _. next) (m w) (g.at w h) (λ _. k) }

  pub fail-Keeps : {A : Type 0} (e : Failure) → Keeps {A = A} (fail e)
  unfolding fail
  fail-Keeps e = record { at = λ w h. h }

  pub exec-Keeps :
      (op : Db → Result Db)
      → ((db db' : Db) → op db ≡ ok db' → Held db → Held db')
      → Keeps (exec op)
  unfolding exec
  exec-Keeps op k = record {
    at = λ w h. elim (Result-cases (op w.db)) [
      | inl (db', e) ↦ rw e (k w.db db' e h)
      | inr (x, e) ↦ rw e h
    ];
  }

  pub perform-Keeps :
      {A : Type 0} (op : Db → Result (A × Db))
      → ((db : Db) (a : A) (db' : Db) → op db ≡ ok (a, db') → Held db → Held db')
      → Keeps (perform op)
  unfolding perform
  perform-Keeps op k = record {
    at = λ w h. elim (Result-cases (op w.db)) [
      | inl ((a, db'), e) ↦ rw e (k w.db a db' e h)
      | inr (x, e) ↦ rw e h
    ];
  }

  pub try-Goes : {A : Type 0} (m : Action A) → Keeps m → Goes (try m)
  unfolding try
  try-Goes m k = record { at = λ w h. ((m w).0, refl, k.at w h) }

  -- An action that does not fail, and what follows it if it does not.
  pub tried-Ends :
      {A B : Type 0} (m : Action A) (next : Attempt A → Action B)
      → Goes m
      → ((a : A) → Ends (next (done a)))
      → Ends (try m >>= next)
  unfolding ◌>>=◌ try
  tried-Ends m next g k = record {
    at = λ w h. let (a, e, held) = g.at w h in rw e ((k a).at (m w).1 held);
  }

  pub ignore-Goes : {A : Type 0} (m : Action A) → Keeps m → Goes (ignore m)
  unfolding ignore
  ignore-Goes m k = record { at = λ w h. (tt, refl, k.at w h) }

  pub read-Goes : {A : Type 0} (q : Db → A) → Goes (read q)
  unfolding read
  read-Goes q = record { at = λ w h. (q w.db, refl, h) }

  pub ask-Goes : {A : Type 0} (call : Call) (reply : Reply A) → Goes (ask call reply)
  unfolding ask
  ask-Goes call reply = record { at = λ w h. (reply, refl, h) }

  pub ask-Keeps : {A : Type 0} (call : Call) (reply : Reply A) → Keeps (ask call reply)
  unfolding ask
  ask-Keeps call reply = record { at = λ w h. h }

  pub note-Goes : (call : Call) → Goes (note call)
  unfolding note
  note-Goes call = record { at = λ w h. (tt, refl, h) }

  pub write-Goes :
      (op : Db → Db)
      → ((db : Db) → (op db).collaboration_tasks ≡ db.collaboration_tasks)
      → Goes (write op)
  unfolding write
  write-Goes op k = record { at = λ w h. (tt, refl, subst (IsHeld id) (sym (k w.db)) h) }

  pub write-Keeps :
      (op : Db → Db)
      → ((db : Db) → (op db).collaboration_tasks ≡ db.collaboration_tasks)
      → Keeps (write op)
  unfolding write
  write-Keeps op k = record { at = λ w h. subst (IsHeld id) (sym (k w.db)) h }

  -- An action and then a relay: it ends as the action does.
  pub relayed-Ends :
      (call : Call) (m : Action (Unit {0}))
      → Ends m
      → Ends (try m >>= λ ended. note call >> settle ended)
  unfolding ◌>>=◌ ◌>>◌ try note settle
  relayed-Ends call m k = record { at = λ w h. k.at w h }

  pub if-Ends :
      {A : Type 0} (b : Bool) (m k : Action A) → Ends m → Ends k → Ends (if b then m else k)
  if-Ends true m k h d = h
  if-Ends false m k h d = d

-- A status of a task that does not wait ends its delivery.
pub set_state-Ends :
    (env : Env) (place : String) (t : CollaborationTask) (status run_id message : String)
    (to : TaskStatus)
    → settable_status status ≡ some to
    → allowed to TaskStatus.dispatching ≡ true
    → is_waiting to ≡ false
    → Ends t.id (set_collaboration_state env place t status run_id message)
unfolding set_collaboration_state exec
set_state-Ends env place t status run_id message to is may ends = record {
  at = λ w h.
      let (db', e, over) =
        set_state-IsOver t.id run_id (public_message t status message) (env.clock place 0) status to
          is may ends w.db h in
      rw e over;
}

pub link-Goes :
    (env : Env) (t : CollaborationTask) (run_id : String)
    → Goes t.id (set_collaboration_state env "link" t "dispatching" run_id "")
unfolding set_collaboration_state exec
link-Goes env t run_id = record {
  at = λ w h.
      let message = public_message t "dispatching" "" in
      let (db', e, held) = set_dispatching-IsHeld t.id run_id message (env.clock "link" 0) w.db h in
      rw e (tt, refl, held);
}

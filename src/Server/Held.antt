-- ===== src/Server/Held.antt =====
-- The tasks of one identifier between a claim and the end of a delivery, and after it. A child
-- has how a claim brings them there.
pub mod Claim
use mathlib.Core.Path.{subst}
use codexbot.Common.{
  ℤ, pos, negsuc, ◌≡◌, refl, sym, ◌∙◌, ap, inl, inr, Bool, true, false, String, List, [], ◌∷◌, some,
  arith, eq_iff, ◌==◌, any, update, insert, All, All-insert, All-update, Bool-cases, ok, ℕ,
}
use codexbot.Clock.{Time}
use codexbot.Domain.Task.{CollaborationTask, TaskStatus, is_queued, is_dispatching}
use codexbot.Store.Database.{Db}
use codexbot.Store.Tasks.Enqueue.{has_id}
use codexbot.Store.Tasks.Evolution.{Evolves, can_become}
use codexbot.Store.Tasks.Effects.{Effects, here, changed, added}
use codexbot.Store.Tasks.Query.{is_waiting}
use codexbot.Store.Tasks.Delivery.{
  queued_with_id, dispatching_with_id, settable_with_id, allowed, claimed, with_state, with_cursor,
  settable_status, claim_collaboration_task, set_collaboration_task_state,
  set_collaboration_task_output_cursor,
}

-- Every task of the identifier has a status of which the test fails.
abbrev pub Without : (TaskStatus → Bool) → String → CollaborationTask → Type 0
Without p id u = has_id id u ≡ true → p u.status ≡ false

-- The identifier is taken, and no task of it waits: none is queued or handed over.
pub record IsOver (id : String) (ts : List CollaborationTask) : Type 0 where
  pub taken : any (has_id id) ts ≡ true
  pub all : All (Without is_waiting id) ts

-- A task of the identifier is handed over, and none is queued.
pub record IsHeld (id : String) (ts : List CollaborationTask) : Type 0 where
  pub held : any (dispatching_with_id id) ts ≡ true
  pub all : All (Without is_queued id) ts

module _ (p : CollaborationTask → Bool) (f : CollaborationTask → CollaborationTask) where
  -- An update that keeps a test's result where it holds leaves a row that meets it.
  pub any-update_stays :
      (q r : CollaborationTask → Bool)
      → ((t : CollaborationTask) → p t ≡ true → q t ≡ true → r (f t) ≡ true)
      → ((t : CollaborationTask) → p t ≡ false → q t ≡ true → r t ≡ true)
      → (ts : List CollaborationTask) → any q ts ≡ true
      → any r (update p f ts) ≡ true
  any-update_stays q r hit miss [] h = h
  any-update_stays q r hit miss (t ∷ ts) h =
      ground (arith, hit t, miss t, any-update_stays q r hit miss ts)

  pub update_none : (ts : List CollaborationTask) → any p ts ≡ false → update p f ts ≡ ts
  update_none [] h = refl
  update_none (t ∷ ts) h = ground (arith, update_none ts)

any-insert :
    (id : String) (ts : List CollaborationTask) (u : CollaborationTask)
    → any (has_id id) ts ≡ true
    → any (has_id id) (insert u ts) ≡ true
any-insert id [] u h = absurd (ground arith)
any-insert id (t ∷ ts) u h = ground (arith, any-insert id ts u)

waiting_before :
    (a b : TaskStatus) → can_become a b ≡ true → is_waiting a ≡ false → is_waiting b ≡ false
waiting_before TaskStatus.queued b p q = absurd (ground arith)
waiting_before _ b p q = ground arith

over-Evolves :
    (id : String) (t u : CollaborationTask)
    → Evolves t u
    → Without is_waiting id t
    → Without is_waiting id u
over-Evolves id t u e h i =
    waiting_before t.status u.status e.moved (h (ap (λ s. s == id) (sym e.id) ∙ i))

-- What is over stays over, whatever the operations of the store do.
pub IsOver-Effects :
    (id : String) (ts : List CollaborationTask) {us : List CollaborationTask}
    → Effects ts us
    → IsOver id ts
    → IsOver id us
IsOver-Effects id ts here h = h
IsOver-Effects id ts (changed {us} e p f ev) h =
    let before = IsOver-Effects id ts e h in
    record {
      taken =
          any-update_stays p f (has_id id) (has_id id) (λ t hit i. ground (arith, (ev t hit).id, i))
            (λ t miss i. i) us before.taken;
      all =
          All-update (Without is_waiting id) (Without is_waiting id) p f
            (λ t hit. over-Evolves id t (f t) (ev t hit)) (λ t miss k. k) us before.all;
    }
IsOver-Effects id ts (added {us} e t new room) h =
    let before = IsOver-Effects id ts e h in
    record {
      taken = any-insert id us t before.taken;
      all =
          All-insert (Without is_waiting id) t us before.all
            (λ i. absurd (ground (arith, before.taken, new, (eq_iff t.id id).0 i)));
    }

pub All-trivial : (ts : List CollaborationTask) → All (λ t. Unit {0}) ts
All-trivial [] = tt
All-trivial (t ∷ ts) = (tt, All-trivial ts)

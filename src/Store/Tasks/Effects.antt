-- ===== src/Store/Tasks/Effects.antt =====
-- The changes that the operations make to the table of tasks, as steps of two kinds.
use codexbot.Common.{◌<◌, ◌≡◌, Bool, true, false, List, any, count, update, insert}
use codexbot.Domain.Task.{CollaborationTask, is_pending}
use codexbot.Store.Tasks.Enqueue.{max_pending, has_id, pending_for}
use codexbot.Store.Tasks.Evolution.{
  Evolves, Grows, Grows-refl, Grows-trans, Grows-insert, Grows-update,
}

-- Rows that evolve in place, and new rows under new identifiers at the end, for whose target
-- there is room unless they are over already.
pub data Effects (ts : List CollaborationTask) : List CollaborationTask → Type 0 where
  here : Effects ts ts
  changed :
      {us : List CollaborationTask}
      → Effects ts us
      → (p : CollaborationTask → Bool) (f : CollaborationTask → CollaborationTask)
      → ((t : CollaborationTask) → p t ≡ true → Evolves t (f t))
      → Effects ts (update p f us)
  added :
      {us : List CollaborationTask}
      → Effects ts us
      → (t : CollaborationTask) → any (has_id t.id) us ≡ false
      → (is_pending t.status ≡ true → count (pending_for t.target_agent_id) us < max_pending)
      → Effects ts (insert t us)

pub Effects-trans :
    {ts us vs : List CollaborationTask} → Effects ts us → Effects us vs → Effects ts vs
Effects-trans p here = p
Effects-trans p (changed q g f h) = changed (Effects-trans p q) g f h
Effects-trans p (added q t new room) = added (Effects-trans p q) t new room

pub Effects-Grows :
    (ts : List CollaborationTask) {us : List CollaborationTask} → Effects ts us → Grows ts us
Effects-Grows ts here = Grows-refl ts
Effects-Grows ts (changed {us} e p f h) =
    Grows-trans ts us _ (Effects-Grows ts e) (Grows-update p f h us)
Effects-Grows ts (added {us} e t _ _) = Grows-trans ts us _ (Effects-Grows ts e) (Grows-insert t us)

-- ===== src/Store/Tasks/Evolution.antt =====
-- What an operation on collaboration_tasks may make of a task: the fields that stay, the link to a
-- completion and the order of the statuses.
use codexbot.Common.{
  ◌≡◌, refl, ◌∙◌, ◌⊎◌, inl, inr, Bool, true, false, String, List, [], ◌∷◌, arith, Extends, update,
  Bool-cases, insert,
}
use codexbot.Domain.Task.{CollaborationTask, TaskStatus}

-- The statuses that a task may take on from another, through any number of operations. A task
-- whose end is known, or that was cancelled, keeps its status; an unknown end may become known.
abbrev pub can_become : TaskStatus → TaskStatus → Bool
can_become TaskStatus.queued to = true
can_become TaskStatus.dispatching to = true
can_become TaskStatus.running TaskStatus.queued = false
can_become TaskStatus.running TaskStatus.dispatching = false
can_become TaskStatus.running TaskStatus.cancelled = false
can_become TaskStatus.running to = true
can_become TaskStatus.unknown TaskStatus.completed = true
can_become TaskStatus.unknown TaskStatus.failed = true
can_become TaskStatus.unknown TaskStatus.interrupted = true
can_become TaskStatus.unknown TaskStatus.unknown = true
can_become TaskStatus.completed TaskStatus.completed = true
can_become TaskStatus.failed TaskStatus.failed = true
can_become TaskStatus.interrupted TaskStatus.interrupted = true
can_become TaskStatus.cancelled TaskStatus.cancelled = true
can_become _ _ = false

pub record Evolves (t u : CollaborationTask) : Type 0 where
  pub id : u.id ≡ t.id
  pub sender : u.sender_agent_id ≡ t.sender_agent_id
  pub sender_run : u.sender_run_id ≡ t.sender_run_id
  pub target : u.target_agent_id ≡ t.target_agent_id
  pub key : u.idempotency_key ≡ t.idempotency_key
  pub prompt : u.prompt ≡ t.prompt
  pub mode : u.mode ≡ t.mode
  pub completion : u.completion_mode ≡ t.completion_mode
  pub notification : u.notification_for_task_id ≡ t.notification_for_task_id
  pub created : u.created_at ≡ t.created_at
  pub link : (t.completion_task_id ≡ "") ⊎ (u.completion_task_id ≡ t.completion_task_id)
  pub moved : can_become t.status u.status ≡ true

can_become_refl : (s : TaskStatus) → can_become s s ≡ true
can_become_refl TaskStatus.queued = refl
can_become_refl _ = refl

can_become_trans :
    (a b c : TaskStatus) → can_become a b ≡ true → can_become b c ≡ true → can_become a c ≡ true
can_become_trans TaskStatus.queued b c p q = refl
can_become_trans TaskStatus.dispatching b c p q = refl
can_become_trans _ b c p q = ground arith

pub Evolves-refl : (t : CollaborationTask) → Evolves t t
Evolves-refl t = record {
  id = refl;
  sender = refl;
  sender_run = refl;
  target = refl;
  key = refl;
  prompt = refl;
  mode = refl;
  completion = refl;
  notification = refl;
  created = refl;
  link = inr refl;
  moved = can_become_refl t.status;
}

link_trans : (a b c : String) → (a ≡ "") ⊎ (b ≡ a) → (b ≡ "") ⊎ (c ≡ b) → (a ≡ "") ⊎ (c ≡ a)
link_trans a b c (inl p) q = inl p
link_trans a b c (inr p) (inl q) = inl (cc)
link_trans a b c (inr p) (inr q) = inr (cc)

pub Evolves-trans : {t u v : CollaborationTask} → Evolves t u → Evolves u v → Evolves t v
Evolves-trans {t} {u} {v} p q = record {
  id = q.id ∙ p.id;
  sender = q.sender ∙ p.sender;
  sender_run = q.sender_run ∙ p.sender_run;
  target = q.target ∙ p.target;
  key = q.key ∙ p.key;
  prompt = q.prompt ∙ p.prompt;
  mode = q.mode ∙ p.mode;
  completion = q.completion ∙ p.completion;
  notification = q.notification ∙ p.notification;
  created = q.created ∙ p.created;
  link = link_trans t.completion_task_id u.completion_task_id v.completion_task_id p.link q.link;
  moved = can_become_trans t.status u.status v.status p.moved q.moved;
}

-- A table evolves: each task evolves at its place, and new tasks come at the end.
abbrev pub Grows : List CollaborationTask → List CollaborationTask → Type 0
Grows = Extends Evolves

pub Grows-refl : (ts : List CollaborationTask) → Grows ts ts
Grows-refl [] = tt
Grows-refl (t ∷ ts) = (Evolves-refl t, Grows-refl ts)

pub Grows-trans : (ts us vs : List CollaborationTask) → Grows ts us → Grows us vs → Grows ts vs
Grows-trans [] us vs p q = tt
Grows-trans (t ∷ ts) [] vs p q = absurd p
Grows-trans (t ∷ ts) (u ∷ us) [] p q = absurd q
Grows-trans (t ∷ ts) (u ∷ us) (v ∷ vs) (p, ps) (q, qs) =
    (Evolves-trans p q, Grows-trans ts us vs ps qs)

pub Grows-insert : (t : CollaborationTask) (ts : List CollaborationTask) → Grows ts (insert t ts)
Grows-insert t [] = tt
Grows-insert t (x ∷ xs) = (Evolves-refl x, Grows-insert t xs)

pub Grows-update :
    (p : CollaborationTask → Bool) (f : CollaborationTask → CollaborationTask)
    → ((t : CollaborationTask) → p t ≡ true → Evolves t (f t))
    → (ts : List CollaborationTask) → Grows ts (update p f ts)
Grows-update p f h [] = tt
Grows-update p f h (t ∷ ts) = elim (Bool-cases (p t)) [
  | inl e ↦ rw e (h t e, Grows-update p f h ts)
  | inr e ↦ rw e (Evolves-refl t, Grows-update p f h ts)
]

-- ===== src/Store/Tasks/Suppression.antt =====
-- What an interruption by the sender leaves of its completions.
use mathlib.Core.Path.{subst}
use codexbot.Common.{
  ℕ, suc, ◌≡◌, ◌≢◌, refl, sym, inl, inr, true, false, String, List, [], ◌∷◌, arith, eq_iff, eq_refl,
  ◌==◌, All, All-insert, All-mono, All-update, any, any-none_of_All, any-update_none, update,
  select, ok, Result-cases, Bool-cases,
}
use codexbot.Clock.{Time}
use codexbot.Domain.Task.{CollaborationTask}
use codexbot.Store.Database.{Db}
use codexbot.Store.Tasks.Delivery.{cancelled}
use codexbot.Store.Tasks.Notify.{
  notification, notify_sender, linked, unlinked_with_id, suppress_each, awaits_completion,
  queued_notification_for, sender_reason, suppressed_prompt, suppress_collaboration_completions,
}
use codexbot.Store.Tasks.Inversion.{notice, notify_sender-ok}

-- A task that awaits a completion is one of those still to be suppressed.
abbrev Covered : String → List CollaborationTask → CollaborationTask → Type 0
Covered sender os t =
    awaits_completion sender t ≡ true → any (λ (o : CollaborationTask). o.id == t.id) os ≡ true

select-Covered :
    (sender : String) (ts : List CollaborationTask)
    → All (Covered sender (select (awaits_completion sender) ts)) ts
select-Covered sender [] = tt
select-Covered sender (t ∷ ts) = elim (Bool-cases (awaits_completion sender t)) [
  | inl e ↦ (
    (λ _. ground (arith, e, eq_refl t.id)),
    All-mono _ _ (λ u h p. ground (arith, e, h p)) ts (select-Covered sender ts),
  )
  | inr e ↦ (
    (λ p. absurd (ground (arith, p, e))),
    All-mono _ _ (λ u h p. ground (arith, e, h p)) ts (select-Covered sender ts),
  )
]

linked-Covered :
    (sender completion : String) (now : Time) (os : List CollaborationTask) (t : CollaborationTask)
    → completion ≢ ""
    → Covered sender os (linked completion now t)
unfolding linked
linked-Covered sender completion now os t h p = absurd (ground (arith, eq_iff completion ""))

skipped-Covered :
    (sender : String) (o : CollaborationTask) (os : List CollaborationTask) (t : CollaborationTask)
    → unlinked_with_id o.id t ≡ false
    → Covered sender (o ∷ os) t
    → Covered sender os t
skipped-Covered sender o os t e h p = ground (arith, h p, eq_iff o.id t.id, eq_iff t.id o.id)

notice-Covered :
    (sender prompt given id : String) (now : Time) (db : Db) (o : CollaborationTask)
    (os : List CollaborationTask)
    → Covered sender os (notice o prompt given id now db)
unfolding notification
notice-Covered sender prompt given id now db o os p = absurd (ground arith)

notify_sender-Covered :
    (sender reason id : String) (now : Time) (o : CollaborationTask) (os : List CollaborationTask)
    (db : Db) (t : CollaborationTask) (db' : Db)
    → id ≢ ""
    → All (Covered sender (o ∷ os)) db.collaboration_tasks
    → notify_sender o suppressed_prompt reason id now db ≡ ok (t, db')
    → All (Covered sender os) db'.collaboration_tasks
notify_sender-Covered sender reason id now o os db t db' new h e =
    let (made, _, _, mid, i, _, last) =
      notify_sender-ok o suppressed_prompt reason id now db t db' e in
    let told : Covered sender (o ∷ os) t =
      subst (Covered sender (o ∷ os)) (sym made)
        (notice-Covered sender suppressed_prompt reason id now db o (o ∷ os)) in
    rw (last, i.result)
      (All-update (Covered sender (o ∷ os)) (Covered sender os) _ _
        (λ u _ _. linked-Covered sender id now os u new) (λ u. skipped-Covered sender o os u) _
        (All-insert _ t db.collaboration_tasks h told))

module _ (sender : String) (uuid : ℕ → String) (clock : ℕ → Time) (reason : String)
    (new : (n : ℕ) → uuid n ≢ "") where
  suppress_each-Covered :
      (n : ℕ) (os : List CollaborationTask) (db db' : Db)
      → All (Covered sender os) db.collaboration_tasks
      → suppress_each uuid clock reason n os db ≡ ok db'
      → All (Covered sender []) db'.collaboration_tasks
  unfolding suppress_each
  suppress_each-Covered n [] db db' h e =
      let same : db ≡ db' = ground arith in
      subst (λ (d : Db). All (Covered sender []) d.collaboration_tasks) same h
  suppress_each-Covered n (o ∷ os) db db' h e =
      elim (Result-cases (notify_sender o suppressed_prompt reason (uuid n) (clock n) db)) [
        | inl ((t, mid), r) ↦
            suppress_each-Covered (suc n) os mid db'
              (notify_sender-Covered sender reason (uuid n) (clock n) o os db t mid (new n) h r)
              (rw (r, suppress_each) at e)
        | inr (x, r) ↦ absurd (ground (arith, r))
      ]

cancelled-awaits :
    (sender reason : String) (now : Time) (t : CollaborationTask)
    → awaits_completion sender (cancelled reason now t) ≡ awaits_completion sender t
unfolding cancelled
cancelled-awaits sender reason now t = refl

cancelled-queued :
    (sender reason : String) (now : Time) (t : CollaborationTask)
    → queued_notification_for sender (cancelled reason now t) ≡ false
unfolding cancelled
cancelled-queued sender reason now t = ground arith

swept-clean :
    (sender reason : String) (now : Time) (ts : List CollaborationTask)
    → All (Covered sender []) ts
    → let swept = update (queued_notification_for sender) (cancelled reason now) ts in
      (any (awaits_completion sender) swept ≡ false)
      × (any (queued_notification_for sender) swept ≡ false)
swept-clean sender reason now ts h = (
  any-none_of_All (awaits_completion sender) _ (
      All-update (Covered sender []) (λ t. awaits_completion sender t ≡ false)
        (queued_notification_for sender) (cancelled reason now)
        (λ t _ c. ground (arith, c, cancelled-awaits sender reason now t))
        (λ t _ c. ground (arith, c)) ts h),
  any-update_none (queued_notification_for sender) (queued_notification_for sender)
      (cancelled reason now) ts (λ t _. cancelled-queued sender reason now t) (λ t e. e),
)

module _ (uuid : ℕ → String) (clock : ℕ → Time) (new : (n : ℕ) → uuid n ≢ "") where
  -- Given identifiers that are not empty, a suppression that succeeds leaves no task of the sender
  -- that will still ask for a notification, and no notification queued for the sender.
  pub suppress_complete :
      (sender reason : String) (now : Time) (db db' : Db)
      → suppress_collaboration_completions uuid clock sender reason now db ≡ ok db'
      → (any (awaits_completion sender) db'.collaboration_tasks ≡ false)
        × (any (queued_notification_for sender) db'.collaboration_tasks ≡ false)
  unfolding suppress_collaboration_completions
  suppress_complete sender reason now db db' h =
      let why = sender_reason reason in
      let originals = select (awaits_completion sender) db.collaboration_tasks in
      elim (Result-cases (suppress_each uuid clock why 0 originals db)) [
        | inr (x, e) ↦ absurd (ground (arith, e))
        | inl (mid, e) ↦
            let covered =
              suppress_each-Covered sender uuid clock why new 0 originals db mid
                (select-Covered sender db.collaboration_tasks) e in
            let last : db'.collaboration_tasks
                ≡ update (queued_notification_for sender) (cancelled why now)
                    mid.collaboration_tasks =
              ground (arith, e) in
            rw last (swept-clean sender why now mid.collaboration_tasks covered)
      ]

-- ===== src/Server/Quiet/Dispatch.antt =====
-- When the dispatcher makes no call.
use codexbot.Common.{
  ℕ, suc, ◌≡◌, refl, ◌⊎◌, inl, inr, true, false, String, List, [], ◌∷◌, Option, none, some, arith,
  find?, ok, err, Result, Bool-cases, ◌==◌, not_found,
}
use codexbot.Clock.{Time}
use codexbot.Domain.Task.{CollaborationTask}
use codexbot.Domain.Records.{Agent, Run, Conversation, is_scheduled}
use codexbot.Store.Desktop.{human_controls_desktop}
use codexbot.Store.Runs.{run}
use codexbot.Store.Tasks.Delivery.{
  collaboration_task, cancel_collaboration_task_with_reason, cancel_queued_collaboration_tasks,
}
use codexbot.Server.World.{World, Env, Action, done, ◌>>=◌, skip, read}
use codexbot.Server.Completions.{
  enqueue_each, enqueue_collaboration_completions, filter_one, filter_collaboration_completions,
  is_current,
}
use codexbot.Server.Dispatch.{
  may_steer, is_steerable, deliver_into, deliver, dispatch_filtered, dispatch_to, dispatch_pending,
  dispatch_collaboration,
}
use codexbot.Server.Quiet.{
  IsEngaged, IsQuiet, complete_one-Frame, ensure-Frame, bind-IsQuiet, then-IsQuiet, try-IsQuiet,
  if-IsQuiet, pure-IsQuiet, read-IsQuiet, settle-IsQuiet, skip-IsQuiet, fail-IsQuiet, write-IsQuiet,
  query-IsQuiet, change-IsQuiet, perform-IsQuiet, Quiet-refl,
}

module _ (target : String) (now : Time) where
  module _ (env : Env) where
    enqueue_each-IsQuiet :
        (n : ℕ) (ts : List CollaborationTask) → IsQuiet target now (enqueue_each env n ts)
    unfolding enqueue_each
    enqueue_each-IsQuiet n [] = pure-IsQuiet target now _
    enqueue_each-IsQuiet n (t ∷ rest) =
        bind-IsQuiet target now _ _
          (try-IsQuiet target now _
            (perform-IsQuiet target now _ (λ db u db' e. complete_one-Frame t.id _ _ _ db u db' e)))
          (λ r.
            bind-IsQuiet target now _ _ (enqueue_each-IsQuiet (suc n) rest)
              (λ later. pure-IsQuiet target now _))

    enqueue_completions-IsQuiet :
        (sender : String) → IsQuiet target now (enqueue_collaboration_completions env sender)
    unfolding enqueue_collaboration_completions
    enqueue_completions-IsQuiet sender =
        bind-IsQuiet target now _ _ (read-IsQuiet target now _) (λ tasks.
          bind-IsQuiet target now _ _ (enqueue_each-IsQuiet 0 tasks)
            (λ r. settle-IsQuiet target now r))

    filter_one-IsQuiet :
        (n : ℕ) (a : Agent) (t : CollaborationTask) (r : Run) (c : Conversation)
        → IsQuiet target now (filter_one env n a t r c)
    unfolding filter_one cancel_collaboration_task_with_reason
    filter_one-IsQuiet n a t r c =
        if-IsQuiet target now (is_current a r c) _ _ (pure-IsQuiet target now _)
          (change-IsQuiet target now _ (λ db. record { runs = refl; leases = refl }))

    filter-IsQuiet :
        (n : ℕ) (a : Agent) (ts : List CollaborationTask)
        → IsQuiet target now (filter_collaboration_completions env n a ts)
    unfolding filter_collaboration_completions
    filter-IsQuiet n a [] = pure-IsQuiet target now _
    filter-IsQuiet n a (t ∷ ts) =
        if-IsQuiet target now (t.notification_for_task_id == "") _ _
          (bind-IsQuiet target now _ _ (filter-IsQuiet (suc n) a ts)
            (λ more. pure-IsQuiet target now _))
          (bind-IsQuiet target now _ _
            (query-IsQuiet target now (collaboration_task t.notification_for_task_id))
            (λ original.
              bind-IsQuiet target now _ _ (query-IsQuiet target now (run original.sender_run_id))
                (λ r.
                  bind-IsQuiet target now _ _
                    (perform-IsQuiet target now _ (λ db c db' e. ensure-Frame a.id _ _ db c db' e))
                    (λ c. bind-IsQuiet target now _ _ (filter_one-IsQuiet n a t r c) (λ kept.
                      bind-IsQuiet target now _ _ (filter-IsQuiet (suc n) a ts)
                        (λ more. pure-IsQuiet target now _))))))

deliver_skips :
    (env : Env) (a : Agent) (t : CollaborationTask) (ts : List CollaborationTask) (r : Run)
    (w : World)
    → (is_scheduled r.source ≡ true) ⊎ (is_steerable r ≡ false)
    → deliver env a t ts (ok r) w ≡ (done tt, w)
unfolding deliver deliver_into skip
deliver_skips env a t ts r w k = elim (Bool-cases (is_scheduled r.source)) [
  | inl s ↦ rw s refl
  | inr s ↦ elim k [
    | inl s' ↦ absurd (ground (arith, s, s'))
    | inr n ↦ rw s (into (find? may_steer (t ∷ ts)) n)
  ]
]
  where
    into :
        (o : Option CollaborationTask)
        → is_steerable r ≡ false
        → deliver_into env r o w ≡ (done tt, w)
    into none n = refl
    into (some u) n = rw n refl

module _ (env : Env) (target : String) where
  abbrev IsSilent : {A : Type 0} → Action A → Type 0
  IsSilent m = IsQuiet target (env.clock "human" 0) m

  filtered_skips :
      (a : Agent) (t : CollaborationTask) (ts : List CollaborationTask) (w : World)
      → IsEngaged target (env.clock "human" 0) w.db
      → dispatch_filtered env target a (t ∷ ts) w ≡ (done tt, w)
  unfolding dispatch_filtered ◌>>=◌ read skip
  filtered_skips a t ts w engaged =
      elim (Bool-cases (human_controls_desktop target (env.clock "human" 0) w.db)) [
        | inl h ↦ rw h refl
        | inr h ↦ elim engaged [
          | inl h' ↦ absurd (ground (arith, h, h'))
          | inr (r, e, k) ↦ rw (h, e) (deliver_skips env a t ts r w k)
        ]
      ]

  filtered-IsSilent :
      (a : Agent) (ts : List CollaborationTask) → IsSilent (dispatch_filtered env target a ts)
  unfolding dispatch_filtered
  filtered-IsSilent a [] = skip-IsQuiet target _
  filtered-IsSilent a (t ∷ ts) = record {
    at = λ w engaged. rw (filtered_skips a t ts w engaged) (Quiet-refl target _ w engaged);
  }

  to-IsSilent :
      (ts : List CollaborationTask) (found : Result Agent)
      → IsSilent (dispatch_to env target ts found)
  unfolding dispatch_to cancel_queued_collaboration_tasks
  to-IsSilent ts (ok a) =
      bind-IsQuiet target _ _ _ (filter-IsQuiet target _ env 0 a ts) (filtered-IsSilent a)
  to-IsSilent ts (err x) = elim x as (λ k. IsSilent (dispatch_to env target ts (err k))) [
    | not_found ↦ write-IsQuiet target _ _ (λ db. record { runs = refl; leases = refl })
    | _ ↦ fail-IsQuiet target _ _
  ]

  pending-IsSilent : (ts : List CollaborationTask) → IsSilent (dispatch_pending env target ts)
  unfolding dispatch_pending
  pending-IsSilent [] = skip-IsQuiet target _
  pending-IsSilent (t ∷ ts) =
      bind-IsQuiet target _ _ _ (read-IsQuiet target _ _) (to-IsSilent (t ∷ ts))

  -- While a human has the desktop of an agent, or its active run is one of a schedule or takes no
  -- message yet, the dispatcher makes no call for the agent, whatever tasks, notifications and ends
  -- of tasks wait, and whatever errors the store gives; what engages the agent stays.
  pub dispatch-IsEngaged :
      (w : World)
      → IsEngaged target (env.clock "human" 0) w.db
      → ((dispatch_collaboration env target w).1.calls ≡ w.calls)
        × IsEngaged target (env.clock "human" 0) (dispatch_collaboration env target w).1.db
  unfolding dispatch_collaboration
  dispatch-IsEngaged w engaged =
      let all =
        then-IsQuiet target (env.clock "human" 0) _ _
          (enqueue_completions-IsQuiet target _ env target)
          (bind-IsQuiet target _ _ _ (read-IsQuiet target _ _) pending-IsSilent) in
      let q = all.at w engaged in (q.calls, q.engaged)

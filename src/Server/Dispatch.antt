-- ===== src/Server/Dispatch.antt =====
-- The dispatcher of internal/httpapi/collaboration.go: which queued task an agent gets next, and
-- whether it gets it into the active turn or as a new one.
use codexbot.Common.{
  Bool, false, not, ◌&&◌, String, List, [], ◌∷◌, Option, none, some, find?, ◌==◌, if◌then◌else◌,
  pos, not_found, Result, ok, err,
}
use codexbot.Domain.Task.{CollaborationTask, is_steer}
use codexbot.Domain.Records.{Agent, Run, RunStatus, is_scheduled}
use codexbot.Store.Agents.{agent}
use codexbot.Store.Desktop.{human_controls_desktop}
use codexbot.Store.Runs.{active_run}
use codexbot.Store.Tasks.Delivery.{cancel_queued_collaboration_tasks}
use codexbot.Store.Tasks.Query.{pending_collaboration_tasks}
use codexbot.Server.World.{Env, Action, fault, fail, ◌>>=◌, ◌>>◌, skip, read, write, ignore}
use codexbot.Server.Completions.{
  enqueue_collaboration_completions, filter_collaboration_completions,
}
use codexbot.Server.Steer.{steer_collaboration}
use codexbot.Server.Start.{start_collaboration}

-- A task that may go into a turn: a steer that was not rejected before.
abbrev pub may_steer : CollaborationTask → Bool
may_steer t = is_steer t.mode && not t.steer_fallback

abbrev pub is_steerable : Run → Bool
is_steerable r = elim r.status [ RunStatus.running ↦ not (r.codex_turn_id == "") | _ ↦ false ]

-- The task for an active run.
unfoldable pub deliver_into : Env → Run → Option CollaborationTask → Action (Unit {0})
deliver_into env r none = skip
deliver_into env r (some t) = if is_steerable r then steer_collaboration env t r else skip

-- What follows, by the active run, if there is one.
unfoldable pub deliver :
    Env → Agent → CollaborationTask → List CollaborationTask → Result Run → Action (Unit {0})
unfolding deliver_into
deliver env a t tasks (ok r) =
    if is_scheduled r.source then skip else deliver_into env r (find? may_steer (t ∷ tasks))
deliver env a t tasks (err not_found) = start_collaboration env a t
deliver env a t tasks (err e) = fail (fault e)

-- The tasks that are left after the filter.
unfoldable pub dispatch_filtered : Env → String → Agent → List CollaborationTask → Action (Unit {0})
unfolding deliver
dispatch_filtered env target a [] = skip
dispatch_filtered env target a (t ∷ tasks) = do
  human ← read (human_controls_desktop target (env.clock "human" 0))
  active ← read (active_run target)
  if human then skip else deliver env a t tasks active

-- The agent of the tasks.
unfoldable pub dispatch_to :
    Env → String → List CollaborationTask → Result Agent → Action (Unit {0})
unfolding dispatch_filtered
dispatch_to env target tasks (err not_found) =
    write
      (cancel_queued_collaboration_tasks target "target agent unavailable" (env.clock "cancel" 0))
dispatch_to env target tasks (err e) = fail (fault e)
dispatch_to env target tasks (ok a) = do
  kept ← filter_collaboration_completions env 0 a tasks
  dispatch_filtered env target a kept

-- The tasks that wait.
unfoldable pub dispatch_pending : Env → String → List CollaborationTask → Action (Unit {0})
unfolding dispatch_to
dispatch_pending env target [] = skip
dispatch_pending env target (t ∷ tasks) = do
  found ← read (agent target)
  dispatch_to env target (t ∷ tasks) found

-- dispatchCollaboration
unfoldable pub dispatch_collaboration : Env → String → Action (Unit {0})
unfolding dispatch_pending
dispatch_collaboration env target = do
  enqueue_collaboration_completions env target
  tasks ← read (pending_collaboration_tasks target (pos 100))
  dispatch_pending env target tasks

-- The dispatchers of one round, in the order of their targets; their errors are logged.
unfoldable pub dispatch_each : (String → Env) → List String → Action (Unit {0})
unfolding dispatch_collaboration
dispatch_each envs [] = skip
dispatch_each envs (target ∷ rest) = do
  ignore (dispatch_collaboration (envs target) target)
  dispatch_each envs rest

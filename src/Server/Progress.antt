-- ===== src/Server/Progress.antt =====
-- What a run of the dispatcher gets done.
use codexbot.Common.{◌+◌, ◌≤◌, ◌≡◌, true, false, String, List, [], ◌∷◌, ok, All, ◌==◌, pos}
use codexbot.Domain.Task.{CollaborationTask}
use codexbot.Domain.Records.{Agent}
use codexbot.Store.Agents.{agent}
use codexbot.Store.Desktop.{human_controls_desktop}
use codexbot.Store.Tasks.Query.{pending_collaboration_tasks, pending_collaboration_completions}
use codexbot.Server.World.{World, Env}
use codexbot.Server.Dispatch.{dispatch_collaboration}
use codexbot.Server.Effects.Dispatch.{dispatch-Does}
use codexbot.Server.Rules.{deliveries}

-- Whatever the replies of the manager, a run of the dispatcher delivers at most one task.
pub dispatch-deliveries :
    (env : Env) (target : String) (w : World)
    → deliveries (dispatch_collaboration env target w).1 ≤ 1 + deliveries w
dispatch-deliveries env target w = ((dispatch-Does env target).at w).spent

abbrev pub IsPlain : CollaborationTask → Type 0
IsPlain t = (t.notification_for_task_id == "") ≡ true

-- What the dispatcher meets: a live agent whose desktop no human holds, tasks for it that are no
-- notifications, the oldest one first, and no end of a task that its sender is to hear of.
pub record Meets (env : Env) (target : String) (w : World) (a : Agent) (t : CollaborationTask)
    (ts : List CollaborationTask) : Type 0 where
  pub completions : pending_collaboration_completions target (pos 100) w.db ≡ []
  pub pending : pending_collaboration_tasks target (pos 100) w.db ≡ t ∷ ts
  pub live : agent target w.db ≡ ok a
  pub plain : All IsPlain (t ∷ ts)
  pub free : human_controls_desktop target (env.clock "human" 0) w.db ≡ false

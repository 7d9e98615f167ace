-- ===== src/Orchestrator/Actions.antt =====
-- The orchestrator as a whole: every handler as an action, in any order that the requests, the
-- launchers and the dispatcher make.
use gpstation.Prelude.{
  ℕ, String, Bool, Option, some, List, [], ◌∷◌, ◌≡◌, ◌≢◌, false, true, Memᴰ, contains,
  Distinct-unique, arith,
}
use gpstation.Prelude.Dict.{Dict, get}
use gpstation.Protocol.{Json, Codec, LauncherMessage}
use gpstation.Jobs.Rows.{Job, is_active}
use gpstation.Jobs.Claim.{Pair}
use gpstation.Jobs.Effects.{ids}
use gpstation.Registry.Launchers.{LauncherRuntime}
use gpstation.Orchestrator.Server.{Server}
use gpstation.Orchestrator.Handlers.{
  create, kill_job, reset_launcher_worker, handle_launcher_job_event, launcher_disconnected,
}
use gpstation.Orchestrator.Dispatch.{
  claim_round, deliver_job_start, expire_stale, revalidate_launcher_access_keys,
  reconcile_disconnected_launchers,
}
use gpstation.Orchestrator.Connections.{connect_launcher, Heartbeat, handle_heartbeat}
use gpstation.Orchestrator.Claiming.{claim_round-Coherent}
use gpstation.Orchestrator.Settling.{handle-Coherent}
use gpstation.Orchestrator.Upkeep.{InStep, create-InStep, kill-InStep, reset-InStep}
use gpstation.Orchestrator.Sweeps.{
  disconnected-InStep, deliver-InStep, expire-InStep, revalidate-InStep, reconcile-InStep,
}
use gpstation.Orchestrator.Links.{connect-InStep, heartbeat-InStep}

pub data Action : Type 0 where
  creates : ℕ → ℕ → String → String → ℕ → Json → ℕ → Action
  kills : ℕ → Option ℕ → Option ℕ → Bool → Bool → ℕ → ℕ → Action
  resets : ℕ → Option ℕ → Bool → ℕ → ℕ → Action
  reports : ℕ → ℕ → LauncherMessage → ℕ → ℕ → Action
  beats : (ℕ → Bool) → ℕ → Heartbeat → ℕ → ℕ → Action
  connects : ℕ → ℕ → List ℕ → ℕ → Dict ℕ → Option ℕ → ℕ → ℕ → Action
  disconnects : ℕ → ℕ → Action
  claims : (Pair → Bool) → ℕ → Action
  delivers : ℕ → ℕ → Bool → ℕ → Action
  expires : (Job → Bool) → ℕ → Action
  revalidates : (ℕ → Bool) → ℕ → ℕ → ℕ → Action
  reconciles : List ℕ → Option ℕ → ℕ → Action

unfoldable pub act : Codec → Server → Action → Server
act c s (creates id user handler name app offer now) =
    (create c id user handler name app offer now s).1
act c s (kills job user launcher send sent now later) =
    (kill_job job user launcher send sent now later s).1
act c s (resets launcher user sent now later) =
    (reset_launcher_worker launcher user sent now later s).1
act c s (reports launcher user message now later) =
    (handle_launcher_job_event c launcher user message now later s).1
act c s (beats active launcher message clock now) =
    (handle_heartbeat active launcher message clock now s).1
act c s (connects launcher user apps socket timeouts key clock now) =
    connect_launcher launcher user apps socket timeouts key clock now s
act c s (disconnects launcher now) = launcher_disconnected launcher now s
act c s (claims locked now) = (claim_round locked now s).1
act c s (delivers job launcher sent now) = deliver_job_start job launcher sent now s
act c s (expires locked now) = expire_stale locked now s
act c s (revalidates active interval clock now) =
    (revalidate_launcher_access_keys active interval clock now s).1
act c s (reconciles connected user now) = (reconcile_disconnected_launchers connected user now s).1

unfoldable pub act_all : Codec → Server → List Action → Server
act_all c s [] = s
act_all c s (a ∷ rest) = act_all c (act c s a) rest

-- New rows get ids, random UUIDs, that nothing refers to yet.
abbrev pub IsFresh : Server → Action → Type 0
IsFresh s (creates id _ _ _ _ _ _) = contains (ids s.db.jobs) id ≡ false
IsFresh s (connects launcher _ _ _ _ _ _ _) =
    (j : Job) → Memᴰ j s.db.jobs → j.launcher_id ≢ some launcher
IsFresh s _ = Unit

abbrev pub AllFresh : Codec → Server → List Action → Type 0
AllFresh c s [] = Unit
AllFresh c s (a ∷ rest) = IsFresh s a × AllFresh c (act c s a) rest

pub act-InStep : (c : Codec) (s : Server) (a : Action) → IsFresh s a → InStep s → InStep (act c s a)
unfolding act
act-InStep c s (creates id user handler name app offer now) f v =
    create-InStep c id user handler name app offer now s f v
act-InStep c s (kills job user launcher send sent now later) f v =
    kill-InStep job user launcher send sent now later s v
act-InStep c s (resets launcher user sent now later) f v =
    reset-InStep launcher user sent now later s v
act-InStep c s (reports launcher user message now later) f v =
    handle-Coherent c launcher user message now later s v
act-InStep c s (beats active launcher message clock now) f v =
    heartbeat-InStep active launcher message clock now s v
act-InStep c s (connects launcher user apps socket timeouts key clock now) f v =
    connect-InStep launcher user apps socket timeouts key clock now s f v
act-InStep c s (disconnects launcher now) f v = disconnected-InStep launcher now s v
act-InStep c s (claims locked now) f v = claim_round-Coherent locked now s v
act-InStep c s (delivers job launcher sent now) f v = deliver-InStep job launcher sent now s v
act-InStep c s (expires locked now) f v = expire-InStep locked now s v
act-InStep c s (revalidates active interval clock now) f v =
    revalidate-InStep active interval clock now s v
act-InStep c s (reconciles connected user now) f v = reconcile-InStep connected user now s v

-- After any sequence of actions whose new rows get ids that nothing refers to yet, from a state in which
-- the database and the registry agree, they agree: ids are unique, every row is sound, and the registry has each active job of a connected
-- launcher as that launcher's current job.
pub act_all-InStep :
    (c : Codec) (s : Server) (actions : List Action)
    → AllFresh c s actions
    → InStep s
    → InStep (act_all c s actions)
unfolding act_all
act_all-InStep c s [] f v = v
act_all-InStep c s (a ∷ rest) f v = act_all-InStep c (act c s a) rest f.1 (act-InStep c s a f.0 v)

-- A connected launcher never has two active jobs, after any sequence of actions whose new rows get ids
-- that nothing refers to yet, from a state in which the database and the registry agree.
pub one_job_each :
    (c : Codec) (s : Server) (actions : List Action) (j k : Job) (launcher : ℕ)
    (r : LauncherRuntime)
    → AllFresh c s actions
    → InStep s
    → Memᴰ j (act_all c s actions).db.jobs
    → Memᴰ k (act_all c s actions).db.jobs
    → is_active j.state ≡ true
    → is_active k.state ≡ true
    → j.launcher_id ≡ some launcher
    → k.launcher_id ≡ some launcher
    → get (act_all c s actions).launchers launcher ≡ some r
    → j ≡ k
one_job_each c s actions j k launcher r f v m n a b on by g =
    let w = act_all-InStep c s actions f v in
    let mine = w.owned j launcher r m a on g in
    let theirs = w.owned k launcher r n b by g in
    Distinct-unique (λ i. i.id) (act_all c s actions).db.jobs w.table.distinct m n
      (ground (arith, mine, theirs))

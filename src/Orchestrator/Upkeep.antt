-- ===== src/Orchestrator/Upkeep.antt =====
-- Creating, killing and resetting keep the database and the registry in step.
use gpstation.Prelude.{
  ℕ, String, Bool, false, Option, none, some, List, [], ◌∷◌, ◌≡◌, refl, inl, inr, Bool-cases,
  Option-cases, contains,
}
use gpstation.Prelude.Dict.{get}
use gpstation.Protocol.{Json, Codec}
use gpstation.Jobs.Rows.{Job, Db, Outcome, returned, raised, after, cancelled}
use gpstation.Jobs.Reports.{create_job}
use gpstation.Jobs.Ending.{fail_assigned_job, request_kill}
use gpstation.Jobs.Effects.{ids, Effect, Created-Effect, create-Created, kill-Effect, fail-Effect}
use gpstation.Registry.Launchers.{
  LauncherRuntime, Launchers, start_reset, mark_launcher_resetting, remove_launcher,
}
use gpstation.Orchestrator.Server.{Server, signal_job, signal_jobs, disconnect_launcher, delivers}
use gpstation.Orchestrator.Handlers.{
  store_created, create, cancel_unreachable, send_cancel_to, kill_job, kill_current, abandon_reset,
  send_reset, reset_launcher_worker,
}
use gpstation.Orchestrator.Ownership.{
  Coherent, Effect-Coherent, Weaker, Weaker-Coherent, Weaker-pop, Weaker-adjust,
}

-- The two stay in step in the state.
abbrev pub InStep : Server → Type 0
InStep s = Coherent s.db s.launchers

pub db-InStep :
    (s : Server) (db : Db) → Effect false s.db.jobs db.jobs → InStep s → Coherent db s.launchers
db-InStep s db e c = Effect-Coherent s.db db s.launchers e c

pub disconnect-InStep : (id : ℕ) (s : Server) → InStep s → InStep (disconnect_launcher id s)
unfolding disconnect_launcher remove_launcher
disconnect-InStep id s c = Weaker-Coherent s.db s.launchers _ (Weaker-pop s.launchers id) c

pub signal_jobs-InStep : (js : List Job) (s : Server) → InStep s → InStep (signal_jobs js s)
signal_jobs-InStep [] s c = c
signal_jobs-InStep (j ∷ js) s c = signal_jobs-InStep js (signal_job j.id s) c

store_created-InStep :
    (o : Outcome (Job × Db)) (s : Server)
    → Effect false s.db.jobs (after s.db o).jobs
    → InStep s
    → InStep (store_created o s).1
store_created-InStep (raised message) s e v = v
store_created-InStep (returned (job, db)) s e v = db-InStep s db e v

pub create-InStep :
    (c : Codec) (id user : ℕ) (handler name : String) (app : ℕ) (offer : Json) (now : ℕ)
    (s : Server)
    → contains (ids s.db.jobs) id ≡ false
    → InStep s
    → InStep (create c id user handler name app offer now s).1
unfolding create
create-InStep c id user handler name app offer now s fresh v =
    store_created-InStep (create_job c id user handler name app offer now s.db) s
      (Created-Effect fresh (create-Created c id user handler name app offer now s.db)) v

cancel_unreachable-InStep :
    (job launcher : ℕ) (detail : String) (now : ℕ) (s : Server)
    → InStep s
    → InStep (cancel_unreachable job launcher detail now s)
unfolding cancel_unreachable
cancel_unreachable-InStep job launcher detail now s v =
    let done = db-InStep s _ (fail-Effect now s.db job launcher detail cancelled refl) v in
    elim (Option-cases (fail_assigned_job job launcher detail cancelled now s.db).0) [
      | inl n ↦ rw (n, cancel_unreachable) done
      | inr (k, e) ↦
          rw (e, cancel_unreachable)
            (disconnect-InStep launcher
              (record s { db = (fail_assigned_job job launcher detail cancelled now s.db).1 }) done)
    ]

send_cancel_to-InStep :
    (launcher : Option ℕ) (job : ℕ) (sent : Bool) (now : ℕ) (s : Server)
    → InStep s
    → InStep (send_cancel_to launcher job sent now s)
send_cancel_to-InStep none job sent now s v = v
send_cancel_to-InStep (some launcher) job sent now s v =
    elim (Bool-cases (delivers launcher sent s)) [
      | inl y ↦ rw y v
      | inr n ↦ rw n (cancel_unreachable-InStep job launcher _ now s v)
    ]

pub kill-InStep :
    (job : ℕ) (user launcher : Option ℕ) (send sent : Bool) (now later : ℕ) (s : Server)
    → InStep s
    → InStep (kill_job job user launcher send sent now later s).1
unfolding kill_job
kill-InStep job user launcher send sent now later s v =
    let done = db-InStep s _ (kill-Effect now s.db job user launcher) v in
    elim (Option-cases (request_kill job user launcher now s.db).0) [
      | inl n ↦ rw (n, kill_job) done
      | inr (k, e) ↦ rw (e, kill_job) (send_cancel_to-InStep _ job sent later _ done)
    ]

kill_current-InStep :
    (launcher : ℕ) (user job : Option ℕ) (now : ℕ) (s : Server)
    → InStep s
    → InStep (kill_current launcher user job now s)
kill_current-InStep launcher user none now s v = v
kill_current-InStep launcher user (some job) now s v =
    kill-InStep job user (some launcher) false false now now s v

abandon_reset-InStep :
    (launcher : ℕ) (job : Option ℕ) (now : ℕ) (s : Server)
    → InStep s
    → InStep (abandon_reset launcher job now s)
abandon_reset-InStep launcher none now s v = disconnect-InStep launcher s v
abandon_reset-InStep launcher (some job) now s v = disconnect-InStep launcher _ (
    db-InStep s _
      (fail-Effect now s.db job launcher "launcher unavailable during worker reset" cancelled refl)
      v)

send_reset-InStep :
    (launcher : ℕ) (r : LauncherRuntime) (sent : Bool) (now : ℕ) (s : Server)
    → InStep s
    → InStep (send_reset launcher r sent now s).1
send_reset-InStep launcher r sent now s v = elim (Bool-cases (delivers launcher sent s)) [
  | inl y ↦ rw y v
  | inr n ↦ rw n (abandon_reset-InStep launcher r.current_job_id now s v)
]

resetting-Weaker :
    (launcher : ℕ) (launchers : Launchers)
    → Weaker launchers (mark_launcher_resetting launcher launchers).1
unfolding mark_launcher_resetting
resetting-Weaker launcher launchers = elim (Option-cases (get launchers launcher)) [
  | inl n ↦ rw (n, mark_launcher_resetting) (λ l r g. (r, g, refl))
  | inr (q, e) ↦ elim (Bool-cases q.resetting) [
    | inl y ↦ rw (e, mark_launcher_resetting) (rw y (λ l r g. (r, g, refl)))
    | inr n ↦
        rw (e, mark_launcher_resetting)
          (rw n (Weaker-adjust launchers launcher start_reset (λ p h. refl)))
  ]
]

pub reset-InStep :
    (launcher : ℕ) (user : Option ℕ) (sent : Bool) (now later : ℕ) (s : Server)
    → InStep s
    → InStep (reset_launcher_worker launcher user sent now later s).1
unfolding reset_launcher_worker
reset-InStep launcher user sent now later s v =
    let marked = Weaker-Coherent s.db s.launchers _ (resetting-Weaker launcher s.launchers) v in
    elim (Option-cases (mark_launcher_resetting launcher s.launchers).0) [
      | inl n ↦ rw (n, reset_launcher_worker) marked
      | inr (r, e) ↦
          rw (e, reset_launcher_worker)
            (send_reset-InStep launcher r sent later _
              (kill_current-InStep launcher user r.current_job_id now _ marked))
    ]

-- ===== src/Orchestrator/Sweeps.antt =====
-- The handlers that drop launchers and end jobs keep the database and the registry in step.
use gpstation.Prelude.{
  ℕ, String, Bool, true, not, Option, List, [], ◌∷◌, refl, inl, inr, Bool-cases, Option-cases,
  contains, filter,
}
use gpstation.Prelude.Dict.{pop, select}
use gpstation.Jobs.Rows.{Job, Db, failed}
use gpstation.Jobs.Ending.{expire_stale_jobs, disconnect_launchers_and_fail_jobs}
use gpstation.Jobs.LauncherRows.{find_disconnected_launcher_ids}
use gpstation.Jobs.Effects.{fail-Effect, disconnect-Effect, expire-Effect}
use gpstation.Registry.Launchers.{
  pop_all, access_key_revalidation_targets, Launchers, remove_launcher,
  mark_access_keys_revalidated,
}
use gpstation.Orchestrator.Server.{Server, signal_job, disconnect_launcher, delivers}
use gpstation.Orchestrator.Handlers.{launcher_disconnected}
use gpstation.Orchestrator.Dispatch.{
  drop_invalid, deliver_job_start, drop_jobs, expire_stale, revalidate_launcher_access_keys,
  reconcile_disconnected_launchers,
}
use gpstation.Orchestrator.Ownership.{Coherent, Weaker-Coherent, Weaker-pop, Weaker-adjust}
use gpstation.Orchestrator.Upkeep.{InStep, db-InStep, disconnect-InStep, signal_jobs-InStep}

pub disconnected-InStep :
    (launcher now : ℕ) (s : Server) → InStep s → InStep (launcher_disconnected launcher now s)
unfolding launcher_disconnected remove_launcher
disconnected-InStep launcher now s v =
    let (jobs, db) =
      disconnect_launchers_and_fail_jobs (launcher ∷ []) "launcher disconnected" now s.db in
    signal_jobs-InStep jobs (record s { db = db; launchers = pop s.launchers launcher })
      (Weaker-Coherent db s.launchers (pop s.launchers launcher) (Weaker-pop s.launchers launcher)
        (db-InStep s db (disconnect-Effect now s.db (launcher ∷ []) "launcher disconnected") v))

pub deliver-InStep :
    (job launcher : ℕ) (sent : Bool) (now : ℕ) (s : Server)
    → InStep s
    → InStep (deliver_job_start job launcher sent now s)
unfolding deliver_job_start
deliver-InStep job launcher sent now s v = elim (Bool-cases (delivers launcher sent s)) [
  | inl y ↦ rw y v
  | inr n ↦ rw n (
      db-InStep (disconnect_launcher launcher s) _
        (fail-Effect now _ job launcher "launcher unavailable" failed refl)
        (disconnect-InStep launcher s v))
]

drop_jobs-InStep : (js : List Job) (s : Server) → InStep s → InStep (drop_jobs js s)
drop_jobs-InStep [] s v = v
drop_jobs-InStep (j ∷ js) s v = elim (Option-cases j.launcher_id) [
  | inl n ↦ rw n (drop_jobs-InStep js (signal_job j.id s) v)
  | inr (l, e) ↦ rw e (
      drop_jobs-InStep js (disconnect_launcher l (signal_job j.id s))
        (disconnect-InStep l (signal_job j.id s) v))
]

pub expire-InStep :
    (locked : Job → Bool) (now : ℕ) (s : Server) → InStep s → InStep (expire_stale locked now s)
unfolding expire_stale
expire-InStep locked now s v =
    let (jobs, db) = expire_stale_jobs locked now s.db in
    drop_jobs-InStep jobs (record s { db = db }) (db-InStep s db (expire-Effect now s.db locked) v)

pop_all-Coherent :
    (ks : List ℕ) (db : Db) (launchers : Launchers)
    → Coherent db launchers
    → Coherent db (pop_all ks launchers)
pop_all-Coherent [] db launchers v = v
pop_all-Coherent (l ∷ ls) db launchers v =
    pop_all-Coherent ls db (pop launchers l)
      (Weaker-Coherent db launchers (pop launchers l) (Weaker-pop launchers l) v)

revalidated-InStep :
    (ks : List ℕ) (now : ℕ) (db : Db) (launchers : Launchers)
    → Coherent db launchers
    → Coherent db (mark_access_keys_revalidated ks now launchers)
unfolding mark_access_keys_revalidated
revalidated-InStep [] now db launchers v = v
revalidated-InStep (l ∷ ls) now db launchers v =
    revalidated-InStep ls now db _
      (Weaker-Coherent db launchers _ (Weaker-adjust launchers l _ (λ q h. refl)) v)

pub reconcile-InStep :
    (connected : List ℕ) (user : Option ℕ) (now : ℕ) (s : Server)
    → InStep s
    → InStep (reconcile_disconnected_launchers connected user now s).1
unfolding reconcile_disconnected_launchers
reconcile-InStep connected user now s v =
    let found = find_disconnected_launcher_ids connected user now s.db in
    let lost = filter (λ id. not (contains (select s.launchers (λ l. true)) id)) found in
    let (jobs, db) =
      disconnect_launchers_and_fail_jobs lost "launcher reconciled as disconnected" now s.db in
    signal_jobs-InStep jobs (record s { db = db })
      (db-InStep s db (disconnect-Effect now s.db lost "launcher reconciled as disconnected") v)

drop_invalid-InStep :
    (invalid : List ℕ) (now : ℕ) (s : Server) → InStep s → InStep (drop_invalid invalid now s).1
drop_invalid-InStep [] now s v = v
drop_invalid-InStep (id ∷ rest) now s v =
    let detail : String = "launcher access key is no longer active" in
    let (jobs, db) = disconnect_launchers_and_fail_jobs (id ∷ rest) detail now s.db in
    signal_jobs-InStep jobs (record s { db = db; launchers = pop_all (id ∷ rest) s.launchers })
      (pop_all-Coherent (id ∷ rest) db s.launchers
        (db-InStep s db (disconnect-Effect now s.db (id ∷ rest) detail) v))

pub revalidate-InStep :
    (active : ℕ → Bool) (interval clock now : ℕ) (s : Server)
    → InStep s
    → InStep (revalidate_launcher_access_keys active interval clock now s).1
unfolding revalidate_launcher_access_keys
revalidate-InStep active interval clock now s v = drop_invalid-InStep _ now _ (
    revalidated-InStep (access_key_revalidation_targets clock interval s.launchers) clock s.db
      s.launchers v)

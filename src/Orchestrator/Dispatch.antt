-- ===== src/Orchestrator/Dispatch.antt =====
-- app_v1/server/app/service/job_orchestrator.py: the dispatcher's passes over the queue, the stale
-- jobs and the launchers that are gone.
use gpstation.Prelude.{
  ℕ, zero, suc, Bool, true, false, not, Option, none, some, List, [], ◌∷◌, if◌then◌else◌, length,
  contains, filter,
}
use gpstation.Prelude.Dict.{select}
use gpstation.Jobs.Rows.{Job, failed}
use gpstation.Jobs.Claim.{Pair, claim_next_compatible_job}
use gpstation.Jobs.Ending.{fail_assigned_job, disconnect_launchers_and_fail_jobs, expire_stale_jobs}
use gpstation.Jobs.LauncherRows.{find_disconnected_launcher_ids}
use gpstation.Registry.Launchers.{
  Launchers, pop_all, mark_launcher_job, idle_launcher_ids, access_key_revalidation_targets,
  mark_access_keys_revalidated, key_of,
}
use gpstation.Orchestrator.Server.{
  Server, wake_dispatcher, signal_job, signal_jobs, disconnect_launcher, delivers,
}

abbrev pub take_up : Option (Job × ℕ) → Launchers → Launchers
take_up none launchers = launchers
take_up (some (job, launcher_id)) launchers =
    mark_launcher_job launcher_id (some job.id) (some job.slave_app_id) (some "assigned") launchers

-- One round of the loop, under the assignment lock.
unfoldable pub claim_round : (Pair → Bool) → ℕ → Server → Option (Job × ℕ) × Server
claim_round locked now s =
    let (assignment, db) =
      claim_next_compatible_job locked (idle_launcher_ids s.launchers) now s.db in
    (assignment, record s { db = db; launchers = take_up assignment s.launchers })

-- The loop: the assignments in the order in which they are made. Out of fuel it claims nothing more.
unfoldable pub claim_loop : ℕ → (Pair → Bool) → ℕ → Server → List (Job × ℕ) × Server
claim_loop zero locked now s = ([], s)
claim_loop (suc fuel) locked now s =
    let (assignment, t) = claim_round locked now s in
    let (rest, u) = claim_loop fuel locked now t in
    elim assignment [ none ↦ ([], t) | some a ↦ (a ∷ rest, u) ]

-- `_deliver_job_start`: an assignment that cannot be sent ends the job and drops the launcher.
unfoldable pub deliver_job_start : ℕ → ℕ → Bool → ℕ → Server → Server
deliver_job_start job_id launcher_id sent now s =
    let t = disconnect_launcher launcher_id s in
    if delivers launcher_id sent s
    then s
    else signal_job job_id (record t {
      db = (fail_assigned_job job_id launcher_id "launcher unavailable" failed now t.db).1;
    })

abbrev pub deliver_all : (ℕ → Bool) → ℕ → List (Job × ℕ) → Server → Server
deliver_all sent now [] s = s
deliver_all sent now ((job, launcher_id) ∷ rest) s =
    deliver_all sent now rest (deliver_job_start job.id launcher_id (sent job.id) now s)

-- As many rounds as there are idle launchers, and one that finds nothing more, are enough.
unfoldable pub dispatch_available_jobs : (Pair → Bool) → (ℕ → Bool) → ℕ → ℕ → Server → ℕ × Server
dispatch_available_jobs locked sent now later s =
    let (assignments, t) = claim_loop (suc (length (idle_launcher_ids s.launchers))) locked now s in
    (length assignments, deliver_all sent later assignments t)

-- A stale job's launcher is told to stop, whether or not it hears, and is disconnected.
abbrev pub drop_launcher_of : Job → Server → Server
drop_launcher_of job s = elim job.launcher_id [
  | none ↦ s
  | some launcher_id ↦ disconnect_launcher launcher_id s
]

abbrev pub drop_jobs : List Job → Server → Server
drop_jobs [] s = s
drop_jobs (job ∷ jobs) s = drop_jobs jobs (drop_launcher_of job (signal_job job.id s))

unfoldable pub expire_stale : (Job → Bool) → ℕ → Server → Server
expire_stale locked now s =
    let (jobs, db) = expire_stale_jobs locked now s.db in drop_jobs jobs (record s { db = db })

-- The launchers whose key is no longer active leave the registry, and their jobs fail.
abbrev pub drop_invalid : List ℕ → ℕ → Server → ℕ × Server
drop_invalid [] now s = (0, s)
drop_invalid (id ∷ ids) now s =
    let (jobs, db) =
      disconnect_launchers_and_fail_jobs (id ∷ ids) "launcher access key is no longer active" now
        s.db in
    let launchers = pop_all (id ∷ ids) s.launchers in
    (
      length (id ∷ ids),
      wake_dispatcher (signal_jobs jobs (record s { db = db; launchers = launchers })),
    )

abbrev pub has_dead_key : (ℕ → Bool) → Launchers → ℕ → Bool
has_dead_key active launchers launcher_id = elim (key_of launchers launcher_id) [
  | none ↦ false
  | some key ↦ not (active key)
]

-- `active` is the set of keys that the access-key service holds to be active.
unfoldable pub revalidate_launcher_access_keys : (ℕ → Bool) → ℕ → ℕ → ℕ → Server → ℕ × Server
revalidate_launcher_access_keys active interval clock now s =
    let targets = access_key_revalidation_targets clock interval s.launchers in
    drop_invalid (filter (has_dead_key active s.launchers) targets) now
      (record s { launchers = mark_access_keys_revalidated targets clock s.launchers })

-- Rows of launchers that no connection belongs to, and that the registry does not know either.
unfoldable pub reconcile_disconnected_launchers : List ℕ → Option ℕ → ℕ → Server → ℕ × Server
reconcile_disconnected_launchers connected user_id now s =
    let found = find_disconnected_launcher_ids connected user_id now s.db in
    let known = select s.launchers (λ l. true) in
    let lost = filter (λ id. not (contains known id)) found in
    let (jobs, db) =
      disconnect_launchers_and_fail_jobs lost "launcher reconciled as disconnected" now s.db in
    (length lost, wake_dispatcher (signal_jobs jobs (record s { db = db })))

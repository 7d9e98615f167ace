-- ===== src/Orchestrator/MassEndings.antt =====
-- app_v1/server/app/service/job_orchestrator.py: the handlers that end several jobs at once tell the requests that
-- wait.
use mathlib.Core.Path.{subst}
use gpstation.Prelude.Memᴰ
use gpstation.Prelude.{
  ℕ, String, Bool, true, not, Option, List, [], ◌∷◌, ◌≡◌, inl, inr, refl, sym, ap, ◌∙◌, Memᴰ,
  contains, map, filter, filter-In, update_where, Option-cases,
}
use gpstation.Prelude.Dict.{get, select}
use gpstation.Jobs.Rows.{Job, failed}
use gpstation.Jobs.Reports.{end_row}
use gpstation.Jobs.Ending.{
  disconnect_launchers_and_fail_jobs, runs_on, expire_stale_jobs, is_stale, expire_row,
}
use gpstation.Jobs.LauncherRows.{find_disconnected_launcher_ids}
use gpstation.Registry.Launchers.{
  remove_launcher, pop_all, mark_access_keys_revalidated, access_key_revalidation_targets,
}
use gpstation.Orchestrator.Server.{Server, signal_job, signal_jobs, disconnect_launcher}
use gpstation.Orchestrator.Handlers.{launcher_disconnected}
use gpstation.Orchestrator.Dispatch.{
  drop_jobs, drop_launcher_of, expire_stale, drop_invalid, revalidate_launcher_access_keys,
  reconcile_disconnected_launchers,
}
use gpstation.Orchestrator.Telling.{
  Woken, Louder, Told, Louder-refl, Louder-trans, Told-refl, update-Told, set-Louder, set-Woken,
  signal_jobs-db, signal_jobs-Louder, signal_jobs-Woken,
}
use gpstation.Orchestrator.Notices.{Tells}

-- Rows that are rewritten in one update, and whose jobs are signalled one by one.
signalled-Tells :
    (p : Job → Bool) (g : Job → Job) (s t : Server)
    → ((j : Job) → (g j).id ≡ j.id)
    → t.events ≡ s.events
    → t.db.jobs ≡ update_where p g s.db.jobs
    → Tells s (signal_jobs (map g (filter p s.db.jobs)) t)
signalled-Tells p g s t key same rows =
    let jobs = map g (filter p s.db.jobs) in
    let heard : Louder s.events (signal_jobs jobs t).events =
      subst (λ e. Louder e (signal_jobs jobs t).events) same (signal_jobs-Louder jobs t) in
    subst (Told s.events s.db.jobs (signal_jobs jobs t).events)
      (sym (ap (λ d. d.jobs) (signal_jobs-db jobs t) ∙ rows))
      (update-Told p g s.db.jobs key heard (λ j m hit.
        subst (λ e. Woken e (signal_jobs jobs t).events j.id) same
          (subst (Woken t.events (signal_jobs jobs t).events) (key j)
            (signal_jobs-Woken jobs t (Memᴰ.map g (filter-In p s.db.jobs m hit))))))

lost-Tells :
    (launchers : List ℕ) (detail : String) (now : ℕ) (s t : Server)
    → t.events ≡ s.events
    → t.db ≡ (disconnect_launchers_and_fail_jobs launchers detail now s.db).1
    → Tells s (signal_jobs (disconnect_launchers_and_fail_jobs launchers detail now s.db).0 t)
unfolding disconnect_launchers_and_fail_jobs
lost-Tells [] detail now s t same rows =
    subst (λ d. Told s.events s.db.jobs t.events d.jobs) (sym rows)
      (subst (λ e. Told s.events s.db.jobs e s.db.jobs) (sym same) (Told-refl s.events s.db.jobs))
lost-Tells (l ∷ ls) detail now s t same rows =
    signalled-Tells (runs_on (l ∷ ls)) (end_row failed detail now) s t (λ j. refl) same
      (ap (λ d. d.jobs) rows)

pub disconnected-Tells :
    (launcher now : ℕ) (s : Server) → Tells s (launcher_disconnected launcher now s)
unfolding launcher_disconnected
disconnected-Tells launcher now s =
    lost-Tells (launcher ∷ []) "launcher disconnected" now s
      (record s {
        db =
            (disconnect_launchers_and_fail_jobs (launcher ∷ []) "launcher disconnected" now s.db).1;
        launchers = remove_launcher launcher s.launchers;
      })
      refl refl

pub reconcile-Tells :
    (connected : List ℕ) (user : Option ℕ) (now : ℕ) (s : Server)
    → Tells s (reconcile_disconnected_launchers connected user now s).1
unfolding reconcile_disconnected_launchers
reconcile-Tells connected user now s =
    let found = find_disconnected_launcher_ids connected user now s.db in
    let lost = filter (λ id. not (contains (select s.launchers (λ l. true)) id)) found in
    let detail : String = "launcher reconciled as disconnected" in
    lost-Tells lost detail now s
      (record s { db = (disconnect_launchers_and_fail_jobs lost detail now s.db).1 }) refl refl

invalid-Tells : (invalid : List ℕ) (now : ℕ) (s : Server) → Tells s (drop_invalid invalid now s).1
invalid-Tells [] now s = Told-refl s.events s.db.jobs
invalid-Tells (id ∷ rest) now s =
    let detail : String = "launcher access key is no longer active" in
    lost-Tells (id ∷ rest) detail now s
      (record s {
        db = (disconnect_launchers_and_fail_jobs (id ∷ rest) detail now s.db).1;
        launchers = pop_all (id ∷ rest) s.launchers;
      })
      refl refl

pub revalidate-Tells :
    (active : ℕ → Bool) (interval clock now : ℕ) (s : Server)
    → Tells s (revalidate_launcher_access_keys active interval clock now s).1
unfolding revalidate_launcher_access_keys
revalidate-Tells active interval clock now s = invalid-Tells _ now (record s {
  launchers =
      mark_access_keys_revalidated (access_key_revalidation_targets clock interval s.launchers)
        clock s.launchers;
})

drop_launcher-same :
    (job : Job) (s : Server)
    → ((drop_launcher_of job s).events ≡ s.events) × ((drop_launcher_of job s).db ≡ s.db)
unfolding disconnect_launcher
drop_launcher-same job s = elim (Option-cases job.launcher_id) [
  | inl n ↦ rw n (refl, refl)
  | inr (l, e) ↦ rw e (refl, refl)
]

drop_jobs-db : (js : List Job) (s : Server) → (drop_jobs js s).db ≡ s.db
drop_jobs-db [] s = refl
drop_jobs-db (j ∷ js) s =
    drop_jobs-db js (drop_launcher_of j (signal_job j.id s))
    ∙ (drop_launcher-same j (signal_job j.id s)).1

drop-Louder :
    (j : Job) (s : Server) → Louder s.events (drop_launcher_of j (signal_job j.id s)).events
drop-Louder j s =
    subst (Louder s.events) (sym (drop_launcher-same j (signal_job j.id s)).0)
      (set-Louder j.id s.events)

drop_jobs-Louder : (js : List Job) (s : Server) → Louder s.events (drop_jobs js s).events
drop_jobs-Louder [] s = Louder-refl s.events
drop_jobs-Louder (j ∷ js) s =
    Louder-trans (drop-Louder j s) (drop_jobs-Louder js (drop_launcher_of j (signal_job j.id s)))

drop_jobs-Woken :
    (js : List Job) (s : Server) {j : Job} → Memᴰ j js → Woken s.events (drop_jobs js s).events j.id
drop_jobs-Woken [] s {j} m h r = elim m [ ]
drop_jobs-Woken (i ∷ js) s {j} (Memᴰ.head same) h r =
    let t = drop_launcher_of i (signal_job i.id s) in
    (drop_jobs-Louder js t).kept h (
      subst (λ e. e.is_set h ≡ true) (sym (drop_launcher-same i (signal_job i.id s)).0)
        (set-Woken i.id s.events h (ap (λ x. get s.events.job_events x.id) (sym same) ∙ r)))
drop_jobs-Woken (i ∷ js) s {j} (Memᴰ.tail m) h r =
    drop_jobs-Woken js (drop_launcher_of i (signal_job i.id s)) m h
      ((drop-Louder i s).same_events j.id ∙ r)

pub expire-Tells :
    (locked : Job → Bool) (now : ℕ) (s : Server) → Tells s (expire_stale locked now s)
unfolding expire_stale expire_stale_jobs
expire-Tells locked now s =
    let stale = is_stale locked now in
    let jobs = map (expire_row now) (filter stale s.db.jobs) in
    let t = record s { db = (expire_stale_jobs locked now s.db).1 } in
    subst (λ d. Told s.events s.db.jobs (drop_jobs jobs t).events d.jobs)
      (sym (drop_jobs-db jobs t))
      (update-Told stale (expire_row now) s.db.jobs (λ j. refl) (drop_jobs-Louder jobs t)
        (λ j m hit.
          drop_jobs-Woken jobs t {j = expire_row now j}
            (Memᴰ.map (expire_row now) (filter-In stale s.db.jobs m hit))))

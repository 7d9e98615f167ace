-- ===== src/Orchestrator/Announcements.antt =====
-- app_v1/server/app/service/job_orchestrator.py: the handlers that end jobs tell the requests that wait.

use gpstation.Prelude.{
  ℕ, String, Bool, false, Option, none, some, ◌≡◌, inl, inr, refl, arith, find, Bool-cases,
  Option-cases,
}
use gpstation.Jobs.Rows.{Job, JobState, Db, failed, cancelled}
use gpstation.Jobs.Reports.{end_row}
use gpstation.Jobs.Ending.{request_kill, kill_target, kill_row, fail_assigned_job, assigned_to}
use gpstation.Registry.Events.{Events, set_job_event}
use gpstation.Registry.Launchers.{LauncherRuntime, mark_launcher_resetting}
use gpstation.Orchestrator.Server.{Server, signal_job, disconnect_launcher, delivers}
use gpstation.Orchestrator.Handlers.{
  kill_job, kill_current, cancel_unreachable, send_cancel_to, abandon_reset, send_reset,
  reset_launcher_worker,
}
use gpstation.Orchestrator.Dispatch.{deliver_job_start}
use gpstation.Orchestrator.Telling.{Told, Louder-Told, Told-refl, Told-trans, set-Louder}
use gpstation.Orchestrator.Notices.{Tells, one-Told}

fail-Told :
    (e : Events) (job launcher : ℕ) (detail : String) (state : JobState) (now : ℕ) (db : Db)
    → Told e db.jobs
        (set_job_event job e)
        (fail_assigned_job job launcher detail state now db).1.jobs
unfolding fail_assigned_job
fail-Told e job launcher detail state now db =
    elim (Option-cases (find (assigned_to job launcher) db.jobs)) [
      | inl n ↦ rw (n, fail_assigned_job) (Louder-Told db.jobs (set-Louder job e))
      | inr (k, found) ↦
          rw (found, fail_assigned_job)
            (one-Told e job (assigned_to job launcher) (end_row state detail now) db.jobs
              (λ j. refl) (λ j h. ground (arith, h)))
    ]

-- An assignment that fits no row changes none.
unfailed :
    (e : Events) (job launcher : ℕ) (detail : String) (state : JobState) (now : ℕ) (db : Db)
    → (fail_assigned_job job launcher detail state now db).0 ≡ none
    → Told e db.jobs e (fail_assigned_job job launcher detail state now db).1.jobs
unfolding fail_assigned_job
unfailed e job launcher detail state now db n =
    elim (Option-cases (find (assigned_to job launcher) db.jobs)) [
      | inl none_found ↦ rw (none_found, fail_assigned_job) (Told-refl e db.jobs)
      | inr (k, found) ↦ absurd (cc (found, n))
    ]

disconnect-Tells : (launcher : ℕ) (s : Server) → Tells s (disconnect_launcher launcher s)
unfolding disconnect_launcher
disconnect-Tells launcher s = Told-refl s.events s.db.jobs

pub deliver-Tells :
    (job launcher : ℕ) (sent : Bool) (now : ℕ) (s : Server)
    → Tells s (deliver_job_start job launcher sent now s)
unfolding deliver_job_start disconnect_launcher
deliver-Tells job launcher sent now s = elim (Bool-cases (delivers launcher sent s)) [
  | inl y ↦ rw y (Told-refl s.events s.db.jobs)
  | inr n ↦ rw n (fail-Told s.events job launcher "launcher unavailable" failed now s.db)
]

cancel-Tells :
    (job launcher : ℕ) (detail : String) (now : ℕ) (s : Server)
    → Tells s (cancel_unreachable job launcher detail now s)
unfolding cancel_unreachable disconnect_launcher
cancel-Tells job launcher detail now s =
    elim (Option-cases (fail_assigned_job job launcher detail cancelled now s.db).0) [
      | inl n ↦
          rw (n, cancel_unreachable) (unfailed s.events job launcher detail cancelled now s.db n)
      | inr (k, e) ↦
          rw (e, cancel_unreachable) (fail-Told s.events job launcher detail cancelled now s.db)
    ]

send_cancel-Tells :
    (launcher : Option ℕ) (job : ℕ) (sent : Bool) (now : ℕ) (s : Server)
    → Tells s (send_cancel_to launcher job sent now s)
send_cancel-Tells none job sent now s = Told-refl s.events s.db.jobs
send_cancel-Tells (some launcher) job sent now s = elim (Bool-cases (delivers launcher sent s)) [
  | inl y ↦ rw y (Told-refl s.events s.db.jobs)
  | inr n ↦ rw n (cancel-Tells job launcher _ now s)
]

kill-id : (now : ℕ) (j : Job) → (kill_row now j).id ≡ j.id
kill-id now j = ground arith

killed-Told :
    (e : Events) (job : ℕ) (user launcher : Option ℕ) (now : ℕ) (db : Db)
    → Told e db.jobs (set_job_event job e) (request_kill job user launcher now db).1.jobs
unfolding request_kill
killed-Told e job user launcher now db =
    elim (Option-cases (find (kill_target job user launcher) db.jobs)) [
      | inl n ↦ rw (n, request_kill) (Louder-Told db.jobs (set-Louder job e))
      | inr (k, found) ↦
          rw (found, request_kill)
            (one-Told e job (kill_target job user launcher) (kill_row now) db.jobs (kill-id now)
              (λ j h. ground (arith, h)))
    ]

unkilled :
    (e : Events) (job : ℕ) (user launcher : Option ℕ) (now : ℕ) (db : Db)
    → (request_kill job user launcher now db).0 ≡ none
    → Told e db.jobs e (request_kill job user launcher now db).1.jobs
unfolding request_kill
unkilled e job user launcher now db n =
    elim (Option-cases (find (kill_target job user launcher) db.jobs)) [
      | inl none_found ↦ rw (none_found, request_kill) (Told-refl e db.jobs)
      | inr (k, found) ↦ absurd (cc (found, n))
    ]

pub kill-Tells :
    (job : ℕ) (user launcher : Option ℕ) (send sent : Bool) (now later : ℕ) (s : Server)
    → Tells s (kill_job job user launcher send sent now later s).1
unfolding kill_job
kill-Tells job user launcher send sent now later s =
    let t = record s { db = (request_kill job user launcher now s.db).1 } in
    elim (Option-cases (request_kill job user launcher now s.db).0) [
      | inl n ↦ rw (n, kill_job) (unkilled s.events job user launcher now s.db n)
      | inr (k, e) ↦
          rw (e, kill_job)
            (Told-trans (killed-Told s.events job user launcher now s.db)
              (send_cancel-Tells _ job sent later (signal_job job t)))
    ]

current-Tells :
    (launcher : ℕ) (user job : Option ℕ) (now : ℕ) (s : Server)
    → Tells s (kill_current launcher user job now s)
current-Tells launcher user none now s = Told-refl s.events s.db.jobs
current-Tells launcher user (some job) now s =
    kill-Tells job user (some launcher) false false now now s

abandon-Tells :
    (launcher : ℕ) (job : Option ℕ) (now : ℕ) (s : Server)
    → Tells s (abandon_reset launcher job now s)
unfolding disconnect_launcher
abandon-Tells launcher none now s = Told-refl s.events s.db.jobs
abandon-Tells launcher (some job) now s =
    fail-Told s.events job launcher "launcher unavailable during worker reset" cancelled now s.db

send_reset-Tells :
    (launcher : ℕ) (r : LauncherRuntime) (sent : Bool) (now : ℕ) (s : Server)
    → Tells s (send_reset launcher r sent now s).1
send_reset-Tells launcher r sent now s = elim (Bool-cases (delivers launcher sent s)) [
  | inl y ↦ rw y (Told-refl s.events s.db.jobs)
  | inr n ↦ rw n (abandon-Tells launcher r.current_job_id now s)
]

pub reset-Tells :
    (launcher : ℕ) (user : Option ℕ) (sent : Bool) (now later : ℕ) (s : Server)
    → Tells s (reset_launcher_worker launcher user sent now later s).1
unfolding reset_launcher_worker
reset-Tells launcher user sent now later s =
    elim (Option-cases (mark_launcher_resetting launcher s.launchers).0) [
      | inl n ↦ rw (n, reset_launcher_worker) (Told-refl s.events s.db.jobs)
      | inr (r, e) ↦
          let t = record s { launchers = (mark_launcher_resetting launcher s.launchers).1 } in
          rw (e, reset_launcher_worker)
            (Told-trans (current-Tells launcher user r.current_job_id now t) (
              send_reset-Tells launcher r sent later
                (kill_current launcher user r.current_job_id now t)))
    ]

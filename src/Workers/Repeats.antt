-- ===== src/Workers/Repeats.antt =====
-- app_v1/launcher/app/subprocess_manager.py: how often the server is told that a job has ended.
use gpstation.Prelude.{
  ℕ, Bool, true, ◌+◌, Option, none, some, List, [], ◌∷◌, ◌≡◌, refl, arith, ==_refl, if◌then◌else◌,
}
use gpstation.Protocol.{LauncherMessage}
use gpstation.Workers.State.{WorkerManager, reset_worker}
use gpstation.Workers.Reports.{
  cae_run_cleaned, handle_worker_message, output_ended, escalate_cancel,
}
use gpstation.Workers.Control.{SlaveApp, waits, start_job, exited, resume_start}
use gpstation.Workers.Events.{ends}

-- How many messages end the job.
abbrev pub count_ends : ℕ → List LauncherMessage → ℕ
count_ends job [] = 0
count_ends job (message ∷ messages) = (if ends job message then 1 else 0) + count_ends job messages

-- Once the worker's own terminal message for the current job has gone out, neither the end of the
-- worker's output, nor the end of the grace period, nor the confirmation of the cleanup sends another.
pub ended_once :
    (job process : ℕ) (m : WorkerManager)
    → m.current_job_id ≡ some job
    → m.cancel_terminal_forwarded_job_id ≡ some job
    → (count_ends job (output_ended process m).sent ≡ count_ends job m.sent)
      × (count_ends job (escalate_cancel m).sent ≡ count_ends job m.sent)
      × (count_ends job (handle_worker_message (cae_run_cleaned job) m).sent
          ≡ count_ends job m.sent)
unfolding output_ended escalate_cancel handle_worker_message reset_worker
ended_once job process m current forwarded =
    (ground (arith, current, forwarded), ground (arith, current, forwarded), ground arith)

-- A worker that exits before it is ready ends its job twice: once where its output ends, and once more
-- where the start gives up. It is so for every idle manager, and every app that is there.
pub start_up_exit_twice :
    (registry : ℕ → Option SlaveApp) (job app process : ℕ) (written : Bool) (a : SlaveApp)
    (m : WorkerManager)
    → m.current_job_id ≡ none
    → m.worker ≡ none
    → registry app ≡ some a
    → a.executable_ready ≡ true
    → let t = start_job registry job app process written m in
      let u = resume_start job exited written (output_ended process t.1) in
      (t.0 ≡ waits) × (count_ends job u.sent ≡ 2 + count_ends job m.sent)
unfolding start_job output_ended resume_start reset_worker
start_up_exit_twice registry job app process written a m idle new known there =
    rw (idle, known, start_job)
      (rw (new, there) (refl, ground (arith, ==_refl job, ==_refl process)))

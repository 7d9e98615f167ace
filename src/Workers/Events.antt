-- ===== src/Workers/Events.antt =====
-- app_v1/launcher/app/control.py: the order in which the handlers run. The messages of the server are
-- handled one after the other; the end of a process, its output and the grace period come in between, also while a
-- start waits for its worker.
use gpstation.Prelude.{ℕ, String, Bool, true, false, ◌||◌, Option, none, some, List, [], ◌∷◌, is_id}
use gpstation.Protocol.{LauncherMessage}
use gpstation.Workers.State.{WorkerManager, new_manager, process_ended, reset_worker}
use gpstation.Workers.Reports.{
  WorkerMessage, ended_job, handle_worker_message, output_ended, escalate_cancel,
}
use gpstation.Workers.Control.{
  SlaveApp, Started, done, waits, start_job, Wait, resume_start, cancel_job,
}

-- The manager, and the job whose start waits.
pub record Program : Type 0 where
  pub manager : WorkerManager
  pub waiting : Option ℕ

pub data Event : Type 0 where
  -- The job, the app, the new process, and whether the pipe takes the job.
  starts : ℕ → ℕ → ℕ → Bool → Event
  resumes : Wait → Bool → Event
  cancels : ℕ → String → Bool → Event
  resets : String → Event
  says : WorkerMessage → Event
  dies : ℕ → Event
  exits : ℕ → Event
  escalates : Event

abbrev pub after_start : ℕ → Started × WorkerManager → Program
after_start job (done, m) = record { manager = m; waiting = none }
after_start job (waits, m) = record { manager = m; waiting = some job }

-- A message of the server is not read while a start waits.
unfoldable pub handle : (ℕ → Option SlaveApp) → Event → Program → Program
handle registry (starts job app process written) p = elim p.waiting [
  | none ↦ after_start job (start_job registry job app process written p.manager)
  | some other ↦ p
]
handle registry (resumes how written) p = elim p.waiting [
  | none ↦ p
  | some job ↦ record { manager = resume_start job how written p.manager; waiting = none }
]
handle registry (cancels job reason written) p = elim p.waiting [
  | none ↦ record p { manager = cancel_job job reason written p.manager }
  | some other ↦ p
]
handle registry (resets reason) p = elim p.waiting [
  | none ↦ record p { manager = reset_worker reason true true p.manager }
  | some other ↦ p
]
handle registry (says message) p = record p { manager = handle_worker_message message p.manager }
handle registry (dies process) p = record p { manager = process_ended process p.manager }
handle registry (exits process) p = record p { manager = output_ended process p.manager }
handle registry escalates p = record p { manager = escalate_cancel p.manager }

unfoldable pub handle_all : (ℕ → Option SlaveApp) → List Event → Program → Program
handle_all registry [] p = p
handle_all registry (e ∷ es) p = handle_all registry es (handle registry e p)

abbrev pub new_program : Program
new_program = record { manager = new_manager; waiting = none }

-- The message ends the job, for the server.
abbrev pub ends : ℕ → LauncherMessage → Bool
ends job message = is_id (ended_job message) job

abbrev pub ended : ℕ → List LauncherMessage → Bool
ended job [] = false
ended job (message ∷ messages) = ends job message || ended job messages

-- The job is the current one, or the server has been told that it has ended.
abbrev pub is_settled : ℕ → WorkerManager → Bool
is_settled job m = is_id m.current_job_id job || ended job m.sent

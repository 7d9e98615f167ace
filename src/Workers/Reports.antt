-- ===== src/Workers/Reports.antt =====
-- app_v1/launcher/app/subprocess_manager.py: `handle_worker_message`, what follows the end of a worker's
-- output, and the end of the grace period of a cancelled job.
use gpstation.Prelude.{
  ℕ, String, Bool, true, false, ◌&&◌, not, Option, none, some, ◌==◌, if◌then◌else◌, is_id, is_some,
}
use gpstation.Protocol.{LauncherMessage, job_result, job_error, job_cancelled, worker_reset_done}
use gpstation.Workers.State.{
  WorkerManager, error, cancelling, idle, is_cancelling, send_control, runs_cae, let_go,
  reset_worker,
}

-- A line of the worker's output.
pub data WorkerMessage : Type 0 where
  worker_ready : WorkerMessage
  cae_run_cleaned : ℕ → WorkerMessage
  reports : LauncherMessage → WorkerMessage
  worker_error : Option String → Option String → WorkerMessage
  unknown : WorkerMessage

-- `str(value or default)`
abbrev pub text_or : Option String → String → String
text_or none default = default
text_or (some String.[]) default = default
text_or (some (String.◌∷◌ c s)) default = String.◌∷◌ c s

abbrev pub mark_ready : WorkerManager → WorkerManager
mark_ready m = elim m.worker [
  | none ↦ m
  | some w ↦ record m { worker = some (record w { ready = true }) }
]

abbrev pub run_cleaned : ℕ → WorkerManager → WorkerManager
run_cleaned job_id m =
    if runs_cae m && is_id m.current_job_id job_id
    then (if is_cancelling m.worker_status && is_id m.cancel_terminal_forwarded_job_id job_id
        then let_go m
        else record m { cancel_cleanup_confirmed_job_id = some job_id })
    else m

-- The job that a message ends.
abbrev pub ended_job : LauncherMessage → Option ℕ
ended_job (job_result job) = some job
ended_job (job_error job code detail) = some job
ended_job (job_cancelled job reason) = some job
ended_job _ = none

-- The messages that a worker may send to the server.
abbrev pub is_forwarded : LauncherMessage → Bool
is_forwarded worker_reset_done = false
is_forwarded _ = true

-- The job of a CAE worker stays until the worker has said that its run is cleaned up.
abbrev pub await_cleanup : ℕ → WorkerManager → WorkerManager
await_cleanup job_id m = record m {
  cancel_terminal_forwarded_job_id = some job_id;
  worker_status = cancelling;
  cancel_escalation =
      if is_some m.cancel_escalation
      then m.cancel_escalation
      else some (job_id, "CAE run cleanup was not confirmed");
}

abbrev pub job_ended : Option ℕ → WorkerManager → WorkerManager
job_ended none m = m
job_ended (some job_id) m =
    if runs_cae m
      && is_id m.current_job_id job_id
      && not (is_id m.cancel_cleanup_confirmed_job_id job_id)
    then await_cleanup job_id m
    else let_go m

abbrev pub worker_failed : Option ℕ → Option String → Option String → WorkerManager → WorkerManager
worker_failed none code detail m = m
worker_failed (some job_id) code detail m = let_go (
    send_control (job_error job_id (text_or code "worker_error") (text_or detail "worker error")) m)

unfoldable pub handle_worker_message : WorkerMessage → WorkerManager → WorkerManager
handle_worker_message worker_ready m = mark_ready m
handle_worker_message (cae_run_cleaned job_id) m = run_cleaned job_id m
handle_worker_message (reports message) m =
    if is_forwarded message then job_ended (ended_job message) (send_control message m) else m
handle_worker_message (worker_error code detail) m = worker_failed m.current_job_id code detail m
handle_worker_message unknown m = m

-- The worker that the manager has is the one whose output ended.
abbrev pub lost : ℕ → WorkerManager → Bool
lost process m = elim m.worker [ none ↦ false | some w ↦ (w.process == process) && not w.stopping ]

abbrev pub report_exit : Option ℕ → Option ℕ → WorkerManager → WorkerManager
report_exit none forwarded m = m
report_exit (some job_id) forwarded m =
    if is_id forwarded job_id
    then m
    else send_control (job_error job_id "worker_exit" "worker subprocess exited") m

-- The `finally` of `read_worker_stdout`.
unfoldable pub output_ended : ℕ → WorkerManager → WorkerManager
output_ended process m =
    if lost process m
    then report_exit m.current_job_id m.cancel_terminal_forwarded_job_id (record m {
      worker = none;
      current_job_id = none;
      worker_status = error;
      cancel_escalation = none;
      cancel_cleanup_confirmed_job_id = none;
      cancel_terminal_forwarded_job_id = none;
    })
    else m

abbrev pub escalate : ℕ → String → WorkerManager → WorkerManager
escalate job_id reason m =
    if is_id m.current_job_id job_id
    then (if is_id m.cancel_terminal_forwarded_job_id job_id
        then record (reset_worker reason false true m) {
          current_job_id = none;
          worker_status = idle;
        }
        else reset_worker reason true true m)
    else record m { cancel_escalation = none }

-- The task wakes up. A task that was cancelled does not.
unfoldable pub escalate_cancel : WorkerManager → WorkerManager
escalate_cancel m = elim m.cancel_escalation [
  | none ↦ m
  | some (job_id, reason) ↦ escalate job_id reason m
]

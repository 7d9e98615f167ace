-- ===== src/Workers/Control.antt =====
-- app_v1/launcher/app/subprocess_manager.py: what the server asks for: `start_job`, which waits for a new
-- worker to be ready, and `cancel_job`. `written` says whether the worker's pipe takes a line.
use gpstation.Prelude.{
  ℕ, String, Bool, true, false, ◌&&◌, Option, none, some, ◌∷◌, ◌==◌, if◌then◌else◌, is_id,
}
use gpstation.Protocol.{job_error, job_cancelled}
use gpstation.Workers.State.{
  WorkerManager, ManagedWorker, idle, starting, busy, cancelling, send_control, reset_worker,
}

-- An app of the registry: whether its executable is there, and its own start-up time in seconds.
pub record SlaveApp : Type 0 where
  pub executable_ready : Bool
  pub startup_timeout_seconds : Option ℕ

abbrev pub accept : ℕ → WorkerManager → WorkerManager
accept job_id m = record m {
  current_job_id = some job_id;
  worker_status = starting;
  cancel_cleanup_confirmed_job_id = none;
  cancel_terminal_forwarded_job_id = none;
}

abbrev pub start_failed : ℕ → String → String → WorkerManager → WorkerManager
start_failed job_id code detail m =
    send_control (job_error job_id code detail)
      (record m { current_job_id = none; worker_status = idle })

-- The end of `start_job`, with a worker that is ready.
unfoldable pub hand_over : ℕ → Bool → WorkerManager → WorkerManager
hand_over job_id written m = elim m.worker [
  | none ↦ start_failed job_id "worker_missing" "worker subprocess is not running" m
  | some w ↦
      if written
      then record m { worker_status = busy }
      else start_failed job_id "worker_ipc_failed" "" m
]

abbrev pub reuses : ℕ → Option ManagedWorker → Bool
reuses slave_app_id none = false
reuses slave_app_id (some w) = w.running && (w.slave_app_id == slave_app_id)

abbrev pub drop_other_worker : WorkerManager → WorkerManager
drop_other_worker m = elim m.worker [
  | none ↦ m
  | some w ↦ reset_worker "switch slave app" false false m
]

abbrev pub spawn : ℕ → ℕ → WorkerManager → WorkerManager
spawn slave_app_id process m = record m {
  worker = some (record {
    slave_app_id = slave_app_id;
    process = process;
    running = true;
    ready = false;
    stopping = false;
  });
  worker_status = starting;
}

-- Whether `start_job` has come to its end or waits for a new worker.
pub data Started : Type 0 where
  done waits : Started

abbrev pub start_new : ℕ → ℕ → ℕ → SlaveApp → WorkerManager → Started × WorkerManager
start_new job_id slave_app_id process app m =
    let t = drop_other_worker m in
    if app.executable_ready then (waits, spawn slave_app_id process t) else (
      done,
      start_failed job_id "worker_start_failed" "slave executable environment is missing" t,
    )

-- `start_job` up to the wait for the process, which is a new one, to be ready.
unfoldable pub start_job :
    (ℕ → Option SlaveApp) → ℕ → ℕ → ℕ → Bool → WorkerManager → Started × WorkerManager
start_job registry job_id slave_app_id process written m = elim m.current_job_id [
  | some other ↦ (done, send_control (job_error job_id "launcher_busy" "launcher is busy") m)
  | none ↦ elim (registry slave_app_id) [
    | none ↦ (done, send_control (job_error job_id "unknown_slave_app" "unknown slave app") m)
    | some app ↦
        let t = accept job_id m in
        if reuses slave_app_id t.worker
        then (done, hand_over job_id written t)
        else start_new job_id slave_app_id process app t
  ]
]

-- How the wait ends: the event is set by the worker's `worker.ready` or by its exit, or never.
pub data Wait : Type 0 where
  became_ready exited timed_out : Wait

-- The rest of `start_job`.
unfoldable pub resume_start : ℕ → Wait → Bool → WorkerManager → WorkerManager
resume_start job_id became_ready written m =
    hand_over job_id written (record m { worker_status = idle })
resume_start job_id exited written m =
    start_failed job_id "worker_start_failed" "worker exited before ready"
      (reset_worker "worker startup failed" false false m)
resume_start job_id timed_out written m =
    start_failed job_id "worker_start_failed" "worker did not become ready"
      (reset_worker "worker ready timeout" false false m)

-- The job's own marks are kept.
abbrev pub keep_own : ℕ → Option ℕ → Option ℕ
keep_own job_id mark = if is_id mark job_id then mark else none

abbrev pub has_process : Option ManagedWorker → Bool
has_process none = false
has_process (some w) = w.running

abbrev pub cancel_current : ℕ → String → Bool → WorkerManager → WorkerManager
cancel_current job_id reason written m =
    if has_process m.worker
    then (if written
        then record m { worker_status = cancelling; cancel_escalation = some (job_id, reason) }
        else reset_worker reason true true (record m { worker_status = cancelling }))
    else record m {
      cancel_escalation = none;
      sent = job_cancelled job_id reason ∷ m.sent;
      current_job_id = none;
      worker_status = idle;
    }

unfoldable pub cancel_job : ℕ → String → Bool → WorkerManager → WorkerManager
cancel_job job_id reason written m =
    if is_id m.current_job_id job_id
    then cancel_current job_id reason written (record m {
      cancel_cleanup_confirmed_job_id = keep_own job_id m.cancel_cleanup_confirmed_job_id;
      cancel_terminal_forwarded_job_id = keep_own job_id m.cancel_terminal_forwarded_job_id;
    })
    else m

-- ===== src/Workers/State.antt =====
-- app_v1/launcher/app/subprocess_manager.py: the state of `WorkerManager` and the steps that its
-- handlers share. A slave app, a job and a process are known by opaque numbers, and a text that
-- carries one leaves it out.
use gpstation.Prelude.{
  ℕ, String, Bool, true, false, Option, none, some, List, [], ◌∷◌, if◌then◌else◌, ◌==◌,
}
use gpstation.Protocol.{LauncherMessage, job_cancelled, worker_reset_done}

pub data WorkerStatus : Type 0 where
  idle starting busy cancelling error : WorkerStatus

abbrev pub is_cancelling : WorkerStatus → Bool
is_cancelling cancelling = true
is_cancelling _ = false

-- `running` is `process.returncode is None`. Both pipes of a process are always there.
pub record ManagedWorker : Type 0 where
  pub slave_app_id : ℕ
  pub process : ℕ
  pub running : Bool
  pub ready : Bool
  pub stopping : Bool

pub record WorkerManager : Type 0 where
  pub worker : Option ManagedWorker
  pub current_job_id : Option ℕ
  pub worker_status : WorkerStatus
  -- The job and the reason of the task that waits for the grace period to end.
  pub cancel_escalation : Option (ℕ × String)
  pub cancel_cleanup_confirmed_job_id : Option ℕ
  pub cancel_terminal_forwarded_job_id : Option ℕ
  -- What `send_control` was given, the newest first.
  pub sent : List LauncherMessage

abbrev pub new_manager : WorkerManager
new_manager = record {
  worker = none;
  current_job_id = none;
  worker_status = idle;
  cancel_escalation = none;
  cancel_cleanup_confirmed_job_id = none;
  cancel_terminal_forwarded_job_id = none;
  sent = [];
}

abbrev pub send_control : LauncherMessage → WorkerManager → WorkerManager
send_control message m = record m { sent = message ∷ m.sent }

-- The process ends: from then on its `returncode` is set. Its output may end later.
abbrev pub process_ended : ℕ → WorkerManager → WorkerManager
process_ended process m = elim m.worker [
  | none ↦ m
  | some w ↦
      if w.process == process then record m { worker = some (record w { running = false }) } else m
]

-- The id of the app `cae`.
abbrev pub cae : ℕ
cae = 0

abbrev pub runs_cae : WorkerManager → Bool
runs_cae m = elim m.worker [ none ↦ false | some w ↦ w.slave_app_id == cae ]

-- The five assignments that end a job's time in the launcher.
abbrev pub let_go : WorkerManager → WorkerManager
let_go m = record m {
  cancel_escalation = none;
  current_job_id = none;
  worker_status = idle;
  cancel_cleanup_confirmed_job_id = none;
  cancel_terminal_forwarded_job_id = none;
}

-- The part of `reset_worker` up to the wait for the process to end: the job to cancel, if any.
abbrev pub begin_reset : Bool → WorkerManager → Option ℕ × WorkerManager
begin_reset cancel_current_job m = (
  if cancel_current_job then m.current_job_id else none,
  record m {
    cancel_escalation = none;
    cancel_cleanup_confirmed_job_id = none;
    cancel_terminal_forwarded_job_id = none;
    worker = none;
    current_job_id = if cancel_current_job then none else m.current_job_id;
    worker_status = idle;
  },
)

-- The part of `reset_worker` after it.
abbrev pub finish_reset : Option ℕ → String → Bool → WorkerManager → WorkerManager
finish_reset none reason true m = send_control worker_reset_done m
finish_reset none reason false m = m
finish_reset (some job) reason true m =
    send_control worker_reset_done (send_control (job_cancelled job reason) m)
finish_reset (some job) reason false m = send_control (job_cancelled job reason) m

unfoldable pub reset_worker : String → Bool → Bool → WorkerManager → WorkerManager
reset_worker reason cancel_current_job notify_reset m =
    let (job, t) = begin_reset cancel_current_job m in finish_reset job reason notify_reset t

-- ===== src/Workers/Keeps.antt =====
-- app_v1/launcher/app/subprocess_manager.py: each handler keeps the account of
-- every job, which is the current one or has been reported as ended.
use gpstation.Prelude.{
  ℕ, String, Bool, true, ◌||◌, not, Option, none, some, ◌≡◌, arith, ==_refl, is_none, is_id,
}
use gpstation.Workers.State.{WorkerManager, process_ended, reset_worker}
use gpstation.Workers.Reports.{
  WorkerMessage, reports, ended_job, handle_worker_message, output_ended, escalate_cancel,
}
use gpstation.Workers.Control.{SlaveApp, start_job, Wait, resume_start, hand_over, cancel_job}
use gpstation.Workers.Events.{after_start, ended, is_settled}

-- A terminal message that is marked as forwarded has been sent.
abbrev pub is_honest : ℕ → WorkerManager → Bool
is_honest job m = not (is_id m.cancel_terminal_forwarded_job_id job) || ended job m.sent

-- A worker ends no job but the one that it was given last.
abbrev pub names_current : WorkerMessage → WorkerManager → Bool
names_current (reports message) m = elim (ended_job message) [
  | none ↦ true
  | some job ↦ is_id m.current_job_id job
]
names_current _ m = true

pub record Keeps (job : ℕ) (m n : WorkerManager) : Type 0 where
  pub honest : is_honest job m ≡ true → is_honest job n ≡ true
  pub settled : is_honest job m ≡ true → is_settled job m ≡ true → is_settled job n ≡ true

pub reset-Keeps :
    (job : ℕ) (reason : String) (cancel notify : Bool) (m : WorkerManager)
    → Keeps job m (reset_worker reason cancel notify m)
unfolding reset_worker
reset-Keeps job reason cancel notify m = record {
  honest = λ h. ground arith;
  settled = λ h s. ground (arith, s);
}

pub says-Keeps :
    (job : ℕ) (message : WorkerMessage) (m : WorkerManager)
    → names_current message m ≡ true
    → Keeps job m (handle_worker_message message m)
unfolding handle_worker_message
says-Keeps job message m own = record {
  honest = λ h. ground (arith, h);
  settled = λ h s. ground (arith, h, s, own);
}

pub dies-Keeps : (job process : ℕ) (m : WorkerManager) → Keeps job m (process_ended process m)
dies-Keeps job process m = record {
  honest = λ h. ground (arith, h);
  settled = λ h s. ground (arith, h, s);
}

pub exits-Keeps : (job process : ℕ) (m : WorkerManager) → Keeps job m (output_ended process m)
unfolding output_ended
exits-Keeps job process m = record {
  honest = λ h. ground (arith, h);
  settled = λ h s. ground (arith, h, s);
}

pub escalates-Keeps : (job : ℕ) (m : WorkerManager) → Keeps job m (escalate_cancel m)
unfolding escalate_cancel reset_worker
escalates-Keeps job m = record {
  honest = λ h. ground (arith, h);
  settled = λ h s. ground (arith, h, s);
}

pub cancels-Keeps :
    (job other : ℕ) (reason : String) (written : Bool) (m : WorkerManager)
    → Keeps job m (cancel_job other reason written m)
unfolding cancel_job reset_worker
cancels-Keeps job other reason written m = record {
  honest = λ h. ground (arith, h);
  settled = λ h s. ground (arith, h, s);
}

pub start-Keeps :
    (registry : ℕ → Option SlaveApp) (job other app process : ℕ) (written : Bool)
    (m : WorkerManager)
    → Keeps job m (start_job registry other app process written m).1
unfolding start_job hand_over reset_worker
start-Keeps registry job other app process written m = record {
  honest = λ h. ground (arith, h);
  settled = λ h s. ground (arith, h, s);
}

-- A start that is refused, or fails, says so; any other has the job as the current one.
pub start-settled :
    (registry : ℕ → Option SlaveApp) (job app process : ℕ) (written : Bool) (m : WorkerManager)
    → is_settled job (start_job registry job app process written m).1 ≡ true
unfolding start_job hand_over reset_worker
start-settled registry job app process written m = ground (arith, ==_refl job)

-- While a start waits, no other job is the current one.
abbrev pub has_only : Option ℕ → WorkerManager → Bool
has_only none m = true
has_only (some job) m = is_none m.current_job_id || is_id m.current_job_id job

pub resume-Keeps :
    (job other : ℕ) (how : Wait) (written : Bool) (m : WorkerManager)
    → has_only (some other) m ≡ true
    → Keeps job m (resume_start other how written m)
unfolding resume_start hand_over reset_worker
resume-Keeps job other how written m only = record {
  honest = λ h. ground (arith, h);
  settled = λ h s. ground (arith, h, s, only);
}

pub start-only :
    (registry : ℕ → Option SlaveApp) (job app process : ℕ) (written : Bool) (m : WorkerManager)
    → let q = after_start job (start_job registry job app process written m) in
      has_only q.waiting q.manager ≡ true
unfolding start_job hand_over reset_worker
start-only registry job app process written m = ground (arith, ==_refl job)

pub says-only :
    (waiting : Option ℕ) (message : WorkerMessage) (m : WorkerManager)
    → has_only waiting m ≡ true
    → has_only waiting (handle_worker_message message m) ≡ true
unfolding handle_worker_message
says-only waiting message m only = ground (arith, only)

pub dies-only :
    (waiting : Option ℕ) (process : ℕ) (m : WorkerManager)
    → has_only waiting m ≡ true
    → has_only waiting (process_ended process m) ≡ true
dies-only waiting process m only = ground (arith, only)

pub exits-only :
    (waiting : Option ℕ) (process : ℕ) (m : WorkerManager)
    → has_only waiting m ≡ true
    → has_only waiting (output_ended process m) ≡ true
unfolding output_ended
exits-only waiting process m only = ground (arith, only)

pub escalates-only :
    (waiting : Option ℕ) (m : WorkerManager)
    → has_only waiting m ≡ true
    → has_only waiting (escalate_cancel m) ≡ true
unfolding escalate_cancel reset_worker
escalates-only waiting m only = ground (arith, only)

-- ===== src/Workers/Examples.antt =====
-- app_v1/launcher/app/subprocess_manager.py: the theorems about the worker manager on a day's events.
use gpstation.Prelude.{
  ℕ, true, false, Option, none, some, List, [], ◌∷◌, ◌≡◌, ◌+◌, refl, leb, if◌then◌else◌,
}
use gpstation.Protocol.{job_result, job_running, job_error, worker_reset_done}
use gpstation.Workers.State.{WorkerManager, new_manager, cancelling, reset_worker}
use gpstation.Workers.Reports.{
  worker_ready, cae_run_cleaned, reports, handle_worker_message, output_ended, escalate_cancel,
}
use gpstation.Workers.Control.{
  SlaveApp, waits, start_job, became_ready, exited, resume_start, hand_over, cancel_job,
}
use gpstation.Workers.Events.{
  Event, starts, resumes, cancels, says, escalates, dies, handle, handle_all, new_program,
  is_settled,
}
use gpstation.Workers.Accounts.{is_started, AllDisciplined, none_lost}
use gpstation.Workers.Repeats.{count_ends, ended_once, start_up_exit_twice}

abbrev app : SlaveApp
app = record { executable_ready = true; startup_timeout_seconds = none }

-- The apps 0, which is `cae`, and 1.
abbrev registry : ℕ → Option SlaveApp
registry id = if leb id 1 then some app else none

-- A job on `cae` ends before its cleanup is confirmed, the server cancels it, and the grace period ends.
abbrev a_day : List Event
a_day =
    starts 4 0 100 true
    ∷ says worker_ready
    ∷ resumes became_ready true
    ∷ says (reports (job_running 4))
    ∷ starts 5 1 101 true
    ∷ says (reports (job_result 4))
    ∷ cancels 4 "user" true
    ∷ escalates
    ∷ []

a_day-AllDisciplined : AllDisciplined registry a_day new_program
unfolding handle start_job resume_start hand_over handle_worker_message
a_day-AllDisciplined = (refl, (refl, (refl, (refl, (refl, (refl, (refl, (refl, tt))))))))

a_day-started : is_started registry 4 a_day new_program ≡ true
unfolding handle start_job resume_start hand_over handle_worker_message
a_day-started = refl

sent_that_day :
    (handle_all registry a_day new_program).manager.sent
    ≡ worker_reset_done
      ∷ job_result 4
      ∷ job_error 5 "launcher_busy" "launcher is busy"
      ∷ job_running 4
      ∷ []
unfolding handle_all handle start_job resume_start hand_over handle_worker_message cancel_job
    escalate_cancel reset_worker
sent_that_day = refl

none_lost_example : is_settled 4 (handle_all registry a_day new_program).manager ≡ true
none_lost_example = none_lost registry 4 a_day a_day-AllDisciplined a_day-started

-- A process that has died is not used again, though its output is still open.
abbrev a_bad_day : List Event
a_bad_day =
    starts 4 1 100 true
    ∷ says worker_ready
    ∷ resumes became_ready true
    ∷ says (reports (job_result 4))
    ∷ dies 100
    ∷ starts 5 1 101 true
    ∷ []

next_process : (handle_all registry a_bad_day new_program).waiting ≡ some 5
unfolding handle_all handle start_job resume_start hand_over handle_worker_message reset_worker
next_process = refl

-- The job has ended, and its cleanup is not confirmed.
abbrev awaiting : WorkerManager
awaiting = record new_manager {
  worker =
      some (record {
        slave_app_id = 0;
        process = 100;
        running = true;
        ready = true;
        stopping = false;
      });
  current_job_id = some 4;
  worker_status = cancelling;
  cancel_escalation = some (4, "CAE run cleanup was not confirmed");
  cancel_terminal_forwarded_job_id = some 4;
  sent = job_result 4 ∷ [];
}

ended_once_example :
    (count_ends 4 (output_ended 100 awaiting).sent ≡ count_ends 4 awaiting.sent)
    × (count_ends 4 (escalate_cancel awaiting).sent ≡ count_ends 4 awaiting.sent)
    × (count_ends 4 (handle_worker_message (cae_run_cleaned 4) awaiting).sent
        ≡ count_ends 4 awaiting.sent)
ended_once_example = ended_once 4 100 awaiting refl refl

start_up_exit_twice_example :
    let t = start_job registry 4 1 100 true new_manager in
    let u = resume_start 4 exited true (output_ended 100 t.1) in
    (t.0 ≡ waits) × (count_ends 4 u.sent ≡ 2 + count_ends 4 new_manager.sent)
start_up_exit_twice_example =
    start_up_exit_twice registry 4 1 100 true app new_manager refl refl refl refl

-- ===== src/Orchestrator/Handlers.antt =====
-- app_v1/server/app/service/job_orchestrator.py: creating, killing and resetting, and the messages of
-- a launcher. Each handler runs to its end. `sent` says whether a socket takes a message.
use gpstation.Prelude.{
  ℕ, String, Bool, true, false, ◌||◌, not, Option, none, some, [], ◌∷◌, if◌then◌else◌, is_some,
}
use gpstation.Prelude.Dict.{get}
use gpstation.Protocol.{
  Json, Codec, LauncherMessage, job_answer, job_running, job_progress, job_result, job_error,
  job_cancelled, worker_reset_done,
}
use gpstation.Jobs.Rows.{Job, Db, Outcome, returned, raised, failed, cancelled, is_active}
use gpstation.Jobs.Reports.{
  create_job, mark_launcher_answer, mark_launcher_running, append_launcher_progress,
  mark_launcher_result, mark_launcher_error,
}
use gpstation.Jobs.Ending.{request_kill, fail_assigned_job, disconnect_launchers_and_fail_jobs}
use gpstation.Registry.Launchers.{
  LauncherRuntime, remove_launcher, mark_launcher_job, clear_launcher_worker,
  mark_launcher_resetting, launcher_matches_job,
}
use gpstation.Orchestrator.Server.{
  Server, wake_dispatcher, signal_job, signal_jobs, disconnect_launcher, delivers,
}

abbrev pub store_created : Outcome (Job × Db) → Server → Outcome Job × Server
store_created (raised message) s = (raised message, s)
store_created (returned (job, db)) s = (returned job, wake_dispatcher (record s { db = db }))

unfoldable pub create :
    Codec → ℕ → ℕ → String → String → ℕ → Json → ℕ → Server → Outcome Job × Server
create c id user_id handler_type app_name slave_app_id offer now s =
    store_created (create_job c id user_id handler_type app_name slave_app_id offer now s.db) s

-- The launcher that still works on the job.
abbrev pub active_launcher : Job → Option ℕ
active_launcher job = if is_active job.state then job.launcher_id else none

-- The job of a launcher that cannot be reached ends here.
unfoldable pub cancel_unreachable : ℕ → ℕ → String → ℕ → Server → Server
cancel_unreachable job_id launcher_id detail now s =
    let (failed_job, db) = fail_assigned_job job_id launcher_id detail cancelled now s.db in
    let t = record s { db = db } in
    elim failed_job [ none ↦ t | some job ↦ signal_job job_id (disconnect_launcher launcher_id t) ]

abbrev pub send_cancel_to : Option ℕ → ℕ → Bool → ℕ → Server → Server
send_cancel_to none job_id sent now s = s
send_cancel_to (some launcher_id) job_id sent now s =
    if delivers launcher_id sent s
    then s
    else cancel_unreachable job_id launcher_id "launcher unavailable during cancellation" now s

unfoldable pub kill_job :
    ℕ → Option ℕ → Option ℕ → Bool → Bool → ℕ → ℕ → Server → Option Job × Server
kill_job job_id user_id launcher_id send_cancel sent now later s =
    let (found, db) = request_kill job_id user_id launcher_id now s.db in
    let t = record s { db = db } in
    elim found [
      | none ↦ (none, t)
      | some job ↦ (
        some job,
        wake_dispatcher (
            send_cancel_to (if send_cancel then active_launcher job else none) job_id sent later
              (signal_job job_id t)),
      )
    ]

abbrev pub kill_current : ℕ → Option ℕ → Option ℕ → ℕ → Server → Server
kill_current launcher_id user_id none now s = s
kill_current launcher_id user_id (some job_id) now s =
    (kill_job job_id user_id (some launcher_id) false false now now s).1

-- What a failed reset leaves: the current job, if any, is cancelled, and the launcher is gone.
abbrev pub abandon_reset : ℕ → Option ℕ → ℕ → Server → Server
abandon_reset launcher_id none now s = wake_dispatcher (disconnect_launcher launcher_id s)
abandon_reset launcher_id (some job_id) now s = wake_dispatcher (
    disconnect_launcher launcher_id (
      signal_job job_id (record s {
        db =
            (fail_assigned_job job_id launcher_id "launcher unavailable during worker reset"
              cancelled now s.db).1;
      })))

abbrev pub send_reset : ℕ → LauncherRuntime → Bool → ℕ → Server → Bool × Server
send_reset launcher_id launcher sent now s =
    if delivers launcher_id sent s
    then (true, s)
    else (false, abandon_reset launcher_id launcher.current_job_id now s)

unfoldable pub reset_launcher_worker : ℕ → Option ℕ → Bool → ℕ → ℕ → Server → Bool × Server
reset_launcher_worker launcher_id user_id sent now later s =
    let (found, launchers) = mark_launcher_resetting launcher_id s.launchers in
    let t = record s { launchers = launchers } in
    elim found [
      | none ↦ (false, t)
      | some launcher ↦
          send_reset launcher_id launcher sent later
            (kill_current launcher_id user_id launcher.current_job_id now t)
    ]

-- What a message of a launcher comes to. A violation closes the connection.
pub data Handled : Type 0 where
  accepted : Handled
  violation : String → Handled

abbrev pub reset_done : Option LauncherRuntime → ℕ → Server → Handled × Server
reset_done none launcher_id s = (violation "unexpected worker reset completion", s)
reset_done (some l) launcher_id s =
    if not l.resetting || is_some l.current_job_id
    then (violation "unexpected worker reset completion", s)
    else (
      accepted,
      wake_dispatcher (record s { launchers = clear_launcher_worker launcher_id s.launchers }),
    )

-- After the update of the job's row. `ends` says that the message ends the job.
abbrev pub settle : Outcome (Option Job × Db) → ℕ → ℕ → Bool → Server → Handled × Server
settle (raised message) launcher_id job_id ends s = (violation message, s)
settle (returned (none, db)) launcher_id job_id ends s =
    (violation "launcher event violates job ownership or state", record s { db = db })
settle (returned (some job, db)) launcher_id job_id true s = (
  accepted,
  wake_dispatcher (record (signal_job job_id (record s { db = db })) {
    launchers = mark_launcher_job launcher_id none none (some "idle") s.launchers;
  }),
)
settle (returned (some job, db)) launcher_id job_id false s =
    (accepted, signal_job job_id (record s { db = db }))

-- The checks that precede every job event.
abbrev pub job_event : ℕ → ℕ → Bool → Outcome (Option Job × Db) → Server → Handled × Server
job_event launcher_id job_id ends outcome s =
    if launcher_matches_job launcher_id job_id s.launchers
    then settle outcome launcher_id job_id ends s
    else (violation "launcher event does not match its assigned job", s)

unfoldable pub handle_launcher_job_event :
    Codec → ℕ → ℕ → LauncherMessage → ℕ → ℕ → Server → Handled × Server
handle_launcher_job_event c launcher user worker_reset_done now later s =
    reset_done (get s.launchers launcher) launcher s
handle_launcher_job_event c launcher user (job_answer job answer) now later s =
    job_event launcher job false
      (mark_launcher_answer c job launcher user (c.dump_signal answer) now s.db) s
handle_launcher_job_event c launcher user (job_running job) now later s =
    job_event launcher job false (returned (mark_launcher_running job launcher user now s.db)) s
handle_launcher_job_event c launcher user (job_progress job progress) now later s =
    job_event launcher job false (append_launcher_progress c job launcher user progress now s.db) s
handle_launcher_job_event c launcher user (job_result job) now later s =
    job_event launcher job true (returned (mark_launcher_result job launcher user now later s.db)) s
handle_launcher_job_event c launcher user (job_error job code detail) now later s =
    job_event launcher job true (mark_launcher_error job launcher user detail failed now later s.db)
      s
handle_launcher_job_event c launcher user (job_cancelled job reason) now later s =
    job_event launcher job true
      (mark_launcher_error job launcher user reason cancelled now later s.db) s

unfoldable pub launcher_disconnected : ℕ → ℕ → Server → Server
launcher_disconnected launcher_id now s =
    let (jobs, db) =
      disconnect_launchers_and_fail_jobs (launcher_id ∷ []) "launcher disconnected" now s.db in
    wake_dispatcher
      (signal_jobs jobs (record s { db = db; launchers = remove_launcher launcher_id s.launchers }))

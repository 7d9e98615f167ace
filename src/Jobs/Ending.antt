-- ===== src/Jobs/Ending.antt =====
-- app_v1/server/app/service/job_service.py: what ends jobs other than a launcher's report.
use gpstation.Prelude.{
  ℕ, ◌+◌, String, Bool, true, false, ◌&&◌, ◌||◌, not, Option, none, some, List, [], ◌∷◌, map, ltb,
  ◌==◌, if◌then◌else◌, is_id, is_none, is_some, find, filter, update_where, contains,
}
use gpstation.Jobs.Rows.{
  JobState, failed, killed, Job, Launcher, disconnected, Db, is_terminal, is_active, is_queued,
  job_idle_timeout, job_max_lifetime,
}
use gpstation.Jobs.Reports.{release_row, end_row}

-- A condition that is in the query only if an argument is given.
abbrev pub if_given : Option ℕ → (ℕ → Bool) → Bool
if_given none test = true
if_given (some a) test = test a

abbrev pub kill_target : ℕ → Option ℕ → Option ℕ → Job → Bool
kill_target job_id user_id launcher_id job =
    (job.id == job_id)
    && (if_given user_id (λ u. job.user_id == u))
    && (if_given launcher_id (λ l. is_id job.launcher_id l))

abbrev pub kill_row : ℕ → Job → Job
kill_row now job =
    if is_terminal job.state
    then job
    else if is_queued job.state
    then record job {
      cancel_requested_at = some now;
      updated_at = now;
      state = killed;
      finished_at = some now;
    }
    else record job { cancel_requested_at = some now; updated_at = now }

unfoldable pub request_kill : ℕ → Option ℕ → Option ℕ → ℕ → Db → Option Job × Db
request_kill job_id user_id launcher_id now db =
    elim (find (kill_target job_id user_id launcher_id) db.jobs) [
      | none ↦ (none, db)
      | some job ↦ (
        some (kill_row now job),
        record db {
          jobs = update_where (kill_target job_id user_id launcher_id) (kill_row now) db.jobs;
        },
      )
    ]

abbrev pub assigned_to : ℕ → ℕ → Job → Bool
assigned_to job_id launcher_id job =
    (job.id == job_id) && (is_id job.launcher_id launcher_id) && (is_active job.state)

unfoldable pub fail_assigned_job : ℕ → ℕ → String → JobState → ℕ → Db → Option Job × Db
fail_assigned_job job_id launcher_id detail state now db =
    elim (find (assigned_to job_id launcher_id) db.jobs) [
      | none ↦ (none, db)
      | some job ↦ (
        some (end_row state detail now job),
        record {
          jobs = update_where (assigned_to job_id launcher_id) (end_row state detail now) db.jobs;
          launchers =
              update_where (λ l. (l.id == launcher_id) && (is_none l.disconnected_at))
                (release_row now) db.launchers;
        },
      )
    ]

-- `launcher_id IN (…)` is false of a row without a launcher.
abbrev pub in_set : List ℕ → Option ℕ → Bool
in_set ids none = false
in_set ids (some id) = contains ids id

abbrev pub disconnect_row : ℕ → Launcher → Launcher
disconnect_row now launcher = record launcher {
  status = disconnected;
  disconnected_at = some now;
  updated_at = now;
}

abbrev pub runs_on : List ℕ → Job → Bool
runs_on launcher_ids job = (in_set launcher_ids job.launcher_id) && (is_active job.state)

-- The jobs come back as they are after the update.
unfoldable pub disconnect_launchers_and_fail_jobs : List ℕ → String → ℕ → Db → List Job × Db
disconnect_launchers_and_fail_jobs [] detail now db = ([], db)
disconnect_launchers_and_fail_jobs (id ∷ ids) detail now db = (
  map (end_row failed detail now) (filter (runs_on (id ∷ ids)) db.jobs),
  record {
    jobs = update_where (runs_on (id ∷ ids)) (end_row failed detail now) db.jobs;
    launchers = update_where (λ l. contains (id ∷ ids) l.id) (disconnect_row now) db.launchers;
  },
)

abbrev pub left_running : Job → Bool
left_running job = (is_some job.launcher_id) && (is_active job.state)

unfoldable pub recover_after_server_restart : ℕ → Db → List Job × Db
recover_after_server_restart now db = (
  map (end_row failed "server restarted" now) (filter left_running db.jobs),
  record {
    jobs = update_where left_running (end_row failed "server restarted" now) db.jobs;
    launchers = update_where (λ l. is_none l.disconnected_at) (disconnect_row now) db.launchers;
  },
)

-- `created_at < now - JOB_MAX_LIFETIME`
abbrev pub outlived : ℕ → Job → Bool
outlived now job = ltb (job.created_at + job_max_lifetime) now

abbrev pub is_stale : (Job → Bool) → ℕ → Job → Bool
is_stale locked now job =
    (((is_queued job.state) && (outlived now job))
      || ((is_active job.state)
          && ((outlived now job) || (ltb (job.updated_at + job_idle_timeout) now))))
    && not (locked job)

abbrev pub expire_row : ℕ → Job → Job
expire_row now job =
    end_row failed (if outlived now job then "job lifetime exceeded" else "job idle timeout") now
      job

abbrev pub launchers_of : List Job → List ℕ
launchers_of [] = []
launchers_of (job ∷ jobs) = elim job.launcher_id [
  | none ↦ launchers_of jobs
  | some id ↦ id ∷ launchers_of jobs
]

unfoldable pub expire_stale_jobs : (Job → Bool) → ℕ → Db → List Job × Db
expire_stale_jobs locked now db =
    let stale = filter (is_stale locked now) db.jobs in
    (
      map (expire_row now) stale,
      record {
        jobs = update_where (is_stale locked now) (expire_row now) db.jobs;
        launchers =
            update_where (λ l. (contains (launchers_of stale) l.id) && (is_none l.disconnected_at))
              (release_row now) db.launchers;
      },
    )

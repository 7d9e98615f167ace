-- ===== src/Orchestrator/Waiting.antt =====
-- app_v1/server/app/service/job_orchestrator.py: `wait_for_answer` up to its wait and after it. What the
-- request waits for is an answer or the end of the job.
use gpstation.Prelude.{
  ℕ, Bool, false, ◌&&◌, not, Option, none, some, ◌==◌, if◌then◌else◌, is_none, find,
}
use gpstation.Jobs.Rows.{Job, Db, is_terminal}
use gpstation.Jobs.Ending.{if_given}
use gpstation.Registry.Events.{prepare_job_wait, release_prepared_job_event}
use gpstation.Orchestrator.Server.{Server}

abbrev pub is_asked_for : ℕ → Option ℕ → Job → Bool
is_asked_for job_id user_id job = (job.id == job_id) && if_given user_id (λ u. job.user_id == u)

-- The row that the request reads, if the user may see it.
unfoldable pub get_job_wait_state : ℕ → Option ℕ → Db → Option Job
get_job_wait_state job_id user_id db = find (is_asked_for job_id user_id) db.jobs

abbrev pub is_unfinished : Job → Bool
is_unfinished job = is_none job.answer && not (is_terminal job.state)

abbrev pub should_wait : Option Job → Bool → Bool
should_wait none has_time = false
should_wait (some job) has_time = is_unfinished job && has_time

-- The request waits on an event, or it has its result.
pub data Request : Type 0 where
  waits : ℕ → Request
  returns : Option Job → Request

-- `has_time` is `wait_seconds > 0`.
unfoldable pub begin_wait : ℕ → Option ℕ → Bool → Server → Request × Server
begin_wait job_id user_id has_time s =
    let (event, events) = prepare_job_wait job_id s.events in
    let job = get_job_wait_state job_id user_id s.db in
    if should_wait job has_time
    then (waits event, record s { events = events })
    else (returns job, record s { events = release_prepared_job_event job_id event events })

-- The event is set, or the time is over.
unfoldable pub end_wait : ℕ → ℕ → Option ℕ → Server → Option Job × Server
end_wait job_id event user_id s = (
  get_job_wait_state job_id user_id s.db,
  record s { events = release_prepared_job_event job_id event s.events },
)

-- ===== src/Jobs/Reports.antt =====
-- app_v1/server/app/service/job_service.py: a job's creation, and the updates that a launcher's
-- reports make. `now` is the clock's value, `later` its value when the launcher's row is written.
use gpstation.Prelude.{
  ℕ, String, Bool, true, false, ◌&&◌, ◌||◌, not, Option, none, some, List, [], ◌∷◌, ◌++◌, ltb, ◌==◌,
  is_id, is_none, length, find, update_where,
}
use gpstation.Protocol.{Json, str, obj, end, field, Codec, is_blank, is_offer, is_answer}
use gpstation.Jobs.Rows.{
  JobState, queued, answer_ready, running, succeeded, failed, cancelled, Job, Launcher, ready, Db,
  Outcome, returned, raise_if, or_raise, ◌>>=◌, ◌>>◌, is_active, is_assigned, is_answer_ready,
  is_running, job_offer_max_bytes, job_progress_max_bytes, job_progress_max_items,
}

-- `json_size(value) > limit`, which raises when the value has no JSON text.
abbrev pub check_size : Codec → Json → ℕ → String → Outcome Unit
check_size c value limit message = do
  n ← or_raise (c.size value) "Job payload must be JSON serializable"
  raise_if (ltb limit n) message

abbrev pub request_json : String → String → Json → Json
request_json handler_type app_name offer = obj (
    field "handler_type" (str handler_type)
      (field "slave_app_id" (str app_name) (field "offer" offer end)))

abbrev pub too_large : String
too_large = "Job request exceeds 524288 bytes"

unfoldable pub new_job : ℕ → ℕ → String → ℕ → Json → ℕ → Job
new_job id user_id handler_type slave_app_id offer now = record {
  id = id;
  user_id = user_id;
  launcher_id = none;
  handler_type = handler_type;
  slave_app_id = slave_app_id;
  offer = offer;
  answer = none;
  progress = [];
  state = queued;
  assigned_at = none;
  answer_ready_at = none;
  started_at = none;
  finished_at = none;
  cancel_requested_at = none;
  last_error = none;
  attempt_count = 0;
  created_at = now;
  updated_at = now;
}

-- The id is the fresh one that the row gets by default. `app_name` is the text of `slave_app_id`.
unfoldable pub create_job : Codec → ℕ → ℕ → String → String → ℕ → Json → ℕ → Db → Outcome (Job × Db)
unfolding new_job
create_job c id user_id handler_type app_name slave_app_id offer now db = do
  check_size c (request_json handler_type app_name offer) job_offer_max_bytes too_large
  signal ← or_raise (c.validate_signal offer) "validation error"
  raise_if (not (is_offer signal.type) || is_blank signal.sdp) "Job offer must be an SDP offer"
  let normalized_offer = c.dump_signal signal
  check_size c normalized_offer job_offer_max_bytes too_large
  let job = new_job id user_id handler_type slave_app_id normalized_offer now
  returned (job, record db { jobs = db.jobs ++ job ∷ [] })

-- UPDATE jobs SET … WHERE id, launcher_id, user_id, state IN … AND ….
abbrev pub reported : ℕ → ℕ → ℕ → (JobState → Bool) → (Job → Bool) → Job → Bool
reported job_id launcher_id user_id expected extra job =
    (job.id == job_id)
    && (is_id job.launcher_id launcher_id)
    && (job.user_id == user_id)
    && (expected job.state)
    && (extra job)

abbrev pub release_row : ℕ → Launcher → Launcher
release_row now launcher = record launcher { status = ready; updated_at = now }

abbrev release : Bool → ℕ → ℕ → ℕ → List Launcher → List Launcher
release false launcher_id user_id later rows = rows
release true launcher_id user_id later rows =
    update_where
      (λ l. (l.id == launcher_id) && (l.user_id == user_id) && (is_none l.disconnected_at))
      (release_row later) rows

-- A row that does not fit leaves the tables as they are; `none` is Python's `None`.
unfoldable pub update_launcher_job :
    (Job → Bool) → (Job → Job) → Bool → ℕ → ℕ → ℕ → Db → Option Job × Db
update_launcher_job fits values release_launcher launcher_id user_id later db =
    elim (find fits db.jobs) [
      | none ↦ (none, db)
      | some job ↦ (
        some (values job),
        record {
          jobs = update_where fits values db.jobs;
          launchers = release release_launcher launcher_id user_id later db.launchers;
        },
      )
    ]

abbrev pub anything : Job → Bool
anything job = true

abbrev pub answer_row : Json → ℕ → Job → Job
answer_row answer now job = record job {
  answer = some answer;
  answer_ready_at = some now;
  state = answer_ready;
  updated_at = now;
}

abbrev pub run_row : ℕ → Job → Job
run_row now job = record job { state = running; started_at = some now; updated_at = now }

abbrev pub progress_row : Json → ℕ → Job → Job
progress_row progress now job = record job {
  progress = job.progress ++ (now, progress) ∷ [];
  updated_at = now;
}

abbrev pub result_row : ℕ → Job → Job
result_row now job = record job { state = succeeded; finished_at = some now; updated_at = now }

-- `values` of the failures: also what the other methods that end a job write.
abbrev pub end_row : JobState → String → ℕ → Job → Job
end_row state detail now job = record job {
  state = state;
  last_error = some detail;
  finished_at = some now;
  updated_at = now;
}

unfoldable pub mark_launcher_answer : Codec → ℕ → ℕ → ℕ → Json → ℕ → Db → Outcome (Option Job × Db)
unfolding update_launcher_job
mark_launcher_answer c job_id launcher_id user_id answer now db = do
  signal ← or_raise (c.validate_signal answer) "validation error"
  raise_if (not (is_answer signal.type) || is_blank signal.sdp) "Job answer must be an SDP answer"
  returned (
      update_launcher_job (reported job_id launcher_id user_id is_assigned anything)
        (answer_row (c.dump_signal signal) now) false launcher_id user_id now db)

unfoldable pub mark_launcher_running : ℕ → ℕ → ℕ → ℕ → Db → Option Job × Db
unfolding update_launcher_job
mark_launcher_running job_id launcher_id user_id now =
    update_launcher_job (reported job_id launcher_id user_id is_answer_ready anything) (run_row now)
      false launcher_id user_id now

abbrev pub has_room : Job → Bool
has_room job = ltb (length job.progress) job_progress_max_items

unfoldable pub append_launcher_progress :
    Codec → ℕ → ℕ → ℕ → Json → ℕ → Db → Outcome (Option Job × Db)
unfolding update_launcher_job
append_launcher_progress c job_id launcher_id user_id progress now db = do
  check_size c progress job_progress_max_bytes "Job progress exceeds 65536 bytes"
  returned (
      update_launcher_job (reported job_id launcher_id user_id is_running has_room)
        (progress_row progress now) false launcher_id user_id now db)

unfoldable pub mark_launcher_result : ℕ → ℕ → ℕ → ℕ → ℕ → Db → Option Job × Db
unfolding update_launcher_job
mark_launcher_result job_id launcher_id user_id now later =
    update_launcher_job (reported job_id launcher_id user_id is_running anything) (result_row now)
      true launcher_id user_id later

abbrev pub is_error_state : JobState → Bool
is_error_state failed = true
is_error_state cancelled = true
is_error_state _ = false

unfoldable pub mark_launcher_error :
    ℕ → ℕ → ℕ → String → JobState → ℕ → ℕ → Db → Outcome (Option Job × Db)
unfolding update_launcher_job
mark_launcher_error job_id launcher_id user_id detail state now later db = do
  raise_if (not (is_error_state state)) "Invalid terminal job state"
  returned (
      update_launcher_job (reported job_id launcher_id user_id is_active anything)
        (end_row state detail now) true launcher_id user_id later db)

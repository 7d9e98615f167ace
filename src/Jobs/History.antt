-- ===== src/Jobs/History.antt =====
-- app_v1/server/app/service/job_service.py: the methods that write, as calls, and a history of them.
-- Each commits or rolls back one transaction, so a history is a sequence of whole calls.
use gpstation.Prelude.{ℕ, String, Bool, Option, List, [], ◌∷◌, map, contains, ◌≡◌, true, false}
use gpstation.Protocol.{Json, Codec}
use gpstation.Jobs.Rows.{JobState, failed, cancelled, Job, Db, after}
use gpstation.Jobs.Reports.{
  create_job, mark_launcher_answer, mark_launcher_running, append_launcher_progress,
  mark_launcher_result, mark_launcher_error,
}
use gpstation.Jobs.Claim.{Pair, claim_next_compatible_job}
use gpstation.Jobs.Ending.{
  request_kill, fail_assigned_job, disconnect_launchers_and_fail_jobs, recover_after_server_restart,
  expire_stale_jobs,
}

pub data Ended : Type 0 where
  as_failed as_cancelled : Ended

-- The two states that the server's code passes to `fail_assigned_job`.
abbrev pub ended_state : Ended → JobState
ended_state as_failed = failed
ended_state as_cancelled = cancelled

pub data Call : Type 0 where
  creates : ℕ → ℕ → String → String → ℕ → Json → ℕ → Call
  claims : (Pair → Bool) → List ℕ → ℕ → Call
  answers : ℕ → ℕ → ℕ → Json → ℕ → Call
  runs : ℕ → ℕ → ℕ → ℕ → Call
  progresses : ℕ → ℕ → ℕ → Json → ℕ → Call
  results : ℕ → ℕ → ℕ → ℕ → ℕ → Call
  errs : ℕ → ℕ → ℕ → String → JobState → ℕ → ℕ → Call
  kills : ℕ → Option ℕ → Option ℕ → ℕ → Call
  fails : ℕ → ℕ → String → Ended → ℕ → Call
  disconnects : List ℕ → String → ℕ → Call
  recovers : ℕ → Call
  expires : (Job → Bool) → ℕ → Call

abbrev pub is_claim : Call → Bool
is_claim (claims locked idle now) = true
is_claim _ = false

unfoldable pub step : Codec → Db → Call → Db
step c db (creates id user handler name app offer now) =
    after db (create_job c id user handler name app offer now db)
step c db (claims locked idle now) = (claim_next_compatible_job locked idle now db).1
step c db (answers job launcher user answer now) =
    after db (mark_launcher_answer c job launcher user answer now db)
step c db (runs job launcher user now) = (mark_launcher_running job launcher user now db).1
step c db (progresses job launcher user progress now) =
    after db (append_launcher_progress c job launcher user progress now db)
step c db (results job launcher user now later) =
    (mark_launcher_result job launcher user now later db).1
step c db (errs job launcher user detail state now later) =
    after db (mark_launcher_error job launcher user detail state now later db)
step c db (kills job user launcher now) = (request_kill job user launcher now db).1
step c db (fails job launcher detail state now) =
    (fail_assigned_job job launcher detail (ended_state state) now db).1
step c db (disconnects ids detail now) = (disconnect_launchers_and_fail_jobs ids detail now db).1
step c db (recovers now) = (recover_after_server_restart now db).1
step c db (expires locked now) = (expire_stale_jobs locked now db).1

unfoldable pub run : Codec → Db → List Call → Db
run c db [] = db
run c db (call ∷ calls) = run c (step c db call) calls

abbrev pub job_ids : Db → List ℕ
job_ids db = map (λ j. j.id) db.jobs

-- The id of a new row, a random UUID, is not in the table.
abbrev pub IsFresh : Db → Call → Type 0
IsFresh db (creates id _ _ _ _ _ _) = contains (job_ids db) id ≡ false
IsFresh db _ = Unit

abbrev pub AllFresh : Codec → Db → List Call → Type 0
AllFresh c db [] = Unit
AllFresh c db (call ∷ calls) = IsFresh db call × AllFresh c (step c db call) calls

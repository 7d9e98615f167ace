-- ===== src/Orchestrator/Notices.antt =====
-- app_v1/server/app/service/job_orchestrator.py: each handler tells the requests that wait what it changes.
use mathlib.Core.Path.{subst}
use gpstation.Prelude.{
  ℕ, String, Bool, true, false, not, ◌||◌, Option, none, some, List, ◌≡◌, inl, inr, refl, sym,
  arith, find, update_where, Bool-cases, Option-cases, is_some,
}
use gpstation.Prelude.Dict.{get}
use gpstation.Protocol.{
  Json, Codec, LauncherMessage, job_answer, job_running, job_progress, job_result, job_error,
  job_cancelled, worker_reset_done, is_answer, is_blank,
}
use gpstation.Jobs.Rows.{
  Job, JobState, Db, Outcome, returned, raised, failed, cancelled, or_raise, raise_if, ◌>>=◌,
  job_progress_max_bytes,
}
use gpstation.Jobs.Reports.{
  check_size, is_error_state, reported, update_launcher_job, end_row, answer_row, run_row,
  progress_row, result_row, mark_launcher_answer, mark_launcher_running, append_launcher_progress,
  mark_launcher_result, mark_launcher_error,
}
use gpstation.Registry.Events.{Events, set_job_event}
use gpstation.Registry.Launchers.{LauncherRuntime, launcher_matches_job}
use gpstation.Orchestrator.Server.{Server}
use gpstation.Orchestrator.Handlers.{settle, job_event, reset_done, handle_launcher_job_event}
use gpstation.Orchestrator.Telling.{Woken, Told, Told-refl, update-Told, set-Louder, set-Woken}

-- The handler has told of everything.
abbrev pub Tells : Server → Server → Type 0
Tells s t = Told s.events s.db.jobs t.events t.db.jobs

-- A row of one job is rewritten, and the job is signalled.
pub one-Told :
    (e : Events) (job : ℕ) (p : Job → Bool) (g : Job → Job) (js : List Job)
    → ((j : Job) → (g j).id ≡ j.id)
    → ((j : Job) → p j ≡ true → j.id ≡ job)
    → Told e js (set_job_event job e) (update_where p g js)
one-Told e job p g js key only =
    update-Told p g js key (set-Louder job e)
      (λ j m hit. subst (Woken e (set_job_event job e)) (sym (only j hit)) (set-Woken job e))

-- An update by one of the reports, with the job's signal if it returned a row.
abbrev Reported : ℕ → Events → List Job → Option Job × Db → Type 0
Reported job e js (none, db) = Told e js e db.jobs
Reported job e js (some k, db) = Told e js (set_job_event job e) db.jobs

update-Reported :
    (job : ℕ) (e : Events) (p : Job → Bool) (g : Job → Job) (release : Bool)
    (launcher user later : ℕ) (db : Db)
    → ((j : Job) → (g j).id ≡ j.id)
    → ((j : Job) → p j ≡ true → j.id ≡ job)
    → Reported job e db.jobs (update_launcher_job p g release launcher user later db)
unfolding update_launcher_job
update-Reported job e p g release launcher user later db key only =
    elim (Option-cases (find p db.jobs)) [
      | inl n ↦ rw (n, update_launcher_job) (Told-refl e db.jobs)
      | inr (k, found) ↦ rw (found, update_launcher_job) (one-Told e job p g db.jobs key only)
    ]

abbrev ReportedBy : ℕ → Events → List Job → Outcome (Option Job × Db) → Type 0
ReportedBy job e js (raised message) = Unit
ReportedBy job e js (returned r) = Reported job e js r

settle-Tells :
    (outcome : Outcome (Option Job × Db)) (launcher job : ℕ) (final : Bool) (s : Server)
    → ReportedBy job s.events s.db.jobs outcome
    → Tells s (settle outcome launcher job final s).1
settle-Tells (raised message) launcher job final s r = Told-refl s.events s.db.jobs
settle-Tells (returned (none, db)) launcher job final s r = r
settle-Tells (returned (some k, db)) launcher job true s r = r
settle-Tells (returned (some k, db)) launcher job false s r = r

event-Tells :
    (outcome : Outcome (Option Job × Db)) (launcher job : ℕ) (final : Bool) (s : Server)
    → ReportedBy job s.events s.db.jobs outcome
    → Tells s (job_event launcher job final outcome s).1
event-Tells outcome launcher job final s r =
    elim (Bool-cases (launcher_matches_job launcher job s.launchers)) [
      | inl own ↦ rw own (settle-Tells outcome launcher job final s r)
      | inr other ↦ rw other (Told-refl s.events s.db.jobs)
    ]

reported-id :
    (job launcher user : ℕ) (expected : JobState → Bool) (extra : Job → Bool) (j : Job)
    → reported job launcher user expected extra j ≡ true
    → j.id ≡ job
reported-id job launcher user expected extra j h = ground (arith, h)

ReportedBy-bind :
    {A : Type 0} (job : ℕ) (e : Events) (js : List Job) (m : Outcome A)
    (f : A → Outcome (Option Job × Db))
    → ((a : A) → ReportedBy job e js (f a))
    → ReportedBy job e js (m >>= f)
ReportedBy-bind job e js (returned a) f h = h a
ReportedBy-bind job e js (raised message) f h = tt

module _ (c : Codec) (job launcher user : ℕ) (e : Events) (db : Db) where
  answer-Reported :
      (answer : Json) (now : ℕ)
      → ReportedBy job e db.jobs (mark_launcher_answer c job launcher user answer now db)
  unfolding mark_launcher_answer
  answer-Reported answer now =
      ReportedBy-bind job e db.jobs (or_raise (c.validate_signal answer) "validation error") _ (λ s.
        ReportedBy-bind job e db.jobs
          (raise_if (not (is_answer s.type) || is_blank s.sdp) "Job answer must be an SDP answer") _
          (λ u.
            update-Reported job e _ (answer_row (c.dump_signal s) now) false launcher user now db
              (λ j. refl) (reported-id job launcher user _ _)))

  running-Reported :
      (now : ℕ) → Reported job e db.jobs (mark_launcher_running job launcher user now db)
  unfolding mark_launcher_running
  running-Reported now =
      update-Reported job e _ (run_row now) false launcher user now db (λ j. refl)
        (reported-id job launcher user _ _)

  progress-Reported :
      (value : Json) (now : ℕ)
      → ReportedBy job e db.jobs (append_launcher_progress c job launcher user value now db)
  unfolding append_launcher_progress
  progress-Reported value now =
      ReportedBy-bind job e db.jobs
        (check_size c value job_progress_max_bytes "Job progress exceeds 65536 bytes") _
        (λ u.
          update-Reported job e _ (progress_row value now) false launcher user now db (λ j. refl)
            (reported-id job launcher user _ _))

  result-Reported :
      (now later : ℕ) → Reported job e db.jobs (mark_launcher_result job launcher user now later db)
  unfolding mark_launcher_result
  result-Reported now later =
      update-Reported job e _ (result_row now) true launcher user later db (λ j. refl)
        (reported-id job launcher user _ _)

  error-Reported :
      (detail : String) (state : JobState) (now later : ℕ)
      → ReportedBy job e db.jobs (mark_launcher_error job launcher user detail state now later db)
  unfolding mark_launcher_error
  error-Reported detail state now later =
      ReportedBy-bind job e db.jobs
        (raise_if (not (is_error_state state)) "Invalid terminal job state") _
        (λ u.
          update-Reported job e _ (end_row state detail now) true launcher user later db (λ j. refl)
            (reported-id job launcher user _ _))

reset_done-Tells :
    (o : Option LauncherRuntime) (launcher : ℕ) (s : Server) → Tells s (reset_done o launcher s).1
reset_done-Tells none launcher s = Told-refl s.events s.db.jobs
reset_done-Tells (some l) launcher s =
    elim (Bool-cases (not l.resetting || is_some l.current_job_id)) [
      | inl bad ↦ rw bad (Told-refl s.events s.db.jobs)
      | inr good ↦ rw good (Told-refl s.events s.db.jobs)
    ]

pub handle-Tells :
    (c : Codec) (launcher user : ℕ) (message : LauncherMessage) (now later : ℕ) (s : Server)
    → Tells s (handle_launcher_job_event c launcher user message now later s).1
unfolding handle_launcher_job_event
handle-Tells c launcher user worker_reset_done now later s =
    reset_done-Tells (get s.launchers launcher) launcher s
handle-Tells c launcher user (job_answer job answer) now later s =
    event-Tells _ launcher job false s
      (answer-Reported c job launcher user s.events s.db (c.dump_signal answer) now)
handle-Tells c launcher user (job_running job) now later s =
    event-Tells (returned (mark_launcher_running job launcher user now s.db)) launcher job false s
      (running-Reported c job launcher user s.events s.db now)
handle-Tells c launcher user (job_progress job progress) now later s =
    event-Tells _ launcher job false s
      (progress-Reported c job launcher user s.events s.db progress now)
handle-Tells c launcher user (job_result job) now later s =
    event-Tells (returned (mark_launcher_result job launcher user now later s.db)) launcher job true
      s (result-Reported c job launcher user s.events s.db now later)
handle-Tells c launcher user (job_error job code detail) now later s =
    event-Tells _ launcher job true s
      (error-Reported c job launcher user s.events s.db detail failed now later)
handle-Tells c launcher user (job_cancelled job reason) now later s =
    event-Tells _ launcher job true s
      (error-Reported c job launcher user s.events s.db reason cancelled now later)

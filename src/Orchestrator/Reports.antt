-- ===== src/Orchestrator/Reports.antt =====
-- app_v1/server/app/service/job_orchestrator.py: what a launcher's messages may do. A launcher speaks for
-- its current job only, and says once that it has ended.
use mathlib.Core.Path.{subst}
use gpstation.Prelude.{
  ℕ, Bool, true, false, Option, none, some, ◌≡◌, inl, inr, refl, arith, ==_refl, Bool-cases,
  if◌then◌else◌,
}
use gpstation.Prelude.Dict.{get-adjust}
use gpstation.Protocol.{
  Codec, LauncherMessage, job_answer, job_running, job_progress, job_result, job_error,
  job_cancelled, worker_reset_done,
}
use gpstation.Jobs.Rows.{Job, Db, Outcome, returned, raised, failed, cancelled}
use gpstation.Jobs.Reports.{
  mark_launcher_answer, mark_launcher_running, append_launcher_progress, mark_launcher_result,
  mark_launcher_error,
}
use gpstation.Registry.Launchers.{launcher_matches_job, mark_launcher_job, note_job}
use gpstation.Orchestrator.Server.{Server}
use gpstation.Orchestrator.Handlers.{
  Handled, accepted, violation, settle, job_event, handle_launcher_job_event,
}

-- The job that a message is about.
abbrev pub about : LauncherMessage → Option ℕ
about (job_answer job answer) = some job
about (job_running job) = some job
about (job_progress job progress) = some job
about (job_result job) = some job
about (job_error job code detail) = some job
about (job_cancelled job reason) = some job
about worker_reset_done = none

abbrev pub is_final : LauncherMessage → Bool
is_final (job_result job) = true
is_final (job_error job code detail) = true
is_final (job_cancelled job reason) = true
is_final _ = false

abbrev pub is_violation : Handled → Bool
is_violation accepted = false
is_violation (violation text) = true

same_job :
    (launcher k job : ℕ) (s : Server)
    → some k ≡ some job
    → launcher_matches_job launcher job s.launchers ≡ false
    → launcher_matches_job launcher k s.launchers ≡ false
same_job launcher k job s a e = let same : k ≡ job = ground (arith, a) in rw same e

foreign_event :
    (launcher job : ℕ) (final : Bool) (o : Outcome (Option Job × Db)) (s : Server)
    → launcher_matches_job launcher job s.launchers ≡ false
    → let (h, t) = job_event launcher job final o s in (is_violation h ≡ true) × (t ≡ s)
foreign_event launcher job final o s e = rw e (refl, refl)

-- A message about a job that is not the launcher's current one is a violation and changes nothing.
foreign-violation :
    (c : Codec) (launcher user job now later : ℕ) (message : LauncherMessage) (s : Server)
    → about message ≡ some job
    → launcher_matches_job launcher job s.launchers ≡ false
    → let (h, t) = handle_launcher_job_event c launcher user message now later s in
      (is_violation h ≡ true) × (t ≡ s)
unfolding handle_launcher_job_event
foreign-violation c launcher user job now later (job_answer k answer) s a e =
    foreign_event launcher k false
      (mark_launcher_answer c k launcher user (c.dump_signal answer) now s.db) s
      (same_job launcher k job s a e)
foreign-violation c launcher user job now later (job_running k) s a e =
    foreign_event launcher k false (returned (mark_launcher_running k launcher user now s.db)) s
      (same_job launcher k job s a e)
foreign-violation c launcher user job now later (job_progress k progress) s a e =
    foreign_event launcher k false (append_launcher_progress c k launcher user progress now s.db) s
      (same_job launcher k job s a e)
foreign-violation c launcher user job now later (job_result k) s a e =
    foreign_event launcher k true (returned (mark_launcher_result k launcher user now later s.db)) s
      (same_job launcher k job s a e)
foreign-violation c launcher user job now later (job_error k code detail) s a e =
    foreign_event launcher k true (mark_launcher_error k launcher user detail failed now later s.db)
      s (same_job launcher k job s a e)
foreign-violation c launcher user job now later (job_cancelled k reason) s a e =
    foreign_event launcher k true
      (mark_launcher_error k launcher user reason cancelled now later s.db) s
      (same_job launcher k job s a e)
foreign-violation c launcher user job now later worker_reset_done s a e = cc

settle-released :
    (launcher job : ℕ) (o : Outcome (Option Job × Db)) (s : Server)
    → is_violation (settle o launcher job true s).0 ≡ false
    → launcher_matches_job launcher job (settle o launcher job true s).1.launchers ≡ false
unfolding launcher_matches_job mark_launcher_job
settle-released launcher job (raised message) s e = cc
settle-released launcher job (returned (none, db)) s e = cc
settle-released launcher job (returned (some j, db)) s e = ground (
  arith,
  get-adjust s.launchers launcher launcher (note_job none none (some "idle")),
  ==_refl launcher,
)

event-released :
    (launcher job : ℕ) (o : Outcome (Option Job × Db)) (s : Server)
    → is_violation (job_event launcher job true o s).0 ≡ false
    → launcher_matches_job launcher job (job_event launcher job true o s).1.launchers ≡ false
event-released launcher job o s e =
    elim (Bool-cases (launcher_matches_job launcher job s.launchers)) [
      | inl own ↦ rw own (
          settle-released launcher job o s (
            subst
              (λ b.
                is_violation
                  (if b
                    then settle o launcher job true s
                    else (violation "launcher event does not match its assigned job", s)).0
                ≡ false)
              own e))
      | inr foreign ↦ rw foreign foreign
    ]

final-released :
    (c : Codec) (launcher user job now later : ℕ) (message : LauncherMessage) (s : Server)
    → is_final message ≡ true
    → about message ≡ some job
    → is_violation (handle_launcher_job_event c launcher user message now later s).0 ≡ false
    → launcher_matches_job launcher job
        (handle_launcher_job_event c launcher user message now later s).1.launchers
      ≡ false
unfolding handle_launcher_job_event
final-released c launcher user job now later (job_answer k answer) s f a e = cc
final-released c launcher user job now later (job_running k) s f a e = cc
final-released c launcher user job now later (job_progress k progress) s f a e = cc
final-released c launcher user job now later (job_result k) s f a e =
    let same : job ≡ k = ground (arith, a) in
    rw same (
      event-released launcher k (returned (mark_launcher_result k launcher user now later s.db)) s
        e)
final-released c launcher user job now later (job_error k code detail) s f a e =
    let same : job ≡ k = ground (arith, a) in
    rw same (
      event-released launcher k (mark_launcher_error k launcher user detail failed now later s.db) s
        e)
final-released c launcher user job now later (job_cancelled k reason) s f a e =
    let same : job ≡ k = ground (arith, a) in
    rw same (
      event-released launcher k
        (mark_launcher_error k launcher user reason cancelled now later s.db) s e)
final-released c launcher user job now later worker_reset_done s f a e = cc

-- After an accepted message that ends a job, any further message of the launcher about the same job is
-- a violation, which closes its connection, and changes nothing.
pub second-violation :
    (c : Codec) (launcher user job now later then_now then_later : ℕ)
    (message second : LauncherMessage) (s : Server)
    → is_final message ≡ true
    → about message ≡ some job
    → about second ≡ some job
    → is_violation (handle_launcher_job_event c launcher user message now later s).0 ≡ false
    → let t = (handle_launcher_job_event c launcher user message now later s).1 in
      let (h, u) = handle_launcher_job_event c launcher user second then_now then_later t in
      (is_violation h ≡ true) × (u ≡ t)
second-violation c launcher user job now later then_now then_later message second s f a b e =
    foreign-violation c launcher user job then_now then_later second
      (handle_launcher_job_event c launcher user message now later s).1 b
      (final-released c launcher user job now later message s f a e)

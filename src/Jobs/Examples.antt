-- ===== src/Jobs/Examples.antt =====
-- app_v1/server/app/service/job_service.py: a small table, and the theorems about the jobs table on it.
use mathlib.Core.Path.{subst}
use gpstation.Prelude.{
  map, false, Option, none, some, List, [], ◌∷◌, ◌≡◌, refl, Memᴰ, contains, if◌then◌else◌,
}
use gpstation.Protocol.{
  Json, str, obj, end, SignalType, SignalPayload, is_answer, offer, answer, Codec,
}
use gpstation.Jobs.Rows.{Job, Launcher, ready, Db, succeeded, killed}
use gpstation.Jobs.Reports.{
  create_job, new_job, mark_launcher_result, append_launcher_progress, mark_launcher_running,
  mark_launcher_answer,
}
use gpstation.Jobs.Ending.{request_kill}
use gpstation.Jobs.Claim.{precedes, first_pair, claim_next_compatible_job}
use gpstation.Jobs.Claims.{Claimed, claim-Claimed}
use gpstation.Jobs.History.{
  Call, creates, claims, answers, runs, progresses, results, kills, step, run, AllFresh,
}
use gpstation.Jobs.Effects.{ids}
use gpstation.Jobs.Lifecycle.{Evolved}
use gpstation.Jobs.Invariant.{IsConsistent, run-IsConsistent, Survives, run-Survives, step-Evolved}

abbrev signal : SignalType → SignalPayload
signal t = record {
  type = t;
  sdp = some "v=0";
  candidate = none;
  sdp_mid = none;
  sdp_m_line_index = none;
}

abbrev signal_of : Json → Option SignalPayload
signal_of (str s) = some (signal answer)
signal_of _ = some (signal offer)

-- Every value has a text of a hundred bytes, and a value is an answer if it is a string.
abbrev pub codec : Codec
codec = record {
  size = λ v. some 100;
  validate_signal = signal_of;
  dump_signal = λ s. if is_answer s.type then str "answer" else obj end;
}

abbrev pub launcher : Launcher
launcher = record {
  id = 7;
  user_id = 1;
  status = ready;
  slave_app_ids = 5 ∷ [];
  connected_at = 1;
  last_heartbeat_at = 2;
  disconnected_at = none;
  updated_at = 2;
}

abbrev pub no_jobs : Db
no_jobs = record { jobs = []; launchers = launcher ∷ [] }

abbrev two_creations : List Call
two_creations =
    creates 1 1 "chat" "llm" 5 (obj end) 10 ∷ creates 2 1 "chat" "llm" 5 (obj end) 11 ∷ []

abbrev two_jobs : Db
two_jobs = record {
  jobs = new_job 1 1 "chat" 5 (obj end) 10 ∷ new_job 2 1 "chat" 5 (obj end) 11 ∷ [];
  launchers = launcher ∷ [];
}

no_jobs-IsConsistent : IsConsistent no_jobs
no_jobs-IsConsistent = record { distinct = tt; sound = tt }

created : run codec no_jobs two_creations ≡ two_jobs
unfolding run step create_job
created = refl

-- A job is claimed, answered, run and finished, and the other is killed.
abbrev pub a_day : List Call
a_day =
    claims (λ p. false) (7 ∷ []) 20
    ∷ answers 1 7 1 (str "answer") 21
    ∷ runs 1 7 1 22
    ∷ progresses 1 7 1 (obj end) 23
    ∷ results 1 7 1 24 25
    ∷ kills 2 (some 1) none 26
    ∷ []

second-fresh :
    contains (ids (step codec no_jobs (creates 1 1 "chat" "llm" 5 (obj end) 10)).jobs) 2 ≡ false
unfolding step create_job
second-fresh = refl

two_jobs-IsConsistent : IsConsistent two_jobs
two_jobs-IsConsistent =
    subst IsConsistent created
      (run-IsConsistent codec no_jobs two_creations (refl, (second-fresh, tt)) no_jobs-IsConsistent)

a_day-AllFresh : AllFresh codec two_jobs a_day
a_day-AllFresh = (tt, (tt, (tt, (tt, (tt, (tt, tt))))))

ends_of_a_day : map (λ j. j.state) (run codec two_jobs a_day).jobs ≡ succeeded ∷ killed ∷ []
unfolding run step claim_next_compatible_job first_pair precedes request_kill mark_launcher_result
    append_launcher_progress mark_launcher_running mark_launcher_answer new_job
ends_of_a_day = refl

run-IsConsistent_example : IsConsistent (run codec two_jobs a_day)
run-IsConsistent_example =
    run-IsConsistent codec two_jobs a_day a_day-AllFresh two_jobs-IsConsistent

run-Survives_example :
    let j = new_job 1 1 "chat" 5 (obj end) 10 in
    (k : Job) × Memᴰ k (run codec two_jobs a_day).jobs × Survives j k
run-Survives_example =
    run-Survives codec two_jobs a_day {j = new_job 1 1 "chat" 5 (obj end) 10} a_day-AllFresh
      two_jobs-IsConsistent (Memᴰ.head refl)

step-Evolved_example :
    Evolved two_jobs.jobs (step codec two_jobs (claims (λ p. false) (7 ∷ []) 20)).jobs
step-Evolved_example =
    step-Evolved codec two_jobs (claims (λ p. false) (7 ∷ []) 20) tt two_jobs-IsConsistent

claim-Claimed_example :
    Claimed
      (λ p. false)
      (7 ∷ [])
      20
      two_jobs
      (claim_next_compatible_job (λ p. false) (7 ∷ []) 20 two_jobs)
claim-Claimed_example = claim-Claimed (λ p. false) (7 ∷ []) 20 two_jobs

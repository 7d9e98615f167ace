-- ===== src/Jobs/Effects.antt =====
-- What one call of the job service does to the jobs table: nothing, one new row at the end, or a
-- rewriting of the rows that pass a test.
use mathlib.Core.List.{map-append}
use mathlib.Core.Path.{subst}
use gpstation.Prelude.{
  ℕ, String, Bool, true, false, ◌||◌, Option, List, [], ◌∷◌, ◌++◌, map, ◌≡◌, refl, sym, ap, ◌∙◌,
  inl, inr, arith, Memᴰ, Distinct, Distinct-snoc, All, All-append, All-update_where,
  keys-update_where, update_where, find, contains, Option-cases, Bool-cases, not,
}
use gpstation.Protocol.{Json, Codec, is_answer, is_offer, is_blank}
use gpstation.Jobs.Rows.{
  Job, JobState, Db, failed, is_queued, is_active, is_assigned, is_answer_ready, is_running,
  job_progress_max_bytes, job_offer_max_bytes, after, after-bind, raise_if, raise_if-returned,
  or_raise,
}
use gpstation.Jobs.Reports.{
  new_job, create_job, reported, anything, has_room, is_error_state, answer_row, run_row,
  progress_row, result_row, end_row, update_launcher_job, check_size, request_json, too_large,
  mark_launcher_answer, mark_launcher_running, append_launcher_progress, mark_launcher_result,
  mark_launcher_error,
}
use gpstation.Jobs.Ending.{
  kill_row, kill_target, request_kill, fail_assigned_job, disconnect_launchers_and_fail_jobs,
  recover_after_server_restart, expire_stale_jobs, is_stale, expire_row, assigned_to, runs_on,
  left_running,
}
use gpstation.Jobs.Lifecycle.{IsNew, Evolved, Evolved-refl, Evolved-append, Evolved-update_where}
use gpstation.Jobs.Sound.{
  IsSound, Good, new_job-IsNew, new_job-IsSound, answer-Good, run-Good, progress-Good, result-Good,
  end-Good, expire-Good, kill-Good,
}

abbrev pub ids : List Job → List ℕ
ids = map (λ j. j.id)

pub data Effect (claims : Bool) (js : List Job) : List Job → Type 0 where
  same : Effect claims js js
  adds :
      (j : Job)
      → contains (ids js) j.id ≡ false
      → IsNew j
      → IsSound j
      → Effect claims js (js ++ j ∷ [])
  rewrites :
      (p : Job → Bool) (f : Job → Job)
      → ((j : Job) → (f j).id ≡ j.id)
      → ((j : Job) → Memᴰ j js → p j ≡ true → Good claims j (f j))
      → Effect claims js (update_where p f js)

pub Effect-Evolved : {claims : Bool} {js ks : List Job} → Effect claims js ks → Evolved js ks
Effect-Evolved {js} same = Evolved-refl js
Effect-Evolved {js} (adds j fresh new sound) = Evolved-append js j new
Effect-Evolved {js} (rewrites p f key good) =
    Evolved-update_where p f js (λ j m h. (good j m h).evolves)

pub Effect-IsSound :
    {claims : Bool} {js ks : List Job} → Effect claims js ks → All IsSound js → All IsSound ks
Effect-IsSound same h = h
Effect-IsSound {js} (adds j fresh new sound) h = All-append IsSound js (j ∷ []) h (sound, tt)
Effect-IsSound {js} (rewrites p f key good) h =
    All-update_where IsSound p f js (λ j m t. (good j m t).sound) h

pub update-Effect :
    (p : Job → Bool) (f : Job → Job) (r : Bool) (launcher user later : ℕ) (db : Db)
    → ((j : Job) → (f j).id ≡ j.id)
    → ((j : Job) → p j ≡ true → Good false j (f j))
    → Effect false db.jobs (update_launcher_job p f r launcher user later db).1.jobs
unfolding update_launcher_job
update-Effect p f r launcher user later db key good = elim (Option-cases (find p db.jobs)) [
  | inl e ↦ rw (e, update_launcher_job) same
  | inr (j, e) ↦ rw (e, update_launcher_job) (rewrites p f key (λ k m h. good k h))
]

reported-expected :
    (job launcher user : ℕ) (expected : JobState → Bool) (extra : Job → Bool) (j : Job)
    → reported job launcher user expected extra j ≡ true
    → (expected j.state ≡ true) × (extra j ≡ true)
reported-expected job launcher user expected extra j h = ground arith

module _ (job launcher user now : ℕ) (db : Db) where
  pub running-Effect : Effect false db.jobs (mark_launcher_running job launcher user now db).1.jobs
  unfolding mark_launcher_running
  running-Effect =
      update-Effect _ (run_row now) false launcher user now db (λ j. refl)
        (λ j h. run-Good now j (reported-expected job launcher user is_answer_ready anything j h).0)

  pub result-Effect :
      (later : ℕ)
      → Effect false db.jobs (mark_launcher_result job launcher user now later db).1.jobs
  unfolding mark_launcher_result
  result-Effect later =
      update-Effect _ (result_row now) true launcher user later db (λ j. refl)
        (λ j h. result-Good now j (reported-expected job launcher user is_running anything j h).0)

  pub error-Effect :
      (detail : String) (state : JobState) (later : ℕ)
      → Effect false db.jobs
          (after db (mark_launcher_error job launcher user detail state now later db)).jobs
  unfolding mark_launcher_error
  error-Effect detail state later =
      after-bind (λ d. Effect false db.jobs d.jobs) db
        (raise_if (not (is_error_state state)) "Invalid terminal job state") _ same
        λ _ e.
          update-Effect _ (end_row state detail now) true launcher user later db (λ j. refl)
            λ j h.
              end-Good state detail now j (ground (arith, raise_if-returned _ _ e))
                (reported-expected job launcher user is_active anything j h).0

  pub answer-Effect :
      (c : Codec) (answer : Json)
      → Effect false db.jobs
          (after db (mark_launcher_answer c job launcher user answer now db)).jobs
  unfolding mark_launcher_answer
  answer-Effect c answer =
      after-bind (λ d. Effect false db.jobs d.jobs) db
        (or_raise (c.validate_signal answer) "validation error") _ same
        λ s _.
          after-bind (λ d. Effect false db.jobs d.jobs) db
            (raise_if (not (is_answer s.type) || is_blank s.sdp) "Job answer must be an SDP answer")
            _ same
            λ _ _.
              update-Effect _ (answer_row (c.dump_signal s) now) false launcher user now db
                (λ j. refl)
                λ j h.
                  answer-Good (c.dump_signal s) now j
                    (reported-expected job launcher user is_assigned anything j h).0

  pub progress-Effect :
      (c : Codec) (value : Json)
      → Effect false db.jobs
          (after db (append_launcher_progress c job launcher user value now db)).jobs
  unfolding append_launcher_progress
  progress-Effect c value =
      after-bind (λ d. Effect false db.jobs d.jobs) db
        (check_size c value job_progress_max_bytes "Job progress exceeds 65536 bytes") _ same
        λ _ _.
          update-Effect _ (progress_row value now) false launcher user now db (λ j. refl)
            λ j h.
              let (run, room) = reported-expected job launcher user is_running has_room j h in
              progress-Good value now j run room

-- A new row has the id that it was given.
pub data Created (id : ℕ) (js : List Job) : List Job → Type 0 where
  refused : Created id js js
  stored : (j : Job) → j.id ≡ id → IsNew j → IsSound j → Created id js (js ++ j ∷ [])

pub create-Created :
    (c : Codec) (id user : ℕ) (handler name : String) (app : ℕ) (offer : Json) (now : ℕ) (db : Db)
    → Created id db.jobs (after db (create_job c id user handler name app offer now db)).jobs
unfolding create_job
create-Created c id user handler name app offer now db =
    after-bind P db (check_size c (request_json handler name offer) job_offer_max_bytes too_large) _
      refused
      λ _ _.
        after-bind P db (or_raise (c.validate_signal offer) "validation error") _ refused λ s _.
          after-bind P db
            (raise_if (not (is_offer s.type) || is_blank s.sdp) "Job offer must be an SDP offer") _
            refused
            λ _ _.
              after-bind P db (check_size c (c.dump_signal s) job_offer_max_bytes too_large) _
                refused
                λ _ _.
                  stored (new_job id user handler app (c.dump_signal s) now) refl
                    (new_job-IsNew id user handler app (c.dump_signal s) now)
                    (new_job-IsSound id user handler app (c.dump_signal s) now)
  where
    P : Db → Type 0
    P d = Created id db.jobs d.jobs

pub Created-Effect :
    {id : ℕ} {js ks : List Job}
    → contains (ids js) id ≡ false
    → Created id js ks
    → Effect false js ks
Created-Effect f refused = same
Created-Effect {js = js} f (stored j key new sound) =
    adds j (ap (contains (ids js)) key ∙ f) new sound

pub Effect-Distinct :
    {claims : Bool} {js ks : List Job} → Effect claims js ks → Distinct (ids js) → Distinct (ids ks)
Effect-Distinct same d = d
Effect-Distinct {js} (adds j fresh new sound) d =
    subst Distinct (sym (map-append (λ j. j.id) js (j ∷ []))) (Distinct-snoc (ids js) j.id d fresh)
Effect-Distinct {js} (rewrites p f key good) d =
    subst Distinct (sym (keys-update_where (λ j. j.id) p f js key)) d

module _ (now : ℕ) (db : Db) where
  pub kill-Effect :
      (job : ℕ) (user launcher : Option ℕ)
      → Effect false db.jobs (request_kill job user launcher now db).1.jobs
  unfolding request_kill
  kill-Effect job user launcher =
      elim (Option-cases (find (kill_target job user launcher) db.jobs)) [
        | inl e ↦ rw (e, request_kill) same
        | inr (j, e) ↦
            rw (e, request_kill)
              (rewrites _ (kill_row now) (λ k. (kill-Good now k).evolves.same_id)
                (λ k m h. kill-Good now k))
      ]

  pub fail-Effect :
      (job launcher : ℕ) (detail : String) (state : JobState)
      → is_error_state state ≡ true
      → Effect false db.jobs (fail_assigned_job job launcher detail state now db).1.jobs
  unfolding fail_assigned_job
  fail-Effect job launcher detail state e =
      elim (Option-cases (find (assigned_to job launcher) db.jobs)) [
        | inl n ↦ rw (n, fail_assigned_job) same
        | inr (j, s) ↦
            rw (s, fail_assigned_job)
              (rewrites _ (end_row state detail now) (λ k. refl)
                (λ k m h. end-Good state detail now k e (ground arith)))
      ]

  pub disconnect-Effect :
      (launchers : List ℕ) (detail : String)
      → Effect false db.jobs (disconnect_launchers_and_fail_jobs launchers detail now db).1.jobs
  unfolding disconnect_launchers_and_fail_jobs
  disconnect-Effect [] detail = same
  disconnect-Effect (id ∷ rest) detail =
      rewrites (runs_on (id ∷ rest)) (end_row failed detail now) (λ k. refl)
        (λ k m h. end-Good failed detail now k refl (ground arith))

  pub recover-Effect : Effect false db.jobs (recover_after_server_restart now db).1.jobs
  unfolding recover_after_server_restart
  recover-Effect =
      rewrites left_running (end_row failed "server restarted" now) (λ k. refl)
        (λ k m h. end-Good failed "server restarted" now k refl (ground arith))

  stale-Good :
      (locked : Job → Bool) (k : Job)
      → is_stale locked now k ≡ true
      → Good false k (expire_row now k)
  stale-Good locked k h = elim (Bool-cases (is_queued k.state)) [
    | inl q ↦ expire-Good _ now k q
    | inr n ↦ end-Good failed _ now k refl (ground arith)
  ]

  pub expire-Effect :
      (locked : Job → Bool) → Effect false db.jobs (expire_stale_jobs locked now db).1.jobs
  unfolding expire_stale_jobs
  expire-Effect locked =
      rewrites (is_stale locked now) (expire_row now) (λ k. refl) (λ k m h. stale-Good locked k h)

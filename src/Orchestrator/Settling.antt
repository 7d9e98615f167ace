-- ===== src/Orchestrator/Settling.antt =====
-- The messages of a launcher keep the database and the registry in step.
use gpstation.Prelude.{
  ℕ, String, Bool, true, false, ◌||◌, not, Option, none, some, ◌≡◌, refl, sym, ap, ◌∙◌, inl, inr,
  arith, Memᴰ, Distinct-unique, update_where-In, find-In, find, Bool-cases, Option-cases, ◌==◌,
  ==_iff, is_id, is_some,
}
use gpstation.Prelude.Dict.{get, get-adjust, holds}
use gpstation.Protocol.{
  Codec, LauncherMessage, job_answer, job_running, job_progress, job_result, job_error,
  job_cancelled, worker_reset_done,
}
use gpstation.Jobs.Rows.{
  Job, JobState, Db, Outcome, returned, raised, after, is_active, failed, cancelled,
}
use gpstation.Jobs.Reports.{
  update_launcher_job, mark_launcher_running, mark_launcher_result, mark_launcher_error, result_row,
  end_row, is_error_state,
}
use gpstation.Jobs.Effects.{
  Effect, running-Effect, result-Effect, error-Effect, answer-Effect, progress-Effect,
}
use gpstation.Registry.Launchers.{
  LauncherRuntime, Launchers, note_job, mark_launcher_job, clear_launcher_worker,
  launcher_matches_job,
}
use gpstation.Orchestrator.Server.{Server}
use gpstation.Orchestrator.Handlers.{settle, job_event, reset_done, handle_launcher_job_event}
use gpstation.Orchestrator.Ownership.{Coherent, Effect-Coherent, Weaker-Coherent, Weaker-adjust}

-- After an update that returned a row, the row's job is over.
abbrev Ends : ℕ → Option Job × Db → Type 0
Ends job (none, db) = Unit
Ends job (some k, db) = (j : Job) × Memᴰ j db.jobs × (j.id ≡ job) × (is_active j.state ≡ false)

update-Ends :
    (job : ℕ) (p : Job → Bool) (f : Job → Job) (r : Bool) (launcher user later : ℕ) (db : Db)
    → ((j : Job) → p j ≡ true → ((f j).id ≡ job) × (is_active (f j).state ≡ false))
    → Ends job (update_launcher_job p f r launcher user later db)
unfolding update_launcher_job
update-Ends job p f r launcher user later db ends = elim (Option-cases (find p db.jobs)) [
  | inl e ↦ rw (e, update_launcher_job) tt
  | inr (j, e) ↦
      let (m, h) = find-In p db.jobs e in
      let (id, over) = ends j h in
      rw (e, update_launcher_job) (f j, update_where-In p f db.jobs m h, id, over)
]

-- The launcher is free again: its job is over, and it had no other.
release-Coherent :
    (db : Db) (launchers : Launchers) (launcher job : ℕ) (r : LauncherRuntime) (j : Job)
    → Coherent db launchers
    → get launchers launcher ≡ some r
    → r.current_job_id ≡ some job
    → Memᴰ j db.jobs
    → j.id ≡ job
    → is_active j.state ≡ false
    → Coherent db (mark_launcher_job launcher none none (some "idle") launchers)
unfolding mark_launcher_job
release-Coherent db launchers launcher job r j d g current m id over = record {
  table = d.table;
  owned = λ k l q n a on h. elim (Bool-cases (launcher == l)) [
    | inl here ↦
        let there : get launchers l ≡ some r =
          ap (get launchers) (sym ((==_iff launcher l).0 here)) ∙ g in
        let id' : k.id ≡ j.id = ground (arith, d.owned k l r n a on there, current, id) in
        let same : k ≡ j = Distinct-unique (λ i. i.id) db.jobs d.table.distinct n m id' in
        absurd (cc (ap (λ i. is_active i.state) same, a, over))
    | inr other ↦ d.owned k l q n a on (
        ground
          (arith, get-adjust launchers launcher l (note_job none none (some "idle")), other, h))
  ];
}

matches_cases :
    (launchers : Launchers) (launcher job : ℕ)
    → launcher_matches_job launcher job launchers ≡ true
    → (r : LauncherRuntime) × (get launchers launcher ≡ some r) × (r.current_job_id ≡ some job)
unfolding launcher_matches_job
matches_cases launchers launcher job h = elim (Option-cases (get launchers launcher)) [
  | inl n ↦ cc (ap (holds (λ l. is_id l.current_job_id job)) (sym n), h)
  | inr (r, g) ↦ (r, g, ground (arith, ap (holds (λ l. is_id l.current_job_id job)) (sym g), h))
]

abbrev Ending : ℕ → Outcome (Option Job × Db) → Type 0
Ending job (raised message) = Unit
Ending job (returned r) = Ends job r

settle-Coherent :
    (outcome : Outcome (Option Job × Db)) (launcher job : ℕ) (ends : Bool) (s : Server)
    → Coherent s.db s.launchers
    → Effect false s.db.jobs (after s.db outcome).jobs
    → (ends ≡ true → Ending job outcome)
    → launcher_matches_job launcher job s.launchers ≡ true
    → (let t = (settle outcome launcher job ends s).1 in Coherent t.db t.launchers)
settle-Coherent (raised message) launcher job ends s c e over m = c
settle-Coherent (returned (none, db)) launcher job ends s c e over m =
    Effect-Coherent s.db db s.launchers e c
settle-Coherent (returned (some k, db)) launcher job true s c e over m =
    let (r, g, current) = matches_cases s.launchers launcher job m in
    let (j, n, id, done) = over refl in
    release-Coherent db s.launchers launcher job r j (Effect-Coherent s.db db s.launchers e c) g
      current n id done
settle-Coherent (returned (some k, db)) launcher job false s c e over m =
    Effect-Coherent s.db db s.launchers e c

job_event-Coherent :
    (outcome : Outcome (Option Job × Db)) (launcher job : ℕ) (ends : Bool) (s : Server)
    → Coherent s.db s.launchers
    → Effect false s.db.jobs (after s.db outcome).jobs
    → (ends ≡ true → Ending job outcome)
    → (let t = (job_event launcher job ends outcome s).1 in Coherent t.db t.launchers)
job_event-Coherent outcome launcher job ends s c e over =
    elim (Bool-cases (launcher_matches_job launcher job s.launchers)) [
      | inl m ↦ rw m (settle-Coherent outcome launcher job ends s c e over m)
      | inr n ↦ rw n c
    ]

result-Ends :
    (job launcher user now later : ℕ) (db : Db)
    → Ends job (mark_launcher_result job launcher user now later db)
unfolding mark_launcher_result
result-Ends job launcher user now later db =
    update-Ends job _ (result_row now) true launcher user later db (λ j h. ground arith)

error-Ends :
    (job launcher user : ℕ) (detail : String) (state : JobState) (now later : ℕ) (db : Db)
    → is_active state ≡ false
    → Ending job (mark_launcher_error job launcher user detail state now later db)
unfolding mark_launcher_error
error-Ends job launcher user detail state now later db a =
    elim (Bool-cases (not (is_error_state state))) [
      | inl bad ↦ rw bad tt
      | inr good ↦ rw good (
          update-Ends job _ (end_row state detail now) true launcher user later db
            (λ j h. (ground arith, a)))
    ]

reset_done-Coherent :
    (o : Option LauncherRuntime) (launcher : ℕ) (s : Server)
    → get s.launchers launcher ≡ o
    → Coherent s.db s.launchers
    → (let t = (reset_done o launcher s).1 in Coherent t.db t.launchers)
unfolding clear_launcher_worker
reset_done-Coherent none launcher s g c = c
reset_done-Coherent (some l) launcher s g c =
    elim (Bool-cases (not l.resetting || is_some l.current_job_id)) [
      | inl bad ↦ rw bad c
      | inr good ↦ rw good (
          Weaker-Coherent s.db s.launchers _
            (Weaker-adjust s.launchers launcher _ (λ q h. ground (arith, g, h, good))) c)
    ]

-- Whatever a launcher sends, the two stay in step.
pub handle-Coherent :
    (c : Codec) (launcher user : ℕ) (message : LauncherMessage) (now later : ℕ) (s : Server)
    → Coherent s.db s.launchers
    → (let t = (handle_launcher_job_event c launcher user message now later s).1 in
        Coherent t.db t.launchers)
unfolding handle_launcher_job_event
handle-Coherent c launcher user worker_reset_done now later s h =
    reset_done-Coherent (get s.launchers launcher) launcher s refl h
handle-Coherent c launcher user (job_answer job answer) now later s h =
    job_event-Coherent _ launcher job false s h
      (answer-Effect job launcher user now s.db c (c.dump_signal answer)) (λ e. cc)
handle-Coherent c launcher user (job_running job) now later s h =
    job_event-Coherent (returned (mark_launcher_running job launcher user now s.db)) launcher job
      false s h (running-Effect job launcher user now s.db) (λ e. cc)
handle-Coherent c launcher user (job_progress job progress) now later s h =
    job_event-Coherent _ launcher job false s h
      (progress-Effect job launcher user now s.db c progress) (λ e. cc)
handle-Coherent c launcher user (job_result job) now later s h =
    job_event-Coherent (returned (mark_launcher_result job launcher user now later s.db)) launcher
      job true s h (result-Effect job launcher user now s.db later)
      (λ _. result-Ends job launcher user now later s.db)
handle-Coherent c launcher user (job_error job code detail) now later s h =
    job_event-Coherent _ launcher job true s h
      (error-Effect job launcher user now s.db detail failed later)
      (λ _. error-Ends job launcher user detail failed now later s.db refl)
handle-Coherent c launcher user (job_cancelled job reason) now later s h =
    job_event-Coherent _ launcher job true s h
      (error-Effect job launcher user now s.db reason cancelled later)
      (λ _. error-Ends job launcher user reason cancelled now later s.db refl)

-- ===== src/Workers/Accounts.antt =====
-- app_v1/launcher/app/subprocess_manager.py: no job that the server starts is lost without a word.
use mathlib.Core.Path.{subst}
use gpstation.Prelude.{
  ℕ, Bool, true, false, ◌||◌, Option, none, List, [], ◌∷◌, ◌≡◌, refl, sym, inl, inr, arith, ◌&&◌,
  ◌==◌, is_none, Option-cases, Bool-cases,
}
use gpstation.Workers.State.{WorkerManager, process_ended, reset_worker}
use gpstation.Workers.Reports.{handle_worker_message, output_ended, escalate_cancel}
use gpstation.Workers.Control.{SlaveApp, Started, done, waits, start_job, cancel_job}
use gpstation.Workers.Events.{
  Program, after_start, Event, starts, resumes, cancels, resets, says, dies, exits, escalates,
  handle, handle_all, new_program, is_settled,
}
use gpstation.Workers.Keeps.{
  is_honest, names_current, Keeps, has_only, reset-Keeps, says-Keeps, dies-Keeps, exits-Keeps,
  escalates-Keeps, cancels-Keeps, start-Keeps, start-settled, resume-Keeps, start-only, says-only,
  dies-only, exits-only, escalates-only,
}

-- Every worker's message in the sequence names the current job.
abbrev pub is_disciplined : Event → Program → Bool
is_disciplined (says message) p = names_current message p.manager
is_disciplined _ p = true

abbrev pub AllDisciplined : (ℕ → Option SlaveApp) → List Event → Program → Type 0
AllDisciplined registry [] p = Unit
AllDisciplined registry (e ∷ es) p =
    (is_disciplined e p ≡ true) × AllDisciplined registry es (handle registry e p)

record Sound (job : ℕ) (p : Program) : Type 0 where
  honest : is_honest job p.manager ≡ true
  only : has_only p.waiting p.manager ≡ true

abbrev Kept : ℕ → Program → Program → Type 0
Kept job p q = Sound job q × (is_settled job p.manager ≡ true → is_settled job q.manager ≡ true)

keep :
    (job : ℕ) (p q : Program)
    → Sound job p
    → Keeps job p.manager q.manager
    → has_only q.waiting q.manager ≡ true
    → Kept job p q
keep job p q v k only = (record { honest = k.honest v.honest; only = only }, k.settled v.honest)

after-Keeps :
    (job other : ℕ) (m : WorkerManager) (r : Started × WorkerManager)
    → Keeps job m r.1
    → Keeps job m (after_start other r).manager
after-Keeps job other m (done, n) k = k
after-Keeps job other m (waits, n) k = k

handle-Kept :
    (registry : ℕ → Option SlaveApp) (job : ℕ) (e : Event) (p : Program)
    → is_disciplined e p ≡ true
    → Sound job p
    → Kept job p (handle registry e p)
unfolding handle
handle-Kept registry job (starts other app process written) p d v = elim (Option-cases p.waiting) [
  | inl free ↦
      rw (free, handle)
        (keep job p _ v
          (after-Keeps job other p.manager (start_job registry other app process written p.manager)
            (start-Keeps registry job other app process written p.manager))
          (start-only registry other app process written p.manager))
  | inr (other, held) ↦ rw (held, handle) (v, λ s. s)
]
handle-Kept registry job (resumes how written) p d v = elim (Option-cases p.waiting) [
  | inl free ↦ rw (free, handle) (v, λ s. s)
  | inr (other, held) ↦
      rw (held, handle)
        (keep job p _ v
          (resume-Keeps job other how written p.manager
            (subst (λ w. has_only w p.manager ≡ true) held v.only))
          refl)
]
handle-Kept registry job (cancels other reason written) p d v = elim (Option-cases p.waiting) [
  | inl free ↦
      rw (free, handle)
        (keep job p (record p { manager = cancel_job other reason written p.manager }) v
          (cancels-Keeps job other reason written p.manager)
          (subst (λ w. has_only w (cancel_job other reason written p.manager) ≡ true) (sym free)
            refl))
  | inr (other, held) ↦ rw (held, handle) (v, λ s. s)
]
handle-Kept registry job (resets reason) p d v = elim (Option-cases p.waiting) [
  | inl free ↦
      rw (free, handle)
        (keep job p (record p { manager = reset_worker reason true true p.manager }) v
          (reset-Keeps job reason true true p.manager)
          (subst (λ w. has_only w (reset_worker reason true true p.manager) ≡ true) (sym free)
            refl))
  | inr (other, held) ↦ rw (held, handle) (v, λ s. s)
]
handle-Kept registry job (says message) p d v =
    keep job p (record p { manager = handle_worker_message message p.manager }) v
      (says-Keeps job message p.manager d) (says-only p.waiting message p.manager v.only)
handle-Kept registry job (dies process) p d v =
    keep job p (record p { manager = process_ended process p.manager }) v
      (dies-Keeps job process p.manager) (dies-only p.waiting process p.manager v.only)
handle-Kept registry job (exits process) p d v =
    keep job p (record p { manager = output_ended process p.manager }) v
      (exits-Keeps job process p.manager) (exits-only p.waiting process p.manager v.only)
handle-Kept registry job escalates p d v =
    keep job p (record p { manager = escalate_cancel p.manager }) v (escalates-Keeps job p.manager)
      (escalates-only p.waiting p.manager v.only)

stays_settled :
    (registry : ℕ → Option SlaveApp) (job : ℕ) (events : List Event) (p : Program)
    → AllDisciplined registry events p
    → Sound job p
    → is_settled job p.manager ≡ true
    → is_settled job (handle_all registry events p).manager ≡ true
unfolding handle_all
stays_settled registry job [] p d v s = s
stays_settled registry job (e ∷ es) p d v s =
    let (w, k) = handle-Kept registry job e p d.0 v in
    stays_settled registry job es (handle registry e p) d.1 w (k s)

-- The server's `job.start` for the job is handled in the sequence.
abbrev pub is_started : (ℕ → Option SlaveApp) → ℕ → List Event → Program → Bool
is_started registry job [] p = false
is_started registry job (starts other app process written ∷ es) p =
    (is_none p.waiting && (other == job))
    || is_started registry job es (handle registry (starts other app process written) p)
is_started registry job (e ∷ es) p = is_started registry job es (handle registry e p)

after-settled :
    (job other : ℕ) (r : Started × WorkerManager)
    → is_settled job r.1 ≡ true
    → is_settled job (after_start other r).manager ≡ true
after-settled job other (done, n) s = s
after-settled job other (waits, n) s = s

starts_settled :
    (registry : ℕ → Option SlaveApp) (job other app process : ℕ) (written : Bool) (p : Program)
    → is_none p.waiting && (other == job) ≡ true
    → is_settled job (handle registry (starts other app process written) p).manager ≡ true
unfolding handle
starts_settled registry job other app process written p e =
    let free : p.waiting ≡ none = ground (arith, e) in
    let same : other ≡ job = ground (arith, e) in
    rw (free, handle)
      (after-settled job other (start_job registry other app process written p.manager)
        (rw same (start-settled registry job app process written p.manager)))

settled_from :
    (registry : ℕ → Option SlaveApp) (job : ℕ) (events : List Event) (p : Program)
    → AllDisciplined registry events p
    → Sound job p
    → is_started registry job events p ≡ true
    → is_settled job (handle_all registry events p).manager ≡ true
unfolding handle_all
settled_from registry job [] p d v s = cc
settled_from registry job (starts other app process written ∷ es) p d v s =
    let e = starts other app process written in
    let w = (handle-Kept registry job e p d.0 v).0 in
    elim (Bool-cases (is_none p.waiting && (other == job))) [
      | inl now ↦
          stays_settled registry job es (handle registry e p) d.1 w
            (starts_settled registry job other app process written p now)
      | inr later ↦
          settled_from registry job es (handle registry e p) d.1 w (ground (arith, s, later))
    ]
settled_from registry job (resumes how written ∷ es) p d v s =
    settled_from registry job es _ d.1 (handle-Kept registry job (resumes how written) p d.0 v).0 s
settled_from registry job (cancels other reason written ∷ es) p d v s =
    settled_from registry job es _ d.1
      (handle-Kept registry job (cancels other reason written) p d.0 v).0 s
settled_from registry job (resets reason ∷ es) p d v s =
    settled_from registry job es _ d.1 (handle-Kept registry job (resets reason) p d.0 v).0 s
settled_from registry job (says message ∷ es) p d v s =
    settled_from registry job es _ d.1 (handle-Kept registry job (says message) p d.0 v).0 s
settled_from registry job (dies process ∷ es) p d v s =
    settled_from registry job es _ d.1 (handle-Kept registry job (dies process) p d.0 v).0 s
settled_from registry job (exits process ∷ es) p d v s =
    settled_from registry job es _ d.1 (handle-Kept registry job (exits process) p d.0 v).0 s
settled_from registry job (escalates ∷ es) p d v s =
    settled_from registry job es _ d.1 (handle-Kept registry job escalates p d.0 v).0 s

-- After any sequence of events of a new manager, in which the worker's messages name the current job:
-- a job whose `job.start` was handled is the current job still, or the server has been sent a
-- `job.result`, a `job.error` or a `job.cancelled` for it.
pub none_lost :
    (registry : ℕ → Option SlaveApp) (job : ℕ) (events : List Event)
    → AllDisciplined registry events new_program
    → is_started registry job events new_program ≡ true
    → is_settled job (handle_all registry events new_program).manager ≡ true
none_lost registry job events d s =
    settled_from registry job events new_program d (record { honest = refl; only = refl }) s

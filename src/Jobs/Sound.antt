-- ===== src/Jobs/Sound.antt =====
-- What holds of every row of the jobs table between two calls.
use gpstation.Prelude.{
  ℕ, ◌≤◌, String, Bool, true, false, ◌||◌, none, [], ◌∷◌, ◌≡◌, refl, ◌⊎◌, inl, inr, arith,
  Bool-cases, length, length-append, is_some,
}
use gpstation.Protocol.{Json}
use gpstation.Jobs.Rows.{
  JobState, answer_ready, running, succeeded, failed, cancelled, Job, is_terminal, is_active,
  is_queued, is_assigned, is_answer_ready, is_running, job_progress_max_items,
}
use gpstation.Jobs.Reports.{
  new_job, has_room, is_error_state, answer_row, run_row, progress_row, result_row, end_row,
}
use gpstation.Jobs.Claim.{assign_job}
use gpstation.Jobs.Ending.{kill_row}
use gpstation.Jobs.Lifecycle.{
  Edge, Evolves, IsNew, Evolves-move, Edge-claim, Edge-kill, Edge-expire, Edge-answered,
  Edge-started, Edge-finished,
}

-- The states of a job whose launcher has answered, and has not failed since.
abbrev pub has_answer : JobState → Bool
has_answer answer_ready = true
has_answer running = true
has_answer succeeded = true
has_answer _ = false

-- The states of a job that a launcher runs or has run to its end.
abbrev pub was_placed : JobState → Bool
was_placed s = is_active s || has_answer s

pub record IsSound (j : Job) : Type 0 where
  pub waiting : is_queued j.state ≡ true → (j.launcher_id ≡ none) × (j.attempt_count ≡ 0)
  pub placed :
      was_placed j.state ≡ true
      → (is_some j.launcher_id ≡ true) × (is_some j.assigned_at ≡ true) × (j.attempt_count ≡ 1)
  pub answered : has_answer j.state ≡ true → is_some j.answer ≡ true
  pub started : is_running j.state ≡ true → is_some j.started_at ≡ true
  pub ended : is_some j.finished_at ≡ is_terminal j.state
  pub bounded : length j.progress ≤ job_progress_max_items
  pub once : j.attempt_count ≤ 1

-- A rewriting of one row that a call may make. Only a claim (`claims`) makes a job active.
pub record Good (claims : Bool) (j k : Job) : Type 0 where
  pub evolves : Evolves j k
  pub sound : IsSound j → IsSound k
  pub calm : claims ≡ false → is_active k.state ≡ true → is_active j.state ≡ true

pub new_job-IsNew :
    (id user : ℕ) (handler : String) (app : ℕ) (offer : Json) (now : ℕ)
    → IsNew (new_job id user handler app offer now)
unfolding new_job
new_job-IsNew id user handler app offer now = ground arith

pub new_job-IsSound :
    (id user : ℕ) (handler : String) (app : ℕ) (offer : Json) (now : ℕ)
    → IsSound (new_job id user handler app offer now)
unfolding new_job
new_job-IsSound id user handler app offer now = ground arith

pub assign-Good :
    (launcher now : ℕ) (j : Job)
    → is_queued j.state ≡ true
    → Good true j (assign_job launcher now j)
assign-Good launcher now j h = record {
  evolves = Evolves-move j _ refl refl refl refl (λ q. cc) (Edge-claim j.state h);
  sound = λ v. ground arith;
  calm = λ c a. ground arith;
}

pub answer-Good :
    (answer : Json) (now : ℕ) (j : Job)
    → is_assigned j.state ≡ true
    → Good false j (answer_row answer now j)
answer-Good answer now j h = record {
  evolves = Evolves-move j _ refl refl refl refl (λ q. refl) (Edge-answered j.state h);
  sound = λ v. ground arith;
  calm = λ c a. ground arith;
}

pub run-Good : (now : ℕ) (j : Job) → is_answer_ready j.state ≡ true → Good false j (run_row now j)
run-Good now j h = record {
  evolves = Evolves-move j _ refl refl refl refl (λ q. refl) (Edge-started j.state h);
  sound = λ v. ground arith;
  calm = λ c a. ground arith;
}

pub progress-Good :
    (value : Json) (now : ℕ) (j : Job)
    → is_running j.state ≡ true
    → has_room j ≡ true
    → Good false j (progress_row value now j)
progress-Good value now j h room = record {
  evolves = record {
    same_id = refl;
    same_user = refl;
    same_app = refl;
    same_offer = refl;
    moves = inl refl;
    keeps_launcher = λ q. refl;
    settled = λ t. ground arith;
  };
  sound = λ v. ground (arith, length-append j.progress ((now, value) ∷ []));
  calm = λ c a. ground arith;
}

pub result-Good : (now : ℕ) (j : Job) → is_running j.state ≡ true → Good false j (result_row now j)
result-Good now j h = record {
  evolves = Evolves-move j _ refl refl refl refl (λ q. refl) (Edge-finished j.state h);
  sound = λ v. ground arith;
  calm = λ c a. ground arith;
}

Edge-ended : (s t : JobState) → is_error_state t ≡ true → is_active s ≡ true → Edge s t
Edge-ended s failed e h = Edge.fail h
Edge-ended s cancelled e h = Edge.cancel h
Edge-ended s _ e h = cc

pub end-Good :
    (state : JobState) (detail : String) (now : ℕ) (j : Job)
    → is_error_state state ≡ true
    → is_active j.state ≡ true
    → Good false j (end_row state detail now j)
end-Good state detail now j e h = record {
  evolves = Evolves-move j _ refl refl refl refl (λ q. refl) (Edge-ended j.state state e h);
  sound = λ v. ground arith;
  calm = λ c a. ground arith;
}

pub expire-Good :
    (detail : String) (now : ℕ) (j : Job)
    → is_queued j.state ≡ true
    → Good false j (end_row failed detail now j)
expire-Good detail now j h = record {
  evolves = Evolves-move j _ refl refl refl refl (λ q. refl) (Edge-expire j.state h);
  sound = λ v. ground arith;
  calm = λ c a. ground arith;
}

kill-moves :
    (now : ℕ) (j : Job) → ((kill_row now j).state ≡ j.state) ⊎ Edge j.state (kill_row now j).state
kill-moves now j = elim (Bool-cases (is_terminal j.state)) [
  | inl t ↦ rw t (inl refl)
  | inr n ↦ elim (Bool-cases (is_queued j.state)) [
    | inl q ↦ rw (n, q) (inr (Edge-kill j.state q))
    | inr m ↦ rw (n, m) (inl refl)
  ]
]

pub kill-Good : (now : ℕ) (j : Job) → Good false j (kill_row now j)
kill-Good now j = record {
  evolves = record {
    same_id = ground arith;
    same_user = ground arith;
    same_app = ground arith;
    same_offer = ground arith;
    moves = kill-moves now j;
    keeps_launcher = λ q. ground arith;
    settled = λ t. ground arith;
  };
  sound = λ v. ground arith;
  calm = λ c a. ground arith;
}

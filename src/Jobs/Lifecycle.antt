-- ===== src/Jobs/Lifecycle.antt =====
-- The life of a job: which states follow one another, and what a row keeps.
use gpstation.Prelude.{
  Bool, true, false, none, List, [], ◌∷◌, ◌++◌, ◌≡◌, refl, ◌⊎◌, inl, inr, arith, Bool-cases,
  update_where, Memᴰ,
}
use gpstation.Jobs.Rows.{
  JobState, queued, assigned, answer_ready, running, succeeded, failed, cancelled, killed, Job,
  is_terminal, is_active, is_queued, is_assigned, is_answer_ready, is_running,
}

-- The diagram of states.
pub data Edge : JobState → JobState → Type 0 where
  claim : Edge queued assigned
  answered : Edge assigned answer_ready
  started : Edge answer_ready running
  finished : Edge running succeeded
  kill : Edge queued killed
  expire : Edge queued failed
  fail : {s : JobState} → is_active s ≡ true → Edge s failed
  cancel : {s : JobState} → is_active s ≡ true → Edge s cancelled

pub Edge-claim : (s : JobState) → is_queued s ≡ true → Edge s assigned
Edge-claim queued h = claim
Edge-claim _ h = cc

pub Edge-kill : (s : JobState) → is_queued s ≡ true → Edge s killed
Edge-kill queued h = kill
Edge-kill _ h = cc

pub Edge-expire : (s : JobState) → is_queued s ≡ true → Edge s failed
Edge-expire queued h = expire
Edge-expire _ h = cc

pub Edge-answered : (s : JobState) → is_assigned s ≡ true → Edge s answer_ready
Edge-answered assigned h = answered
Edge-answered _ h = cc

pub Edge-started : (s : JobState) → is_answer_ready s ≡ true → Edge s running
Edge-started answer_ready h = started
Edge-started _ h = cc

pub Edge-finished : (s : JobState) → is_running s ≡ true → Edge s succeeded
Edge-finished running h = finished
Edge-finished _ h = cc

-- One call may change a row `j` into `k`: along an edge at most, under the same key, owner, request
-- and launcher, and not at all once the job has ended.
pub record Evolves (j k : Job) : Type 0 where
  pub same_id : k.id ≡ j.id
  pub same_user : k.user_id ≡ j.user_id
  pub same_app : k.slave_app_id ≡ j.slave_app_id
  pub same_offer : k.offer ≡ j.offer
  pub moves : (k.state ≡ j.state) ⊎ Edge j.state k.state
  pub keeps_launcher : is_queued j.state ≡ false → k.launcher_id ≡ j.launcher_id
  pub settled : is_terminal j.state ≡ true → k ≡ j

pub Evolves-refl : (j : Job) → Evolves j j
Evolves-refl j = record {
  same_id = refl;
  same_user = refl;
  same_app = refl;
  same_offer = refl;
  moves = inl refl;
  keeps_launcher = λ _. refl;
  settled = λ _. refl;
}

Edge-live : {s t : JobState} → Edge s t → is_terminal s ≡ false
Edge-live claim = refl
Edge-live answered = refl
Edge-live started = refl
Edge-live finished = refl
Edge-live kill = refl
Edge-live expire = refl
Edge-live {s} (fail h) = ground arith
Edge-live {s} (cancel h) = ground arith

-- A move along an edge starts at a job that has not ended.
pub Evolves-move :
    (j k : Job)
    → k.id ≡ j.id
    → k.user_id ≡ j.user_id
    → k.slave_app_id ≡ j.slave_app_id
    → k.offer ≡ j.offer
    → (is_queued j.state ≡ false → k.launcher_id ≡ j.launcher_id)
    → Edge j.state k.state
    → Evolves j k
Evolves-move j k id user app offer launcher e = record {
  same_id = id;
  same_user = user;
  same_app = app;
  same_offer = offer;
  moves = inr e;
  keeps_launcher = launcher;
  settled = λ t. cc (Edge-live e);
}

-- What holds of a row that a call has added.
pub record IsNew (j : Job) : Type 0 where
  pub waits : j.state ≡ queued
  pub unassigned : j.launcher_id ≡ none

-- Rows keep their places, and at most one new row comes at the end.
abbrev pub Evolved : List Job → List Job → Type 0
Evolved [] [] = Unit
Evolved [] (k ∷ []) = IsNew k
Evolved [] (k ∷ l ∷ ks) = ⊥
Evolved (j ∷ js) [] = ⊥
Evolved (j ∷ js) (k ∷ ks) = Evolves j k × Evolved js ks

pub Evolved-refl : (js : List Job) → Evolved js js
Evolved-refl [] = tt
Evolved-refl (j ∷ js) = (Evolves-refl j, Evolved-refl js)

pub Evolved-append : (js : List Job) (k : Job) → IsNew k → Evolved js (js ++ k ∷ [])
Evolved-append [] k h = h
Evolved-append (j ∷ js) k h = (Evolves-refl j, Evolved-append js k h)

pub Evolved-update_where :
    (p : Job → Bool) (f : Job → Job) (js : List Job)
    → ((j : Job) → Memᴰ j js → p j ≡ true → Evolves j (f j))
    → Evolved js (update_where p f js)
Evolved-update_where p f [] keep = tt
Evolved-update_where p f (j ∷ js) keep =
    let rest = Evolved-update_where p f js (λ k m. keep k (Memᴰ.tail m)) in
    elim (Bool-cases (p j)) [
      | inl hit ↦ rw hit (keep j (Memᴰ.head refl) hit, rest)
      | inr miss ↦ rw miss (Evolves-refl j, rest)
    ]

-- ===== src/Jobs/Invariant.antt =====
-- The jobs table over one call of the service and over every history of calls.
use gpstation.Prelude.{true, List, [], ◌∷◌, ◌≡◌, refl, ap, ◌⊎◌, ◌∙◌, Memᴰ, Distinct, All}
use gpstation.Protocol.{Codec}
use gpstation.Jobs.Rows.{Job, JobState, Db, is_terminal}
use gpstation.Jobs.History.{
  Call, creates, claims, answers, runs, progresses, results, errs, kills, fails, disconnects,
  recovers, expires, as_failed, as_cancelled, is_claim, step, run, IsFresh, AllFresh,
}
use gpstation.Jobs.Lifecycle.{Edge, Evolves, Evolved}
use gpstation.Jobs.Sound.{IsSound}
use gpstation.Jobs.Effects.{
  ids, Effect, Created-Effect, create-Created, Effect-Evolved, Effect-IsSound, Effect-Distinct,
  running-Effect, result-Effect, error-Effect, answer-Effect, progress-Effect, kill-Effect,
  fail-Effect, disconnect-Effect, recover-Effect, expire-Effect,
}
use gpstation.Jobs.Choice.{claim-Effect}

-- Ids are unique, and every row is sound.
pub record IsConsistent (db : Db) : Type 0 where
  pub distinct : Distinct (ids db.jobs)
  pub sound : All IsSound db.jobs

-- A call touches the jobs table in one of three ways only.
pub step-Effect :
    (c : Codec) (db : Db) (call : Call)
    → IsFresh db call
    → Distinct (ids db.jobs)
    → Effect (is_claim call) db.jobs (step c db call).jobs
unfolding step
step-Effect c db (creates id user handler name app offer now) f d =
    Created-Effect f (create-Created c id user handler name app offer now db)
step-Effect c db (claims locked idle now) f d = claim-Effect locked idle now db d
step-Effect c db (answers job launcher user answer now) f d =
    answer-Effect job launcher user now db c answer
step-Effect c db (runs job launcher user now) f d = running-Effect job launcher user now db
step-Effect c db (progresses job launcher user value now) f d =
    progress-Effect job launcher user now db c value
step-Effect c db (results job launcher user now later) f d =
    result-Effect job launcher user now db later
step-Effect c db (errs job launcher user detail state now later) f d =
    error-Effect job launcher user now db detail state later
step-Effect c db (kills job user launcher now) f d = kill-Effect now db job user launcher
step-Effect c db (fails job launcher detail as_failed now) f d =
    fail-Effect now db job launcher detail _ refl
step-Effect c db (fails job launcher detail as_cancelled now) f d =
    fail-Effect now db job launcher detail _ refl
step-Effect c db (disconnects launchers detail now) f d = disconnect-Effect now db launchers detail
step-Effect c db (recovers now) f d = recover-Effect now db
step-Effect c db (expires locked now) f d = expire-Effect now db locked

pub step-IsConsistent :
    (c : Codec) (db : Db) (call : Call)
    → IsFresh db call
    → IsConsistent db
    → IsConsistent (step c db call)
step-IsConsistent c db call f v =
    let e = step-Effect c db call f v.distinct in
    record { distinct = Effect-Distinct e v.distinct; sound = Effect-IsSound e v.sound }

-- On a consistent table, and with an id for a new row that is not in it, a call of the service moves each
-- row along one edge of the state diagram at most, and adds one new row, which is queued, at most.
pub step-Evolved :
    (c : Codec) (db : Db) (call : Call)
    → IsFresh db call
    → IsConsistent db
    → Evolved db.jobs (step c db call).jobs
step-Evolved c db call f v = Effect-Evolved (step-Effect c db call f v.distinct)

-- Any history of calls, each new row with an id that is not in the table then, keeps a consistent table
-- consistent: ids are unique, and every row is sound.
pub run-IsConsistent :
    (c : Codec) (db : Db) (calls : List Call)
    → AllFresh c db calls
    → IsConsistent db
    → IsConsistent (run c db calls)
unfolding run
run-IsConsistent c db [] f v = v
run-IsConsistent c db (call ∷ calls) f v =
    run-IsConsistent c (step c db call) calls f.1 (step-IsConsistent c db call f.0 v)

-- A path of the diagram.
pub data Trail : JobState → JobState → Type 0 where
  here : {s t : JobState} → t ≡ s → Trail s t
  next : {s t u : JobState} → (t ≡ s) ⊎ Edge s t → Trail t u → Trail s u

-- What becomes of a row over a history.
pub record Survives (j k : Job) : Type 0 where
  pub same_id : k.id ≡ j.id
  pub same_user : k.user_id ≡ j.user_id
  pub same_offer : k.offer ≡ j.offer
  pub trail : Trail j.state k.state
  pub settled : is_terminal j.state ≡ true → k ≡ j

Evolved-In :
    (js ks : List Job) {j : Job} → Evolved js ks → Memᴰ j js → (k : Job) × Memᴰ k ks × Evolves j k
Evolved-In [] ks e m = elim m [ ]
Evolved-In (i ∷ js) [] e m = elim e [ ]
Evolved-In (i ∷ js) (k ∷ ks) e (Memᴰ.head s) = (k, Memᴰ.head refl, rw s (e.0))
Evolved-In (i ∷ js) (k ∷ ks) e (Memᴰ.tail m) =
    let (l, n, v) = Evolved-In js ks e.1 m in (l, Memᴰ.tail n, v)

Survives-trans : {i j k : Job} → Evolves i j → Survives j k → Survives i k
Survives-trans {i} {j} {k} e s = record {
  same_id = s.same_id ∙ e.same_id;
  same_user = s.same_user ∙ e.same_user;
  same_offer = s.same_offer ∙ e.same_offer;
  trail = next e.moves s.trail;
  settled = λ t. s.settled (ap (λ l. is_terminal l.state) (e.settled t) ∙ t) ∙ e.settled t;
}

-- Over any history of calls on a consistent table, each new row with an id that is not in the table then,
-- each job of the table keeps its id, its owner and its offer, moves only along edges, and
-- does not change at all once it has ended.
pub run-Survives :
    (c : Codec) (db : Db) (calls : List Call) {j : Job}
    → AllFresh c db calls
    → IsConsistent db
    → Memᴰ j db.jobs
    → (k : Job) × Memᴰ k (run c db calls).jobs × Survives j k
unfolding run
run-Survives c db [] {j} f v m = (
  j,
  m,
  record {
    same_id = refl;
    same_user = refl;
    same_offer = refl;
    trail = here refl;
    settled = λ _. refl;
  },
)
run-Survives c db (call ∷ calls) {j} f v m =
    let (i, n, e) = Evolved-In db.jobs (step c db call).jobs (step-Evolved c db call f.0 v) m in
    let (k, o, s) =
      run-Survives c (step c db call) calls {j = i} f.1 (step-IsConsistent c db call f.0 v) n in
    (k, o, Survives-trans e s)

-- ===== src/Prewarm/OwnKey.antt =====
-- app_v1/sdk/master/python/gpstation_master/client.py: a job gets a connection that was prepared for its key.
use mathlib.Core.Path.{subst}
use gpstation.Prelude.{
  ℕ, false, Option, none, some, ◌≡◌, inl, inr, refl, sym, ap, ◌∙◌, arith, ◌==◌, Bool-cases, is_id,
  contains,
}
use gpstation.Prelude.Dict.{get, get-empty, values}
use gpstation.Prelude.Entries.{none_not_some}
use gpstation.Prewarm.Pool.{
  TaskState, built, failed, Caller, Pool, new_pool, prepared_is_usable, has_usable, pop_stale,
  await_task, begin_prewarm, close_stale, forget_task, store, keep, leave, finish_prewarm,
  fail_prewarm, cancel_caller, take_from, take_prepared_connection, cancel_tasks,
  clear_prewarmed_job_connections, close,
}
use gpstation.Prewarm.Steps.{
  Step, begins, closes_stale, builds, fails, finishes, gives_up, leaves, is_cancelled, takes, dies,
  clears, closes, Reach,
}
use gpstation.Prewarm.Sound.{
  IsAt, put_pool-IsSound, pop_pool-IsSound, pop_task-IsSound, put_caller-IsSound,
  pop_caller-IsSound, later-IsSound, cleared-IsSound,
}
use gpstation.Prewarm.Later.{
  end-IsLater, all_cancelled-IsLater, IsPoolSound, pop_stale-IsSound, await_task-IsSound, at_same,
}

begin_with :
    (caller key task : ℕ) (o : Option ℕ) (s : Pool)
    → IsPoolSound s
    → get s.tasks task ≡ none
    → IsPoolSound (await_task caller key o task (get s.prewarm_tasks key) (pop_stale key o s))
begin_with caller key task none s v fresh =
    await_task-IsSound caller key none task (get s.prewarm_tasks key) s v fresh refl
begin_with caller key task (some c) s v fresh =
    await_task-IsSound caller key (some c) task (get s.prewarm_tasks key) (pop_stale key (some c) s)
      (pop_stale-IsSound key (some c) s v) fresh refl

begin_prewarm-IsSound :
    (caller key task : ℕ) (s : Pool)
    → IsPoolSound s
    → get s.tasks task ≡ none
    → IsPoolSound (begin_prewarm caller key task s)
unfolding begin_prewarm
begin_prewarm-IsSound caller key task s v fresh = elim (Bool-cases s.is_closed) [
  | inl done ↦ simp done v
  | inr live ↦ elim (Bool-cases (has_usable s (get s.prewarmed_connections key))) [
    | inl there ↦ simp (live, there) v
    | inr none_there ↦
        simp (live, none_there)
          (begin_with caller key task (get s.prewarmed_connections key) s v fresh)
  ]
]

forget_task-IsSound :
    (caller : Caller) (s : Pool) → IsPoolSound s → IsPoolSound (forget_task caller s)
forget_task-IsSound caller s v =
    elim (Bool-cases (is_id (get s.prewarm_tasks caller.key) caller.task)) [
      | inl mine ↦
          simp mine (
            pop_task-IsSound s.prewarmed_connections s.prewarm_tasks s.tasks s.callers v caller.key)
      | inr other ↦ simp other v
    ]

store-IsSound :
    (caller : Caller) (o : Option ℕ) (s : Pool)
    → IsPoolSound s
    → IsAt s.tasks caller.task caller.key built
    → IsPoolSound (store caller o s)
store-IsSound caller none s v h =
    put_pool-IsSound s.prewarmed_connections s.prewarm_tasks s.tasks s.callers v caller.key
      caller.task h
store-IsSound caller (some c) s v h = elim (Bool-cases (c == caller.task)) [
  | inl same ↦ simp same v
  | inr other ↦ simp other v
]

keep-IsSound :
    (caller : Caller) (s : Pool)
    → IsPoolSound s
    → IsAt s.tasks caller.task caller.key built
    → IsPoolSound (keep caller s)
keep-IsSound caller s v h = elim (Bool-cases s.is_closed) [
  | inl done ↦ simp done v
  | inr live ↦ simp live (store-IsSound caller (get s.prewarmed_connections caller.key) s v h)
]

leave-IsSound : (id : ℕ) (s : Pool) → IsPoolSound s → IsPoolSound (leave id s)
leave-IsSound id s v =
    pop_caller-IsSound s.prewarmed_connections s.prewarm_tasks s.tasks s.callers v id

own_task :
    (s : Pool) (id : ℕ) (caller : Caller) (key : ℕ) (state : TaskState)
    → IsPoolSound s
    → get s.callers id ≡ some caller
    → IsAt s.tasks caller.task key state
    → IsAt s.tasks caller.task caller.key state
own_task s id caller key state v there e =
    let (r, own) = v.called id caller there in
    let same =
      (at_same (record { key = key; state = state }) (record { key = caller.key; state = r })
        (sym e ∙ own)).0 in
    subst (λ k. IsAt s.tasks caller.task k state) same e

take_from-IsSound :
    (key : ℕ) (o : Option ℕ) (s : Pool) → IsPoolSound s → IsPoolSound (take_from key o s).1
take_from-IsSound key none s v = v
take_from-IsSound key (some c) s v =
    let w = pop_pool-IsSound s.prewarmed_connections s.prewarm_tasks s.tasks s.callers v key in
    elim (Bool-cases (prepared_is_usable s c)) [ inl fine ↦ simp fine w | inr dead ↦ simp dead w ]

clear-IsSound : (s : Pool) → IsPoolSound s → IsPoolSound (clear_prewarmed_job_connections s)
unfolding clear_prewarmed_job_connections
clear-IsSound s v =
    let us = cancel_tasks (values s.prewarm_tasks) s.tasks in
    let w =
      later-IsSound s.prewarmed_connections s.prewarm_tasks s.tasks s.callers v us
        (all_cancelled-IsLater (values s.prewarm_tasks) s.tasks) in
    cleared-IsSound s.prewarmed_connections s.prewarm_tasks us s.callers w

Step-IsSound : {s u : Pool} → Step s u → IsPoolSound s → IsPoolSound u
unfolding close_stale finish_prewarm fail_prewarm cancel_caller take_prepared_connection close
Step-IsSound {s = s} (begins caller key task free fresh) v =
    begin_prewarm-IsSound caller key task s v fresh
Step-IsSound {s = s} (closes_stale id c caller there e) v =
    put_caller-IsSound s.prewarmed_connections s.prewarm_tasks s.tasks s.callers v id
      (record caller { stale = none }) (v.called id caller there)
Step-IsSound {s = s} (builds t key e) v =
    later-IsSound s.prewarmed_connections s.prewarm_tasks s.tasks s.callers v _
      (end-IsLater s.tasks t key built e)
Step-IsSound {s = s} (fails t key e) v =
    later-IsSound s.prewarmed_connections s.prewarm_tasks s.tasks s.callers v _
      (end-IsLater s.tasks t key failed e)
Step-IsSound {s = s} (finishes id caller key there free e) v =
    let h : IsAt s.tasks caller.task caller.key built = own_task s id caller key built v there e in
    leave-IsSound id (keep caller (forget_task caller s))
      (keep-IsSound caller (forget_task caller s) (forget_task-IsSound caller s v) h)
Step-IsSound {s = s} (gives_up id caller key there free e) v =
    leave-IsSound id (forget_task caller s) (forget_task-IsSound caller s v)
Step-IsSound {s = s} (leaves id caller key there free e) v = leave-IsSound id s v
Step-IsSound {s = s} (is_cancelled id caller there) v = leave-IsSound id s v
Step-IsSound {s = s} (takes key) v = take_from-IsSound key (get s.prewarmed_connections key) s v
Step-IsSound {s = s} (dies c) v = v
Step-IsSound {s = s} clears v = clear-IsSound s v
Step-IsSound {s = s} closes v = elim (Bool-cases s.is_closed) [
  | inl done ↦ simp done v
  | inr live ↦ simp live (clear-IsSound s v)
]

reached-IsSound : {s : Pool} → Reach new_pool s → IsPoolSound s
reached-IsSound Reach.here = record {
  pooled = λ key c e. absurd (ground (arith, sym (get-empty {V = ℕ} key) ∙ e));
  tasked = λ key t e. absurd (ground (arith, sym (get-empty {V = ℕ} key) ∙ e));
  called = λ id c e. absurd (none_not_some c (sym (get-empty {V = Caller} id) ∙ e));
}
reached-IsSound (Reach.next r st) = Step-IsSound st (reached-IsSound r)

taken_from :
    (key : ℕ) (o : Option ℕ) (s : Pool) (c : ℕ)
    → (take_from key o s).0 ≡ some c
    → (o ≡ some c) × (contains s.shut c ≡ false)
taken_from key none s c e = absurd (ground (arith, e))
taken_from key (some d) s c e = elim (Bool-cases (contains s.shut d)) [
  | inl dead ↦ absurd (ground (arith, rw dead at e))
  | inr fine ↦
      let same : d ≡ c = ground (arith, rw fine at e) in
      (ap some same, subst (λ x. contains s.shut x ≡ false) same fine)
]

-- Whatever prewarms, jobs, cancellations and failures come in whatever order, a prepared connection that a job takes
-- was built for the key that the job asks for, and is not closed at that moment.
pub own_key :
    (s : Pool) (key c : ℕ)
    → Reach new_pool s
    → (take_prepared_connection key s).0 ≡ some c
    → (get s.tasks c ≡ some (record { key = key; state = built })) × (contains s.shut c ≡ false)
unfolding take_prepared_connection
own_key s key c r e =
    let (there, fine) = taken_from key (get s.prewarmed_connections key) s c e in
    ((reached-IsSound r).pooled key c there, fine)

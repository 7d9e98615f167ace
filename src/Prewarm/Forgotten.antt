-- ===== src/Prewarm/Forgotten.antt =====
-- app_v1/sdk/master/python/gpstation_master/client.py: no connection that has been built is forgotten, except with a
-- caller that is cancelled.

use gpstation.Prelude.{
  ℕ, Bool, true, false, Option, none, some, List, [], ◌∷◌, ◌++◌, ◌≡◌, inl, inr, refl, sym, ap, ◌∙◌,
  arith, ◌==◌, ==_iff, Bool-cases, if◌then◌else◌, contains, Memᴰ,
}
use gpstation.Prelude.Dict.{
  Dict, get, pop, map_option, get-put, get-pop, get-adjust, get-empty, empty, values, get-values,
}
use gpstation.Prewarm.Pool.{
  TaskState, running, built, failed, cancelled, Task, Pool, new_pool, forget_task, fail_prewarm,
  take_from, take_prepared_connection, cancel_task, cancel_tasks, clear_prewarmed_job_connections,
  close,
}
use gpstation.Prelude.Entries.{some_inj}
use gpstation.Prewarm.Steps.{
  end_task, Step, begins, closes_stale, builds, fails, finishes, gives_up, leaves, is_cancelled,
  takes, dies, clears, closes, Reach,
}
use gpstation.Prewarm.Kept.{
  goes_on, is_live, IsKept, prepared, shut, used, AllKept, more_shut, other_pool, pool-IsKept,
  shut-IsKept, used-IsKept,
}
use gpstation.Prewarm.Accounts.{begin_prewarm-AllKept, close_stale-AllKept}
use gpstation.Prewarm.Leaving.{shut-AllKept, finish-AllKept, dead_and_leave, cancel_caller-AllKept}

-- The end of a task, of which another task knows nothing.
ended-AllKept :
    (t key : ℕ) (state : TaskState) (s : Pool)
    → get s.tasks t ≡ some (record { key = key; state = running })
    → AllKept s
    → AllKept (end_task t key state s)
ended-AllKept t key state s e v j h =
    let was : is_live (get s.tasks j) ≡ true = elim (Bool-cases (t == j)) [
      | inl same ↦ ap is_live (ap (get s.tasks) (sym ((==_iff t j).0 same)) ∙ e)
      | inr other ↦
          ap is_live (sym (rw other at (get-put s.tasks t j (record { key = key; state = state }))))
          ∙ h
    ] in
    v j was

-- What is popped is elsewhere.
taken-IsKept :
    (key c t : ℕ) (s : Pool)
    → get s.prewarmed_connections key ≡ some c
    → (c ≡ t → IsKept (record s { prewarmed_connections = pop s.prewarmed_connections key }) t)
    → IsKept s t
    → IsKept (record s { prewarmed_connections = pop s.prewarmed_connections key }) t
taken-IsKept key c t s e elsewhere = pool-IsKept s t (pop s.prewarmed_connections key) (λ k p.
    elim (Bool-cases (key == k)) [
      | inl same ↦
          elsewhere
            (some_inj c t (sym e ∙ ap (get s.prewarmed_connections) ((==_iff key k).0 same) ∙ p))
      | inr other ↦ prepared k (rw other at (get-pop s.prewarmed_connections key k) ∙ p)
    ])

take_from-AllKept :
    (key : ℕ) (o : Option ℕ) (s : Pool)
    → get s.prewarmed_connections key ≡ o
    → AllKept s
    → AllKept (take_from key o s).1
take_from-AllKept key none s e v = v
take_from-AllKept key (some c) s e v = elim (Bool-cases (contains s.shut c)) [
  | inl dead ↦ rw dead (λ t h.
      taken-IsKept key c t (record s { shut = c ∷ s.shut }) e (λ same. shut (ground (arith, same)))
        (shut-IsKept s t c (v t h)))
  | inr fine ↦ rw fine (λ t h.
      taken-IsKept key c t (record s { runs = c ∷ s.runs }) e (λ same. used (ground (arith, same)))
        (used-IsKept s t c (v t h)))
]

live_before : (o : Option Task) → is_live (map_option cancel_task o) ≡ true → is_live o ≡ true
live_before none h = h
live_before (some x) h =
    elim x.state
        as (λ st.
          is_live (some (cancel_task (record { key = x.key; state = st }))) ≡ true
          → goes_on st ≡ true) [
            | running ↦ λ h. cc
            | built ↦ λ h. refl
            | failed ↦ λ h. h
            | cancelled ↦ λ h. h
          ]
      h

all_live_before :
    (l : List ℕ) (ts : Dict Task) (t : ℕ)
    → is_live (get (cancel_tasks l ts) t) ≡ true
    → is_live (get ts t) ≡ true
all_live_before [] ts t h = h
all_live_before (x ∷ l) ts t h = all_live_before l ts t (elim (Bool-cases (x == t)) [
  | inl same ↦
      live_before (get (cancel_tasks l ts) t)
        (ap is_live (sym (rw same at (get-adjust (cancel_tasks l ts) x t cancel_task))) ∙ h)
  | inr other ↦ ap is_live (sym (rw other at (get-adjust (cancel_tasks l ts) x t cancel_task))) ∙ h
])

In-contains : (l r : List ℕ) (c : ℕ) → Memᴰ c l → contains (l ++ r) c ≡ true
In-contains [] r c m = elim m [ ]
In-contains (x ∷ l) r c (Memᴰ.head e) = ground (arith, e)
In-contains (x ∷ l) r c (Memᴰ.tail m) = ground (arith, In-contains l r c m)

contains-append : (l r : List ℕ) (c : ℕ) → contains r c ≡ true → contains (l ++ r) c ≡ true
contains-append [] r c h = h
contains-append (x ∷ l) r c h = ground (arith, contains-append l r c h)

clear-AllKept : (s : Pool) → AllKept s → AllKept (clear_prewarmed_job_connections s)
unfolding clear_prewarmed_job_connections
clear-AllKept s v = λ t h.
    let all = values s.prewarmed_connections ++ s.shut in
    other_pool s.prewarmed_connections all s.runs s.abandoned s.callers t empty
      (λ k p. shut (
        In-contains (values s.prewarmed_connections) s.shut t
          (get-values s.prewarmed_connections k p)))
      (more_shut s.prewarmed_connections s.shut s.runs s.abandoned s.callers t all
        (contains-append (values s.prewarmed_connections) s.shut t)
        (v t (all_live_before (values s.prewarm_tasks) s.tasks t h)))

close_if :
    (b : Bool) (s : Pool)
    → AllKept s
    → AllKept (if b then s else record (clear_prewarmed_job_connections s) { is_closed = true })
close_if true s v = v
close_if false s v = clear-AllKept s v

Step-AllKept : {s u : Pool} → Step s u → AllKept s → AllKept u
unfolding fail_prewarm take_prepared_connection close
Step-AllKept {s = s} (begins caller key task free fresh) v =
    begin_prewarm-AllKept caller key task s free v
Step-AllKept {s = s} (closes_stale id c caller there e) v =
    close_stale-AllKept id caller c s there v
Step-AllKept {s = s} (builds t key e) v = ended-AllKept t key built s e v
Step-AllKept {s = s} (fails t key e) v = ended-AllKept t key failed s e v
Step-AllKept {s = s} (finishes id caller key there free e) v = finish-AllKept id caller s there v
Step-AllKept {s = s} (gives_up id caller key there free e) v =
    dead_and_leave id caller (forget_task caller s) (record { key = key; state = failed }) there e
      refl v
Step-AllKept {s = s} (leaves id caller key there free e) v =
    dead_and_leave id caller s (record { key = key; state = cancelled }) there e refl v
Step-AllKept {s = s} (is_cancelled id caller there) v = cancel_caller-AllKept id caller s there v
Step-AllKept {s = s} (takes key) v =
    take_from-AllKept key (get s.prewarmed_connections key) s refl v
Step-AllKept {s = s} (dies c) v = shut-AllKept c s v
Step-AllKept {s = s} clears v = clear-AllKept s v
Step-AllKept {s = s} closes v = close_if s.is_closed s v

reached-AllKept : {s : Pool} → Reach new_pool s → AllKept s
reached-AllKept Reach.here =
    λ t h. absurd (ground (arith, sym h ∙ ap is_live (get-empty {V = Task} t)))
reached-AllKept (Reach.next r st) = Step-AllKept st (reached-AllKept r)

-- Whatever prewarms, jobs, cancellations and failures come in whatever order, a connection that has been built is
-- prepared for a job, closed, taken by a job, or awaited by a caller, unless one of its callers was cancelled.
pub accounted :
    (s : Pool) (t key : ℕ)
    → Reach new_pool s
    → get s.tasks t ≡ some (record { key = key; state = built })
    → IsKept s t
accounted s t key r e = reached-AllKept r t (ap is_live e)

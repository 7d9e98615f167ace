-- ===== src/Prewarm/Leaving.antt =====
-- app_v1/sdk/master/python/gpstation_master/client.py: no connection is forgotten when a caller leaves, except with
-- one that is cancelled.
use mathlib.Core.Path.{subst}
use gpstation.Prelude.{
  ℕ, Bool, true, false, Option, none, some, List, ◌∷◌, ◌≡◌, inl, inr, refl, sym, ap, ◌∙◌, arith,
  ◌==◌, ==_iff, Bool-cases, if◌then◌else◌, contains,
}
use gpstation.Prelude.Dict.{get, put, pop, get-pop}
use gpstation.Prewarm.Pool.{
  Task, Caller, Pool, forget_task, store, leave, finish_prewarm, cancel_caller,
}
use gpstation.Prelude.Entries.{some_inj, there-put, put-free}
use gpstation.Prewarm.Kept.{
  goes_on, is_live, IsKept, prepared, shut, dropped, awaited, AllKept, pool-IsKept, shut-IsKept,
  dropped-IsKept, callers-IsKept,
}

-- A caller that leaves has done something about its connection.
leave-AllKept :
    (id : ℕ) (caller : Caller) (s : Pool)
    → get s.callers id ≡ some caller
    → (is_live (get s.tasks caller.task) ≡ true → IsKept (leave id s) caller.task)
    → AllKept s
    → AllKept (leave id s)
leave-AllKept id caller s there own v = λ t h.
    callers-IsKept s t (pop s.callers id)
      (λ j d p task. elim (Bool-cases (id == j)) [
        | inl same ↦
            let it : caller ≡ d =
              some_inj caller d (sym there ∙ ap (get s.callers) ((==_iff id j).0 same) ∙ p) in
            let mine : caller.task ≡ t = ap (λ x. x.task) it ∙ task in
            subst (λ i. is_live (get s.tasks i) ≡ true → IsKept (leave id s) i) mine own h
        | inr other ↦ awaited j d (rw other at (get-pop s.callers id j) ∙ p) task
      ])
      (v t h)

-- More is shut.
pub shut-AllKept : (c : ℕ) (s : Pool) → AllKept s → AllKept (record s { shut = c ∷ s.shut })
shut-AllKept c s v = λ t h. shut-IsKept s t c (v t h)

put_pool-AllKept :
    (key c : ℕ) (s : Pool)
    → get s.prewarmed_connections key ≡ none
    → AllKept s
    → AllKept (record s { prewarmed_connections = put s.prewarmed_connections key c })
put_pool-AllKept key c s free v = λ t h.
    pool-IsKept s t (put s.prewarmed_connections key c)
      (λ k p. prepared k (put-free s.prewarmed_connections key k c t free p)) (v t h)

pub shut_there : (c : ℕ) (l : List ℕ) → contains (c ∷ l) c ≡ true
shut_there c l = ground arith

shut_and_leave :
    (id : ℕ) (caller : Caller) (s : Pool)
    → get s.callers id ≡ some caller
    → AllKept s
    → AllKept (leave id (record s { shut = caller.task ∷ s.shut }))
shut_and_leave id caller s there v =
    leave-AllKept id caller (record s { shut = caller.task ∷ s.shut }) there
      (λ live. shut (shut_there caller.task s.shut)) (shut-AllKept caller.task s v)

store_and_leave :
    (id : ℕ) (caller : Caller) (o : Option ℕ) (s : Pool)
    → get s.prewarmed_connections caller.key ≡ o
    → get s.callers id ≡ some caller
    → AllKept s
    → AllKept (leave id (store caller o s))
store_and_leave id caller none s e there v =
    leave-AllKept id caller (store caller none s) there
      (λ live. prepared caller.key (there-put s.prewarmed_connections caller.key caller.task))
      (put_pool-AllKept caller.key caller.task s e v)
store_and_leave id caller (some c) s e there v = elim (Bool-cases (c == caller.task)) [
  | inl same ↦ simp same (
      leave-AllKept id caller s there
        (λ live. prepared caller.key (e ∙ ap some ((==_iff c caller.task).0 same))) v)
  | inr other ↦ simp other (shut_and_leave id caller s there v)
]

shut_or_store :
    (id : ℕ) (caller : Caller) (is_shut : Bool) (s : Pool)
    → get s.callers id ≡ some caller
    → AllKept s
    → AllKept (
        leave id (
          if is_shut
          then record s { shut = caller.task ∷ s.shut }
          else store caller (get s.prewarmed_connections caller.key) s))
shut_or_store id caller true s there v = shut_and_leave id caller s there v
shut_or_store id caller false s there v =
    store_and_leave id caller (get s.prewarmed_connections caller.key) s refl there v

pub finish-AllKept :
    (id : ℕ) (caller : Caller) (s : Pool)
    → get s.callers id ≡ some caller
    → AllKept s
    → AllKept (finish_prewarm id caller s)
unfolding finish_prewarm
finish-AllKept id caller s there v =
    shut_or_store id caller s.is_closed (forget_task caller s) there v

-- The caller's task has come to nothing.
pub dead_and_leave :
    (id : ℕ) (caller : Caller) (s : Pool) (x : Task)
    → get s.callers id ≡ some caller
    → get s.tasks caller.task ≡ some x
    → goes_on x.state ≡ false
    → AllKept s
    → AllKept (leave id s)
dead_and_leave id caller s x there e dead v =
    leave-AllKept id caller s there
      (λ live. absurd (ground (arith, sym live ∙ ap is_live e ∙ dead))) v

pub cancel_caller-AllKept :
    (id : ℕ) (caller : Caller) (s : Pool)
    → get s.callers id ≡ some caller
    → AllKept s
    → AllKept (cancel_caller id caller s)
unfolding cancel_caller
cancel_caller-AllKept id caller s there v =
    leave-AllKept id caller (record s { abandoned = caller.task ∷ s.abandoned }) there
      (λ live. dropped (shut_there caller.task s.abandoned))
      (λ t h. dropped-IsKept s t caller.task (v t h))

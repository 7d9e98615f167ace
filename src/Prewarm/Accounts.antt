-- ===== src/Prewarm/Accounts.antt =====
-- app_v1/sdk/master/python/gpstation_master/client.py: no connection is forgotten when a caller comes.

use gpstation.Prelude.{
  ℕ, true, false, Option, none, some, ◌∷◌, ◌≡◌, ◌⊎◌, inl, inr, refl, sym, ap, ◌∙◌, arith, ◌==◌,
  ==_iff, Bool-cases, contains,
}
use gpstation.Prelude.Dict.{get, put, pop, get-put, get-pop}
use gpstation.Prewarm.Pool.{
  running, Caller, Pool, has_usable, pop_stale, await_task, begin_prewarm, close_stale,
}
use gpstation.Prelude.Entries.{some_inj, there-put, put-free}
use gpstation.Prewarm.Kept.{
  is_live, IsKept, prepared, shut, awaited, AllKept, pool-IsKept, shut-IsKept, callers-IsKept,
}

begins-pool :
    (key : ℕ) (o : Option ℕ) (s : Pool)
    → get s.prewarmed_connections key ≡ o
    → has_usable s o ≡ false
    → (k c : ℕ) → get s.prewarmed_connections k ≡ some c
    → (get (pop_stale key o s).prewarmed_connections k ≡ some c) ⊎ (contains s.shut c ≡ true)
begins-pool key none s e bad k c there = inl there
begins-pool key (some d) s e bad k c there = elim (Bool-cases (key == k)) [
  | inl same ↦
      let it : d ≡ c =
        some_inj d c (sym e ∙ ap (get s.prewarmed_connections) ((==_iff key k).0 same) ∙ there) in
      inr (ap (contains s.shut) (sym it) ∙ ground (arith, bad))
  | inr other ↦ inl (rw other at (get-pop s.prewarmed_connections key k) ∙ there)
]

pop_stale-AllKept :
    (key : ℕ) (o : Option ℕ) (s : Pool)
    → get s.prewarmed_connections key ≡ o
    → has_usable s o ≡ false
    → AllKept s
    → AllKept (pop_stale key o s)
pop_stale-AllKept key none s e bad v = v
pop_stale-AllKept key (some d) s e bad v = λ t h.
    pool-IsKept s t (pop s.prewarmed_connections key)
      (λ k there. elim (begins-pool key (some d) s e bad k t there) [
        | inl p ↦ prepared k p
        | inr p ↦ shut p
      ])
      (v t h)

called_too :
    (s : Pool) (t id : ℕ) (c : Caller)
    → get s.callers id ≡ none
    → IsKept s t
    → IsKept (record s { callers = put s.callers id c }) t
called_too s t id c free =
    callers-IsKept s t (put s.callers id c)
      (λ j d p same. awaited j d (put-free s.callers id j c d free p) same)

await-AllKept :
    (caller key task : ℕ) (stale : Option ℕ) (o : Option ℕ) (s : Pool)
    → get s.callers caller ≡ none
    → AllKept s
    → AllKept (await_task caller key stale task o s)
await-AllKept caller key task stale none s free v = λ t h. elim (Bool-cases (task == t)) [
  | inl same ↦
      awaited caller (record { key = key; task = task; stale = stale })
        (there-put s.callers caller _) ((==_iff task t).0 same)
  | inr other ↦
      called_too s t caller (record { key = key; task = task; stale = stale }) free
        (v t (
          ap is_live
            (sym (rw other at (get-put s.tasks task t (record { key = key; state = running }))))
          ∙ h))
]
await-AllKept caller key task stale (some old) s free v =
    λ t h. called_too s t caller (record { key = key; task = old; stale = stale }) free (v t h)

begin_with :
    (caller key task : ℕ) (o : Option ℕ) (s : Pool)
    → get s.prewarmed_connections key ≡ o
    → has_usable s o ≡ false
    → get s.callers caller ≡ none
    → AllKept s
    → AllKept (await_task caller key o task (get s.prewarm_tasks key) (pop_stale key o s))
begin_with caller key task none s e bad free v =
    await-AllKept caller key task none (get s.prewarm_tasks key) s free v
begin_with caller key task (some d) s e bad free v =
    await-AllKept caller key task (some d) (get s.prewarm_tasks key) (pop_stale key (some d) s) free
      (pop_stale-AllKept key (some d) s e bad v)

pub begin_prewarm-AllKept :
    (caller key task : ℕ) (s : Pool)
    → get s.callers caller ≡ none
    → AllKept s
    → AllKept (begin_prewarm caller key task s)
unfolding begin_prewarm
begin_prewarm-AllKept caller key task s free v = elim (Bool-cases s.is_closed) [
  | inl done ↦ simp done v
  | inr live ↦ elim (Bool-cases (has_usable s (get s.prewarmed_connections key))) [
    | inl there ↦ simp (live, there) v
    | inr bad ↦
        simp (live, bad)
          (begin_with caller key task (get s.prewarmed_connections key) s refl bad free v)
  ]
]

pub close_stale-AllKept :
    (id : ℕ) (caller : Caller) (c : ℕ) (s : Pool)
    → get s.callers id ≡ some caller
    → AllKept s
    → AllKept (close_stale id caller c s)
unfolding close_stale
close_stale-AllKept id caller c s there v = λ t h.
    callers-IsKept (record s { shut = c ∷ s.shut }) t
      (put s.callers id (record caller { stale = none }))
      (λ j d p task. elim (Bool-cases (id == j)) [
        | inl same ↦
            let it : caller ≡ d =
              some_inj caller d (sym there ∙ ap (get s.callers) ((==_iff id j).0 same) ∙ p) in
            awaited id (record caller { stale = none }) (there-put s.callers id _)
              (ap (λ x. x.task) it ∙ task)
        | inr other ↦
            awaited j d (rw other at (get-put s.callers id j (record caller { stale = none })) ∙ p)
              task
      ])
      (shut-IsKept s t c (v t h))

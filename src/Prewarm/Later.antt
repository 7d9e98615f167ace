-- ===== src/Prewarm/Later.antt =====
-- app_v1/sdk/master/python/gpstation_master/client.py: tasks keep their keys and what they have built, whatever
-- happens.
use gpstation.Prelude.{
  ℕ, Option, none, some, List, [], ◌∷◌, ◌≡◌, inl, inr, refl, sym, ap, ◌∙◌, arith, ◌==◌, ==_iff,
  Bool-cases,
}
use gpstation.Prelude.Dict.{Dict, get, put, adjust, map_option, get-put, get-adjust}
use gpstation.Prelude.Entries.{there-put}
use gpstation.Prewarm.Pool.{
  TaskState, running, built, failed, cancelled, Task, Pool, pop_stale, await_task, cancel_task,
  cancel_tasks,
}
use gpstation.Prewarm.Sound.{
  IsAt, IsOf, IsLater, IsSound, pop_pool-IsSound, put_task-IsSound, put_caller-IsSound,
  later-IsSound,
}

put-IsLater :
    (ts : Dict Task) (t : ℕ) (x : Task)
    → ((key : ℕ) → IsOf ts t key → x.key ≡ key)
    → ((key : ℕ) → IsAt ts t key built → x.state ≡ built)
    → IsLater ts (put ts t x)
put-IsLater ts t x own h = record {
  same = λ j key (state, e). elim (Bool-cases (t == j)) [
    | inl s ↦
        let there : get ts t ≡ some (record { key = key; state = state }) =
          ap (get ts) ((==_iff t j).0 s) ∙ e in
        let k : x.key ≡ key = own key (state, there) in
        (
          x.state,
          rw s at (get-put ts t j x) ∙ ap (λ i. some (record { key = i; state = x.state })) k,
        )
    | inr s ↦ (state, rw s at (get-put ts t j x) ∙ e)
  ];
  done = λ j key e. elim (Bool-cases (t == j)) [
    | inl s ↦
        let there : get ts t ≡ some (record { key = key; state = built }) =
          ap (get ts) ((==_iff t j).0 s) ∙ e in
        rw s at (get-put ts t j x)
        ∙ ap (λ i. some (record { key = i; state = x.state })) (own key (built, there))
        ∙ ap (λ i. some (record { key = key; state = i })) (h key there)
    | inr s ↦ rw s at (get-put ts t j x) ∙ e
  ];
}

pub fresh-IsLater : (ts : Dict Task) (t : ℕ) (x : Task) → get ts t ≡ none → IsLater ts (put ts t x)
fresh-IsLater ts t x e =
    put-IsLater ts t x (λ key (state, there). absurd (ground (arith, sym e ∙ there)))
      (λ key there. absurd (ground (arith, sym e ∙ there)))

pub at_same : (x y : Task) → some x ≡ some y → (x.key ≡ y.key) × (x.state ≡ y.state)
at_same x y e = let same : x ≡ y = cc in (ap (λ z. z.key) same, ap (λ z. z.state) same)

running_not_built : running ≡ built → ⊥
running_not_built e = cc

pub end-IsLater :
    (ts : Dict Task) (t key : ℕ) (state : TaskState)
    → IsAt ts t key running
    → IsLater ts (put ts t (record { key = key; state = state }))
end-IsLater ts t key state e =
    put-IsLater ts t (record { key = key; state = state })
      (λ k (r, there).
        (at_same (record { key = key; state = running }) (record { key = k; state = r })
          (sym e ∙ there)).0)
      (λ k there. absurd (
        running_not_built
          (at_same (record { key = key; state = running }) (record { key = k; state = built })
            (sym e ∙ there)).1))

cancelled_of :
    (key : ℕ) (state : TaskState)
    → (next : TaskState) × (cancel_task (record { key = key; state = state })
        ≡ record { key = key; state = next })
cancelled_of key running = (cancelled, refl)
cancelled_of key built = (built, refl)
cancelled_of key failed = (failed, refl)
cancelled_of key cancelled = (cancelled, refl)

cancel-IsLater : (ts : Dict Task) (t : ℕ) → IsLater ts (adjust ts t cancel_task)
cancel-IsLater ts t = record {
  same = λ j key (state, e). elim (Bool-cases (t == j)) [
    | inl s ↦
        let (next, same) = cancelled_of key state in
        (
          next,
          rw s at (get-adjust ts t j cancel_task) ∙ ap (map_option cancel_task) e ∙ ap some same,
        )
    | inr s ↦ (state, rw s at (get-adjust ts t j cancel_task) ∙ e)
  ];
  done = λ j key e. elim (Bool-cases (t == j)) [
    | inl s ↦ rw s at (get-adjust ts t j cancel_task) ∙ ap (map_option cancel_task) e
    | inr s ↦ rw s at (get-adjust ts t j cancel_task) ∙ e
  ];
}

IsLater-trans : (ts us vs : Dict Task) → IsLater ts us → IsLater us vs → IsLater ts vs
IsLater-trans ts us vs h k = record {
  same = λ t key e. k.same t key (h.same t key e);
  done = λ t key e. k.done t key (h.done t key e);
}

pub all_cancelled-IsLater : (l : List ℕ) (ts : Dict Task) → IsLater ts (cancel_tasks l ts)
all_cancelled-IsLater [] ts = record { same = λ t key e. e; done = λ t key e. e }
all_cancelled-IsLater (t ∷ l) ts =
    IsLater-trans ts (cancel_tasks l ts) (cancel_tasks (t ∷ l) ts) (all_cancelled-IsLater l ts)
      (cancel-IsLater (cancel_tasks l ts) t)

abbrev pub IsPoolSound : Pool → Type 0
IsPoolSound s = IsSound s.prewarmed_connections s.prewarm_tasks s.tasks s.callers

pub pop_stale-IsSound :
    (key : ℕ) (o : Option ℕ) (s : Pool) → IsPoolSound s → IsPoolSound (pop_stale key o s)
pop_stale-IsSound key none s v = v
pop_stale-IsSound key (some c) s v =
    pop_pool-IsSound s.prewarmed_connections s.prewarm_tasks s.tasks s.callers v key

pub await_task-IsSound :
    (caller key : ℕ) (stale : Option ℕ) (task : ℕ) (o : Option ℕ) (s : Pool)
    → IsPoolSound s
    → get s.tasks task ≡ none
    → get s.prewarm_tasks key ≡ o
    → IsPoolSound (await_task caller key stale task o s)
await_task-IsSound caller key stale task none s v fresh e =
    let x : Task = record { key = key; state = running } in
    let ts = put s.tasks task x in
    let of : IsOf ts task key = (running, there-put s.tasks task x) in
    put_caller-IsSound s.prewarmed_connections (put s.prewarm_tasks key task) ts s.callers
      (put_task-IsSound s.prewarmed_connections s.prewarm_tasks ts s.callers
        (later-IsSound s.prewarmed_connections s.prewarm_tasks s.tasks s.callers v ts
          (fresh-IsLater s.tasks task x fresh))
        key task of)
      caller (record { key = key; task = task; stale = stale }) of
await_task-IsSound caller key stale task (some old) s v fresh e =
    put_caller-IsSound s.prewarmed_connections s.prewarm_tasks s.tasks s.callers v caller
      (record { key = key; task = old; stale = stale }) (v.tasked key old e)

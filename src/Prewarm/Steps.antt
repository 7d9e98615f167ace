-- ===== src/Prewarm/Steps.antt =====
-- app_v1/sdk/master/python/gpstation_master/client.py: what may happen to the prepared connections, in any order.
use gpstation.Prelude.{ℕ, none, some, ◌∷◌, ◌≡◌}
use gpstation.Prelude.Dict.{get, put}
use gpstation.Prewarm.Pool.{
  TaskState, running, built, failed, cancelled, Caller, Pool, begin_prewarm, close_stale,
  finish_prewarm, fail_prewarm, cancel_caller, leave, take_prepared_connection,
  clear_prewarmed_job_connections, close,
}

abbrev pub end_task : ℕ → ℕ → TaskState → Pool → Pool
end_task t key state s = record s { tasks = put s.tasks t (record { key = key; state = state }) }

pub data Step (s : Pool) : Pool → Type 0 where
  begins :
      (caller key task : ℕ)
      → get s.callers caller ≡ none
      → get s.tasks task ≡ none
      → Step s (begin_prewarm caller key task s)
  closes_stale :
      (id c : ℕ) (caller : Caller)
      → get s.callers id ≡ some caller
      → caller.stale ≡ some c
      → Step s (close_stale id caller c s)
  builds :
      (t key : ℕ)
      → get s.tasks t ≡ some (record { key = key; state = running })
      → Step s (end_task t key built s)
  fails :
      (t key : ℕ)
      → get s.tasks t ≡ some (record { key = key; state = running })
      → Step s (end_task t key failed s)
  finishes :
      (id : ℕ) (caller : Caller) (key : ℕ)
      → get s.callers id ≡ some caller
      → caller.stale ≡ none
      → get s.tasks caller.task ≡ some (record { key = key; state = built })
      → Step s (finish_prewarm id caller s)
  gives_up :
      (id : ℕ) (caller : Caller) (key : ℕ)
      → get s.callers id ≡ some caller
      → caller.stale ≡ none
      → get s.tasks caller.task ≡ some (record { key = key; state = failed })
      → Step s (fail_prewarm id caller s)
  leaves :
      (id : ℕ) (caller : Caller) (key : ℕ)
      → get s.callers id ≡ some caller
      → caller.stale ≡ none
      → get s.tasks caller.task ≡ some (record { key = key; state = cancelled })
      → Step s (leave id s)
  is_cancelled :
      (id : ℕ) (caller : Caller)
      → get s.callers id ≡ some caller
      → Step s (cancel_caller id caller s)
  takes : (key : ℕ) → Step s (take_prepared_connection key s).1
  dies : (c : ℕ) → Step s (record s { shut = c ∷ s.shut })
  clears : Step s (clear_prewarmed_job_connections s)
  closes : Step s (close s)

pub data Reach (s : Pool) : Pool → Type 0 where
  here : Reach s s
  next : {u v : Pool} → Reach s u → Step u v → Reach s v

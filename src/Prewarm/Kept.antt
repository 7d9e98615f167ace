-- ===== src/Prewarm/Kept.antt =====
-- app_v1/sdk/master/python/gpstation_master/client.py: where a connection that has been built is.

use gpstation.Prelude.{ℕ, Bool, true, false, Option, none, some, List, ◌∷◌, ◌≡◌, arith, contains}
use gpstation.Prelude.Dict.{Dict, get}
use gpstation.Prewarm.Pool.{TaskState, running, built, failed, cancelled, Task, Caller, Pool}

abbrev pub goes_on : TaskState → Bool
goes_on running = true
goes_on built = true
goes_on failed = false
goes_on cancelled = false

-- The task runs or has built its connection.
abbrev pub is_live : Option Task → Bool
is_live none = false
is_live (some task) = goes_on task.state

-- A connection that is prepared, shut, used, dropped or awaited, by these tables.
pub data IsKeptIn (ps : Dict ℕ) (shuts runs drops : List ℕ) (cs : Dict Caller) (t : ℕ)
    : Type 0 where
  prepared : (key : ℕ) → get ps key ≡ some t → IsKeptIn ps shuts runs drops cs t
  shut : contains shuts t ≡ true → IsKeptIn ps shuts runs drops cs t
  used : contains runs t ≡ true → IsKeptIn ps shuts runs drops cs t
  dropped : contains drops t ≡ true → IsKeptIn ps shuts runs drops cs t
  awaited :
      (id : ℕ) (caller : Caller)
      → get cs id ≡ some caller
      → caller.task ≡ t
      → IsKeptIn ps shuts runs drops cs t

abbrev pub IsKept : Pool → ℕ → Type 0
IsKept s t = IsKeptIn s.prewarmed_connections s.shut s.runs s.abandoned s.callers t

module _ (ps : Dict ℕ) (shuts runs drops : List ℕ) (cs : Dict Caller) (t : ℕ) where
  pub other_pool :
      (qs : Dict ℕ)
      → ((key : ℕ) → get ps key ≡ some t → IsKeptIn qs shuts runs drops cs t)
      → IsKeptIn ps shuts runs drops cs t
      → IsKeptIn qs shuts runs drops cs t
  other_pool qs m (prepared key e) = m key e
  other_pool qs m (shut e) = shut e
  other_pool qs m (used e) = used e
  other_pool qs m (dropped e) = dropped e
  other_pool qs m (awaited id caller e same) = awaited id caller e same

  pub more_shut :
      (l : List ℕ)
      → (contains shuts t ≡ true → contains l t ≡ true)
      → IsKeptIn ps shuts runs drops cs t
      → IsKeptIn ps l runs drops cs t
  more_shut l m (prepared key e) = prepared key e
  more_shut l m (shut e) = shut (m e)
  more_shut l m (used e) = used e
  more_shut l m (dropped e) = dropped e
  more_shut l m (awaited id caller e same) = awaited id caller e same

  pub more_used :
      (c : ℕ) → IsKeptIn ps shuts runs drops cs t → IsKeptIn ps shuts (c ∷ runs) drops cs t
  more_used c (prepared key e) = prepared key e
  more_used c (shut e) = shut e
  more_used c (used e) = used (ground (arith, e))
  more_used c (dropped e) = dropped e
  more_used c (awaited id caller e same) = awaited id caller e same

  pub more_dropped :
      (c : ℕ) → IsKeptIn ps shuts runs drops cs t → IsKeptIn ps shuts runs (c ∷ drops) cs t
  more_dropped c (prepared key e) = prepared key e
  more_dropped c (shut e) = shut e
  more_dropped c (used e) = used e
  more_dropped c (dropped e) = dropped (ground (arith, e))
  more_dropped c (awaited id caller e same) = awaited id caller e same

  pub other_callers :
      (ds : Dict Caller)
      → ((id : ℕ) (caller : Caller)
          → get cs id ≡ some caller
          → caller.task ≡ t
          → IsKeptIn ps shuts runs drops ds t)
      → IsKeptIn ps shuts runs drops cs t
      → IsKeptIn ps shuts runs drops ds t
  other_callers ds m (prepared key e) = prepared key e
  other_callers ds m (shut e) = shut e
  other_callers ds m (used e) = used e
  other_callers ds m (dropped e) = dropped e
  other_callers ds m (awaited id caller e same) = m id caller e same

-- Every connection that is built, or that is being built.
abbrev pub AllKept : Pool → Type 0
AllKept s = (t : ℕ) → is_live (get s.tasks t) ≡ true → IsKept s t

-- The same in another pool: what differs is one table.
module _ (s : Pool) (t : ℕ) where
  pub pool-IsKept :
      (qs : Dict ℕ)
      → ((key : ℕ)
          → get s.prewarmed_connections key ≡ some t
          → IsKept (record s { prewarmed_connections = qs }) t)
      → IsKept s t
      → IsKept (record s { prewarmed_connections = qs }) t
  pool-IsKept qs = other_pool s.prewarmed_connections s.shut s.runs s.abandoned s.callers t qs

  pub shut-IsKept : (c : ℕ) → IsKept s t → IsKept (record s { shut = c ∷ s.shut }) t
  shut-IsKept c =
      more_shut s.prewarmed_connections s.shut s.runs s.abandoned s.callers t (c ∷ s.shut)
        (λ e. ground (arith, e))

  pub used-IsKept : (c : ℕ) → IsKept s t → IsKept (record s { runs = c ∷ s.runs }) t
  used-IsKept = more_used s.prewarmed_connections s.shut s.runs s.abandoned s.callers t

  pub dropped-IsKept : (c : ℕ) → IsKept s t → IsKept (record s { abandoned = c ∷ s.abandoned }) t
  dropped-IsKept = more_dropped s.prewarmed_connections s.shut s.runs s.abandoned s.callers t

  pub callers-IsKept :
      (ds : Dict Caller)
      → ((id : ℕ) (caller : Caller)
          → get s.callers id ≡ some caller
          → caller.task ≡ t
          → IsKept (record s { callers = ds }) t)
      → IsKept s t
      → IsKept (record s { callers = ds }) t
  callers-IsKept ds = other_callers s.prewarmed_connections s.shut s.runs s.abandoned s.callers t ds
